-- ===== src/Accounting/Pricing/Buckets.antt =====
-- internal/inference/accounting/pricing.go: the normalized buckets are disjoint.
use yunhou_users.Common.{
  ap, ◌≡◌, refl, Bool, true, false, Option, none, some, ℤ, pos, ◌+ℤ◌, ◌-ℤ◌, ◌≤ℤ◌, IsInt64, sub64,
  add64_exact, sub64_exact, -ℤ_parts, int_laws, arith, max_int64, if◌then◌else◌,
}
use yunhou_users.Domain.Errors.{ok, >>=-eq-ok, ok_injective}
use mathlib.Core.Path.{subst}
use yunhou_users.Domain.Usage.{UsageBuckets}
use yunhou_users.Accounting.Pricing.{
  Inclusion, sub_bucket, add_bucket, billed_output, billable_buckets,
}

-- A count that an upstream reports: not negative.
abbrev pub IsCount : Option ℤ → Type 0
IsCount none = Unit
IsCount (some n) = (pos 0 ≤ℤ n) × (n ≤ℤ pos max_int64)

-- What a known bucket contributes.
abbrev pub known : Option ℤ → ℤ
known none = pos 0
known (some n) = n

-- The part of a total that lies inside it, by the flag.
abbrev pub counted : Bool → Option ℤ → ℤ
counted true part = known part
counted false part = pos 0

-- What is left of the total: unknown if the total is, else the exact difference.
abbrev pub IsRest : Option ℤ → ℤ → Option ℤ → Type 0
IsRest none part r = r ≡ none
IsRest (some b) part r =
    (n : ℤ) × (r ≡ some n) × (pos 0 ≤ℤ n) × (n ≤ℤ pos max_int64) × (n +ℤ part ≡ b)

sub_bucket-IsRest :
    (flag : Bool) (base part : Option ℤ) {r : Option ℤ}
    → IsCount base
    → IsCount part
    → (if flag then sub_bucket base part else ok base) ≡ ok r
    → IsRest base (counted flag part) r
unfolding sub_bucket
sub_bucket-IsRest true none part hb hp h = cc
sub_bucket-IsRest false none part hb hp h = cc
sub_bucket-IsRest false (some b) part hb hp h = (b, ground arith, hb.0, hb.1, omega int_laws)
sub_bucket-IsRest true (some b) none hb hp h = (b, ground arith, hb.0, hb.1, omega int_laws)
sub_bucket-IsRest true (some b) (some p) hb hp h =
    let e : sub64 b p ≡ b -ℤ p = sub64_exact b p (omega int_laws) in
    (b -ℤ p, ground (arith, e), ground (arith, -ℤ_parts b p), omega int_laws, omega int_laws)

IsRest-IsCount : (base : Option ℤ) (part : ℤ) (r : Option ℤ) → IsRest base part r → IsCount r
IsRest-IsCount none part r h = rw h tt
IsRest-IsCount (some b) part r (n, e, nonneg, small, _) = rw e (nonneg, small)

-- Two parts taken off a total, one after the other.
IsRest-of_IsRest :
    (base rest r : Option ℤ) (p q : ℤ)
    → IsRest base p rest
    → IsRest rest q r
    → IsRest base (p +ℤ q) r
IsRest-of_IsRest none rest r p q h g = rw h at g
IsRest-of_IsRest (some b) rest r p q (n, e, n_pos, n_small, n_eq) g =
    let g' : IsRest (some n) q r = rw e at g in
    (g'.0, g'.1, g'.2, g'.3, rw (← n_eq, ← g'.4) (omega int_laws))

-- The normalized output: with the reasoning tokens in it once, whether they were reported inside
-- the output or beside it.
abbrev pub IsOutput : Bool → Option ℤ → Option ℤ → Option ℤ → Type 0
IsOutput true output reasoning out = out ≡ output
IsOutput false none none out = out ≡ none
IsOutput false output reasoning out = out ≡ some (known output +ℤ known reasoning)

billed_output-IsOutput :
    (flag : Bool) (output reasoning : Option ℤ)
    → IsInt64 (known output +ℤ known reasoning)
    → IsOutput flag output reasoning (billed_output flag output reasoning)
unfolding add_bucket
billed_output-IsOutput true output reasoning h = refl
billed_output-IsOutput false none none h = refl
billed_output-IsOutput false (some a) none h = ap some (omega int_laws)
billed_output-IsOutput false none (some b) h = ap some (omega int_laws)
billed_output-IsOutput false (some a) (some b) h = ap some (add64_exact a b h)

-- A normalization of the reported buckets: the cached parts that lie inside the input are taken off
-- it exactly once, so that the billable input and those parts add up to the reported input, and an
-- unknown input stays unknown; the reasoning is in the output exactly once; the cache and reasoning
-- buckets themselves stay as they are.
abbrev pub IsNormalized : UsageBuckets → Inclusion → UsageBuckets → Type 0
IsNormalized raw inc out =
    IsRest raw.input_tokens
      (counted inc.cache_read_in_input raw.cache_read_tokens
        +ℤ counted inc.cache_write_in_input raw.cache_write_tokens)
      out.input_tokens
    × IsOutput inc.reasoning_in_output raw.output_tokens raw.reasoning_tokens out.output_tokens
    × (out.cache_read_tokens ≡ raw.cache_read_tokens)
    × (out.cache_write_tokens ≡ raw.cache_write_tokens)
    × (out.reasoning_tokens ≡ raw.reasoning_tokens)

-- Where the reported counts are not negative, and the output and the reasoning tokens fit an int64
-- together, the buckets that `BillableBuckets` returns are disjoint: the billable input and the
-- cached parts that lie inside the reported input add up to it, an unknown input stays unknown, the
-- reasoning tokens are in the output exactly once, and the cache and reasoning buckets are
-- unchanged.
pub billable_buckets-IsNormalized :
    (raw : UsageBuckets) (inc : Inclusion) {out : UsageBuckets}
    → IsCount raw.input_tokens
    → IsCount raw.cache_read_tokens
    → IsCount raw.cache_write_tokens
    → IsInt64 (known raw.output_tokens +ℤ known raw.reasoning_tokens)
    → billable_buckets raw inc ≡ ok out
    → IsNormalized raw inc out
unfolding billable_buckets
billable_buckets-IsNormalized raw inc hi hr hw ho h =
    let (input, e, h') =
      >>=-eq-ok
        (if inc.cache_read_in_input
          then sub_bucket raw.input_tokens raw.cache_read_tokens
          else ok raw.input_tokens)
        _ h in
    let (input', e', h'') =
      >>=-eq-ok
        (if inc.cache_write_in_input then sub_bucket input raw.cache_write_tokens else ok input) _
        h' in
    let first : IsRest raw.input_tokens (counted inc.cache_read_in_input raw.cache_read_tokens)
        input =
      sub_bucket-IsRest inc.cache_read_in_input raw.input_tokens raw.cache_read_tokens hi hr e in
    let second : IsRest input (counted inc.cache_write_in_input raw.cache_write_tokens) input' =
      sub_bucket-IsRest inc.cache_write_in_input input raw.cache_write_tokens
        (IsRest-IsCount raw.input_tokens _ input first) hw e' in
    let third = IsRest-of_IsRest raw.input_tokens input input' _ _ first second in
    let fourth =
      billed_output-IsOutput inc.reasoning_in_output raw.output_tokens raw.reasoning_tokens ho in
    subst (IsNormalized raw inc) (ok_injective h'') (third, fourth, refl, refl, refl)
