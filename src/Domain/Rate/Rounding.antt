-- ===== src/Domain/Rate/Rounding.antt =====
-- internal/inference/domain/money.go: what each rounding mode of `MicrosForUnits` guarantees.
use yunhou_users.Common.{
  max_int64, sym, ◌∙◌, ℕ, ◌+◌, ◌*◌, ◌≤◌, ◌<◌, ◌≡◌, ◌≢◌, ℤ, pos, pos_part, arith, ◌≤ℤ◌, ◌<ℤ◌, refl,
}
use native.Mathlib.Nat.{div-add-mod', mod-lt, mul-le-mul_right}
use native.Mathlib.Decide.{dec_le}
use yunhou_users.Domain.Errors.{ok}
use yunhou_users.Domain.Rate.{Rate, RoundingMode, range_check, round, micros_for_units}

-- The integer `m` is n / d, rounded by the mode.
abbrev pub IsRounding : RoundingMode → ℕ → ℕ → ℕ → Type 0
IsRounding RoundingMode.round_down n d m = (m * d ≤ n) × (n < m * d + d)
IsRounding RoundingMode.round_up n d m = (n ≤ m * d) × (m * d < n + d)
IsRounding RoundingMode.round_half_up n d m = (2 * (m * d) ≤ 2 * n + d) × (2 * n < 2 * (m * d) + d)
IsRounding RoundingMode.unknown_mode n d m = ⊥

pub round-IsRounding :
    (mode : RoundingMode) (n d : ℕ) {m : ℕ} → 0 < d → round mode n d ≡ ok m → IsRounding mode n d m
unfolding round
round-IsRounding RoundingMode.round_down n d h e = grind (arith, div-add-mod' n d, mod-lt n h)
round-IsRounding RoundingMode.round_up n d h e = grind (arith, div-add-mod' n d, mod-lt n h)
round-IsRounding RoundingMode.round_half_up n d h e = grind (arith, div-add-mod' n d, mod-lt n h)
round-IsRounding RoundingMode.unknown_mode n d h e = cc

-- An exact price, by what `NewRate` tests.
pub record IsValid (r : Rate) : Type 0 where
  pub num_nonneg : pos 0 ≤ℤ r.num
  pub den_pos : pos 0 <ℤ r.den

round_total :
    (mode : RoundingMode) (n d : ℕ)
    → mode ≢ RoundingMode.unknown_mode
    → (m : ℕ) × (round mode n d ≡ ok m)
unfolding round
round_total RoundingMode.round_down n d h = (_, refl)
round_total RoundingMode.round_up n d h = (_, refl)
round_total RoundingMode.round_half_up n d h = (_, refl)
round_total RoundingMode.unknown_mode n d h = absurd (h refl)

-- At a valid rate and a count that is not negative, every known mode gives the exact price of the
-- count, num * units / den, rounded the way the mode says; the only refusal is that of a result
-- above the largest int64.
pub micros_for_units-IsRounding :
    (r : Rate) (units : ℤ) (mode : RoundingMode)
    → IsValid r
    → pos 0 ≤ℤ units
    → mode ≢ RoundingMode.unknown_mode
    → (m : ℕ) × IsRounding mode (pos_part r.num * pos_part units) (pos_part r.den) m
      × (micros_for_units r units mode ≡ range_check m)
unfolding micros_for_units
micros_for_units-IsRounding r units mode v u known =
    let (m, e) = round_total mode (pos_part r.num * pos_part units) (pos_part r.den) known in
    (m, round-IsRounding mode _ _ (ground arith) e, ground (arith, e))

pub cancel_right : (m k d : ℕ) → m * d < k * d + d → m ≤ k
cancel_right m k d h = elim (dec_le m k) [
  | yes le ↦ le
  | no gt ↦ let p : (k + 1) * d ≤ m * d = mul-le-mul_right d (omega arith) in absurd (grind arith)
]

-- The rounded price is determined: two roundings of one price in one mode are equal.
pub IsRounding-unique :
    (mode : RoundingMode) (n d m k : ℕ) → IsRounding mode n d m → IsRounding mode n d k → m ≡ k
IsRounding-unique RoundingMode.round_down n d m k h g =
    omega (arith, cancel_right m k d (omega arith), cancel_right k m d (omega arith))
IsRounding-unique RoundingMode.round_up n d m k h g =
    omega (arith, cancel_right m k d (omega arith), cancel_right k m d (omega arith))
IsRounding-unique RoundingMode.round_half_up n d m k h g =
    omega (arith, cancel_right m k d (omega arith), cancel_right k m d (omega arith))
IsRounding-unique RoundingMode.unknown_mode n d m k h g = absurd h

range_check_ok : (q : ℕ) {z : ℤ} → range_check q ≡ ok z → (z ≡ pos q) × (q ≤ max_int64)
range_check_ok q h = ground arith

-- What a returned price says of the arguments, and that it is their rounding.
pub micros_for_units_ok :
    (r : Rate) (units : ℤ) (mode : RoundingMode) {z : ℤ}
    → micros_for_units r units mode ≡ ok z
    → (pos 0 ≤ℤ units)
      × IsValid r
      × ((m : ℕ) × (z ≡ pos m)
          × (m ≤ max_int64)
          × IsRounding mode (pos_part r.num * pos_part units) (pos_part r.den) m)
unfolding micros_for_units round
micros_for_units_ok r units mode h =
    let u : pos 0 ≤ℤ units = ground arith in
    let v : IsValid r = ground arith in
    let known : mode ≢ RoundingMode.unknown_mode = λ e. ground (arith, e, h) in
    let (m, exact, e) = micros_for_units-IsRounding r units mode v u known in
    let (q, small) = range_check_ok m (sym e ∙ h) in (u, v, (m, q, small, exact))
