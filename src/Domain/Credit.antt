-- ===== src/Domain/Credit.antt =====
-- internal/inference/domain/money.go: `Microcredit`, an int64 with checked sums and differences.
use yunhou_users.Common.{
  ◌≡◌, ◌≢◌, ◌⊎◌, ◌&&◌, ◌||◌, ℤ, pos, ◌+ℤ◌, ◌-ℤ◌, ltb_ℤ, eqb_ℤ, IsInt64, add64, sub64, max_int64,
  min_int64, if◌then◌else◌, arith, int_laws, sub64_exact, add64_exact, negsuc, min_int64, +ℤ_parts,
  -ℤ_parts, eq_of_parts,
}
use yunhou_users.Domain.Errors.{Result, ok, err, sentinel, Sentinel}

-- `Microcredit.Add`
unfoldable pub add : ℤ → ℤ → Result ℤ
add a b =
    if (ltb_ℤ (pos 0) b && ltb_ℤ (sub64 (pos max_int64) b) a)
      || (ltb_ℤ b (pos 0) && ltb_ℤ a (sub64 min_int64 b))
    then err (sentinel Sentinel.overflow)
    else ok (add64 a b)

-- `Microcredit.Sub`
unfoldable pub sub : ℤ → ℤ → Result ℤ
unfolding add
sub a b = if eqb_ℤ b min_int64 then err (sentinel Sentinel.overflow) else add a (sub64 (pos 0) b)

-- `Microcredit.NonNegative`
unfoldable pub non_negative : ℤ → Result (Unit {0})
non_negative a = if ltb_ℤ a (pos 0) then err (sentinel Sentinel.negative_value) else ok tt

-- A checked operation whose exact result is `c`: it is returned where it fits an int64, and
-- refused as an overflow where it does not.
abbrev pub IsChecked : Result ℤ → ℤ → Type 0
IsChecked r c =
    (IsInt64 c × (r ≡ ok c)) ⊎ ((¬ (IsInt64 c)) × (r ≡ err (sentinel Sentinel.overflow)))

-- Addition of two int64 values is exact, or it is refused, never wrapped.
pub add-IsChecked : (a b : ℤ) → IsInt64 a → IsInt64 b → IsChecked (add a b) (a +ℤ b)
unfolding add
add-IsChecked a (pos m) ha hb = ground (
  arith,
  sub64_exact (pos max_int64) (pos m) (omega int_laws),
  -ℤ_parts (pos max_int64) (pos m),
  +ℤ_parts a (pos m),
  add64_exact a (pos m),
)
add-IsChecked a (negsuc m) ha hb = ground (
  arith,
  sub64_exact min_int64 (negsuc m) (omega int_laws),
  -ℤ_parts min_int64 (negsuc m),
  +ℤ_parts a (negsuc m),
  add64_exact a (negsuc m),
)

-- Subtraction of two int64 values is exact, or it is refused as an overflow, where the subtrahend
-- is not -2^63.
pub sub-IsChecked : (a b : ℤ) → IsInt64 a → IsInt64 b → b ≢ min_int64 → IsChecked (sub a b) (a -ℤ b)
unfolding sub
sub-IsChecked a b ha hb h =
    let e : sub64 (pos 0) b ≡ pos 0 -ℤ b = sub64_exact (pos 0) b (grind (int_laws)) in
    rw e (
      ground (
        arith,
        add-IsChecked a (pos 0 -ℤ b) ha,
        -ℤ_parts (pos 0) b,
        -ℤ_parts a b,
        +ℤ_parts a (pos 0 -ℤ b),
        eq_of_parts (a +ℤ (pos 0 -ℤ b)) (a -ℤ b),
      ))
