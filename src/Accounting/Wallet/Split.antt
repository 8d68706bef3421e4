-- ===== src/Accounting/Wallet/Split.antt =====
-- internal/inference/accounting/wallet.go: a hold is split, consumed and released without losing or
-- inventing a micro.
use yunhou_users.Common.{
  ◌≡◌, ℤ, pos, ◌+ℤ◌, ◌-ℤ◌, ◌≤ℤ◌, ◌<ℤ◌, max_int64, add64, sub64, add64_exact, sub64_exact, IsInt64,
  int_laws, arith, +ℤ_parts, -ℤ_parts,
}
use yunhou_users.Domain.Errors.{ok}
use yunhou_users.Accounting.Wallet.{min_ℤ, clamp, split_freeze, split_consume, split_release}

-- What is left of an int64 when a part of it is taken off.
rest_exact : (a m : ℤ) → IsInt64 a → pos 0 ≤ℤ m → m ≤ℤ a → sub64 a m ≡ a -ℤ m
rest_exact a m ha h g = sub64_exact a m (omega int_laws)

min_clamp : (a b : ℤ) → pos 0 ≤ℤ a → (pos 0 ≤ℤ min_ℤ a (clamp b)) × (min_ℤ a (clamp b) ≤ℤ a)
unfolding min_ℤ clamp
min_clamp a b h = ground arith

freeze_laws :
    (a b c : ℤ)
    → pos 0 <ℤ a
    → a ≤ℤ b +ℤ c
    → let m = min_ℤ a (clamp b) in
      (a -ℤ m +ℤ m ≡ a)
      × (pos 0 ≤ℤ a -ℤ m)
      × (pos 0 ≤ℤ m)
      × (pos 0 <ℤ m → m ≤ℤ b)
      × (pos 0 <ℤ a -ℤ m → a -ℤ m ≤ℤ c)
      × (pos 0 <ℤ a -ℤ m → b ≤ℤ m)
unfolding min_ℤ clamp
freeze_laws a b c h g =
    let m = min_ℤ a (clamp b) in
    (
      omega int_laws,
      ground (arith, -ℤ_parts a m),
      ground arith,
      λ p. ground arith,
      λ p. ground (arith, -ℤ_parts a m, +ℤ_parts b c),
      λ p. ground (arith, -ℤ_parts a m, +ℤ_parts b c),
    )

-- Where the available bonus and cash, their sum and the amount all fit an int64: a hold that is granted is made
-- up of cash and bonus, neither negative, that add up to the amount; the bonus is used first, and
-- neither part exceeds what is available of it. A derived balance may be negative; nothing is then
-- taken from it.
pub split_freeze_parts :
    (bonus_available cash_available amount : ℤ) {cash_part bonus_part : ℤ}
    → IsInt64 bonus_available
    → IsInt64 cash_available
    → IsInt64 amount
    → IsInt64 (bonus_available +ℤ cash_available)
    → split_freeze bonus_available cash_available amount ≡ ok (cash_part, bonus_part)
    → (cash_part +ℤ bonus_part ≡ amount)
      × (pos 0 ≤ℤ cash_part)
      × (pos 0 ≤ℤ bonus_part)
      × (pos 0 <ℤ bonus_part → bonus_part ≤ℤ bonus_available)
      × (pos 0 <ℤ cash_part → cash_part ≤ℤ cash_available)
      × (pos 0 <ℤ cash_part → bonus_available ≤ℤ bonus_part)
unfolding split_freeze
split_freeze_parts b c a {cash_part} {bonus_part} hb hc ha hs h =
    let m = min_ℤ a (clamp b) in
    let sum : add64 b c ≡ b +ℤ c = add64_exact b c hs in
    let positive : pos 0 <ℤ a = ground (arith, sum) in
    let covered : a ≤ℤ b +ℤ c = ground (arith, sum) in
    let below : (pos 0 ≤ℤ m) × (m ≤ℤ a) = min_clamp a b (omega arith) in
    let used : bonus_part ≡ m = ground (arith, sum) in
    let left : cash_part ≡ a -ℤ m = ground (arith, sum, rest_exact a m ha below.0 below.1) in
    rw (used, left) (freeze_laws a b c positive covered)

min_bounds :
    (a b : ℤ) → pos 0 ≤ℤ a → pos 0 ≤ℤ b → (pos 0 ≤ℤ min_ℤ a b) × (min_ℤ a b ≤ℤ a) × (min_ℤ a b ≤ℤ b)
unfolding min_ℤ
min_bounds a b h g = ground arith

min_below : (a b : ℤ) → min_ℤ a b <ℤ a → min_ℤ a b ≡ b
unfolding min_ℤ
min_below a b h = ground arith

-- The settlement of a hold, at parts and a charge that are int64 values and not negative: the split
-- succeeds, the charge is covered by the consumed bonus, the consumed cash and the cash beyond the
-- hold; only a charge that used up the whole hold goes beyond it; and what was consumed within the
-- hold and what is released add up to the hold, cash and bonus alike.
pub split_consume-split_release :
    (hold_cash hold_bonus charge : ℤ)
    → pos 0 ≤ℤ hold_cash
    → hold_cash ≤ℤ pos max_int64
    → pos 0 ≤ℤ hold_bonus
    → hold_bonus ≤ℤ pos max_int64
    → pos 0 ≤ℤ charge
    → charge ≤ℤ pos max_int64
    → (c : ℤ) × (b : ℤ) × (extra : ℤ) × (split_consume hold_cash hold_bonus charge
        ≡ ok (c, b, extra))
      × (split_release hold_cash hold_bonus c b ≡ ok (hold_cash -ℤ c, hold_bonus -ℤ b))
      × (c +ℤ b +ℤ extra ≡ charge)
      × (pos 0 ≤ℤ extra)
      × (pos 0 <ℤ extra → (c ≡ hold_cash) × (b ≡ hold_bonus))
unfolding split_consume split_release
split_consume-split_release hc hb charge h1 h2 h3 h4 h5 h6 =
    let b = min_ℤ charge hb in
    let rem = charge -ℤ b in
    let c = min_ℤ rem hc in
    let b_bounds : (pos 0 ≤ℤ b) × (b ≤ℤ charge) × (b ≤ℤ hb) = min_bounds charge hb h5 h3 in
    let rem_pos : (pos 0 ≤ℤ rem) × (rem ≤ℤ pos max_int64) = omega int_laws in
    let c_bounds : (pos 0 ≤ℤ c) × (c ≤ℤ rem) × (c ≤ℤ hc) = min_bounds rem hc rem_pos.0 h1 in
    let e1 : sub64 charge b ≡ rem = sub64_exact charge b (omega int_laws) in
    let e2 : sub64 rem c ≡ rem -ℤ c = sub64_exact rem c (omega int_laws) in
    let e3 : sub64 hc c ≡ hc -ℤ c = sub64_exact hc c (omega int_laws) in
    let e4 : sub64 hb b ≡ hb -ℤ b = sub64_exact hb b (omega int_laws) in
    (
      c,
      b,
      rem -ℤ c,
      ground (arith, e1, e2),
      ground (arith, e3, e4),
      omega int_laws,
      omega int_laws,
      λ more.
          (min_below rem hc (ground (arith, -ℤ_parts rem c)), min_below charge hb (omega int_laws)),
    )
