-- ===== src/Domain/Money.antt =====
-- internal/inference/domain/money.go: `Money`, a fixed-point micro-amount with its currency.
-- A text is the list of its code points. `validCurrency` tests the number of bytes, which is that
-- of the code points once every one of them lies between 'A' and 'Z'.
use yunhou_users.Common.{
  ℕ, ◌≡◌, ◌⊎◌, Bool, true, false, not, ◌||◌, List, ℤ, pos, ◌+ℤ◌, ◌≤ℤ◌, ◌<ℤ◌, ltb, ltb_ℤ, all, ◌==◌,
  length, eqb, IsInt64, add64, sub64, max_int64, if◌then◌else◌, arith, add64_exact, sub64_exact,
  +ℤ_parts, -ℤ_parts, int_laws, eqb_refl,
}
use yunhou_users.Domain.Errors.{Result, ok, err, sentinel, Sentinel}

pub record Money : Type 0 where
  pub micros : ℤ
  pub currency : List ℕ

abbrev is_upper : ℕ → Bool
is_upper r = not (ltb r b'A' || ltb b'Z' r)

unfoldable pub valid_currency : List ℕ → Bool
valid_currency c = if not (length c == 3) then false else all is_upper c

unfoldable pub new_money : ℤ → List ℕ → Result Money
unfolding valid_currency
new_money micros currency =
    if not (valid_currency currency)
    then err (sentinel Sentinel.invalid_currency)
    else if ltb_ℤ micros (pos 0)
    then err (sentinel Sentinel.negative_value)
    else ok (record { micros = micros; currency = currency })

-- `Money.Add`
unfoldable pub add : Money → Money → Result Money
add a b =
    if not (eqb a.currency b.currency)
    then err (sentinel Sentinel.currency_mismatch)
    else if ltb_ℤ (sub64 (pos max_int64) a.micros) b.micros
    then err (sentinel Sentinel.overflow)
    else ok (record { micros = add64 a.micros b.micros; currency = a.currency })

-- `Money.Sub`
unfoldable pub sub : Money → Money → Result Money
sub a b =
    if not (eqb a.currency b.currency)
    then err (sentinel Sentinel.currency_mismatch)
    else if ltb_ℤ a.micros b.micros
    then err (sentinel Sentinel.negative_value)
    else ok (record { micros = sub64 a.micros b.micros; currency = a.currency })

-- What `NewMoney` establishes: a valid currency and an amount that is not negative.
pub record IsValid (m : Money) : Type 0 where
  pub valid : valid_currency m.currency ≡ true
  pub nonneg : pos 0 ≤ℤ m.micros
  pub small : m.micros ≤ℤ pos max_int64

pub new_money-IsValid :
    (z : ℤ) (c : List ℕ) {m : Money} → IsInt64 z → new_money z c ≡ ok m → IsValid m
unfolding new_money
new_money-IsValid z c h e = ground arith

-- Valid amounts of one currency add up exactly, or the sum is refused as an overflow.
pub add_exact :
    (a b : Money)
    → IsValid a
    → IsValid b
    → a.currency ≡ b.currency
    → ((a.micros +ℤ b.micros ≤ℤ pos max_int64)
        × (add a b ≡ ok (record { micros = a.micros +ℤ b.micros; currency = a.currency })))
      ⊎ ((pos max_int64 <ℤ a.micros +ℤ b.micros) × (add a b ≡ err (sentinel Sentinel.overflow)))
unfolding add
add_exact a b va vb e =
    rw (← e, eqb_refl a.currency)
      (ground (
        arith,
        sub64_exact (pos max_int64) a.micros (omega int_laws),
        -ℤ_parts (pos max_int64) a.micros,
        +ℤ_parts a.micros b.micros,
        add64_exact a.micros b.micros,
      ))

-- Where the sum of two valid amounts is returned, `Sub` takes the second off again and gives the
-- first.
pub sub-add : (a b : Money) {c : Money} → IsValid a → IsValid b → add a b ≡ ok c → sub c b ≡ ok a
unfolding add sub
sub-add a b va vb h = grind (int_laws, sub64_exact, add64_exact)
