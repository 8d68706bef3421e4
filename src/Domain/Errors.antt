-- ===== src/Domain/Errors.antt =====
-- internal/inference/domain/errors.go: the stable codes, the sentinel errors and the error values.
-- Messages are left out: callers look at codes and at the cause chain only. A sentinel of the
-- accounting and quota packages is itself a coded error; those of the arithmetic paths are plain.
use yunhou_users.Common.{ℕ, ◌≡◌, refl, ◌⊎◌, inl, inr, Bool, Option, none, some, List, ℤ}

-- Instants are nanoseconds since the start of year 0 in UTC.
abbrev pub Time : Type 0
Time = ℕ

pub data Code : Type 0 where
  invalid_input invalid_key model_not_allowed quota_exceeded rate_limited : Code
  upstream_unavailable not_found conflict insufficient_capacity : Code
  unpriced_capability insufficient_balance internal : Code

pub data WindowKind : Type 0 where
  five_hour weekly monthly : WindowKind
  -- any other text
  unknown_kind : WindowKind

pub data Sentinel : Type 0 where
  overflow negative_value currency_mismatch invalid_currency : Sentinel
  invalid_rate invalid_decimal rounding_mode : Sentinel
  -- the sentinels of the packages accounting, quota and routing
  unknown_usage unpriced overage_disabled spend_limit_exceeded : Sentinel
  insufficient_funds bonus_not_refundable before_anchor inactive_at_dispatch : Sentinel
  -- any error of a library
  foreign : Sentinel

pub record WindowBlock : Type 0 where
  pub kind : WindowKind
  pub limit_micros : ℤ
  pub used_micros : ℤ
  pub reserved_micros : ℤ
  pub resets_at : Option Time

pub data Error : Type 0 where
  sentinel : Sentinel → Error
  new_error : Code → Error
  wrap_error : Code → Error → Error
  -- `QuotaExceededError`: the blocking windows, and whether the Key budget blocks too
  quota_exceeded_error : List WindowBlock → Bool → Error

-- The code of a sentinel that is a `*Error`; none for the plain ones of `errors.New`.
abbrev pub sentinel_code : Sentinel → Option Code
sentinel_code Sentinel.unknown_usage = some Code.invalid_input
sentinel_code Sentinel.unpriced = some Code.unpriced_capability
sentinel_code Sentinel.overage_disabled = some Code.quota_exceeded
sentinel_code Sentinel.spend_limit_exceeded = some Code.quota_exceeded
sentinel_code Sentinel.insufficient_funds = some Code.insufficient_balance
sentinel_code Sentinel.bonus_not_refundable = some Code.invalid_input
sentinel_code Sentinel.before_anchor = some Code.invalid_input
sentinel_code Sentinel.inactive_at_dispatch = some Code.conflict
sentinel_code _ = none

abbrev code_or_internal : Option Code → Code
code_or_internal (some c) = c
code_or_internal none = Code.internal

-- `CodeOf` of an error that is not nil: the first `*Error` of the chain, else the quota error.
unfoldable pub code_of : Error → Code
code_of (sentinel s) = code_or_internal (sentinel_code s)
code_of (new_error c) = c
code_of (wrap_error c e) = c
code_of (quota_exceeded_error ws k) = Code.quota_exceeded

-- The two results of a Go function that ends in `error`: a value beside nil, or an error.
pub data Result {ℓ} (V : Type ℓ) : Type ℓ where
  err : Error → Result V
  ok : V → Result V

infixl 5 ◌>>=◌ ◌>>◌
-- `v, err := m; if err != nil { return err }`, then the rest.
abbrev pub ◌>>=◌ {ℓ κ} : {V : Type ℓ} {W : Type κ} → Result V → (V → Result W) → Result W
err failure >>= rest = err failure
ok v >>= rest = rest v

-- `if err := m; err != nil { return err }`, then the rest.
abbrev pub ◌>>◌ {ℓ} : {W : Type ℓ} → Result (Unit {0}) → Result W → Result W
err failure >> rest = err failure
ok v >> rest = rest

-- `if c { return failure }`
abbrev pub fail_if : Bool → Error → Result (Unit {0})
fail_if Bool.true failure = err failure
fail_if Bool.false failure = ok tt

pub ok_injective {ℓ} : {V : Type ℓ} {v w : V} → ok v ≡ ok w → v ≡ w
ok_injective same = cc

pub fail_if-eq-ok : (c : Bool) (failure : Error) → fail_if c failure ≡ ok tt → c ≡ Bool.false
fail_if-eq-ok Bool.true failure passed = cc
fail_if-eq-ok Bool.false failure passed = refl

pub Result-cases {ℓ} :
    {V : Type ℓ} (m : Result V) → ((v : V) × (m ≡ ok v)) ⊎ ((failure : Error) × (m ≡ err failure))
Result-cases (err failure) = inr (failure, refl)
Result-cases (ok v) = inl (v, refl)

-- A chain that succeeds went through every step.
pub >>-eq-ok {ℓ} :
    {W : Type ℓ} (m : Result (Unit {0})) (rest : Result W) {w : W}
    → (m >> rest) ≡ ok w
    → (m ≡ ok tt) × (rest ≡ ok w)
>>-eq-ok (err failure) rest passed = cc
>>-eq-ok (ok _) rest passed = (refl, passed)

module _ {ℓ κ} {V : Type ℓ} {W : Type κ} where
  pub >>=-eq-ok :
      (m : Result V) (rest : V → Result W) {w : W}
      → (m >>= rest) ≡ ok w
      → (v : V) × (m ≡ ok v) × (rest v ≡ ok w)
  >>=-eq-ok (err failure) rest passed = cc
  >>=-eq-ok (ok v) rest passed = (v, refl, passed)
