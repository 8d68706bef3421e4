-- ===== src/Store/Wallet/Funded.antt =====
-- internal/inference/postgres/wallet_repo.go: an admission takes what the wallet has, within the month's limit.
use mathlib.Core.Path.{subst}
use yunhou_users.Common.{
  ℕ, ◌≡◌, sym, ap, ◌∙◌, true, false, some, List, ℤ, pos, ◌+ℤ◌, ◌-ℤ◌, ◌≤ℤ◌, ◌<ℤ◌, ltb_ℤ, IsInt64,
  sub64, sub64_exact, arith, Bool-cases, inl, inr,
}
use yunhou_users.Domain.Errors.{Time, ok, >>=-eq-ok, ok_injective}
use yunhou_users.Domain.Money.{new_money}
use yunhou_users.Accounting.Wallet.{
  WalletSource, WalletDirection, WalletSums, WalletBalance, derive_wallet_balance,
}
use yunhou_users.Accounting.Wallet.Split.{split_freeze_parts}
use yunhou_users.Accounting.Overage.{OverageSettings, check_wallet_spend}
use yunhou_users.Accounting.Overage.Gate.{check_wallet_spend_iff}
use yunhou_users.Store.Table.{is_bigint}
use yunhou_users.Store.Wallet.Sums.{sum_entries, sum_held, sum_spend, scan, wallet_sums}
use yunhou_users.Store.Wallet.Freeze.{split_hold}
use yunhou_users.Store.Quota.{Db}

-- What the ledger says of a wallet's cash or bonus.
abbrev pub net : ℕ → WalletSource → Db → ℤ
net wallet source db =
    sum_entries wallet source WalletDirection.credit db.wallet_entries
    -ℤ sum_entries wallet source WalletDirection.debit db.wallet_entries

abbrev pub cash_held : ℕ → Db → ℤ
cash_held wallet db = sum_held wallet (λ h. h.cash) db.wallet_holds

abbrev pub bonus_held : ℕ → Db → ℤ
bonus_held wallet db = sum_held wallet (λ h. h.bonus) db.wallet_holds

abbrev pub cash_left : ℕ → Db → ℤ
cash_left wallet db = net wallet WalletSource.cash db -ℤ cash_held wallet db

abbrev pub bonus_left : ℕ → Db → ℤ
bonus_left wallet db = net wallet WalletSource.bonus db -ℤ bonus_held wallet db

-- The spending of the month, with what is in flight.
abbrev pub spending : ℕ → Time → Time → Db → ℤ
spending wallet start end db =
    sum_spend wallet start end db.wallet_entries db.wallet_entries
    +ℤ cash_held wallet db
    +ℤ bonus_held wallet db

-- The figures of the wallet fit an int64.
pub record IsBounded (wallet : ℕ) (start end : Time) (hold : ℤ) (db : Db) : Type 0 where
  pub held : IsInt64 hold
  pub net_cash : IsInt64 (net wallet WalletSource.cash db)
  pub net_bonus : IsInt64 (net wallet WalletSource.bonus db)
  pub cash : IsInt64 (cash_left wallet db)
  pub bonus : IsInt64 (bonus_left wallet db)
  pub both : IsInt64 (bonus_left wallet db +ℤ cash_left wallet db)
  pub with_cash :
      IsInt64
        (sum_spend wallet start end db.wallet_entries db.wallet_entries +ℤ cash_held wallet db)
  pub spent : IsInt64 (spending wallet start end db)
  pub with_hold : IsInt64 (spending wallet start end db +ℤ hold)

pub scan_ok : (z : ℤ) {v : ℤ} → scan z ≡ ok v → z ≡ v
scan_ok z h = elim (Bool-cases (is_bigint z)) [
  | inl q ↦ ok_injective (rw q at h)
  | inr q ↦ let h' = rw q at h in cc
]

-- What is read is what is there.
pub record Reads (wallet : ℕ) (db : Db) (s : WalletSums) : Type 0 where
  pub cash : s.cash_credit -ℤ s.cash_debit ≡ net wallet WalletSource.cash db
  pub bonus : s.bonus_credit -ℤ s.bonus_debit ≡ net wallet WalletSource.bonus db
  pub cash_hold : s.held_cash ≡ cash_held wallet db
  pub bonus_hold : s.held_bonus ≡ bonus_held wallet db

pub wallet_sums-Reads :
    (wallet : ℕ) (db : Db) {s : WalletSums} → wallet_sums wallet db ≡ ok s → Reads wallet db s
unfolding wallet_sums
wallet_sums-Reads wallet db h =
    let total = λ (source : WalletSource) (direction : WalletDirection).
      sum_entries wallet source direction db.wallet_entries in
    let (a, ha, h1) = >>=-eq-ok (scan (total WalletSource.cash WalletDirection.credit)) _ h in
    let (b, hb, h2) = >>=-eq-ok (scan (total WalletSource.cash WalletDirection.debit)) _ h1 in
    let (c, hc, h3) = >>=-eq-ok (scan (total WalletSource.bonus WalletDirection.credit)) _ h2 in
    let (d, hd, h4) = >>=-eq-ok (scan (total WalletSource.bonus WalletDirection.debit)) _ h3 in
    let (e, he, h5) = >>=-eq-ok (scan (cash_held wallet db)) _ h4 in
    let (f, hf, h6) = >>=-eq-ok (scan (bonus_held wallet db)) _ h5 in
    subst (Reads wallet db) (ok_injective h6) (record {
      cash =
          ap (λ z. z -ℤ b) (sym (scan_ok _ ha))
          ∙ ap (λ z. total WalletSource.cash WalletDirection.credit -ℤ z) (sym (scan_ok _ hb));
      bonus =
          ap (λ z. z -ℤ d) (sym (scan_ok _ hc))
          ∙ ap (λ z. total WalletSource.bonus WalletDirection.credit -ℤ z) (sym (scan_ok _ hd));
      cash_hold = sym (scan_ok _ he);
      bonus_hold = sym (scan_ok _ hf);
    })

pub derived_exact :
    (currency : List ℕ) (s : WalletSums) {b : WalletBalance}
    → derive_wallet_balance currency s ≡ ok b
    → IsInt64 (s.cash_credit -ℤ s.cash_debit)
    → IsInt64 (s.bonus_credit -ℤ s.bonus_debit)
    → IsInt64 (s.cash_credit -ℤ s.cash_debit -ℤ s.held_cash)
    → IsInt64 (s.bonus_credit -ℤ s.bonus_debit -ℤ s.held_bonus)
    → (b.cash_available ≡ s.cash_credit -ℤ s.cash_debit -ℤ s.held_cash)
      × (b.bonus_available ≡ s.bonus_credit -ℤ s.bonus_debit -ℤ s.held_bonus)
unfolding derive_wallet_balance
derived_exact currency s h h1 h2 h3 h4 =
    let (m, _, e) = >>=-eq-ok (new_money (pos 0) currency) _ h in
    let t = ok_injective e in
    (
      sym (ap (λ x. x.cash_available) t)
          ∙ ap (λ z. sub64 z s.held_cash) (sub64_exact s.cash_credit s.cash_debit h1)
          ∙ sub64_exact (s.cash_credit -ℤ s.cash_debit) s.held_cash h3,
      sym (ap (λ x. x.bonus_available) t)
          ∙ ap (λ z. sub64 z s.held_bonus) (sub64_exact s.bonus_credit s.bonus_debit h2)
          ∙ sub64_exact (s.bonus_credit -ℤ s.bonus_debit) s.held_bonus h4,
    )

-- The parts of a hold, and what they leave.
abbrev pub Splits : ℤ → ℤ → ℤ → ℤ → ℤ → Type 0
Splits bonus_available cash_available hold cash bonus =
    (cash +ℤ bonus ≡ hold)
    × (pos 0 ≤ℤ cash)
    × (pos 0 ≤ℤ bonus)
    × (pos 0 <ℤ bonus → bonus ≤ℤ bonus_available)
    × (pos 0 <ℤ cash → cash ≤ℤ cash_available)

zero_of :
    (hold : ℤ) → ltb_ℤ hold (pos 0) ≡ false → ltb_ℤ (pos 0) hold ≡ false → pos 0 +ℤ pos 0 ≡ hold
unfolding ◌+ℤ◌
zero_of hold h g = ground arith

pub split_hold-Splits :
    (b c hold : ℤ) {cash bonus : ℤ}
    → IsInt64 b
    → IsInt64 c
    → IsInt64 hold
    → IsInt64 (b +ℤ c)
    → ltb_ℤ hold (pos 0) ≡ false
    → split_hold b c hold ≡ ok (cash, bonus)
    → Splits b c hold cash bonus
split_hold-Splits b c hold {cash} {bonus} hb hc hh hs nonneg h =
    elim (Bool-cases (ltb_ℤ (pos 0) hold)) [
      | inl q ↦
          let (p0, p1, p2, p3, p4, _) = split_freeze_parts b c hold hb hc hh hs (rw q at h) in
          (p0, p1, p2, p3, p4)
      | inr q ↦
          let e = ok_injective (rw q at h) in
          let zero = zero_of hold nonneg q in
          subst (λ p. Splits b c hold p.0 p.1) e
            (
              zero,
              omega arith,
              omega arith,
              (λ x. absurd (omega (arith, x))),
              λ x. absurd (omega (arith, x)),
            )
    ]

pub spend_passes :
    (s : OverageSettings) (spent hold : ℤ)
    → check_wallet_spend s spent hold ≡ ok tt
    → IsInt64 (spent +ℤ hold)
    → (s.enabled ≡ true)
      × ((limit : ℤ) × (s.monthly_spend_limit_micros ≡ some limit) × (spent +ℤ hold ≤ℤ limit))
unfolding check_wallet_spend
spend_passes s spent hold h small =
    let (hs, hh) : (pos 0 ≤ℤ spent) × (pos 0 ≤ℤ hold) = ground arith in
    (check_wallet_spend_iff s spent hold hs hh small.1).0 h
