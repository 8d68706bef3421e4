-- ===== src/Store/Wallet/Covered.antt =====
-- internal/inference/postgres/wallet_repo.go: an admission takes what the wallet has, within the month's limit.
use mathlib.Core.Path.{subst}
use yunhou_users.Common.{
  ℕ, ◌≡◌, refl, sym, ap, ◌∙◌, true, some, List, ◌∷◌, ℤ, pos, ◌+ℤ◌, ◌-ℤ◌, ◌≤ℤ◌, ◌<ℤ◌, IsInt64, add64,
  add64_exact, int_laws, ◌==◌, ==_iff, ==_refl,
}
use yunhou_users.Domain.Errors.{Time, Result, ok}
use yunhou_users.Accounting.Wallet.{WalletSource, WalletSums}
use yunhou_users.Accounting.Overage.{check_wallet_spend}
use yunhou_users.Store.Table.{find_where, find_where-true, or_error-eq-ok}
use yunhou_users.Store.Wallet.{WalletRow, WalletHold}
use yunhou_users.Store.Wallet.Sums.{sum_held, sum_spend, month_spend}
use yunhou_users.Store.Wallet.Settings.{lock_wallet, settings}
use yunhou_users.Store.Wallet.Freeze.{
  ReserveWalletCommand, reserve_wallet, hold_row, split_hold, in_flight,
}
use yunhou_users.Store.Wallet.Froze.{Admits, reserve_wallet-Admits}
use yunhou_users.Store.Quota.{Db}
use yunhou_users.Store.Wallet.Funded.{
  net, cash_held, cash_left, bonus_left, spending, IsBounded, Reads, wallet_sums-Reads, scan_ok,
  derived_exact, split_hold-Splits, spend_passes,
}
use yunhou_users.Store.Wallet.Froze.{Froze}

-- The wallet pays the hold with what it has, under the limit that its owner has set.
pub record IsFunded (cmd : ReserveWalletCommand) (db next : Db) : Type 0 where
  pub wallet : WalletRow
  pub limit : ℤ
  pub cash : ℤ
  pub bonus : ℤ
  pub found : find_where (λ w. w.id == cmd.wallet_id) db.wallets ≡ some wallet
  pub enabled : wallet.overage_enabled ≡ true
  pub limited : wallet.monthly_spend_limit_micros ≡ some limit
  pub within : spending cmd.wallet_id cmd.month_start cmd.month_end next ≤ℤ limit
  pub whole : cash +ℤ bonus ≡ cmd.hold_micros
  pub cash_taken : cash_left cmd.wallet_id next ≡ cash_left cmd.wallet_id db -ℤ cash
  pub bonus_taken : bonus_left cmd.wallet_id next ≡ bonus_left cmd.wallet_id db -ℤ bonus
  pub cash_covers : (pos 0 ≤ℤ cash) × (pos 0 <ℤ cash → pos 0 ≤ℤ cash_left cmd.wallet_id next)
  pub bonus_covers : (pos 0 ≤ℤ bonus) × (pos 0 <ℤ bonus → pos 0 ≤ℤ bonus_left cmd.wallet_id next)

sum_held-hold :
    (uuid : ℕ) (cash bonus : ℤ) (cmd : ReserveWalletCommand) (part : WalletHold → ℤ)
    (hs : List WalletHold)
    → sum_held cmd.wallet_id part (hold_row uuid cash bonus cmd ∷ hs)
      ≡ part (hold_row uuid cash bonus cmd) +ℤ sum_held cmd.wallet_id part hs
unfolding sum_held
sum_held-hold uuid cash bonus cmd part hs = rw (==_refl cmd.wallet_id) refl

-- What the new hold does to the figures.
record Takes (wallet : ℕ) (start end : Time) (cash bonus : ℤ) (db next : Db) : Type 0 where
  cash_left_is : cash_left wallet next ≡ cash_left wallet db -ℤ cash
  bonus_left_is : bonus_left wallet next ≡ bonus_left wallet db -ℤ bonus
  spending_is : spending wallet start end next ≡ spending wallet start end db +ℤ (cash +ℤ bonus)

Froze-Takes :
    (uuid : ℕ → ℕ) (cmd : ReserveWalletCommand) (cash bonus : ℤ) (db next : Db)
    → Froze uuid cmd cash bonus db next
    → Takes cmd.wallet_id cmd.month_start cmd.month_end cash bonus db next
Froze-Takes uuid cmd cash bonus db next f =
    let w = cmd.wallet_id in
    let c =
      ap (sum_held w (λ h. h.cash)) f.holds
      ∙ sum_held-hold (uuid 0) cash bonus cmd (λ h. h.cash) db.wallet_holds in
    let b =
      ap (sum_held w (λ h. h.bonus)) f.holds
      ∙ sum_held-hold (uuid 0) cash bonus cmd (λ h. h.bonus) db.wallet_holds in
    record {
      cash_left_is = rw (f.entries, c) (omega int_laws);
      bonus_left_is = rw (f.entries, b) (omega int_laws);
      spending_is = rw (f.entries, c, b) (omega int_laws);
    }

rest_covers : (a b : ℤ) → (pos 0 <ℤ b → b ≤ℤ a) → pos 0 <ℤ b → pos 0 ≤ℤ a -ℤ b
rest_covers a b h p = let q = h p in omega int_laws

wallet_at :
    (id : ℕ) (db : Db) {w : WalletRow}
    → lock_wallet id db ≡ ok w
    → find_where (λ w. w.id == id) db.wallets ≡ some w
unfolding lock_wallet
wallet_at id db h = or_error-eq-ok _ _ h

wallet_id_at : (id : ℕ) (db : Db) {w : WalletRow} → lock_wallet id db ≡ ok w → w.id ≡ id
wallet_id_at id db {w} h =
    (==_iff w.id id).0 (find_where-true (λ v. v.id == id) db.wallets (wallet_at id db h))

month_spend_ok :
    (wallet : ℕ) (start end : Time) (db : Db) {spent : ℤ}
    → month_spend wallet start end db ≡ ok spent
    → sum_spend wallet start end db.wallet_entries db.wallet_entries ≡ spent
unfolding month_spend
month_spend_ok wallet start end db h = scan_ok _ h

in_flight_exact :
    (spent : ℤ) (s : WalletSums)
    → IsInt64 (spent +ℤ s.held_cash)
    → IsInt64 (spent +ℤ s.held_cash +ℤ s.held_bonus)
    → in_flight spent s ≡ spent +ℤ s.held_cash +ℤ s.held_bonus
in_flight_exact spent s h1 h2 =
    ap (λ z. add64 z s.held_bonus) (add64_exact spent s.held_cash h1)
    ∙ add64_exact (spent +ℤ s.held_cash) s.held_bonus h2

-- The readings of an admission are the figures of the wallet.
record Figures (uuid : ℕ → ℕ) (cmd : ReserveWalletCommand) (db next : Db)
    (a : Admits uuid cmd db next) : Type 0 where
  cash : a.balance.cash_available ≡ cash_left cmd.wallet_id db
  bonus : a.balance.bonus_available ≡ bonus_left cmd.wallet_id db
  flight : in_flight a.spent a.sums ≡ spending cmd.wallet_id cmd.month_start cmd.month_end db

figures :
    (uuid : ℕ → ℕ) (cmd : ReserveWalletCommand) (db next : Db) (a : Admits uuid cmd db next)
    → IsBounded cmd.wallet_id cmd.month_start cmd.month_end cmd.hold_micros db
    → Figures uuid cmd db next a
figures uuid cmd db next a bounded =
    let w = cmd.wallet_id in
    let id = wallet_id_at w db a.found in
    let s = a.sums in
    let reads = subst (λ i. Reads i db s) id (wallet_sums-Reads a.wallet.id db a.summed) in
    let spent =
      month_spend_ok w cmd.month_start cmd.month_end db
        (subst (λ i. month_spend i cmd.month_start cmd.month_end db ≡ ok a.spent) id a.spending) in
    let c : s.cash_credit -ℤ s.cash_debit -ℤ s.held_cash ≡ cash_left w db =
      ap (λ z. z -ℤ s.held_cash) reads.cash
      ∙ ap (λ z. net w WalletSource.cash db -ℤ z) reads.cash_hold in
    let b : s.bonus_credit -ℤ s.bonus_debit -ℤ s.held_bonus ≡ bonus_left w db =
      ap (λ z. z -ℤ s.held_bonus) reads.bonus
      ∙ ap (λ z. net w WalletSource.bonus db -ℤ z) reads.bonus_hold in
    let (dc, db_) =
      derived_exact a.wallet.currency s a.derived (subst IsInt64 (sym reads.cash) bounded.net_cash)
        (subst IsInt64 (sym reads.bonus) bounded.net_bonus) (subst IsInt64 (sym c) bounded.cash)
        (subst IsInt64 (sym b) bounded.bonus) in
    let f1 =
      ap (λ z. z +ℤ s.held_cash) (sym spent)
      ∙ ap (λ z. sum_spend w cmd.month_start cmd.month_end db.wallet_entries db.wallet_entries +ℤ z)
          reads.cash_hold in
    let f2 =
      ap (λ z. z +ℤ s.held_bonus) f1
      ∙ ap
          (λ z.
            sum_spend w cmd.month_start cmd.month_end db.wallet_entries db.wallet_entries
            +ℤ cash_held w db
            +ℤ z)
          reads.bonus_hold in
    record {
      cash = dc ∙ c;
      bonus = db_ ∙ b;
      flight =
          in_flight_exact a.spent s (subst IsInt64 (sym f1) bounded.with_cash)
            (subst IsInt64 (sym f2) bounded.spent)
          ∙ f2;
    }

-- An admission against a wallet, where the figures of the wallet fit an int64: its owner enabled the spending
-- and set a limit; the month's spending together with all that is in flight, this hold included, stays
-- within the limit; the hold is made up of cash and bonus, neither negative; what is left of each falls by
-- its part, and stays non-negative where something was taken of it, so the last balance is not spent twice.
pub reserve_wallet-IsFunded :
    (uuid : ℕ → ℕ) (others : Result (Unit {0})) (cmd : ReserveWalletCommand) (db : Db) {next : Db}
    → reserve_wallet uuid others cmd db ≡ ok next
    → IsBounded cmd.wallet_id cmd.month_start cmd.month_end cmd.hold_micros db
    → IsFunded cmd db next
reserve_wallet-IsFunded uuid others cmd db {next} h bounded =
    let w = cmd.wallet_id in
    let a = reserve_wallet-Admits uuid others cmd db h in
    let g = figures uuid cmd db next a bounded in
    let (whole, c0, b0, b_in, c_in) =
      split_hold-Splits (bonus_left w db) (cash_left w db) cmd.hold_micros bounded.bonus
        bounded.cash bounded.held bounded.both a.nonneg
        (subst (λ z. split_hold z (cash_left w db) cmd.hold_micros ≡ ok (a.cash, a.bonus)) g.bonus
          (subst
            (λ z. split_hold a.balance.bonus_available z cmd.hold_micros ≡ ok (a.cash, a.bonus))
            g.cash a.parts)) in
    let (enabled, (limit, limited, within)) =
      spend_passes (settings a.wallet) (spending w cmd.month_start cmd.month_end db) cmd.hold_micros
        (subst (λ z. check_wallet_spend (settings a.wallet) z cmd.hold_micros ≡ ok tt) g.flight
          a.allowed)
        bounded.with_hold in
    let t = Froze-Takes uuid cmd a.cash a.bonus db next a.froze in
    record {
      wallet = a.wallet;
      limit = limit;
      cash = a.cash;
      bonus = a.bonus;
      found = wallet_at w db a.found;
      enabled = enabled;
      limited = limited;
      within =
          subst (λ z. z ≤ℤ limit)
            (sym (t.spending_is ∙ ap (λ z. spending w cmd.month_start cmd.month_end db +ℤ z) whole))
            within;
      whole = whole;
      cash_taken = t.cash_left_is;
      bonus_taken = t.bonus_left_is;
      cash_covers = (
        c0,
        λ p.
            subst (λ z. pos 0 ≤ℤ z) (sym t.cash_left_is)
              (rest_covers (cash_left w db) a.cash c_in p),
      );
      bonus_covers = (
        b0,
        λ p.
            subst (λ z. pos 0 ≤ℤ z) (sym t.bonus_left_is)
              (rest_covers (bonus_left w db) a.bonus b_in p),
      );
    }
