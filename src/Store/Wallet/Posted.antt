-- ===== src/Store/Wallet/Posted.antt =====
-- internal/inference/postgres/wallet_repo.go: what a posting did to the tables.
use mathlib.Core.Path.{subst}
use yunhou_users.Common.{
  ℕ, ◌≡◌, refl, sym, ◌∙◌, Bool, false, ◌||◌, Option, List, ◌∷◌, pos, leb_ℤ, ◌==◌,
}
use yunhou_users.Domain.Errors.{
  Time, Code, Result, ok, err, >>=-eq-ok, >>-eq-ok, ok_injective, fail_if, fail_if-eq-ok,
}
use yunhou_users.Domain.Money.{Money}
use yunhou_users.Accounting.Wallet.{WalletSource, WalletEntryType, WalletDirection}
use yunhou_users.Store.Table.{any, db_error}
use yunhou_users.Store.Wallet.{
  WalletRow, WalletEntry, BusinessKey, Adjustment, key_eqb, same_reversal, insert_wallet_entry,
}
use yunhou_users.Store.Wallet.Sums.{get_wallet_by_account}
use yunhou_users.Store.Wallet.Postings.{posting, post, insert_adjustment}
use yunhou_users.Store.Wallet.Settings.{create_wallet, get_or_create_wallet}
use yunhou_users.Store.Quota.{Db}
use yunhou_users.Store.Quota.Consistency.{Quiet}

-- The same key, or a reversal of the same entry.
abbrev pub same_business : WalletEntry → WalletEntry → Bool
same_business e f =
    key_eqb f.business_key e.business_key || same_reversal f.reverses_entry_id e.reverses_entry_id

-- The ledger, the holds and the tables of the quota are left as they are.
pub record Idle (db next : Db) : Type 0 where
  pub entries : next.wallet_entries ≡ db.wallet_entries
  pub holds : next.wallet_holds ≡ db.wallet_holds
  pub quiet : Quiet db next

-- One entry was appended.
pub record Posted (entry : WalletEntry) (db next : Db) : Type 0 where
  pub positive : leb_ℤ entry.amount.micros (pos 0) ≡ false
  pub fresh : any (same_business entry) db.wallet_entries ≡ false
  pub entries : next.wallet_entries ≡ entry ∷ db.wallet_entries
  pub holds : next.wallet_holds ≡ db.wallet_holds
  pub quiet : Quiet db next

pub insert_wallet_entry_ok :
    (e : WalletEntry) (es : List WalletEntry) {next : List WalletEntry}
    → insert_wallet_entry e es ≡ ok next
    → (leb_ℤ e.amount.micros (pos 0) ≡ false) × (any (same_business e) es ≡ false) × (next ≡ e ∷ es)
unfolding insert_wallet_entry
insert_wallet_entry_ok e es h =
    let (p, h1) = >>-eq-ok (fail_if (leb_ℤ e.amount.micros (pos 0)) _) _ h in
    let (q, h2) = >>-eq-ok (fail_if (any (same_business e) es) _) _ h1 in
    (fail_if-eq-ok _ _ p, fail_if-eq-ok _ _ q, sym (ok_injective h2))

pub quiet : (db : Db) → Quiet db db
quiet db = record { windows = refl; reservations = refl; requests = refl }

pub idle : (db : Db) → Idle db db
idle db = record { entries = refl; holds = refl; quiet = quiet db }

pub post-Posted : (e : WalletEntry) (db : Db) {next : Db} → post e db ≡ ok next → Posted e db next
post-Posted e db h =
    let (es, h1, h2) = >>=-eq-ok (insert_wallet_entry e db.wallet_entries) _ h in
    let (p, q, t) = insert_wallet_entry_ok e db.wallet_entries h1 in
    subst (Posted e db) (ok_injective h2) (record {
      positive = p;
      fresh = q;
      entries = t;
      holds = refl;
      quiet = record { windows = refl; reservations = refl; requests = refl };
    })

create_wallet-Idle :
    (id account : ℕ) (currency : List ℕ) (by : ℕ) (db : Db) {out : Db × WalletRow × Bool}
    → create_wallet id account currency by db ≡ ok out
    → Idle db out.0
create_wallet-Idle id account currency by db h =
    let (_, h1) = >>-eq-ok (fail_if _ (db_error Code.invalid_input)) _ h in
    let (_, h2) = >>-eq-ok (fail_if (any (λ w. w.id == id) db.wallets) _) _ h1 in
    subst (λ o. Idle db o.0) (ok_injective h2)
      (record {
        entries = refl;
        holds = refl;
        quiet = record { windows = refl; reservations = refl; requests = refl };
      })

found_or_created :
    (id account : ℕ) (currency : List ℕ) (by : ℕ) (db : Db) (found : Result WalletRow)
    {out : Db × WalletRow × Bool}
    → (elim found [ ok w ↦ ok (db, w, false) | err e ↦ create_wallet id account currency by db ])
      ≡ ok out
    → Idle db out.0
found_or_created id account currency by db (ok w) h =
    subst (λ o. Idle db o.0) (ok_injective h) (idle db)
found_or_created id account currency by db (err e) h =
    create_wallet-Idle id account currency by db h

pub get_or_create_wallet-Idle :
    (id account : ℕ) (currency : List ℕ) (by : ℕ) (db : Db) {out : Db × WalletRow × Bool}
    → get_or_create_wallet id account currency by db ≡ ok out
    → Idle db out.0
unfolding get_or_create_wallet
get_or_create_wallet-Idle id account currency by db h =
    found_or_created id account currency by db (get_wallet_by_account account currency db) h

-- A posting behind a step that is idle.
pub after-Posted :
    (wallet : ℕ) (type : WalletEntryType) (direction : WalletDirection) (source : WalletSource)
    (m : Money) (reverses : Option ℕ) (key : BusinessKey) (now : Time) (db mid : Db) {next : Db}
    → Idle db mid
    → Posted (posting wallet type direction source m reverses key now mid.wallet_entries) mid next
    → Posted (posting wallet type direction source m reverses key now db.wallet_entries) db next
after-Posted wallet type direction source m reverses key now db mid {next} i p =
    let make = posting wallet type direction source m reverses key now in
    record {
      positive = p.positive;
      fresh = subst (λ es. any (same_business (make es)) es ≡ false) i.entries p.fresh;
      entries = subst (λ es. next.wallet_entries ≡ make es ∷ es) i.entries p.entries;
      holds = p.holds ∙ i.holds;
      quiet = record {
        windows = p.quiet.windows ∙ i.quiet.windows;
        reservations = p.quiet.reservations ∙ i.quiet.reservations;
        requests = p.quiet.requests ∙ i.quiet.requests;
      };
    }

pub insert_adjustment-Idle :
    (a : Adjustment) (db : Db) {next : Db} → insert_adjustment a db ≡ ok next → Idle db next
unfolding insert_adjustment
insert_adjustment-Idle a db h =
    let (_, h1) = >>-eq-ok (fail_if _ (db_error Code.conflict)) _ h in
    subst (Idle db) (ok_injective h1) (record {
      entries = refl;
      holds = refl;
      quiet = record { windows = refl; reservations = refl; requests = refl };
    })

pub Idle-trans : (a b c : Db) → Idle a b → Idle b c → Idle a c
Idle-trans a b c p q = record {
  entries = q.entries ∙ p.entries;
  holds = q.holds ∙ p.holds;
  quiet = record {
    windows = q.quiet.windows ∙ p.quiet.windows;
    reservations = q.quiet.reservations ∙ p.quiet.reservations;
    requests = q.quiet.requests ∙ p.quiet.requests;
  };
}
