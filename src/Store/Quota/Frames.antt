-- ===== src/Store/Quota/Frames.antt =====
-- internal/inference/postgres: what the single statements of the transactions leave as it is.
use mathlib.Core.Path.{subst}
use yunhou_users.Common.{
  ℕ, ◌≡◌, refl, ◌∙◌, Bool, true, not, ◌||◌, Option, none, some, List, ◌∷◌, ℤ, pos, eqb_ℤ, eqb,
  if◌then◌else◌, ◌==◌, arith, Bool-cases, inl, inr, add64,
}
use yunhou_users.Domain.Errors.{Time, ok, err, >>=-eq-ok, >>-eq-ok, ok_injective, Code, fail_if}
use yunhou_users.Domain.Money.{Money, new_money}
use yunhou_users.Domain.Usage.{RequestStatus, UsageRecord}
use yunhou_users.Accounting.Wallet.{WalletSource, split_consume, validate_wallet_entry}
use yunhou_users.Store.Table.{update_row, db_error}
use yunhou_users.Store.Quota.{CostBasis, AttemptRow, Request, Db}
use yunhou_users.Store.Wallet.{WalletHold, insert_wallet_entry}
use yunhou_users.Store.Quota.Release.{is_final, is_parked, update_request_status}
use yunhou_users.Store.Quota.Ledger.{
  SettleCommand, insert_usage_record, insert_usage_row, usage_row, charge_entry, append_charge,
  record_cost, cost_ok, set_attempt_cost, finish, settled_row,
}
use yunhou_users.Store.Quota.WalletSettle.{
  find_hold, entry_spec, consume_entry, write_consume, write_positive, settle_wallet_locked,
}
use yunhou_users.Store.Quota.Converted.{hit}
use yunhou_users.Store.Quota.Consistency.{Quiet}

quiet : (db : Db) → Quiet db db
quiet db = record { windows = refl; reservations = refl; requests = refl }

Quiet-trans : (a b c : Db) → Quiet a b → Quiet b c → Quiet a c
Quiet-trans a b c p q = record {
  windows = q.windows ∙ p.windows;
  reservations = q.reservations ∙ p.reservations;
  requests = q.requests ∙ p.requests;
}

insert_usage_row_ok :
    (u : UsageRecord) (db : Db) {next : Db}
    → insert_usage_row u db ≡ ok next
    → record db { usage_records = u ∷ db.usage_records } ≡ next
insert_usage_row_ok u db e = ground arith

pub insert_usage_record-Quiet :
    (u : UsageRecord) (db : Db) {next : Db} → insert_usage_record u db ≡ ok next → Quiet db next
unfolding insert_usage_record
insert_usage_record-Quiet u db e =
    subst (Quiet db) (insert_usage_row_ok (usage_row u) db e)
      (record { windows = refl; reservations = refl; requests = refl })

append_charge_ok :
    (req : Request) (amount : ℤ) (currency : Option (List ℕ)) (db : Db) {next : Db}
    → append_charge req amount currency db ≡ ok next
    → record db { ledger = charge_entry req amount currency ∷ db.ledger } ≡ next
unfolding append_charge
append_charge_ok req amount currency db e = ground arith

pub append_charge-Quiet :
    (req : Request) (amount : ℤ) (currency : Option (List ℕ)) (db : Db) {next : Db}
    → append_charge req amount currency db ≡ ok next
    → Quiet db next
append_charge-Quiet req amount currency db e =
    subst (Quiet db) (append_charge_ok req amount currency db e)
      (record { windows = refl; reservations = refl; requests = refl })

set_cost-Quiet :
    (o : Option (List AttemptRow)) (cost : Money) (db : Db) {next : Db}
    → (elim o [
      | none ↦ ok db
      | some attempts ↦
          if cost_ok cost
          then ok (record db { attempts = attempts })
          else err (db_error Code.invalid_input)
    ])
      ≡ ok next
    → Quiet db next
set_cost-Quiet none cost db e = subst (Quiet db) (ok_injective e) (quiet db)
set_cost-Quiet (some attempts) cost db e = elim (Bool-cases (cost_ok cost)) [
  | inl q ↦
      subst (Quiet db) (ok_injective (rw q at e))
        (record { windows = refl; reservations = refl; requests = refl })
  | inr q ↦ let e' = rw q at e in cc
]

set_attempt_cost-Quiet :
    (attempt : Option ℕ) (cost : Option Money) (basis : Option CostBasis) (db : Db) {next : Db}
    → set_attempt_cost attempt cost basis db ≡ ok next
    → Quiet db next
set_attempt_cost-Quiet none cost basis db e = subst (Quiet db) (ok_injective e) (quiet db)
set_attempt_cost-Quiet (some a) none basis db e = subst (Quiet db) (ok_injective e) (quiet db)
set_attempt_cost-Quiet (some a) (some c) none db e = subst (Quiet db) (ok_injective e) (quiet db)
set_attempt_cost-Quiet (some a) (some c) (some b) db e = set_cost-Quiet _ c db e

pub record_cost-Quiet :
    (cmd : SettleCommand) (db : Db) {next : Db} → record_cost cmd db ≡ ok next → Quiet db next
unfolding record_cost
record_cost-Quiet cmd db e =
    set_attempt_cost-Quiet cmd.attempt_id cmd.attempt_cost cmd.cost_basis db e

-- settled, released or parked
abbrev pub is_closed : RequestStatus → Bool
is_closed status = is_final status || is_parked status

-- One request is settled, released or parked, and nothing else changes of what the invariant reads.
abbrev pub IsRewrite : ℕ → Db → Db → Type 0
IsRewrite id db next =
    (next.windows ≡ db.windows)
    × (next.reservations ≡ db.reservations)
    × ((p : Request → Bool) × (f : Request → Request) × ((r : Request)
          → ((f r).id ≡ r.id) × (is_closed (f r).status ≡ true))
        × (update_row (λ r. r.id == id) p f db.requests ≡ some next.requests))

pub finish-IsRewrite :
    (cmd : SettleCommand) (amount : ℤ) (db : Db) {next : Db}
    → finish cmd amount db ≡ ok next
    → IsRewrite cmd.request_id db next
unfolding finish
finish-IsRewrite cmd amount db e =
    let (rs, q, t) = hit _ _ _ e in
    subst (IsRewrite cmd.request_id db) t
      (refl, refl, ((λ r. true), settled_row cmd amount, (λ r. (refl, refl)), q))

pub update_request_status-IsRewrite :
    (id : ℕ) (db : Db) {next : Db}
    → update_request_status id RequestStatus.released db ≡ ok next
    → IsRewrite id db next
unfolding update_request_status
update_request_status-IsRewrite id db e =
    let (rs, q, t) = hit _ _ _ e in
    subst (IsRewrite id db) t (
      refl,
      refl,
      ((λ r. true), (λ r. record r { status = RequestStatus.released }), (λ r. (refl, refl)), q),
    )

write_positive-Quiet :
    (hold : WalletHold) (currency : List ℕ) (request_id : ℕ) (now : Time) (source : WalletSource)
    (micros : ℤ) (db : Db) {next : Db}
    → write_positive hold currency request_id now source micros db ≡ ok next
    → Quiet db next
write_positive-Quiet hold currency request_id now source micros db e =
    let (m, _, e1) = >>=-eq-ok (new_money micros currency) _ e in
    let (_, e2) = >>-eq-ok (validate_wallet_entry (entry_spec source m)) _ e1 in
    let (entries, _, e3) =
      >>=-eq-ok
        (insert_wallet_entry (consume_entry hold request_id now source m db) db.wallet_entries) _
        e2 in
    subst (Quiet db) (ok_injective e3)
      (record { windows = refl; reservations = refl; requests = refl })

write_consume-Quiet :
    (hold : WalletHold) (currency : List ℕ) (request_id : ℕ) (now : Time) (source : WalletSource)
    (micros : ℤ) (db : Db) {next : Db}
    → write_consume hold currency request_id now source micros db ≡ ok next
    → Quiet db next
unfolding write_consume
write_consume-Quiet hold currency request_id now source micros db e =
    elim (Bool-cases (eqb_ℤ micros (pos 0))) [
      | inl q ↦ subst (Quiet db) (ok_injective (rw q at e)) (quiet db)
      | inr q ↦ write_positive-Quiet hold currency request_id now source micros db (rw q at e)
    ]

pub settle_wallet_locked-Quiet :
    (request_id : ℕ) (now : Time) (charge : Money) (db : Db) {next : Db}
    → settle_wallet_locked request_id now charge db ≡ ok next
    → Quiet db next
unfolding settle_wallet_locked
settle_wallet_locked-Quiet request_id now charge db e =
    let (hc, _, e1) = >>=-eq-ok (find_hold request_id db) _ e in
    let (hold, currency) = hc in
    let (_, e2) = >>-eq-ok (fail_if (not (eqb charge.currency currency)) _) _ e1 in
    let (parts, _, e3) = >>=-eq-ok (split_consume hold.cash hold.bonus charge.micros) _ e2 in
    let (db1, w1, e4) =
      >>=-eq-ok (write_consume hold currency request_id now WalletSource.bonus parts.1 db) _ e3 in
    let (db2, w2, e5) =
      >>=-eq-ok
        (write_consume hold currency request_id now WalletSource.cash (add64 parts.0 parts.2) db1) _
        e4 in
    let (holds, _, t) = hit _ _ _ e5 in
    let q =
      Quiet-trans db db1 db2
        (write_consume-Quiet hold currency request_id now WalletSource.bonus parts.1 db w1)
        (write_consume-Quiet hold currency request_id now WalletSource.cash (add64 parts.0 parts.2)
          db1 w2) in
    subst (Quiet db) t
      (record { windows = q.windows; reservations = q.reservations; requests = q.requests })
