-- ===== src/Store/Quota/Settled.antt =====
-- internal/inference/postgres/ledger_repo.go: a settlement keeps the tables consistent, and rewrites no request
-- that is settled or released.
use mathlib.Core.Path.{subst}
use yunhou_users.Common.{
  ℕ, ◌≡◌, refl, sym, ap, ◌∙◌, Bool, true, false, not, ◌&&◌, Option, none, some, List, pos, ltb_ℤ,
  eqb_ℤ, ◌==◌, arith, Bool-cases, inl, inr,
}
use yunhou_users.Domain.Errors.{ok, >>=-eq-ok, >>-eq-ok, fail_if, fail_if-eq-ok}
use yunhou_users.Domain.Usage.{ReservationState, ReservationTargetKind}
use yunhou_users.Store.Table.{
  or_error-eq-ok, any, map_where, map_where-All, find_where, update_where, or_error,
}
use yunhou_users.Store.Quota.{
  ChargeSource, Reservation, Request, Db, held_on, refs_ok, is_held, names, load_held,
}
use yunhou_users.Store.Quota.Release.{is_final, no_rows}
use yunhou_users.Store.Quota.Ledger.{SettleCommand, insert_usage_record, append_charge, record_cost}
use yunhou_users.Store.Quota.WalletSettle.{
  charge_money, settle_wallet_locked, move_wallet_reservation, settle_wallet, is_wallet,
}
use yunhou_users.Store.Quota.Settle.{settle_all, settle_plan, by_source, settle}
use yunhou_users.Store.Quota.Balance.{BalancedBy-cong}
use yunhou_users.Store.Quota.Loops.{IsSound, IsConsistent}
use yunhou_users.Store.Quota.Converted.{settle_all_keeps, hit, refs_wallet}
use yunhou_users.Store.Quota.Consistency.{loop_starts, wallet_moves, move_where-Distinct}
use yunhou_users.Store.Quota.Frames.{
  finish-IsRewrite, insert_usage_record-Quiet, append_charge-Quiet, record_cost-Quiet,
  settle_wallet_locked-Quiet,
}
use yunhou_users.Store.Quota.Outcomes.{Keeps, Quiet-Keeps, Rewrites, rewritten}

settle_plan_keeps :
    (cmd : SettleCommand) (req : Request) (db : Db) {next : Db}
    → find_where (λ r. r.id == cmd.request_id) db.requests ≡ some req
    → is_final req.status ≡ false
    → settle_plan cmd req db ≡ ok next
    → IsConsistent db
    → IsConsistent next × Rewrites cmd.request_id db next
unfolding settle_plan
settle_plan_keeps cmd req db found unsettled e c =
    let (db1, q1, e1) = >>=-eq-ok (insert_usage_record cmd.usage db) _ e in
    let (db2, q2, e2) = >>=-eq-ok (append_charge req cmd.charge_micros none db1) _ e1 in
    let rows = load_held cmd.request_id db2.reservations in
    let (_, e3) = >>-eq-ok (fail_if (no_rows rows) _) _ e2 in
    let (db3, q3, e4) = >>=-eq-ok (settle_all cmd.charge_micros rows db2) _ e3 in
    let (db4, q4, e5) = >>=-eq-ok (record_cost cmd db3) _ e4 in
    let k1 = Quiet-Keeps db db db1 (insert_usage_record-Quiet cmd.usage db q1) (c, refl) in
    let k2 = Quiet-Keeps db db1 db2 (append_charge-Quiet req cmd.charge_micros none db1 q2) k1 in
    let loop =
      settle_all_keeps cmd.charge_micros db2.requests rows db2 q3
        (loop_starts cmd.request_id db2 k2.0) in
    rewritten cmd.request_id db db4 req found unsettled
      (Quiet-Keeps db db3 db4 (record_cost-Quiet cmd db3 q4) (loop.consistent, loop.frame ∙ k2.1))
      (finish-IsRewrite cmd cmd.charge_micros db4 e5)

update_where_ok {ℓ} :
    {A : Type ℓ} (p : A → Bool) (f : A → A) (xs : List A) {ys : List A}
    → update_where p f xs ≡ some ys
    → map_where p f xs ≡ ys
update_where_ok p f xs e = elim (Bool-cases (any p xs)) [
  | inl q ↦ let e' = rw q at e in cc
  | inr q ↦ let e' = rw q at e in cc
]

wallet_names :
    (kind : ReservationTargetKind) (window key : Option ℕ) (i : ℕ)
    → refs_ok kind window key ≡ true
    → is_wallet kind ≡ true
    → names window i ≡ false
wallet_names ReservationTargetKind.wallet window key i sound w =
    ap (λ o. names o i) (refs_wallet window key sound)
wallet_names ReservationTargetKind.window_five_hour window key i sound w = cc
wallet_names ReservationTargetKind.window_weekly window key i sound w = cc
wallet_names ReservationTargetKind.window_monthly window key i sound w = cc
wallet_names ReservationTargetKind.key_budget window key i sound w = cc
wallet_names ReservationTargetKind.unknown_target window key i sound w = cc

move_wallet_reservation-Keeps :
    (id : ℕ) (db : Db) {next : Db}
    → move_wallet_reservation id db ≡ ok next
    → IsConsistent db
    → Keeps db next
unfolding move_wallet_reservation
move_wallet_reservation-Keeps id db e c =
    let p = λ (r : Reservation). r.request_id == id && is_wallet r.target_kind && is_held r.state in
    let (rs, q, t) = hit _ _ _ e in
    let moved =
      update_where_ok p (λ r. record r { state = ReservationState.settled_state }) db.reservations
        q in
    subst (Keeps db) (ap (λ l. record db { reservations = l }) moved ∙ t) (
      record {
        balanced =
            BalancedBy-cong (held_on db.reservations) _ db.windows
              (λ i. sym (
                wallet_moves p ReservationState.settled_state db.reservations i
                  (λ r s pr. wallet_names r.target_kind r.window_id r.api_key_id i s (ground arith))
                  c.sound))
              c.balanced;
        distinct = move_where-Distinct p ReservationState.settled_state db.reservations c.distinct;
        sound = map_where-All IsSound IsSound p _ db.reservations (λ r s _. s) (λ r s _. s) c.sound;
      },
      refl,
    )

settle_wallet_keeps :
    (cmd : SettleCommand) (req : Request) (db : Db) {next : Db}
    → find_where (λ r. r.id == cmd.request_id) db.requests ≡ some req
    → is_final req.status ≡ false
    → settle_wallet cmd req db ≡ ok next
    → IsConsistent db
    → IsConsistent next × Rewrites cmd.request_id db next
unfolding settle_wallet
settle_wallet_keeps cmd req db found unsettled e c =
    let (db1, q1, e1) = >>=-eq-ok (insert_usage_record cmd.usage db) _ e in
    let (charge, _, e2) = >>=-eq-ok (charge_money cmd.wallet_charge cmd db1) _ e1 in
    let (_, e3) = >>-eq-ok (fail_if (not (eqb_ℤ charge.micros cmd.charge_micros)) _) _ e2 in
    let (db2, q2, e4) =
      >>=-eq-ok (append_charge req charge.micros (some charge.currency) db1) _ e3 in
    let (db3, q3, e5) = >>=-eq-ok (settle_wallet_locked cmd.request_id cmd.now charge db2) _ e4 in
    let (db4, q4, e6) = >>=-eq-ok (move_wallet_reservation cmd.request_id db3) _ e5 in
    let (db5, q5, e7) = >>=-eq-ok (record_cost cmd db4) _ e6 in
    let k1 = Quiet-Keeps db db db1 (insert_usage_record-Quiet cmd.usage db q1) (c, refl) in
    let k2 =
      Quiet-Keeps db db1 db2 (append_charge-Quiet req charge.micros (some charge.currency) db1 q2)
        k1 in
    let k3 =
      Quiet-Keeps db db2 db3 (settle_wallet_locked-Quiet cmd.request_id cmd.now charge db2 q3) k2 in
    let (c4, r4) = move_wallet_reservation-Keeps cmd.request_id db3 q4 k3.0 in
    rewritten cmd.request_id db db5 req found unsettled
      (Quiet-Keeps db db4 db5 (record_cost-Quiet cmd db4 q5) (c4, r4 ∙ k3.1))
      (finish-IsRewrite cmd charge.micros db5 e7)

by_source_keeps :
    (source : ChargeSource) (cmd : SettleCommand) (req : Request) (db : Db) {next : Db}
    → find_where (λ r. r.id == cmd.request_id) db.requests ≡ some req
    → is_final req.status ≡ false
    → by_source source cmd req db ≡ ok next
    → IsConsistent db
    → IsConsistent next × Rewrites cmd.request_id db next
by_source_keeps ChargeSource.wallet cmd req db found unsettled e c =
    settle_wallet_keeps cmd req db found unsettled e c
by_source_keeps ChargeSource.plan cmd req db found unsettled e c =
    settle_plan_keeps cmd req db found unsettled e c

pub settle_keeps :
    (cmd : SettleCommand) (db : Db) {next : Db}
    → settle cmd db ≡ ok next
    → IsConsistent db
    → IsConsistent next × Rewrites cmd.request_id db next
unfolding settle
settle_keeps cmd db e c =
    let (_, e1) = >>-eq-ok (fail_if (ltb_ℤ cmd.charge_micros (pos 0)) _) _ e in
    let (req, found, e2) =
      >>=-eq-ok (or_error (find_where (λ r. r.id == cmd.request_id) db.requests) _) _ e1 in
    let (unsettled, e3) = >>-eq-ok (fail_if (is_final req.status) _) _ e2 in
    by_source_keeps req.charge_source cmd req db (or_error-eq-ok _ _ found)
      (fail_if-eq-ok _ _ unsettled) e3 c
