-- ===== src/Routing/Pool/Leases.antt =====
-- internal/inference/routing/service.go: the leases of an account, over the lease table.
use mathlib.Core.Path.{subst}
use yunhou_users.Common.{
  ℕ, suc, ◌≤◌, ◌≡◌, sym, ap, ◌∙◌, true, Option, List, ◌∷◌, pos, pos_part, leb_ℤ, arith, refl, ◌==◌,
  ◌&&◌,
}
use yunhou_users.Domain.Errors.{Time, Code, new_error, Result, ok, >>-eq-ok, fail_if}
use yunhou_users.Store.Lease.{LeaseScope, LeaseRow, holds_slot, count_held, reclaim}
use yunhou_users.Store.Lease.Fencing.{acquire_lease-IsGranted}
use yunhou_users.Routing.Pool.{
  UpstreamAccountStatus, UpstreamAccount, Service, lease_command, recheck, acquire_upstream_lease,
}

held_first :
    (scope : LeaseScope) (sid : ℕ) (row : LeaseRow) (rows : List LeaseRow)
    → holds_slot scope sid row ≡ true
    → count_held scope sid (row ∷ rows) ≡ suc (count_held scope sid rows)
unfolding count_held
held_first scope sid row rows h = rw h refl

same_slot : (id : ℕ) → (id == id && true) ≡ true
same_slot id = ground arith

-- A lease of an account is granted only when the recheck found the account active, or there is none; the
-- account then holds that lease, and never more leases than its concurrency limit, whatever the table held
-- before.
pub acquire_upstream_lease-count_held :
    (s : Service) (a : UpstreamAccount) (request_id : ℕ) (now : Time)
    (answer : Option (Result UpstreamAccountStatus)) (id uuid : ℕ) (wall : Time)
    (rows : List LeaseRow) {next : List LeaseRow} {row : LeaseRow}
    → acquire_upstream_lease s a request_id now answer id uuid wall rows ≡ ok (next, row)
    → (recheck answer ≡ ok tt)
      × (holds_slot LeaseScope.upstream_account a.id row ≡ true)
      × (1 ≤ count_held LeaseScope.upstream_account a.id next)
      × (count_held LeaseScope.upstream_account a.id next ≤ pos_part a.concurrency_limit)
unfolding acquire_upstream_lease
acquire_upstream_lease-count_held s a request_id now answer id uuid wall rows {next} {row} e =
    let (_, e1) =
      >>-eq-ok (fail_if (leb_ℤ a.concurrency_limit (pos 0)) (new_error Code.insufficient_capacity))
        _ e in
    let (checked, e2) = >>-eq-ok (recheck answer) _ e1 in
    let (q, q', room, _) =
      acquire_lease-IsGranted (lease_command s a request_id now) id uuid wall rows e2 in
    let rows0 = reclaim LeaseScope.upstream_account a.id now rows in
    let held =
      subst (λ r. holds_slot LeaseScope.upstream_account a.id r ≡ true) (sym q) (same_slot a.id) in
    let counted =
      ap (count_held LeaseScope.upstream_account a.id) q'
      ∙ held_first LeaseScope.upstream_account a.id row rows0 held in
    (checked, held, omega (arith, counted), omega (arith, counted, room))
