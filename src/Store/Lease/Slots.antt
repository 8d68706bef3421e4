-- ===== src/Store/Lease/Slots.antt =====
-- internal/inference/postgres/lease_repo.go: the slots of a scope are never oversold.
use mathlib.Core.Path.{subst}
use yunhou_users.Common.{
  ◌==◌, ◌&&◌, not, ◌||◌, leb, Bool, ℕ, suc, ◌≤◌, ◌≡◌, sym, ap, ◌∙◌, true, List, ◌∷◌, pos_part,
  arith,
}
use yunhou_users.Store.Lease.{
  LeaseScope, LeaseRow, AcquireLeaseCommand, in_scope, scope_eqb, count_held, reclaim, or_else,
  delete_terminal_leases,
}
use yunhou_users.Store.Lease.Table.{
  count_held-reclaim, count_held-set_expires, count_held-set_released, count_held-keep,
}
use yunhou_users.Store.Lease.Steps.{Step, acquires, renews, releases, reaps, Reach, here, then_step}
use yunhou_users.Store.Lease.Fencing.{acquire_lease-IsGranted, renew_lease_ok, release_lease_ok}

-- The acquisitions of the scope ask for at most this limit; those of other scopes are free.
abbrev pub LimitedTo : LeaseScope → ℕ → ℕ → AcquireLeaseCommand → ℕ → Type 0
LimitedTo scope sid limit cmd id =
    (not (scope_eqb cmd.scope scope && cmd.scope_id == sid) || leb (pos_part cmd.limit) limit)
    ≡ true

limited :
    (s : Bool) (id sid n limit : ℕ)
    → s ≡ true
    → id ≡ sid
    → (not (s && id == sid) || leb n limit) ≡ true
    → n ≤ limit
limited s id sid n limit es ei within = ground arith

scope_eqb→eq : (a b : LeaseScope) → scope_eqb a b ≡ true → a ≡ b
scope_eqb→eq a b h = ground arith

count_held-cons :
    (scope : LeaseScope) (sid : ℕ) (r : LeaseRow) (rs : List LeaseRow) (n : ℕ)
    → count_held scope sid rs ≤ n
    → (in_scope scope sid r ≡ true → suc (count_held scope sid rs) ≤ n)
    → count_held scope sid (r ∷ rs) ≤ n
unfolding count_held
count_held-cons scope sid r rs n h g = ground arith

Step-bounded :
    (scope : LeaseScope) (sid limit : ℕ) (rows next : List LeaseRow)
    → Step (LimitedTo scope sid limit) rows next
    → count_held scope sid rows ≤ limit
    → count_held scope sid next ≤ limit
unfolding delete_terminal_leases
Step-bounded scope sid limit rows next (acquires cmd id uuid wall row within e) h =
    let (q, q', room, _) = acquire_lease-IsGranted cmd id uuid wall rows e in
    let now = or_else cmd.now wall in
    let rows0 = reclaim cmd.scope cmd.scope_id now rows in
    subst (λ t. count_held scope sid t ≤ limit) (sym q')
      (count_held-cons scope sid row rows0 limit
        (omega (arith, count_held-reclaim cmd.scope scope cmd.scope_id sid now rows))
        (λ inside.
          let es : scope_eqb cmd.scope scope ≡ true = ground (arith, inside, q) in
          let ei : cmd.scope_id ≡ sid = ground (arith, inside, q) in
          let same =
            ap (λ s. count_held s cmd.scope_id rows0) (scope_eqb→eq cmd.scope scope es)
            ∙ ap (λ i. count_held scope i rows0) ei in
          omega (
            arith,
            same,
            limited (scope_eqb cmd.scope scope) cmd.scope_id sid _ limit es ei within,
          )))
Step-bounded scope sid limit rows next (renews i owner fencing until e) h =
    subst (λ t. count_held scope sid t ≤ limit) (renew_lease_ok i owner fencing until rows e)
      (rw (count_held-set_expires scope sid i owner fencing until rows) h)
Step-bounded scope sid limit rows next (releases i owner fencing at e) h =
    subst (λ t. count_held scope sid t ≤ limit) (release_lease_ok i owner fencing at rows e)
      (omega (arith, count_held-set_released scope sid i owner fencing at rows))
Step-bounded scope sid limit rows next (reaps cutoff most e) h =
    subst (λ t. count_held scope sid t ≤ limit) e (omega (arith, count_held-keep scope sid _ rows))

-- As long as every acquisition in a scope asks for at most `limit` slots, no more than `limit` leases of
-- the scope are ever held at once, whatever the other transactions are and however they interleave.
pub Reach-count_held :
    (scope : LeaseScope) (sid limit : ℕ) (rows : List LeaseRow) {last : List LeaseRow}
    → Reach (LimitedTo scope sid limit) rows last
    → count_held scope sid rows ≤ limit
    → count_held scope sid last ≤ limit
Reach-count_held scope sid limit rows here h = h
Reach-count_held scope sid limit rows (then_step {mid} {last} r step) h =
    Step-bounded scope sid limit mid last step (Reach-count_held scope sid limit rows r h)
