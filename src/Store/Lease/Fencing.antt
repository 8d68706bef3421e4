-- ===== src/Store/Lease/Fencing.antt =====
-- internal/inference/postgres/lease_repo.go: an acquisition is fenced, and a lease that is lost stays lost.
use mathlib.Core.Path.{subst}
use yunhou_users.Common.{
  ◌==◌, Bool, not, ◌||◌, ◌&&◌, ltb, ℕ, suc, ◌+◌, ◌≤◌, ◌<◌, ◌≡◌, ◌≢◌, refl, sym, ap, ◌∙◌, true,
  false, Option, List, [], ◌∷◌, pos, pos_part, leb_ℤ, All, All_mono, Bool-cases, inl, inr, lt→ltb,
  keep-All, arith,
}
use yunhou_users.Domain.Errors.{
  Time, Code, new_error, ok, err, >>=-eq-ok, >>-eq-ok, fail_if, fail_if-eq-ok, ok_injective,
}
use yunhou_users.Store.Lease.{
  is_held, LeaseRow, AcquireLeaseCommand, in_scope, holds_slot, reclaim, count_held, max_fencing,
  insert_lease, lease_of, take_slot, acquire_lease, any_owned, renewable, renew_lease,
  release_lease, delete_terminal_leases, or_else, set_expires, set_released, check_lease,
  find_lease,
}
use yunhou_users.Store.Lease.Table.{
  max_fencing_bound, max_fencing-reclaim, reclaim-All, IsLost, reclaim-IsLost, set_expires-IsLost,
  set_released-IsLost, IsLost-any_owned,
}
use yunhou_users.Store.Lease.Steps.{Step, acquires, renews, releases, reaps, Reach, here, then_step}

-- What a granted acquisition did: the new row, held by the command's request, is put in front of the
-- reclaimed table, its capacity was not used up, and its token is the next one of the scope.
abbrev pub IsGranted :
    AcquireLeaseCommand → ℕ → ℕ → Time → List LeaseRow → List LeaseRow → LeaseRow → Type 0
IsGranted cmd id uuid wall rows rows' row =
    let rows0 = reclaim cmd.scope cmd.scope_id (or_else cmd.now wall) rows in
    (row
      ≡ lease_of cmd id uuid (or_else cmd.now wall) (max_fencing cmd.scope cmd.scope_id rows0 + 1))
    × (rows' ≡ row ∷ rows0)
    × (suc (count_held cmd.scope cmd.scope_id rows0) ≤ pos_part cmd.limit)
    × (or_else cmd.now wall < row.expires)

insert_lease_ok :
    (new : LeaseRow) (rows : List LeaseRow) {rows' : List LeaseRow}
    → insert_lease new rows ≡ ok rows'
    → (rows' ≡ new ∷ rows) × (new.acquired < new.expires)
unfolding insert_lease
insert_lease_ok new rows h = ground arith

pub acquire_lease-IsGranted :
    (cmd : AcquireLeaseCommand) (id uuid : ℕ) (wall : Time) (rows : List LeaseRow)
    {rows' : List LeaseRow} {row : LeaseRow}
    → acquire_lease cmd id uuid wall rows ≡ ok (rows', row)
    → IsGranted cmd id uuid wall rows rows' row
unfolding acquire_lease take_slot
acquire_lease-IsGranted cmd id uuid wall rows {rows'} {row} h =
    let now = or_else cmd.now wall in
    let rows0 = reclaim cmd.scope cmd.scope_id now rows in
    let (_, h1) = >>-eq-ok (fail_if (leb_ℤ cmd.limit (pos 0)) (new_error Code.invalid_input)) _ h in
    let (_, h2) = >>-eq-ok (fail_if (leb_ℤ cmd.ttl (pos 0)) (new_error Code.invalid_input)) _ h1 in
    let (room, h3) =
      >>-eq-ok
        (fail_if (leb_ℤ cmd.limit (pos (count_held cmd.scope cmd.scope_id rows0)))
          (new_error Code.insufficient_capacity))
        _ h2 in
    let new = lease_of cmd id uuid now (max_fencing cmd.scope cmd.scope_id rows0 + 1) in
    let (t, e, h4) = >>=-eq-ok (insert_lease new rows0) _ h3 in
    let (q, lasts) = insert_lease_ok new rows0 e in
    let free =
      fail_if-eq-ok (leb_ℤ cmd.limit (pos (count_held cmd.scope cmd.scope_id rows0))) _ room in
    let parts = ok_injective h4 in
    let same : new ≡ row = ap (λ p. p.1) parts in
    (
      sym same,
      sym (ap (λ p. p.0) parts) ∙ q ∙ ap (λ r. r ∷ rows0) same,
      ground (arith, free),
      subst (λ r. now < r.expires) same lasts,
    )

-- The token is above every token that the scope's rows have had.
abbrev pub IsFenced : LeaseRow → List LeaseRow → Type 0
IsFenced new rows =
    All (λ r. (not (in_scope new.scope new.scope_id r) || ltb r.fencing new.fencing) ≡ true) rows

or_lasts : (b : Bool) {c : Bool} → c ≡ true → (b || c) ≡ true
or_lasts true e = refl
or_lasts false e = e

lasting :
    (cmd : AcquireLeaseCommand) (r row : LeaseRow) (now : Time)
    → row.acquired ≡ now
    → (holds_slot cmd.scope cmd.scope_id r ≡ true → now < r.expires)
    → (not (holds_slot cmd.scope cmd.scope_id r) || ltb row.acquired r.expires) ≡ true
lasting cmd r row now at later = elim (Bool-cases (holds_slot cmd.scope cmd.scope_id r)) [
  | inl e ↦ rw e (lt→ltb row.acquired r.expires (rw at (later e)))
  | inr e ↦ rw e refl
]

fenced :
    (row r : LeaseRow) (cmd : AcquireLeaseCommand) (rows : List LeaseRow) (n : ℕ) (id uuid : ℕ)
    (now : Time)
    → row ≡ lease_of cmd id uuid now (n + 1)
    → max_fencing cmd.scope cmd.scope_id rows ≤ n
    → (in_scope cmd.scope cmd.scope_id r ≡ true
        → r.fencing ≤ max_fencing cmd.scope cmd.scope_id rows)
    → (not (in_scope row.scope row.scope_id r) || ltb r.fencing row.fencing) ≡ true
fenced row r cmd rows n id uuid now q small below =
    subst (λ t. (not (in_scope t.scope t.scope_id r) || ltb r.fencing t.fencing) ≡ true) (sym q)
      (elim (Bool-cases (in_scope cmd.scope cmd.scope_id r)) [
        | inl e ↦ rw e (lt→ltb r.fencing (n + 1) (omega (arith, below e)))
        | inr e ↦ rw e refl
      ])

-- A granted lease has a token above those of all rows that the table keeps of the scope, and every slot of
-- the scope that is held after it lasts beyond the instant of the acquisition.
pub acquire_lease-IsFenced :
    (cmd : AcquireLeaseCommand) (id uuid : ℕ) (wall : Time) (rows : List LeaseRow)
    {rows' : List LeaseRow} {row : LeaseRow}
    → acquire_lease cmd id uuid wall rows ≡ ok (rows', row)
    → IsFenced row rows
      × All
          (λ r. (not (holds_slot cmd.scope cmd.scope_id r) || ltb row.acquired r.expires) ≡ true)
          rows'
acquire_lease-IsFenced cmd id uuid wall rows {rows'} {row} h =
    let now = or_else cmd.now wall in
    let (q, q', room, lasts) = acquire_lease-IsGranted cmd id uuid wall rows h in
    let same = max_fencing-reclaim cmd.scope cmd.scope_id now rows in
    let at : row.acquired ≡ now = ap (λ r. r.acquired) q in
    (
      All_mono (λ r below. fenced row r cmd rows _ _ uuid _ q (omega (arith, same)) below) rows
          (max_fencing_bound cmd.scope cmd.scope_id rows),
      subst
          (All
            (λ r. (not (holds_slot cmd.scope cmd.scope_id r) || ltb row.acquired r.expires) ≡ true))
          (sym q')
          (
            or_lasts (not (holds_slot cmd.scope cmd.scope_id row))
                (lt→ltb row.acquired row.expires (rw at lasts)),
            All_mono (λ r later. lasting cmd r row now at later) _
                (reclaim-All cmd.scope cmd.scope_id now rows),
          ),
    )

pub renew_lease_ok :
    (id owner fencing : ℕ) (until : Time) (rows : List LeaseRow) {next : List LeaseRow}
    → renew_lease id owner fencing until rows ≡ ok next
    → set_expires id owner fencing until rows ≡ next
unfolding renew_lease
renew_lease_ok id owner fencing until rows h = ground arith

pub release_lease_ok :
    (id owner fencing : ℕ) (at : Time) (rows : List LeaseRow) {next : List LeaseRow}
    → release_lease id owner fencing at rows ≡ ok next
    → set_released id owner fencing at rows ≡ next
unfolding release_lease
release_lease_ok id owner fencing at rows h = ground arith

new_lost : (id new : ℕ) (held : Bool) → new ≢ id → (new == id && held) ≡ false
new_lost id new held fresh = ground arith

Step-IsLost :
    (id : ℕ) (rows next : List LeaseRow)
    → Step (λ cmd new. new ≢ id) rows next
    → IsLost id rows
    → IsLost id next
unfolding delete_terminal_leases
Step-IsLost id rows next (acquires cmd new uuid wall row fresh e) lost =
    let (q, q', _, _) = acquire_lease-IsGranted cmd new uuid wall rows e in
    subst (IsLost id) (sym q') (
      new_lost id row.id (is_held row.state) (λ same. fresh (sym (ap (λ r. r.id) q) ∙ same)),
      reclaim-IsLost id cmd.scope cmd.scope_id (or_else cmd.now wall) rows lost,
    )
Step-IsLost id rows next (renews i owner fencing until e) lost =
    subst (IsLost id) (renew_lease_ok i owner fencing until rows e)
      (set_expires-IsLost id i owner fencing until rows lost)
Step-IsLost id rows next (releases i owner fencing at e) lost =
    subst (IsLost id) (release_lease_ok i owner fencing at rows e)
      (set_released-IsLost id i owner fencing at rows lost)
Step-IsLost id rows next (reaps cutoff limit e) lost = subst (IsLost id) e (keep-All _ _ rows lost)

Reach-IsLost :
    (id : ℕ) (rows : List LeaseRow) {last : List LeaseRow}
    → Reach (λ cmd new. new ≢ id) rows last
    → IsLost id rows
    → IsLost id last
Reach-IsLost id rows here lost = lost
Reach-IsLost id rows (then_step {mid} {last} r step) lost =
    Step-IsLost id mid last step (Reach-IsLost id rows r lost)

renewable_unowned :
    (id owner fencing : ℕ) (until : Time) (rows : List LeaseRow)
    → any_owned id owner fencing rows ≡ false
    → renewable id owner fencing until rows ≡ true
unfolding any_owned renewable
renewable_unowned id owner fencing until [] h = refl
renewable_unowned id owner fencing until (r ∷ rs) h =
    ground (arith, renewable_unowned id owner fencing until rs)

check_lease_lost :
    (id owner fencing : ℕ) (now : Option Time) (wall : Time) (rows : List LeaseRow)
    → IsLost id rows
    → check_lease id owner fencing now wall rows ≢ ok tt
unfolding check_lease find_lease
check_lease_lost id owner fencing now wall [] h = λ e. cc
check_lease_lost id owner fencing now wall (r ∷ rs) (h, hs) =
    λ e. ground (arith, h, check_lease_lost id owner fencing now wall rs hs)

-- A lease that is not held any more, because it was reclaimed, released or deleted, is lost for good:
-- after any interleaving of committed transactions, in which no other lease is given its identifier, a
-- renewal and a release of it are refused as conflicts, and a check never passes, whatever owner token
-- and fencing token its former holder shows.
pub lost_lease_refused :
    (id owner fencing : ℕ) (until at : Time) (now : Option Time) (wall : Time)
    (rows : List LeaseRow) {last : List LeaseRow}
    → IsLost id rows
    → Reach (λ cmd new. new ≢ id) rows last
    → (renew_lease id owner fencing until last ≡ err (new_error Code.conflict))
      × (release_lease id owner fencing at last ≡ err (new_error Code.conflict))
      × (check_lease id owner fencing now wall last ≢ ok tt)
unfolding renew_lease release_lease
lost_lease_refused id owner fencing until at now wall rows {last} lost r =
    let lost' = Reach-IsLost id rows r lost in
    let unowned = IsLost-any_owned id owner fencing last lost' in
    (
      rw (renewable_unowned id owner fencing until last unowned, unowned) refl,
      rw unowned refl,
      check_lease_lost id owner fencing now wall last lost',
    )
