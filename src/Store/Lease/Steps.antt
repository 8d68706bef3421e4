-- ===== src/Store/Lease/Steps.antt =====
-- internal/inference/postgres/lease_repo.go: the interleavings of the transactions on the lease table. The
-- lock of the scope and the row locks make every transaction that commits one step; one that fails is
-- rolled back and leaves the table as it was.
use yunhou_users.Common.{ℕ, ◌≡◌, List, ℤ}
use yunhou_users.Domain.Errors.{Time, ok}
use yunhou_users.Store.Lease.{
  LeaseRow, AcquireLeaseCommand, acquire_lease, renew_lease, release_lease, delete_terminal_leases,
}

-- One committed transaction; the acquisitions are those that the condition on the command and on the
-- new row's identifier admits.
pub data Step (P : AcquireLeaseCommand → ℕ → Type 0) (rows next : List LeaseRow) : Type 0 where
  acquires :
      (cmd : AcquireLeaseCommand) (id uuid : ℕ) (wall : Time) (row : LeaseRow)
      → P cmd id
      → acquire_lease cmd id uuid wall rows ≡ ok (next, row)
      → Step P rows next
  renews :
      (id owner fencing : ℕ) (until : Time)
      → renew_lease id owner fencing until rows ≡ ok next
      → Step P rows next
  releases :
      (id owner fencing : ℕ) (at : Time)
      → release_lease id owner fencing at rows ≡ ok next
      → Step P rows next
  reaps :
      (cutoff : Time) (limit : ℤ)
      → (delete_terminal_leases cutoff limit rows).0 ≡ next
      → Step P rows next

-- Any number of such steps.
pub data Reach (P : AcquireLeaseCommand → ℕ → Type 0) (rows : List LeaseRow)
    : List LeaseRow → Type 0 where
  here : Reach P rows rows
  then_step : {mid last : List LeaseRow} → Reach P rows mid → Step P mid last → Reach P rows last
