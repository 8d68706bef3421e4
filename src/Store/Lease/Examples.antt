-- ===== src/Store/Lease/Examples.antt =====
-- internal/inference/postgres/lease_repo.go: the theorems at a concrete table.
use yunhou_users.Common.{
  ℕ, ◌≡◌, ◌≢◌, ◌≤◌, refl, true, not, ◌||◌, none, some, List, [], ◌∷◌, pos, All, arith, ltb,
}
use yunhou_users.Domain.Errors.{Code, new_error, Result, ok, err}
use yunhou_users.Store.Lease.{
  LeaseScope, LeaseState, LeaseRow, AcquireLeaseCommand, holds_slot, acquire_lease, renew_lease,
  release_lease, check_lease, count_held, max_fencing, reclaim, take_slot, insert_lease, any_clash,
}
use yunhou_users.Store.Lease.Fencing.{IsFenced, acquire_lease-IsFenced, lost_lease_refused}
use yunhou_users.Store.Lease.Steps.{acquires, here, then_step}
use yunhou_users.Store.Lease.Slots.{Reach-count_held}

abbrev lease : ℕ → ℕ → LeaseRow
lease id fencing = record {
  id = id;
  scope = LeaseScope.api_key;
  scope_id = 5;
  request_id = id;
  owner = 3;
  fencing = fencing;
  state = LeaseState.held;
  acquired = 10;
  expires = 20;
  released_at = none;
}

-- One lease that is past its time at 30.
abbrev rows : List LeaseRow
rows = lease 1 4 ∷ []

abbrev command : AcquireLeaseCommand
command = record {
  scope = LeaseScope.api_key;
  scope_id = 5;
  request_id = 2;
  owner_token = 3;
  limit = pos 1;
  ttl = pos 15;
  now = some 30;
}

abbrev fresh : Result (List LeaseRow × LeaseRow) → List LeaseRow × LeaseRow
fresh (ok r) = r
fresh (err e) = (rows, lease 1 4)

abbrev granted : List LeaseRow × LeaseRow
granted = fresh (acquire_lease command 2 0 0 rows)

grants : acquire_lease command 2 0 0 rows ≡ ok granted
unfolding acquire_lease take_slot insert_lease reclaim count_held max_fencing any_clash
grants = refl

acquire_lease-IsFenced_example :
    IsFenced granted.1 rows
    × All
        (λ r.
          (not (holds_slot command.scope command.scope_id r) || ltb granted.1.acquired r.expires)
          ≡ true)
        granted.0
acquire_lease-IsFenced_example = acquire_lease-IsFenced command 2 0 0 rows grants

Reach-count_held_example : count_held LeaseScope.api_key 5 granted.0 ≤ 1
unfolding count_held
Reach-count_held_example =
    Reach-count_held LeaseScope.api_key 5 1 rows
      (then_step here (acquires command 2 0 0 granted.1 refl grants)) (omega arith)

-- The lease 1 has been reclaimed by the acquisition.
lost_lease_refused_example :
    (renew_lease 1 3 4 40 granted.0 ≡ err (new_error Code.conflict))
    × (release_lease 1 3 4 40 granted.0 ≡ err (new_error Code.conflict))
    × (check_lease 1 3 4 none 31 granted.0 ≢ ok tt)
unfolding acquire_lease take_slot insert_lease reclaim count_held max_fencing any_clash
lost_lease_refused_example =
    lost_lease_refused 1 3 4 40 40 none 31 granted.0 (refl, (refl, tt)) here
