-- ===== src/Routing/Examples.antt =====
-- internal/inference/routing: the theorems at concrete accounts.
use yunhou_users.Common.{
  arith, false, ℕ, ◌≤◌, ◌≡◌, refl, true, none, some, List, [], ◌∷◌, pos, keep,
}
use yunhou_users.Domain.Errors.{Result, ok, err, code_of}
use yunhou_users.Store.Lease.{
  LeaseScope, LeaseState, LeaseRow, holds_slot, count_held, acquire_lease, take_slot, insert_lease,
  reclaim, max_fencing, any_clash,
}
use yunhou_users.Routing.Pool.{
  UpstreamAccountStatus, UpstreamQuota, UpstreamAccount, Service, schedulable,
  order_accounts_with_quota, recheck, acquire_upstream_lease, is_active, quota_exhausted,
}
use yunhou_users.Routing.Pool.Rotation.{IsRotated, order_accounts_with_quota-IsRotated}
use yunhou_users.Routing.Pool.Leases.{acquire_upstream_lease-count_held}
use yunhou_users.Routing.Session.{
  SessionBindingStatus, SessionBinding, bind, migrate, resolve, count_active,
  insert_session_binding, get_active_session_binding, end_session_binding, touch_session_binding,
}
use yunhou_users.Routing.Session.Sole.{IsSole}
use yunhou_users.Routing.Session.Steps.{here, then_step, binds_to, migrates, Reach-IsSole}
use yunhou_users.Routing.Session.Pinned.{migrate-resolve}

abbrev unknown_quota : UpstreamQuota
unknown_quota = record {
  limit_micros = none;
  remaining_micros = none;
  observed_at = none;
  reset_at = none;
}

abbrev spent_quota : UpstreamQuota
spent_quota = record {
  limit_micros = none;
  remaining_micros = some (pos 0);
  observed_at = none;
  reset_at = some 90;
}

abbrev account : ℕ → UpstreamQuota → UpstreamAccount
account id quota = record {
  id = id;
  status = UpstreamAccountStatus.active;
  concurrency_limit = pos 2;
  quota = quota;
}

-- The quota of 2 is spent until 90, and 3 cools down until 70.
abbrev pool : List UpstreamAccount
pool =
    account 1 unknown_quota
    ∷ account 2 spent_quota
    ∷ account 3 unknown_quota
    ∷ account 4 unknown_quota
    ∷ []

abbrev service : Service
service = record {
  cooled = (3, 70) ∷ [];
  cursors = (8, 3) ∷ [];
  owner_token = 6;
  lease_ttl = pos 100;
}

order_accounts_with_quota-IsRotated_example :
    IsRotated service 8
      (keep (λ a. schedulable service a 75) pool)
      (order_accounts_with_quota service 8 pool 75)
order_accounts_with_quota-IsRotated_example =
    order_accounts_with_quota-IsRotated service 8 pool 75 (refl, (refl, (refl, (refl, tt))))

abbrev granted_or : LeaseRow → Result (List LeaseRow × LeaseRow) → List LeaseRow × LeaseRow
granted_or row (ok r) = r
granted_or row (err e) = ([], row)

abbrev spare : LeaseRow
spare = record {
  id = 0;
  scope = LeaseScope.upstream_account;
  scope_id = 0;
  request_id = 0;
  owner = 0;
  fencing = 0;
  state = LeaseState.released;
  acquired = 0;
  expires = 1;
  released_at = none;
}

abbrev leased : List LeaseRow × LeaseRow
leased = granted_or spare (
    acquire_upstream_lease service (account 1 unknown_quota) 11 75
      (some (ok UpstreamAccountStatus.active)) 12 13 0 [])

leases_it :
    acquire_upstream_lease service
      (account 1 unknown_quota)
      11
      75
      (some (ok UpstreamAccountStatus.active))
      12
      13
      0
      []
    ≡ ok leased
unfolding acquire_upstream_lease acquire_lease take_slot insert_lease reclaim count_held max_fencing
    any_clash
leases_it = refl

acquire_upstream_lease-count_held_example :
    (recheck (some (ok UpstreamAccountStatus.active)) ≡ ok tt)
    × (holds_slot LeaseScope.upstream_account 1 leased.1 ≡ true)
    × (1 ≤ count_held LeaseScope.upstream_account 1 leased.0)
    × (count_held LeaseScope.upstream_account 1 leased.0 ≤ 2)
acquire_upstream_lease-count_held_example =
    acquire_upstream_lease-count_held service (account 1 unknown_quota) 11 75
      (some (ok UpstreamAccountStatus.active)) 12 13 0 [] leases_it

abbrev rows_or {ℓ} : {A : Type ℓ} → A → Result A → A
rows_or spare_one (ok r) = r
rows_or spare_one (err e) = spare_one

-- The conversation 21 about the model 22 on the account 1, and then on 4.
abbrev bound : List SessionBinding
bound = rows_or [] (bind pool true (pos 1000) 75 31 75 21 22 1 [])

bound_it : bind pool true (pos 1000) 75 31 75 21 22 1 [] ≡ ok bound
unfolding bind insert_session_binding
bound_it = refl

abbrev moved : List SessionBinding
moved = rows_or [] (migrate pool true (pos 1000) 80 80 32 80 21 22 4 bound)

moved_it : migrate pool true (pos 1000) 80 80 32 80 21 22 4 bound ≡ ok moved
unfolding bind migrate insert_session_binding get_active_session_binding end_session_binding code_of
moved_it = refl

no_rows-IsSole : IsSole []
unfolding count_active
no_rows-IsSole key model = omega arith

Reach-IsSole_example : IsSole moved
Reach-IsSole_example =
    Reach-IsSole []
      (then_step pool (then_step pool here (binds_to true (pos 1000) 75 31 75 21 22 1 bound_it))
        (migrates true (pos 1000) 80 80 32 80 21 22 4 moved_it))
      no_rows-IsSole

abbrev pinned : SessionBinding
pinned = record {
  id = 32;
  session_key = 21;
  model_id = 22;
  account_id = 4;
  status = SessionBindingStatus.active;
  ended_reason = none;
  last_used_at = 80;
  expires_at = 1080;
}

abbrev resolved : List SessionBinding × SessionBinding × UpstreamAccount
resolved = rows_or ([], pinned, account 9 unknown_quota) (resolve pool 90 90 90 21 22 moved)

resolved_it : resolve pool 90 90 90 21 22 moved ≡ ok (resolved.0, resolved.1, resolved.2)
unfolding bind migrate insert_session_binding get_active_session_binding end_session_binding code_of
    resolve touch_session_binding quota_exhausted
resolved_it = refl

migrate-resolve_example :
    (count_active 21 22 moved ≡ 1)
    × (resolved.2.id ≡ 4)
    × (is_active resolved.2.status ≡ true)
    × (quota_exhausted resolved.2 90 ≡ false)
migrate-resolve_example =
    migrate-resolve pool pool true (pos 1000) 80 80 32 80 21 22 4 90 90 90 bound moved_it
      resolved_it
