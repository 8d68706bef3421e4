-- ===== src/Routing/Pool.antt =====
-- internal/inference/routing: service.go and account_pool.go, the accounts of a provider in the order in which
-- they are tried, their health, their cooldowns and their leases. A map is the list of its entries, a later
-- entry first.
pub mod Rotation
pub mod Leases
use yunhou_users.Common.{
  ℕ, zero, suc, ◌+◌, ◌%◌, Bool, true, false, not, ◌||◌, ◌&&◌, Option, none, some, List, [], ◌∷◌,
  ◌++◌, length, keep, get_elem?, ℤ, pos, leb_ℤ, leb, ltb, if◌then◌else◌, ◌==◌,
}
use yunhou_users.Domain.Errors.{
  Time, Code, Sentinel, Error, sentinel, new_error, wrap_error, code_of, Result, ok, err, ◌>>=◌,
  ◌>>◌, fail_if,
}
use yunhou_users.Store.Lease.{
  LeaseScope, LeaseRow, AcquireLeaseCommand, acquire_lease, release_lease,
}

pub data UpstreamAccountStatus : Type 0 where
  active refreshing cooldown reauth_required disabled : UpstreamAccountStatus

pub record UpstreamQuota : Type 0 where
  pub limit_micros : Option ℤ
  pub remaining_micros : Option ℤ
  pub observed_at : Option Time
  pub reset_at : Option Time

pub record UpstreamAccount : Type 0 where
  pub id : ℕ
  pub status : UpstreamAccountStatus
  pub concurrency_limit : ℤ
  pub quota : UpstreamQuota

-- The cooldowns by account and the cursors by provider, with the owner token and the lifetime of the leases.
pub record Service : Type 0 where
  pub cooled : List (ℕ × Time)
  pub cursors : List (ℕ × ℕ)
  pub owner_token : ℕ
  pub lease_ttl : ℤ

abbrev entry_of {ℓ} : {A : Type ℓ} → ℕ → List (ℕ × A) → Option A
entry_of key [] = none
entry_of key ((k, a) ∷ rest) = let later = entry_of key rest in if k == key then some a else later

abbrev after : Option Time → Time → Bool → Bool
after none now unknown = unknown
after (some t) now unknown = ltb now t

abbrev is_spent : Option ℤ → Bool
is_spent none = false
is_spent (some n) = leb_ℤ n (pos 0)

-- `quotaExhausted`
unfoldable pub quota_exhausted : UpstreamAccount → Time → Bool
quota_exhausted a now = is_spent a.quota.remaining_micros && after a.quota.reset_at now true

-- The cooldown of the account that lasts beyond the instant.
abbrev pub is_cooling : Service → ℕ → Time → Bool
is_cooling s id now = after (entry_of id s.cooled) now false

-- The loop of `orderAccounts` behind the cursor: the accounts at the places start + i, around the list.
abbrev pub listed {ℓ} : {A : Type ℓ} → Option A → List A
listed none = []
listed (some a) = a ∷ []

unfoldable pub picks {ℓ} : {A : Type ℓ} → List A → ℕ → ℕ → ℕ → List A
picks xs start i zero = []
picks xs start i (suc count) =
    listed (get_elem? xs ((start + i) % length xs)) ++ picks xs start (suc i) count

abbrev or_zero : Option ℕ → ℕ
or_zero none = 0
or_zero (some n) = n

abbrev pub cursor : Service → ℕ → ℕ
cursor s provider = or_zero (entry_of provider s.cursors)

abbrev pub rotate : Service → ℕ → List UpstreamAccount → Service × List UpstreamAccount
rotate s provider live =
    if leb (length live) 1
    then (s, live)
    else let start = cursor s provider % length live in
      (record s { cursors = (provider, start + 1) ∷ s.cursors }, picks live start 0 (length live))

unfoldable pub order_accounts :
    Service → ℕ → List UpstreamAccount → Time → Service × List UpstreamAccount
unfolding picks
order_accounts s provider accounts now =
    rotate s provider (keep (λ a. not (is_cooling s a.id now)) accounts)

unfoldable pub order_accounts_with_quota :
    Service → ℕ → List UpstreamAccount → Time → Service × List UpstreamAccount
unfolding quota_exhausted order_accounts
order_accounts_with_quota s provider accounts now =
    order_accounts s provider
      (keep (λ a. not (leb_ℤ a.concurrency_limit (pos 0)) && not (quota_exhausted a now)) accounts)
      now

abbrev pub is_active : UpstreamAccountStatus → Bool
is_active UpstreamAccountStatus.active = true
is_active _ = false

-- `Schedulable` of `HealthOf`.
unfoldable pub schedulable : Service → UpstreamAccount → Time → Bool
unfolding quota_exhausted
schedulable s a now =
    is_active a.status
    && not (leb_ℤ a.concurrency_limit (pos 0))
    && not (is_cooling s a.id now)
    && not (quota_exhausted a now)

unfoldable pub cool : ℕ → Time → Service → Service
cool id until s = record s { cooled = (id, until) ∷ s.cooled }

-- 60 seconds in nanoseconds.
abbrev cooldown_after_retryable : ℕ
cooldown_after_retryable = 60000000000

unfoldable pub cooldown_after_failure : ℕ → Time → Service → Service
unfolding cool
cooldown_after_failure id now s = cool id (now + cooldown_after_retryable) s

abbrev is_conflict : Code → Bool
is_conflict Code.conflict = true
is_conflict _ = false

abbrev on_failure : Code → Error → Error
on_failure Code.not_found e = sentinel Sentinel.inactive_at_dispatch
on_failure _ e = wrap_error Code.internal e

-- What the recheck of the status in the transaction answers: none if the store has no such operation.
abbrev pub recheck : Option (Result UpstreamAccountStatus) → Result (Unit {0})
recheck none = ok tt
recheck (some (ok status)) =
    fail_if (not (is_active status)) (sentinel Sentinel.inactive_at_dispatch)
recheck (some (err e)) = err (on_failure (code_of e) e)

abbrev pub lease_command : Service → UpstreamAccount → ℕ → Time → AcquireLeaseCommand
lease_command s a request_id now = record {
  scope = LeaseScope.upstream_account;
  scope_id = a.id;
  request_id = request_id;
  owner_token = s.owner_token;
  limit = a.concurrency_limit;
  ttl = s.lease_ttl;
  now = some now;
}

-- `AcquireUpstreamLease`, on the lease table, at the recheck's answer, two texts of uuid.NewString and the
-- wall clock.
unfoldable pub acquire_upstream_lease :
    Service
    → UpstreamAccount
    → ℕ
    → Time
    → Option (Result UpstreamAccountStatus)
    → ℕ
    → ℕ
    → Time
    → List LeaseRow
    → Result (List LeaseRow × LeaseRow)
unfolding acquire_lease code_of
acquire_upstream_lease s a request_id now answer id uuid wall rows = do
  fail_if (leb_ℤ a.concurrency_limit (pos 0)) (new_error Code.insufficient_capacity)
  recheck answer
  acquire_lease (lease_command s a request_id now) id uuid wall rows

-- A conflict of the release means that the slot is gone, which is as good.
abbrev ignore_conflict : List LeaseRow → Result (List LeaseRow) → Result (List LeaseRow)
ignore_conflict rows (ok next) = ok next
ignore_conflict rows (err e) = if is_conflict (code_of e) then ok rows else err e

unfoldable pub release_upstream_lease :
    Option LeaseRow → Time → List LeaseRow → Result (List LeaseRow)
unfolding release_lease code_of
release_upstream_lease none at rows = ok rows
release_upstream_lease (some l) at rows =
    ignore_conflict rows (release_lease l.id l.owner l.fencing at rows)
