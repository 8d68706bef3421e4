-- ===== src/Store/Lease.antt =====
-- internal/inference/postgres/lease_repo.go: the concurrency leases. A table is the list of its rows; an
-- UPDATE maps the rows that its WHERE clause selects, and a constraint that fails is an error, as
-- `mapError` of postgres.go translates it. Identifiers and owner tokens are numbers, 0 for the empty text.
pub mod Table
pub mod Steps
pub mod Fencing
pub mod Slots
mod Examples
use yunhou_users.Common.{
  ℕ, suc, ◌+◌, Bool, true, false, not, ◌&&◌, ◌||◌, Option, none, some, List, [], ◌∷◌, length, keep,
  take, ℤ, pos, pos_part, ltb_ℤ, leb_ℤ, ltb, leb, ◌==◌, max_int64, if◌then◌else◌,
}
use yunhou_users.Store.Table.{db_error}
use yunhou_users.Domain.Errors.{
  Time, Code, Sentinel, Error, sentinel, new_error, wrap_error, Result, ok, err, ◌>>=◌, ◌>>◌,
  fail_if,
}

pub data LeaseScope : Type 0 where
  billing_account upstream_account deployment api_key : LeaseScope

pub data LeaseState : Type 0 where
  held released expired : LeaseState

pub record LeaseRow : Type 0 where
  pub id : ℕ
  pub scope : LeaseScope
  pub scope_id : ℕ
  pub request_id : ℕ
  pub owner : ℕ
  pub fencing : ℕ
  pub state : LeaseState
  pub acquired : Time
  pub expires : Time
  pub released_at : Option Time

pub record AcquireLeaseCommand : Type 0 where
  pub scope : LeaseScope
  pub scope_id : ℕ
  pub request_id : ℕ
  pub owner_token : ℕ
  pub limit : ℤ
  pub ttl : ℤ
  -- none is the zero time
  pub now : Option Time

abbrev pub scope_eqb : LeaseScope → LeaseScope → Bool
scope_eqb LeaseScope.billing_account LeaseScope.billing_account = true
scope_eqb LeaseScope.upstream_account LeaseScope.upstream_account = true
scope_eqb LeaseScope.deployment LeaseScope.deployment = true
scope_eqb LeaseScope.api_key LeaseScope.api_key = true
scope_eqb _ _ = false

abbrev pub is_held : LeaseState → Bool
is_held LeaseState.held = true
is_held _ = false

-- WHERE scope = $1 AND scope_id = $2
abbrev pub in_scope : LeaseScope → ℕ → LeaseRow → Bool
in_scope scope scope_id r = scope_eqb r.scope scope && r.scope_id == scope_id

-- WHERE scope = $1 AND scope_id = $2 AND state = 'held'
abbrev pub holds_slot : LeaseScope → ℕ → LeaseRow → Bool
holds_slot scope scope_id r = in_scope scope scope_id r && is_held r.state

-- UPDATE ... SET state = 'expired' of the rows of a scope that are past their time.
unfoldable pub reclaim : LeaseScope → ℕ → Time → List LeaseRow → List LeaseRow
reclaim scope scope_id now [] = []
reclaim scope scope_id now (r ∷ rs) =
    (if holds_slot scope scope_id r && leb r.expires now
      then record r { state = LeaseState.expired }
      else r)
    ∷ reclaim scope scope_id now rs

-- SELECT COUNT(*)
unfoldable pub count_held : LeaseScope → ℕ → List LeaseRow → ℕ
count_held scope scope_id [] = 0
count_held scope scope_id (r ∷ rs) =
    let rest = count_held scope scope_id rs in
    if holds_slot scope scope_id r then suc rest else rest

-- SELECT COALESCE(MAX(fencing_token), 0)
unfoldable pub max_fencing : LeaseScope → ℕ → List LeaseRow → ℕ
max_fencing scope scope_id [] = 0
max_fencing scope scope_id (r ∷ rs) =
    let rest = max_fencing scope scope_id rs in
    if in_scope scope scope_id r && ltb rest r.fencing then r.fencing else rest

-- The primary key and UNIQUE (scope, scope_id, request_id).
abbrev clashes : LeaseRow → LeaseRow → Bool
clashes new r =
    r.id == new.id || (in_scope new.scope new.scope_id r && r.request_id == new.request_id)

unfoldable pub any_clash : LeaseRow → List LeaseRow → Bool
any_clash new [] = false
any_clash new (r ∷ rs) = clashes new r || any_clash new rs

-- INSERT INTO inference_concurrency_leases; a token past the largest int64 wraps around and fails
-- CHECK (fencing_token > 0). The reference to the request is left out.
unfoldable pub insert_lease : LeaseRow → List LeaseRow → Result (List LeaseRow)
unfolding any_clash
insert_lease new rows = do
  fail_if (ltb max_int64 new.fencing || leb new.expires new.acquired) (db_error Code.invalid_input)
  fail_if (any_clash new rows) (db_error Code.conflict)
  ok (new ∷ rows)

abbrev or_else : Option Time → Time → Time
or_else none wall = wall
or_else (some t) wall = t

abbrev owner_or : ℕ → ℕ → ℕ
owner_or owner uuid = if owner == 0 then uuid else owner

-- The row that the command asks for.
abbrev pub lease_of : AcquireLeaseCommand → ℕ → ℕ → Time → ℕ → LeaseRow
lease_of cmd id uuid now fencing = record {
  id = id;
  scope = cmd.scope;
  scope_id = cmd.scope_id;
  request_id = cmd.request_id;
  owner = owner_or cmd.owner_token uuid;
  fencing = fencing;
  state = LeaseState.held;
  acquired = now;
  expires = now + pos_part cmd.ttl;
  released_at = none;
}

-- The transaction behind the argument tests, on the table after the reclamation.
unfoldable pub take_slot :
    AcquireLeaseCommand → ℕ → ℕ → Time → List LeaseRow → Result (List LeaseRow × LeaseRow)
unfolding count_held max_fencing insert_lease
take_slot cmd id uuid now rows = do
  fail_if (leb_ℤ cmd.limit (pos (count_held cmd.scope cmd.scope_id rows)))
      (new_error Code.insufficient_capacity)
  let row = lease_of cmd id uuid now (max_fencing cmd.scope cmd.scope_id rows + 1)
  rows' ← insert_lease row rows
  ok (rows', row)

-- `AcquireLeaseTx`, at two fresh texts of `uuid.NewString` and the wall clock.
unfoldable pub acquire_lease :
    AcquireLeaseCommand → ℕ → ℕ → Time → List LeaseRow → Result (List LeaseRow × LeaseRow)
unfolding reclaim take_slot
acquire_lease cmd id uuid wall rows = do
  fail_if (leb_ℤ cmd.limit (pos 0)) (new_error Code.invalid_input)
  fail_if (leb_ℤ cmd.ttl (pos 0)) (new_error Code.invalid_input)
  let now = or_else cmd.now wall
  take_slot cmd id uuid now (reclaim cmd.scope cmd.scope_id now rows)

-- WHERE id = $1 AND owner_token = $2 AND fencing_token = $3 AND state = 'held'
abbrev pub owned : ℕ → ℕ → ℕ → LeaseRow → Bool
owned id owner fencing r = r.id == id && r.owner == owner && r.fencing == fencing && is_held r.state

unfoldable pub any_owned : ℕ → ℕ → ℕ → List LeaseRow → Bool
any_owned id owner fencing [] = false
any_owned id owner fencing (r ∷ rs) = owned id owner fencing r || any_owned id owner fencing rs

-- CHECK (expires_at > acquired_at) of the rows that are renewed.
unfoldable pub renewable : ℕ → ℕ → ℕ → Time → List LeaseRow → Bool
renewable id owner fencing until [] = true
renewable id owner fencing until (r ∷ rs) =
    (not (owned id owner fencing r) || ltb r.acquired until) && renewable id owner fencing until rs

unfoldable pub set_expires : ℕ → ℕ → ℕ → Time → List LeaseRow → List LeaseRow
set_expires id owner fencing until [] = []
set_expires id owner fencing until (r ∷ rs) =
    (if owned id owner fencing r then record r { expires = until } else r)
    ∷ set_expires id owner fencing until rs

unfoldable pub set_released : ℕ → ℕ → ℕ → Time → List LeaseRow → List LeaseRow
set_released id owner fencing at [] = []
set_released id owner fencing at (r ∷ rs) =
    (if owned id owner fencing r
      then record r { state = LeaseState.released; released_at = some at }
      else r)
    ∷ set_released id owner fencing at rs

unfoldable pub renew_lease : ℕ → ℕ → ℕ → Time → List LeaseRow → Result (List LeaseRow)
unfolding any_owned renewable set_expires
renew_lease id owner fencing until rows = do
  fail_if (not (renewable id owner fencing until rows)) (db_error Code.invalid_input)
  fail_if (not (any_owned id owner fencing rows)) (new_error Code.conflict)
  ok (set_expires id owner fencing until rows)

unfoldable pub release_lease : ℕ → ℕ → ℕ → Time → List LeaseRow → Result (List LeaseRow)
unfolding any_owned set_released
release_lease id owner fencing at rows = do
  fail_if (not (any_owned id owner fencing rows)) (new_error Code.conflict)
  ok (set_released id owner fencing at rows)

unfoldable pub find_lease : ℕ → List LeaseRow → Option LeaseRow
find_lease id [] = none
find_lease id (r ∷ rs) = let rest = find_lease id rs in if r.id == id then some r else rest

abbrev check_row : ℕ → ℕ → Time → Option LeaseRow → Result (Unit {0})
check_row owner fencing now none = err (db_error Code.not_found)
check_row owner fencing now (some r) = do
  fail_if (not (is_held r.state) || not (r.owner == owner) || not (r.fencing == fencing))
      (new_error Code.conflict)
  fail_if (leb r.expires now) (new_error Code.conflict)

-- `CheckLease`
unfoldable pub check_lease : ℕ → ℕ → ℕ → Option Time → Time → List LeaseRow → Result (Unit {0})
unfolding find_lease
check_lease id owner fencing now wall rows =
    check_row owner fencing (or_else now wall) (find_lease id rows)

abbrev terminal_at : LeaseRow → Time
terminal_at r = or_else r.released_at r.expires

-- WHERE state IN ('released', 'expired') AND COALESCE(released_at, expires_at) < $1
abbrev pub reapable : Time → LeaseRow → Bool
reapable cutoff r = not (is_held r.state) && ltb (terminal_at r) cutoff

-- ORDER BY COALESCE(released_at, expires_at)
abbrev by_terminal : LeaseRow → List LeaseRow → List LeaseRow
by_terminal r [] = r ∷ []
by_terminal r (s ∷ ss) =
    let rest = by_terminal r ss in
    if ltb (terminal_at s) (terminal_at r) then s ∷ rest else r ∷ s ∷ ss

abbrev sort_terminal : List LeaseRow → List LeaseRow
sort_terminal [] = []
sort_terminal (r ∷ rs) = by_terminal r (sort_terminal rs)

abbrev batch_limit : ℤ → ℕ
batch_limit limit = if leb_ℤ limit (pos 0) || ltb_ℤ (pos 1000) limit then 100 else pos_part limit

abbrev has_id : ℕ → List LeaseRow → Bool
has_id id [] = false
has_id id (r ∷ rs) = r.id == id || has_id id rs

-- `DeleteTerminalLeases`: the table, and the number of deleted rows.
unfoldable pub delete_terminal_leases : Time → ℤ → List LeaseRow → List LeaseRow × ℕ
delete_terminal_leases cutoff limit rows =
    let batch = take (batch_limit limit) (sort_terminal (keep (reapable cutoff) rows)) in
    (keep (λ r. not (has_id r.id batch)) rows, length (keep (λ r. has_id r.id batch) rows))
