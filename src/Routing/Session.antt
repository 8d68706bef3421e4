-- ===== src/Routing/Session.antt =====
-- internal/inference/routing/session_binding.go over the bindings of internal/inference/postgres/oauth_repo.go:
-- one conversation is pinned to one account. Keys, models, accounts and bindings are numbers, 0 for the empty
-- text. The table of bindings is the list of its rows, the newest first.
-- A call is one step: what another call writes between two of its statements is left out.
pub mod Sole
pub mod Steps
pub mod Pinned
use yunhou_users.Common.{
  ℕ, zero, suc, ◌+◌, Bool, true, false, not, ◌||◌, ◌&&◌, Option, none, some, List, [], ◌∷◌, ℤ, pos,
  pos_part, leb_ℤ, ltb, if◌then◌else◌, ◌==◌,
}
use yunhou_users.Domain.Errors.{
  Time, Code, Error, new_error, wrap_error, code_of, Result, ok, err, ◌>>=◌, ◌>>◌, fail_if,
}
use yunhou_users.Store.Table.{any, map_where, find_where, db_error, or_error}
use yunhou_users.Routing.Pool.{UpstreamAccount, is_active, quota_exhausted}

pub data SessionBindingStatus : Type 0 where
  active ended : SessionBindingStatus

-- The reasons that the code names, and any other text.
pub data EndedReason : Type 0 where
  account_invalid migrated expired operator_end : EndedReason
  other : ℕ → EndedReason

pub record SessionBinding : Type 0 where
  pub id : ℕ
  pub session_key : ℕ
  pub model_id : ℕ
  pub account_id : ℕ
  pub status : SessionBindingStatus
  pub ended_reason : Option EndedReason
  pub last_used_at : Time
  pub expires_at : Time

abbrev pub is_live : SessionBindingStatus → Bool
is_live SessionBindingStatus.active = true
is_live SessionBindingStatus.ended = false

-- WHERE session_key = $1 AND model_id = $2 AND status = 'active'
abbrev pub binds : ℕ → ℕ → SessionBinding → Bool
binds key model b = b.session_key == key && b.model_id == model && is_live b.status

-- The number of active bindings of a conversation.
unfoldable pub count_active : ℕ → ℕ → List SessionBinding → ℕ
count_active key model [] = 0
count_active key model (b ∷ bs) =
    let rest = count_active key model bs in if binds key model b then suc rest else rest

-- The INSERT, with the primary key, the partial unique index on the active rows and the foreign key of the
-- models; `known` tells whether the model exists.
unfoldable pub insert_session_binding :
    Bool → SessionBinding → List SessionBinding → Result (List SessionBinding)
insert_session_binding known b rows = do
  fail_if (any (λ r. r.id == b.id) rows) (db_error Code.conflict)
  fail_if (is_live b.status && any (binds b.session_key b.model_id) rows) (db_error Code.conflict)
  fail_if (not known) (db_error Code.invalid_input)
  ok (b ∷ rows)

unfoldable pub get_active_session_binding :
    ℕ → ℕ → Time → List SessionBinding → Result SessionBinding
get_active_session_binding key model now rows =
    or_error (find_where (λ b. binds key model b && ltb now b.expires_at) rows)
      (db_error Code.not_found)

abbrev pub is_open_row : ℕ → SessionBinding → Bool
is_open_row id b = b.id == id && is_live b.status

unfoldable pub touch_session_binding : ℕ → Time → List SessionBinding → Result (List SessionBinding)
touch_session_binding id wall rows = do
  fail_if (not (any (is_open_row id) rows)) (db_error Code.not_found)
  ok (map_where (is_open_row id) (λ b. record b { last_used_at = wall }) rows)

abbrev pub ended_row : EndedReason → SessionBinding → SessionBinding
ended_row reason b = record b { status = SessionBindingStatus.ended; ended_reason = some reason }

-- `endSessionBinding`, with whether there was one to end.
unfoldable pub end_session_binding :
    ℕ → EndedReason → List SessionBinding → List SessionBinding × Bool
end_session_binding id reason rows =
    (map_where (is_open_row id) (ended_row reason) rows, any (is_open_row id) rows)

-- The rows after `EndSessionBindingsForAccountTx`.
unfoldable pub end_for_account : ℕ → EndedReason → List SessionBinding → List SessionBinding
end_for_account account reason rows =
    map_where (λ b. b.account_id == account && is_live b.status) (ended_row reason) rows

abbrev pub get_account : ℕ → List UpstreamAccount → Result UpstreamAccount
get_account id accounts = or_error (find_where (λ a. a.id == id) accounts) (db_error Code.not_found)

-- 24 hours in nanoseconds.
abbrev default_binding_ttl : ℕ
default_binding_ttl = 86400000000000

abbrev lifetime : ℤ → ℕ
lifetime ttl = if leb_ℤ ttl (pos 0) then default_binding_ttl else pos_part ttl

abbrev pub new_binding : ℤ → Time → ℕ → Time → ℕ → ℕ → ℕ → SessionBinding
new_binding ttl now id wall key model account = record {
  id = id;
  session_key = key;
  model_id = model;
  account_id = account;
  status = SessionBindingStatus.active;
  ended_reason = none;
  last_used_at = wall;
  expires_at = now + lifetime ttl;
}

-- `Bind`, with the id and the wall clock that the database supplies.
unfoldable pub bind :
    List UpstreamAccount
    → Bool
    → ℤ
    → Time
    → ℕ
    → Time
    → ℕ
    → ℕ
    → ℕ
    → List SessionBinding
    → Result (List SessionBinding)
unfolding insert_session_binding
bind accounts known ttl now id wall key model account rows = do
  fail_if (key == 0 || model == 0 || account == 0) (new_error Code.invalid_input)
  a ← get_account account accounts
  fail_if (not (is_active a.status)) (new_error Code.conflict)
  insert_session_binding known (new_binding ttl now id wall key model account) rows

abbrev pub is_missing : Code → Bool
is_missing Code.not_found = true
is_missing _ = false

abbrev pub touched : Result (List SessionBinding) → Result (List SessionBinding)
touched (ok rows) = ok rows
touched (err e) = if is_missing (code_of e) then err (wrap_error Code.conflict e) else err e

-- `Resolve`; `checked` is the clock at its second reading.
unfoldable pub resolve :
    List UpstreamAccount
    → Time
    → Time
    → Time
    → ℕ
    → ℕ
    → List SessionBinding
    → Result (List SessionBinding × SessionBinding × UpstreamAccount)
unfolding get_active_session_binding touch_session_binding quota_exhausted code_of
resolve accounts now checked wall key model rows = do
  b ← get_active_session_binding key model now rows
  a ← get_account b.account_id accounts
  fail_if (not (is_active a.status) || quota_exhausted a checked) (new_error Code.conflict)
  next ← touched (touch_session_binding b.id wall rows)
  ok (next, b, a)

abbrev pub end_found :
    EndedReason → List SessionBinding → Result SessionBinding → Result (List SessionBinding × Bool)
end_found reason rows (ok old) = ok (end_session_binding old.id reason rows)
end_found reason rows (err e) = if is_missing (code_of e) then ok (rows, false) else err e

-- `Migrate`: the old binding ends and the new one is inserted, or nothing is written; `read` is the clock at
-- the reading of the old binding.
unfoldable pub migrate :
    List UpstreamAccount
    → Bool
    → ℤ
    → Time
    → Time
    → ℕ
    → Time
    → ℕ
    → ℕ
    → ℕ
    → List SessionBinding
    → Result (List SessionBinding)
unfolding get_active_session_binding insert_session_binding
migrate accounts known ttl read now id wall key model account rows = do
  a ← get_account account accounts
  fail_if (not (is_active a.status)) (new_error Code.conflict)
  freed ← end_found EndedReason.migrated rows (get_active_session_binding key model read rows)
  insert_session_binding known (new_binding ttl now id wall key model account) freed.0

abbrev pub or_operator : Option EndedReason → EndedReason
or_operator none = EndedReason.operator_end
or_operator (some r) = r

-- `End`; none is the empty reason.
unfoldable pub end_binding :
    Time → ℕ → ℕ → Option EndedReason → List SessionBinding → Result (List SessionBinding × Bool)
unfolding get_active_session_binding
end_binding now key model reason rows =
    end_found (or_operator reason) rows (get_active_session_binding key model now rows)
