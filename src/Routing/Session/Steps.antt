-- ===== src/Routing/Session/Steps.antt =====
-- internal/inference/routing/session_binding.go: the calls in any order.
use yunhou_users.Common.{ℕ, ◌≡◌, ap, Bool, not, List, Option, ℤ, ◌==◌, ◌||◌}
use mathlib.Core.Path.{subst}
use yunhou_users.Domain.Errors.{
  ok_injective, Time, ok, Code, >>-eq-ok, >>=-eq-ok, fail_if, new_error,
}
use yunhou_users.Routing.Pool.{UpstreamAccount, is_active, quota_exhausted}
use yunhou_users.Routing.Session.{
  get_account, get_active_session_binding, ended_row, end_found, touched, new_binding, or_operator,
  EndedReason, SessionBinding, touch_session_binding, end_for_account, bind, resolve, migrate,
  end_binding,
}
use yunhou_users.Routing.Session.Sole.{
  IsSole, end_found-IsSole, touched_ok, insert_session_binding-IsSole, map_where-IsSole,
  ended_row_keeps, touch_session_binding-IsSole,
}

-- One call that changes the bindings.
pub data Step (accounts : List UpstreamAccount) (rows : List SessionBinding)
    : List SessionBinding → Type 0 where
  binds_to :
      (known : Bool) (ttl : ℤ) (now : Time) (id : ℕ) (wall : Time) (key model account : ℕ)
      {next : List SessionBinding}
      → bind accounts known ttl now id wall key model account rows ≡ ok next
      → Step accounts rows next
  resolves :
      (now checked wall : Time) (key model : ℕ) {next : List SessionBinding} {b : SessionBinding}
      {a : UpstreamAccount}
      → resolve accounts now checked wall key model rows ≡ ok (next, b, a)
      → Step accounts rows next
  migrates :
      (known : Bool) (ttl : ℤ) (read now : Time) (id : ℕ) (wall : Time) (key model account : ℕ)
      {next : List SessionBinding}
      → migrate accounts known ttl read now id wall key model account rows ≡ ok next
      → Step accounts rows next
  ends :
      (now : Time) (key model : ℕ) (reason : Option EndedReason) {pair : List SessionBinding × Bool}
      → end_binding now key model reason rows ≡ ok pair
      → Step accounts rows (pair.0)
  ends_for :
      (account : ℕ) (reason : EndedReason)
      → Step accounts rows (end_for_account account reason rows)

Step-IsSole :
    (accounts : List UpstreamAccount) (rows : List SessionBinding) {next : List SessionBinding}
    → Step accounts rows next
    → IsSole rows
    → IsSole next
unfolding bind resolve migrate end_binding end_for_account
Step-IsSole accounts rows (binds_to known ttl now id wall key model account h) sole =
    let (_, h1) =
      >>-eq-ok (fail_if (key == 0 || model == 0 || account == 0) (new_error Code.invalid_input)) _
        h in
    let (a, _, h2) = >>=-eq-ok (get_account account accounts) _ h1 in
    let (_, h3) = >>-eq-ok (fail_if (not (is_active a.status)) (new_error Code.conflict)) _ h2 in
    insert_session_binding-IsSole known (new_binding ttl now id wall key model account) rows h3 sole
Step-IsSole accounts rows (resolves now checked wall key model h) sole =
    let (b, _, h1) = >>=-eq-ok (get_active_session_binding key model now rows) _ h in
    let (a, _, h2) = >>=-eq-ok (get_account b.account_id accounts) _ h1 in
    let (_, h3) =
      >>-eq-ok
        (fail_if (not (is_active a.status) || quota_exhausted a checked) (new_error Code.conflict))
        _ h2 in
    let (next', e, h4) = >>=-eq-ok (touched (touch_session_binding b.id wall rows)) _ h3 in
    subst IsSole (ap (λ p. p.0) (ok_injective h4))
      (touch_session_binding-IsSole b.id wall rows (touched_ok _ e) sole)
Step-IsSole accounts rows (migrates known ttl read now id wall key model account h) sole =
    let (a, _, h1) = >>=-eq-ok (get_account account accounts) _ h in
    let (_, h2) = >>-eq-ok (fail_if (not (is_active a.status)) (new_error Code.conflict)) _ h1 in
    let found = get_active_session_binding key model read rows in
    let (pair, e, h3) = >>=-eq-ok (end_found EndedReason.migrated rows found) _ h2 in
    insert_session_binding-IsSole known (new_binding ttl now id wall key model account) (pair.0) h3
      (end_found-IsSole EndedReason.migrated rows found e sole)
Step-IsSole accounts rows (ends now key model reason h) sole =
    end_found-IsSole (or_operator reason) rows (get_active_session_binding key model now rows) h
      sole
Step-IsSole accounts rows (ends_for account reason) sole =
    map_where-IsSole _ (ended_row reason) rows (ended_row_keeps reason) sole

-- Any number of such calls, each with the accounts as they are then.
pub data Reach (rows : List SessionBinding) : List SessionBinding → Type 0 where
  here : Reach rows rows
  then_step :
      {mid last : List SessionBinding} (accounts : List UpstreamAccount)
      → Reach rows mid
      → Step accounts mid last
      → Reach rows last

-- If no two active bindings are of one conversation, then none are after any number of calls of Bind,
-- Resolve, Migrate and End, and of endings of the bindings of an account.
pub Reach-IsSole :
    (rows : List SessionBinding) {last : List SessionBinding}
    → Reach rows last
    → IsSole rows
    → IsSole last
Reach-IsSole rows here sole = sole
Reach-IsSole rows (then_step {mid} {last} accounts r step) sole =
    Step-IsSole accounts mid step (Reach-IsSole rows r sole)
