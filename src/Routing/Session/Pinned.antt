-- ===== src/Routing/Session/Pinned.antt =====
-- internal/inference/routing/session_binding.go: a migrated conversation resolves to its new account.
use mathlib.Core.Path.{subst}
use yunhou_users.Common.{
  ℕ, suc, ◌≡◌, sym, ap, ◌∙◌, Bool, true, false, ◌&&◌, ◌||◌, not, List, [], ◌∷◌, some, ℤ, arith,
  ◌==◌, Bool-cases, inl, inr, ltb,
}
use yunhou_users.Domain.Errors.{
  Time, ok, Code, >>-eq-ok, >>=-eq-ok, fail_if, new_error, ok_injective, fail_if-eq-ok,
}
use yunhou_users.Store.Table.{or_error-eq-ok, find_where-true, any, find_where}
use yunhou_users.Routing.Pool.{UpstreamAccount, is_active, quota_exhausted}
use yunhou_users.Routing.Session.{
  get_account, get_active_session_binding, end_found, touched, touch_session_binding, new_binding,
  EndedReason, SessionBinding, binds, count_active, resolve, migrate,
}
use yunhou_users.Routing.Session.Sole.{any_binds→count, insert_session_binding_ok}

-- No row beyond the new one can be the live binding of the conversation.
only_first :
    (key model : ℕ) (now : Time) (rows : List SessionBinding) {b : SessionBinding}
    → any (binds key model) rows ≡ false
    → find_where (λ r. binds key model r && ltb now r.expires_at) rows ≡ some b
    → true ≡ false
only_first key model now [] h f = cc
only_first key model now (x ∷ xs) {b} h f =
    let ih = only_first key model now xs {b = b} in ground arith

-- The account of the id, in a list of accounts.
get_account-id :
    (id : ℕ) (accounts : List UpstreamAccount) {a : UpstreamAccount}
    → get_account id accounts ≡ ok a
    → a.id ≡ id
get_account-id id accounts {a} h =
    let t = find_where-true (λ x. x.id == id) accounts (or_error-eq-ok _ _ h) in ground (arith, t)

some_first :
    (key model : ℕ) (now : Time) (new : SessionBinding) (rows : List SessionBinding)
    {b : SessionBinding}
    → any (binds key model) rows ≡ false
    → get_active_session_binding key model now (new ∷ rows) ≡ ok b
    → new ≡ b
unfolding get_active_session_binding
some_first key model now new rows {b} h g =
    let f = or_error-eq-ok _ _ g in
    elim (Bool-cases (binds key model new && ltb now new.expires_at)) [
      | inl e ↦ let f' = rw e at f in cc
      | inr e ↦ let f' = rw e at f in let t = only_first key model now rows h f' in cc
    ]

count_first :
    (key model : ℕ) (new : SessionBinding) (rows : List SessionBinding)
    → binds key model new ≡ true
    → any (binds key model) rows ≡ false
    → count_active key model (new ∷ rows) ≡ 1
unfolding count_active
count_first key model new rows e h = rw e (ap suc (any_binds→count key model rows h))

own_key :
    (ttl : ℤ) (now : Time) (id : ℕ) (wall : Time) (key model account : ℕ)
    → binds key model (new_binding ttl now id wall key model account) ≡ true
own_key ttl now id wall key model account = ground arith

fit :
    (active exhausted : Bool)
    → (not active || exhausted) ≡ false
    → (active ≡ true) × (exhausted ≡ false)
fit active exhausted h = ground arith

-- After a migration that succeeded the conversation has one active binding, and a resolution that then
-- succeeds, whatever the accounts have become, gives the account it was moved to, which is active and
-- whose quota is not exhausted.
pub migrate-resolve :
    (accounts later : List UpstreamAccount) (known : Bool) (ttl : ℤ) (read now : Time) (id : ℕ)
    (wall : Time) (key model account : ℕ) (at checked touched_at : Time)
    (rows : List SessionBinding) {next last : List SessionBinding} {b : SessionBinding}
    {a : UpstreamAccount}
    → migrate accounts known ttl read now id wall key model account rows ≡ ok next
    → resolve later at checked touched_at key model next ≡ ok (last, b, a)
    → (count_active key model next ≡ 1)
      × (a.id ≡ account)
      × (is_active a.status ≡ true)
      × (quota_exhausted a checked ≡ false)
unfolding migrate resolve
migrate-resolve accounts later known ttl read now id wall key model account at checked touched_at
      rows {next} {last} {b} {a} m r =
    let new = new_binding ttl now id wall key model account in
    let (_, _, m1) = >>=-eq-ok (get_account account accounts) _ m in
    let (_, m2) = >>-eq-ok (fail_if _ (new_error Code.conflict)) _ m1 in
    let (pair, _, m3) =
      >>=-eq-ok
        (end_found EndedReason.migrated rows (get_active_session_binding key model read rows)) _
        m2 in
    let (q, free) = insert_session_binding_ok known new (pair.0) m3 in
    let (b', f, r1) = >>=-eq-ok (get_active_session_binding key model at next) _ r in
    let (a', g, r2) = >>=-eq-ok (get_account b'.account_id later) _ r1 in
    let (passed, r3) =
      >>-eq-ok
        (fail_if (not (is_active a'.status) || quota_exhausted a' checked)
          (new_error Code.conflict))
        _ r2 in
    let (_, _, r4) = >>=-eq-ok (touched (touch_session_binding b'.id touched_at next)) _ r3 in
    let same_a : a' ≡ a = ap (λ t. t.2) (ok_injective r4) in
    let first =
      some_first key model at new (pair.0) free
        (subst (λ t. get_active_session_binding key model at t ≡ ok b') q f) in
    let ready =
      fit (is_active a'.status) (quota_exhausted a' checked)
        (fail_if-eq-ok (not (is_active a'.status) || quota_exhausted a' checked) _ passed) in
    (
      ap (count_active key model) q
          ∙ count_first key model new (pair.0) (own_key ttl now id wall key model account) free,
      ap (λ x. x.id) (sym same_a)
          ∙ get_account-id b'.account_id later g
          ∙ sym (ap (λ x. x.account_id) first),
      subst (λ x. is_active x.status ≡ true) same_a ready.0,
      subst (λ x. quota_exhausted x checked ≡ false) same_a ready.1,
    )
