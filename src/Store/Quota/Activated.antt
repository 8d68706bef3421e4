-- ===== src/Store/Quota/Activated.antt =====
-- internal/inference/postgres/quota_repo.go: the activation of windows keeps the tables consistent.
use mathlib.Core.Path.{subst}
use yunhou_users.Common.{
  ℕ, ◌≡◌, refl, sym, ap, ◌∙◌, Bool, true, false, not, ◌||◌, Option, none, some, List, [], ◌∷◌, ℤ,
  pos, ◌+ℤ◌, All, ◌==◌,
}
use yunhou_users.Domain.Errors.{
  WindowKind, Code, Result, ok, >>=-eq-ok, >>-eq-ok, ok_injective, fail_if, fail_if-eq-ok,
}
use yunhou_users.Domain.Usage.{QuotaWindow, window_order}
use yunhou_users.Quota.Window.{Interval, consumption_window}
use yunhou_users.Store.Table.{any, db_error}
use yunhou_users.Store.Quota.{Reservation, Db, held_on, names, lock_account}
use yunhou_users.Store.Quota.Activate.{
  ActivateWindowsCommand, Activation, fits, same_start, overlaps, insert_quota_window, new_window,
  bind, resolve_limit, limit_of, resolve_kinds, opening, activate_windows,
}
use yunhou_users.Store.Quota.Balance.{BalancedBy}
use yunhou_users.Store.Quota.Loops.{IsConsistent}
use yunhou_users.Store.Quota.Consistency.{share_off}
use yunhou_users.Store.Quota.Admission.{any-All}

insert_quota_window_ok :
    (others : Result (Unit {0})) (w : QuotaWindow) (ws : List QuotaWindow) {next : List QuotaWindow}
    → insert_quota_window others w ws ≡ ok next
    → (any (λ v. v.id == w.id) ws ≡ false) × (w ∷ ws ≡ next)
unfolding insert_quota_window
insert_quota_window_ok others w ws e =
    let (_, e1) = >>-eq-ok (fail_if (not (fits w)) (db_error Code.invalid_input)) _ e in
    let (d, e2) = >>-eq-ok (fail_if (any (λ v. v.id == w.id) ws) (db_error Code.conflict)) _ e1 in
    let (_, e3) =
      >>-eq-ok (fail_if (any (same_start w) ws || any (overlaps w) ws) (db_error Code.conflict)) _
        e2 in
    let (_, e4) = >>-eq-ok others _ e3 in (fail_if-eq-ok _ _ d, ok_injective e4)

zero_zero : pos 0 +ℤ pos 0 ≡ pos 0
unfolding ◌+ℤ◌
zero_zero = refl

-- No reservation names a window with such an identifier.
held_on_unnamed :
    (i : ℕ) (rs : List Reservation)
    → All (λ r. names r.window_id i ≡ false) rs
    → held_on rs i ≡ pos 0
unfolding held_on
held_on_unnamed i [] h = refl
held_on_unnamed i (r ∷ rs) (off, h) =
    ap (λ z. z +ℤ held_on rs i) (share_off i r off)
    ∙ ap (λ z. pos 0 +ℤ z) (held_on_unnamed i rs h)
    ∙ zero_zero

module _ (F : ℕ → ℤ) (uuid : ℕ → ℕ) (others : Result (Unit {0})) (cmd : ActivateWindowsCommand)
    (fresh : (n : ℕ) → F (uuid n) ≡ pos 0) where
  bind-BalancedBy :
      (kind : WindowKind) (limit : ℤ) (s : Activation) (iv : Interval) (activate : Bool)
      {next : Activation}
      → bind uuid others cmd kind limit s iv activate ≡ ok next
      → BalancedBy F s.table
      → BalancedBy F next.table
  bind-BalancedBy kind limit s iv false e b = subst (λ t. BalancedBy F t.table) (ok_injective e) b
  bind-BalancedBy kind limit s iv true e b =
      let w = new_window cmd (uuid s.next) kind iv limit in
      let (table, e1, e2) = >>=-eq-ok (insert_quota_window others w s.table) _ e in
      let (off, t) = insert_quota_window_ok others w s.table e1 in
      subst (λ t. BalancedBy F t.table) (ok_injective e2)
        (subst (BalancedBy F) t (sym (fresh s.next), any-All (λ v. v.id) w.id s.table off, b))

  resolve_limit-BalancedBy :
      (kind : WindowKind) (limit : Option ℤ) (s : Activation) {next : Activation}
      → resolve_limit uuid others cmd kind limit s ≡ ok next
      → BalancedBy F s.table
      → BalancedBy F next.table
  resolve_limit-BalancedBy kind none s e b = subst (λ t. BalancedBy F t.table) (ok_injective e) b
  resolve_limit-BalancedBy kind (some limit) s e b =
      let (found, _, e1) = >>=-eq-ok (consumption_window kind cmd.anchor s.active cmd.at) _ e in
      bind-BalancedBy kind limit s found.0 found.1 e1 b

  resolve_kinds-BalancedBy :
      (kinds : List WindowKind) (s : Activation) {next : Activation}
      → resolve_kinds uuid others cmd kinds s ≡ ok next
      → BalancedBy F s.table
      → BalancedBy F next.table
  unfolding resolve_kinds
  resolve_kinds-BalancedBy [] s e b = subst (λ t. BalancedBy F t.table) (ok_injective e) b
  resolve_kinds-BalancedBy (kind ∷ kinds) s e b =
      let (mid, e1, e2) =
        >>=-eq-ok (resolve_limit uuid others cmd kind (limit_of kind cmd.limits) s) _ e in
      resolve_kinds-BalancedBy kinds mid e2
        (resolve_limit-BalancedBy kind (limit_of kind cmd.limits) s e1 b)

-- The reservations and the requests stay, and the new windows have nothing reserved.
pub activate_windows_keeps :
    (uuid : ℕ → ℕ) (others : Result (Unit {0})) (cmd : ActivateWindowsCommand) (db : Db) {next : Db}
    {out : List QuotaWindow}
    → activate_windows uuid others cmd db ≡ ok (next, out)
    → ((n : ℕ) → All (λ r. names r.window_id (uuid n) ≡ false) db.reservations)
    → IsConsistent db
    → IsConsistent next × (next.requests ≡ db.requests)
unfolding activate_windows
activate_windows_keeps uuid others cmd db {next} {out} e unnamed c =
    let (_, e1) = >>-eq-ok (lock_account cmd.billing_account_id db) _ e in
    let (s, e2, e3) =
      >>=-eq-ok (resolve_kinds uuid others cmd window_order (opening cmd db)) _ e1 in
    subst (λ t. IsConsistent t × (t.requests ≡ db.requests)) (ap (λ p. p.0) (ok_injective e3))
      (
        record {
          balanced =
              resolve_kinds-BalancedBy (held_on db.reservations) uuid others cmd
                (λ n. held_on_unnamed (uuid n) db.reservations (unnamed n)) window_order
                (opening cmd db) e2 c.balanced;
          distinct = c.distinct;
          sound = c.sound;
        },
        refl,
      )
