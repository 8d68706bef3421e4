-- ===== src/Routing/Session/Sole.antt =====
-- internal/inference/routing/session_binding.go: a conversation is bound to at most one account.
use yunhou_users.Common.{
  ℕ, ◌≤◌, ◌≡◌, sym, ap, Bool, true, false, ◌&&◌, not, List, [], ◌∷◌, arith, refl, if◌then◌else◌,
  Bool-cases, inl, inr,
}
use mathlib.Core.Path.{subst}
use yunhou_users.Domain.Errors.{
  ok_injective, code_of, Time, Error, Result, ok, err, Code, >>-eq-ok, fail_if,
}
use yunhou_users.Store.Table.{any, map_where, db_error}
use yunhou_users.Routing.Session.{
  is_missing, is_open_row, ended_row, end_found, touched, EndedReason, SessionBinding, is_live,
  binds, count_active, insert_session_binding, touch_session_binding, end_session_binding,
}

pub any_binds→count :
    (key model : ℕ) (rows : List SessionBinding)
    → any (binds key model) rows ≡ false
    → count_active key model rows ≡ 0
unfolding count_active
any_binds→count key model [] h = refl
any_binds→count key model (b ∷ bs) h = let ih = any_binds→count key model bs in ground arith

-- An update that binds no more conversations than before.
count_active-map_where :
    (key model : ℕ) (p : SessionBinding → Bool) (f : SessionBinding → SessionBinding)
    (rows : List SessionBinding)
    → ((b : SessionBinding) → binds key model (f b) ≡ true → binds key model b ≡ true)
    → count_active key model (map_where p f rows) ≤ count_active key model rows
unfolding count_active
count_active-map_where key model p f [] keeps = omega arith
count_active-map_where key model p f (b ∷ bs) keeps =
    let ih = count_active-map_where key model p f bs keeps in let k = keeps b in ground arith

pub insert_session_binding_ok :
    (known : Bool) (b : SessionBinding) (rows : List SessionBinding) {next : List SessionBinding}
    → insert_session_binding known b rows ≡ ok next
    → (next ≡ b ∷ rows) × ((is_live b.status && any (binds b.session_key b.model_id) rows) ≡ false)
unfolding insert_session_binding
insert_session_binding_ok known b rows {next} h = ground arith

-- No two active bindings are of one conversation.
abbrev pub IsSole : List SessionBinding → Type 0
IsSole rows = (key model : ℕ) → count_active key model rows ≤ 1

binds_same :
    (key model : ℕ) (b : SessionBinding)
    → binds key model b ≡ true
    → (b.session_key ≡ key) × (b.model_id ≡ model) × (is_live b.status ≡ true)
binds_same key model b h = ground arith

pub insert_session_binding-IsSole :
    (known : Bool) (b : SessionBinding) (rows : List SessionBinding) {next : List SessionBinding}
    → insert_session_binding known b rows ≡ ok next
    → IsSole rows
    → IsSole next
unfolding count_active
insert_session_binding-IsSole known b rows {next} h sole key model =
    let (q, free) = insert_session_binding_ok known b rows h in
    subst (λ t. count_active key model t ≤ 1) (sym q)
      (elim (Bool-cases (binds key model b)) [
        | inl e ↦
            let (ek, em, el) = binds_same key model b e in
            let zero_there =
              subst (λ k. count_active k model rows ≡ 0) ek
                (subst (λ m. count_active b.session_key m rows ≡ 0) em
                  (any_binds→count b.session_key b.model_id rows (ground (arith, free, el)))) in
            rw e (omega (arith, zero_there))
        | inr e ↦ rw e (sole key model)
      ])

pub map_where-IsSole :
    (p : SessionBinding → Bool) (f : SessionBinding → SessionBinding) (rows : List SessionBinding)
    → ((key model : ℕ) (b : SessionBinding)
        → binds key model (f b) ≡ true
        → binds key model b ≡ true)
    → IsSole rows
    → IsSole (map_where p f rows)
map_where-IsSole p f rows keeps sole key model =
    let fewer = count_active-map_where key model p f rows (keeps key model) in
    omega (arith, fewer, sole key model)

pub ended_row_keeps :
    (reason : EndedReason) (key model : ℕ) (b : SessionBinding)
    → binds key model (ended_row reason b) ≡ true
    → binds key model b ≡ true
ended_row_keeps reason key model b h = ground arith

end_session_binding-IsSole :
    (id : ℕ) (reason : EndedReason) (rows : List SessionBinding)
    → IsSole rows
    → IsSole (end_session_binding id reason rows).0
unfolding end_session_binding
end_session_binding-IsSole id reason rows sole =
    map_where-IsSole _ (ended_row reason) rows (ended_row_keeps reason) sole

pub touch_session_binding-IsSole :
    (id : ℕ) (wall : Time) (rows : List SessionBinding) {next : List SessionBinding}
    → touch_session_binding id wall rows ≡ ok next
    → IsSole rows
    → IsSole next
unfolding touch_session_binding
touch_session_binding-IsSole id wall rows {next} h sole =
    let (_, h1) =
      >>-eq-ok (fail_if (not (any (is_open_row id) rows)) (db_error Code.not_found)) _ h in
    subst IsSole (ok_injective h1) (
      map_where-IsSole (is_open_row id) (λ b. record b { last_used_at = wall }) rows
        (λ key model b e. e) sole)

missing_kept :
    (c : Bool) (rows : List SessionBinding) (e : Error) {pair : List SessionBinding × Bool}
    → (if c then ok (rows, false) else err e) ≡ ok pair
    → rows ≡ pair.0
missing_kept true rows e h = ap (λ p. p.0) (ok_injective h)
missing_kept false rows e h = cc

pub end_found-IsSole :
    (reason : EndedReason) (rows : List SessionBinding) (found : Result SessionBinding)
    {pair : List SessionBinding × Bool}
    → end_found reason rows found ≡ ok pair
    → IsSole rows
    → IsSole (pair.0)
end_found-IsSole reason rows (ok old) h sole =
    subst IsSole (ap (λ p. p.0) (ok_injective h))
      (end_session_binding-IsSole old.id reason rows sole)
end_found-IsSole reason rows (err e) h sole =
    subst IsSole (missing_kept (is_missing (code_of e)) rows e h) sole

pub touched_ok :
    (r : Result (List SessionBinding)) {next : List SessionBinding}
    → touched r ≡ ok next
    → r ≡ ok next
touched_ok (ok rows) h = h
touched_ok (err e) {next} h = elim (Bool-cases (is_missing (code_of e))) [
  | inl q ↦ let h' = rw q at h in cc
  | inr q ↦ let h' = rw q at h in cc
]
