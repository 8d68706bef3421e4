-- ===== src/Store/Quota/Loops.antt =====
-- internal/inference/postgres: what the loops over the held reservations keep.
use mathlib.Core.Path.{subst}
use yunhou_users.Common.{
  ℕ, ◌≡◌, ◌≢◌, refl, sym, ap, ◌∙◌, Bool, true, false, none, some, List, [], ◌∷◌, ℤ, pos, ◌+ℤ◌, ◌-ℤ◌,
  int_laws, ◌==◌, All, All_mono, inl, inr,
}
use yunhou_users.Domain.Errors.{ok, >>=-eq-ok, ok_injective, Code, new_error}
use yunhou_users.Domain.Usage.{QuotaWindow, ReservationState}
use yunhou_users.Store.Table.{or_error-eq-ok, update_row, update_row-cons, update_row-All, or_error}
use yunhou_users.Store.Quota.{Reservation, Request, Db, is_held, held_on, refs_ok, move_reservation}
use yunhou_users.Store.Quota.Balance.{
  BalancedBy, BalancedBy-cong, update_row-BalancedBy, at_window, at_window_here, at_window_off,
  Agrees, held_on-update_row,
}

abbrev pub Distinct : List Reservation → Type 0
Distinct [] = Unit
Distinct (r ∷ rs) = All (λ s. s.id ≢ r.id) rs × Distinct rs

abbrev pub IsSound : Reservation → Type 0
IsSound r = refs_ok r.target_kind r.window_id r.api_key_id ≡ true

-- The reservations have distinct identifiers and sound references, and each window has reserved what they
-- hold of it.
pub record IsConsistent (db : Db) : Type 0 where
  pub balanced : BalancedBy (held_on db.reservations) db.windows
  pub distinct : Distinct db.reservations
  pub sound : All IsSound db.reservations

-- The state of a loop that has the rows left.
pub record Ongoing (requests : List Request) (rows : List Reservation) (db : Db) : Type 0 where
  pub consistent : IsConsistent db
  pub agree : All (Agrees db.reservations) rows
  pub rows_sound : All IsSound rows
  pub frame : db.requests ≡ requests

-- What the target of a reservation gives up.
pub record Gives (r : Reservation) (db next : Db) : Type 0 where
  pub moved :
      (F : ℕ → ℤ)
      → BalancedBy F db.windows
      → BalancedBy (λ i. F i -ℤ at_window r.window_id r.amount i) next.windows
  pub reservations : next.reservations ≡ db.reservations
  pub requests : next.requests ≡ db.requests

move_Distinct :
    (p : Reservation → Bool) (key : Reservation → Bool) (f : Reservation → Reservation)
    (rs : List Reservation) {next : List Reservation}
    → ((r : Reservation) → (f r).id ≡ r.id)
    → update_row key p f rs ≡ some next
    → Distinct rs
    → Distinct next
unfolding update_row
move_Distinct p key f [] keeps h d = cc
move_Distinct p key f (r ∷ rs) keeps h (d, ds) = elim (update_row-cons key p f r rs h) [
  | inl (k, q, t) ↦
      subst Distinct (sym t) (subst (λ i. All (λ s. s.id ≢ i) rs) (sym (keeps r)) d, ds)
  | inr (zs, k, h', t) ↦ subst Distinct (sym t) (
    update_row-All (λ s. s.id ≢ r.id) key p f rs h'
        (λ s _ _ e. subst (λ i. i ≢ r.id) (sym (keeps s)) e) d,
    move_Distinct p key f rs keeps h' ds,
  )
]

move_Agrees :
    (state : ReservationState) (key p : Reservation → Bool) (rs : List Reservation)
    {next : List Reservation} (r : Reservation)
    → is_held state ≡ false
    → update_row key p (λ s. record s { state = state }) rs ≡ some next
    → Agrees rs r
    → Agrees next r
move_Agrees state key p rs r done h agrees =
    update_row-All _ key p (λ s. record s { state = state }) rs h (λ s _ _ a same held. cc) agrees

sub_zero : (a : ℤ) → a -ℤ pos 0 ≡ a
sub_zero a = omega int_laws

add_sub : (a b : ℤ) → a +ℤ b -ℤ b ≡ a
add_sub a b = omega int_laws

diff_of : (a b c : ℤ) → a +ℤ b ≡ c → c -ℤ b ≡ a
diff_of a b c h = ap (λ z. z -ℤ b) (sym h) ∙ add_sub a b

move_reservation_ok :
    (id : ℕ) (state : ReservationState) (db : Db) {next : Db}
    → move_reservation id state db ≡ ok next
    → (rs : List Reservation) × (update_row
          (λ r. r.id == id)
          (λ r. is_held r.state)
          (λ r. record r { state = state })
          db.reservations
        ≡ some rs)
      × (next ≡ record db { reservations = rs })
unfolding move_reservation
move_reservation_ok id state db h =
    let (rs, e, e') = >>=-eq-ok (or_error _ (new_error Code.conflict)) _ h in
    (rs, or_error-eq-ok _ _ e, sym (ok_injective e'))

-- One turn of a loop.
pub turn_keeps :
    (r : Reservation) (rows : List Reservation) (state : ReservationState) (requests : List Request)
    (db mid : Db) {next : Db}
    → is_held state ≡ false
    → Gives r db mid
    → move_reservation r.id state mid ≡ ok next
    → Ongoing requests (r ∷ rows) db
    → Ongoing requests rows next
turn_keeps r rows state requests db mid {next} done gives h loop =
    let (rs, e, t) = move_reservation_ok r.id state mid h in
    let e0 : update_row (λ s. s.id == r.id) (λ s. is_held s.state) (λ s. record s { state = state })
          db.reservations
        ≡ some rs =
      subst
        (λ l.
          update_row (λ s. s.id == r.id) (λ s. is_held s.state) (λ s. record s { state = state }) l
          ≡ some rs)
        gives.reservations e in
    subst (Ongoing requests rows) (sym t) (record {
      consistent = record {
        balanced =
            BalancedBy-cong _ (held_on rs) mid.windows
              (λ i.
                diff_of _ _ _ (held_on-update_row r state db.reservations i done loop.agree.0 e0))
              (gives.moved _ loop.consistent.balanced);
        distinct = move_Distinct _ _ _ db.reservations (λ s. refl) e0 loop.consistent.distinct;
        sound =
            update_row-All IsSound _ _ _ db.reservations e0 (λ s _ _ ok_s. ok_s)
              loop.consistent.sound;
      };
      agree = All_mono (λ s a. move_Agrees state _ _ db.reservations s done e0 a) rows loop.agree.1;
      rows_sound = loop.rows_sound.1;
      frame = gives.requests ∙ loop.frame;
    })

-- The cases of the switch over the target.
pub window-Gives :
    (r : Reservation) (wid : ℕ) (p : QuotaWindow → Bool) (f : QuotaWindow → QuotaWindow) (db : Db)
    {ws : List QuotaWindow}
    → r.window_id ≡ some wid
    → ((w : QuotaWindow) → (f w).id ≡ w.id)
    → ((w : QuotaWindow) → (f w).reserved_micros ≡ w.reserved_micros -ℤ r.amount)
    → update_row (λ w. w.id == wid) p f db.windows ≡ some ws
    → Gives r db (record db { windows = ws })
window-Gives r wid p f db at keeps takes h = record {
  moved = λ F b.
      update_row-BalancedBy F _ wid p f db.windows keeps
        (λ w e.
          takes w
          ∙ ap (λ z. z -ℤ r.amount) e
          ∙ ap (λ z. F wid -ℤ z)
              (sym (at_window_here wid r.amount) ∙ ap (λ o. at_window o r.amount wid) (sym at)))
        (λ i off. sym (
          ap (λ z. F i -ℤ z)
            (ap (λ o. at_window o r.amount i) at ∙ at_window_off wid r.amount i off)
          ∙ sub_zero (F i)))
        h b;
  reservations = refl;
  requests = refl;
}

-- A target that is no window leaves the windows alone.
pub no_window-Gives :
    (r : Reservation) (db next : Db)
    → r.window_id ≡ none
    → next.windows ≡ db.windows
    → next.reservations ≡ db.reservations
    → next.requests ≡ db.requests
    → Gives r db next
no_window-Gives r db next at windows reservations requests = record {
  moved = λ F b. subst (BalancedBy _) (sym windows) (
      BalancedBy-cong F _ db.windows
        (λ i. sym (ap (λ z. F i -ℤ z) (ap (λ o. at_window o r.amount i) at) ∙ sub_zero (F i))) b);
  reservations = reservations;
  requests = requests;
}
