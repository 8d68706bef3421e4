-- ===== src/Store/Quota/Admission.antt =====
-- internal/inference/postgres/quota_repo.go: an admission keeps the tables consistent, and no window over
-- its limit.
use mathlib.Core.Path.{subst}
use yunhou_users.Common.{
  ℕ, suc, ◌≡◌, ◌≢◌, refl, sym, ap, ◌∙◌, Bool, true, false, not, Option, some, List, [], ◌∷◌, ℤ,
  ◌+ℤ◌, int_laws, ◌==◌, All, arith,
}
use yunhou_users.Domain.Errors.{
  Result, ok, >>=-eq-ok, >>-eq-ok, ok_injective, fail_if, fail_if-eq-ok,
}
use yunhou_users.Domain.Usage.{RequestStatus, ReservationTargetKind, HoldSpec}
use yunhou_users.Store.Table.{any}
use yunhou_users.Store.Quota.{
  Reservation, Request, Db, refs_ok, held_on, share, lock_account, sort_by,
}
use yunhou_users.Store.Quota.Hold.{apply_holds, is_clear}
use yunhou_users.Store.Quota.Reserve.{
  ReserveCommand, starting, request_row, insert_request, insert_reservation, insert_reservations,
  reservation_of, persist, reserve, bind_window, bind_windows,
}
use yunhou_users.Store.Quota.Balance.{BalancedBy-cong, at_window}
use yunhou_users.Store.Quota.Loops.{IsSound, Distinct, IsConsistent}
use yunhou_users.Store.Quota.Converted.{refs_key}
use yunhou_users.Store.Quota.Admitted.{
  held_by, add_holds, apply_holds-BalancedBy, IsWithin, apply_holds-IsWithin,
}

pub any-All {ℓ} :
    {A : Type ℓ} (key : A → ℕ) (id : ℕ) (xs : List A)
    → any (λ x. key x == id) xs ≡ false
    → All (λ x. key x ≢ id) xs
any-All key id [] h = tt
any-All key id (x ∷ xs) h = (λ e. ground (arith, e), any-All key id xs (ground arith))

comm : (a b : ℤ) → a +ℤ b ≡ b +ℤ a
comm a b = omega int_laws

add_holds-cong :
    (F G : ℕ → ℤ) (hs : List HoldSpec) (i : ℕ)
    → ((j : ℕ) → F j ≡ G j)
    → add_holds F hs i ≡ add_holds G hs i
add_holds-cong F G [] i same = same i
add_holds-cong F G (h ∷ hs) i same =
    add_holds-cong (λ j. F j +ℤ held_by h.target_kind h j) (λ j. G j +ℤ held_by h.target_kind h j)
      hs i (λ j. ap (λ z. z +ℤ held_by h.target_kind h j) (same j))

-- A reservation of the Key has no window.
share_of :
    (kind : ReservationTargetKind) (h : HoldSpec) (i : ℕ)
    → refs_ok kind h.window_id h.api_key_id ≡ true
    → at_window h.window_id h.amount i ≡ held_by kind h i
share_of ReservationTargetKind.key_budget h i sound =
    ap (λ o. at_window o h.amount i) (refs_key h.window_id h.api_key_id sound)
share_of ReservationTargetKind.window_five_hour h i sound = refl
share_of ReservationTargetKind.window_weekly h i sound = refl
share_of ReservationTargetKind.window_monthly h i sound = refl
share_of ReservationTargetKind.wallet h i sound = refl
share_of ReservationTargetKind.unknown_target h i sound = refl

eq_true_of_not : (b : Bool) → not b ≡ false → b ≡ true
eq_true_of_not true h = cc
eq_true_of_not false h = cc

pub insert_reservation_ok :
    (r : Reservation) (rs : List Reservation) {next : List Reservation}
    → insert_reservation r rs ≡ ok next
    → IsSound r × All (λ q. q.id ≢ r.id) rs × (next ≡ r ∷ rs)
unfolding insert_reservation
insert_reservation_ok r rs h =
    let (s, h1) = >>-eq-ok (fail_if (not (refs_ok r.target_kind r.window_id r.api_key_id)) _) _ h in
    let (d, h2) = >>-eq-ok (fail_if (any (λ q. q.id == r.id) rs) _) _ h1 in
    let (u, h3) = >>-eq-ok (fail_if (any _ rs) _) _ h2 in
    (
      eq_true_of_not _ (fail_if-eq-ok _ _ s),
      any-All (λ q. q.id) r.id rs (fail_if-eq-ok _ _ d),
      sym (ok_injective h3),
    )

insert_reservations_keep :
    (uuid : ℕ → ℕ) (n request_id : ℕ) (hs : List HoldSpec) (rs : List Reservation)
    {next : List Reservation}
    → insert_reservations uuid n request_id hs rs ≡ ok next
    → Distinct rs
    → All IsSound rs
    → Distinct next × All IsSound next × ((i : ℕ) → held_on next i ≡ add_holds (held_on rs) hs i)
unfolding insert_reservations held_on
insert_reservations_keep uuid n request_id [] rs h d s =
    subst (λ l. Distinct l × All IsSound l × ((i : ℕ) → held_on l i ≡ held_on rs i))
      (ok_injective h) (d, s, λ i. refl)
insert_reservations_keep uuid n request_id (h ∷ hs) rs {next} e d s =
    let r = reservation_of (uuid n) request_id h in
    let (mid, e1, e2) = >>=-eq-ok (insert_reservation r rs) _ e in
    let (sound, fresh, t) = insert_reservation_ok r rs e1 in
    let e3 = subst (λ l. insert_reservations uuid (suc n) request_id hs l ≡ ok next) t e2 in
    let (d', s', b) =
      insert_reservations_keep uuid (suc n) request_id hs (r ∷ rs) e3 (fresh, d) (sound, s) in
    (
      d',
      s',
      λ i.
          b i
          ∙ add_holds-cong (held_on (r ∷ rs)) (λ j. held_on rs j +ℤ held_by h.target_kind h j) hs i
              (λ j.
                comm (share j r) (held_on rs j)
                ∙ ap (λ z. held_on rs j +ℤ z) (share_of h.target_kind h j sound)),
    )

bind_window_keeps :
    (kind : ReservationTargetKind) (w : Option ℕ) (r : Request)
    → ((bind_window kind w r).id ≡ r.id) × ((bind_window kind w r).status ≡ r.status)
bind_window_keeps ReservationTargetKind.window_five_hour w r = (refl, refl)
bind_window_keeps ReservationTargetKind.window_weekly w r = (refl, refl)
bind_window_keeps ReservationTargetKind.window_monthly w r = (refl, refl)
bind_window_keeps ReservationTargetKind.key_budget w r = (refl, refl)
bind_window_keeps ReservationTargetKind.wallet w r = (refl, refl)
bind_window_keeps ReservationTargetKind.unknown_target w r = (refl, refl)

bind_windows_keep :
    (hs : List HoldSpec) (r : Request)
    → ((bind_windows hs r).id ≡ r.id) × ((bind_windows hs r).status ≡ r.status)
bind_windows_keep [] r = (refl, refl)
bind_windows_keep (h ∷ hs) r =
    let (i, s) = bind_windows_keep hs (bind_window h.target_kind h.window_id r) in
    let (i', s') = bind_window_keeps h.target_kind h.window_id r in (i ∙ i', s ∙ s')

-- What the admission of a request did to the tables.
pub record Admitted (id : ℕ) (db next : Db) : Type 0 where
  pub fresh : All (λ r. r.id ≢ id) db.requests
  pub row : Request
  pub is_row : row.id ≡ id
  pub is_reserved : row.status ≡ RequestStatus.reserved
  pub requests : next.requests ≡ row ∷ db.requests

pub reserve_keeps :
    (uuid : ℕ → ℕ) (others : Result (Unit {0})) (cmd : ReserveCommand) (db : Db) {next : Db}
    → reserve uuid others cmd db ≡ ok next
    → IsConsistent db
    → IsConsistent next × Admitted cmd.request.id db next
unfolding reserve persist insert_request
reserve_keeps uuid others cmd db e c =
    let (_, e1) = >>-eq-ok (lock_account cmd.request.billing_account_id db) _ e in
    let holds = sort_by (λ h. h.target_kind) cmd.holds in
    let (s, e2, e3) = >>=-eq-ok (apply_holds holds (starting db)) _ e1 in
    let (clear, e4) = >>-eq-ok (fail_if (not (is_clear s)) _) _ e3 in
    let (requests, e5, e6) =
      >>=-eq-ok (insert_request others (request_row cmd holds s.reserved_amount) db.requests) _
        e4 in
    let (rs, e7, e8) =
      >>=-eq-ok (insert_reservations uuid 0 cmd.request.id holds db.reservations) _ e6 in
    let (d, sound, b) =
      insert_reservations_keep uuid 0 cmd.request.id holds db.reservations e7 c.distinct c.sound in
    let (taken, e9) =
      >>-eq-ok
        (fail_if (any (λ q. q.id == (request_row cmd holds s.reserved_amount).id) db.requests) _) _
        e5 in
    let (_, e10) = >>-eq-ok others _ e9 in
    let (at, status) = bind_windows_keep holds (record cmd.request {
      status = RequestStatus.reserved;
      admitted_at = some cmd.admitted_at;
      reserved_micros = some s.reserved_amount;
    }) in
    subst (λ t. IsConsistent t × Admitted cmd.request.id db t) (ok_injective e8)
      (
        record {
          balanced =
              BalancedBy-cong _ _ s.windows (λ i. sym (b i))
                (apply_holds-BalancedBy (held_on db.reservations) holds (starting db) e2
                  (eq_true_of_not _ (fail_if-eq-ok _ _ clear)) c.balanced);
          distinct = d;
          sound = sound;
        },
        record {
          fresh =
              subst (λ i. All (λ r. r.id ≢ i) db.requests) at
                (any-All (λ q. q.id) (request_row cmd holds s.reserved_amount).id db.requests
                  (fail_if-eq-ok _ _ taken));
          row = request_row cmd holds s.reserved_amount;
          is_row = at;
          is_reserved = status;
          requests = sym (ok_injective e10);
        },
      )

-- An admission never takes a window over its limit: when every window has used and reserved no more than
-- its limit, so has every window after an admission, whatever the holds are.
pub reserve-IsWithin :
    (uuid : ℕ → ℕ) (others : Result (Unit {0})) (cmd : ReserveCommand) (db : Db) {next : Db}
    → reserve uuid others cmd db ≡ ok next
    → All IsWithin db.windows
    → All IsWithin next.windows
unfolding reserve persist
reserve-IsWithin uuid others cmd db e within =
    let (_, e1) = >>-eq-ok (lock_account cmd.request.billing_account_id db) _ e in
    let holds = sort_by (λ h. h.target_kind) cmd.holds in
    let (s, e2, e3) = >>=-eq-ok (apply_holds holds (starting db)) _ e1 in
    let (_, e4) = >>-eq-ok (fail_if (not (is_clear s)) _) _ e3 in
    let (requests, _, e6) =
      >>=-eq-ok (insert_request others (request_row cmd holds s.reserved_amount) db.requests) _
        e4 in
    let (rs, _, e8) =
      >>=-eq-ok (insert_reservations uuid 0 cmd.request.id holds db.reservations) _ e6 in
    subst (λ t. All IsWithin t.windows) (ok_injective e8)
      (apply_holds-IsWithin holds (starting db) e2 within)
