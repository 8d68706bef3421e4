-- ===== src/Store/Quota/Converted.antt =====
-- internal/inference/postgres: release and settlement keep the balance of the windows.
use mathlib.Core.Path.{subst}
use yunhou_users.Common.{ℕ, ◌≡◌, refl, Bool, true, false, Option, none, some, List, [], ◌∷◌, ℤ}
use yunhou_users.Domain.Errors.{Result, ok, ◌>>=◌, >>=-eq-ok, ok_injective}
use yunhou_users.Domain.Usage.{ReservationState, ReservationTargetKind}
use yunhou_users.Store.Table.{or_error-eq-ok, or_error, in_range}
use yunhou_users.Store.Quota.{Reservation, Request, Db, refs_ok, deref, move_reservation}
use yunhou_users.Store.Quota.Release.{
  release_wallet, give_back_key, give_back_window, release_target, release_all, put_back,
}
use yunhou_users.Store.Quota.Settle.{
  correct_key, convert_window, settle_target, settle_all, convert,
}
use yunhou_users.Store.Quota.Loops.{Ongoing, Gives, window-Gives, no_window-Gives, turn_keeps}

pub refs_key :
    (window key : Option ℕ)
    → refs_ok ReservationTargetKind.key_budget window key ≡ true
    → window ≡ none
refs_key none key h = refl
refs_key (some w) key h = cc

pub refs_wallet :
    (window key : Option ℕ) → refs_ok ReservationTargetKind.wallet window key ≡ true → window ≡ none
refs_wallet none key h = refl
refs_wallet (some w) key h = cc

-- A statement behind a pointer of the row, and one whose expressions may leave the range.
through {ℓ} :
    {A : Type ℓ} (o : Option ℕ) (f : ℕ → Result A) {a : A}
    → (deref o >>= f) ≡ ok a
    → (i : ℕ) × (o ≡ some i) × (f i ≡ ok a)
through o f h = let (i, e, e') = >>=-eq-ok (deref o) f h in (i, or_error-eq-ok o _ e, e')

pub in_range-eq-ok {ℓ} :
    {A : Type ℓ} (fits : Bool) (r : Result A) {a : A} → in_range fits r ≡ ok a → r ≡ ok a
in_range-eq-ok true r h = h
in_range-eq-ok false r h = cc

-- An UPDATE that must hit its row.
pub hit {ℓ κ} :
    {A : Type ℓ} {B : Type κ} (o : Option A) (e : _) (f : A → B) {b : B}
    → (or_error o e >>= λ a. ok (f a)) ≡ ok b
    → (a : A) × (o ≡ some a) × (f a ≡ b)
hit o e f h =
    let (a, q, q') = >>=-eq-ok (or_error o e) _ h in (a, or_error-eq-ok o e q, ok_injective q')

released_window :
    (r : Reservation) (db : Db) {mid : Db}
    → (deref r.window_id >>= λ window. give_back_window window r.amount db) ≡ ok mid
    → Gives r db mid
unfolding give_back_window
released_window r db h =
    let (wid, at, h1) = through r.window_id _ h in
    let (ws, e, t) = hit _ _ _ h1 in
    subst (Gives r db) t (window-Gives r wid _ (put_back r.amount) db at (λ w. refl) (λ w. refl) e)

release_target-Gives :
    (kind : ReservationTargetKind) (request_id : ℕ) (r : Reservation) (db : Db) {mid : Db}
    → refs_ok kind r.window_id r.api_key_id ≡ true
    → release_target kind request_id r db ≡ ok mid
    → Gives r db mid
unfolding give_back_key release_wallet
release_target-Gives ReservationTargetKind.key_budget request_id r db sound h =
    let (key, at, h1) = through r.api_key_id _ h in
    let (keys, e, t) = hit _ _ _ h1 in
    subst (Gives r db) t
      (no_window-Gives r db _ (refs_key r.window_id r.api_key_id sound) refl refl refl)
release_target-Gives ReservationTargetKind.wallet request_id r db sound h =
    let (holds, e, t) = hit _ _ _ h in
    subst (Gives r db) t
      (no_window-Gives r db _ (refs_wallet r.window_id r.api_key_id sound) refl refl refl)
release_target-Gives ReservationTargetKind.window_five_hour request_id r db sound h =
    released_window r db h
release_target-Gives ReservationTargetKind.window_weekly request_id r db sound h =
    released_window r db h
release_target-Gives ReservationTargetKind.window_monthly request_id r db sound h =
    released_window r db h
release_target-Gives ReservationTargetKind.unknown_target request_id r db sound h =
    released_window r db h

settled_window :
    (charge : ℤ) (r : Reservation) (db : Db) {mid : Db}
    → (deref r.window_id >>= λ window. convert_window window r.amount charge db) ≡ ok mid
    → Gives r db mid
unfolding convert_window
settled_window charge r db h =
    let (wid, at, h1) = through r.window_id _ h in
    let (ws, e, t) = hit _ _ _ (in_range-eq-ok _ _ h1) in
    subst (Gives r db) t
      (window-Gives r wid _ (convert r.amount charge) db at (λ w. refl) (λ w. refl) e)

settle_target-Gives :
    (kind : ReservationTargetKind) (charge : ℤ) (r : Reservation) (db : Db) {mid : Db}
    → refs_ok kind r.window_id r.api_key_id ≡ true
    → settle_target kind charge r db ≡ ok mid
    → Gives r db mid
unfolding correct_key
settle_target-Gives ReservationTargetKind.key_budget charge r db sound h =
    let (key, at, h1) = through r.api_key_id _ h in
    let (keys, e, t) = hit _ _ _ (in_range-eq-ok _ _ h1) in
    subst (Gives r db) t
      (no_window-Gives r db _ (refs_key r.window_id r.api_key_id sound) refl refl refl)
settle_target-Gives ReservationTargetKind.wallet charge r db sound h = settled_window charge r db h
settle_target-Gives ReservationTargetKind.window_five_hour charge r db sound h =
    settled_window charge r db h
settle_target-Gives ReservationTargetKind.window_weekly charge r db sound h =
    settled_window charge r db h
settle_target-Gives ReservationTargetKind.window_monthly charge r db sound h =
    settled_window charge r db h
settle_target-Gives ReservationTargetKind.unknown_target charge r db sound h =
    settled_window charge r db h

pub release_all_keeps :
    (request_id : ℕ) (requests : List Request) (rows : List Reservation) (db : Db) {next : Db}
    → release_all request_id rows db ≡ ok next
    → Ongoing requests rows db
    → Ongoing requests [] next
unfolding release_all
release_all_keeps request_id requests [] db h loop =
    subst (Ongoing requests []) (ok_injective h) loop
release_all_keeps request_id requests (r ∷ rows) db h loop =
    let (mid, h1, hr) =
      >>=-eq-ok
        (release_target r.target_kind request_id r db
          >>= move_reservation r.id ReservationState.released_state)
        _ h in
    let (mid0, h2, h3) = >>=-eq-ok (release_target r.target_kind request_id r db) _ h1 in
    release_all_keeps request_id requests rows mid hr (
      turn_keeps r rows ReservationState.released_state requests db mid0 refl
        (release_target-Gives r.target_kind request_id r db loop.rows_sound.0 h2) h3 loop)

pub settle_all_keeps :
    (charge : ℤ) (requests : List Request) (rows : List Reservation) (db : Db) {next : Db}
    → settle_all charge rows db ≡ ok next
    → Ongoing requests rows db
    → Ongoing requests [] next
unfolding settle_all
settle_all_keeps charge requests [] db h loop = subst (Ongoing requests []) (ok_injective h) loop
settle_all_keeps charge requests (r ∷ rows) db h loop =
    let (mid, h1, hr) =
      >>=-eq-ok
        (settle_target r.target_kind charge r db
          >>= move_reservation r.id ReservationState.settled_state)
        _ h in
    let (mid0, h2, h3) = >>=-eq-ok (settle_target r.target_kind charge r db) _ h1 in
    settle_all_keeps charge requests rows mid hr (
      turn_keeps r rows ReservationState.settled_state requests db mid0 refl
        (settle_target-Gives r.target_kind charge r db loop.rows_sound.0 h2) h3 loop)
