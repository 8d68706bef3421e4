-- ===== src/Store/Quota/Consistency.antt =====
-- internal/inference/postgres: release, settlement and parking keep the tables consistent, and change the
-- status of one request at most.
use mathlib.Core.Path.{subst}
use yunhou_users.Common.{
  ℕ, ◌≡◌, ◌≢◌, refl, sym, ap, ◌∙◌, Bool, true, false, List, [], ◌∷◌, ℤ, pos, ◌+ℤ◌, All, All_mono,
  All_zip, keep-All, leb, arith, Bool-cases, inl, inr,
}
use yunhou_users.Domain.Usage.{QuotaWindow, ReservationState, ReservationTargetKind}
use yunhou_users.Store.Table.{map_where, map_where-All}
use yunhou_users.Store.Quota.{
  Reservation, Db, held_on, share, names, insert_by, window_order_key, sort_by, load_held,
}
use yunhou_users.Store.Quota.Balance.{BalancedBy, Agrees}
use yunhou_users.Store.Quota.Loops.{IsSound, Distinct, IsConsistent, Ongoing}

module _ {ℓ κ} {A : Type ℓ} (P : A → Type κ) (kind : A → ReservationTargetKind) where
  insert_by-All : (x : A) (xs : List A) → P x → All P xs → All P (insert_by kind x xs)
  insert_by-All x [] h hs = (h, tt)
  insert_by-All x (y ∷ ys) h (g, gs) =
      elim (Bool-cases (leb (window_order_key (kind x)) (window_order_key (kind y)))) [
        | inl e ↦ rw e (h, (g, gs))
        | inr e ↦ rw e (g, insert_by-All x ys h gs)
      ]

  sort_by-All : (xs : List A) → All P xs → All P (sort_by kind xs)
  unfolding sort_by
  sort_by-All [] h = tt
  sort_by-All (x ∷ xs) (h, hs) = insert_by-All x (sort_by kind xs) h (sort_by-All xs hs)

all_agree : (rs : List Reservation) → Distinct rs → All (Agrees rs) rs
all_agree [] d = tt
all_agree (r ∷ rs) (fresh, d) = (
  (λ e q. (refl, refl), All_mono (λ s off e q. absurd (off e)) rs fresh),
  All_zip (λ s off a. (λ e q. absurd (off (sym e)), a)) rs fresh (all_agree rs d),
)

-- The loop starts on the held rows.
pub loop_starts :
    (request_id : ℕ) (db : Db)
    → IsConsistent db
    → Ongoing db.requests (load_held request_id db.reservations) db
loop_starts request_id db c = record {
  consistent = c;
  agree =
      sort_by-All (Agrees db.reservations) _ _
        (keep-All _ _ db.reservations (all_agree db.reservations c.distinct));
  rows_sound = sort_by-All IsSound _ _ (keep-All _ _ db.reservations c.sound);
  frame = refl;
}

-- The tables of the invariant and the requests are left as they are.
pub record Quiet (db next : Db) : Type 0 where
  pub windows : next.windows ≡ db.windows
  pub reservations : next.reservations ≡ db.reservations
  pub requests : next.requests ≡ db.requests

pub same-IsConsistent :
    (db next : Db)
    → next.windows ≡ db.windows
    → next.reservations ≡ db.reservations
    → IsConsistent db
    → IsConsistent next
same-IsConsistent db next windows reservations c = record {
  balanced =
      subst (λ rs. BalancedBy (held_on rs) next.windows) (sym reservations)
        (subst (BalancedBy (held_on db.reservations)) (sym windows) c.balanced);
  distinct = subst Distinct (sym reservations) c.distinct;
  sound = subst (All IsSound) (sym reservations) c.sound;
}

pub map_where-BalancedBy :
    (F : ℕ → ℤ) (p : QuotaWindow → Bool) (f : QuotaWindow → QuotaWindow) (ws : List QuotaWindow)
    → ((w : QuotaWindow) → (f w).id ≡ w.id)
    → ((w : QuotaWindow) → (f w).reserved_micros ≡ w.reserved_micros)
    → BalancedBy F ws
    → BalancedBy F (map_where p f ws)
map_where-BalancedBy F p f [] i r b = tt
map_where-BalancedBy F p f (w ∷ ws) i r (e, distinct, b) =
    let rest = map_where-BalancedBy F p f ws i r b in
    let others =
      map_where-All (λ v. v.id ≢ w.id) (λ v. v.id ≢ w.id) p f ws
        (λ v off _. subst (λ j. j ≢ w.id) (sym (i v)) off) (λ v off _. off) distinct in
    elim (Bool-cases (p w)) [
      | inl q ↦ rw q (
        r w ∙ e ∙ ap F (sym (i w)),
        subst (λ j. All (λ v. v.id ≢ j) (map_where p f ws)) (sym (i w)) others,
        rest,
      )
      | inr q ↦ rw q (e, others, rest)
    ]

pub share_off : (i : ℕ) (r : Reservation) → names r.window_id i ≡ false → share i r ≡ pos 0
share_off i r off = ground arith

-- The reservation of a wallet holds nothing of a window, whatever its state.
pub wallet_moves :
    (p : Reservation → Bool) (state : ReservationState) (rs : List Reservation) (i : ℕ)
    → ((r : Reservation) → IsSound r → p r ≡ true → names r.window_id i ≡ false)
    → All IsSound rs
    → held_on (map_where p (λ r. record r { state = state }) rs) i ≡ held_on rs i
unfolding held_on
wallet_moves p state [] i off s = refl
wallet_moves p state (r ∷ rs) i off (s, ss) =
    let rest = wallet_moves p state rs i off ss in
    elim (Bool-cases (p r)) [
      | inl q ↦ rw q (
          ap (λ z. z +ℤ held_on (map_where p (λ r. record r { state = state }) rs) i)
            (share_off i (record r { state = state }) (off r s q) ∙ sym (share_off i r (off r s q)))
          ∙ ap (λ z. share i r +ℤ z) rest)
      | inr q ↦ rw q (ap (λ z. share i r +ℤ z) rest)
    ]

pub move_where-Distinct :
    (p : Reservation → Bool) (state : ReservationState) (rs : List Reservation)
    → Distinct rs
    → Distinct (map_where p (λ r. record r { state = state }) rs)
move_where-Distinct p state [] d = tt
move_where-Distinct p state (r ∷ rs) (fresh, d) =
    let rest = move_where-Distinct p state rs d in
    let others =
      map_where-All (λ s. s.id ≢ r.id) (λ s. s.id ≢ r.id) p (λ r. record r { state = state }) rs
        (λ s off _. off) (λ s off _. off) fresh in
    elim (Bool-cases (p r)) [ inl q ↦ rw q (others, rest) | inr q ↦ rw q (others, rest) ]
