-- ===== src/Store/Quota/Balance.antt =====
-- internal/inference/postgres: the reservations that are held of a window are what the window has reserved.
use mathlib.Core.Path.{subst}
use yunhou_users.Common.{
  ℕ, ◌≡◌, ◌≢◌, refl, sym, ap, ◌∙◌, Bool, true, false, Option, some, List, [], ◌∷◌, ℤ, pos, ◌+ℤ◌,
  int_laws, if◌then◌else◌, ◌==◌, All, arith, ==_iff, ==_refl, inl, inr,
}
use yunhou_users.Domain.Usage.{QuotaWindow, ReservationState}
use yunhou_users.Store.Table.{update_row, update_row-cons, update_row-All}
use yunhou_users.Store.Quota.{Reservation, is_held, names, share, held_on}

-- The identifiers are distinct, and every window has reserved what the function says.
abbrev pub BalancedBy : (ℕ → ℤ) → List QuotaWindow → Type 0
BalancedBy F [] = Unit
BalancedBy F (w ∷ ws) = (w.reserved_micros ≡ F w.id) × All (λ v. v.id ≢ w.id) ws × BalancedBy F ws

pub BalancedBy-cong :
    (F G : ℕ → ℤ) (ws : List QuotaWindow)
    → ((i : ℕ) → F i ≡ G i)
    → BalancedBy F ws
    → BalancedBy G ws
BalancedBy-cong F G [] same h = tt
BalancedBy-cong F G (w ∷ ws) same (e, distinct, hs) =
    (e ∙ same w.id, distinct, BalancedBy-cong F G ws same hs)

BalancedBy-off :
    (F G : ℕ → ℤ) (wid : ℕ) (ws : List QuotaWindow)
    → ((i : ℕ) → i ≢ wid → F i ≡ G i)
    → All (λ v. v.id ≢ wid) ws
    → BalancedBy F ws
    → BalancedBy G ws
BalancedBy-off F G wid [] same off h = tt
BalancedBy-off F G wid (w ∷ ws) same (o, off) (e, distinct, hs) =
    (e ∙ same w.id o, distinct, BalancedBy-off F G wid ws same off hs)

-- An update of the window `wid` moves the balance there.
pub update_row-BalancedBy :
    (F G : ℕ → ℤ) (wid : ℕ) (p : QuotaWindow → Bool) (f : QuotaWindow → QuotaWindow)
    (ws : List QuotaWindow) {next : List QuotaWindow}
    → ((w : QuotaWindow) → (f w).id ≡ w.id)
    → ((w : QuotaWindow) → w.reserved_micros ≡ F wid → (f w).reserved_micros ≡ G wid)
    → ((i : ℕ) → i ≢ wid → F i ≡ G i)
    → update_row (λ w. w.id == wid) p f ws ≡ some next
    → BalancedBy F ws
    → BalancedBy G next
unfolding update_row
update_row-BalancedBy F G wid p f [] keeps_id moves same h hs = cc
update_row-BalancedBy F G wid p f (w ∷ ws) keeps_id moves same h (e, distinct, hs) =
    elim (update_row-cons (λ w. w.id == wid) p f w ws h) [
      | inl (k, q, t) ↦
          let at : w.id ≡ wid = (==_iff w.id wid).0 k in
          subst (BalancedBy G) (sym t) (
            moves w (e ∙ ap F at) ∙ ap G (sym (keeps_id w ∙ at)),
            subst (λ i. All (λ v. v.id ≢ i) ws) (sym (keeps_id w)) distinct,
            BalancedBy-off F G wid ws same (subst (λ i. All (λ v. v.id ≢ i) ws) at distinct) hs,
          )
      | inr (zs, k, h', t) ↦
          let off : w.id ≢ wid = λ at. ground (arith, at, k) in
          subst (BalancedBy G) (sym t) (
            e ∙ same w.id off,
            update_row-All (λ v. v.id ≢ w.id) (λ w. w.id == wid) p f ws h'
                (λ v _ _ d. subst (λ i. i ≢ w.id) (sym (keeps_id v)) d) distinct,
            update_row-BalancedBy F G wid p f ws keeps_id moves same h' hs,
          )
    ]

-- The amount at one window, 0 at the others.
abbrev pub at_window : Option ℕ → ℤ → ℕ → ℤ
at_window window amount i = if names window i then amount else pos 0

pub at_window_here : (wid : ℕ) (a : ℤ) → at_window (some wid) a wid ≡ a
at_window_here wid a = rw (==_refl wid) refl

pub at_window_off : (wid : ℕ) (a : ℤ) (i : ℕ) → i ≢ wid → at_window (some wid) a i ≡ pos 0
at_window_off wid a i off = ground arith

-- A reservation that the table holds under this identifier is this one, as far as the balance goes.
abbrev pub Agrees : List Reservation → Reservation → Type 0
Agrees rs r =
    All
      (λ s.
        s.id ≡ r.id → is_held s.state ≡ true → (s.amount ≡ r.amount) × (s.window_id ≡ r.window_id))
      rs

assoc : (a b c : ℤ) → a +ℤ b +ℤ c ≡ a +ℤ (b +ℤ c)
assoc a b c = omega int_laws

pub zero_swap : (b c : ℤ) → pos 0 +ℤ b +ℤ c ≡ c +ℤ b
zero_swap b c = omega int_laws

pub add_keeps : (a b c d : ℤ) → b +ℤ c ≡ d → a +ℤ b +ℤ c ≡ a +ℤ d
add_keeps a b c d h = assoc a b c ∙ ap (λ z. a +ℤ z) h

share_released :
    (i : ℕ) (s : Reservation) (state : ReservationState)
    → is_held state ≡ false
    → share i (record s { state = state }) ≡ pos 0
share_released i s state done = rw done refl

share_held :
    (i : ℕ) (s : Reservation)
    → is_held s.state ≡ true
    → share i s ≡ at_window s.window_id s.amount i
share_held i s q = rw q refl

-- A reservation that leaves the state held takes its share off the balance.
pub held_on-update_row :
    (r : Reservation) (state : ReservationState) (rs : List Reservation) {next : List Reservation}
    (i : ℕ)
    → is_held state ≡ false
    → Agrees rs r
    → update_row (λ s. s.id == r.id) (λ s. is_held s.state) (λ s. record s { state = state }) rs
      ≡ some next
    → held_on next i +ℤ at_window r.window_id r.amount i ≡ held_on rs i
unfolding update_row held_on
held_on-update_row r state [] i done agrees h = cc
held_on-update_row r state (s ∷ rs) i done (a, agrees) h =
    elim (update_row-cons (λ s. s.id == r.id) (λ s. is_held s.state)
      (λ s. record s { state = state }) s rs h) [
        | inl (k, q, t) ↦
            let (ea, ew) = a ((==_iff s.id r.id).0 k) q in
            ap (λ l. held_on l i +ℤ at_window r.window_id r.amount i) t
            ∙ ap (λ z. z +ℤ held_on rs i +ℤ at_window r.window_id r.amount i)
                (share_released i s state done)
            ∙ zero_swap (held_on rs i) (at_window r.window_id r.amount i)
            ∙ ap (λ z. z +ℤ held_on rs i)
                (ap (λ z. at_window r.window_id z i) (sym ea)
                  ∙ ap (λ w. at_window w s.amount i) (sym ew)
                  ∙ sym (share_held i s q))
        | inr (zs, k, h', t) ↦
            ap (λ l. held_on l i +ℤ at_window r.window_id r.amount i) t
            ∙ add_keeps (share i s) _ _ _ (held_on-update_row r state rs i done agrees h')
      ]
