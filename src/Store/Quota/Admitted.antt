-- ===== src/Store/Quota/Admitted.antt =====
-- internal/inference/postgres/quota_repo.go: what an admission does to the windows and the reservations.
use mathlib.Core.Path.{subst}
use yunhou_users.Common.{
  ℕ, ◌≡◌, refl, sym, ap, ◌∙◌, ◌⊎◌, Bool, true, false, ◌&&◌, Option, none, some, List, [], ◌∷◌, ◌++◌,
  ℤ, pos, ◌+ℤ◌, ◌≤ℤ◌, ltb_ℤ, int_laws, if◌then◌else◌, ◌==◌, All, arith, inl, inr, +ℤ_parts,
}
use yunhou_users.Domain.Errors.{ok, >>=-eq-ok, >>-eq-ok, ok_injective, WindowBlock, fail_if}
use yunhou_users.Domain.Usage.{QuotaWindow, ReservationTargetKind, HoldSpec}
use yunhou_users.Store.Table.{update_row, update_row-All}
use yunhou_users.Store.Quota.{KeyRow}
use yunhou_users.Store.Quota.Hold.{
  Holding, after_key, after_window, hold_key, hold_window, hold_target, apply_hold, apply_holds,
  is_clear, no_blocks, has_room, take_room,
}
use yunhou_users.Store.Quota.Balance.{
  BalancedBy, BalancedBy-cong, update_row-BalancedBy, at_window, at_window_here, at_window_off,
}
use yunhou_users.Store.Quota.Converted.{in_range-eq-ok}

abbrev pub is_key : ReservationTargetKind → Bool
is_key ReservationTargetKind.key_budget = true
is_key _ = false

-- The window `wid` had room for the hold, which it took.
abbrev Took : HoldSpec → Holding → Holding → Type 0
Took h s next =
    (wid : ℕ) × (h.window_id ≡ some wid)
    × (update_row (λ w. w.id == wid) (has_room h.amount) (take_room h.amount) s.windows
        ≡ some next.windows)

-- A turn that is not refused later leaves the windows alone for a Key, or takes room in one.
abbrev Turned : ReservationTargetKind → HoldSpec → Holding → Holding → Type 0
Turned kind h s next =
    (is_clear next ≡ true
      → (is_clear s ≡ true)
        × (((is_key kind ≡ true) × (next.windows ≡ s.windows))
            ⊎ ((is_key kind ≡ false) × Took h s next)))
    × ((next.windows ≡ s.windows) ⊎ Took h s next)

not_empty : (bs : List WindowBlock) (b : WindowBlock) → no_blocks (bs ++ (b ∷ [])) ≡ false
not_empty [] b = refl
not_empty (c ∷ bs) b = refl

and_false : (b : Bool) → b && false ≡ false
and_false true = refl
and_false false = refl

after_key-Turned :
    (h : HoldSpec) (key : ℕ) (s : Holding) (o : Option (List KeyRow))
    → Turned ReservationTargetKind.key_budget h s (after_key key h.amount s o)
after_key-Turned h key s none =
    (λ clear. let c = rw (and_false (no_blocks s.blocked)) at clear in cc, inl refl)
after_key-Turned h key s (some keys) = (λ clear. (clear, inl (refl, refl)), inl refl)

hold_key-Turned :
    (h : HoldSpec) (key : Option ℕ) (s : Holding) {next : Holding}
    → hold_key key h.amount s ≡ ok next
    → Turned ReservationTargetKind.key_budget h s next
unfolding hold_key
hold_key-Turned h none s e = cc
hold_key-Turned h (some key) s {next} e =
    subst (Turned ReservationTargetKind.key_budget h s) (ok_injective (in_range-eq-ok _ _ e))
      (after_key-Turned h key s _)

after_window-Turned :
    (kind : ReservationTargetKind) (h : HoldSpec) (wid : ℕ) (s : Holding)
    (o : Option (List QuotaWindow))
    → is_key kind ≡ false
    → h.window_id ≡ some wid
    → update_row (λ w. w.id == wid) (has_room h.amount) (take_room h.amount) s.windows ≡ o
    → Turned kind h s (after_window kind wid h.amount s o)
after_window-Turned kind h wid s none not_key at e =
    (λ clear. let c = rw (not_empty s.blocked _) at clear in cc, inl refl)
after_window-Turned kind h wid s (some ws) not_key at e =
    (λ clear. (clear, inr (not_key, (wid, at, e))), inr (wid, at, e))

hold_window-Turned :
    (kind : ReservationTargetKind) (h : HoldSpec) (window : Option ℕ) (s : Holding) {next : Holding}
    → is_key kind ≡ false
    → h.window_id ≡ window
    → hold_window kind window h.amount s ≡ ok next
    → Turned kind h s next
unfolding hold_window
hold_window-Turned kind h none s not_key at e = cc
hold_window-Turned kind h (some wid) s {next} not_key at e =
    subst (Turned kind h s) (ok_injective (in_range-eq-ok _ _ e))
      (after_window-Turned kind h wid s _ not_key at refl)

hold_target-Turned :
    (kind : ReservationTargetKind) (h : HoldSpec) (s : Holding) {next : Holding}
    → hold_target kind h s ≡ ok next
    → Turned kind h s next
hold_target-Turned ReservationTargetKind.key_budget h s e = hold_key-Turned h h.api_key_id s e
hold_target-Turned ReservationTargetKind.window_five_hour h s e =
    hold_window-Turned ReservationTargetKind.window_five_hour h h.window_id s refl refl e
hold_target-Turned ReservationTargetKind.window_weekly h s e =
    hold_window-Turned ReservationTargetKind.window_weekly h h.window_id s refl refl e
hold_target-Turned ReservationTargetKind.window_monthly h s e =
    hold_window-Turned ReservationTargetKind.window_monthly h h.window_id s refl refl e
hold_target-Turned ReservationTargetKind.wallet h s e =
    hold_window-Turned ReservationTargetKind.wallet h h.window_id s refl refl e
hold_target-Turned ReservationTargetKind.unknown_target h s e =
    hold_window-Turned ReservationTargetKind.unknown_target h h.window_id s refl refl e

apply_hold-Turned :
    (h : HoldSpec) (s : Holding) {next : Holding}
    → apply_hold h s ≡ ok next
    → Turned h.target_kind h s next
unfolding apply_hold
apply_hold-Turned h s e =
    let (_, e1) = >>-eq-ok (fail_if (ltb_ℤ h.amount (pos 0)) _) _ e in
    hold_target-Turned h.target_kind h s e1

-- What a hold takes of a window.
abbrev pub held_by : ReservationTargetKind → HoldSpec → ℕ → ℤ
held_by kind h i = if is_key kind then pos 0 else at_window h.window_id h.amount i

abbrev pub add_holds : (ℕ → ℤ) → List HoldSpec → ℕ → ℤ
add_holds F [] i = F i
add_holds F (h ∷ hs) i = add_holds (λ j. F j +ℤ held_by h.target_kind h j) hs i

add_zero : (a : ℤ) → a +ℤ pos 0 ≡ a
add_zero a = omega int_laws

Took-BalancedBy :
    (F : ℕ → ℤ) (h : HoldSpec) (s next : Holding)
    → Took h s next
    → BalancedBy F s.windows
    → BalancedBy (λ i. F i +ℤ at_window h.window_id h.amount i) next.windows
Took-BalancedBy F h s next (wid, at, e) b =
    update_row-BalancedBy F _ wid _ (take_room h.amount) s.windows (λ w. refl)
      (λ w q.
        ap (λ z. z +ℤ h.amount) q
        ∙ ap (λ z. F wid +ℤ z)
            (sym (at_window_here wid h.amount) ∙ ap (λ o. at_window o h.amount wid) (sym at)))
      (λ i off. sym (
        ap (λ z. F i +ℤ z) (ap (λ o. at_window o h.amount i) at ∙ at_window_off wid h.amount i off)
        ∙ add_zero (F i)))
      e b

turn-BalancedBy :
    (F : ℕ → ℤ) (kind : ReservationTargetKind) (h : HoldSpec) (s next : Holding)
    → Turned kind h s next
    → is_clear next ≡ true
    → BalancedBy F s.windows
    → BalancedBy (λ i. F i +ℤ held_by kind h i) next.windows
turn-BalancedBy F kind h s next (clears, moved) clear b = elim (clears clear).1 [
  | inl (k, same) ↦ subst (BalancedBy _) (sym same) (
      BalancedBy-cong F _ s.windows
        (λ i. sym (
          ap (λ c. F i +ℤ (if c then pos 0 else at_window h.window_id h.amount i)) k
          ∙ add_zero (F i)))
        b)
  | inr (k, took) ↦
      BalancedBy-cong _ _ next.windows
        (λ i. ap (λ c. F i +ℤ (if c then pos 0 else at_window h.window_id h.amount i)) (sym k))
        (Took-BalancedBy F h s next took b)
]

apply_holds_clear :
    (hs : List HoldSpec) (s : Holding) {next : Holding}
    → apply_holds hs s ≡ ok next
    → is_clear next ≡ true
    → is_clear s ≡ true
unfolding apply_holds
apply_holds_clear [] s e clear = ap is_clear (ok_injective e) ∙ clear
apply_holds_clear (h ∷ hs) s e clear =
    let (mid, e1, e2) = >>=-eq-ok (apply_hold h s) _ e in
    ((apply_hold-Turned h s e1).0 (apply_holds_clear hs mid e2 clear)).0

pub apply_holds-BalancedBy :
    (F : ℕ → ℤ) (hs : List HoldSpec) (s : Holding) {next : Holding}
    → apply_holds hs s ≡ ok next
    → is_clear next ≡ true
    → BalancedBy F s.windows
    → BalancedBy (add_holds F hs) next.windows
unfolding apply_holds
apply_holds-BalancedBy F [] s e clear b = subst (λ t. BalancedBy F t.windows) (ok_injective e) b
apply_holds-BalancedBy F (h ∷ hs) s e clear b =
    let (mid, e1, e2) = >>=-eq-ok (apply_hold h s) _ e in
    apply_holds-BalancedBy (λ j. F j +ℤ held_by h.target_kind h j) hs mid e2 clear
      (turn-BalancedBy F h.target_kind h s mid (apply_hold-Turned h s e1)
        (apply_holds_clear hs mid e2 clear) b)

-- Used and reserved credit are within the limit.
abbrev pub IsWithin : QuotaWindow → Type 0
IsWithin w = w.used +ℤ w.reserved_micros ≤ℤ w.limit

take_room-IsWithin :
    (amount : ℤ) (w : QuotaWindow) → has_room amount w ≡ true → IsWithin (take_room amount w)
take_room-IsWithin amount w room = ground (
  arith,
  +ℤ_parts w.used w.reserved_micros,
  +ℤ_parts (w.used +ℤ w.reserved_micros) amount,
  +ℤ_parts w.reserved_micros amount,
  +ℤ_parts w.used (w.reserved_micros +ℤ amount),
)

Took-IsWithin :
    (h : HoldSpec) (s next : Holding)
    → Took h s next
    → All IsWithin s.windows
    → All IsWithin next.windows
Took-IsWithin h s next (wid, at, e) all_within =
    update_row-All IsWithin _ _ (take_room h.amount) s.windows e
      (λ w _ room _. take_room-IsWithin h.amount w room) all_within

pub apply_holds-IsWithin :
    (hs : List HoldSpec) (s : Holding) {next : Holding}
    → apply_holds hs s ≡ ok next
    → All IsWithin s.windows
    → All IsWithin next.windows
unfolding apply_holds
apply_holds-IsWithin [] s e within = subst (λ t. All IsWithin t.windows) (ok_injective e) within
apply_holds-IsWithin (h ∷ hs) s e within =
    let (mid, e1, e2) = >>=-eq-ok (apply_hold h s) _ e in
    apply_holds-IsWithin hs mid e2 (elim (apply_hold-Turned h s e1).1 [
      | inl same ↦ subst (All IsWithin) (sym same) within
      | inr took ↦ Took-IsWithin h s mid took within
    ])
