-- ===== src/Routing/Pool/Rotation.antt =====
-- internal/inference/routing: the order of the accounts is a rotation of the schedulable ones.
use mathlib.Core.Path.{subst}
use native.Mathlib.Nat.{mod-eq_of_lt, add-mod_right, mod-lt}
use yunhou_users.Common.{
  ℕ, zero, suc, ◌+◌, ◌-◌, ◌%◌, ◌≤◌, ◌<◌, ◌≡◌, refl, sym, ap, ◌∙◌, ◌||◌, ◌==◌, ==_refl, All_mono,
  inl, inr, Bool, true, not, ◌&&◌, Option, none, some, List, [], ◌∷◌, ◌++◌, length, keep, take,
  drop, get_elem?, arith, Bool-cases, leb, pos, leb_ℤ, All,
}
use yunhou_users.Domain.Errors.{Time}
use yunhou_users.Routing.Pool.{
  UpstreamAccount, Service, picks, order_accounts, order_accounts_with_quota, schedulable, cursor,
  rotate, quota_exhausted, is_cooling, listed, is_active,
}

wrap : (n start j : ℕ) → start < n → j < start → (start + (n - start + j)) % n ≡ j
wrap n start j h g = ap (λ m. m % n) (omega arith) ∙ add-mod_right j n ∙ mod-eq_of_lt (omega arith)

module _ {ℓ} {A : Type ℓ} where
  length-drop : (k : ℕ) (xs : List A) → length (drop k xs) ≡ length xs - k
  length-drop zero xs = omega arith
  length-drop (suc k) [] = omega arith
  length-drop (suc k) (x ∷ xs) = omega (arith, length-drop k xs)

  take_all : (n : ℕ) (xs : List A) → length xs ≤ n → take n xs ≡ xs
  take_all zero [] h = refl
  take_all zero (x ∷ xs) h = absurd (omega arith)
  take_all (suc n) [] h = refl
  take_all (suc n) (x ∷ xs) h = ap (λ t. x ∷ t) (take_all n xs (omega arith))

  -- The element at k comes first behind the first k.
  take-drop :
      (k c : ℕ) (xs : List A)
      → k < length xs
      → take (suc c) (drop k xs) ≡ listed (get_elem? xs k) ++ take c (drop (suc k) xs)
  take-drop zero c [] h = absurd (omega arith)
  take-drop zero c (x ∷ xs) h = refl
  take-drop (suc k) c [] h = absurd (omega arith)
  take-drop (suc k) c (x ∷ xs) h = take-drop k c xs (omega arith)

  picks_run :
      (xs : List A) (start i k c : ℕ)
      → ((j : ℕ) → j < c → (start + (i + j)) % length xs ≡ k + j)
      → k + c ≤ length xs
      → picks xs start i c ≡ take c (drop k xs)
  unfolding picks
  picks_run xs start i k zero at h = refl
  picks_run xs start i k (suc c) at h =
      let e0 : (start + i) % length xs ≡ k =
        ap (λ m. m % length xs) (omega arith) ∙ at 0 (omega arith) ∙ omega arith in
      let rest =
        picks_run xs start (suc i) (suc k) c
          (λ j g. ap (λ m. m % length xs) (omega arith) ∙ at (suc j) (omega arith) ∙ omega arith)
          (omega arith) in
      ap (λ m. listed (get_elem? xs m) ++ picks xs start (suc i) c) e0
      ∙ ap (λ t. listed (get_elem? xs k) ++ t) rest
      ∙ sym (take-drop k c xs (omega arith))

  assoc : (o : Option A) (ys zs : List A) → listed o ++ (ys ++ zs) ≡ (listed o ++ ys) ++ zs
  assoc none ys zs = refl
  assoc (some x) ys zs = refl

  picks_split :
      (xs : List A) (start i a b : ℕ)
      → picks xs start i (a + b) ≡ picks xs start i a ++ picks xs start (i + a) b
  unfolding picks
  picks_split xs start i zero b =
      ap (picks xs start i) (omega arith) ∙ ap (λ m. picks xs start m b) (omega arith)
  picks_split xs start i (suc a) b =
      let o = get_elem? xs ((start + i) % length xs) in
      ap (picks xs start i) {y = suc (a + b)} (omega arith)
      ∙ ap (λ t. listed o ++ t) (picks_split xs start (suc i) a b)
      ∙ assoc o (picks xs start (suc i) a) _
      ∙ ap (λ m. (listed o ++ picks xs start (suc i) a) ++ picks xs start m b) (omega arith)

  picks_rotation :
      (xs : List A) (start : ℕ)
      → start < length xs
      → picks xs start 0 (length xs) ≡ drop start xs ++ take start xs
  picks_rotation xs start h =
      let n = length xs in
      ap (picks xs start 0) {y = n - start + start} (omega arith)
      ∙ picks_split xs start 0 (n - start) start
      ∙ ap (λ t. t ++ picks xs start (0 + (n - start)) start)
          (picks_run xs start 0 start (n - start) (λ j g. mod-eq_of_lt (omega arith) ∙ omega arith)
              (omega arith)
            ∙ take_all (n - start) (drop start xs) (omega (arith, length-drop start xs)))
      ∙ ap (λ t. drop start xs ++ t)
          (picks_run xs start (0 + (n - start)) 0 start
            (λ j g. ap (λ m. m % n) (omega arith) ∙ wrap n start j h g ∙ omega arith) (omega arith))

keep-keep {ℓ} :
    {A : Type ℓ} (p q r : A → Bool) (xs : List A)
    → All (λ a. (p a && q a) ≡ r a) xs
    → keep q (keep p xs) ≡ keep r xs
keep-keep p q r [] h = refl
keep-keep p q r (x ∷ xs) (e, h) = elim (Bool-cases (p x)) [
  | inl i ↦ elim (Bool-cases (q x)) [
    | inl j ↦
        let e' = sym e ∙ ap (λ b. b && q x) i ∙ j in
        rw (i, j, e') (ap (λ t. x ∷ t) (keep-keep p q r xs h))
    | inr j ↦ let e' = sym e ∙ ap (λ b. b && q x) i ∙ j in rw (i, j, e') (keep-keep p q r xs h)
  ]
  | inr i ↦ let e' = sym e ∙ ap (λ b. b && q x) i in rw (i, e') (keep-keep p q r xs h)
]

regroup :
    (act limit exhausted cooling : Bool)
    → act ≡ true
    → ((limit && exhausted) && cooling) ≡ (act && limit && cooling && exhausted)
regroup act limit exhausted cooling h = ground arith

live_lem :
    (s : Service) (accounts : List UpstreamAccount) (now : Time)
    → All (λ a. is_active a.status ≡ true) accounts
    → keep
        (λ a. not (is_cooling s a.id now))
        (keep
          (λ a. not (leb_ℤ a.concurrency_limit (pos 0)) && not (quota_exhausted a now))
          accounts)
      ≡ keep (λ a. schedulable s a now) accounts
unfolding schedulable
live_lem s accounts now h = keep-keep _ _ _ accounts (
    All_mono
      (λ a act.
        regroup (is_active a.status) (not (leb_ℤ a.concurrency_limit (pos 0)))
          (not (quota_exhausted a now)) (not (is_cooling s a.id now)) act)
      accounts h)

-- The accounts are in an order that begins at a place of the list and goes around it; with two accounts or
-- more, that place is the cursor's, and the cursor is moved behind it.
abbrev pub IsRotated : Service → ℕ → List UpstreamAccount → Service × List UpstreamAccount → Type 0
IsRotated s provider live result =
    (k : ℕ) × (result.1 ≡ drop k live ++ take k live)
    × ((leb (length live) 1
          || (k == cursor s provider % length live && cursor result.0 provider == k + 1))
        ≡ true)

append_nil {ℓ} : {A : Type ℓ} (xs : List A) → xs ≡ xs ++ []
append_nil [] = refl
append_nil (x ∷ xs) = ap (λ t. x ∷ t) (append_nil xs)

rotate-IsRotated :
    (s : Service) (provider : ℕ) (live : List UpstreamAccount)
    → IsRotated s provider live (rotate s provider live)
rotate-IsRotated s provider live = elim (Bool-cases (leb (length live) 1)) [
  | inl e ↦ rw e (0, append_nil live, refl)
  | inr e ↦ rw e (
    cursor s provider % length live,
    picks_rotation live (cursor s provider % length live) (mod-lt _ (ground arith)),
    rw
        (
          ==_refl (cursor s provider % length live),
          ==_refl provider,
          ==_refl (cursor s provider % length live + 1),
        )
        refl,
  )
]

-- Of accounts that are all active, those that are tried are exactly the ones that the health view of the same
-- instant calls schedulable: the order is a rotation of them, so none is left out, doubled or added. With two
-- such accounts or more it begins at the place of the provider's cursor, and the cursor is set behind it.
pub order_accounts_with_quota-IsRotated :
    (s : Service) (provider : ℕ) (accounts : List UpstreamAccount) (now : Time)
    → All (λ a. is_active a.status ≡ true) accounts
    → IsRotated s provider
        (keep (λ a. schedulable s a now) accounts)
        (order_accounts_with_quota s provider accounts now)
unfolding order_accounts_with_quota order_accounts
order_accounts_with_quota-IsRotated s provider accounts now h =
    let live = keep (λ a. schedulable s a now) accounts in
    subst (λ tried. IsRotated s provider live (rotate s provider tried))
      (sym (live_lem s accounts now h)) (rotate-IsRotated s provider live)
