-- ===== src/Llm/KeyPool/RoundRobin.antt =====
-- internal/llm/keypool.go: `Acquire` gives a key of the pool, the first free one in cyclic order.
use native.Mathlib.Nat.{mod-lt, add-zero, zero-add}
use native.Mathlib.Decide.{dec_lt}
use yunhou_users.Common.{
  ℕ, zero, suc, ◌+◌, ◌%◌, ◌≤◌, ◌<◌, ◌≡◌, ◌≢◌, refl, ap, ◌∙◌, Option, none, some, Option-cases,
  Bool-cases, inl, inr, List, [], ◌∷◌, length, get_elem?, arith, ltb, ==_refl,
}
use yunhou_users.Domain.Errors.{Time}
use yunhou_users.Llm.KeyPool.{
  Key, KeyPool, find_until, blocked_until, soonest, best_index, pick, acquire, cool,
}

-- The key whose turn is the `j`-th from now.
abbrev pub turn : KeyPool → ℕ → ℕ
turn p j = (p.next + j) % length p.keys

pick_first :
    (p : KeyPool) (now : Time) (n i j : ℕ) (best : Option (ℕ × Time))
    → j < n
    → blocked_until p now (turn p (i + j)) ≡ none
    → ((k : ℕ) → k < j → blocked_until p now (turn p (i + k)) ≢ none)
    → pick p now n i best ≡ some (turn p (i + j))
unfolding pick
pick_first p now zero i j best h free busy = elim h [ ]
pick_first p now (suc n) i zero best h free busy =
    let e : i + 0 ≡ i = omega arith in
    let free' : blocked_until p now (turn p i) ≡ none = rw e at free in rw (e, free') refl
pick_first p now (suc n) i (suc j) best h free busy =
    let e : i + suc j ≡ suc i + j = omega arith in
    let z : i + 0 ≡ i = omega arith in
    elim (Option-cases (blocked_until p now (turn p i))) [
      | inl open_now ↦ absurd (busy 0 (omega arith) (rw z open_now))
      | inr (u, blocked) ↦
          rw (blocked, e)
            (pick_first p now n (suc i) j (soonest best (turn p i) u) (omega arith) (rw e at free)
              (λ k l.
                let q : suc i + k ≡ i + suc k = omega arith in rw q (busy (suc k) (omega arith))))
    ]

get_elem?_total {ℓ} :
    {A : Type ℓ} (xs : List A) (i : ℕ) → i < length xs → (x : A) × (get_elem? xs i ≡ some x)
get_elem?_total [] i h = elim h [ ]
get_elem?_total (x ∷ xs) zero h = (x, refl)
get_elem?_total (x ∷ xs) (suc i) h = get_elem?_total xs i (omega arith)

-- If the `j`-th turn is the first whose key is not cooling down, that key is given, by its index, and
-- the next call starts behind it: a key that cools down is never given while another is free.
pub acquire_first_free :
    (p : KeyPool) (now : Time) (j : ℕ)
    → j < length p.keys
    → blocked_until p now (turn p j) ≡ none
    → ((k : ℕ) → k < j → blocked_until p now (turn p k) ≢ none)
    → (key : Key) × (get_elem? p.keys (turn p j) ≡ some key)
      × (acquire p now ≡ (record p { next = turn p j + 1 }, some (turn p j, some key)))
unfolding acquire
acquire_first_free p now j h free busy =
    let (key, e) = get_elem?_total p.keys (turn p j) (mod-lt (p.next + j) (omega arith)) in
    let found : pick p now (length p.keys) 0 none ≡ some (turn p j) = rw zero-add at (
      pick_first p now (length p.keys) 0 j none h (rw zero-add free)
        (λ k l. rw zero-add (busy k l))) in
    (key, e, rw (found, e) refl)

-- The best key so far: a cooling one among the turns before `i`, whose cooldown ends first.
abbrev IsSoonest : KeyPool → Time → ℕ → Option (ℕ × Time) → Type 0
IsSoonest p now i none = i ≡ 0
IsSoonest p now i (some (best, until)) =
    ((j : ℕ) × (j < i) × (best ≡ turn p j))
    × (blocked_until p now best ≡ some until)
    × ((k : ℕ) → k < i → (u : Time) → blocked_until p now (turn p k) ≡ some u → until ≤ u)

lower_extended :
    (until_at : ℕ → Option Time) (i : ℕ) (x y z : Time)
    → until_at i ≡ some y
    → ((k : ℕ) → k < i → (u : Time) → until_at k ≡ some u → x ≤ u)
    → z ≤ x
    → z ≤ y
    → (k : ℕ) → k < suc i
    → (u : Time) → until_at k ≡ some u
    → z ≤ u
lower_extended until_at i x y z e low zx zy k l u b = elim (dec_lt k i) [
  | yes before ↦ omega (arith, low k before u b)
  | no here ↦ let q : k ≡ i = omega arith in ground (arith, e, b, ap until_at q)
]

soonest-IsSoonest :
    (p : KeyPool) (now : Time) (i : ℕ) (best : Option (ℕ × Time)) (until : Time)
    → IsSoonest p now i best
    → blocked_until p now (turn p i) ≡ some until
    → IsSoonest p now (suc i) (soonest best (turn p i) until)
soonest-IsSoonest p now i none until s e = (
  (i, omega arith, refl),
  e,
  λ k l u b. let q : k ≡ i = omega arith in ground (arith, e, b, ap (turn p) q),
)
soonest-IsSoonest p now i (some (best, best_until)) until ((j, l, q), b, low) e =
    elim (Bool-cases (ltb until best_until)) [
      | inl earlier ↦ rw earlier (
        (i, omega arith, refl),
        e,
        λ k l u b'.
            lower_extended (λ m. blocked_until p now (turn p m)) i best_until until until e low
              (ground arith) (omega arith) k l u b',
      )
      | inr later ↦ rw later (
        (j, omega arith, q),
        b,
        λ k l u b'.
            lower_extended (λ m. blocked_until p now (turn p m)) i best_until until best_until e low
              (omega arith) (ground arith) k l u b',
      )
    ]

pick-IsSoonest :
    (p : KeyPool) (now : Time) (n i : ℕ) (best : Option (ℕ × Time))
    → ((k : ℕ) → k < i + n → blocked_until p now (turn p k) ≢ none)
    → IsSoonest p now i best
    → (last : Option (ℕ × Time)) × (pick p now n i best ≡ best_index last)
      × IsSoonest p now (i + n) last
unfolding pick
pick-IsSoonest p now zero i best busy s = (best, refl, rw add-zero s)
pick-IsSoonest p now (suc n) i best busy s = elim (Option-cases (blocked_until p now (turn p i))) [
  | inl free ↦ absurd (busy i (omega arith) free)
  | inr (u, blocked) ↦
      let next = soonest best (turn p i) u in
      let (last, e, sound) =
        pick-IsSoonest p now n (suc i) next (λ k l. busy k (omega arith))
          (soonest-IsSoonest p now i best u s blocked) in
      (last, rw blocked e, let q : i + suc n ≡ suc i + n = omega arith in rw q sound)
]

-- A given key that cools down, but whose cooldown ends no later than any other's.
abbrev pub GivesSoonest : KeyPool → Time → Type 0
GivesSoonest p now =
    (j : ℕ) × (until : Time) × (key : Key) × (j < length p.keys)
    × (get_elem? p.keys (turn p j) ≡ some key)
    × (acquire p now ≡ (record p { next = turn p j + 1 }, some (turn p j, some key)))
    × (blocked_until p now (turn p j) ≡ some until)
    × ((k : ℕ)
        → k < length p.keys
        → (u : Time) → blocked_until p now (turn p k) ≡ some u
        → until ≤ u)

give_best :
    (p : KeyPool) (now : Time) (last : Option (ℕ × Time))
    → 0 < length p.keys
    → pick p now (length p.keys) 0 none ≡ best_index last
    → IsSoonest p now (length p.keys) last
    → GivesSoonest p now
unfolding acquire
give_best p now none h e empty = absurd (omega arith)
give_best p now (some (best, until)) h e ((j, l, q), b, low) =
    let (key, at) = get_elem?_total p.keys (turn p j) (mod-lt (p.next + j) h) in
    let found : pick p now (length p.keys) 0 none ≡ some (turn p j) = e ∙ ap some q in
    (j, until, key, l, at, rw (found, at) refl, rw q at b, low)

-- If every key is cooling down, `Acquire` still gives a key of a pool that is not empty: the one
-- whose cooldown ends first, and the next call starts behind it.
pub acquire-GivesSoonest :
    (p : KeyPool) (now : Time)
    → 0 < length p.keys
    → ((k : ℕ) → k < length p.keys → blocked_until p now (turn p k) ≢ none)
    → GivesSoonest p now
acquire-GivesSoonest p now h busy =
    let (last, e, sound) =
      pick-IsSoonest p now (length p.keys) 0 none (λ k l. busy k (omega arith)) refl in
    give_best p now last h e (rw zero-add at sound)

-- A cooldown that is set for a key of the pool blocks it until then and changes no other key; an
-- index outside the pool is ignored.
pub cool-blocked_until :
    (p : KeyPool) (now : Time) (idx : ℕ) (until : Time)
    → now < until
    → (idx < length p.keys → blocked_until (cool p idx until) now idx ≡ some until)
      × ((k : ℕ) → k ≢ idx → blocked_until (cool p idx until) now k ≡ blocked_until p now k)
      × (length p.keys ≤ idx → cool p idx until ≡ p)
unfolding cool blocked_until find_until
cool-blocked_until p now idx until h =
    (λ l. ground (arith, ==_refl idx), λ k other. ground arith, λ l. ground arith)
