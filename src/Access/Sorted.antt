-- ===== src/Access/Sorted.antt =====
-- internal/inference/access/entitlement.go: the sort of `grantsModel` and the first row that passes.
use mathlib.Core.Path.{subst}
use mathlib.Core.List.{Memᴰ}
use yunhou_users.Common.{
  arith, ◌≡◌, refl, sym, ap, ◌∙◌, ◌⊎◌, inl, inr, Bool, true, false, not, ◌&&◌, ◌||◌, none, some,
  List, [], ◌∷◌, keep, all, Bool-cases,
}
use yunhou_users.Store.Table.{find_where}
use yunhou_users.Access.{Text, Entitlement}
use yunhou_users.Access.Selection.{ltb_text, created_before, insert_row, sort_rows}

ltb_text_asym : (xs ys : Text) → ltb_text xs ys ≡ true → ltb_text ys xs ≡ false
unfolding ltb_text
ltb_text_asym xs [] h = cc
ltb_text_asym [] (y ∷ ys) h = refl
ltb_text_asym (x ∷ xs) (y ∷ ys) h = ground (arith, h, ltb_text_asym xs ys)

ltb_text_cotrans :
    (xs ys zs : Text) → ltb_text ys xs ≡ false → ltb_text zs ys ≡ false → ltb_text zs xs ≡ false
unfolding ltb_text
ltb_text_cotrans [] ys zs h g = refl
ltb_text_cotrans (x ∷ xs) [] zs h g = cc
ltb_text_cotrans (x ∷ xs) (y ∷ ys) [] h g = cc
ltb_text_cotrans (x ∷ xs) (y ∷ ys) (z ∷ zs) h g = ground (arith, h, g, ltb_text_cotrans xs ys zs)

created_before_asym : (a b : Entitlement) → created_before a b ≡ true → created_before b a ≡ false
unfolding created_before
created_before_asym a b h = ground (arith, h, ltb_text_asym a.id b.id)

created_before_irrefl : (a : Entitlement) → created_before a a ≡ false
created_before_irrefl a = elim (Bool-cases (created_before a a)) [
  | inl h ↦ created_before_asym a a h
  | inr h ↦ h
]

created_before_cotrans :
    (a b c : Entitlement)
    → created_before b a ≡ false
    → created_before c b ≡ false
    → created_before c a ≡ false
unfolding created_before
created_before_cotrans a b c h g = ground (arith, h, g, ltb_text_cotrans a.id b.id c.id)

abbrev IsSorted : List Entitlement → Type 0
IsSorted [] = Unit
IsSorted (x ∷ xs) = (all (λ y. not (created_before y x)) xs ≡ true) × IsSorted xs

module _ {ℓ} {A : Type ℓ} where
  all_mono :
      (p q : A → Bool) (xs : List A)
      → ((x : A) → p x ≡ true → q x ≡ true)
      → all p xs ≡ true
      → all q xs ≡ true
  all_mono p q [] f h = refl
  all_mono p q (x ∷ xs) f h = ground (arith, h, f x, all_mono p q xs f)

  pub all-keep : (p q : A → Bool) (xs : List A) → all p (keep q xs) ≡ all (λ x. not (q x) || p x) xs
  all-keep p q [] = refl
  all-keep p q (x ∷ xs) = elim (Bool-cases (q x)) [
    | inl e ↦ rw (e, keep) (ap (λ b. p x && b) (all-keep p q xs))
    | inr e ↦ rw (e, keep) (all-keep p q xs)
  ]

  Mem-cons : {a x : A} {xs : List A} → Memᴰ a (x ∷ xs) → (a ≡ x) ⊎ Memᴰ a xs
  Mem-cons (Memᴰ.head same) = inl same
  Mem-cons (Memᴰ.tail m) = inr m

  pub Mem-keep :
      (q : A → Bool) (xs : List A) {a : A} → Memᴰ a (keep q xs) → Memᴰ a xs × (q a ≡ true)
  Mem-keep q [] m = elim m [ ]
  Mem-keep q (x ∷ xs) {a} m = elim (Bool-cases (q x)) [
    | inl e ↦
        let m' = rw (e, keep) at m in
        elim (Mem-cons m') [
          | inl same ↦ (Memᴰ.head same, rw same e)
          | inr n ↦ let (n', t) = Mem-keep q xs n in (Memᴰ.tail n', t)
        ]
    | inr e ↦ let m' = rw (e, keep) at m in let (n, t) = Mem-keep q xs m' in (Memᴰ.tail n, t)
  ]

  pub Mem-find_where : (p : A → Bool) (xs : List A) {a : A} → find_where p xs ≡ some a → Memᴰ a xs
  Mem-find_where p [] h = cc
  Mem-find_where p (x ∷ xs) {a} h = elim (Bool-cases (p x)) [
    | inl e ↦ let h' = rw e at h in let same : x ≡ a = cc in Memᴰ.head (sym same)
    | inr e ↦ let h' = rw e at h in Memᴰ.tail (Mem-find_where p xs h')
  ]

  pub find_where-none :
      (p : A → Bool) (xs : List A) → find_where p xs ≡ none → all (λ x. not (p x)) xs ≡ true
  find_where-none p [] h = refl
  find_where-none p (x ∷ xs) h = elim (Bool-cases (p x)) [
    | inl e ↦ let h' = rw e at h in cc
    | inr e ↦ let h' = rw e at h in rw e (find_where-none p xs h')
  ]

all-insert_row :
    (p : Entitlement → Bool) (e : Entitlement) (xs : List Entitlement)
    → all p (insert_row e xs) ≡ (p e && all p xs)
unfolding insert_row
all-insert_row p e [] = refl
all-insert_row p e (x ∷ xs) = elim (Bool-cases (created_before x e)) [
  | inl q ↦ rw (q, insert_row) (let h = all-insert_row p e xs in rw h (ground arith))
  | inr q ↦ rw (q, insert_row) refl
]

pub all-sort_rows :
    (p : Entitlement → Bool) (xs : List Entitlement) → all p (sort_rows xs) ≡ all p xs
unfolding sort_rows
all-sort_rows p [] = refl
all-sort_rows p (x ∷ xs) =
    all-insert_row p x (sort_rows xs) ∙ ap (λ b. p x && b) (all-sort_rows p xs)

insert_row-IsSorted :
    (e : Entitlement) (xs : List Entitlement) → IsSorted xs → IsSorted (insert_row e xs)
unfolding insert_row
insert_row-IsSorted e [] sorted = (refl, tt)
insert_row-IsSorted e (x ∷ xs) (first, sorted) = elim (Bool-cases (created_before x e)) [
  | inl q ↦
      let later = created_before_asym x e q in
      rw (q, insert_row)
        (
          all-insert_row (λ y. not (created_before y x)) e xs ∙ rw later first,
          insert_row-IsSorted e xs sorted,
        )
  | inr q ↦
      let rest =
        all_mono (λ y. not (created_before y x)) (λ y. not (created_before y e)) xs
          (λ y. let t = created_before_cotrans e x y q in ground (arith, t)) first in
      rw (q, insert_row) (rw q rest, (first, sorted))
]

pub sort_rows-IsSorted : (xs : List Entitlement) → IsSorted (sort_rows xs)
unfolding sort_rows
sort_rows-IsSorted [] = tt
sort_rows-IsSorted (x ∷ xs) = insert_row-IsSorted x (sort_rows xs) (sort_rows-IsSorted xs)

Mem-insert_row :
    (e : Entitlement) (xs : List Entitlement) {a : Entitlement}
    → Memᴰ a (insert_row e xs)
    → (a ≡ e) ⊎ Memᴰ a xs
unfolding insert_row
Mem-insert_row e [] m = Mem-cons m
Mem-insert_row e (x ∷ xs) m = elim (Bool-cases (created_before x e)) [
  | inl q ↦
      let m' = rw (q, insert_row) at m in
      elim (Mem-cons m') [
        | inl same ↦ inr (Memᴰ.head same)
        | inr n ↦ elim (Mem-insert_row e xs n) [ inl same ↦ inl same | inr n' ↦ inr (Memᴰ.tail n') ]
      ]
  | inr q ↦ let m' = rw (q, insert_row) at m in Mem-cons m'
]

pub Mem-sort_rows : (xs : List Entitlement) {a : Entitlement} → Memᴰ a (sort_rows xs) → Memᴰ a xs
unfolding sort_rows
Mem-sort_rows [] m = m
Mem-sort_rows (x ∷ xs) m = elim (Mem-insert_row x (sort_rows xs) m) [
  | inl same ↦ Memᴰ.head same
  | inr n ↦ Memᴰ.tail (Mem-sort_rows xs n)
]

-- In a sorted list, nothing that passes stands before the first that does.
pub find_where-first :
    (p : Entitlement → Bool) (xs : List Entitlement) {a : Entitlement}
    → IsSorted xs
    → find_where p xs ≡ some a
    → all (λ x. not (p x && created_before x a)) xs ≡ true
find_where-first p [] sorted h = refl
find_where-first p (x ∷ xs) {a} (first, sorted) h = elim (Bool-cases (p x)) [
  | inl e ↦
      let h' = rw e at h in
      let same : x ≡ a = cc in
      let rest =
        all_mono (λ y. not (created_before y x)) (λ y. not (p y && created_before y x)) xs
          (λ y g. ground (arith, g)) first in
      subst (λ b. all (λ y. not (p y && created_before y b)) (x ∷ xs) ≡ true) same
        (rw (created_before_irrefl x) (ground (arith, rest)))
  | inr e ↦ let h' = rw e at h in rw e (find_where-first p xs sorted h')
]
