-- ===== src/Store/Table.antt =====
-- internal/inference/postgres: a table as the list of its rows, and what the statements do to it. An UPDATE
-- rewrites the rows that its WHERE clause selects; RETURNING and RowsAffected tell whether there was one.
-- An expression past the range of BIGINT is an error of the database, which has no code.
use mathlib.Core.Path.{subst}
use yunhou_users.Common.{
  sym, ◌⊎◌, ◌≡◌, Bool, true, false, ◌||◌, ◌&&◌, Option, none, some, List, [], ◌∷◌, ℤ, pos, leb_ℤ,
  min_int64, max_int64, if◌then◌else◌, All, Bool-cases, Option-cases, inl, inr,
}
use yunhou_users.Domain.Errors.{Code, Sentinel, Error, sentinel, wrap_error, Result, ok, err}

abbrev pub any {ℓ} : {A : Type ℓ} → (A → Bool) → List A → Bool
any p [] = false
any p (x ∷ xs) = p x || any p xs

abbrev pub map_where {ℓ} : {A : Type ℓ} → (A → Bool) → (A → A) → List A → List A
map_where p f [] = []
map_where p f (x ∷ xs) = (if p x then f x else x) ∷ map_where p f xs

-- UPDATE; none if no row was selected.
abbrev pub update_where {ℓ} : {A : Type ℓ} → (A → Bool) → (A → A) → List A → Option (List A)
update_where p f xs = if any p xs then some (map_where p f xs) else none

-- The first row that passes, for a SELECT by a key.
abbrev pub find_where {ℓ} : {A : Type ℓ} → (A → Bool) → List A → Option A
find_where p [] = none
find_where p (x ∷ xs) = let rest = find_where p xs in if p x then some x else rest

abbrev cons_opt {ℓ} : {A : Type ℓ} → A → Option (List A) → Option (List A)
cons_opt x none = none
cons_opt x (some xs) = some (x ∷ xs)

-- UPDATE ... WHERE the primary key is `key` AND `p`: the one row with the key; none if it is not selected.
unfoldable pub update_row {ℓ} :
    {A : Type ℓ} → (A → Bool) → (A → Bool) → (A → A) → List A → Option (List A)
update_row key p f [] = none
update_row key p f (x ∷ xs) =
    let rest = cons_opt x (update_row key p f xs) in
    if key x then (if p x then some (f x ∷ xs) else none) else rest

-- What `mapError` makes of an error of the database.
abbrev pub db_error : Code → Error
db_error c = wrap_error c (sentinel Sentinel.foreign)

abbrev pub or_error {ℓ} : {A : Type ℓ} → Option A → Error → Result A
or_error none e = err e
or_error (some a) e = ok a

abbrev pub is_bigint : ℤ → Bool
is_bigint z = leb_ℤ min_int64 z && leb_ℤ z (pos max_int64)

-- A statement whose expressions leave the range of BIGINT fails.
abbrev pub in_range {ℓ} : {A : Type ℓ} → Bool → Result A → Result A
in_range fits r = if fits then r else err (sentinel Sentinel.foreign)

pub map_where-All {ℓ κ} :
    {A : Type ℓ} (P Q : A → Type κ) (p : A → Bool) (f : A → A) (xs : List A)
    → ((x : A) → P x → p x ≡ true → Q (f x))
    → ((x : A) → P x → p x ≡ false → Q x)
    → All P xs
    → All Q (map_where p f xs)
map_where-All P Q p f [] yes_case no_case h = tt
map_where-All P Q p f (x ∷ xs) yes_case no_case (h, hs) =
    let rest = map_where-All P Q p f xs yes_case no_case hs in
    elim (Bool-cases (p x)) [
      | inl e ↦ rw e (yes_case x h e, rest)
      | inr e ↦ rw e (no_case x h e, rest)
    ]

-- The row with the key comes first, or an update of the rest.
pub update_row-cons {ℓ} :
    {A : Type ℓ} (key p : A → Bool) (f : A → A) (x : A) (xs : List A) {ys : List A}
    → update_row key p f (x ∷ xs) ≡ some ys
    → ((key x ≡ true) × (p x ≡ true) × (ys ≡ f x ∷ xs))
      ⊎ ((zs : List A) × (key x ≡ false) × (update_row key p f xs ≡ some zs) × (ys ≡ x ∷ zs))
unfolding update_row
update_row-cons key p f x xs {ys} h = elim (Bool-cases (key x)) [
  | inl k ↦ elim (Bool-cases (p x)) [
    | inl q ↦ let h' = rw (k, q) at h in inl (k, q, cc)
    | inr q ↦ let h' = rw (k, q) at h in cc
  ]
  | inr k ↦ elim (Option-cases (update_row key p f xs)) [
    | inl e ↦ let h' = rw (k, e) at h in cc
    | inr (zs, e) ↦ let h' = rw (k, e) at h in inr (zs, k, e, cc)
  ]
]

pub update_row-All {ℓ κ} :
    {A : Type ℓ} (P : A → Type κ) (key p : A → Bool) (f : A → A) (xs : List A) {ys : List A}
    → update_row key p f xs ≡ some ys
    → ((x : A) → key x ≡ true → p x ≡ true → P x → P (f x))
    → All P xs
    → All P ys
unfolding update_row
update_row-All P key p f [] h keeps all_P = cc
update_row-All P key p f (x ∷ xs) {ys} h keeps (px, pxs) = elim (update_row-cons key p f x xs h) [
  | inl (k, q, e) ↦ subst (All P) (sym e) (keeps x k q px, pxs)
  | inr (zs, k, h', e) ↦ subst (All P) (sym e) (px, update_row-All P key p f xs h' keeps pxs)
]

pub or_error-eq-ok {ℓ} :
    {A : Type ℓ} {a : A} (o : Option A) (e : _) → or_error o e ≡ ok a → o ≡ some a
or_error-eq-ok none e h = cc
or_error-eq-ok (some a) e h = cc

pub find_where-true {ℓ} :
    {A : Type ℓ} (p : A → Bool) (xs : List A) {a : A} → find_where p xs ≡ some a → p a ≡ true
find_where-true p [] h = cc
find_where-true p (x ∷ xs) {a} h = elim (Bool-cases (p x)) [
  | inl e ↦ let h' = rw e at h in let same : x ≡ a = cc in subst (λ y. p y ≡ true) same e
  | inr e ↦ let h' = rw e at h in find_where-true p xs h'
]
