-- ===== src/Access/Models.antt =====
-- internal/inference/access/entitlement.go: the lists of models that `dedupeModels` and `equalModelSets` make
-- and compare.
use yunhou_users.Common.{
  arith, not, ℕ, suc, ◌-◌, ◌≡◌, ◌≤◌, refl, sym, ap, ◌∙◌, true, false, List, [], ◌∷◌, length, eqb,
  eqb→eq, eqb_refl, if◌then◌else◌, Bool-cases, inl, inr, ◌==◌,
}
use yunhou_users.Access.{
  Text, has_text, dedupe_from, dedupe_models, count_text, one_less, within_counts, equal_model_sets,
}

-- No text of a list is in `seen` or earlier in the list.
abbrev IsFresh : List Text → List Text → Type 0
IsFresh seen [] = Unit
IsFresh seen (x ∷ xs) = (has_text x seen ≡ false) × IsFresh (x ∷ seen) xs

dedupe_from-IsFresh : (seen xs : List Text) → IsFresh seen (dedupe_from seen xs)
unfolding dedupe_from
dedupe_from-IsFresh seen [] = tt
dedupe_from-IsFresh seen (x ∷ xs) = elim (Bool-cases (has_text x seen)) [
  | inl e ↦ rw (e, dedupe_from) (dedupe_from-IsFresh seen xs)
  | inr e ↦ rw (e, dedupe_from) (e, dedupe_from-IsFresh (x ∷ seen) xs)
]

dedupe_from_id : (seen xs : List Text) → IsFresh seen xs → dedupe_from seen xs ≡ xs
unfolding dedupe_from
dedupe_from_id seen [] fresh = refl
dedupe_from_id seen (x ∷ xs) (new, fresh) =
    rw (new, dedupe_from) (ap (λ ys. x ∷ ys) (dedupe_from_id (x ∷ seen) xs fresh))

pub dedupe_models_idempotent :
    (xs : List Text) → dedupe_models (dedupe_models xs) ≡ dedupe_models xs
dedupe_models_idempotent xs = dedupe_from_id [] (dedupe_from [] xs) (dedupe_from-IsFresh [] xs)

-- Every text is seen often enough for the loop to reach the end.
within_counts-true :
    (seen : Text → ℕ) (xs : List Text)
    → ((x : Text) → count_text x xs ≤ seen x)
    → within_counts seen xs ≡ true
unfolding within_counts count_text
within_counts-true seen [] enough = refl
within_counts-true seen (x ∷ xs) enough = elim (Bool-cases (seen x == 0)) [
  | inl e ↦
      let first = enough x in
      let first' = rw (eqb_refl x, count_text) at first in ground (arith, e, first')
  | inr e ↦
      rw (e, within_counts)
        (within_counts-true (one_less x seen) xs (λ y. let h = enough y in ground (arith, e, h)))
]

pub equal_model_sets_refl : (xs : List Text) → equal_model_sets xs xs ≡ true
unfolding equal_model_sets
equal_model_sets_refl xs =
    let h = within_counts-true (λ x. count_text x xs) xs (λ x. omega arith) in ground (arith, h)

-- A list without its first copy of a text.
abbrev delete : Text → List Text → List Text
delete x [] = []
delete x (y ∷ ys) = let rest = delete x ys in if eqb x y then ys else y ∷ rest

length-delete :
    (x : Text) (ys : List Text) (n : ℕ)
    → count_text x ys ≡ suc n
    → length ys ≡ suc (length (delete x ys))
unfolding count_text
length-delete x [] n seen = omega (arith, seen)
length-delete x (y ∷ ys) n seen = elim (Bool-cases (eqb x y)) [
  | inl e ↦ rw (e, delete) refl
  | inr e ↦
      let seen' = rw (e, count_text) at seen in rw (e, delete) (ap suc (length-delete x ys n seen'))
]

count_text-delete :
    (z x : Text) (ys : List Text) (n : ℕ)
    → count_text x ys ≡ suc n
    → one_less x (λ w. count_text w ys) z ≡ count_text z (delete x ys)
unfolding count_text
count_text-delete z x [] n seen = omega (arith, seen)
count_text-delete z x (y ∷ ys) n seen = elim (Bool-cases (eqb x y)) [
  | inl e ↦
      rw (e, delete)
        (rw (sym (eqb→eq x y e)) (elim (Bool-cases (eqb z x)) [
          | inl q ↦ rw (q, one_less, count_text) (omega arith)
          | inr q ↦ rw (q, one_less, count_text) refl
        ]))
  | inr e ↦
      let seen' = rw (e, count_text) at seen in
      let rest = count_text-delete z x ys n seen' in
      rw (e, delete)
        (elim (Bool-cases (eqb z x)) [
          | inl q ↦
              let fresh : eqb z y ≡ false = rw (eqb→eq z x q) e in
              let rest' = rw (q, one_less) at rest in rw (q, fresh, one_less, count_text) rest'
          | inr q ↦
              let rest' = rw (q, one_less) at rest in
              rw (q, one_less, count_text) (ap (λ m. if eqb z y then suc m else m) rest')
        ])
]

counts_agree :
    (seen : Text → ℕ) (a b : List Text)
    → ((x : Text) → seen x ≡ count_text x a)
    → length a ≡ length b
    → within_counts seen b ≡ true
    → (x : Text) → count_text x a ≡ count_text x b
unfolding within_counts count_text
counts_agree seen [] [] same long passed x = refl
counts_agree seen (y ∷ a) [] same long passed x = omega (arith, long)
counts_agree seen a (y ∷ b) same long passed x = elim (Bool-cases (seen y == 0)) [
  | inl e ↦ let passed' = rw (e, within_counts) at passed in cc
  | inr e ↦
      let passed' = rw (e, within_counts) at passed in
      let n = count_text y a - 1 in
      let seen_y = same y in
      let counted : count_text y a ≡ suc n = ground (arith, e, seen_y) in
      let cut = length-delete y a n counted in
      let rest =
        counts_agree (one_less y seen) (delete y a) b
          (λ z. ap (λ m. if eqb z y then m - 1 else m) (same z) ∙ count_text-delete z y a n counted)
          (omega (arith, long, cut)) passed' x in
      let less_x = count_text-delete x y a n counted in
      elim (Bool-cases (eqb x y)) [
        | inl q ↦
            let less' = rw (q, one_less) at less_x in
            let counted' : count_text x a ≡ suc n = rw (eqb→eq x y q) counted in
            rw (q, count_text) (omega (arith, rest, less', counted'))
        | inr q ↦ let less' = rw (q, one_less) at less_x in rw (q, count_text) (less' ∙ rest)
      ]
]

has_text_count : (x : Text) (a : List Text) → has_text x a ≡ not (count_text x a == 0)
unfolding count_text
has_text_count x [] = refl
has_text_count x (y ∷ ys) = elim (Bool-cases (eqb x y)) [
  | inl e ↦ rw (e, count_text) (ground arith)
  | inr e ↦ rw (e, count_text) (has_text_count x ys)
]

count_text-has_text :
    (x : Text) (a b : List Text) → count_text x a ≡ count_text x b → has_text x a ≡ has_text x b
count_text-has_text x a b same =
    has_text_count x a ∙ ap (λ n. not (n == 0)) same ∙ sym (has_text_count x b)

pub equal_model_sets-has_text :
    (a b : List Text) → equal_model_sets a b ≡ true → (x : Text) → has_text x a ≡ has_text x b
unfolding equal_model_sets
equal_model_sets-has_text a b equal x = count_text-has_text x a b (
    counts_agree (λ y. count_text y a) a b (λ y. refl) (ground (arith, equal))
      (ground (arith, equal)) x)

-- Dropping the copies keeps what a list has.
dedupe_from-has_text :
    (x : Text) (seen ys : List Text)
    → has_text x seen ≡ false
    → has_text x (dedupe_from seen ys) ≡ has_text x ys
unfolding dedupe_from
dedupe_from-has_text x seen [] new = refl
dedupe_from-has_text x seen (y ∷ ys) new = elim (Bool-cases (has_text y seen)) [
  | inl e ↦
      let other : eqb x y ≡ false = elim (Bool-cases (eqb x y)) [
        | inl q ↦ let new' = rw (eqb→eq x y q) at new in cc
        | inr q ↦ q
      ] in
      rw (e, dedupe_from, other) (dedupe_from-has_text x seen ys new)
  | inr e ↦ elim (Bool-cases (eqb x y)) [
    | inl q ↦ rw (e, dedupe_from, q) refl
    | inr q ↦ rw (e, dedupe_from, q) (dedupe_from-has_text x (y ∷ seen) ys (rw q new))
  ]
]
