-- ===== src/Accounting/Pricing/Resolve.antt =====
-- internal/inference/accounting/pricing.go: `ResolvePrice` picks the highest revision in effect.
use mathlib.Core.List.{Memᴰ}
use mathlib.Core.Path.{subst}
use yunhou_users.Common.{
  ◌≡◌, refl, sym, ◌∙◌, ◌⊎◌, inl, inr, true, Option, none, some, List, [], ◌∷◌, ◌≤ℤ◌, arith, All,
  if◌then◌else◌, not, ◌||◌,
}
use yunhou_users.Domain.Errors.{Time, Sentinel, sentinel, Result, ok, err}
use yunhou_users.Accounting.Pricing.{
  PriceKind, PriceVersion, effective_at, price_kind_eqb, best_from, resolve_price, replaces,
  or_unpriced,
}

-- A version of the kind, in effect at the instant.
abbrev pub Applies : PriceKind → Time → PriceVersion → Type 0
Applies kind t v = (price_kind_eqb v.kind kind ≡ true) × (effective_at v t ≡ true)

abbrev AtMost : Option PriceVersion → Option PriceVersion → Type 0
AtMost none o = Unit
AtMost (some a) (some b) = a.revision ≤ℤ b.revision
AtMost (some a) none = ⊥

AtMost-trans : (a b c : Option PriceVersion) → AtMost a b → AtMost b c → AtMost a c
AtMost-trans none b c h g = tt
AtMost-trans (some a) (some b) (some c) h g = omega arith
AtMost-trans (some a) none c h g = absurd h
AtMost-trans (some a) (some b) none h g = absurd g

-- One round of the loop.
abbrev next_best : Option PriceVersion → PriceVersion → PriceKind → Time → Option PriceVersion
next_best best v kind t =
    if not (price_kind_eqb v.kind kind) || not (effective_at v t)
    then best
    else if replaces v best
    then some v
    else best

next_best-grows :
    (best : Option PriceVersion) (v : PriceVersion) (kind : PriceKind) (t : Time)
    → AtMost best (next_best best v kind t)
next_best-grows none v kind t = tt
next_best-grows (some b) v kind t = ground arith

next_best-covers :
    (best : Option PriceVersion) (v : PriceVersion) (kind : PriceKind) (t : Time)
    → Applies kind t v
    → AtMost (some v) (next_best best v kind t)
next_best-covers none v kind t h = ground arith
next_best-covers (some b) v kind t h = ground arith

next_best-source :
    (best : Option PriceVersion) (v : PriceVersion) (kind : PriceKind) (t : Time)
    → (next_best best v kind t ≡ best) ⊎ ((next_best best v kind t ≡ some v) × Applies kind t v)
next_best-source none v kind t = ground arith
next_best-source (some b) v kind t = ground arith

best_from-grows :
    (best : Option PriceVersion) (vs : List PriceVersion) (kind : PriceKind) (t : Time)
    → AtMost best (best_from best vs kind t)
unfolding best_from
best_from-grows none [] kind t = tt
best_from-grows (some b) [] kind t = omega arith
best_from-grows best (v ∷ vs) kind t =
    AtMost-trans best (next_best best v kind t) (best_from (next_best best v kind t) vs kind t)
      (next_best-grows best v kind t) (best_from-grows (next_best best v kind t) vs kind t)

best_from-covers :
    (best : Option PriceVersion) (vs : List PriceVersion) (kind : PriceKind) (t : Time)
    → All (λ v. Applies kind t v → AtMost (some v) (best_from best vs kind t)) vs
unfolding best_from
best_from-covers best [] kind t = tt
best_from-covers best (v ∷ vs) kind t =
    let b = next_best best v kind t in
    (
      λ h.
          AtMost-trans (some v) b (best_from b vs kind t) (next_best-covers best v kind t h)
            (best_from-grows b vs kind t),
      best_from-covers b vs kind t,
    )

best_from-source :
    (best : Option PriceVersion) (vs : List PriceVersion) (kind : PriceKind) (t : Time)
    {r : PriceVersion}
    → best_from best vs kind t ≡ some r
    → (best ≡ some r) ⊎ (Memᴰ r vs × Applies kind t r)
unfolding best_from
best_from-source best [] kind t h = inl h
best_from-source best (v ∷ vs) kind t {r} h =
    elim (best_from-source (next_best best v kind t) vs kind t h) [
      | inr (m, a) ↦ inr (Memᴰ.tail m, a)
      | inl e ↦ elim (next_best-source best v kind t) [
        | inl same ↦ inl (sym same ∙ e)
        | inr (new, a) ↦ let q : v ≡ r = cc in inr (Memᴰ.head (sym q), subst (Applies kind t) q a)
      ]
    ]

-- The outcome of a search among the versions that apply.
abbrev pub IsResolved : List PriceVersion → PriceKind → Time → Result PriceVersion → Type 0
IsResolved vs kind t (ok b) =
    Memᴰ b vs × Applies kind t b × All (λ v. Applies kind t v → v.revision ≤ℤ b.revision) vs
IsResolved vs kind t (err e) = (e ≡ sentinel Sentinel.unpriced) × All (λ v. ¬ (Applies kind t v)) vs

resolved :
    (vs : List PriceVersion) (kind : PriceKind) (t : Time) (o : Option PriceVersion)
    → best_from none vs kind t ≡ o
    → IsResolved vs kind t (or_unpriced o)
resolved vs kind t none e = (refl, rw e at (best_from-covers none vs kind t))
resolved vs kind t (some b) e = elim (best_from-source none vs kind t e) [
  | inl absent ↦ cc
  | inr (m, a) ↦ (m, a, rw e at (best_from-covers none vs kind t))
]

-- A resolved price is one of the versions, is of the kind and in effect at the instant, and no
-- version that applies has a higher revision; the search fails, as unpriced, only where no version
-- applies.
pub resolve_price-IsResolved :
    (vs : List PriceVersion) (kind : PriceKind) (t : Time)
    → IsResolved vs kind t (resolve_price vs kind t)
unfolding resolve_price
resolve_price-IsResolved vs kind t = resolved vs kind t (best_from none vs kind t) refl
