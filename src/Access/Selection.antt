-- ===== src/Access/Selection.antt =====
-- internal/inference/access/entitlement.go: `SelectEntitlement`, the one entitlement that governs a call.
use yunhou_users.Common.{
  Bool, true, false, not, ◌&&◌, ◌||◌, Option, none, some, List, [], ◌∷◌, keep, ltb, ◌==◌,
  if◌then◌else◌,
}
use yunhou_users.Domain.Errors.{Time, Code, new_error, Result, ok, err}
use yunhou_users.Store.Table.{find_where}
use yunhou_users.Access.{Text, EntitlementSource, Entitlement, is_active, entitlement_allows}

-- `to == nil || t.Before(to)`
abbrev before_end : Option Time → Time → Bool
before_end none t = true
before_end (some to) t = ltb t to

-- What passes the three guards of the loop.
unfoldable pub usable_at : Time → Entitlement → Bool
usable_at t e = is_active e.status && not (ltb t e.effective_from) && before_end e.effective_to t

-- The slices that the loop fills.
pub data Class : Type 0 where
  explicit gifts payg : Class

abbrev pub class_of : EntitlementSource → Class
class_of EntitlementSource.grant = gifts
class_of EntitlementSource.payg = payg
class_of _ = explicit

abbrev pub class_eqb : Class → Class → Bool
class_eqb explicit explicit = true
class_eqb gifts gifts = true
class_eqb payg payg = true
class_eqb _ _ = false

abbrev pub belongs : Time → Class → Entitlement → Bool
belongs t c e = usable_at t e && class_eqb (class_of e.source_type) c

unfoldable pub class_rows : Time → Class → List Entitlement → List Entitlement
unfolding usable_at
class_rows t c ents = keep (belongs t c) ents

-- The order of strings.
unfoldable pub ltb_text : Text → Text → Bool
ltb_text xs [] = false
ltb_text [] (y ∷ ys) = true
ltb_text (x ∷ xs) (y ∷ ys) = ltb x y || x == y && ltb_text xs ys

-- The comparison of the sort: the creation, then the identifier.
unfoldable pub created_before : Entitlement → Entitlement → Bool
unfolding ltb_text
created_before a b =
    if a.created_at == b.created_at then ltb_text a.id b.id else ltb a.created_at b.created_at

-- A stable sort: what comes first stays before its equals.
unfoldable pub insert_row : Entitlement → List Entitlement → List Entitlement
unfolding created_before
insert_row e [] = e ∷ []
insert_row e (x ∷ xs) =
    let rest = insert_row e xs in if created_before x e then x ∷ rest else e ∷ x ∷ xs

unfoldable pub sort_rows : List Entitlement → List Entitlement
unfolding insert_row
sort_rows [] = []
sort_rows (x ∷ xs) = insert_row x (sort_rows xs)

unfoldable pub grants_model : List Entitlement → Text → Option Entitlement
unfolding sort_rows entitlement_allows
grants_model pool model = find_where (λ e. entitlement_allows e model) (sort_rows pool)

-- `if len(pool) == 0 { pool = gifts }`
abbrev pub or_else : List Entitlement → List Entitlement → List Entitlement
or_else [] fallback = fallback
or_else (x ∷ xs) fallback = x ∷ xs

-- The winner of a class, or what the rest of the function returns.
abbrev pub winner_or : Option Entitlement → Result Entitlement → Result Entitlement
winner_or none rest = rest
winner_or (some e) rest = ok e

unfoldable pub select_entitlement : List Entitlement → Text → Time → Result Entitlement
unfolding class_rows grants_model
select_entitlement ents model t =
    let pool = or_else (class_rows t explicit ents) (class_rows t gifts ents) in
    winner_or (grants_model pool model) (
      winner_or (grants_model (class_rows t payg ents) model)
        (err (new_error Code.model_not_allowed)))
