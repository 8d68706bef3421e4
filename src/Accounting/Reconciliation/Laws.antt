-- ===== src/Accounting/Reconciliation/Laws.antt =====
-- internal/inference/accounting/reconciliation.go: the rebuilt aggregate is the signed sum of the facts,
-- and the reported windows are those whose aggregates differ.
use mathlib.Core.Path.{subst}
use yunhou_users.Common.{
  ◌≡◌, ◌↔◌, refl, Bool, true, false, not, List, [], ◌∷◌, ◌++◌, keep, All, sym, ◌∙◌, ap, ℤ, pos,
  ◌+ℤ◌, ◌-ℤ◌, ◌≤ℤ◌, IsInt64, eqb_ℤ, wrap64, max_int64, add64, sub64, add64_exact, sub64_exact,
  int_laws, arith,
}
use yunhou_users.Domain.Errors.{ok, ◌>>=◌, >>=-eq-ok, ok_injective}
use yunhou_users.Domain.Usage.{LedgerEntryType}
use yunhou_users.Accounting.Settlement.{CorrectionDirection, correction_delta}
use yunhou_users.Accounting.Settlement.Laws.{IsCorrection, correction_delta-IsCorrection}
use yunhou_users.Accounting.Reconciliation.{
  FactDirection, LedgerFact, apply_fact, rebuild_from, rebuild_used_micros, WindowReconciliation,
  diff, mismatches,
}

-- What a fact adds to the used aggregate.
abbrev signed_by : FactDirection → ℤ → ℤ
signed_by FactDirection.debit a = a
signed_by FactDirection.credit a = pos 0 -ℤ a
signed_by FactDirection.no_direction a = pos 0

abbrev signed : LedgerEntryType → FactDirection → ℤ → ℤ
signed LedgerEntryType.charge d a = a
signed LedgerEntryType.reversal d a = pos 0 -ℤ a
signed LedgerEntryType.adjustment d a = signed_by d a
signed LedgerEntryType.unknown_type d a = pos 0

abbrev pub signed_amount : LedgerFact → ℤ
signed_amount f = signed f.type f.direction f.amount_micros

-- The signed sum of the facts, on top of a total.
abbrev pub signed_sum : ℤ → List LedgerFact → ℤ
signed_sum total [] = total
signed_sum total (f ∷ fs) = signed_sum (total +ℤ signed_amount f) fs

-- Every running total is an int64.
abbrev pub Fits : ℤ → List LedgerFact → Type 0
Fits total [] = Unit
Fits total (f ∷ fs) = IsInt64 (total +ℤ signed_amount f) × Fits (total +ℤ signed_amount f) fs

-- A fact that the ledger can hold: an amount, a known type, and a direction where one is needed.
abbrev directed : FactDirection → Bool
directed FactDirection.no_direction = false
directed _ = true

abbrev typed : LedgerEntryType → FactDirection → Bool
typed LedgerEntryType.unknown_type d = false
typed LedgerEntryType.adjustment d = directed d
typed _ d = true

abbrev pub IsFact : LedgerFact → Type 0
IsFact f = (pos 0 ≤ℤ f.amount_micros) × (typed f.type f.direction ≡ true)

exact_sums :
    (total a : ℤ)
    → (IsInt64 (total +ℤ a) → add64 total a ≡ total +ℤ a)
      × (IsInt64 (total +ℤ (pos 0 -ℤ a)) → sub64 total a ≡ total +ℤ (pos 0 -ℤ a))
exact_sums total a =
    let same : total -ℤ a ≡ total +ℤ (pos 0 -ℤ a) = omega int_laws in
    (add64_exact total a, λ h. sub64_exact total a (rw same h) ∙ same)

apply_fact_exact :
    (total : ℤ) (f : LedgerFact)
    → IsInt64 (total +ℤ signed_amount f)
    → IsFact f
    → apply_fact total f ≡ ok (total +ℤ signed_amount f)
unfolding apply_fact
apply_fact_exact total f h (nn, t) =
    let sums = exact_sums total f.amount_micros in ground (arith, sums.0, sums.1)

apply_fact_ok : (total : ℤ) (f : LedgerFact) {z : ℤ} → apply_fact total f ≡ ok z → IsFact f
unfolding apply_fact
apply_fact_ok total f h = (ground arith, ground arith)

rebuild_from_exact :
    (total : ℤ) (facts : List LedgerFact)
    → Fits total facts
    → All IsFact facts
    → rebuild_from total facts ≡ ok (signed_sum total facts)
unfolding rebuild_from
rebuild_from_exact total [] fits facts = refl
rebuild_from_exact total (f ∷ fs) (fit, fits) (fact, facts) =
    rw (apply_fact_exact total f fit fact)
      (rebuild_from_exact (total +ℤ signed_amount f) fs fits facts)

rebuild_from_facts :
    (total : ℤ) (facts : List LedgerFact) {z : ℤ}
    → rebuild_from total facts ≡ ok z
    → All IsFact facts
unfolding rebuild_from
rebuild_from_facts total [] h = tt
rebuild_from_facts total (f ∷ fs) h =
    let (t, e, rest) = >>=-eq-ok (apply_fact total f) (λ t. rebuild_from t fs) h in
    (apply_fact_ok total f e, rebuild_from_facts t fs rest)

-- Where every running total is an int64, the rebuild gives an amount exactly when every fact has an
-- amount that is not negative, a known type, and a direction if it is an adjustment; and then the
-- amount is the signed sum of the facts.
pub rebuild_used_micros_iff :
    (facts : List LedgerFact) (z : ℤ)
    → Fits (pos 0) facts
    → (rebuild_used_micros facts ≡ ok z) ↔ (All IsFact facts × (z ≡ signed_sum (pos 0) facts))
unfolding rebuild_used_micros
rebuild_used_micros_iff facts z fits = (
  λ h.
      let each = rebuild_from_facts (pos 0) facts h in
      (each, ok_injective (sym h ∙ rebuild_from_exact (pos 0) facts fits each)),
  λ r. rebuild_from_exact (pos 0) facts fits r.0 ∙ ap ok (sym r.1),
)

rebuild_from-append :
    (total : ℤ) (facts : List LedgerFact) (f : LedgerFact) {mid : ℤ}
    → rebuild_from total facts ≡ ok mid
    → rebuild_from total (facts ++ (f ∷ [])) ≡ (apply_fact mid f >>= λ t. ok t)
unfolding rebuild_from
rebuild_from-append total [] f h = rw (ok_injective h) refl
rebuild_from-append total (g ∷ gs) f h =
    let (t, e, rest) = >>=-eq-ok (apply_fact total g) (λ t. rebuild_from t gs) h in
    rw e (rebuild_from-append t gs f rest)

abbrev pub fact_direction : CorrectionDirection → FactDirection
fact_direction CorrectionDirection.debit = FactDirection.debit
fact_direction CorrectionDirection.credit = FactDirection.credit

-- The adjustment that records a correction.
abbrev pub correction_fact : CorrectionDirection → ℤ → LedgerFact
correction_fact d delta = record {
  type = LedgerEntryType.adjustment;
  amount_micros = delta;
  direction = fact_direction d;
}

apply_correction :
    (original corrected delta : ℤ) (d : CorrectionDirection)
    → pos 0 ≤ℤ corrected
    → corrected ≤ℤ pos max_int64
    → IsCorrection original corrected (ok (d, delta))
    → apply_fact original (correction_fact d delta) ≡ ok corrected
unfolding apply_fact
apply_correction original corrected delta CorrectionDirection.debit h g (_, p, e) =
    let s = add64_exact original delta (subst IsInt64 (sym e) (omega arith)) ∙ e in
    ground (arith, s)
apply_correction original corrected delta CorrectionDirection.credit h g (_, p, e) =
    let s = sub64_exact original delta (subst IsInt64 (sym e) (omega arith)) ∙ e in
    ground (arith, s)

correction-nonneg :
    (original corrected : ℤ) (d : CorrectionDirection) (delta : ℤ)
    → IsCorrection original corrected (ok (d, delta))
    → pos 0 ≤ℤ corrected
correction-nonneg original corrected CorrectionDirection.debit delta h = h.0
correction-nonneg original corrected CorrectionDirection.credit delta h = h.0

-- Where the ledger rebuilds to an original amount that is not negative, a correction that is
-- appended to it as an adjustment makes the rebuilt aggregate the corrected amount, whatever facts
-- the ledger holds already.
pub rebuild_used_micros-correction_delta :
    (facts : List LedgerFact) (original corrected : ℤ) {d : CorrectionDirection} {delta : ℤ}
    → rebuild_used_micros facts ≡ ok original
    → pos 0 ≤ℤ original
    → original ≤ℤ pos max_int64
    → corrected ≤ℤ pos max_int64
    → correction_delta original corrected ≡ ok (d, delta)
    → rebuild_used_micros (facts ++ (correction_fact d delta ∷ [])) ≡ ok corrected
unfolding rebuild_used_micros
rebuild_used_micros-correction_delta facts original corrected {d} {delta} r h1 h2 h3 e =
    let c : IsCorrection original corrected (ok (d, delta)) =
      subst (IsCorrection original corrected) e
        (correction_delta-IsCorrection original corrected h1 h2 h3) in
    let a =
      apply_correction original corrected delta d (correction-nonneg original corrected d delta c)
        h3 c in
    rebuild_from-append (pos 0) facts (correction_fact d delta) r ∙ ap (λ m. m >>= λ t. ok t) a

-- The two aggregates of a row differ.
abbrev pub differs : WindowReconciliation → Bool
differs r = not (eqb_ℤ r.stored_used r.rebuilt_used)

diff-differs :
    (r : WindowReconciliation)
    → IsInt64 r.stored_used × IsInt64 r.rebuilt_used
    → not (eqb_ℤ (diff r) (pos 0)) ≡ differs r
unfolding diff sub64 wrap64 ◌-ℤ◌
diff-differs r h = ground arith

-- The reported windows are those whose stored and rebuilt aggregates differ, in order: the
-- wrap-around of the difference hides no row of int64 aggregates.
pub mismatches-keep :
    (rows : List WindowReconciliation)
    → All (λ r. IsInt64 r.stored_used × IsInt64 r.rebuilt_used) rows
    → mismatches rows ≡ keep differs rows
unfolding mismatches
mismatches-keep [] h = refl
mismatches-keep (r ∷ rs) (h, hs) = rw (diff-differs r h, mismatches-keep rs hs) refl
