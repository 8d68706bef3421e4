-- ===== src/Store/Quota/Steps.antt =====
-- internal/inference/postgres: the interleavings of the quota transactions. The row locks, taken in a fixed
-- order, make a transaction that commits one step; one that fails is rolled back. The steps are the
-- activation of windows, admissions against windows and Keys or against a wallet, releases, settlements,
-- parkings, the marks of the dispatch, and the postings and settings of wallets. `CorrectSettlement` is not
-- among them: nothing in the repository calls it.
use mathlib.Core.Path.{subst}
use yunhou_users.Common.{
  ℕ, ◌≡◌, refl, ap, ◌∙◌, ◌⊎◌, Bool, true, false, not, Option, none, some, List, [], ◌∷◌,
  if◌then◌else◌, ◌==◌, ◌||◌, All, Bool-cases, inl, inr,
}
use yunhou_users.Domain.Errors.{Time, Code, Result, ok, >>-eq-ok, >>=-eq-ok, ok_injective, fail_if}
use yunhou_users.Store.Table.{
  any, find_where, update_row, update_row-cons, or_error, or_error-eq-ok, db_error,
}
use yunhou_users.Domain.Usage.{QuotaWindow, RequestStatus}
use yunhou_users.Store.Quota.{Request, JobReason, Db, names}
use yunhou_users.Store.Quota.Reserve.{ReserveCommand, reserve}
use yunhou_users.Store.Quota.Release.{is_final, is_parked, update_request_status, release}
use yunhou_users.Store.Quota.Ledger.{SettleCommand}
use yunhou_users.Store.Quota.Settle.{settle}
use yunhou_users.Store.Quota.Mark.{
  mark_reconciliation_required, after_mark, enqueue_job, parked_row, is_reason,
}
use yunhou_users.Store.Quota.Loops.{IsConsistent}
use yunhou_users.Store.Quota.Admission.{reserve_keeps}
use yunhou_users.Store.Quota.Consistency.{same-IsConsistent}
use yunhou_users.Store.Quota.Outcomes.{Rewrites, release_keeps}
use yunhou_users.Store.Quota.Activate.{ActivateWindowsCommand, activate_windows}
use yunhou_users.Store.Quota.Activated.{activate_windows_keeps}
use yunhou_users.Accounting.Overage.{OverageSettings}
use yunhou_users.Store.Wallet.{BusinessKey, WalletRow}
use yunhou_users.Store.Wallet.Settings.{set_overage}
use yunhou_users.Store.Wallet.Freeze.{ReserveWalletCommand, reserve_wallet}
use yunhou_users.Store.Wallet.Outcomes.{set_overage-Idle}
use yunhou_users.Store.Wallet.Steps.{Applies}
use yunhou_users.Store.Wallet.Admission.{Applies-Quiet, reserve_wallet_keeps}
use yunhou_users.Store.Quota.Settled.{settle_keeps}

pub data Step (db next : Db) : Type 0 where
  reserves :
      (uuid : ℕ → ℕ) (others : Result (Unit {0})) (cmd : ReserveCommand)
      → reserve uuid others cmd db ≡ ok next
      → Step db next
  releases :
      (from_reconciliation : Bool) (id : ℕ)
      → release from_reconciliation id db ≡ ok next
      → Step db next
  settles : (cmd : SettleCommand) → settle cmd db ≡ ok next → Step db next
  marks :
      (id : ℕ) (reason : JobReason) (deadline : Time)
      → mark_reconciliation_required id reason deadline db ≡ ok next
      → Step db next
  -- `UpdateRequestStatus`, with any status and at any row.
  marks_status :
      (id : ℕ) (status : RequestStatus)
      → update_request_status id status db ≡ ok next
      → Step db next
  reserves_wallet :
      (uuid : ℕ → ℕ) (others : Result (Unit {0})) (cmd : ReserveWalletCommand)
      → reserve_wallet uuid others cmd db ≡ ok next
      → Step db next
  applies_to_wallet : (key : BusinessKey) → Applies db next key → Step db next
  sets_wallet :
      (uuid account : ℕ) (currency : List ℕ) (new : OverageSettings) (by : ℕ) (row : WalletRow)
      → set_overage uuid account currency new by db ≡ ok (next, row)
      → Step db next
  -- A new identifier is named by no reservation yet, by the reference of the reservations to the windows.
  activates :
      (uuid : ℕ → ℕ) (others : Result (Unit {0})) (cmd : ActivateWindowsCommand)
      (out : List QuotaWindow)
      → ((n : ℕ) → All (λ r. names r.window_id (uuid n) ≡ false) db.reservations)
      → activate_windows uuid others cmd db ≡ ok (next, out)
      → Step db next

pub data Reach (db : Db) : Db → Type 0 where
  here : Reach db db
  then_step : {mid last : Db} → Reach db mid → Step mid last → Reach db last

-- The request with the identifier.
abbrev pub request_with : ℕ → Db → Option Request
request_with id db = find_where (λ r. r.id == id) db.requests

-- A row that is neither settled, released nor parked.
abbrev pub is_ongoing : Option Request → Bool
is_ongoing none = false
is_ongoing (some r) = not (is_final r.status || is_parked r.status)

-- A mark of the dispatch that sets an ongoing status on an ongoing row, or any other step.
abbrev pub IsOrderlyStep : {db next : Db} → Step db next → Type 0
IsOrderlyStep {db} (marks_status id status e) =
    (is_ongoing (request_with id db) ≡ true) × (is_final status || is_parked status ≡ false)
IsOrderlyStep _ = Unit

-- Every mark of the dispatch is orderly.
abbrev pub IsOrderly : {db last : Db} → Reach db last → Type 0
IsOrderly here = Unit
IsOrderly (then_step r step) = IsOrderly r × IsOrderlyStep step

-- The row that is rewritten is the first with the key, and passes the test.
pub found_rewritten :
    (j : ℕ) (p : Request → Bool) (f : Request → Request) (rs : List Request) {next : List Request}
    → update_row (λ r. r.id == j) p f rs ≡ some next
    → (req : Request) × (find_where (λ r. r.id == j) rs ≡ some req) × (p req ≡ true)
unfolding update_row
found_rewritten j p f [] u = cc
found_rewritten j p f (r ∷ rs) u = elim (update_row-cons (λ r. r.id == j) p f r rs u) [
  | inl (k, q, t) ↦ (r, ap (λ b. if b then some r else find_where (λ s. s.id == j) rs) k, q)
  | inr (zs, k, u', t) ↦
      let (req, found, q) = found_rewritten j p f rs u' in
      (req, ap (λ b. if b then some r else find_where (λ s. s.id == j) rs) k ∙ found, q)
]

pub eq_false_of_not : (b : Bool) → not b ≡ true → b ≡ false
eq_false_of_not true h = cc
eq_false_of_not false h = refl

after_mark_keeps :
    (id : ℕ) (reason : JobReason) (deadline : Time) (db : Db) (o : Option (List Request))
    {next : Db}
    → update_row (λ r. r.id == id) (λ r. not (is_final r.status)) parked_row db.requests ≡ o
    → after_mark id reason deadline db o ≡ ok next
    → IsConsistent db
    → IsConsistent next × ((db ≡ next) ⊎ Rewrites id db next)
unfolding enqueue_job
after_mark_keeps id reason deadline db none u e c =
    elim (Bool-cases (any (λ r. r.id == id) db.requests)) [
      | inl q ↦ let same = ok_injective (rw q at e) in (subst IsConsistent same c, inl same)
      | inr q ↦ let e' = rw q at e in cc
    ]
after_mark_keeps id reason deadline db (some requests) u e c =
    let (_, e1) = >>-eq-ok (fail_if (not (is_reason reason)) _) _ e in
    let (req, found, unsettled) = found_rewritten id _ parked_row db.requests u in
    subst (λ t. IsConsistent t × ((db ≡ t) ⊎ Rewrites id db t)) (ok_injective e1)
      (
        same-IsConsistent db _ refl refl c,
        inr (
          req,
          found,
          eq_false_of_not _ unsettled,
          ((λ r. not (is_final r.status)), parked_row, (λ r. (refl, refl)), u),
        ),
      )

-- What a parking did.
pub mark_keeps :
    (id : ℕ) (reason : JobReason) (deadline : Time) (db : Db) {next : Db}
    → mark_reconciliation_required id reason deadline db ≡ ok next
    → IsConsistent db
    → IsConsistent next × ((db ≡ next) ⊎ Rewrites id db next)
unfolding mark_reconciliation_required
mark_keeps id reason deadline db e c = after_mark_keeps id reason deadline db _ refl e c

-- What a mark of the dispatch did.
pub update_request_status_ok :
    (id : ℕ) (status : RequestStatus) (db : Db) {next : Db}
    → update_request_status id status db ≡ ok next
    → ((next.windows ≡ db.windows) × (next.reservations ≡ db.reservations))
      × (update_row (λ r. r.id == id) (λ r. true) (λ r. record r { status = status }) db.requests
          ≡ some next.requests)
unfolding update_request_status
update_request_status_ok id status db {next} e =
    let (requests, u, last) = >>=-eq-ok (or_error _ _) _ e in
    subst
      (λ n.
        ((n.windows ≡ db.windows) × (n.reservations ≡ db.reservations))
        × (update_row (λ r. r.id == id) (λ r. true) (λ r. record r { status = status }) db.requests
            ≡ some n.requests))
      (ok_injective last) ((refl, refl), or_error-eq-ok _ (db_error Code.not_found) u)

Step-IsConsistent : (db next : Db) → Step db next → IsConsistent db → IsConsistent next
Step-IsConsistent db next (reserves uuid others cmd e) c = (reserve_keeps uuid others cmd db e c).0
Step-IsConsistent db next (releases flag id e) c = (release_keeps flag id db e c).0
Step-IsConsistent db next (settles cmd e) c = (settle_keeps cmd db e c).0
Step-IsConsistent db next (reserves_wallet uuid others cmd e) c =
    (reserve_wallet_keeps uuid others cmd db e c).0
Step-IsConsistent db next (applies_to_wallet key a) c =
    let q = Applies-Quiet key db next a in same-IsConsistent db next q.windows q.reservations c
Step-IsConsistent db next (sets_wallet uuid account currency new by row e) c =
    let q = (set_overage-Idle uuid account currency new by db e).quiet in
    same-IsConsistent db next q.windows q.reservations c
Step-IsConsistent db next (activates uuid others cmd out unnamed e) c =
    (activate_windows_keeps uuid others cmd db e unnamed c).0
Step-IsConsistent db next (marks_status id status e) c =
    let (same, _) = update_request_status_ok id status db e in
    same-IsConsistent db next same.0 same.1 c
Step-IsConsistent db next (marks id reason deadline e) c = (mark_keeps id reason deadline db e c).0

-- However activations, admissions, releases, settlements, parkings, marks of the dispatch and wallet
-- transactions interleave, every window has reserved exactly the
-- sum of the amounts that the reservations still hold of it, the identifiers of windows and of reservations
-- stay distinct and every reservation names the one target of its kind, when this was so at the start.
pub Reach-IsConsistent : (db : Db) {last : Db} → Reach db last → IsConsistent db → IsConsistent last
Reach-IsConsistent db here c = c
Reach-IsConsistent db (then_step {mid} {last} r step) c =
    Step-IsConsistent mid last step (Reach-IsConsistent db r c)
