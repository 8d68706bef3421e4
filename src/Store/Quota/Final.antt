-- ===== src/Store/Quota/Final.antt =====
-- internal/inference/postgres: a request that is settled or released stays so, under all interleavings.
use mathlib.Core.Path.{subst}
use yunhou_users.Common.{
  ℕ, ◌≡◌, ◌≢◌, refl, sym, ap, ◌∙◌, Bool, true, false, not, Option, none, some, List, [], ◌∷◌,
  if◌then◌else◌, ◌==◌, All, arith, ==_iff, Bool-cases, inl, inr,
}
use yunhou_users.Domain.Errors.{Time, ok}
use yunhou_users.Domain.Usage.{RequestStatus}
use yunhou_users.Store.Table.{any, find_where, update_row, update_row-cons}
use yunhou_users.Store.Quota.{Request, JobReason, Db}
use yunhou_users.Store.Quota.Release.{is_final, update_request_status, release}
use yunhou_users.Store.Quota.Ledger.{SettleCommand}
use yunhou_users.Store.Quota.Settle.{settle}
use yunhou_users.Store.Quota.Mark.{mark_reconciliation_required, after_mark, parked_row}
use yunhou_users.Store.Quota.Loops.{IsConsistent}
use yunhou_users.Store.Quota.Admission.{reserve_keeps}
use yunhou_users.Store.Quota.Outcomes.{Rewrites, release_keeps}
use yunhou_users.Store.Quota.Activated.{activate_windows_keeps}
use yunhou_users.Store.Wallet.Outcomes.{set_overage-Idle}
use yunhou_users.Store.Wallet.Admission.{Applies-Quiet, reserve_wallet_keeps}
use yunhou_users.Store.Quota.Settled.{settle_keeps}
use yunhou_users.Store.Quota.Steps.{
  Step, marks_status, is_ongoing, IsOrderlyStep, IsOrderly, update_request_status_ok, reserves,
  releases, settles, activates, marks, reserves_wallet, applies_to_wallet, sets_wallet, Reach, here,
  then_step, request_with, found_rewritten, eq_false_of_not, mark_keeps, Reach-IsConsistent,
}

pub find_rewritten :
    (i j : ℕ) (p : Request → Bool) (f : Request → Request) (rs : List Request) {next : List Request}
    → ((r : Request) → (f r).id ≡ r.id)
    → update_row (λ r. r.id == j) p f rs ≡ some next
    → i ≢ j
    → find_where (λ r. r.id == i) next ≡ find_where (λ r. r.id == i) rs
unfolding update_row
find_rewritten i j p f [] keeps u off = cc
find_rewritten i j p f (r ∷ rs) keeps u off = elim (update_row-cons (λ r. r.id == j) p f r rs u) [
  | inl (k, q, t) ↦
      let no : (r.id == i) ≡ false = ground (arith, k, off) in
      let no' : ((f r).id == i) ≡ false = rw (keeps r) no in
      ap (find_where (λ r. r.id == i)) t
      ∙ ap (λ b. if b then some (f r) else find_where (λ s. s.id == i) rs) no'
      ∙ sym (ap (λ b. if b then some r else find_where (λ s. s.id == i) rs) no)
  | inr (zs, k, u', t) ↦
      ap (find_where (λ r. r.id == i)) t
      ∙ ap (λ o. if r.id == i then some r else o) (find_rewritten i j p f rs keeps u' off)
]

final_clash :
    (db : Db) (i j : ℕ) (r req : Request)
    → i ≡ j
    → request_with i db ≡ some r
    → request_with j db ≡ some req
    → is_final r.status ≡ true
    → is_final req.status ≡ false
    → ⊥
final_clash db i j r req same at found final unsettled =
    let moved = ap (λ k. find_where (λ q. q.id == k) db.requests) same in cc

pub find_fresh :
    (id : ℕ) (rs : List Request) → All (λ q. q.id ≢ id) rs → find_where (λ q. q.id == id) rs ≡ none
find_fresh id [] fresh = refl
find_fresh id (q ∷ rs) (off, fresh) = ground (arith, off, find_fresh id rs fresh)

Rewrites-final :
    (i j : ℕ) (db next : Db) (r : Request)
    → Rewrites j db next
    → request_with i db ≡ some r
    → is_final r.status ≡ true
    → request_with i next ≡ some r
Rewrites-final i j db next r (req, found, unsettled, (p, f, keeps, u)) at final =
    find_rewritten i j p f db.requests (λ q. (keeps q).0) u
      (λ same. final_clash db i j r req same at found final unsettled)
    ∙ at

-- A mark of an ongoing row leaves the finished ones as they are.
mark-final :
    (i id : ℕ) (status : RequestStatus) (db next : Db) (r : Request)
    → update_request_status id status db ≡ ok next
    → is_ongoing (request_with id db) ≡ true
    → request_with i db ≡ some r
    → is_final r.status ≡ true
    → request_with i next ≡ some r
mark-final i id status db next r e ongoing at final =
    find_rewritten i id _ _ db.requests (λ q. refl) (update_request_status_ok id status db e).1
      (λ same.
        let at' : request_with id db ≡ some r = subst (λ k. request_with k db ≡ some r) same at in
        let ongoing' = rw (at', final) at ongoing in cc)
    ∙ at

fresh-final :
    (i id : ℕ) (row : Request) (rs : List Request) (r : Request)
    → row.id ≡ id
    → All (λ q. q.id ≢ id) rs
    → find_where (λ q. q.id == i) rs ≡ some r
    → find_where (λ q. q.id == i) (row ∷ rs) ≡ some r
fresh-final i id row rs r is_row fresh at = elim (Bool-cases (row.id == i)) [
  | inl k ↦
      let same : i ≡ id = sym ((==_iff row.id i).0 k) ∙ is_row in
      let gone = find_fresh id rs fresh in
      let moved = ap (λ j. find_where (λ q. q.id == j) rs) same in cc
  | inr k ↦ ap (λ b. if b then some row else find_where (λ q. q.id == i) rs) k ∙ at
]

Step-final :
    (i : ℕ) (db next : Db) (r : Request)
    → (step : Step db next) → IsOrderlyStep step
    → IsConsistent db
    → request_with i db ≡ some r
    → is_final r.status ≡ true
    → request_with i next ≡ some r
Step-final i db next r (reserves uuid others cmd e) o c at final =
    let admitted = (reserve_keeps uuid others cmd db e c).1 in
    ap (find_where (λ q. q.id == i)) admitted.requests
    ∙ fresh-final i cmd.request.id admitted.row db.requests r admitted.is_row admitted.fresh at
Step-final i db next r (releases flag id e) o c at final =
    Rewrites-final i id db next r (release_keeps flag id db e c).1 at final
Step-final i db next r (settles cmd e) o c at final =
    Rewrites-final i cmd.request_id db next r (settle_keeps cmd db e c).1 at final
Step-final i db next r (reserves_wallet uuid others cmd e) o c at final =
    let admitted = (reserve_wallet_keeps uuid others cmd db e c).1 in
    ap (find_where (λ q. q.id == i)) admitted.requests
    ∙ fresh-final i cmd.request.id admitted.row db.requests r admitted.is_row admitted.fresh at
Step-final i db next r (applies_to_wallet key a) o c at final =
    ap (find_where (λ q. q.id == i)) (Applies-Quiet key db next a).requests ∙ at
Step-final i db next r (sets_wallet uuid account currency new by row e) o c at final =
    ap (find_where (λ q. q.id == i))
      (set_overage-Idle uuid account currency new by db e).quiet.requests
    ∙ at
Step-final i db next r (activates uuid others cmd out unnamed e) o c at final =
    ap (find_where (λ q. q.id == i)) (activate_windows_keeps uuid others cmd db e unnamed c).1 ∙ at
Step-final i db next r (marks_status id status e) (ongoing, _) c at final =
    mark-final i id status db next r e ongoing at final
Step-final i db next r (marks id reason deadline e) o c at final =
    elim (mark_keeps id reason deadline db e c).1 [
      | inl same ↦ subst (λ t. request_with i t ≡ some r) same at
      | inr rewrites ↦ Rewrites-final i id db next r rewrites at final
    ]

Reach-final :
    (i : ℕ) (db : Db) {last : Db} (r : Request)
    → (steps : Reach db last) → IsOrderly steps
    → IsConsistent db
    → request_with i db ≡ some r
    → is_final r.status ≡ true
    → request_with i last ≡ some r
Reach-final i db r here o c at final = at
Reach-final i db r (then_step {mid} {last} steps step) (os, o) c at final =
    Step-final i mid last r step o (Reach-IsConsistent db steps c)
      (Reach-final i db r steps os c at final) final

find_any :
    (id : ℕ) (rs : List Request) {r : Request}
    → find_where (λ q. q.id == id) rs ≡ some r
    → any (λ q. q.id == id) rs ≡ true
find_any id [] at = cc
find_any id (q ∷ rs) {r} at = ground (arith, find_any id rs {r = r})

after_mark_final :
    (id : ℕ) (reason : JobReason) (deadline : Time) (db : Db) (o : Option (List Request))
    (r : Request)
    → update_row (λ r. r.id == id) (λ r. not (is_final r.status)) parked_row db.requests ≡ o
    → request_with id db ≡ some r
    → is_final r.status ≡ true
    → after_mark id reason deadline db o ≡ ok db
after_mark_final id reason deadline db none r u at final = rw (find_any id db.requests at) refl
after_mark_final id reason deadline db (some requests) r u at final =
    let (req, found, q) = found_rewritten id _ parked_row db.requests u in
    absurd (final_clash db id id r req refl at found final (eq_false_of_not _ q))

-- A settlement and a release happen at most once, where the marks of the dispatch are orderly: each sets a status
-- that is neither settled, released nor parked on a request whose status is none of these. Then, from consistent
-- tables, a request that is settled or released keeps its row as it is however activations, admissions, releases,
-- settlements, parkings, such marks and wallet transactions interleave; no settlement and no release of it succeeds
-- any more, and a parking of it changes nothing. `UpdateRequestStatus` itself does not guard its mark, and
-- `CorrectSettlement`, which only tests call, is not among the transactions.
pub final_once :
    (id : ℕ) (cmd : SettleCommand) (flag : Bool) (reason : JobReason) (deadline : Time) (db : Db)
    {last a b : Db} (r : Request)
    → (steps : Reach db last) → IsOrderly steps
    → IsConsistent db
    → request_with id db ≡ some r
    → is_final r.status ≡ true
    → cmd.request_id ≡ id
    → (request_with id last ≡ some r)
      × (settle cmd last ≢ ok a)
      × (release flag id last ≢ ok b)
      × (mark_reconciliation_required id reason deadline last ≡ ok last)
unfolding mark_reconciliation_required
final_once id cmd flag reason deadline db {last} {a} {b} r steps o c at final same =
    let c' = Reach-IsConsistent db steps c in
    let at' = Reach-final id db r steps o c at final in
    (
      at',
      (λ e.
          let (req, found, unsettled, _) = (settle_keeps cmd last e c').1 in
          final_clash last id cmd.request_id r req (sym same) at' found final unsettled),
      (λ e.
          let (req, found, unsettled, _) = (release_keeps flag id last e c').1 in
          final_clash last id id r req refl at' found final unsettled),
      after_mark_final id reason deadline last _ r refl at' final,
    )
