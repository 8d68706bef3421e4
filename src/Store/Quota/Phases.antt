-- ===== src/Store/Quota/Phases.antt =====
-- internal/inference/postgres: the transactions implement the life cycle of a request.
use mathlib.Core.Path.{subst}
use yunhou_users.Common.{
  ℕ, ◌≡◌, ◌≢◌, sym, ap, ◌∙◌, Bool, true, false, Option, none, some, List, [], ◌∷◌, if◌then◌else◌,
  ◌==◌, ◌||◌, refl, All, arith, ==_iff, Bool-cases, inl, inr,
}
use yunhou_users.Domain.Usage.{RequestStatus}
use yunhou_users.Store.Table.{find_where, update_row, update_row-cons}
use yunhou_users.Store.Quota.{Request, Db}
use yunhou_users.Store.Quota.Release.{is_final, is_parked, update_request_status}
use yunhou_users.Domain.Errors.{ok}
use yunhou_users.Store.Quota.Loops.{IsConsistent}
use yunhou_users.Store.Quota.Admission.{reserve_keeps}
use yunhou_users.Store.Quota.Frames.{is_closed}
use yunhou_users.Store.Quota.Outcomes.{Rewrites, release_keeps}
use yunhou_users.Store.Quota.Activated.{activate_windows_keeps}
use yunhou_users.Store.Wallet.Outcomes.{set_overage-Idle}
use yunhou_users.Store.Wallet.Admission.{Applies-Quiet, reserve_wallet_keeps}
use yunhou_users.Store.Quota.Settled.{settle_keeps}
use yunhou_users.Store.Quota.Steps.{
  Step, marks_status, is_ongoing, IsOrderlyStep, IsOrderly, update_request_status_ok,
  found_rewritten, eq_false_of_not, reserves, releases, settles, activates, marks, reserves_wallet,
  applies_to_wallet, sets_wallet, Reach, here, then_step, request_with, mark_keeps,
  Reach-IsConsistent,
}
use yunhou_users.Store.Quota.Final.{find_rewritten, find_fresh}

pub data Phase : Type 0 where
  absent active parked finished : Phase

-- The life cycle: a request is admitted, may be parked, and is finished for good.
pub data Moves : Phase → Phase → Type 0 where
  stays : {a : Phase} → Moves a a
  admits : Moves Phase.absent Phase.active
  parks : Moves Phase.active Phase.parked
  finishes : Moves Phase.active Phase.finished
  recovers : Moves Phase.parked Phase.finished

pub data Lives (a : Phase) : Phase → Type 0 where
  born : Lives a a
  then_moves : {b c : Phase} → Lives a b → Moves b c → Lives a c

abbrev phase_of_status : RequestStatus → Phase
phase_of_status status =
    if is_final status
    then Phase.finished
    else if is_parked status
    then Phase.parked
    else Phase.active

abbrev phase_of_row : Option Request → Phase
phase_of_row none = Phase.absent
phase_of_row (some r) = phase_of_status r.status

unfoldable pub phase : ℕ → Db → Phase
phase id db = phase_of_row (request_with id db)

closing :
    (s t : RequestStatus)
    → is_final s ≡ false
    → is_closed t ≡ true
    → Moves (phase_of_status s) (phase_of_status t)
closing s t unsettled closed = elim (Bool-cases (is_final t)) [
  | inl f ↦ elim (Bool-cases (is_parked s)) [
    | inl p ↦ rw (unsettled, f, p) Moves.recovers
    | inr p ↦ rw (unsettled, f, p) Moves.finishes
  ]
  | inr f ↦
      let q : is_parked t ≡ true = rw f at closed in
      elim (Bool-cases (is_parked s)) [
        | inl p ↦ rw (unsettled, f, p, q) Moves.stays
        | inr p ↦ rw (unsettled, f, p, q) Moves.parks
      ]
]

some_eq : {a b : Request} → some a ≡ some b → a ≡ b
some_eq e = cc

find_moved :
    (j : ℕ) (p : Request → Bool) (f : Request → Request) (rs : List Request) {next : List Request}
    {req : Request}
    → ((r : Request) → (f r).id ≡ r.id)
    → update_row (λ r. r.id == j) p f rs ≡ some next
    → find_where (λ r. r.id == j) rs ≡ some req
    → find_where (λ r. r.id == j) next ≡ some (f req)
unfolding update_row
find_moved j p f [] keeps u found = cc
find_moved j p f (r ∷ rs) {next} {req} keeps u found =
    elim (update_row-cons (λ r. r.id == j) p f r rs u) [
      | inl (k, q, t) ↦
          let here_ = rw k at found in
          let key : ((f r).id == j) ≡ true = rw (keeps r) k in
          ap (find_where (λ r. r.id == j)) t
          ∙ ap (λ b. if b then some (f r) else find_where (λ s. s.id == j) rs) key
          ∙ ap (λ x. some (f x)) (some_eq here_)
      | inr (zs, k, u', t) ↦
          let found' : find_where (λ r. r.id == j) rs ≡ some req = rw k at found in
          ap (find_where (λ r. r.id == j)) t
          ∙ ap (λ b. if b then some r else find_where (λ s. s.id == j) zs) k
          ∙ find_moved j p f rs keeps u' found'
    ]

Rewrites-Moves : (i j : ℕ) (db next : Db) → Rewrites j db next → Moves (phase i db) (phase i next)
unfolding phase
Rewrites-Moves i j db next (req, found, unsettled, (p, f, closes, u)) = elim (Bool-cases (i == j)) [
  | inl k ↦
      let same = (==_iff i j).0 k in
      subst (λ m. Moves (phase_of_row (request_with m db)) (phase_of_row (request_with m next)))
        (sym same)
        (rw (found, find_moved j p f db.requests (λ r. (closes r).0) u found)
          (closing req.status (f req).status unsettled (closes req).1))
  | inr k ↦
      rw
        (find_rewritten i j p f db.requests (λ r. (closes r).0) u (λ same. ground (arith, same, k)))
        Moves.stays
]

admission :
    (i id : ℕ) (row : Request) (db : Db)
    → row.id ≡ id
    → row.status ≡ RequestStatus.reserved
    → All (λ q. q.id ≢ id) db.requests
    → Moves (phase i db) (phase_of_row (find_where (λ r. r.id == i) (row ∷ db.requests)))
unfolding phase
admission i id row db is_row is_reserved fresh = elim (Bool-cases (row.id == i)) [
  | inl k ↦
      let same : i ≡ id = sym ((==_iff row.id i).0 k) ∙ is_row in
      let gone =
        find_fresh i db.requests (subst (λ m. All (λ q. q.id ≢ m) db.requests) (sym same) fresh) in
      rw (k, gone)
        (subst (λ s. Moves Phase.absent (phase_of_status s)) (sym is_reserved) Moves.admits)
  | inr k ↦ rw k Moves.stays
]

stays_with :
    (i : ℕ) (db next : Db) → next.requests ≡ db.requests → Moves (phase i db) (phase i next)
unfolding phase
stays_with i db next t =
    subst (λ rs. Moves (phase i db) (phase_of_row (find_where (λ r. r.id == i) rs))) (sym t)
      Moves.stays

ongoing-phase :
    (s : RequestStatus) → is_final s || is_parked s ≡ false → phase_of_status s ≡ Phase.active
ongoing-phase s h = elim (Bool-cases (is_final s)) [
  | inl f ↦ let h' = rw f at h in cc
  | inr f ↦ let h' = rw f at h in rw (f, h') refl
]

-- A mark of an ongoing row leaves it active.
mark-Moves :
    (i id : ℕ) (status : RequestStatus) (db next : Db)
    → update_request_status id status db ≡ ok next
    → is_ongoing (request_with id db) ≡ true
    → is_final status || is_parked status ≡ false
    → Moves (phase i db) (phase i next)
unfolding phase
mark-Moves i id status db next e ongoing open_status =
    let u = (update_request_status_ok id status db e).1 in
    let (req, found, _) = found_rewritten id _ _ db.requests u in
    elim (Bool-cases (i == id)) [
      | inl k ↦
          let same = (==_iff i id).0 k in
          let was : is_final req.status || is_parked req.status ≡ false =
            eq_false_of_not _ (rw found at ongoing) in
          subst (λ m. Moves (phase_of_row (request_with m db)) (phase_of_row (request_with m next)))
            (sym same)
            (rw
              (
                found,
                find_moved id _ _ db.requests (λ q. refl) u found,
                ongoing-phase req.status was,
                ongoing-phase status open_status,
              )
              Moves.stays)
      | inr k ↦
          rw (find_rewritten i id _ _ db.requests (λ q. refl) u (λ same. ground (arith, same, k)))
            Moves.stays
    ]

-- One committed transaction.
pub Step-refines :
    (i : ℕ) (db next : Db) (step : Step db next)
    → IsOrderlyStep step
    → IsConsistent db
    → Moves (phase i db) (phase i next)
unfolding phase
Step-refines i db next (reserves uuid others cmd e) o c =
    let admitted = (reserve_keeps uuid others cmd db e c).1 in
    subst (λ rs. Moves (phase i db) (phase_of_row (find_where (λ r. r.id == i) rs)))
      (sym admitted.requests)
      (admission i cmd.request.id admitted.row db admitted.is_row admitted.is_reserved
        admitted.fresh)
Step-refines i db next (releases flag id e) o c =
    Rewrites-Moves i id db next (release_keeps flag id db e c).1
Step-refines i db next (settles cmd e) o c =
    Rewrites-Moves i cmd.request_id db next (settle_keeps cmd db e c).1
Step-refines i db next (reserves_wallet uuid others cmd e) o c =
    let admitted = (reserve_wallet_keeps uuid others cmd db e c).1 in
    subst (λ rs. Moves (phase i db) (phase_of_row (find_where (λ r. r.id == i) rs)))
      (sym admitted.requests)
      (admission i cmd.request.id admitted.row db admitted.is_row admitted.is_reserved
        admitted.fresh)
Step-refines i db next (applies_to_wallet key a) o c =
    stays_with i db next (Applies-Quiet key db next a).requests
Step-refines i db next (sets_wallet uuid account currency new by row e) o c =
    stays_with i db next (set_overage-Idle uuid account currency new by db e).quiet.requests
Step-refines i db next (activates uuid others cmd out unnamed e) o c =
    stays_with i db next (activate_windows_keeps uuid others cmd db e unnamed c).1
Step-refines i db next (marks_status id status e) (ongoing, open_status) c =
    mark-Moves i id status db next e ongoing open_status
Step-refines i db next (marks id reason deadline e) o c =
    elim (mark_keeps id reason deadline db e c).1 [
      | inl same ↦ subst (λ t. Moves (phase i db) (phase i t)) same Moves.stays
      | inr rewrites ↦ Rewrites-Moves i id db next rewrites
    ]

-- The transactions implement the life cycle, where the marks of the dispatch are orderly: each sets a status that is
-- neither settled, released nor parked on a request whose status is none of these. Then, however activations,
-- admissions, releases, settlements, parkings, such marks and wallet transactions interleave, from consistent tables
-- the phase of every request moves by moves of the life cycle alone. A request is admitted when there is none
-- with its identifier, may be parked while it is active, is finished (settled or released) from either phase, and
-- never leaves that phase. `UpdateRequestStatus` itself does not guard its mark, and `CorrectSettlement`, which
-- only tests call, is not among the transactions.
pub Reach-refines :
    (i : ℕ) (db : Db) {last : Db}
    → (steps : Reach db last) → IsOrderly steps
    → IsConsistent db
    → Lives (phase i db) (phase i last)
Reach-refines i db here o c = Lives.born
Reach-refines i db (then_step {mid} {last} steps step) (os, o) c =
    Lives.then_moves (Reach-refines i db steps os c)
      (Step-refines i mid last step o (Reach-IsConsistent db steps c))
