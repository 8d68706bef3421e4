-- ===== src/Store/Quota/Outcomes.antt =====
-- internal/inference/postgres: every transaction keeps the tables consistent, and rewrites no request that
-- is settled or released.
use mathlib.Core.Path.{subst}
use yunhou_users.Common.{
  ℕ, ◌≡◌, refl, ◌∙◌, Bool, true, false, not, ◌&&◌, ◌||◌, Option, none, some, if◌then◌else◌, ◌==◌,
}
use yunhou_users.Domain.Errors.{ok, >>=-eq-ok, >>-eq-ok, ok_injective, fail_if, fail_if-eq-ok}
use yunhou_users.Domain.Usage.{QuotaWindow}
use yunhou_users.Store.Table.{or_error-eq-ok, any, map_where, find_where, update_row, or_error}
use yunhou_users.Store.Quota.{Request, Db, held_on, is_held, names, lock_account, load_held}
use yunhou_users.Store.Quota.Release.{
  is_final, no_rows, is_untouched, void_unused, void_if, five_hour_window, resolve_job, releasable,
  release_all, release,
}
use yunhou_users.Store.Quota.Loops.{IsConsistent}
use yunhou_users.Store.Quota.Converted.{release_all_keeps}
use yunhou_users.Store.Quota.Consistency.{
  loop_starts, Quiet, same-IsConsistent, map_where-BalancedBy,
}
use yunhou_users.Store.Quota.Frames.{IsRewrite, is_closed, update_request_status-IsRewrite}

-- The tables are consistent and the requests are those of `db`.
abbrev pub Keeps : Db → Db → Type 0
Keeps db next = IsConsistent next × (next.requests ≡ db.requests)

pub Quiet-Keeps : (db mid next : Db) → Quiet mid next → Keeps db mid → Keeps db next
Quiet-Keeps db mid next q (c, r) =
    (same-IsConsistent mid next q.windows q.reservations c, q.requests ∙ r)

voided-Keeps :
    (kept : Bool) (p : QuotaWindow → Bool) (db : Db)
    → IsConsistent db
    → Keeps db (
        if kept
        then db
        else record db { windows = map_where p (λ v. record v { voided = true }) db.windows })
voided-Keeps true p db c = (c, refl)
voided-Keeps false p db c = (
  record {
    balanced =
        map_where-BalancedBy (held_on db.reservations) p (λ v. record v { voided = true })
          db.windows (λ w. refl) (λ w. refl) c.balanced;
    distinct = c.distinct;
    sound = c.sound;
  },
  refl,
)

void_if-Keeps :
    (o : Option ℕ) (db : Db) {next : Db} → void_if o db ≡ ok next → IsConsistent db → Keeps db next
unfolding void_unused
void_if-Keeps none db e c = subst (Keeps db) (ok_injective e) (c, refl)
void_if-Keeps (some window) db e c =
    let (w, _, e1) = >>=-eq-ok (or_error (find_where (λ v. v.id == window) db.windows) _) _ e in
    subst (Keeps db) (ok_injective e1) (
      voided-Keeps
        (not (is_untouched w)
          || any (λ r. names r.window_id window && is_held r.state) db.reservations)
        (λ v. v.id == window && is_untouched v) db c)

resolve_job-Quiet : (b : Bool) (request_id : ℕ) (db : Db) → Quiet db (resolve_job b request_id db)
resolve_job-Quiet false request_id db = record {
  windows = refl;
  reservations = refl;
  requests = refl;
}
resolve_job-Quiet true request_id db = record {
  windows = refl;
  reservations = refl;
  requests = refl;
}

-- A request that is not final is rewritten.
abbrev pub Rewrites : ℕ → Db → Db → Type 0
Rewrites id db next =
    (req : Request) × (find_where (λ r. r.id == id) db.requests ≡ some req)
    × (is_final req.status ≡ false)
    × ((p : Request → Bool) × (f : Request → Request) × ((r : Request)
          → ((f r).id ≡ r.id) × (is_closed (f r).status ≡ true))
        × (update_row (λ r. r.id == id) p f db.requests ≡ some next.requests))

pub rewritten :
    (id : ℕ) (db mid : Db) {next : Db} (req : Request)
    → find_where (λ r. r.id == id) db.requests ≡ some req
    → is_final req.status ≡ false
    → Keeps db mid
    → IsRewrite id mid next
    → IsConsistent next × Rewrites id db next
rewritten id db mid {next} req found unsettled (c, frame)
      (windows, reservations, (p, f, keeps, u)) =
    (
      same-IsConsistent mid next windows reservations c,
      (
        req,
        found,
        unsettled,
        (
          p,
          f,
          keeps,
          subst (λ rs. update_row (λ r. r.id == id) p f rs ≡ some next.requests) frame u,
        ),
      ),
    )

or_false : (a b : Bool) → a || b ≡ false → a ≡ false
or_false true b h = cc
or_false false b h = refl

pub release_keeps :
    (flag : Bool) (id : ℕ) (db : Db) {next : Db}
    → release flag id db ≡ ok next
    → IsConsistent db
    → IsConsistent next × Rewrites id db next
unfolding release
release_keeps flag id db e c =
    let (req, found, e1) = >>=-eq-ok (or_error (find_where (λ r. r.id == id) db.requests) _) _ e in
    let (_, e2) = >>-eq-ok (lock_account req.billing_account_id db) _ e1 in
    let (unsettled, e3) = >>-eq-ok (releasable flag req.status) _ e2 in
    let rows = load_held id db.reservations in
    let (_, e4) = >>-eq-ok (fail_if (no_rows rows) _) _ e3 in
    let (db1, q1, e5) = >>=-eq-ok (release_all id rows db) _ e4 in
    let (db2, q2, e6) = >>=-eq-ok (void_if (five_hour_window rows) db1) _ e5 in
    let loop = release_all_keeps id db.requests rows db q1 (loop_starts id db c) in
    let (c2, r2) = void_if-Keeps (five_hour_window rows) db1 q2 loop.consistent in
    rewritten id db (resolve_job flag id db2) req (or_error-eq-ok _ _ found)
      (or_false _ _ (fail_if-eq-ok _ _ unsettled))
      (Quiet-Keeps db db2 _ (resolve_job-Quiet flag id db2) (c2, r2 ∙ loop.frame))
      (update_request_status-IsRewrite id (resolve_job flag id db2) e6)
