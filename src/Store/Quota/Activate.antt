-- ===== src/Store/Quota/Activate.antt =====
-- internal/inference/postgres/quota_repo.go: `ActivateWindowsTx`, the first consumption of a window, and
-- `LoadWindows`. A conflict of the insertion keeps its code behind `activationConflict`.
use yunhou_users.Common.{
  ℕ, suc, Bool, true, false, not, ◌&&◌, ◌||◌, Option, none, some, List, [], ◌∷◌, ◌++◌, ℤ, pos, keep,
  ltb, leb, leb_ℤ, if◌then◌else◌, ◌==◌,
}
use yunhou_users.Domain.Errors.{Time, WindowKind, Code, Result, ok, ◌>>=◌, ◌>>◌, fail_if}
use yunhou_users.Domain.Usage.{QuotaWindow, window_order}
use yunhou_users.Quota.Window.{Interval, kind_eqb, find_window, consumption_window}
use yunhou_users.Store.Table.{any, db_error}
use yunhou_users.Store.Quota.{Db, lock_account}

-- The limits are the entries of the map.
pub record ActivateWindowsCommand : Type 0 where
  pub billing_account_id : ℕ
  pub entitlement_id : ℕ
  pub anchor : Time
  pub at : Time
  pub limits : List (WindowKind × ℤ)

abbrev pub limit_of : WindowKind → List (WindowKind × ℤ) → Option ℤ
limit_of kind [] = none
limit_of kind ((k, limit) ∷ ls) =
    let rest = limit_of kind ls in if kind_eqb k kind then some limit else rest

-- ORDER BY kind, by the texts of the kinds.
abbrev kind_rank : WindowKind → ℕ
kind_rank WindowKind.five_hour = 0
kind_rank WindowKind.monthly = 1
kind_rank WindowKind.weekly = 2
kind_rank WindowKind.unknown_kind = 3

abbrev insert_by_kind : QuotaWindow → List QuotaWindow → List QuotaWindow
insert_by_kind w [] = w ∷ []
insert_by_kind w (v ∷ vs) =
    let rest = insert_by_kind w vs in
    if leb (kind_rank w.kind) (kind_rank v.kind) then w ∷ v ∷ vs else v ∷ rest

unfoldable pub order_by_kind : List QuotaWindow → List QuotaWindow
order_by_kind [] = []
order_by_kind (w ∷ ws) = insert_by_kind w (order_by_kind ws)

-- The active windows of a subject.
unfoldable pub active_windows : ℕ → List QuotaWindow → List QuotaWindow
unfolding order_by_kind
active_windows entitlement_id ws =
    order_by_kind (keep (λ w. w.entitlement_id == entitlement_id && not w.voided) ws)

abbrev or_all : List WindowKind → List WindowKind
or_all [] = window_order
or_all (k ∷ ks) = k ∷ ks

-- `LoadWindows`; no kinds stand for all of them.
unfoldable pub load_windows : ℕ → List WindowKind → List QuotaWindow → List QuotaWindow
unfolding active_windows
load_windows entitlement_id kinds ws =
    keep (λ w. any (λ k. kind_eqb k w.kind) (or_all kinds)) (active_windows entitlement_id ws)

-- An active window of the same subject and kind that shares an instant.
abbrev pub overlaps : QuotaWindow → QuotaWindow → Bool
overlaps new w =
    w.entitlement_id == new.entitlement_id
    && kind_eqb w.kind new.kind
    && not w.voided
    && not new.voided
    && ltb w.start new.end
    && ltb new.start w.end

abbrev pub same_start : QuotaWindow → QuotaWindow → Bool
same_start new w =
    w.entitlement_id == new.entitlement_id && kind_eqb w.kind new.kind && w.start == new.start

abbrev is_kind : WindowKind → Bool
is_kind WindowKind.unknown_kind = false
is_kind _ = true

-- The CHECKs of the columns.
abbrev pub fits : QuotaWindow → Bool
fits w =
    is_kind w.kind
    && leb_ℤ (pos 0) w.limit
    && leb_ℤ (pos 0) w.used
    && leb_ℤ (pos 0) w.reserved_micros
    && ltb w.start w.end

-- `insertQuotaWindow`: the CHECKs, the primary key, UNIQUE (entitlement_id, kind, window_start) and the
-- EXCLUDE constraint; the first argument is the answer of the reference to the entitlement.
unfoldable pub insert_quota_window :
    Result (Unit {0}) → QuotaWindow → List QuotaWindow → Result (List QuotaWindow)
insert_quota_window others w ws = do
  fail_if (not (fits w)) (db_error Code.invalid_input)
  fail_if (any (λ v. v.id == w.id) ws) (db_error Code.conflict)
  fail_if (any (same_start w) ws || any (overlaps w) ws) (db_error Code.conflict)
  others
  ok (w ∷ ws)

-- The table, the variables `active` and `out`, and the number of the next identifier.
pub record Activation : Type 0 where
  pub table : List QuotaWindow
  pub active : List QuotaWindow
  pub out : List QuotaWindow
  pub next : ℕ

abbrev pub new_window : ActivateWindowsCommand → ℕ → WindowKind → Interval → ℤ → QuotaWindow
new_window cmd id kind iv limit = record {
  id = id;
  entitlement_id = cmd.entitlement_id;
  kind = kind;
  start = iv.start;
  end = iv.end;
  limit = limit;
  used = pos 0;
  reserved_micros = pos 0;
  voided = false;
}

abbrev to_list : Option QuotaWindow → List QuotaWindow
to_list none = []
to_list (some w) = w ∷ []

abbrev pub insert_new : Result (Unit {0}) → QuotaWindow → Activation → Result Activation
insert_new others w s = do
  table ← insert_quota_window others w s.table
  ok (record {
    table = table;
    active = s.active ++ (w ∷ []);
    out = s.out ++ (w ∷ []);
    next = suc s.next;
  })

abbrev pub bind :
    (ℕ → ℕ)
    → Result (Unit {0})
    → ActivateWindowsCommand
    → WindowKind
    → ℤ
    → Activation
    → Interval
    → Bool
    → Result Activation
bind uuid others cmd kind limit s iv true =
    insert_new others (new_window cmd (uuid s.next) kind iv limit) s
bind uuid others cmd kind limit s iv false =
    ok (record s { out = s.out ++ to_list (find_window s.active kind cmd.at) })

abbrev pub resolve_limit :
    (ℕ → ℕ)
    → Result (Unit {0})
    → ActivateWindowsCommand
    → WindowKind
    → Option ℤ
    → Activation
    → Result Activation
resolve_limit uuid others cmd kind none s = ok s
resolve_limit uuid others cmd kind (some limit) s = do
  (iv, activate) ← consumption_window kind cmd.anchor s.active cmd.at
  bind uuid others cmd kind limit s iv activate

-- The loop over the kinds in the fixed order.
unfoldable pub resolve_kinds :
    (ℕ → ℕ)
    → Result (Unit {0})
    → ActivateWindowsCommand
    → List WindowKind
    → Activation
    → Result Activation
unfolding insert_quota_window find_window consumption_window
resolve_kinds uuid others cmd [] s = ok s
resolve_kinds uuid others cmd (kind ∷ kinds) s =
    resolve_limit uuid others cmd kind (limit_of kind cmd.limits) s
    >>= resolve_kinds uuid others cmd kinds

abbrev pub opening : ActivateWindowsCommand → Db → Activation
opening cmd db = record {
  table = db.windows;
  active = active_windows cmd.entitlement_id db.windows;
  out = [];
  next = 0;
}

-- `ActivateWindowsTx`: the database, and the windows in the fixed order.
unfoldable pub activate_windows :
    (ℕ → ℕ) → Result (Unit {0}) → ActivateWindowsCommand → Db → Result (Db × List QuotaWindow)
unfolding lock_account active_windows resolve_kinds
activate_windows uuid others cmd db = do
  lock_account cmd.billing_account_id db
  s ← resolve_kinds uuid others cmd window_order (opening cmd db)
  ok (record db { windows = s.table }, s.out)
