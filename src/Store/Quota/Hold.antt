-- ===== src/Store/Quota/Hold.antt =====
-- internal/inference/postgres/quota_repo.go: the loop of `Reserve` over the holds. One that does not fit is
-- noted, and the loop goes on, so that the refusal names every block and the largest deficit.
use yunhou_users.Common.{
  ℕ, Bool, true, false, not, ◌||◌, ◌&&◌, Option, none, some, List, [], ◌∷◌, ◌++◌, ℤ, pos, ◌+ℤ◌,
  leb_ℤ, ltb_ℤ, sub64, if◌then◌else◌, ◌==◌,
}
use yunhou_users.Domain.Errors.{
  Code, Sentinel, WindowKind, WindowBlock, sentinel, new_error, wrap_error, Result, ok, err, ◌>>=◌,
  ◌>>◌, fail_if,
}
use yunhou_users.Domain.Usage.{QuotaWindow, ReservationTargetKind, HoldSpec}
use yunhou_users.Store.Table.{find_where, update_row, is_bigint, in_range}
use yunhou_users.Store.Quota.{KeyRow}

-- The variables of the loop, and the two tables that it writes.
pub record Holding : Type 0 where
  pub windows : List QuotaWindow
  pub keys : List KeyRow
  pub blocked : List WindowBlock
  pub key_blocked : Bool
  pub deficit : ℤ
  pub reserved_amount : ℤ

-- `windowKindOfTarget`
abbrev pub window_kind_of_target : ReservationTargetKind → WindowKind
window_kind_of_target ReservationTargetKind.window_five_hour = WindowKind.five_hour
window_kind_of_target ReservationTargetKind.window_weekly = WindowKind.weekly
window_kind_of_target ReservationTargetKind.window_monthly = WindowKind.monthly
window_kind_of_target _ = WindowKind.unknown_kind

abbrev max_ℤ : ℤ → ℤ → ℤ
max_ℤ a b = if ltb_ℤ b a then a else b

-- The deficit after a hold of which only `avail` is there.
abbrev pub raise_deficit : ℤ → ℤ → ℤ → ℤ
raise_deficit avail amount deficit =
    if ltb_ℤ avail amount then max_ℤ (sub64 amount avail) deficit else deficit

abbrev pub key_has_room : ℤ → KeyRow → Bool
key_has_room amount k = elim k.budget_limit [
  | none ↦ true
  | some limit ↦ leb_ℤ (k.budget_used +ℤ amount) limit
]

abbrev key_deficit : ℤ → ℤ → Option KeyRow → ℤ
key_deficit amount deficit none = deficit
key_deficit amount deficit (some k) = elim k.budget_limit [
  | none ↦ deficit
  | some limit ↦ raise_deficit (sub64 limit k.budget_used) amount deficit
]

abbrev key_fits : ℤ → Option KeyRow → Bool
key_fits amount none = true
key_fits amount (some k) = is_bigint (k.budget_used +ℤ amount)

-- The rest of a case once the UPDATE of the Key has run: none if it hit no row.
abbrev pub after_key : ℕ → ℤ → Holding → Option (List KeyRow) → Holding
after_key key amount s none = record s {
  key_blocked = true;
  deficit = key_deficit amount s.deficit (find_where (λ k. k.id == key) s.keys);
}
after_key key amount s (some keys) = record s {
  keys = keys;
  reserved_amount = max_ℤ amount s.reserved_amount;
}

unfoldable pub hold_key : Option ℕ → ℤ → Holding → Result Holding
unfolding update_row
hold_key none amount s = err (new_error Code.invalid_input)
hold_key (some key) amount s = in_range (key_fits amount (find_where (λ k. k.id == key) s.keys)) (
    ok (
      after_key key amount s (
        update_row (λ k. k.id == key) (key_has_room amount)
          (λ k. record k { budget_used = k.budget_used +ℤ amount }) s.keys)))

abbrev pub has_room : ℤ → QuotaWindow → Bool
has_room amount w = not w.voided && leb_ℤ (w.used +ℤ w.reserved_micros +ℤ amount) w.limit

abbrev window_fits : ℤ → Option QuotaWindow → Bool
window_fits amount none = true
window_fits amount (some w) =
    w.voided
    || (is_bigint (w.used +ℤ w.reserved_micros)
        && is_bigint (w.used +ℤ w.reserved_micros +ℤ amount))

abbrev block_row : WindowKind → Option QuotaWindow → WindowBlock
block_row kind none = record {
  kind = kind;
  limit_micros = pos 0;
  used_micros = pos 0;
  reserved_micros = pos 0;
  resets_at = none;
}
block_row kind (some w) = record {
  kind = kind;
  limit_micros = w.limit;
  used_micros = w.used;
  reserved_micros = w.reserved_micros;
  resets_at = some w.end;
}

abbrev window_deficit : ℤ → ℤ → Option QuotaWindow → ℤ
window_deficit amount deficit none = deficit
window_deficit amount deficit (some w) =
    raise_deficit (sub64 (sub64 w.limit w.used) w.reserved_micros) amount deficit

-- The rest of a case once the UPDATE of the window has run: none if it hit no row.
abbrev pub after_window :
    ReservationTargetKind → ℕ → ℤ → Holding → Option (List QuotaWindow) → Holding
after_window kind window amount s none =
    let full = find_where (λ w. w.id == window) s.windows in
    record s {
      blocked = s.blocked ++ (block_row (window_kind_of_target kind) full ∷ []);
      deficit = window_deficit amount s.deficit full;
    }
after_window kind window amount s (some windows) = record s {
  windows = windows;
  reserved_amount = max_ℤ amount s.reserved_amount;
}

abbrev pub take_room : ℤ → QuotaWindow → QuotaWindow
take_room amount w = record w { reserved_micros = w.reserved_micros +ℤ amount }

unfoldable pub hold_window : ReservationTargetKind → Option ℕ → ℤ → Holding → Result Holding
unfolding update_row
hold_window kind none amount s = err (new_error Code.invalid_input)
hold_window kind (some window) amount s =
    in_range (window_fits amount (find_where (λ w. w.id == window) s.windows)) (
      ok (
        after_window kind window amount s
          (update_row (λ w. w.id == window) (has_room amount) (take_room amount) s.windows)))

-- The switch over the target.
abbrev pub hold_target : ReservationTargetKind → HoldSpec → Holding → Result Holding
hold_target ReservationTargetKind.key_budget h s = hold_key h.api_key_id h.amount s
hold_target kind h s = hold_window kind h.window_id h.amount s

-- One turn of the loop.
unfoldable pub apply_hold : HoldSpec → Holding → Result Holding
unfolding hold_key hold_window
apply_hold h s = do
  fail_if (ltb_ℤ h.amount (pos 0))
      (wrap_error Code.invalid_input (sentinel Sentinel.negative_value))
  hold_target h.target_kind h s

unfoldable pub apply_holds : List HoldSpec → Holding → Result Holding
unfolding apply_hold
apply_holds [] s = ok s
apply_holds (h ∷ hs) s = apply_hold h s >>= apply_holds hs

abbrev pub no_blocks : List WindowBlock → Bool
no_blocks [] = true
no_blocks (b ∷ bs) = false

abbrev pub is_clear : Holding → Bool
is_clear s = no_blocks s.blocked && not s.key_blocked
