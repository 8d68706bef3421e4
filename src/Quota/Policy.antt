-- ===== src/Quota/Policy.antt =====
-- internal/inference/quota/policy.go: the policy, and the admission of one hold against every window.
-- A nil limit is `none`: the window is disabled. Names and model identifiers are numbers.
pub mod Admission
use yunhou_users.Common.{
  ℕ, Bool, true, false, not, ◌&&◌, ◌||◌, ◌==◌, Option, none, some, List, [], ◌∷◌, map, keep, ℤ, pos,
  ltb_ℤ, if◌then◌else◌,
}
use yunhou_users.Domain.Errors.{
  Time, WindowKind, WindowBlock, Code, Sentinel, Error, sentinel, new_error, wrap_error,
  quota_exceeded_error, Result, ok, err, ◌>>=◌, ◌>>◌, fail_if,
}
use yunhou_users.Domain.Usage.{QuotaWindow, available, window_order}
use yunhou_users.Quota.Window.{WindowView, is_none, find_window, read_window}

pub data OveragePolicy : Type 0 where
  reject clamp_if_declared allow_overage : OveragePolicy

pub record Policy : Type 0 where
  pub name : ℕ
  pub revision : ℤ
  pub model_ids : List ℕ
  pub five_hour_limit : Option ℤ
  pub weekly_limit : Option ℤ
  pub monthly_limit : Option ℤ
  pub rpm_limit : Option ℤ
  pub tpm_limit : Option ℤ
  pub concurrency_limit : Option ℤ
  pub overage : OveragePolicy

abbrev any_eq : List ℕ → ℕ → Bool
any_eq [] id = false
any_eq (x ∷ xs) id = x == id || any_eq xs id

unfoldable pub allows_model : Policy → ℕ → Bool
allows_model p id = any_eq p.model_ids id

-- `LimitFor`; the second result is that the limit is not nil.
abbrev pub limit_for : Policy → WindowKind → Option ℤ
limit_for p WindowKind.five_hour = p.five_hour_limit
limit_for p WindowKind.weekly = p.weekly_limit
limit_for p WindowKind.monthly = p.monthly_limit
limit_for p WindowKind.unknown_kind = none

unfoldable pub enabled_windows : Policy → List WindowKind
enabled_windows p = keep (λ k. not (is_none (limit_for p k))) window_order

-- `*limit`: an enabled window has one.
abbrev limit_or_zero : Option ℤ → ℤ
limit_or_zero none = pos 0
limit_or_zero (some l) = l

abbrev block_of : Policy → WindowKind → QuotaWindow → WindowBlock
block_of p kind w = record {
  kind = kind;
  limit_micros = limit_or_zero (limit_for p kind);
  used_micros = w.used;
  reserved_micros = w.reserved_micros;
  resets_at = some w.end;
}

-- One round of the loop, in front of the blocks of the further rounds.
abbrev pub add_block : Policy → ℤ → WindowKind → QuotaWindow → List WindowBlock → List WindowBlock
add_block p hold kind w rest = if ltb_ℤ (available w) hold then block_of p kind w ∷ rest else rest

abbrev round_of :
    Policy
    → ℤ
    → WindowKind
    → Option QuotaWindow
    → Result (List WindowBlock)
    → Result (List WindowBlock)
round_of p hold kind none rest = err (new_error Code.invalid_input)
round_of p hold kind (some w) rest = rest >>= λ bs. ok (add_block p hold kind w bs)

-- The loop over the enabled windows, by the windows that are left.
unfoldable pub blocks_from :
    Policy → List QuotaWindow → ℤ → Time → List WindowKind → Result (List WindowBlock)
unfolding find_window available
blocks_from p windows hold t [] = ok []
blocks_from p windows hold t (kind ∷ kinds) =
    round_of p hold kind (find_window windows kind t) (blocks_from p windows hold t kinds)

abbrev pub refuse_blocked : List WindowBlock → Result (Unit {0})
refuse_blocked [] = ok tt
refuse_blocked (b ∷ bs) = err (quota_exceeded_error (b ∷ bs) false)

unfoldable pub evaluate_admission : Policy → List QuotaWindow → ℤ → Time → Result (Unit {0})
unfolding blocks_from enabled_windows
evaluate_admission p windows hold t = do
  fail_if (ltb_ℤ hold (pos 0)) (wrap_error Code.invalid_input (sentinel Sentinel.negative_value))
  blocked ← blocks_from p windows hold t (enabled_windows p)
  refuse_blocked blocked

-- The entries of the map that `SettlementPlan` makes.
abbrev pub settlement_plan : ℤ → List WindowKind → List (WindowKind × ℤ)
settlement_plan charge kinds = map (λ k. (k, charge)) kinds

unfoldable pub views_from :
    Policy → Time → List QuotaWindow → Time → List WindowKind → Result (List WindowView)
unfolding read_window
views_from p anchor active t [] = ok []
views_from p anchor active t (kind ∷ kinds) =
    read_window kind anchor (limit_for p kind) active t >>= λ v.
    views_from p anchor active t kinds >>= λ vs. ok (v ∷ vs)

unfoldable pub views : Policy → Time → List QuotaWindow → Time → Result (List WindowView)
unfolding views_from
views p anchor active t = views_from p anchor active t window_order
