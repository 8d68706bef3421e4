-- ===== src/Quota/Reservation/Bounds.antt =====
-- internal/inference/quota/reservation.go: the ceilings of the input and of the output.
use yunhou_users.Common.{◌≡◌, Option, none, some, ℤ, pos, ◌≤ℤ◌, ◌<ℤ◌, arith}
use yunhou_users.Domain.Errors.{ok}
use yunhou_users.Quota.Reservation.{effective_output_cap, input_bound}

-- The client's cap, if it declared one.
abbrev pub WithinClient : ℤ → Option ℤ → Type 0
WithinClient cap none = Unit
WithinClient cap (some client) = cap ≤ℤ client

-- An output cap is positive and exceeds neither the model's limit nor the client's cap.
pub effective_output_cap_bounds :
    (client : Option ℤ) (model : ℤ) {cap : ℤ}
    → effective_output_cap client model ≡ ok cap
    → (pos 0 <ℤ cap) × (cap ≤ℤ model) × WithinClient cap client
unfolding effective_output_cap
effective_output_cap_bounds none model h = ground arith
effective_output_cap_bounds (some client) model h = ground arith

-- An input bound lies between zero and the context limit, and below the estimate.
pub input_bound_bounds :
    (estimated context : ℤ) {bound : ℤ}
    → input_bound estimated context ≡ ok bound
    → (pos 0 ≤ℤ bound) × (bound ≤ℤ context) × (bound ≤ℤ estimated)
unfolding input_bound
input_bound_bounds estimated context h = ground arith
