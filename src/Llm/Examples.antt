-- ===== src/Llm/Examples.antt =====
-- internal/llm: the theorems at a pool of two keys, one of them cooling down.
use yunhou_users.Common.{
  ℕ, zero, suc, ◌+◌, ◌<◌, ◌≡◌, ◌≢◌, refl, some, none, [], ◌∷◌, get_elem?, arith,
}
use yunhou_users.Llm.KeyPool.{Key, KeyPool, find_until, blocked_until, acquire}
use yunhou_users.Llm.KeyPool.RoundRobin.{
  turn, GivesSoonest, acquire_first_free, acquire-GivesSoonest,
}

abbrev pool : KeyPool
pool = record { keys = (1 ∷ []) ∷ (2 ∷ []) ∷ []; next = 0; cooled_until = (0, 10) ∷ [] }

free_at : blocked_until pool 5 1 ≡ none
unfolding blocked_until find_until
free_at = refl

busy_at : blocked_until pool 5 0 ≡ some 10
unfolding blocked_until find_until
busy_at = refl

before_free : (k : ℕ) → k < 1 → blocked_until pool 5 (turn pool k) ≢ none
before_free zero h e = ground (arith, busy_at, e)
before_free (suc k) h e = absurd (omega arith)

acquire_first_free_example :
    (key : Key) × (get_elem? pool.keys (turn pool 1) ≡ some key)
    × (acquire pool 5 ≡ (record pool { next = turn pool 1 + 1 }, some (turn pool 1, some key)))
acquire_first_free_example = acquire_first_free pool 5 1 (omega arith) free_at before_free

abbrev single : KeyPool
single = record { keys = (1 ∷ []) ∷ []; next = 1; cooled_until = (0, 10) ∷ [] }

single_busy : blocked_until single 5 0 ≡ some 10
unfolding blocked_until find_until
single_busy = refl

all_busy : (k : ℕ) → k < 1 → blocked_until single 5 (turn single k) ≢ none
all_busy zero h e = ground (arith, single_busy, e)
all_busy (suc k) h e = absurd (omega arith)

acquire-GivesSoonest_example : GivesSoonest single 5
acquire-GivesSoonest_example = acquire-GivesSoonest single 5 (omega arith) all_busy
