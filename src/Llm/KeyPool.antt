-- ===== src/Llm/KeyPool.antt =====
-- internal/llm/keypool.go: the round-robin pool of API keys. The map of the cooldowns is the list of its
-- entries, the latest in front; the mutex makes every operation one step. A missing element, where the
-- source would panic, is `none`.
pub mod RoundRobin
use yunhou_users.Common.{
  ℕ, zero, suc, ◌+◌, ◌%◌, Option, none, some, List, [], ◌∷◌, length, get_elem?, ltb, leb, ◌==◌,
  if◌then◌else◌,
}
use yunhou_users.Domain.Errors.{Time}

abbrev pub Key : Type 0
Key = List ℕ

pub record KeyPool : Type 0 where
  pub keys : List Key
  pub next : ℕ
  pub cooled_until : List (ℕ × Time)

abbrev pub new_key_pool : List Key → KeyPool
new_key_pool keys = record { keys = keys; next = 0; cooled_until = [] }

unfoldable pub find_until : List (ℕ × Time) → ℕ → Option Time
find_until [] idx = none
find_until ((i, until) ∷ rest) idx =
    let later = find_until rest idx in if i == idx then some until else later

abbrev until_after : Option Time → Time → Option Time
until_after none now = none
until_after (some until) now = if ltb now until then some until else none

-- The end of a cooldown that has not passed: `cooled && until.After(now)`.
unfoldable pub blocked_until : KeyPool → Time → ℕ → Option Time
unfolding find_until
blocked_until p now idx = until_after (find_until p.cooled_until idx) now

-- `best` and `bestUntil`; none is -1.
abbrev pub soonest : Option (ℕ × Time) → ℕ → Time → Option (ℕ × Time)
soonest none idx until = some (idx, until)
soonest (some (best, best_until)) idx until =
    if ltb until best_until then some (idx, until) else some (best, best_until)

abbrev pub best_index : Option (ℕ × Time) → Option ℕ
best_index none = none
best_index (some (best, _)) = some best

-- One round of the loop, in front of the further ones.
abbrev pub round_of : ℕ → Option Time → Option ℕ → Option ℕ
round_of idx none rest = some idx
round_of idx (some _) rest = rest

abbrev pub best_after : Option (ℕ × Time) → ℕ → Option Time → Option (ℕ × Time)
best_after best idx none = best
best_after best idx (some until) = soonest best idx until

-- The loop of `Acquire` and the choice behind it, by the rounds that are left.
unfoldable pub pick : KeyPool → Time → ℕ → ℕ → Option (ℕ × Time) → Option ℕ
unfolding blocked_until
pick p now zero i best = best_index best
pick p now (suc n) i best =
    let idx = (p.next + i) % length p.keys in
    round_of idx (blocked_until p now idx)
      (pick p now n (suc i) (best_after best idx (blocked_until p now idx)))

abbrev pub taken : KeyPool → Option ℕ → KeyPool × Option (ℕ × Option Key)
taken p none = (p, none)
taken p (some idx) = (record p { next = idx + 1 }, some (idx, get_elem? p.keys idx))

-- `Acquire`; none is the (-1, "") of an empty pool.
unfoldable pub acquire : KeyPool → Time → KeyPool × Option (ℕ × Option Key)
unfolding pick
acquire p now = taken p (pick p now (length p.keys) 0 none)

-- `Cool`, at an index that is not negative: a negative one is ignored too.
unfoldable pub cool : KeyPool → ℕ → Time → KeyPool
cool p idx until =
    if leb (length p.keys) idx then p else record p { cooled_until = (idx, until) ∷ p.cooled_until }
