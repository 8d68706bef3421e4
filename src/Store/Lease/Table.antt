-- ===== src/Store/Lease/Table.antt =====
-- internal/inference/postgres/lease_repo.go: what the statements do to the slots and the tokens of a scope.
use yunhou_users.Common.{
  ◌==◌, ◌&&◌, ℕ, ◌≤◌, ◌<◌, ◌≡◌, refl, Bool, true, false, List, [], ◌∷◌, keep, All, arith,
}
use yunhou_users.Domain.Errors.{Time}
use yunhou_users.Store.Lease.{
  LeaseScope, LeaseRow, is_held, in_scope, holds_slot, reclaim, count_held, max_fencing,
  set_expires, set_released, any_owned,
}

max_fencing_below :
    (scope : LeaseScope) (sid n : ℕ) (rows : List LeaseRow)
    → max_fencing scope sid rows ≤ n
    → All (λ r. in_scope scope sid r ≡ true → r.fencing ≤ n) rows
unfolding max_fencing
max_fencing_below scope sid n [] h = tt
max_fencing_below scope sid n (r ∷ rs) h =
    (ground arith, max_fencing_below scope sid n rs (ground arith))

-- The maximum bounds every token of the scope.
pub max_fencing_bound :
    (scope : LeaseScope) (sid : ℕ) (rows : List LeaseRow)
    → All (λ r. in_scope scope sid r ≡ true → r.fencing ≤ max_fencing scope sid rows) rows
max_fencing_bound scope sid rows = max_fencing_below scope sid _ rows (omega arith)

-- After the reclamation every held slot of the scope lasts beyond the instant.
pub reclaim-All :
    (scope : LeaseScope) (sid : ℕ) (now : Time) (rows : List LeaseRow)
    → All (λ r. holds_slot scope sid r ≡ true → now < r.expires) (reclaim scope sid now rows)
unfolding reclaim
reclaim-All scope sid now [] = tt
reclaim-All scope sid now (r ∷ rs) = (ground arith, reclaim-All scope sid now rs)

pub max_fencing-reclaim :
    (scope : LeaseScope) (sid : ℕ) (now : Time) (rows : List LeaseRow)
    → max_fencing scope sid (reclaim scope sid now rows) ≡ max_fencing scope sid rows
unfolding reclaim max_fencing
max_fencing-reclaim scope sid now [] = refl
max_fencing-reclaim scope sid now (r ∷ rs) = ground (arith, max_fencing-reclaim scope sid now rs)

-- The reclamation of a scope frees slots at most.
pub count_held-reclaim :
    (scope s : LeaseScope) (sid i : ℕ) (now : Time) (rows : List LeaseRow)
    → count_held s i (reclaim scope sid now rows) ≤ count_held s i rows
unfolding reclaim count_held
count_held-reclaim scope s sid i now [] = omega arith
count_held-reclaim scope s sid i now (r ∷ rs) =
    ground (arith, count_held-reclaim scope s sid i now rs)

pub count_held-set_expires :
    (s : LeaseScope) (i id owner fencing : ℕ) (until : Time) (rows : List LeaseRow)
    → count_held s i (set_expires id owner fencing until rows) ≡ count_held s i rows
unfolding set_expires count_held
count_held-set_expires s i id owner fencing until [] = refl
count_held-set_expires s i id owner fencing until (r ∷ rs) =
    ground (arith, count_held-set_expires s i id owner fencing until rs)

pub count_held-set_released :
    (s : LeaseScope) (i id owner fencing : ℕ) (at : Time) (rows : List LeaseRow)
    → count_held s i (set_released id owner fencing at rows) ≤ count_held s i rows
unfolding set_released count_held
count_held-set_released s i id owner fencing at [] = omega arith
count_held-set_released s i id owner fencing at (r ∷ rs) =
    ground (arith, count_held-set_released s i id owner fencing at rs)

pub count_held-keep :
    (s : LeaseScope) (i : ℕ) (p : LeaseRow → Bool) (rows : List LeaseRow)
    → count_held s i (keep p rows) ≤ count_held s i rows
unfolding count_held
count_held-keep s i p [] = omega arith
count_held-keep s i p (r ∷ rs) = ground (arith, count_held-keep s i p rs)

-- No row with the identifier is held.
abbrev pub IsLost : ℕ → List LeaseRow → Type 0
IsLost id rows = All (λ r. (r.id == id && is_held r.state) ≡ false) rows

pub reclaim-IsLost :
    (id : ℕ) (scope : LeaseScope) (sid : ℕ) (now : Time) (rows : List LeaseRow)
    → IsLost id rows
    → IsLost id (reclaim scope sid now rows)
unfolding reclaim
reclaim-IsLost id scope sid now [] h = tt
reclaim-IsLost id scope sid now (r ∷ rs) (h, hs) =
    (ground (arith, h), reclaim-IsLost id scope sid now rs hs)

pub set_expires-IsLost :
    (id i owner fencing : ℕ) (until : Time) (rows : List LeaseRow)
    → IsLost id rows
    → IsLost id (set_expires i owner fencing until rows)
unfolding set_expires
set_expires-IsLost id i owner fencing until [] h = tt
set_expires-IsLost id i owner fencing until (r ∷ rs) (h, hs) =
    (ground (arith, h), set_expires-IsLost id i owner fencing until rs hs)

pub set_released-IsLost :
    (id i owner fencing : ℕ) (at : Time) (rows : List LeaseRow)
    → IsLost id rows
    → IsLost id (set_released i owner fencing at rows)
unfolding set_released
set_released-IsLost id i owner fencing at [] h = tt
set_released-IsLost id i owner fencing at (r ∷ rs) (h, hs) =
    (ground (arith, h), set_released-IsLost id i owner fencing at rs hs)

-- A lost lease is owned by nobody.
pub IsLost-any_owned :
    (id owner fencing : ℕ) (rows : List LeaseRow)
    → IsLost id rows
    → any_owned id owner fencing rows ≡ false
unfolding any_owned
IsLost-any_owned id owner fencing [] h = refl
IsLost-any_owned id owner fencing (r ∷ rs) (h, hs) =
    ground (arith, h, IsLost-any_owned id owner fencing rs hs)
