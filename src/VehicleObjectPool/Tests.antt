-- ===== src/VehicleObjectPool/Tests.antt =====
-- The pool at concrete values: objects are lists, and their size is their length.
use vhal_core.Prelude.{ℕ, ◌≡◌, refl, ◌≤◌, List, [], ◌∷◌, arith, length}
use vhal_core.VehicleObjectPool.{new_pool, obtain, recycle}
use vhal_core.VehicleObjectPool.Bound.{Use, obtains, recycles, total, after, total-after-new_pool}

program : Unit {0}
unfolding new_pool obtain recycle
program = tt

abbrev uses : List (Use (List ℕ))
uses = recycles (1 ∷ 2 ∷ []) ∷ recycles (3 ∷ []) ∷ recycles (4 ∷ 5 ∷ []) ∷ obtains [] ∷ []

one_kept :
    after length uses (new_pool 4 0)
    ≡ record { max_pool_objects_size = 4; objects = (3 ∷ []) ∷ []; pool_objects_size = 1 }
unfolding program
one_kept = refl

total-after-new_pool_example : total length (after length uses (new_pool 4 1)).objects ≤ 4
total-after-new_pool_example = total-after-new_pool length 4 1 uses (omega arith)
