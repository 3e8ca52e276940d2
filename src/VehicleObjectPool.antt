-- ===== src/VehicleObjectPool.antt =====
-- `ObjectPool` of packages/vhal-types/aidl/impl/4/utils/common/include/VehicleObjectPool.h: objects
-- that are kept for reuse up to a bound on their size.
-- What makes an object and what measures it are parameters, as in the template. The size is a
-- `size_t`, whose wrap-around at 2^64 is written out. The class sets no first value for it, which is
-- therefore an argument of the constructor.
use vhal_core.Prelude.{
  ℕ, zero, suc, ◌+◌, ◌-◌, ◌*◌, ◌/◌, ◌%◌, ◌^◌, ◌≤◌, ◌<◌, ◌≡◌, refl, sym, ap, ◌∙◌, ◌≢◌, ◌↔◌, ◌⊎◌, inl,
  inr, ite, if_pos, if_neg, Bool, true, false, not, ◌&&◌, ◌||◌, Option, none, some, List, [], ◌∷◌,
  ◌++◌, map, lookup, arith, ℕ_discrete, ltb, leb, ◌==◌, if◌then◌else◌, Bool-cases, Option-cases,
  length, get_elem?, is_empty, is_none, all, All, All-append, length-append,
}
use vhal_core.Prelude.Int.{
  ℤ, pos, negsuc, ℤ_discrete, ltb_ℤ, eqb_ℤ, ◌≤ℤ◌, ◌<ℤ◌, eq_of_eqb_ℤ, eqb_ℤ_refl,
}
use vhal_core.Prelude.Sets.{
  contains, add, erase, IsUnique, contains-add, contains-erase, contains-append, add-IsUnique,
  erase-IsUnique,
}
use vhal_core.Prelude.Dict.{
  Dict, insert, remove, keys, IsMap, lookup-insert, lookup-remove, insert-All, remove-All,
  insert-IsMap, remove-IsMap, lookup_absent, lookup-All,
}
use vhal_core.HalTypes.{StatusCode, VhalResult, ok, err}
pub mod Bound
mod Tests

pub record ObjectPool (A : Type 0) : Type 0 where
  pub max_pool_objects_size : ℕ
  pub objects : List A
  pub pool_objects_size : ℕ

-- The constructor; `found` is what the memory of the size holds.
unfoldable pub new_pool : {A : Type 0} → ℕ → ℕ → ObjectPool A
new_pool max found = record { max_pool_objects_size = max; objects = []; pool_objects_size = found }

module _ {A : Type 0} (size_of : A → ℕ) where
  -- `obtain`, with what `createObject` would make.
  unfoldable pub obtain : A → ObjectPool A → ObjectPool A × A
  obtain created p = elim p.objects [
    | [] ↦ (p, created)
    | o ∷ os ↦ (
      record p {
        objects = os;
        pool_objects_size = (p.pool_objects_size + 2 ^ 64 - size_of o) % 2 ^ 64;
      },
      o,
    )
  ]

  unfoldable pub recycle : A → ObjectPool A → ObjectPool A
  recycle o p =
      let n = size_of o in
      if ltb p.max_pool_objects_size n || ltb (p.max_pool_objects_size - n) p.pool_objects_size
      then p
      else record p {
        objects = p.objects ++ o ∷ [];
        pool_objects_size = (p.pool_objects_size + n) % 2 ^ 64;
      }
