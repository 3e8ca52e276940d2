-- ===== src/VehicleObjectPool/Bound.antt =====
-- That the objects kept in an `ObjectPool` of VehicleObjectPool.h stay within its bound.
use vhal_core.Prelude.{
  ℕ, ◌+◌, ◌-◌, ◌%◌, ◌^◌, ◌≤◌, ◌<◌, ◌≡◌, refl, ap, ◌∙◌, inl, inr, true, false, ◌||◌, List, [], ◌∷◌,
  ◌++◌, arith, ltb, Bool-cases,
}
use native.Mathlib.Nat.{mod-eq_of_lt}
use vhal_core.VehicleObjectPool.{ObjectPool, new_pool, obtain, recycle}

-- A use of the pool: an object is obtained, for which a new one may be created, or recycled.
pub data Use (A : Type 0) : Type 0 where
  obtains : A → Use A
  recycles : A → Use A

module _ {A : Type 0} (size_of : A → ℕ) where
  abbrev pub total : List A → ℕ
  total [] = 0
  total (o ∷ os) = size_of o + total os

  total-append : (o : A) (os : List A) → total (os ++ o ∷ []) ≡ total os + size_of o
  total-append o [] = omega arith
  total-append o (p ∷ os) = let e = total-append o os in omega (arith, e)

  -- The count is the size of the objects, on top of what it was at first, and within the bound.
  abbrev IsWithin : ℕ → ObjectPool A → Type 0
  IsWithin found p =
      (p.pool_objects_size ≡ found + total p.objects)
      × (p.pool_objects_size ≤ p.max_pool_objects_size)
      × (p.max_pool_objects_size < 2 ^ 64)

  -- Taking one object out of the count does not wrap around.
  taken :
      (found n s rest max : ℕ)
      → n ≡ found + (s + rest)
      → n ≤ max
      → max < 2 ^ 64
      → (((n + 2 ^ 64 - s) % 2 ^ 64) ≡ found + rest) × (((n + 2 ^ 64 - s) % 2 ^ 64) ≤ max)
  taken found n s rest max sum low small = (omega arith, omega arith)

  -- The pool after these uses.
  abbrev pub after : List (Use A) → ObjectPool A → ObjectPool A
  after [] p = p
  after (obtains created ∷ uses) p = after uses (obtain size_of created p).0
  after (recycles o ∷ uses) p = after uses (recycle size_of o p)

  obtain-IsWithin :
      (found : ℕ) (created : A) (p : ObjectPool A)
      → IsWithin found p
      → IsWithin found (obtain size_of created p).0
  unfolding obtain
  obtain-IsWithin found created p (sum, low, small) = go p.objects sum
    where
      step : List A → ObjectPool A × A
      step objects = elim objects [
        | [] ↦ (p, created)
        | o ∷ os ↦ (
          record p {
            objects = os;
            pool_objects_size = (p.pool_objects_size + 2 ^ 64 - size_of o) % 2 ^ 64;
          },
          o,
        )
      ]

      go : (os : List A) → p.pool_objects_size ≡ found + total os → IsWithin found (step os).0
      go [] e = (sum, low, small)
      go (o ∷ os) e =
          let (a, b) =
            taken found p.pool_objects_size (size_of o) (total os) p.max_pool_objects_size e low
              small in
          (a, b, small)

  recycle-IsWithin :
      (found : ℕ) (o : A) (p : ObjectPool A)
      → IsWithin found p
      → IsWithin found (recycle size_of o p)
  unfolding recycle
  recycle-IsWithin found o p (sum, low, small) =
      let t = total-append o p.objects in
      let put : ltb p.max_pool_objects_size (size_of o)
              || ltb (p.max_pool_objects_size - size_of o) p.pool_objects_size
            ≡ false
          → p.pool_objects_size + size_of o ≤ p.max_pool_objects_size =
        λ e. ground arith in
      elim (Bool-cases (
        ltb p.max_pool_objects_size (size_of o)
        || ltb (p.max_pool_objects_size - size_of o) p.pool_objects_size)) [
          | inl e ↦ rw e (sum, low, small)
          | inr e ↦
              let fits = put e in
              let whole : (p.pool_objects_size + size_of o) % 2 ^ 64
                  ≡ p.pool_objects_size + size_of o =
                mod-eq_of_lt (omega arith) in
              let sum' : p.pool_objects_size + size_of o ≡ found + total (p.objects ++ o ∷ []) =
                omega (arith, sum, t) in
              rw e (whole ∙ sum', rw whole fits, small)
        ]

  after-IsWithin :
      (found : ℕ) (uses : List (Use A)) (p : ObjectPool A)
      → IsWithin found p
      → IsWithin found (after uses p)
  after-IsWithin found [] p h = h
  after-IsWithin found (obtains o ∷ uses) p h =
      after-IsWithin found uses (obtain size_of o p).0 (obtain-IsWithin found o p h)
  after-IsWithin found (recycles o ∷ uses) p h =
      after-IsWithin found uses (recycle size_of o p) (recycle-IsWithin found o p h)

  obtain_max :
      (o : A) (p : ObjectPool A)
      → (obtain size_of o p).0.max_pool_objects_size ≡ p.max_pool_objects_size
  unfolding obtain
  obtain_max o p = ground arith

  recycle_max :
      (o : A) (p : ObjectPool A)
      → (recycle size_of o p).max_pool_objects_size ≡ p.max_pool_objects_size
  unfolding recycle
  recycle_max o p = ground arith

  -- The bound stays.
  max_after :
      (uses : List (Use A)) (p : ObjectPool A)
      → (after uses p).max_pool_objects_size ≡ p.max_pool_objects_size
  max_after [] p = refl
  max_after (obtains o ∷ uses) p = max_after uses (obtain size_of o p).0 ∙ obtain_max o p
  max_after (recycles o ∷ uses) p = max_after uses (recycle size_of o p) ∙ recycle_max o p

  -- An empty pool that counts more than its bound keeps nothing.
  recycle_over :
      (max found : ℕ) (o : A)
      → max < found
      → recycle size_of o (new_pool max found) ≡ new_pool max found
  unfolding recycle new_pool
  recycle_over max found o h =
      let e : (ltb max (size_of o) || ltb (max - size_of o) found) ≡ true = ground (arith, h) in
      rw (e, recycle) refl

  after_over :
      (max found : ℕ) (uses : List (Use A))
      → max < found
      → after uses (new_pool max found) ≡ new_pool max found
  unfolding obtain new_pool
  after_over max found [] h = refl
  after_over max found (obtains o ∷ uses) h = after_over max found uses h
  after_over max found (recycles o ∷ uses) h =
      ap (after uses) (recycle_over max found o h) ∙ after_over max found uses h

  -- Whatever objects of whatever size are obtained from a new pool and recycled to it, in any order, and whatever the uninitialised counter of the pool holds at first: the objects that the pool keeps together have at most the size of its bound.
  pub total-after-new_pool :
      (max found : ℕ) (uses : List (Use A))
      → max < 2 ^ 64
      → total (after uses (new_pool max found)).objects ≤ max
  unfolding new_pool
  total-after-new_pool max found uses small = elim (Bool-cases (ltb max found)) [
    | inl over ↦ rw (after_over max found uses (ground (arith, over))) (omega arith)
    | inr under ↦
        let start : IsWithin found (new_pool {A = A} max found) =
          (omega arith, ground (arith, under), small) in
        let (sum, low, _) = after-IsWithin found uses (new_pool max found) start in
        let kept = max_after uses (new_pool max found) in omega (arith, sum, low, kept)
  ]
