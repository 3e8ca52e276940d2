-- ===== src/Obd2SensorStore/Mask.antt =====
-- The bitmask of Obd2SensorStore.cpp: what `get` finds after `set`.
use vhal_core.Prelude.{
  ℕ, zero, suc, ◌+◌, ◌*◌, ◌/◌, ◌%◌, ◌≤◌, ◌<◌, ◌≡◌, refl, sym, ap, ◌∙◌, inl, inr, Bool, true, false,
  not, some, List, [], ◌∷◌, arith, ℕ_discrete, leb, ◌==◌, if◌then◌else◌, Bool-cases, length,
  get_elem?, All,
}
use vhal_core.Obd2SensorStore.{
  filled, set_elem, BitmaskInVector, resize_mask, set_bit, get_bit, set_index, get_index,
}
use vhal_core.Obd2SensorStore.Bits.{all_below, all_below_lem, set_bit-lt, get_bit-set_bit}

module _ {ℓ} {A : Type ℓ} where
  pub length-filled : (n : ℕ) (a : A) → length (filled n a) ≡ n
  length-filled zero a = refl
  length-filled (suc n) a = omega (arith, length-filled n a)

  pub length-set_elem : (i : ℕ) (a : A) (xs : List A) → length (set_elem i a xs) ≡ length xs
  length-set_elem i a [] = refl
  length-set_elem zero a (x ∷ xs) = refl
  length-set_elem (suc i) a (x ∷ xs) = omega (arith, length-set_elem i a xs)

  get_elem?-set_elem :
      (i j : ℕ) (a : A) (xs : List A)
      → i < length xs
      → get_elem? (set_elem i a xs) j ≡ (if j == i then some a else get_elem? xs j)
  get_elem?-set_elem i j a [] h = absurd (omega (arith, h))
  get_elem?-set_elem zero zero a (x ∷ xs) h = ground arith
  get_elem?-set_elem zero (suc j) a (x ∷ xs) h = ground arith
  get_elem?-set_elem (suc i) zero a (x ∷ xs) h = ground arith
  get_elem?-set_elem (suc i) (suc j) a (x ∷ xs) h =
      let e = get_elem?-set_elem i j a xs (omega (arith, h)) in ground (arith, e)

  module _ {κ} (P : A → Type κ) where
    get_elem?-All :
        (i : ℕ) (xs : List A)
        → i < length xs
        → All P xs
        → (a : A) × ((get_elem? xs i ≡ some a) × P a)
    get_elem?-All i [] h k = absurd (omega (arith, h))
    get_elem?-All zero (x ∷ xs) h k = (x, (refl, k.0))
    get_elem?-All (suc i) (x ∷ xs) h k = get_elem?-All i xs (omega (arith, h)) k.1

    set_elem-All : (i : ℕ) (a : A) (xs : List A) → P a → All P xs → All P (set_elem i a xs)
    set_elem-All i a [] p k = tt
    set_elem-All zero a (x ∷ xs) p k = (p, k.1)
    set_elem-All (suc i) a (x ∷ xs) p k = (k.0, set_elem-All i a xs p k.1)

    filled-All : (n : ℕ) (a : A) → P a → All P (filled n a)
    filled-All zero a p = tt
    filled-All (suc n) a p = (p, filled-All n a p)

-- The storage consists of bytes, and there is one for each index.
abbrev pub IsSound : BitmaskInVector → Type 0
IsSound m = (m.num_bits ≤ length m.storage * 8) × All (λ b. b < 256) m.storage

pub resize_mask-IsSound : (n : ℕ) → IsSound (resize_mask n)
unfolding resize_mask
resize_mask-IsSound n = (
  omega (arith, length-filled {A = ℕ} ((n + 7) / 8) 0),
  filled-All (λ b. b < 256) ((n + 7) / 8) 0 (omega arith),
)

get_index_stored :
    (k b : ℕ) (m : BitmaskInVector)
    → leb m.num_bits k ≡ false
    → get_elem? m.storage (k / 8) ≡ some b
    → get_index k m ≡ some (get_bit (k % 8) b)
unfolding get_index
get_index_stored k b m h e = rw (h, get_index, e) refl

get_index-set_elem :
    (i k b : ℕ) (v : Bool) (m : BitmaskInVector)
    → i < m.num_bits
    → i / 8 < length m.storage
    → get_elem? m.storage (i / 8) ≡ some b
    → b < 256
    → get_index k (record m { storage = set_elem (i / 8) (set_bit (i % 8) v b) m.storage })
      ≡ (if k == i then some v else get_index k m)
unfolding get_index
get_index-set_elem i k b v m h within at byte = elim (Bool-cases (leb m.num_bits k)) [
  | inl out ↦
      let other : (k == i) ≡ false = ground (arith, h, out) in rw (out, get_index, other) refl
  | inr inside ↦ elim (ℕ_discrete (k / 8) (i / 8)) [
    | yes p ↦
        let b' = set_bit (i % 8) v b in
        let here : (k / 8 == i / 8) ≡ true = ground (arith, p) in
        let new =
          get_index_stored k b' (record m { storage = set_elem (i / 8) b' m.storage }) inside
            (get_elem?-set_elem (i / 8) (k / 8) b' m.storage within ∙ (rw here refl)) in
        let old = get_index_stored k b m inside (ap (get_elem? m.storage) p ∙ at) in
        let bit = get_bit-set_bit (i % 8) (k % 8) b v (omega arith) (omega arith) byte in
        new
        ∙ (rw (bit, old)
            (elim (ℕ_discrete k i) [
              | yes q ↦
                  let x : (k == i) ≡ true = ground (arith, q) in
                  let y : (k % 8 == i % 8) ≡ true = ground (arith, q) in rw (x, y) refl
              | no q ↦
                  let x : (k == i) ≡ false = ground (arith, q) in
                  let y : (k % 8 == i % 8) ≡ false = ground (arith, p, q) in rw (x, y) refl
            ]))
    | no p ↦
        let other : (k == i) ≡ false = ground (arith, p) in
        let there : (k / 8 == i / 8) ≡ false = ground (arith, p) in
        rw
          (
            other,
            get_index,
            get_elem?-set_elem (i / 8) (k / 8) (set_bit (i % 8) v b) m.storage within,
            there,
          )
          refl
  ]
]

get_elem?-filled {ℓ} : {A : Type ℓ} (i n : ℕ) (a : A) → i < n → get_elem? (filled n a) i ≡ some a
get_elem?-filled i zero a h = absurd (omega (arith, h))
get_elem?-filled zero (suc n) a h = refl
get_elem?-filled (suc i) (suc n) a h = get_elem?-filled i n a (omega (arith, h))

no_bits : all_below 8 (λ j. not (get_bit j 0)) ≡ true
unfolding get_bit all_below
no_bits = refl

not-true : (b : Bool) → not b ≡ true → b ≡ false
not-true true h = sym h
not-true false h = refl

-- A new mask has no bit set.
pub get_index-resize_mask : (k n : ℕ) → k < n → get_index k (resize_mask n) ≡ some false
unfolding resize_mask
get_index-resize_mask k n h =
    let below : leb n k ≡ false = ground (arith, h) in
    let within : k / 8 < (n + 7) / 8 = omega (arith, h) in
    let bit = all_below_lem 8 (λ j. not (get_bit j 0)) (k % 8) no_bits (omega arith) in
    get_index_stored k 0 (resize_mask n) below (get_elem?-filled (k / 8) ((n + 7) / 8) 0 within)
    ∙ (rw (not-true (get_bit (k % 8) 0) bit) refl)

-- What `set` does at a place within the bounds.
abbrev pub IsIndexSet : ℕ → Bool → BitmaskInVector → BitmaskInVector → Type 0
IsIndexSet i v m m' =
    (set_index i v m ≡ some m')
    × (IsSound m'
        × ((m'.num_bits ≡ m.num_bits)
            × ((k : ℕ) → get_index k m' ≡ (if k == i then some v else get_index k m))))

pub set_index-IsIndexSet :
    (i : ℕ) (v : Bool) (m : BitmaskInVector)
    → IsSound m
    → i < m.num_bits
    → (m' : BitmaskInVector) × IsIndexSet i v m m'
unfolding set_index get_index
set_index-IsIndexSet i v m (bits, bytes) h =
    let within : i / 8 < length m.storage = omega (arith, h, bits) in
    let (b, (at, byte)) = get_elem?-All (λ b. b < 256) (i / 8) m.storage within bytes in
    let b' = set_bit (i % 8) v b in
    let m' : BitmaskInVector = record m { storage = set_elem (i / 8) b' m.storage } in
    let below : leb m.num_bits i ≡ false = ground (arith, h) in
    let byte' : b' < 256 = set_bit-lt (i % 8) b v (omega arith) byte in
    (
      m',
      (
        rw (below, set_index, at) refl,
        (
          (rw length-set_elem bits, set_elem-All (λ b. b < 256) (i / 8) b' m.storage byte' bytes),
          (refl, λ k. get_index-set_elem i k b v m h within at byte),
        ),
      ),
    )
