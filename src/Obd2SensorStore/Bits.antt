-- ===== src/Obd2SensorStore/Bits.antt =====
-- The bits of a byte, as Obd2SensorStore.cpp sets and reads them.
use vhal_core.Prelude.{
  ℕ, zero, suc, ◌<◌, ◌≡◌, refl, sym, ◌∙◌, Bool, true, false, not, ◌&&◌, arith, ltb, ◌==◌,
  if◌then◌else◌,
}
use vhal_core.Obd2SensorStore.{set_bit, get_bit}

unfoldable pub all_below : ℕ → (ℕ → Bool) → Bool
all_below zero p = true
all_below (suc n) p = if p n then all_below n p else false

pub all_below_lem : (n : ℕ) (p : ℕ → Bool) (i : ℕ) → all_below n p ≡ true → i < n → p i ≡ true
unfolding all_below
all_below_lem zero p i h l = absurd (omega arith)
all_below_lem (suc n) p i h l = ground (arith, all_below_lem n p i)

abbrev eqb : Bool → Bool → Bool
eqb true b = b
eqb false b = not b

eq_of_eqb : (a b : Bool) → eqb a b ≡ true → a ≡ b
eq_of_eqb true b h = sym h
eq_of_eqb false true h = h
eq_of_eqb false false h = refl

-- What holds of one byte: it stays one, and no bit but the one that is set changes.
abbrev sets_only : ℕ → ℕ → Bool → ℕ → Bool
sets_only i j v b =
    ltb (set_bit i v b) 256 && eqb (get_bit j (set_bit i v b)) (if j == i then v else get_bit j b)

table :
    all_below 8
      (λ i. all_below 8 λ j. all_below 256 λ b. sets_only i j true b && sets_only i j false b)
    ≡ true
unfolding all_below set_bit get_bit
table = refl

table_at : (i j b : ℕ) (v : Bool) → i < 8 → j < 8 → b < 256 → sets_only i j v b ≡ true
table_at i j b v hi hj hb =
    let e =
      all_below_lem 256 (λ b. sets_only i j true b && sets_only i j false b) b
        (all_below_lem 8 (λ j. all_below 256 λ b. sets_only i j true b && sets_only i j false b) j
          (all_below_lem 8
            (λ i. all_below 8 λ j. all_below 256 λ b. sets_only i j true b && sets_only i j false b)
            i table hi)
          hj)
        hb in
    both v (sets_only i j true b) (sets_only i j false b) refl refl e
  where
    both :
        (v x y : Bool)
        → sets_only i j true b ≡ x
        → sets_only i j false b ≡ y
        → (x && y) ≡ true
        → sets_only i j v b ≡ true
    both true true y p q e = p
    both true false y p q e = cc
    both false true y p q e = q ∙ e
    both false false y p q e = cc

pub set_bit-lt : (i b : ℕ) (v : Bool) → i < 8 → b < 256 → set_bit i v b < 256
set_bit-lt i b v hi hb = let t = table_at i i b v hi hi hb in ground (arith, t)

pub get_bit-set_bit :
    (i j b : ℕ) (v : Bool)
    → i < 8
    → j < 8
    → b < 256
    → get_bit j (set_bit i v b) ≡ (if j == i then v else get_bit j b)
get_bit-set_bit i j b v hi hj hb =
    eq_of_eqb _ _ (second (ltb (set_bit i v b) 256) _ (table_at i j b v hi hj hb))
  where
    second : (x y : Bool) → (x && y) ≡ true → y ≡ true
    second true y e = e
    second false y e = cc
