-- ===== src/Prelude/Sets.antt =====
-- `std::unordered_set` as a list without repetitions.
use mathlib.Core.Path.{◌≡◌, refl, ◌∙◌}
use mathlib.Core.Logic.{ite, if_pos, if_neg}
use mathlib.Core.List.{List, [], ◌∷◌, ◌++◌}
use mathlib.Core.Bool.{Bool, true, false, ◌||◌}
use native.Mathlib.Omega.{arith}
use vhal_core.Prelude.Tests.{if◌then◌else◌}

module _ {ℓ} {A : Type ℓ} (dec : Discrete A) where
  -- `s.find(a) != s.end()`
  unfoldable pub contains : A → List A → Bool
  contains a [] = false
  contains a (x ∷ xs) = ite (dec a x) true (contains a xs)

  -- `s.insert(a)`
  unfoldable pub add : A → List A → List A
  add a xs = if contains a xs then xs else a ∷ xs

  -- `s.erase(a)`
  unfoldable pub erase : A → List A → List A
  erase a [] = []
  erase a (x ∷ xs) = ite (dec a x) (erase a xs) (x ∷ erase a xs)

  -- The list holds no element twice.
  abbrev pub IsUnique : List A → Type 0
  IsUnique [] = Unit {0}
  IsUnique (x ∷ xs) = (contains x xs ≡ false) × IsUnique xs

  pub contains-add :
      (a b : A) (xs : List A) → contains a (add b xs) ≡ ite (dec a b) true (contains a xs)
  unfolding contains add
  contains-add a b xs = ground arith

  pub contains-erase :
      (a b : A) (xs : List A) → contains a (erase b xs) ≡ ite (dec a b) false (contains a xs)
  unfolding contains erase
  contains-erase a b [] = ground arith
  contains-erase a b (x ∷ xs) = elim (dec b x) [
    | yes p ↦ rw (if_pos _ p, contains-erase a b xs) (ground arith)
    | no p ↦ rw (if_neg _ p, contains-erase a b xs) (ground arith)
  ]

  pub contains-append :
      (a : A) (xs ys : List A) → contains a (xs ++ ys) ≡ (contains a xs || contains a ys)
  unfolding contains
  contains-append a [] ys = refl
  contains-append a (x ∷ xs) ys = ground (arith, contains-append a xs ys)

  pub add-IsUnique : (a : A) (xs : List A) → IsUnique xs → IsUnique (add a xs)
  unfolding add
  add-IsUnique a xs u = ground arith

  pub erase-IsUnique : (a : A) (xs : List A) → IsUnique xs → IsUnique (erase a xs)
  unfolding erase
  erase-IsUnique a [] u = tt
  erase-IsUnique a (x ∷ xs) u = elim (dec a x) [
    | yes p ↦ rw (if_pos _ p) (erase-IsUnique a xs u.1)
    | no p ↦
        rw (if_neg _ p) (contains-erase x a xs ∙ (rw u.0 (ground arith)), erase-IsUnique a xs u.1)
  ]
