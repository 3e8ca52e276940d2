-- ===== src/Prelude/Dict.antt =====
-- `std::unordered_map` as an association list: the order of its entries stands for the order in
-- which the code iterates, of which the language promises nothing.
use mathlib.Core.Path.{◌≡◌, refl, ◌∙◌}
use mathlib.Core.Logic.{ite, if_pos, if_neg}
use mathlib.Core.Bool.{true, false}
use mathlib.Core.List.{List, [], ◌∷◌, map, lookup}
use mathlib.Core.Option.{none, some}
use native.Mathlib.Omega.{arith}
use vhal_core.Prelude.Lists.{All}
use vhal_core.Prelude.Sets.{contains, IsUnique}

abbrev pub Dict {ℓ} : Type ℓ → Type ℓ → Type ℓ
Dict K V = List (K × V)

module _ {ℓ} {K V : Type ℓ} (dec : Discrete K) where
  -- `m[k] = v`
  unfoldable pub insert : K → V → Dict K V → Dict K V
  insert k v [] = (k, v) ∷ []
  insert k v (e ∷ m) = ite (dec k e.0) ((k, v) ∷ m) (e ∷ insert k v m)

  -- `m.erase(k)`
  unfoldable pub remove : K → Dict K V → Dict K V
  remove k [] = []
  remove k (e ∷ m) = ite (dec k e.0) (remove k m) (e ∷ remove k m)

  pub lookup-insert :
      (j k : K) (v : V) (m : Dict K V)
      → lookup dec j (insert k v m) ≡ ite (dec j k) (some v) (lookup dec j m)
  unfolding lookup insert
  lookup-insert j k v [] = ground arith
  lookup-insert j k v (e ∷ m) = ground (arith, lookup-insert j k v m)

  pub lookup-insert_same : (k : K) (v : V) (m : Dict K V) → lookup dec k (insert k v m) ≡ some v
  lookup-insert_same k v m = lookup-insert k k v m ∙ (rw (if_pos (dec k k) refl) refl)

  pub lookup-remove :
      (j k : K) (m : Dict K V) → lookup dec j (remove k m) ≡ ite (dec j k) none (lookup dec j m)
  unfolding lookup remove
  lookup-remove j k [] = ground arith
  lookup-remove j k (e ∷ m) = ground (arith, lookup-remove j k m)

  pub insert-All {μ} :
      (P : K × V → Type μ) (k : K) (v : V) (m : Dict K V)
      → P (k, v)
      → All P m
      → All P (insert k v m)
  unfolding insert
  insert-All P k v [] h a = (h, tt)
  insert-All P k v (e ∷ m) h a = ground (arith, insert-All P k v m h a.1)

  pub remove-All {μ} : (P : K × V → Type μ) (k : K) (m : Dict K V) → All P m → All P (remove k m)
  unfolding remove
  remove-All P k [] a = tt
  remove-All P k (e ∷ m) a = ground (arith, remove-All P k m a.1)

abbrev pub keys {ℓ} : {K V : Type ℓ} → Dict K V → List K
keys = map λ e. e.0

module _ {ℓ} {K V : Type ℓ} (dec : Discrete K) where
  -- A key stands once: what the C++ container ensures.
  abbrev pub IsMap : Dict K V → Type 0
  IsMap m = IsUnique dec (keys m)

  contains-keys-insert :
      (j k : K) (v : V) (m : Dict K V)
      → contains dec j (keys (insert dec k v m)) ≡ ite (dec j k) true (contains dec j (keys m))
  unfolding contains insert
  contains-keys-insert j k v [] = refl
  contains-keys-insert j k v (e ∷ m) = elim (dec k e.0) [
    | yes p ↦ rw (if_pos _ p) (ground arith)
    | no p ↦ rw (if_neg _ p, contains-keys-insert j k v m) (ground arith)
  ]

  contains-keys-remove :
      (j k : K) (m : Dict K V)
      → contains dec j (keys m) ≡ false
      → contains dec j (keys (remove dec k m)) ≡ false
  unfolding contains remove
  contains-keys-remove j k [] h = refl
  contains-keys-remove j k (e ∷ m) h = elim (dec k e.0) [
    | yes p ↦ rw (if_pos _ p) (contains-keys-remove j k m (ground arith))
    | no p ↦ rw (if_neg _ p) (ground (arith, contains-keys-remove j k m))
  ]

  pub insert-IsMap : (k : K) (v : V) (m : Dict K V) → IsMap m → IsMap (insert dec k v m)
  unfolding insert contains
  insert-IsMap k v [] u = (refl, tt)
  insert-IsMap k v (e ∷ m) u = elim (dec k e.0) [
    | yes p ↦ rw (if_pos _ p, p) u
    | no p ↦ rw (if_neg _ p) (rw contains-keys-insert (ground arith), insert-IsMap k v m u.1)
  ]

  pub remove-IsMap : (k : K) (m : Dict K V) → IsMap m → IsMap (remove dec k m)
  unfolding remove
  remove-IsMap k [] u = tt
  remove-IsMap k (e ∷ m) u = elim (dec k e.0) [
    | yes p ↦ rw (if_pos _ p) (remove-IsMap k m u.1)
    | no p ↦ rw (if_neg _ p) (contains-keys-remove e.0 k m u.0, remove-IsMap k m u.1)
  ]

  pub lookup_absent :
      (k : K) (m : Dict K V) → contains dec k (keys m) ≡ false → lookup dec k m ≡ none
  unfolding lookup contains
  lookup_absent k [] h = refl
  lookup_absent k (e ∷ m) h = elim (dec k e.0) [
    | yes p ↦ let q : true ≡ false = rw (if_pos _ p) at h in cc
    | no p ↦ rw (if_neg _ p) (lookup_absent k m (rw (if_neg _ p) at h))
  ]

  pub lookup-All {μ} :
      (P : K × V → Type μ) (k : K) (v : V) (m : Dict K V)
      → All P m
      → lookup dec k m ≡ some v
      → P (k, v)
  unfolding lookup
  lookup-All P k v [] a h = cc
  lookup-All P k v (e ∷ m) a h = elim (dec k e.0) [
    | yes p ↦ ground arith
    | no p ↦ lookup-All P k v m a.1 (rw (if_neg _ p) at h)
  ]
