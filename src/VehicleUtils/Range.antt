-- ===== src/VehicleUtils/Range.antt =====
-- `checkValueRange` finds exactly the values out of range.
use vhal_core.Prelude.{
  ◌≡◌, refl, ◌↔◌, ◌⊎◌, inl, inr, true, false, ◌&&◌, some, List, [], ◌∷◌, arith, Bool-cases, All,
}
use vhal_core.Prelude.Int.{ℤ, pos, eqb_ℤ, ◌≤ℤ◌, eq_of_eqb_ℤ}
use vhal_core.Floats.{Floats}
use vhal_core.HalTypes.{RawPropValues, VehiclePropValue, VehicleAreaConfig}
use vhal_core.VehicleUtils.{
  VehiclePropertyType, int32, int32_vec, int64, int64_vec, get_prop_type, passed, check_int_range,
  check_ints, check_float_range, check_floats, float, float_vec, check_range, check_value_range,
}

-- Every element lies between the limits.
abbrev pub WithinInts : ℤ → ℤ → List ℤ → Type 0
WithinInts lo hi = All λ x. (lo ≤ℤ x) × (x ≤ℤ hi)

pub check_int_range_lem :
    (lo hi : ℤ) (xs : List ℤ) → (check_int_range lo hi xs ≡ passed) ↔ WithinInts lo hi xs
unfolding check_int_range
check_int_range_lem lo hi [] = (λ e. tt, λ a. refl)
check_int_range_lem lo hi (x ∷ xs) =
    let rest = check_int_range_lem lo hi xs in
    (λ e. ground (arith, rest.0), λ a. ground (arith, rest.1 a.1))

check_ints_lem :
    (lo hi : ℤ) (xs : List ℤ)
    → (check_ints lo hi xs ≡ passed) ↔ (((lo ≡ pos 0) × (hi ≡ pos 0)) ⊎ WithinInts lo hi xs)
check_ints_lem lo hi xs =
    let range = check_int_range_lem lo hi xs in
    (
      λ e. elim (Bool-cases (eqb_ℤ lo (pos 0) && eqb_ℤ hi (pos 0))) [
        | inl unset ↦ inl (ground (arith, eq_of_eqb_ℤ lo (pos 0), eq_of_eqb_ℤ hi (pos 0)))
        | inr set ↦ inr (range.0 (rw set at e))
      ],
      λ h. elim h [ inl z ↦ ground arith | inr a ↦ ground (arith, range.1 a) ],
    )

module _ {F : Type 0} (f : Floats F) where
  -- No comparison of an element with a limit says that it is outside; a NaN passes.
  abbrev pub WithinFloats : F → F → List F → Type 0
  WithinFloats lo hi = All λ x. (f.lt_float x lo ≡ false) × (f.lt_float hi x ≡ false)

  check_float_range_lem :
      (lo hi : F) (xs : List F) → (check_float_range f lo hi xs ≡ passed) ↔ WithinFloats lo hi xs
  unfolding check_float_range
  check_float_range_lem lo hi [] = (λ e. tt, λ a. refl)
  check_float_range_lem lo hi (x ∷ xs) =
      let rest = check_float_range_lem lo hi xs in
      (λ e. ground (arith, rest.0), λ a. ground (arith, rest.1 a.1))

  check_floats_lem :
      (lo hi : F) (xs : List F)
      → (check_floats f lo hi xs ≡ passed) ↔ (
          ((f.eq_float lo f.zero_float ≡ true) × (f.eq_float hi f.zero_float ≡ true))
          ⊎ WithinFloats lo hi xs)
  check_floats_lem lo hi xs =
      let range = check_float_range_lem lo hi xs in
      (
        λ e. elim (Bool-cases (f.eq_float lo f.zero_float && f.eq_float hi f.zero_float)) [
          | inl unset ↦ inl (ground arith)
          | inr set ↦ inr (range.0 (rw set at e))
        ],
        λ h. elim h [ inl z ↦ ground arith | inr a ↦ ground (arith, range.1 a) ],
      )

  -- What `checkValueRange` promises of a value of the type: a range of 0 to 0 is none.
  abbrev pub IsInRange : VehiclePropertyType → RawPropValues F → VehicleAreaConfig F → Type 0
  IsInRange int32 v c =
      ((c.min_int32_value ≡ pos 0) × (c.max_int32_value ≡ pos 0))
      ⊎ WithinInts c.min_int32_value c.max_int32_value v.int32_values
  IsInRange int32_vec v c =
      ((c.min_int32_value ≡ pos 0) × (c.max_int32_value ≡ pos 0))
      ⊎ WithinInts c.min_int32_value c.max_int32_value v.int32_values
  IsInRange int64 v c =
      ((c.min_int64_value ≡ pos 0) × (c.max_int64_value ≡ pos 0))
      ⊎ WithinInts c.min_int64_value c.max_int64_value v.int64_values
  IsInRange int64_vec v c =
      ((c.min_int64_value ≡ pos 0) × (c.max_int64_value ≡ pos 0))
      ⊎ WithinInts c.min_int64_value c.max_int64_value v.int64_values
  IsInRange float v c =
      ((f.eq_float c.min_float_value f.zero_float ≡ true)
        × (f.eq_float c.max_float_value f.zero_float ≡ true))
      ⊎ WithinFloats c.min_float_value c.max_float_value v.float_values
  IsInRange float_vec v c =
      ((f.eq_float c.min_float_value f.zero_float ≡ true)
        × (f.eq_float c.max_float_value f.zero_float ≡ true))
      ⊎ WithinFloats c.min_float_value c.max_float_value v.float_values
  IsInRange _ v c = Unit {0}

  check_range_lem :
      (t : VehiclePropertyType) (v : RawPropValues F) (c : VehicleAreaConfig F)
      → (check_range f t v c ≡ passed) ↔ IsInRange t v c
  unfolding check_range
  check_range_lem int32 v c = check_ints_lem c.min_int32_value c.max_int32_value v.int32_values
  check_range_lem int32_vec v c = check_ints_lem c.min_int32_value c.max_int32_value v.int32_values
  check_range_lem int64 v c = check_ints_lem c.min_int64_value c.max_int64_value v.int64_values
  check_range_lem int64_vec v c = check_ints_lem c.min_int64_value c.max_int64_value v.int64_values
  check_range_lem float v c = check_floats_lem c.min_float_value c.max_float_value v.float_values
  check_range_lem float_vec v c =
      check_floats_lem c.min_float_value c.max_float_value v.float_values
  check_range_lem _ v c = (λ e. tt, λ h. refl)

  -- With an area configuration `checkValueRange` passes a value exactly if no element of the vector of the property's type is below the minimum or above the maximum, or both limits are 0, or the type has no range; a float that is neither below nor above, such as a NaN, passes.
  pub check_value_range_lem :
      (v : VehiclePropValue F) (c : VehicleAreaConfig F)
      → (check_value_range f v (some c) ≡ passed) ↔ IsInRange (get_prop_type v.prop) v.value c
  unfolding check_value_range
  check_value_range_lem v c = check_range_lem (get_prop_type v.prop) v.value c
