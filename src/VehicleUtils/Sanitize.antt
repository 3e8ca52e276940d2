-- ===== src/VehicleUtils/Sanitize.antt =====
-- `sanitizeByResolution` changes values, never the shape that `checkPropValue` looks at.
use vhal_core.Prelude.{suc, ◌≡◌, refl, ap, List, [], ◌∷◌, arith, length}
use vhal_core.Prelude.Int.{ℤ}
use vhal_core.Floats.{Floats}
use vhal_core.HalTypes.{RawPropValues, VehiclePropValue, VehiclePropConfig}
use vhal_core.VehicleUtils.{
  VehiclePropertyType, mixed, get_prop_type, check_type, check_prop_value,
  check_vendor_mixed_prop_value, round_ints, round_floats, sanitize_by_resolution,
}

module _ {F : Type 0} (f : Floats F) where
  length-round_ints :
      (cast : F → ℤ) (r : F) (xs : List ℤ) → length (round_ints f cast r xs) ≡ length xs
  unfolding round_ints
  length-round_ints cast r [] = refl
  length-round_ints cast r (x ∷ xs) = ap suc (length-round_ints cast r xs)

  length-round_floats : (r : F) (xs : List F) → length (round_floats f r xs) ≡ length xs
  unfolding round_floats
  length-round_floats r [] = refl
  length-round_floats r (x ∷ xs) = ap suc (length-round_floats r xs)

  length-sanitize :
      (r : F) (v : RawPropValues F)
      → (length (sanitize_by_resolution f r v).int32_values ≡ length v.int32_values)
        × (length (sanitize_by_resolution f r v).float_values ≡ length v.float_values)
        × (length (sanitize_by_resolution f r v).int64_values ≡ length v.int64_values)
        × ((sanitize_by_resolution f r v).byte_values ≡ v.byte_values)
  unfolding sanitize_by_resolution
  length-sanitize r v = ground (
    arith,
    length-round_ints f.to_int32 r v.int32_values,
    length-round_ints f.to_int64 r v.int64_values,
    length-round_floats r v.float_values,
  )

  check_mixed-sanitize :
      (r : F) (v : RawPropValues F) (config_array : List ℤ)
      → check_vendor_mixed_prop_value (sanitize_by_resolution f r v) config_array
        ≡ check_vendor_mixed_prop_value v config_array
  unfolding check_vendor_mixed_prop_value
  check_mixed-sanitize r v config_array =
      let (ints, floats, longs, bytes) = length-sanitize r v in rw (ints, floats, longs, bytes)

  check_type-sanitize :
      (r : F) (t : VehiclePropertyType) (v : VehiclePropValue F) (config : VehiclePropConfig F)
      → check_type t (record v { value = sanitize_by_resolution f r v.value }) config
        ≡ check_type t v config
  unfolding check_type
  check_type-sanitize r mixed v config = rw check_mixed-sanitize
  check_type-sanitize r t v config = ground (arith, length-sanitize r v.value)

  -- Sanitizing a value at any resolution leaves the verdict of `checkPropValue` as it is.
  pub check_prop_value-sanitize :
      (r : F) (v : VehiclePropValue F) (config : VehiclePropConfig F)
      → check_prop_value (record v { value = sanitize_by_resolution f r v.value }) config
        ≡ check_prop_value v config
  unfolding check_prop_value
  check_prop_value-sanitize r v config = check_type-sanitize r (get_prop_type v.prop) v config
