-- ===== src/VehicleUtils/Create.antt =====
-- `createVehiclePropValueVec` against `checkPropValue` and `getVehicleRawValueVectorSize`.
use vhal_core.Prelude.{
  ℕ, zero, suc, ◌≡◌, refl, ◌≢◌, Bool, true, false, arith, if◌then◌else◌, length,
}
use vhal_core.Prelude.Int.{pos}
use vhal_core.Floats.{Floats}
use vhal_core.HalTypes.{VehiclePropConfig}
use vhal_core.VehicleUtils.{
  VehiclePropertyType, string, int32_vec, int64_vec, float_vec, bytes, mixed, other, get_prop_type,
  check_type, check_prop_value, passed, refused, zeros, create_raw, create_vehicle_prop_value_vec,
  get_vehicle_raw_value_vector_size,
}

length-zeros {ℓ} : {A : Type ℓ} (a : A) (n : ℕ) → length (zeros a n) ≡ n
length-zeros a zero = refl
length-zeros a (suc n) = omega (arith, length-zeros a n)

-- The vector size that a value of the type has, if it is created with `n`.
unfoldable pub created_size : VehiclePropertyType → ℕ → ℕ
created_size string n = 0
created_size mixed n = 0
created_size other n = 0
created_size int32_vec n = n
created_size int64_vec n = n
created_size float_vec n = n
created_size bytes n = n
created_size _ n = 1

-- The type is not one of the enum's.
unfoldable pub is_other : VehiclePropertyType → Bool
is_other other = true
is_other _ = false

module _ {F : Type 0} (f : Floats F) where
  -- A fresh value has the vector size that its type asks for: `n` for a vector type, 1 for a single
  -- value, and 0 for a string or a mixed or unknown type.
  pub raw_value_vector_size-create :
      (t : VehiclePropertyType) (n : ℕ)
      → get_vehicle_raw_value_vector_size (create_vehicle_prop_value_vec f t n).value t
        ≡ created_size t n
  unfolding get_vehicle_raw_value_vector_size create_vehicle_prop_value_vec create_raw created_size
  raw_value_vector_size-create string n = refl
  raw_value_vector_size-create t n =
      ground (arith, length-zeros (pos 0) n, length-zeros f.zero_float n, length-zeros {A = ℕ} 0 n)

  check_type-create :
      (t : VehiclePropertyType) (prop n : ℕ) (config : VehiclePropConfig F)
      → t ≢ mixed
      → check_type t (record (create_vehicle_prop_value_vec f t (suc n)) { prop = prop }) config
        ≡ (if is_other t then refused else passed)
  unfolding check_type create_vehicle_prop_value_vec create_raw is_other
  check_type-create string prop n config h = refl
  check_type-create mixed prop n config h = absurd (h refl)
  check_type-create t prop n config h =
      ground (arith, length-zeros (pos 0) n, length-zeros f.zero_float n)

  -- A fresh value of a property whose type is not MIXED, with at least one element, passes `checkPropValue` exactly if the property's type is one that the enum names.
  pub check_prop_value-create :
      (prop n : ℕ) (config : VehiclePropConfig F)
      → get_prop_type prop ≢ mixed
      → check_prop_value
          (record (create_vehicle_prop_value_vec f (get_prop_type prop) (suc n)) { prop = prop })
          config
        ≡ (if is_other (get_prop_type prop) then refused else passed)
  unfolding check_prop_value
  check_prop_value-create prop n config h = check_type-create (get_prop_type prop) prop n config h
