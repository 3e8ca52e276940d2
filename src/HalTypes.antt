-- ===== src/HalTypes.antt =====
-- The AIDL types that the components exchange:
-- packages/vhal-types/aidl/android/hardware/automotive/vehicle/*.aidl, and `VhalResult` of
-- packages/vhal-types/aidl/impl/4/utils/common/include/VehicleUtils.h.
use vhal_core.Prelude.{ℕ, Bool, true, false, Option, List, [], ◌∷◌, ◌&&◌, ◌==◌, ℕ_discrete}
use vhal_core.Prelude.Int.{ℤ, eqb_ℤ}
use vhal_core.Floats.{Floats}

-- `StatusCode`
pub data StatusCode : Type 0 where
  ok_code : StatusCode
  try_again : StatusCode
  invalid_arg : StatusCode
  not_available : StatusCode
  access_denied : StatusCode
  internal_error : StatusCode
  not_available_disabled : StatusCode
  not_available_speed_low : StatusCode
  not_available_speed_high : StatusCode
  not_available_poor_visibility : StatusCode
  not_available_safety : StatusCode
  not_available_subsystem_not_connected : StatusCode

-- `VhalResult<T>`: the message of an error is for logs only and is left out.
pub data VhalResult {ℓ} (A : Type ℓ) : Type ℓ where
  ok : A → VhalResult A
  err : StatusCode → VhalResult A

-- `RawPropValues`. A byte is a number below 256, and a text is the list of its bytes.
pub record RawPropValues (F : Type 0) : Type 0 where
  pub int32_values : List ℤ
  pub float_values : List F
  pub int64_values : List ℤ
  pub byte_values : List ℕ
  pub string_value : List ℕ

-- `VehiclePropertyStatus` (`UNAVAILABLE` and `NOT_AVAILABLE_GENERAL` are one value).
pub data VehiclePropertyStatus : Type 0 where
  available : VehiclePropertyStatus
  unavailable : VehiclePropertyStatus
  error : VehiclePropertyStatus
  disabled : VehiclePropertyStatus
  speed_low : VehiclePropertyStatus
  speed_high : VehiclePropertyStatus
  poor_visibility : VehiclePropertyStatus
  safety : VehiclePropertyStatus
  subsystem_not_connected : VehiclePropertyStatus

unfoldable pub VehiclePropertyStatus-discrete : Discrete VehiclePropertyStatus
VehiclePropertyStatus-discrete = hlevel

-- `VehiclePropValue`. A property or area ID stands for its 32 bits, as a number below 2^32.
pub record VehiclePropValue (F : Type 0) : Type 0 where
  pub timestamp : ℤ
  pub area_id : ℕ
  pub prop : ℕ
  pub status : VehiclePropertyStatus
  pub value : RawPropValues F

-- `VehiclePropertyAccess`
pub data VehiclePropertyAccess : Type 0 where
  no_access : VehiclePropertyAccess
  read : VehiclePropertyAccess
  write : VehiclePropertyAccess
  read_write : VehiclePropertyAccess

-- `VehiclePropertyChangeMode`
pub data VehiclePropertyChangeMode : Type 0 where
  static : VehiclePropertyChangeMode
  on_change : VehiclePropertyChangeMode
  continuous : VehiclePropertyChangeMode

-- `HasSupportedValueInfo`
pub record HasSupportedValueInfo : Type 0 where
  pub has_min_supported_value : Bool
  pub has_max_supported_value : Bool
  pub has_supported_values_list : Bool

-- `VehicleAreaConfig`, with the fields that the modelled code reads.
pub record VehicleAreaConfig (F : Type 0) : Type 0 where
  pub area_id : ℕ
  pub min_int32_value : ℤ
  pub max_int32_value : ℤ
  pub min_int64_value : ℤ
  pub max_int64_value : ℤ
  pub min_float_value : F
  pub max_float_value : F
  pub access : VehiclePropertyAccess
  pub support_variable_update_rate : Bool
  pub has_supported_value_info : Option HasSupportedValueInfo

-- `VehiclePropConfig`, with the fields that the modelled code reads.
pub record VehiclePropConfig (F : Type 0) : Type 0 where
  pub prop : ℕ
  pub area_configs : List (VehicleAreaConfig F)
  pub config_array : List ℤ
  pub access : VehiclePropertyAccess
  pub change_mode : VehiclePropertyChangeMode
  pub min_sample_rate : F
  pub max_sample_rate : F

-- `PropIdAreaId` of VehicleUtils.h.
pub record PropIdAreaId : Type 0 where
  pub prop_id : ℕ
  pub area_id : ℕ

unfoldable pub PropIdAreaId-discrete : Discrete PropIdAreaId
PropIdAreaId-discrete = hlevel ℕ_discrete

-- `std::vector<T>::operator==`, element by element.
abbrev pub eq_vector {ℓ} : {A : Type ℓ} → (A → A → Bool) → List A → List A → Bool
eq_vector eq [] [] = true
eq_vector eq (x ∷ xs) (y ∷ ys) = eq x y && eq_vector eq xs ys
eq_vector eq _ _ = false

-- `RawPropValues::operator==`, as AIDL derives it.
abbrev pub eq_raw : {F : Type 0} → Floats F → RawPropValues F → RawPropValues F → Bool
eq_raw f a b =
    eq_vector eqb_ℤ a.int32_values b.int32_values
    && (eq_vector f.eq_float a.float_values b.float_values
        && (eq_vector eqb_ℤ a.int64_values b.int64_values
            && (eq_vector ◌==◌ a.byte_values b.byte_values
                && eq_vector ◌==◌ a.string_value b.string_value)))

-- A value with nothing in it, `{}`.
abbrev pub empty_raw : {F : Type 0} → RawPropValues F
empty_raw = record {
  int32_values = [];
  float_values = [];
  int64_values = [];
  byte_values = [];
  string_value = [];
}
