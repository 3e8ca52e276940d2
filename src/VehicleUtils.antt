-- ===== src/VehicleUtils.antt =====
-- packages/vhal-types/aidl/impl/4/utils/common/{include/VehicleUtils.h, src/VehicleUtils.cpp}: the
-- bit fields of a property ID, fresh values, and the checks of a value against its configuration.
-- `stringToPropId` and `stringToArea` look up generated names and are left out.
pub mod Create
pub mod Range
pub mod Mixed
pub mod Sanitize
pub mod Tests
use Prim.Native.Nat.{bit_and, min}
use vhal_core.Prelude.{
  ℕ, zero, suc, ◌+◌, ◌-◌, ◌*◌, ◌/◌, ◌%◌, ◌^◌, ◌≤◌, ◌<◌, ◌≡◌, refl, sym, ap, ◌∙◌, ◌≢◌, ◌↔◌, ◌⊎◌, inl,
  inr, ite, if_pos, if_neg, Bool, true, false, not, ◌&&◌, ◌||◌, Option, none, some, List, [], ◌∷◌,
  ◌++◌, map, lookup, arith, ℕ_discrete, ltb, leb, ◌==◌, if◌then◌else◌, Bool-cases, Option-cases,
  length, get_elem?, is_empty, all, All, All-append, length-append,
}
use vhal_core.Prelude.Int.{
  ℤ, pos, negsuc, ℤ_discrete, ltb_ℤ, eqb_ℤ, ◌≤ℤ◌, ◌<ℤ◌, eq_of_eqb_ℤ, eqb_ℤ_refl,
}
use vhal_core.Prelude.Sets.{
  contains, add, erase, IsUnique, contains-add, contains-erase, contains-append, add-IsUnique,
  erase-IsUnique,
}
use vhal_core.Prelude.Dict.{
  Dict, insert, remove, keys, IsMap, lookup-insert, lookup-remove, insert-All, remove-All,
  insert-IsMap, remove-IsMap, lookup_absent, lookup-All,
}
use vhal_core.HalTypes.{StatusCode, VhalResult, ok, err}
use vhal_core.Floats.{Floats}
use vhal_core.HalTypes.{
  RawPropValues, VehiclePropertyStatus, available, VehiclePropValue, VehicleAreaConfig,
  VehiclePropConfig, empty_raw,
}

-- `VehiclePropertyType`; `other` stands for every number that the enum does not name.
pub data VehiclePropertyType : Type 0 where
  string : VehiclePropertyType
  boolean : VehiclePropertyType
  int32 : VehiclePropertyType
  int32_vec : VehiclePropertyType
  int64 : VehiclePropertyType
  int64_vec : VehiclePropertyType
  float : VehiclePropertyType
  float_vec : VehiclePropertyType
  bytes : VehiclePropertyType
  mixed : VehiclePropertyType
  other : VehiclePropertyType

-- The enum's values, from VehiclePropertyType.aidl.
unfoldable pub type_of_number : ℕ → VehiclePropertyType
type_of_number n =
    if n == 0x00100000
    then string
    else if n == 0x00200000
    then boolean
    else if n == 0x00400000
    then int32
    else if n == 0x00410000
    then int32_vec
    else if n == 0x00500000
    then int64
    else if n == 0x00510000
    then int64_vec
    else if n == 0x00600000
    then float
    else if n == 0x00610000
    then float_vec
    else if n == 0x00700000
    then bytes
    else if n == 0x00e00000
    then mixed
    else other

-- `getPropType`, by `VehiclePropertyType::MASK`
unfoldable pub get_prop_type : ℕ → VehiclePropertyType
unfolding type_of_number
get_prop_type prop = type_of_number (bit_and prop 0x00ff0000)

-- `getPropGroup` as a number, by `VehiclePropertyGroup::MASK`
unfoldable pub get_prop_group : ℕ → ℕ
get_prop_group prop = bit_and prop 0xf0000000

-- `VehiclePropertyGroup::VENDOR`
abbrev pub vendor_group : ℕ
vendor_group = 0x20000000

-- `getPropArea` as a number, by `VehicleArea::MASK`
unfoldable pub get_prop_area : ℕ → ℕ
get_prop_area prop = bit_and prop 0x0f000000

-- `isGlobalProp`: the area is `VehicleArea::GLOBAL`
unfoldable pub is_global_prop : ℕ → Bool
unfolding get_prop_area
is_global_prop prop = get_prop_area prop == 0x01000000

module _ {F : Type 0} where
  -- The loop of `getAreaConfig`.
  unfoldable pub find_area_config : ℕ → List (VehicleAreaConfig F) → Option (VehicleAreaConfig F)
  find_area_config area [] = none
  find_area_config area (c ∷ cs) = if c.area_id == area then some c else find_area_config area cs

  -- `getAreaConfig`; `none` is the null pointer.
  unfoldable pub get_area_config : ℕ → ℕ → VehiclePropConfig F → Option (VehicleAreaConfig F)
  unfolding find_area_config is_global_prop
  get_area_config prop area config = elim config.area_configs [
    | [] ↦ none
    | c ∷ cs ↦ if is_global_prop prop then some c else find_area_config area (c ∷ cs)
  ]

  -- `getVehicleRawValueVectorSize`
  unfoldable pub get_vehicle_raw_value_vector_size : RawPropValues F → VehiclePropertyType → ℕ
  get_vehicle_raw_value_vector_size value int32 = min (length value.int32_values) 1
  get_vehicle_raw_value_vector_size value boolean = min (length value.int32_values) 1
  get_vehicle_raw_value_vector_size value float = min (length value.float_values) 1
  get_vehicle_raw_value_vector_size value int64 = min (length value.int64_values) 1
  get_vehicle_raw_value_vector_size value int32_vec = length value.int32_values
  get_vehicle_raw_value_vector_size value float_vec = length value.float_values
  get_vehicle_raw_value_vector_size value int64_vec = length value.int64_values
  get_vehicle_raw_value_vector_size value bytes = length value.byte_values
  get_vehicle_raw_value_vector_size value string = 0
  get_vehicle_raw_value_vector_size value mixed = 0
  get_vehicle_raw_value_vector_size value other = 0

  -- `getVehiclePropValueSize`, a `size_t`
  unfoldable pub get_vehicle_prop_value_size : VehiclePropValue F → ℕ
  get_vehicle_prop_value_size p =
      (8
        + 4
        + 4
        + 4
        + length p.value.int32_values * 4
        + length p.value.int64_values * 8
        + length p.value.float_values * 4
        + length p.value.byte_values
        + length p.value.string_value)
      % 2 ^ 64

-- `Result<void>` of the checks, less the message; `fault` is a read outside of `configArray`.
pub data Check : Type 0 where
  passed : Check
  refused : Check
  fault : Check

-- `value.size() != count` is an error; else go on.
abbrev pub expect : Bool → Check → Check
expect true k = k
expect false k = refused

-- A read of `configArray`.
abbrev pub with_elem : List ℤ → ℕ → (ℤ → Check) → Check
with_elem xs i k = elim (get_elem? xs i) [ none ↦ fault | some x ↦ k x ]

-- `static_cast<size_t>` of an `int32_t`
abbrev pub to_size : ℤ → ℕ
to_size (pos n) = n
to_size (negsuc n) = 2 ^ 64 - suc n

-- `if (configArray[i] == 1) { count++; }`
abbrev pub one_if_one : ℤ → ℕ
one_if_one c = if eqb_ℤ c (pos 1) then 1 else 0

module _ {F : Type 0} where
  unfoldable pub check_vendor_mixed_prop_value : RawPropValues F → List ℤ → Check
  check_vendor_mixed_prop_value value config_array = with_elem config_array 1 λ c1.
      with_elem config_array 2 λ c2. with_elem config_array 3 λ c3.
        expect (length value.int32_values == (one_if_one c1 + one_if_one c2 + to_size c3) % 2 ^ 64)
          (with_elem config_array 4 λ c4. with_elem config_array 5 λ c5.
            expect (length value.int64_values == (one_if_one c4 + to_size c5) % 2 ^ 64) (
              with_elem config_array 6 λ c6. with_elem config_array 7 λ c7.
                expect (length value.float_values == (one_if_one c6 + to_size c7) % 2 ^ 64) (
                  with_elem config_array 8 λ c8.
                    expect (to_size c8 == 0 || length value.byte_values == to_size c8) passed)))

  -- The `switch` of `checkPropValue`.
  unfoldable pub check_type : VehiclePropertyType → VehiclePropValue F → VehiclePropConfig F → Check
  check_type boolean v config = expect (length v.value.int32_values == 1) passed
  check_type int32 v config = expect (length v.value.int32_values == 1) passed
  check_type int32_vec v config = expect (leb 1 (length v.value.int32_values)) passed
  check_type int64 v config = expect (length v.value.int64_values == 1) passed
  check_type int64_vec v config = expect (leb 1 (length v.value.int64_values)) passed
  check_type float v config = expect (length v.value.float_values == 1) passed
  check_type float_vec v config = expect (leb 1 (length v.value.float_values)) passed
  check_type bytes v config = passed
  check_type string v config = passed
  check_type mixed v config =
      if get_prop_group v.prop == vendor_group
      then check_vendor_mixed_prop_value v.value config.config_array
      else passed
  check_type other v config = refused

  unfoldable pub check_prop_value : VehiclePropValue F → VehiclePropConfig F → Check
  check_prop_value v config = check_type (get_prop_type v.prop) v config

-- A loop of `checkValueRange` over `int32_t` or `int64_t` elements.
unfoldable pub check_int_range : ℤ → ℤ → List ℤ → Check
check_int_range lo hi [] = passed
check_int_range lo hi (x ∷ xs) = expect (not (ltb_ℤ x lo || ltb_ℤ hi x)) (check_int_range lo hi xs)

-- Without a configured range, `0, 0`, there is nothing to check.
abbrev pub check_ints : ℤ → ℤ → List ℤ → Check
check_ints lo hi xs =
    if eqb_ℤ lo (pos 0) && eqb_ℤ hi (pos 0) then passed else check_int_range lo hi xs

module _ {F : Type 0} (f : Floats F) where
  unfoldable pub check_float_range : F → F → List F → Check
  check_float_range lo hi [] = passed
  check_float_range lo hi (x ∷ xs) =
      expect (not (f.lt_float x lo || f.lt_float hi x)) (check_float_range lo hi xs)

  abbrev pub check_floats : F → F → List F → Check
  check_floats lo hi xs =
      if f.eq_float lo f.zero_float && f.eq_float hi f.zero_float
      then passed
      else check_float_range lo hi xs

  -- The `switch` of `checkValueRange`.
  unfoldable pub check_range : VehiclePropertyType → RawPropValues F → VehicleAreaConfig F → Check
  check_range int32 v c = check_ints c.min_int32_value c.max_int32_value v.int32_values
  check_range int32_vec v c = check_ints c.min_int32_value c.max_int32_value v.int32_values
  check_range int64 v c = check_ints c.min_int64_value c.max_int64_value v.int64_values
  check_range int64_vec v c = check_ints c.min_int64_value c.max_int64_value v.int64_values
  check_range float v c = check_floats c.min_float_value c.max_float_value v.float_values
  check_range float_vec v c = check_floats c.min_float_value c.max_float_value v.float_values
  check_range _ v c = passed

  unfoldable pub check_value_range : VehiclePropValue F → Option (VehicleAreaConfig F) → Check
  check_value_range v none = passed
  check_value_range v (some c) = check_range (get_prop_type v.prop) v.value c

  -- The elements of a vector rounded to multiples of the resolution, and cast back.
  unfoldable pub round_ints : (F → ℤ) → F → List ℤ → List ℤ
  round_ints cast resolution [] = []
  round_ints cast resolution (x ∷ xs) =
      cast (f.mul_float (f.round (f.div_float (f.of_int x) resolution)) resolution)
      ∷ round_ints cast resolution xs

  unfoldable pub round_floats : F → List F → List F
  round_floats resolution [] = []
  round_floats resolution (x ∷ xs) =
      f.mul_float (f.round (f.div_float x resolution)) resolution ∷ round_floats resolution xs

  -- `sanitizeByResolution`: `roundToNearestResolution`, which leaves at resolution 0, on each vector
  unfoldable pub sanitize_by_resolution : F → RawPropValues F → RawPropValues F
  unfolding round_ints round_floats
  sanitize_by_resolution resolution v = if f.eq_float resolution f.zero_float then v else record v {
    int32_values = round_ints f.to_int32 resolution v.int32_values;
    float_values = round_floats resolution v.float_values;
    int64_values = round_ints f.to_int64 resolution v.int64_values;
  }

-- `v.resize(n)` of an empty vector
abbrev pub zeros {ℓ} : {A : Type ℓ} → A → ℕ → List A
zeros a zero = []
zeros a (suc n) = a ∷ zeros a n

module _ {F : Type 0} (f : Floats F) where
  -- The `switch` of `createVehiclePropValueVec`.
  unfoldable pub create_raw : VehiclePropertyType → ℕ → RawPropValues F
  create_raw int32 n = record (empty_raw {F = F}) { int32_values = zeros (pos 0) 1 }
  create_raw boolean n = record (empty_raw {F = F}) { int32_values = zeros (pos 0) 1 }
  create_raw int32_vec n = record (empty_raw {F = F}) { int32_values = zeros (pos 0) n }
  create_raw float n = record (empty_raw {F = F}) { float_values = zeros f.zero_float 1 }
  create_raw float_vec n = record (empty_raw {F = F}) { float_values = zeros f.zero_float n }
  create_raw int64 n = record (empty_raw {F = F}) { int64_values = zeros (pos 0) 1 }
  create_raw int64_vec n = record (empty_raw {F = F}) { int64_values = zeros (pos 0) n }
  create_raw bytes n = record (empty_raw {F = F}) { byte_values = zeros 0 n }
  create_raw string n = empty_raw
  create_raw mixed n = empty_raw
  create_raw other n = empty_raw

  -- `createVehiclePropValueVec`: a `new VehiclePropValue`, resized by its type
  unfoldable pub create_vehicle_prop_value_vec : VehiclePropertyType → ℕ → VehiclePropValue F
  create_vehicle_prop_value_vec type n = record {
    timestamp = pos 0;
    area_id = 0;
    prop = 0;
    status = available;
    value = create_raw type n;
  }
