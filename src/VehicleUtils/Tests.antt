-- ===== src/VehicleUtils/Tests.antt =====
-- The checks at concrete values, with whole numbers for floats.
use vhal_core.Prelude.{
  ℕ, ◌-◌, ◌*◌, ◌/◌, ◌≡◌, refl, ◌↔◌, inl, Bool, false, none, some, [], ◌∷◌, arith, ltb, leb, ◌==◌,
}
use vhal_core.Prelude.Int.{ℤ, pos, negsuc}
use vhal_core.Floats.{Floats}
use vhal_core.HalTypes.{
  read_write, on_change, RawPropValues, available, VehiclePropValue, VehicleAreaConfig,
  VehiclePropConfig, empty_raw,
}
use vhal_core.VehicleUtils.Create.{created_size, is_other, check_prop_value-create}
use vhal_core.VehicleUtils.Range.{IsInRange, check_value_range_lem}
use vhal_core.VehicleUtils.Mixed.{Layout, to_config_array, check_vendor_mixed_prop_value_lem}
use vhal_core.VehicleUtils.{
  int32, get_prop_type, get_prop_group, is_global_prop, check_type, check_prop_value,
  check_int_range, check_range, check_value_range, check_vendor_mixed_prop_value, round_ints,
  round_floats, sanitize_by_resolution, create_raw, create_vehicle_prop_value_vec,
  get_vehicle_raw_value_vector_size, get_vehicle_prop_value_size, passed, refused, get_area_config,
}

program : Unit {0}
unfolding get_prop_type get_prop_group is_global_prop check_type check_prop_value check_int_range
    check_range check_value_range check_vendor_mixed_prop_value round_ints round_floats
    sanitize_by_resolution create_raw create_vehicle_prop_value_vec
    get_vehicle_raw_value_vector_size get_vehicle_prop_value_size created_size is_other
    get_area_config
program = tt

abbrev eq_nat : ℕ → ℕ → Bool
eq_nat a b = a == b

-- Natural numbers in the place of floats.
abbrev pub nat_floats : Floats ℕ
nat_floats = record {
  zero_float = 0;
  max_float = 1000000;
  epsilon = 1;
  one_second_in_nanos = 1000000000;
  eq_float = eq_nat;
  lt_float = ltb;
  le_float = leb;
  sub_float = λ a b. a - b;
  mul_float = λ a b. a * b;
  div_float = λ a b. a / b;
  round = λ a. a;
  abs = λ a. a;
  log10 = λ a. a;
  of_int = λ i. elim i [ pos n ↦ n | negsuc n ↦ 0 ];
  to_int32 = pos;
  to_int64 = pos;
}

-- HVAC_FAN_SPEED, an INT32 property of the seats.
abbrev hvac_fan_speed : ℕ
hvac_fan_speed = 0x15400500

abbrev fan_config : VehicleAreaConfig ℕ
fan_config = record {
  area_id = 1;
  min_int32_value = pos 1;
  max_int32_value = pos 7;
  min_int64_value = pos 0;
  max_int64_value = pos 0;
  min_float_value = 0;
  max_float_value = 0;
  access = read_write;
  support_variable_update_rate = false;
  has_supported_value_info = none;
}

abbrev prop_config : VehiclePropConfig ℕ
prop_config = record {
  prop = hvac_fan_speed;
  area_configs = fan_config ∷ [];
  config_array = [];
  access = read_write;
  change_mode = on_change;
  min_sample_rate = 0;
  max_sample_rate = 0;
}

abbrev fan_speed : ℤ → VehiclePropValue ℕ
fan_speed n = record {
  timestamp = pos 0;
  area_id = 1;
  prop = hvac_fan_speed;
  status = available;
  value = record (empty_raw {F = ℕ}) { int32_values = n ∷ [] };
}

fan_type : (get_prop_type hvac_fan_speed ≡ int32) × (is_global_prop hvac_fan_speed ≡ false)
unfolding program
fan_type = (refl, refl)

fan_checks :
    (check_prop_value (fan_speed (pos 9)) prop_config ≡ passed)
    × (check_value_range nat_floats
          (fan_speed (pos 9))
          (get_area_config hvac_fan_speed 1 prop_config)
        ≡ refused)
    × (get_vehicle_prop_value_size (fan_speed (pos 9)) ≡ 24)
unfolding program
fan_checks = (refl, refl, refl)

check_prop_value-create_example :
    check_prop_value
      (record (create_vehicle_prop_value_vec nat_floats (get_prop_type hvac_fan_speed) 1) {
        prop = hvac_fan_speed;
      })
      prop_config
    ≡ passed
unfolding program
check_prop_value-create_example =
    check_prop_value-create nat_floats hvac_fan_speed 0 prop_config (λ e. cc)

check_value_range_lem_example :
    (check_value_range nat_floats (fan_speed (pos 3)) (some fan_config) ≡ passed)
    ↔ IsInRange nat_floats int32 (fan_speed (pos 3)).value fan_config
unfolding program
check_value_range_lem_example = check_value_range_lem nat_floats (fan_speed (pos 3)) fan_config

abbrev some_layout : Layout
some_layout = record {
  has_string = 1;
  has_boolean = 1;
  has_int32 = 0;
  int32_count = 2;
  has_int64 = 0;
  int64_count = 0;
  has_float = 0;
  float_count = 1;
  byte_count = 0;
}

abbrev mixed_value : RawPropValues ℕ
mixed_value = record (empty_raw {F = ℕ}) {
  int32_values = pos 1 ∷ pos 5 ∷ pos 6 ∷ [];
  float_values = 3 ∷ [];
  byte_values = 8 ∷ 9 ∷ [];
}

check_vendor_mixed_prop_value_lem_example :
    check_vendor_mixed_prop_value mixed_value (to_config_array some_layout) ≡ passed
check_vendor_mixed_prop_value_lem_example =
    (check_vendor_mixed_prop_value_lem some_layout mixed_value (omega arith)).1
      (refl, refl, refl, inl refl)
