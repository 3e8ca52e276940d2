-- ===== src/VehiclePropertyStore/Tests.antt =====
-- Runs of the store, and its theorems at concrete inputs; no value of the runs has a float in it.
use mathlib.Core.Option
use vhal_core.Prelude.{ℕ, ◌≡◌, refl, true, false, none, some, [], ◌∷◌, lookup, ℕ_discrete}
use vhal_core.Prelude.Int.{ℤ, pos, ℤ_discrete, ◌≤ℤ◌}
use vhal_core.Prelude.Dict.{Dict, insert, remove}
use vhal_core.HalTypes.{read_write, on_change, ok, err}
use vhal_core.Floats.{Floats}
use vhal_core.HalTypes.{
  VehiclePropertyStatus-discrete, available, unavailable, VehiclePropValue, VehicleAreaConfig,
  VehiclePropConfig, PropIdAreaId, empty_raw, invalid_arg,
}
use vhal_core.VehicleUtils.{is_global_prop, get_area_config}
use vhal_core.VehiclePropertyStore.Keys.{stored}
use vhal_core.VehiclePropertyStore.Write.{written, is_reported, report, is_current, is_accepted}
use vhal_core.VehiclePropertyStore.Write.Effects.{
  accepts, write_value_result, read_value-write_value, stored-write_value, timestamp-write_value,
}
use vhal_core.VehiclePropertyStore.Refresh.{untimed, refresh_timestamps-untimed}
use vhal_core.VehiclePropertyStore.Remove.{stored-remove_value}
use vhal_core.VehiclePropertyStore.{
  RecordId, RecordId-discrete, Record, Store, value_changed, on_value_change, always, get_record,
  get_record_id, read_value, write_value, store_value, notify, set_values, refresh_one,
  refresh_loop, notify_all, refresh_timestamps, refresh_timestamp, remove_value,
  remove_values_for_property, register_property,
}

program : Unit {0}
unfolding is_global_prop get_area_config get_record get_record_id read_value write_value store_value
    notify set_values refresh_one refresh_loop notify_all refresh_timestamps refresh_timestamp
    remove_value remove_values_for_property register_property stored written is_reported report
    is_current is_accepted accepts lookup insert remove RecordId-discrete ℕ_discrete ℤ_discrete
    VehiclePropertyStatus-discrete
program = tt

-- The floats are of a type with one element.
abbrev F : Type 0
F = Unit {0}

abbrev no_floats : Floats F
no_floats = record {
  zero_float = tt;
  max_float = tt;
  epsilon = tt;
  one_second_in_nanos = tt;
  eq_float = λ a b. true;
  lt_float = λ a b. false;
  le_float = λ a b. true;
  sub_float = λ a b. tt;
  mul_float = λ a b. tt;
  div_float = λ a b. tt;
  round = λ a. tt;
  abs = λ a. tt;
  log10 = λ a. tt;
  of_int = λ i. tt;
  to_int32 = λ a. pos 0;
  to_int64 = λ a. pos 0;
}

abbrev hvac_fan_speed : ℕ
hvac_fan_speed = 0x15400500

abbrev left_seat : VehicleAreaConfig F
left_seat = record {
  area_id = 1;
  min_int32_value = pos 0;
  max_int32_value = pos 0;
  min_int64_value = pos 0;
  max_int64_value = pos 0;
  min_float_value = tt;
  max_float_value = tt;
  access = read_write;
  support_variable_update_rate = false;
  has_supported_value_info = none;
}

abbrev fan_config : VehiclePropConfig F
fan_config = record {
  prop = hvac_fan_speed;
  area_configs = left_seat ∷ [];
  config_array = [];
  access = read_write;
  change_mode = on_change;
  min_sample_rate = tt;
  max_sample_rate = tt;
}

abbrev fan_speed : ℤ → ℕ → VehiclePropValue F
fan_speed speed time = record {
  timestamp = pos time;
  area_id = 1;
  prop = hvac_fan_speed;
  status = unavailable;
  value = record (empty_raw {F = F}) { int32_values = speed ∷ [] };
}

abbrev left_id : RecordId
left_id = record { area = 1; token = pos 0 }

abbrev fan_record : Dict RecordId (VehiclePropValue F) → Record F
fan_record values = record { prop_config = fan_config; token_function = none; values = values }

-- A store with the fan registered, and callback 9 for single values.
abbrev store_of : Dict RecordId (VehiclePropValue F) → Store F
store_of values = record {
  records_by_prop_id = (hvac_fan_speed, fan_record values) ∷ [];
  on_value_change_callback = some 9;
  on_values_change_callback = none;
}

abbrev old_speed : VehiclePropValue F
old_speed = record (fan_speed (pos 3) 100) { status = available }

first_write :
    write_value no_floats (fan_speed (pos 3) 100) false on_value_change false (pos 0) (store_of [])
    ≡ (store_of ((left_id, old_speed) ∷ []), ok tt, value_changed 9 old_speed ∷ [])
unfolding program
first_write = refl

late_write :
    (write_value no_floats
      (fan_speed (pos 5) 99)
      false
      on_value_change
      false
      (pos 0)
      (store_of ((left_id, old_speed) ∷ []))).1
    ≡ err invalid_arg
unfolding program
late_write = refl

read_value-write_value_example :
    (read_value
        (fan_speed (pos 5) 120)
        (write_value no_floats
          (fan_speed (pos 5) 120)
          false
          on_value_change
          false
          (pos 0)
          (store_of ((left_id, old_speed) ∷ []))).0
      ≡ ok (record (fan_speed (pos 5) 120) { status = available }))
    × ((write_value no_floats
          (fan_speed (pos 5) 120)
          false
          on_value_change
          false
          (pos 0)
          (store_of ((left_id, old_speed) ∷ []))).2
        ≡ value_changed 9 (record (fan_speed (pos 5) 120) { status = available }) ∷ [])
unfolding program
read_value-write_value_example =
    read_value-write_value no_floats (fan_speed (pos 5) 120) false false on_value_change (pos 0)
      (store_of ((left_id, old_speed) ∷ [])) (fan_record ((left_id, old_speed) ∷ [])) refl refl

write_value_result_example :
    ((write_value no_floats
        (fan_speed (pos 5) 99)
        false
        on_value_change
        false
        (pos 0)
        (store_of ((left_id, old_speed) ∷ []))).1
      ≡ err invalid_arg)
    × (false ≡ false
        → ((write_value no_floats
              (fan_speed (pos 5) 99)
              false
              on_value_change
              false
              (pos 0)
              (store_of ((left_id, old_speed) ∷ []))).0
            ≡ store_of ((left_id, old_speed) ∷ []))
          × ((write_value no_floats
                (fan_speed (pos 5) 99)
                false
                on_value_change
                false
                (pos 0)
                (store_of ((left_id, old_speed) ∷ []))).2
              ≡ []))
unfolding program
write_value_result_example =
    write_value_result no_floats (fan_speed (pos 5) 99) false false on_value_change (pos 0)
      (store_of ((left_id, old_speed) ∷ []))

stored-write_value_example :
    stored hvac_fan_speed
      (record left_id { area = 2 })
      (write_value no_floats
        (fan_speed (pos 5) 120)
        false
        on_value_change
        false
        (pos 0)
        (store_of ((left_id, old_speed) ∷ []))).0
    ≡ none
unfolding program
stored-write_value_example =
    stored-write_value no_floats (fan_speed (pos 5) 120) false false on_value_change (pos 0)
      (store_of ((left_id, old_speed) ∷ [])) (fan_record ((left_id, old_speed) ∷ [])) hvac_fan_speed
      (record left_id { area = 2 }) refl refl

timestamp-write_value_example :
    (new : VehiclePropValue F) × (stored hvac_fan_speed left_id
        (write_value no_floats
          (fan_speed (pos 5) 120)
          false
          on_value_change
          false
          (pos 0)
          (store_of ((left_id, old_speed) ∷ []))).0
      ≡ some new)
    × (pos 100 ≤ℤ new.timestamp)
unfolding program
timestamp-write_value_example =
    timestamp-write_value no_floats (fan_speed (pos 5) 120) false false on_value_change (pos 0)
      (store_of ((left_id, old_speed) ∷ [])) hvac_fan_speed left_id old_speed refl

abbrev fan_key : PropIdAreaId
fan_key = record { prop_id = hvac_fan_speed; area_id = 1 }

refresh_timestamps-untimed_example :
    Option.map untimed (
      stored hvac_fan_speed left_id
        (refresh_timestamps
          ((fan_key, always) ∷ [])
          (λ i. pos 500)
          (store_of ((left_id, old_speed) ∷ []))).0)
    ≡ some (untimed old_speed)
unfolding program
refresh_timestamps-untimed_example =
    refresh_timestamps-untimed ((fan_key, always) ∷ []) (λ i. pos 500)
      (store_of ((left_id, old_speed) ∷ [])) hvac_fan_speed left_id

refreshed :
    (stored hvac_fan_speed left_id
        (refresh_timestamp hvac_fan_speed 1 always
          (pos 500)
          (store_of ((left_id, old_speed) ∷ []))).0
      ≡ some (record old_speed { timestamp = pos 500 }))
    × ((refresh_timestamp hvac_fan_speed 1 always
          (pos 500)
          (store_of ((left_id, old_speed) ∷ []))).1
        ≡ value_changed 9 (record old_speed { timestamp = pos 500 }) ∷ [])
unfolding program
refreshed = (refl, refl)

stored-remove_value_example :
    stored hvac_fan_speed left_id
      (remove_value (fan_speed (pos 0) 0) (store_of ((left_id, old_speed) ∷ [])))
    ≡ none
unfolding program
stored-remove_value_example =
    stored-remove_value (fan_speed (pos 0) 0) (store_of ((left_id, old_speed) ∷ []))
      (fan_record ((left_id, old_speed) ∷ [])) hvac_fan_speed left_id refl

without_values :
    (stored hvac_fan_speed left_id
        (remove_values_for_property hvac_fan_speed (store_of ((left_id, old_speed) ∷ [])))
      ≡ none)
    × (stored hvac_fan_speed left_id
          (register_property fan_config none (store_of ((left_id, old_speed) ∷ [])))
        ≡ none)
unfolding program
without_values = (refl, refl)
