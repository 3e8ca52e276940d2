-- ===== src/Obd2SensorStore/Tests.antt =====
-- The sensor store at concrete values, with whole numbers for floats.
use vhal_core.Prelude.{ℕ, ◌≡◌, refl, true, false, none, some, List, [], ◌∷◌}
use vhal_core.Prelude.Int.{pos}
use vhal_core.Obd2SensorStore.{
  resize_mask, set_bit, get_bit, set_index, get_index, Obd2SensorStore, new_sensor_store,
  mark_sensor, set_integer_sensor, set_float_sensor, get_sensor_property,
}
use vhal_core.Obd2SensorStore.Marks.{
  Setting, sets_integer, sets_float, set_sensors, get_index-set_sensors,
}

program : Unit {0}
unfolding resize_mask set_bit get_bit set_index get_index new_sensor_store mark_sensor
    set_integer_sensor set_float_sensor get_sensor_property
program = tt

-- Five integer and four float sensors, one of each a vendor's; two of the calls are out of bounds.
abbrev calls : List (Setting ℕ)
calls =
    sets_integer 4 (pos 35)
    ∷ sets_float 3 12
    ∷ sets_integer 5 (pos 1)
    ∷ sets_float 0 7
    ∷ sets_float 4 1
    ∷ []

store : Obd2SensorStore ℕ
unfolding program
store = set_sensors calls (new_sensor_store 0 4 3 1 1)

frame : (get_sensor_property (pos 99) (80 ∷ []) store).value.byte_values ≡ 0x30 ∷ 0x01 ∷ []
unfolding program store
frame = refl

sensors :
    (store.integer_sensors ≡ pos 0 ∷ pos 0 ∷ pos 0 ∷ pos 0 ∷ pos 35 ∷ [])
    × (store.float_sensors ≡ 7 ∷ 0 ∷ 0 ∷ 12 ∷ [])
unfolding program store
sensors = (refl, refl)

unset :
    (elim (set_index 4 false store.sensors_bitmask) [ none ↦ [] | some m ↦ m.storage ])
    ≡ 0x20 ∷ 0x01 ∷ []
unfolding program store
unset = refl

get_index-set_sensors_example :
    get_index 8 (set_sensors calls (new_sensor_store 0 4 3 1 1)).sensors_bitmask ≡ some true
unfolding program
get_index-set_sensors_example = get_index-set_sensors 0 4 3 1 1 8 calls
