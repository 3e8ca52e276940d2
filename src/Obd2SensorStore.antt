-- ===== src/Obd2SensorStore.antt =====
-- packages/vhal-server/aidl/impl/4/fake_impl/obd2frame/{include, src}/Obd2SensorStore: the values of
-- the sensors of an OBD2 frame, and a bitmask that says which of them are there.
-- How many system sensors there are is a matter of two generated enums, and a parameter here. A
-- size and an index are natural numbers; an index from an enum is such a number.
use vhal_core.Prelude.{
  ℕ, zero, suc, ◌+◌, ◌-◌, ◌*◌, ◌/◌, ◌%◌, ◌^◌, ◌≤◌, ◌<◌, ◌≡◌, refl, sym, ap, ◌∙◌, ◌≢◌, ◌↔◌, ◌⊎◌, inl,
  inr, ite, if_pos, if_neg, Bool, true, false, not, ◌&&◌, ◌||◌, Option, none, some, List, [], ◌∷◌,
  ◌++◌, map, lookup, arith, ℕ_discrete, ltb, leb, ◌==◌, if◌then◌else◌, Bool-cases, Option-cases,
  length, get_elem?, is_empty, is_none, all, All, All-append, length-append,
}
use vhal_core.Prelude.Int.{
  ℤ, pos, negsuc, ℤ_discrete, ltb_ℤ, eqb_ℤ, ◌≤ℤ◌, ◌<ℤ◌, eq_of_eqb_ℤ, eqb_ℤ_refl,
}
use vhal_core.Prelude.Sets.{
  contains, add, erase, IsUnique, contains-add, contains-erase, contains-append, add-IsUnique,
  erase-IsUnique,
}
use vhal_core.Prelude.Dict.{
  Dict, insert, remove, keys, IsMap, lookup-insert, lookup-remove, insert-All, remove-All,
  insert-IsMap, remove-IsMap, lookup_absent, lookup-All,
}
use vhal_core.HalTypes.{StatusCode, invalid_arg, VhalResult, ok, err}
use Prim.Native.Nat.{bit_and, bit_or}
use vhal_core.HalTypes.{RawPropValues, VehiclePropValue, available}
pub mod Bits
pub mod Mask
pub mod Marks
mod Tests

module _ {ℓ} {A : Type ℓ} where
  -- `n` times `a`: a vector of a size
  abbrev pub filled : ℕ → A → List A
  filled zero a = []
  filled (suc n) a = a ∷ filled n a

  -- `v[i] = a` for a place `i` of `v`
  abbrev pub set_elem : ℕ → A → List A → List A
  set_elem i a [] = []
  set_elem zero a (x ∷ xs) = a ∷ xs
  set_elem (suc i) a (x ∷ xs) = x ∷ set_elem i a xs

-- `BitmaskInVector`
pub record BitmaskInVector : Type 0 where
  pub storage : List ℕ
  pub num_bits : ℕ

-- `resize_mask`, and the constructor
unfoldable pub resize_mask : ℕ → BitmaskInVector
resize_mask num_bits = record { storage = filled ((num_bits + 7) / 8) 0; num_bits = num_bits }

-- The new byte of `set`: an or, or an and with the complement in 8 bits.
unfoldable pub set_bit : ℕ → Bool → ℕ → ℕ
set_bit bit_index value byte =
    if value then bit_or byte (2 ^ bit_index) else bit_and byte (255 - 2 ^ bit_index)

unfoldable pub get_bit : ℕ → ℕ → Bool
get_bit bit_index byte = not (bit_and byte (2 ^ bit_index) == 0)

-- `set`, and `none` for its error; the storage has a byte for each index below `num_bits`.
unfoldable pub set_index : ℕ → Bool → BitmaskInVector → Option BitmaskInVector
unfolding set_bit
set_index index value m =
    if leb m.num_bits index then none else elim (get_elem? m.storage (index / 8)) [
      | none ↦ none
      | some byte ↦
          some
            (record m { storage = set_elem (index / 8) (set_bit (index % 8) value byte) m.storage })
    ]

-- `get`, and `none` for its error
unfoldable pub get_index : ℕ → BitmaskInVector → Option Bool
unfolding get_bit
get_index index m = if leb m.num_bits index then none else elim (get_elem? m.storage (index / 8)) [
  | none ↦ none
  | some byte ↦ some (get_bit (index % 8) byte)
]

pub record Obd2SensorStore (F : Type 0) : Type 0 where
  pub integer_sensors : List ℤ
  pub float_sensors : List F
  pub sensors_bitmask : BitmaskInVector

module _ {F : Type 0} where
  unfoldable pub new_sensor_store : F → ℕ → ℕ → ℕ → ℕ → Obd2SensorStore F
  unfolding resize_mask
  new_sensor_store zero_float system_integers system_floats vendor_integers vendor_floats =
      let integers = filled (system_integers + vendor_integers) (pos 0) in
      let floats = filled (system_floats + vendor_floats) zero_float in
      record {
        integer_sensors = integers;
        float_sensors = floats;
        sensors_bitmask = resize_mask (length integers + length floats);
      }

  -- The end of `setIntegerSensor` and `setFloatSensor`.
  unfoldable pub mark_sensor : ℕ → Obd2SensorStore F → Obd2SensorStore F × VhalResult (Unit {0})
  unfolding set_index
  mark_sensor index s = elim (set_index index true s.sensors_bitmask) [
    | none ↦ (s, err invalid_arg)
    | some m ↦ (record s { sensors_bitmask = m }, ok tt)
  ]

  unfoldable pub set_integer_sensor :
      ℕ → ℤ → Obd2SensorStore F → Obd2SensorStore F × VhalResult (Unit {0})
  unfolding mark_sensor
  set_integer_sensor index value s =
      if leb (length s.integer_sensors) index
      then (s, err invalid_arg)
      else mark_sensor index (record s { integer_sensors = set_elem index value s.integer_sensors })

  unfoldable pub set_float_sensor :
      ℕ → F → Obd2SensorStore F → Obd2SensorStore F × VhalResult (Unit {0})
  unfolding mark_sensor
  set_float_sensor index value s =
      if leb (length s.float_sensors) index
      then (s, err invalid_arg)
      else mark_sensor (index + length s.integer_sensors)
          (record s { float_sensors = set_elem index value s.float_sensors })

  -- `getSensorProperty` at the time `now`, for an object of the pool, in which all else is 0.
  unfoldable pub get_sensor_property : ℤ → List ℕ → Obd2SensorStore F → VehiclePropValue F
  get_sensor_property now dtc s = record {
    timestamp = now;
    area_id = 0;
    prop = 0;
    status = available;
    value = record {
      int32_values = s.integer_sensors;
      float_values = s.float_sensors;
      int64_values = [];
      byte_values = s.sensors_bitmask.storage;
      string_value = dtc;
    };
  }
