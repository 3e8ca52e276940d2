-- ===== src/Obd2SensorStore/Marks.antt =====
-- That the bitmask of Obd2SensorStore.cpp names the sensors that have been set, and no others.
use vhal_core.Prelude.{
  ℕ, ◌+◌, ◌<◌, ◌≡◌, refl, ap, ◌∙◌, inl, inr, Bool, true, false, ◌&&◌, ◌||◌, none, some, List, [],
  ◌∷◌, arith, ltb, leb, ◌==◌, if◌then◌else◌, Bool-cases, length,
}
use vhal_core.Prelude.Int.{ℤ, pos}
use vhal_core.HalTypes.{invalid_arg, err}
use vhal_core.Obd2SensorStore.{
  filled, set_elem, resize_mask, get_index, Obd2SensorStore, new_sensor_store, mark_sensor,
  set_integer_sensor, set_float_sensor,
}
use vhal_core.Obd2SensorStore.Mask.{
  length-filled, length-set_elem, IsSound, resize_mask-IsSound, get_index-resize_mask,
  set_index-IsIndexSet,
}

-- A call of `setIntegerSensor` or `setFloatSensor`.
pub data Setting (F : Type 0) : Type 0 where
  sets_integer : ℕ → ℤ → Setting F
  sets_float : ℕ → F → Setting F

lt_of_ltb : (a b : ℕ) → ltb a b ≡ true → a < b
lt_of_ltb a b h = ground (arith, h)

or-false : (b : Bool) → (b || false) ≡ b
or-false true = refl
or-false false = refl

-- The specification: the bit of the sensor that a call sets, for these numbers of sensors.
abbrev pub is_bit : {F : Type 0} → ℕ → ℕ → ℕ → Setting F → Bool
is_bit integers floats k (sets_integer i v) = ltb i integers && k == i
is_bit integers floats k (sets_float i v) = ltb i floats && k == i + integers

module _ {F : Type 0} where
  abbrev pub any_bit : ℕ → ℕ → ℕ → List (Setting F) → Bool
  any_bit integers floats k [] = false
  any_bit integers floats k (c ∷ cs) = is_bit integers floats k c || any_bit integers floats k cs

  abbrev pub set_sensor : Setting F → Obd2SensorStore F → Obd2SensorStore F
  set_sensor (sets_integer i v) s = (set_integer_sensor i v s).0
  set_sensor (sets_float i v) s = (set_float_sensor i v s).0

  abbrev pub set_sensors : List (Setting F) → Obd2SensorStore F → Obd2SensorStore F
  set_sensors [] s = s
  set_sensors (c ∷ cs) s = set_sensors cs (set_sensor c s)

  -- The store has these numbers of sensors, and a bit for each.
  abbrev IsSized : ℕ → ℕ → Obd2SensorStore F → Type 0
  IsSized integers floats s =
      (length s.integer_sensors ≡ integers)
      × ((length s.float_sensors ≡ floats)
          × (IsSound s.sensors_bitmask × (s.sensors_bitmask.num_bits ≡ integers + floats)))

  -- What a call does that sets the bit `i` exactly if `t`.
  abbrev IsMarked : ℕ → ℕ → Bool → ℕ → Obd2SensorStore F → Obd2SensorStore F → Type 0
  IsMarked integers floats t i s s' =
      IsSized integers floats s'
      × ((k : ℕ)
          → get_index k s'.sensors_bitmask
            ≡ (if t && k == i then some true else get_index k s.sensors_bitmask))

  mark_sensor-IsMarked :
      (integers floats i : ℕ) (s : Obd2SensorStore F)
      → IsSized integers floats s
      → i < integers + floats
      → IsMarked integers floats true i s (mark_sensor i s).0
  unfolding mark_sensor
  mark_sensor-IsMarked integers floats i s (a, (b, (sound, bits))) h =
      let (m, (e, (sound', (bits', get)))) =
        set_index-IsIndexSet i true s.sensors_bitmask sound (omega (arith, h, bits)) in
      rw (e, mark_sensor) ((a, (b, (sound', bits' ∙ bits))), get)

  set_integer_sensor_out :
      (i : ℕ) (v : ℤ) (s : Obd2SensorStore F)
      → leb (length s.integer_sensors) i ≡ true
      → set_integer_sensor i v s ≡ (s, err invalid_arg)
  unfolding set_integer_sensor
  set_integer_sensor_out i v s h = rw (h, set_integer_sensor) refl

  set_integer_sensor_in :
      (i : ℕ) (v : ℤ) (s : Obd2SensorStore F)
      → leb (length s.integer_sensors) i ≡ false
      → set_integer_sensor i v s
        ≡ mark_sensor i (record s { integer_sensors = set_elem i v s.integer_sensors })
  unfolding set_integer_sensor
  set_integer_sensor_in i v s h = rw (h, set_integer_sensor) refl

  set_float_sensor_out :
      (i : ℕ) (v : F) (s : Obd2SensorStore F)
      → leb (length s.float_sensors) i ≡ true
      → set_float_sensor i v s ≡ (s, err invalid_arg)
  unfolding set_float_sensor
  set_float_sensor_out i v s h = rw (h, set_float_sensor) refl

  set_float_sensor_in :
      (i : ℕ) (v : F) (s : Obd2SensorStore F)
      → leb (length s.float_sensors) i ≡ false
      → set_float_sensor i v s
        ≡ mark_sensor
            (i + length s.integer_sensors)
            (record s { float_sensors = set_elem i v s.float_sensors })
  unfolding set_float_sensor
  set_float_sensor_in i v s h = rw (h, set_float_sensor) refl

  set_integer_sensor-IsMarked :
      (integers floats i : ℕ) (v : ℤ) (s : Obd2SensorStore F)
      → IsSized integers floats s
      → IsMarked integers floats (ltb i integers) i s (set_integer_sensor i v s).0
  set_integer_sensor-IsMarked integers floats i v s (a, (b, w)) =
      elim (Bool-cases (leb (length s.integer_sensors) i)) [
        | inl out ↦
            let t : ltb i integers ≡ false = ground (arith, out, a) in
            rw (set_integer_sensor_out i v s out, t) ((a, (b, w)), λ k. refl)
        | inr inside ↦
            let t : ltb i integers ≡ true = ground (arith, inside, a) in
            rw (set_integer_sensor_in i v s inside, t)
              (mark_sensor-IsMarked integers floats i
                (record s { integer_sensors = set_elem i v s.integer_sensors })
                (length-set_elem i v s.integer_sensors ∙ a, (b, w))
                (omega (arith, lt_of_ltb i integers t)))
      ]

  set_float_sensor-IsMarked :
      (integers floats i : ℕ) (v : F) (s : Obd2SensorStore F)
      → IsSized integers floats s
      → IsMarked integers floats (ltb i floats) (i + integers) s (set_float_sensor i v s).0
  set_float_sensor-IsMarked integers floats i v s (a, (b, w)) =
      elim (Bool-cases (leb (length s.float_sensors) i)) [
        | inl out ↦
            let t : ltb i floats ≡ false = ground (arith, out, b) in
            rw (set_float_sensor_out i v s out, t) ((a, (b, w)), λ k. refl)
        | inr inside ↦
            let t : ltb i floats ≡ true = ground (arith, inside, b) in
            rw (set_float_sensor_in i v s inside, t, a)
              (mark_sensor-IsMarked integers floats (i + integers)
                (record s { float_sensors = set_elem i v s.float_sensors })
                (a, (length-set_elem i v s.float_sensors ∙ b, w))
                (omega (arith, lt_of_ltb i floats t)))
      ]

  set_sensor-IsMarked :
      (integers floats : ℕ) (c : Setting F) (s : Obd2SensorStore F)
      → IsSized integers floats s
      → IsSized integers floats (set_sensor c s)
        × ((k : ℕ)
            → get_index k (set_sensor c s).sensors_bitmask
              ≡ (if is_bit integers floats k c then some true else get_index k s.sensors_bitmask))
  set_sensor-IsMarked integers floats (sets_integer i v) s w =
      set_integer_sensor-IsMarked integers floats i v s w
  set_sensor-IsMarked integers floats (sets_float i v) s w =
      set_float_sensor-IsMarked integers floats i v s w

  set_sensors_lem :
      (integers floats k : ℕ) (b : Bool) (cs : List (Setting F)) (s : Obd2SensorStore F)
      → IsSized integers floats s
      → get_index k s.sensors_bitmask ≡ some b
      → get_index k (set_sensors cs s).sensors_bitmask ≡ some (any_bit integers floats k cs || b)
  set_sensors_lem integers floats k b [] s w e = e
  set_sensors_lem integers floats k b (c ∷ cs) s w e =
      let (w', get) = set_sensor-IsMarked integers floats c s w in
      elim (Bool-cases (is_bit integers floats k c)) [
        | inl t ↦
            let r =
              set_sensors_lem integers floats k true cs (set_sensor c s) w' (get k ∙ (rw t refl)) in
            r ∙ (rw t (ground arith))
        | inr t ↦
            let r = set_sensors_lem integers floats k b cs (set_sensor c s) w' (get k ∙ (rw t e)) in
            r ∙ (rw t refl)
      ]

  -- Beyond the last sensor there is no bit.
  get_index_out :
      (integers floats k : ℕ) (s : Obd2SensorStore F)
      → IsSized integers floats s
      → ltb k (integers + floats) ≡ false
      → get_index k s.sensors_bitmask ≡ none
  unfolding get_index
  get_index_out integers floats k s (a, (b, (sound, bits))) h =
      let out : leb s.sensors_bitmask.num_bits k ≡ true = ground (arith, bits, h) in
      rw (out, get_index) refl

  set_sensors-IsSized :
      (integers floats : ℕ) (cs : List (Setting F)) (s : Obd2SensorStore F)
      → IsSized integers floats s
      → IsSized integers floats (set_sensors cs s)
  set_sensors-IsSized integers floats [] s w = w
  set_sensors-IsSized integers floats (c ∷ cs) s w =
      set_sensors-IsSized integers floats cs (set_sensor c s)
        (set_sensor-IsMarked integers floats c s w).0

  new_sensor_store-IsSized :
      (zero_float : F) (a b c d : ℕ) → IsSized (a + c) (b + d) (new_sensor_store zero_float a b c d)
  unfolding new_sensor_store resize_mask
  new_sensor_store-IsSized zero_float a b c d =
      let e = length-filled {A = ℤ} (a + c) (pos 0) in
      let e' = length-filled (b + d) zero_float in
      (
        e,
        (
          e',
          (
            resize_mask-IsSound
                (length (filled (a + c) (pos 0)) + length (filled (b + d) zero_float)),
            rw (e, e') refl,
          ),
        ),
      )

  get_index-new_sensor_store :
      (zero_float : F) (a b c d k : ℕ)
      → ltb k (a + c + (b + d)) ≡ true
      → get_index k (new_sensor_store zero_float a b c d).sensors_bitmask ≡ some false
  unfolding new_sensor_store
  get_index-new_sensor_store zero_float a b c d k h =
      get_index-resize_mask k (length (filled (a + c) (pos 0)) + length (filled (b + d) zero_float))
        (omega (
          arith,
          length-filled {A = ℤ} (a + c) (pos 0),
          length-filled (b + d) zero_float,
          lt_of_ltb k (a + c + (b + d)) h,
        ))

  -- Whatever sensors of a new store have been set, of the system or of a vendor, with indices within the bounds or not: the bit of an index is 1 exactly if a call within the bounds has set its sensor, where the bits of the float sensors follow those of the integer sensors, and beyond the last sensor reading a bit is an error.
  pub get_index-set_sensors :
      (zero_float : F) (system_integers system_floats vendor_integers vendor_floats k : ℕ)
      (cs : List (Setting F))
      → let s =
          new_sensor_store zero_float system_integers system_floats vendor_integers vendor_floats in
        let integers = system_integers + vendor_integers in
        let floats = system_floats + vendor_floats in
        get_index k (set_sensors cs s).sensors_bitmask
        ≡ (if ltb k (integers + floats) then some (any_bit integers floats k cs) else none)
  get_index-set_sensors zero_float a b c d k cs =
      let s = new_sensor_store zero_float a b c d in
      let w = new_sensor_store-IsSized zero_float a b c d in
      elim (Bool-cases (ltb k (a + c + (b + d)))) [
        | inl h ↦ rw h (
            set_sensors_lem (a + c) (b + d) k false cs s w
              (get_index-new_sensor_store zero_float a b c d k h)
            ∙ (ap some (or-false (any_bit (a + c) (b + d) k cs))))
        | inr h ↦ rw h (
            get_index_out (a + c) (b + d) k (set_sensors cs s)
              (set_sensors-IsSized (a + c) (b + d) cs s w) h)
      ]
