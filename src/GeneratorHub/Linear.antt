-- ===== src/GeneratorHub/Linear.antt =====
-- packages/vhal-server/aidl/impl/4/fake_impl/GeneratorHub/{include, src}/LinearFakeValueGenerator:
-- a generator of values that grow by an increment and start again from below.
-- Its times and its interval are natural numbers, as its assertion wants them to grow; C++'s sum of
-- floats is a parameter.
use vhal_core.Prelude.{
  ℕ, ◌+◌, ◌<◌, ◌≡◌, refl, ap, false, ◌||◌, Option, none, some, List, [], ◌∷◌, arith, ◌==◌,
  if◌then◌else◌, get_elem?,
}
use vhal_core.Prelude.Int.{ℤ, pos}
use vhal_core.Floats.{Floats}
use vhal_core.HalTypes.{RawPropValues, empty_raw, VehiclePropValue, available}
use vhal_core.VehicleUtils.{int32, int64, float, get_prop_type}
use vhal_core.UserHal.Parse.{bits_of_int32}

-- `GeneratorCfg`
pub record LinearGenerator (F : Type 0) : Type 0 where
  pub prop_id : ℕ
  pub middle_value : F
  pub current_value : F
  pub dispersion : F
  pub increment : F
  pub interval : ℕ
  pub last_event_timestamp : ℕ

module _ {F : Type 0} (f : Floats F) (add_float : F → F → F) where
  -- `initGenCfg`
  unfoldable pub init_gen_cfg : ℕ → F → F → F → F → ℕ → LinearGenerator F
  init_gen_cfg prop_id middle_value init_value dispersion increment interval = record {
    prop_id = prop_id;
    middle_value = middle_value;
    current_value =
        if f.lt_float init_value (f.sub_float middle_value dispersion)
          || f.le_float (add_float middle_value dispersion) init_value
        then middle_value
        else init_value;
    dispersion = dispersion;
    increment = increment;
    interval = interval;
    last_event_timestamp = 0;
  }

  -- The constructor for a request; `none` where it reads past the end of a vector, and for an
  -- interval that the assertion of `nextEvent` refuses.
  unfoldable pub new_linear_generator : VehiclePropValue F → Option (LinearGenerator F)
  unfolding init_gen_cfg
  new_linear_generator request = elim request.value.float_values [
    | middle ∷ dispersion ∷ increment ∷ floats ↦ elim (get_elem? request.value.int32_values 1) [
      | none ↦ none
      | some prop ↦ elim (get_elem? request.value.int64_values 0) [
        | some (pos interval) ↦
            some (init_gen_cfg (bits_of_int32 prop) middle middle dispersion increment interval)
        | _ ↦ none
      ]
    ]
    | floats ↦ none
  ]

  -- The switch of `nextEvent`.
  unfoldable pub linear_value : LinearGenerator F → RawPropValues F
  unfolding get_prop_type
  linear_value g = elim (get_prop_type g.prop_id) [
    | int32 ↦ record empty_raw { int32_values = f.to_int32 g.current_value ∷ [] }
    | int64 ↦ record empty_raw { int64_values = f.to_int64 g.current_value ∷ [] }
    | float ↦ record empty_raw { float_values = g.current_value ∷ [] }
    | _ ↦ empty_raw
  ]

  -- The end of `nextEvent`: the value after this one.
  unfoldable pub next_value : LinearGenerator F → F
  next_value g =
      let next = add_float g.current_value g.increment in
      if f.le_float (add_float g.middle_value g.dispersion) next
      then f.sub_float next (f.mul_float (f.of_int (pos 2)) g.dispersion)
      else next

  -- `nextEvent` at the time `now`
  unfoldable pub next_linear_event : ℕ → LinearGenerator F → VehiclePropValue F × LinearGenerator F
  unfolding linear_value next_value
  next_linear_event now g =
      let time = if g.last_event_timestamp == 0 then now else g.last_event_timestamp + g.interval in
      (
        record {
          timestamp = pos time;
          area_id = 0;
          prop = g.prop_id;
          status = available;
          value = linear_value g;
        },
        record g { current_value = next_value g; last_event_timestamp = time },
      )

  -- The times of the events made at these times of the clock.
  abbrev pub event_times : List ℕ → LinearGenerator F → List ℤ
  event_times [] g = []
  event_times (now ∷ nows) g =
      let (v, g') = next_linear_event now g in v.timestamp ∷ event_times nows g'

  -- The specification: from `time` on, one at each interval.
  abbrev pub schedule : ℕ → ℕ → List ℕ → List ℤ
  schedule time interval [] = []
  schedule time interval (now ∷ nows) = pos time ∷ schedule (time + interval) interval nows

  event_times_later :
      (nows : List ℕ) (g : LinearGenerator F)
      → 0 < g.last_event_timestamp
      → event_times nows g ≡ schedule (g.last_event_timestamp + g.interval) g.interval nows
  unfolding next_linear_event
  event_times_later [] g h = refl
  event_times_later (now ∷ nows) g h =
      let e : (g.last_event_timestamp == 0) ≡ false = ground arith in
      let later =
        event_times_later nows
          (record g {
            current_value = next_value g;
            last_event_timestamp = g.last_event_timestamp + g.interval;
          })
          (omega (arith, h)) in
      rw (e, next_linear_event) (ap (λ t. pos (g.last_event_timestamp + g.interval) ∷ t) later)

  -- The first event of a new generator has the time of the clock, if the clock is not 0, and each further one lies exactly one interval after the one before, whatever the clock says when it is made.
  pub event_times-init_gen_cfg :
      (now : ℕ) (nows : List ℕ) (prop_id : ℕ) (middle_value init_value dispersion increment : F)
      (interval : ℕ)
      → 0 < now
      → event_times
          (now ∷ nows)
          (init_gen_cfg prop_id middle_value init_value dispersion increment interval)
        ≡ schedule now interval (now ∷ nows)
  unfolding next_linear_event init_gen_cfg
  event_times-init_gen_cfg now nows prop_id middle_value init_value dispersion increment interval
        h =
      ap (λ t. pos now ∷ t)
        (event_times_later nows
          (next_linear_event now
            (init_gen_cfg prop_id middle_value init_value dispersion increment interval)).1
          h)
