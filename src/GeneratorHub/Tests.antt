-- ===== src/GeneratorHub/Tests.antt =====
-- The hub at concrete values, with whole numbers for floats.
use vhal_core.Prelude.{
  ℕ, ◌+◌, ◌≡◌, refl, true, false, Option, some, List, [], ◌∷◌, map, lookup, arith, ℕ_discrete,
  is_none,
}
use vhal_core.Prelude.Int.{ℤ, pos}
use vhal_core.Prelude.Sets.{contains}
use vhal_core.Prelude.Dict.{insert, remove}
use vhal_core.HalTypes.{VehiclePropValue}
use vhal_core.VehicleUtils.{get_prop_type}
use vhal_core.VehicleUtils.Tests.{nat_floats}
use vhal_core.GeneratorHub.{
  VhalEvent, GeneratorHub, new_hub, push_event, unregister_generator, shut_down_hub, prune_events,
  register_generator, replace_event, handle_event, await_event, hub_step,
}
use vhal_core.GeneratorHub.Pending.{
  Action, registers, unregisters, works, ids, IsOrdered, run, run-new_hub,
}
use vhal_core.GeneratorHub.Due.{IsFirst, hub_step-hal_events}
use vhal_core.GeneratorHub.Linear.{
  LinearGenerator, init_gen_cfg, linear_value, next_value, next_linear_event, event_times,
}

program : Unit {0}
unfolding new_hub push_event unregister_generator shut_down_hub prune_events register_generator
    replace_event handle_event await_event hub_step init_gen_cfg linear_value next_value
    next_linear_event contains get_prop_type lookup insert remove ℕ_discrete
program = tt

abbrev add_nat : ℕ → ℕ → ℕ
add_nat a b = a + b

-- An INT32 property of a vendor; its values go from 8 to 11 and start again.
abbrev fan : ℕ → LinearGenerator ℕ
fan interval = init_gen_cfg nat_floats add_nat 0x21400101 10 9 2 1 interval

abbrev next_at_five : LinearGenerator ℕ → Option (VehiclePropValue ℕ × LinearGenerator ℕ)
next_at_five g = some (next_linear_event nat_floats add_nat 5 g)

abbrev events : List (Action (LinearGenerator ℕ)) → GeneratorHub ℕ (LinearGenerator ℕ)
events acts = run next_at_five acts new_hub

abbrev acts : List (Action (LinearGenerator ℕ))
acts =
    registers 1 (fan 10)
    ∷ registers 2 (fan 4)
    ∷ works (pos 5) false
    ∷ works (pos 6) false
    ∷ works (pos 7) false
    ∷ works (pos 9) true
    ∷ unregisters 2
    ∷ works (pos 20) false
    ∷ []

event_values :
    map {B = ℤ × List ℤ} (λ v. (v.timestamp, v.value.int32_values)) (events acts).hal_events
    ≡ (pos 5, pos 9 ∷ []) ∷ (pos 5, pos 9 ∷ []) ∷ (pos 9, pos 10 ∷ []) ∷ (pos 15, pos 10 ∷ []) ∷ []
unfolding program
event_values = refl

-- A generator that comes back before its event is taken out has two events from then on.
comes_back :
    ids (events (registers 1 (fan 10) ∷ unregisters 1 ∷ registers 1 (fan 10) ∷ [])).event_queue
    ≡ 1 ∷ 1 ∷ []
unfolding program
comes_back = refl

run-new_hub_example :
    ((id : ℕ)
      → is_none (lookup ℕ_discrete id (events acts).generators) ≡ false
      → contains ℕ_discrete id (ids (events acts).event_queue) ≡ true)
    × IsOrdered (events acts).event_queue
unfolding program
run-new_hub_example = run-new_hub next_at_five acts refl

two_fans : GeneratorHub ℕ (LinearGenerator ℕ)
unfolding program
two_fans = events (registers 1 (fan 10) ∷ registers 2 (fan 4) ∷ [])

hub_step-hal_events_example :
    (e : VhalEvent ℕ) × (((hub_step next_at_five (pos 8) false two_fans).hal_events ≡ e.val ∷ [])
      × IsFirst two_fans.generators two_fans.event_queue e)
unfolding program two_fans
hub_step-hal_events_example =
    hub_step-hal_events next_at_five (pos 8) false 2 two_fans refl refl refl refl
      (omega arith, (omega arith, tt))

fan_times : event_times nat_floats add_nat (5 ∷ 7 ∷ 8 ∷ []) (fan 10) ≡ pos 5 ∷ pos 15 ∷ pos 25 ∷ []
unfolding program
fan_times = refl
