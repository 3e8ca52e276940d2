-- ===== src/SubscriptionManager/Tests.antt =====
-- The subscription manager at concrete values, with natural numbers for floats.
use vhal_core.Prelude.{
  ℕ, ◌≡◌, refl, true, false, List, [], ◌∷◌, lookup, arith, ℕ_discrete, ltb, if◌then◌else◌, length,
}
use vhal_core.Prelude.Int.{pos}
use vhal_core.Prelude.Sets.{contains, add, erase}
use vhal_core.Prelude.Dict.{insert, remove, keys}
use vhal_core.HalTypes.{StatusCode}
use vhal_core.HalTypes.{
  ok_code, invalid_arg, VehiclePropValue, available, PropIdAreaId, PropIdAreaId-discrete, empty_raw,
}
use vhal_core.VehicleUtils.Tests.{nat_floats}
use vhal_core.SubscriptionManager.{
  SubConfig, ContSubConfigs, SubscribeOptions, Callback, HardwareCall, unsubscribes, Manager,
  is_empty_manager, destroy_manager, count_property_change_clients, no_configs, add_client,
  remove_client, refresh_combined_config, combine, subscribe, unsubscribe, unsubscribe_props,
  unsubscribe_key, get_subscribed_clients, get_list, keys_of_props, is_value_updated,
  subscribe_options, subscribe_areas, subscribe_one, check_options, get_interval_nanos,
  check_resolution, add_subscription, add_on_change_subscriber, add_continuous_subscriber,
  update_cont_sub_configs, update_hardware, call_hardware, new_subscribe_options, set_configs,
  configs_at, unsubscribe_keys, forget_key, forget_if_empty, forget_client, unsubscribe_each,
  unsubscribe_changes, unsubscribe_supported, remove_on_change_subscriber,
  remove_continuous_subscriber, drop_client, find_value, insert_value, deliver, deliver_clients,
  deliver_one, push_to, is_vur_enabled_for_client, get_resolution_for_client,
}
use vhal_core.SubscriptionManager.Combined.{
  IsOrderedFloat, IsBound, add_client-remove_client-IsBound,
}
use vhal_core.SubscriptionManager.Progress.{IsProgress}
use vhal_core.SubscriptionManager.Subscribing.{IsRegistered, requested, subscribe-IsProgress}
use vhal_core.SubscriptionManager.Leaving.{IsRemoved}
use vhal_core.SubscriptionManager.Unsubscribing.{keys_with, unsubscribe_props-IsProgress}
use vhal_core.SubscriptionManager.Consistency.{IsConsistent, IsOutcome, unsubscribe-IsOutcome}
use vhal_core.SubscriptionManager.Reachability.{
  empty_manager, constructed, subscribed, Reachable-IsConsistent,
}
use vhal_core.SubscriptionManager.OnChange.{unsubscribe_key-get_subscribed_clients}
use vhal_core.SubscriptionManager.Filter.{is_value_updated-ignores}

program : Unit {0}
unfolding is_empty_manager destroy_manager count_property_change_clients no_configs add_client
    remove_client refresh_combined_config combine subscribe unsubscribe unsubscribe_props
    unsubscribe_key get_subscribed_clients keys_of_props is_value_updated subscribe_options
    subscribe_areas subscribe_one check_options get_interval_nanos check_resolution add_subscription
    add_on_change_subscriber add_continuous_subscriber update_cont_sub_configs update_hardware
    call_hardware new_subscribe_options set_configs configs_at unsubscribe_keys forget_key
    forget_if_empty forget_client unsubscribe_each unsubscribe_changes unsubscribe_supported
    remove_on_change_subscriber remove_continuous_subscriber drop_client find_value insert_value
    deliver deliver_clients deliver_one push_to is_vur_enabled_for_client get_resolution_for_client
    lookup insert remove contains add erase PropIdAreaId-discrete ℕ_discrete
program = tt

nat_ordered : IsOrderedFloat nat_floats (λ a. true)
nat_ordered = record {
  lt_irrefl = λ a. ground arith;
  not-lt_trans = λ a b c n h h'. ground arith;
  not-lt_of_lt = λ a b h. ground arith;
}

abbrev fast : SubConfig ℕ
fast = record { sample_rate_hz = 20; resolution = 10; enable_vur = true }

abbrev fine : SubConfig ℕ
fine = record { sample_rate_hz = 5; resolution = 1; enable_vur = false }

abbrev one_config : ContSubConfigs ℕ
one_config = record {
  max_sample_rate_hz = 20;
  min_required_resolution = 10;
  enable_vur = true;
  config_by_client = (3, fast) ∷ [];
}

both_served : add_client nat_floats 4 fine one_config ≡ record {
  max_sample_rate_hz = 20;
  min_required_resolution = 1;
  enable_vur = false;
  config_by_client = (3, fast) ∷ (4, fine) ∷ [];
}
unfolding program
both_served = refl

add_client-remove_client-IsBound_example :
    (IsBound nat_floats (λ a. true) nat_ordered 20 1 ((3, fast) ∷ (4, fine) ∷ []) × (false ≡ false))
    × (IsBound nat_floats (λ a. true) nat_ordered 20 10 ((3, fast) ∷ []) × (true ≡ true))
unfolding program
add_client-remove_client-IsBound_example =
    add_client-remove_client-IsBound nat_floats (λ a. true) nat_ordered 4 fine one_config refl refl
      (refl, refl) ((refl, refl), tt)

-- A hardware that accepts everything, and one that accepts one call.
abbrev willing : List (HardwareCall ℕ) → StatusCode
willing calls = ok_code

abbrev reluctant : List (HardwareCall ℕ) → StatusCode
reluctant calls = if ltb 1 (length calls) then invalid_arg else ok_code

abbrev me : Callback
me = record { pointer = 30; binder = 3 }

abbrev you : Callback
you = record { pointer = 40; binder = 4 }

abbrev gear : SubscribeOptions ℕ
gear = record {
  prop_id = 0x11400400;
  area_ids = 0 ∷ 1 ∷ [];
  sample_rate = 0;
  resolution = 0;
  enable_variable_update_rate = false;
}

abbrev gear_key : PropIdAreaId
gear_key = record { prop_id = 0x11400400; area_id = 0 }

abbrev subscribed_by_me : Manager ℕ
subscribed_by_me = (subscribe nat_floats willing me (gear ∷ []) false empty_manager).0

abbrev two_clients : Manager ℕ
two_clients = (subscribe nat_floats willing you (gear ∷ []) false subscribed_by_me).0

one_call_each : length two_clients.hardware_calls ≡ 2
unfolding program
one_call_each = refl

counted : count_property_change_clients two_clients ≡ 2
unfolding program
counted = refl

destroyed : is_empty_manager (destroy_manager two_clients) ≡ true
unfolding program
destroyed = refl

half_way :
    keys (subscribe nat_floats reluctant me (gear ∷ []) false empty_manager).0.clients_by_key
    ≡ gear_key ∷ []
unfolding program
half_way = refl

subscribe-IsProgress_example :
    IsProgress
      (IsRegistered 3)
      (requested (gear ∷ []))
      empty_manager
      (subscribe nat_floats reluctant me (gear ∷ []) false empty_manager)
subscribe-IsProgress_example =
    subscribe-IsProgress nat_floats reluctant me (gear ∷ []) false empty_manager

unsubscribe_props-IsProgress_example :
    IsProgress
      (IsRemoved 3)
      (keys_with
        (0x11400400 ∷ [])
        (get_list (lookup ℕ_discrete 3 two_clients.subscribed_by_client)))
      two_clients
      (unsubscribe_props nat_floats willing 3 (0x11400400 ∷ []) two_clients)
unsubscribe_props-IsProgress_example =
    unsubscribe_props-IsProgress nat_floats willing 3 (0x11400400 ∷ []) two_clients

Reachable-IsConsistent_example : IsConsistent two_clients
Reachable-IsConsistent_example = Reachable-IsConsistent nat_floats willing two_clients (
    subscribed you (gear ∷ []) false subscribed_by_me
      (subscribed me (gear ∷ []) false empty_manager constructed))

unsubscribe-IsOutcome_example :
    IsOutcome 3 two_clients (unsubscribe nat_floats willing 3 two_clients)
unsubscribe-IsOutcome_example = unsubscribe-IsOutcome nat_floats willing 3 two_clients (
    Reachable-IsConsistent nat_floats willing two_clients (
      subscribed you (gear ∷ []) false subscribed_by_me
        (subscribed me (gear ∷ []) false empty_manager constructed)))

abbrev gear_event : VehiclePropValue ℕ
gear_event = record {
  timestamp = pos 10;
  area_id = 0;
  prop = 0x11400400;
  status = available;
  value = empty_raw;
}

unsubscribe_key-get_subscribed_clients_example :
    (unsubscribe_key nat_floats willing 3 gear_key
      (get_subscribed_clients nat_floats (gear_event ∷ []) two_clients).0).0.hardware_calls
    ≡ unsubscribes gear_key ∷ two_clients.hardware_calls
unfolding program
unsubscribe_key-get_subscribed_clients_example =
    unsubscribe_key-get_subscribed_clients nat_floats willing 3 gear_event (3, me) ((4, you) ∷ [])
      two_clients refl refl refl

abbrev later_event : VehiclePropValue ℕ
later_event = record gear_event { timestamp = pos 20 }

is_value_updated-ignores_example :
    is_value_updated nat_floats gear_event
      (is_value_updated nat_floats later_event (gear_event ∷ [])).0
    ≡ is_value_updated nat_floats gear_event (gear_event ∷ [])
unfolding program
is_value_updated-ignores_example =
    is_value_updated-ignores nat_floats later_event gear_event gear_event (gear_event ∷ []) refl
      refl refl
