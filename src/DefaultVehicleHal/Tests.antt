-- ===== src/DefaultVehicleHal/Tests.antt =====
-- The service at concrete values, with natural numbers for floats: a vendor property of two seats, of
-- which the second cannot be written and has no variable update rate.
use vhal_core.ConnectedClient.{get_or_set_values_callback, keep_finished}
use vhal_core.Prelude.{
  ◌⊎◌, ℕ, ◌+◌, ◌≡◌, refl, Bool, true, false, not, none, some, List, [], ◌∷◌, map, lookup,
  ℕ_discrete, ◌==◌, if◌then◌else◌, length, All,
}
use vhal_core.Prelude.Int.{pos, ℤ_discrete}
use vhal_core.Prelude.Sets.{contains, add, erase}
use vhal_core.Prelude.Dict.{Dict, insert, remove}
use vhal_core.HalTypes.{ok}
use vhal_core.HalTypes.{
  ok_code, try_again, invalid_arg, access_denied, VehiclePropValue, available, VehiclePropConfig,
  VehicleAreaConfig, no_access, read, read_write, continuous, PropIdAreaId, empty_raw,
  VehiclePropertyStatus-discrete,
}
use vhal_core.VehicleUtils.{
  is_global_prop, get_area_config, check_prop_value, check_value_range, get_prop_area,
  get_prop_group, get_prop_type, type_of_number, check_type, check_range, check_int_range,
  find_area_config,
}
use vhal_core.VehicleUtils.Tests.{nat_floats}
use vhal_core.PendingRequestPool.{
  add_requests, push_back, scan, any_pending, is_request_pending, is_pending_in,
  try_finish_requests, finish_in, finish_ids, init,
}
use vhal_core.SubscriptionManager.{
  Callback, SubscribeOptions, check_sample_rate_hz, check_resolution, get_interval_nanos,
}
use vhal_core.ConcurrentQueue.{new_queue}
use vhal_core.ConnectedClient.{add_client_requests, try_finish_client_requests, id_set}
use vhal_core.DefaultVehicleHal.State.{
  GetValueRequest, SetValueRequest, SupportedValuesListResult, MinMaxSupportedValueResult, Status,
  success, service_specific, for_get, gets, get_values_results, set_values_results, Hardware,
  Outside, Vhal, new_manager, new_vhal,
}
use vhal_core.DefaultVehicleHal.Versions.{version_for_vehicle_property}
use vhal_core.DefaultVehicleHal.Configs.{
  get_config, config_of_hardware, is_config_supported_for_current_vhal_version, is_system_prop,
  get_vhal_interface_version, get_has_supported_value_info, get_area_config_for_prop_id_area_id,
}
use vhal_core.DefaultVehicleHal.Checks.{
  check_read_permission, check_write_permission, check_permission_helper, is_valid_access,
  check_access, has_required_access, eq_access, check_property, check_with_config, has_duplicate,
  counts, same_value, same_float,
}
use vhal_core.DefaultVehicleHal.Requests.{
  get_values, set_values, split_gets, split_sets, check_set, dispatch, monitor_binder_life_cycle,
  deliver_batch, deliver_batches, get_or_create_client, register_requests, hand_over, call_values,
  after_call,
}
use vhal_core.DefaultVehicleHal.Subscriptions.{
  check_subscribe_options, check_option, parse_subscribe_options, parse_option,
  get_default_sample_rate_hz, configs_of_areas, config_of_area, area_configs_have_required_access,
  areas_of_option, split_areas, supports_vur,
}
use vhal_core.DefaultVehicleHal.Supported.{
  get_supported_values_lists, get_min_max_supported_value, get_supported, sort_out, scatter, set,
}
use vhal_core.DefaultVehicleHal.Dispatch.{IsDone}
use vhal_core.DefaultVehicleHal.Values.{select, can_read, read_refusal, get_values_lem}
use vhal_core.DefaultVehicleHal.Options.{
  subscribed, wanted, IsOnChange, IsContinuous, parse_subscribe_options_lem,
}
use vhal_core.DefaultVehicleHal.SupportedValues.{
  list_answer, min_max_answer, get_supported_values_lem,
}

program : Unit {0}
unfolding is_global_prop get_area_config check_prop_value check_value_range get_prop_area
    get_prop_group get_prop_type type_of_number check_type check_range check_int_range
    find_area_config add_requests push_back scan any_pending is_request_pending is_pending_in
    try_finish_requests finish_in finish_ids init check_sample_rate_hz check_resolution
    get_interval_nanos new_queue add_client_requests try_finish_client_requests id_set
    version_for_vehicle_property get_config config_of_hardware
    is_config_supported_for_current_vhal_version is_system_prop get_vhal_interface_version
    get_has_supported_value_info get_area_config_for_prop_id_area_id check_read_permission
    check_write_permission check_permission_helper is_valid_access check_access has_required_access
    eq_access check_property check_with_config has_duplicate counts same_value same_float get_values
    set_values split_gets split_sets check_set dispatch monitor_binder_life_cycle deliver_batch
    deliver_batches get_or_set_values_callback keep_finished get_or_create_client register_requests
    hand_over call_values after_call check_subscribe_options check_option parse_subscribe_options
    parse_option get_default_sample_rate_hz configs_of_areas config_of_area
    area_configs_have_required_access areas_of_option split_areas supports_vur
    get_supported_values_lists get_min_max_supported_value get_supported sort_out scatter set
    new_vhal new_manager lookup insert remove contains add erase ℕ_discrete ℤ_discrete
    VehiclePropertyStatus-discrete
program = tt

abbrev seat_property : ℕ
seat_property = 0x25400001

abbrev seat : ℕ → Bool → VehicleAreaConfig ℕ
seat area both = record {
  area_id = area;
  min_int32_value = pos 0;
  max_int32_value = pos 10;
  min_int64_value = pos 0;
  max_int64_value = pos 0;
  min_float_value = 0;
  max_float_value = 0;
  access = if both then read_write else read;
  support_variable_update_rate = both;
  has_supported_value_info =
      if both
      then some (record {
        has_min_supported_value = true;
        has_max_supported_value = true;
        has_supported_values_list = true;
      })
      else none;
}

abbrev seat_config : VehiclePropConfig ℕ
seat_config = record {
  prop = seat_property;
  area_configs = seat 1 true ∷ seat 2 false ∷ [];
  config_array = [];
  access = no_access;
  change_mode = continuous;
  min_sample_rate = 1;
  max_sample_rate = 10;
}

abbrev list_of : PropIdAreaId → SupportedValuesListResult ℕ
list_of key = record { status = ok_code; supported_values_list = some (empty_raw ∷ []) }

abbrev min_max_of : PropIdAreaId → MinMaxSupportedValueResult ℕ
min_max_of key = record {
  status = ok_code;
  min_supported_value = some empty_raw;
  max_supported_value = none;
}

-- It refuses its second call, and answers the set of 1 before it returns.
abbrev hardware : Hardware ℕ
hardware = record {
  all_property_configs = seat_config ∷ [];
  property_config = λ prop. if prop == seat_property then some seat_config else none;
  value_status = λ calls. if length calls == 2 then try_again else ok_code;
  get_results_before_return = λ calls. [];
  set_results_before_return = λ calls. (record { request_id = pos 1; status = ok_code } ∷ []) ∷ [];
  subscription_status = λ calls. ok_code;
  supported_values_lists = map list_of;
  min_max_supported_values = map min_max_of;
  check_health = ok_code;
  has_batching_window = false;
}

abbrev outside : Outside
outside = record {
  now = 100;
  uptime = pos 5;
  new_address = 77;
  link_to_death = λ client. true;
  is_alive = λ client. true;
  interface_version = 3;
}

abbrev callback : Callback
callback = record { pointer = 500; binder = 9 }

abbrev seat_value : ℕ → ℕ → VehiclePropValue ℕ
seat_value area n = record {
  timestamp = pos 0;
  area_id = area;
  prop = seat_property;
  status = available;
  value = record (empty_raw {F = ℕ}) { int32_values = pos n ∷ [] };
}

abbrev a_get : ℕ → ℕ → GetValueRequest ℕ
a_get i area = record { request_id = pos i; prop = seat_value area 0 }

abbrev a_set : ℕ → ℕ → ℕ → SetValueRequest ℕ
a_set i area n = record { request_id = pos i; value = seat_value area n }

-- Seat 3 does not exist.
abbrev two_gets : List (GetValueRequest ℕ)
two_gets = a_get 1 1 ∷ a_get 2 3 ∷ []

-- The first is fine, the second not writable, the third out of range.
abbrev three_sets : List (SetValueRequest ℕ)
three_sets = a_set 1 1 4 ∷ a_set 2 2 4 ∷ a_set 3 1 11 ∷ []

abbrev start : Vhal ℕ
start = new_vhal hardware 0

abbrev after_get : Vhal ℕ × Status
after_get = get_values nat_floats hardware outside (some callback) two_gets start

got :
    (after_get.1 ≡ success)
    × (is_request_pending 77 (pos 1) after_get.0.pending_request_pool ≡ true)
    × (is_request_pending 77 (pos 2) after_get.0.pending_request_pool ≡ false)
    × (after_get.0.sent
        ≡ get_values_results 500
            (record { request_id = pos 2; status = invalid_arg; prop = none } ∷ [])
          ∷ [])
unfolding program
got = (refl, refl, refl, refl)

abbrev after_set : Vhal ℕ × Status
after_set = set_values nat_floats hardware outside (some callback) three_sets start

was_set :
    (after_set.1 ≡ success)
    × (is_request_pending 77 (pos 1) after_set.0.pending_request_pool ≡ false)
    × (after_set.0.sent
        ≡ set_values_results 500 (record { request_id = pos 1; status = ok_code } ∷ [])
          ∷ set_values_results 500 (
              record { request_id = pos 2; status = access_denied }
              ∷ record { request_id = pos 3; status = invalid_arg }
              ∷ [])
          ∷ [])
unfolding program
was_set = (refl, refl, refl)

-- The hardware refuses a second call, and its requests do not stay pending.
refused_again :
    let (s, status) =
      get_values nat_floats hardware outside (some callback) (a_get 3 1 ∷ []) after_get.0 in
    (status ≡ service_specific try_again)
    × (is_request_pending 77 (pos 3) s.pending_request_pool ≡ false)
unfolding program
refused_again = (refl, refl)

get_values_lem_example :
    ((has_duplicate nat_floats (map (λ r. r.prop) two_gets) [] ≡ true)
      × (after_get ≡ (start, service_specific invalid_arg)))
    ⊎ ((has_duplicate nat_floats (map (λ r. r.prop) two_gets) [] ≡ false)
        × IsDone hardware outside for_get
            (λ r. r.request_id)
            (λ r. r.request_id)
            gets
            get_values_results
            (λ calls. [])
            callback
            (map
              (read_refusal nat_floats hardware outside start)
              (select (λ r. not (can_read nat_floats hardware outside start r)) two_gets))
            (select (can_read nat_floats hardware outside start) two_gets)
            start
            after_get)
get_values_lem_example = get_values_lem nat_floats hardware outside callback two_gets start

abbrev keys_asked : List PropIdAreaId
keys_asked =
    record { prop_id = seat_property; area_id = 2 }
    ∷ record { prop_id = seat_property; area_id = 1 }
    ∷ []

lists_asked : get_supported_values_lists hardware outside start keys_asked ≡ (
  success,
  record { status = invalid_arg; supported_values_list = none }
      ∷ list_of (record { prop_id = seat_property; area_id = 1 })
      ∷ [],
)
unfolding program
lists_asked = refl

get_supported_values_lem_example :
    (get_supported_values_lists hardware outside start keys_asked
      ≡ (success, map (list_answer hardware outside start list_of) keys_asked))
    × (get_min_max_supported_value hardware outside start keys_asked
        ≡ (success, map (min_max_answer hardware outside start min_max_of) keys_asked))
get_supported_values_lem_example =
    get_supported_values_lem hardware outside start list_of min_max_of keys_asked (λ ks. refl)
      (λ ks. refl)

abbrev options : List (SubscribeOptions ℕ)
options =
    record {
      prop_id = seat_property;
      area_ids = [];
      sample_rate = 20;
      resolution = 0;
      enable_variable_update_rate = true;
    }
    ∷ []

abbrev configs : Dict ℕ (VehiclePropConfig ℕ)
configs = (seat_property, seat_config) ∷ []

-- Seat 1 has a variable update rate and seat 2 not; the rate is lowered to the highest.
parsed :
    parse_subscribe_options nat_floats options configs
    ≡ some (
      [],
      record {
        prop_id = seat_property;
        area_ids = 1 ∷ [];
        sample_rate = 10;
        resolution = 0;
        enable_variable_update_rate = true;
      }
          ∷ record {
            prop_id = seat_property;
            area_ids = 2 ∷ [];
            sample_rate = 10;
            resolution = 0;
            enable_variable_update_rate = false;
          }
          ∷ [],
    )
unfolding program
parsed = refl

accepted : check_subscribe_options nat_floats options configs ≡ ok tt
unfolding program
accepted = refl

parse_subscribe_options_lem_example :
    (on_changes : List (SubscribeOptions ℕ)) × (continuouses : List (SubscribeOptions ℕ))
    × (parse_subscribe_options nat_floats options configs ≡ some (on_changes, continuouses))
    × All (IsOnChange nat_floats configs) on_changes
    × All (IsContinuous nat_floats configs) continuouses
    × ((p a : ℕ)
        → subscribed p a on_changes + subscribed p a continuouses ≡ wanted p a options configs)
parse_subscribe_options_lem_example =
    parse_subscribe_options_lem nat_floats options configs accepted
