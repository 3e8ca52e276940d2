-- ===== src/DefaultVehicleHal/State.antt =====
-- The state of `DefaultVehicleHal`, what it calls, and what it answers and sends.
use vhal_core.Prelude.{ℕ, Bool, false, Option, none, some, List, [], if◌then◌else◌}
use vhal_core.Prelude.Int.{ℤ}
use vhal_core.Prelude.Dict.{Dict}
use vhal_core.HalTypes.{StatusCode, VhalResult, ok, err}
use vhal_core.HalTypes.{VehiclePropValue, VehiclePropConfig, PropIdAreaId, RawPropValues}
use vhal_core.PendingRequestPool.{PendingRequestPool, init}
use vhal_core.SubscriptionManager.{Manager, HardwareCall}
use vhal_core.ConcurrentQueue.{ConcurrentQueue, new_queue}
use vhal_core.ConnectedClient.{GetValueResult, SetValueResult, GetSetValuesClient}

pub record GetValueRequest (F : Type 0) : Type 0 where
  pub request_id : ℤ
  pub prop : VehiclePropValue F

pub record SetValueRequest (F : Type 0) : Type 0 where
  pub request_id : ℤ
  pub value : VehiclePropValue F

pub record SupportedValuesListResult (F : Type 0) : Type 0 where
  pub status : StatusCode
  pub supported_values_list : Option (List (RawPropValues F))

pub record MinMaxSupportedValueResult (F : Type 0) : Type 0 where
  pub status : StatusCode
  pub min_supported_value : Option (RawPropValues F)
  pub max_supported_value : Option (RawPropValues F)

-- `ndk::ScopedAStatus`, without its message. There is no status, `fault`, where the code goes through
-- a null pointer or reads outside of a vector.
pub data Status : Type 0 where
  success : Status
  null_pointer : Status
  transaction_failed : Status
  service_specific : StatusCode → Status
  fault : Status

-- `toScopedAStatus`
abbrev pub to_scoped_status : VhalResult (Unit {0}) → Status
to_scoped_status (ok a) = success
to_scoped_status (err e) = service_specific e

-- Which of the two kinds of client.
pub data Kind : Type 0 where
  for_get : Kind
  for_set : Kind

-- The calls of `getValues` and `setValues` of `IVehicleHardware`, with the client whose result callback
-- they pass.
pub data ValueCall (F : Type 0) : Type 0 where
  gets : GetSetValuesClient → List (GetValueRequest F) → ValueCall F
  sets : GetSetValuesClient → List (SetValueRequest F) → ValueCall F

-- The messages to a callback, by its pointer.
pub data Sent (F : Type 0) : Type 0 where
  get_values_results : ℕ → List (GetValueResult F) → Sent F
  set_values_results : ℕ → List SetValueResult → Sent F
  property_event : ℕ → List (VehiclePropValue F) → Sent F
  property_set_error : ℕ → List (PropIdAreaId × StatusCode) → Sent F
  supported_value_change : ℕ → List PropIdAreaId → Sent F

-- `IVehicleHardware`, as far as `DefaultVehicleHal` calls it. A status depends on the calls so far,
-- the last first, and so do the batches of results that the hardware gives to the result callback of
-- the last call before that call returns.
pub record Hardware (F : Type 0) : Type 0 where
  pub all_property_configs : List (VehiclePropConfig F)
  pub property_config : ℕ → Option (VehiclePropConfig F)
  pub value_status : List (ValueCall F) → StatusCode
  pub get_results_before_return : List (ValueCall F) → List (List (GetValueResult F))
  pub set_results_before_return : List (ValueCall F) → List (List SetValueResult)
  pub subscription_status : List (HardwareCall F) → StatusCode
  pub supported_values_lists : List PropIdAreaId → List (SupportedValuesListResult F)
  pub min_max_supported_values : List PropIdAreaId → List (MinMaxSupportedValueResult F)
  pub check_health : StatusCode
  pub has_batching_window : Bool

-- What a method finds outside at its call: `elapsedRealtimeNano`, `uptimeMillis`, the address of an
-- object that is made, whether `linkToDeath` succeeds, whether a binder is alive, and the version
-- that `getInterfaceVersion` returns.
pub record Outside : Type 0 where
  pub now : ℕ
  pub uptime : ℤ
  pub new_address : ℕ
  pub link_to_death : ℕ → Bool
  pub is_alive : ℕ → Bool
  pub interface_version : ℕ

-- A closure that the constructor of `GetSetValuesClient` makes for `onTimeout`.
pub record TimeoutCallback : Type 0 where
  pub kind : Kind
  pub callback : ℕ

-- `BinderDiedUnlinkedEvent`
pub record BinderDiedUnlinkedEvent : Type 0 where
  pub for_on_binder_died : Bool
  pub client_id : ℕ

-- The members of `DefaultVehicleHal`; then the closures made so far (the place of one in the list is
-- its identity), and, the last first, the messages sent and the calls of the hardware.
pub record Vhal (F : Type 0) : Type 0 where
  pub pending_request_pool : PendingRequestPool
  pub subscription_manager : Manager F
  pub batched_event_queue : Option (ConcurrentQueue (VehiclePropValue F))
  pub test_interface_version : ℕ
  pub config_init : Bool
  pub configs_by_prop_id : Dict ℕ (VehiclePropConfig F)
  pub on_binder_died_contexts : List ℕ
  pub get_values_clients : Dict ℕ GetSetValuesClient
  pub set_values_clients : Dict ℕ GetSetValuesClient
  pub binder_events : ConcurrentQueue BinderDiedUnlinkedEvent
  pub timeout_callbacks : List TimeoutCallback
  pub sent : List (Sent F)
  pub value_calls : List (ValueCall F)

-- `TIMEOUT_IN_NANO`
abbrev pub timeout_in_nano : ℕ
timeout_in_nano = 30000000000

-- A manager with no client, as its constructor makes it.
unfoldable pub new_manager : {F : Type 0} → Manager F
new_manager = record {
  clients_by_key = [];
  subscribed_by_client = [];
  configs_by_key = [];
  values_by_callback = [];
  supported_clients_by_key = [];
  supported_by_client = [];
  hardware_calls = [];
}

-- The constructor of `DefaultVehicleHal`, its members; the callbacks it registers are the steps of
-- the module Events.
unfoldable pub new_vhal : {F : Type 0} → Hardware F → ℕ → Vhal F
unfolding init new_queue new_manager
new_vhal hw test_version = record {
  pending_request_pool = init timeout_in_nano;
  subscription_manager = new_manager;
  batched_event_queue = if hw.has_batching_window then some new_queue else none;
  test_interface_version = test_version;
  config_init = false;
  configs_by_prop_id = [];
  on_binder_died_contexts = [];
  get_values_clients = [];
  set_values_clients = [];
  binder_events = new_queue;
  timeout_callbacks = [];
  sent = [];
  value_calls = [];
}
