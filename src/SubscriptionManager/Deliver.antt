-- ===== src/SubscriptionManager/Deliver.antt =====
-- Whom SubscriptionManager.cpp tells of new values, errors and supported values.
use vhal_core.Prelude.{
  ℕ, ite, Bool, true, false, not, ◌&&◌, Option, none, some, List, [], ◌∷◌, ◌++◌, lookup, ℕ_discrete,
  ◌==◌, if◌then◌else◌, length, is_empty,
}
use vhal_core.Prelude.Int.{ltb_ℤ}
use vhal_core.Prelude.Dict.{Dict, insert, keys}
use vhal_core.HalTypes.{StatusCode}
use vhal_core.Floats.{Floats}
use vhal_core.HalTypes.{
  VehiclePropValue, VehiclePropertyStatus-discrete, PropIdAreaId, PropIdAreaId-discrete, eq_raw,
}
use vhal_core.VehicleUtils.{sanitize_by_resolution}
use vhal_core.SubscriptionManager.Configs.{is_vur_enabled_for_client, get_resolution_for_client}
use vhal_core.SubscriptionManager.State.{Callback, Manager, get_list, configs_at}

-- `clients[callback].push_back(value)`
unfoldable pub push_to : {A : Type 0} → Callback → A → Dict ℕ (List A) → Dict ℕ (List A)
push_to callback a out =
    insert ℕ_discrete callback.pointer (get_list (lookup ℕ_discrete callback.pointer out) ++ a ∷ [])
      out

-- The inner loops of `getSubscribedClientsForErrorEvents` and
-- `getSubscribedClientsForSupportedValueChange`.
unfoldable pub push_to_all : {A : Type 0} → A → Dict ℕ Callback → Dict ℕ (List A) → Dict ℕ (List A)
unfolding push_to
push_to_all a [] out = out
push_to_all a ((client, callback) ∷ cs) out = push_to_all a cs (push_to callback a out)

module _ {F : Type 0} where
  -- `find(value)` in a set whose equality is that of property and area.
  unfoldable pub find_value :
      VehiclePropValue F → List (VehiclePropValue F) → Option (VehiclePropValue F)
  find_value v [] = none
  find_value v (w ∷ ws) =
      if w.prop == v.prop && w.area_id == v.area_id then some w else find_value v ws

  -- `insert(value)` into that set, which leaves an equal element where it is.
  unfoldable pub insert_value :
      VehiclePropValue F → List (VehiclePropValue F) → List (VehiclePropValue F)
  unfolding find_value
  insert_value v ws = elim (find_value v ws) [ none ↦ v ∷ ws | some w ↦ ws ]

  -- An error event carries its key and a status.
  unfoldable pub get_subscribed_clients_for_error_events :
      List (PropIdAreaId × StatusCode)
      → Manager F
      → Dict ℕ (List (PropIdAreaId × StatusCode))
      → Dict ℕ (List (PropIdAreaId × StatusCode))
  get_subscribed_clients_for_error_events [] s out = out
  get_subscribed_clients_for_error_events ((key, code) ∷ es) s out =
      get_subscribed_clients_for_error_events es s
        (push_to_all (key, code) (get_list (lookup PropIdAreaId-discrete key s.clients_by_key)) out)

  unfoldable pub get_subscribed_clients_for_supported_value_change :
      List PropIdAreaId → Manager F → Dict ℕ (List PropIdAreaId) → Dict ℕ (List PropIdAreaId)
  get_subscribed_clients_for_supported_value_change [] s out = out
  get_subscribed_clients_for_supported_value_change (key ∷ keys) s out =
      get_subscribed_clients_for_supported_value_change keys s (
        push_to_all key (get_list (lookup PropIdAreaId-discrete key s.supported_clients_by_key))
          out)

  -- `isEmpty`
  unfoldable pub is_empty_manager : Manager F → Bool
  is_empty_manager s =
      is_empty s.subscribed_by_client
      && is_empty s.clients_by_key
      && is_empty s.supported_clients_by_key
      && is_empty s.supported_by_client

  unfoldable pub count_property_change_clients : Manager F → ℕ
  count_property_change_clients s = length s.subscribed_by_client

  unfoldable pub count_supported_value_change_clients : Manager F → ℕ
  count_supported_value_change_clients s = length s.supported_by_client

  -- `~SubscriptionManager`
  unfoldable pub destroy_manager : Manager F → Manager F
  destroy_manager s = record s {
    clients_by_key = [];
    subscribed_by_client = [];
    supported_clients_by_key = [];
    supported_by_client = [];
  }

module _ {F : Type 0} (f : Floats F) where
  -- `isValueUpdatedLocked`, over the values kept for the callback.
  unfoldable pub is_value_updated :
      VehiclePropValue F → List (VehiclePropValue F) → List (VehiclePropValue F) × Bool
  unfolding insert_value
  is_value_updated v kept = elim (find_value v kept) [
    | none ↦ (insert_value v kept, true)
    | some old ↦
        if ltb_ℤ v.timestamp old.timestamp
        then (kept, false)
        else if eq_raw f old.value v.value
            && ite (VehiclePropertyStatus-discrete old.status v.status) true false
        then (insert_value v kept, false)
        else (insert_value v kept, true)
  ]

  -- One round of the inner loop of `getSubscribedClients`, for one client of the value's key.
  unfoldable pub deliver_one :
      PropIdAreaId
      → VehiclePropValue F
      → ℕ × Callback
      → Manager F × Dict ℕ (List (VehiclePropValue F))
      → Manager F × Dict ℕ (List (VehiclePropValue F))
  unfolding is_value_updated push_to
  deliver_one key v (client, callback) (s, out) =
      let configs = configs_at f key s in
      let s' = record s {
        configs_by_key = insert PropIdAreaId-discrete key configs s.configs_by_key;
      } in
      let w = record v {
        value = sanitize_by_resolution f (get_resolution_for_client f client configs) v.value;
      } in
      let (kept, updated) =
        is_value_updated w (get_list (lookup ℕ_discrete callback.pointer s.values_by_callback)) in
      if is_vur_enabled_for_client f client configs && not configs.enable_vur
      then (
        record s' {
          values_by_callback = insert ℕ_discrete callback.pointer kept s.values_by_callback;
        },
        if updated then push_to callback w out else out,
      )
      else (s', push_to callback w out)

  unfoldable pub deliver_clients :
      PropIdAreaId
      → VehiclePropValue F
      → Dict ℕ Callback
      → Manager F × Dict ℕ (List (VehiclePropValue F))
      → Manager F × Dict ℕ (List (VehiclePropValue F))
  deliver_clients key v [] st = st
  deliver_clients key v (c ∷ cs) st = deliver_clients key v cs (deliver_one key v c st)

  -- The outer loop, over the values.
  unfoldable pub deliver :
      List (VehiclePropValue F)
      → Manager F × Dict ℕ (List (VehiclePropValue F))
      → Manager F × Dict ℕ (List (VehiclePropValue F))
  deliver [] st = st
  deliver (v ∷ vs) (s, out) =
      let key : PropIdAreaId = record { prop_id = v.prop; area_id = v.area_id } in
      deliver vs (
        deliver_clients key v (get_list (lookup PropIdAreaId-discrete key s.clients_by_key))
          (s, out))

  unfoldable pub get_subscribed_clients :
      List (VehiclePropValue F) → Manager F → Manager F × Dict ℕ (List (VehiclePropValue F))
  get_subscribed_clients vs s = deliver vs (s, [])
