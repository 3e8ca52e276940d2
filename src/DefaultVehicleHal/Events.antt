-- ===== src/DefaultVehicleHal/Events.antt =====
-- What comes to DefaultVehicleHal.cpp from the hardware, the timers and the binder library.
use vhal_core.Prelude.{
  ℕ, ◌+◌, true, false, none, some, List, [], ◌∷◌, ℕ_discrete, if◌then◌else◌, length, get_elem?,
  is_empty,
}
use vhal_core.Prelude.Int.{ℤ, pos}
use vhal_core.Prelude.Sets.{erase}
use vhal_core.Prelude.Dict.{Dict, remove, keys}
use vhal_core.HalTypes.{StatusCode}
use vhal_core.Floats.{Floats}
use vhal_core.HalTypes.{ok_code, VehiclePropValue, available, PropIdAreaId, empty_raw}
use vhal_core.PendingRequestPool.{check_timeout}
use vhal_core.SubscriptionManager.{
  get_subscribed_clients, get_subscribed_clients_for_error_events,
  get_subscribed_clients_for_supported_value_change, unsubscribe, count_property_change_clients,
  count_supported_value_change_clients,
}
use vhal_core.ConcurrentQueue.{push, push_all, flush}
use vhal_core.ConnectedClient.{
  GetValueResult, SetValueResult, GetSetValuesClient, get_or_set_values_callback,
  timeout_get_results, timeout_set_results,
}
use vhal_core.DefaultVehicleHal.State.{
  for_get, for_set, Sent, get_values_results, set_values_results, property_event,
  property_set_error, supported_value_change, Hardware, TimeoutCallback, BinderDiedUnlinkedEvent,
  Vhal,
}
use vhal_core.DefaultVehicleHal.Requests.{send}

module _ {F : Type 0} where
  -- A message to each callback that has something to be told; none is sent with nothing in it.
  unfoldable pub send_each :
      {A : Type 0} → (ℕ → List A → Sent F) → Dict ℕ (List A) → Vhal F → Vhal F
  send_each message [] s = s
  send_each message ((callback, as_list) ∷ m) s =
      send_each message m (if is_empty as_list then s else send (message callback as_list) s)

  -- The result callbacks that `getResultCallback` gives the hardware.
  unfoldable pub on_get_results : GetSetValuesClient → List (GetValueResult F) → Vhal F → Vhal F
  on_get_results client results s =
      let (pool, kept) =
        get_or_set_values_callback (λ r. r.request_id) client.address results
          s.pending_request_pool in
      let s' = record s { pending_request_pool = pool } in
      if is_empty kept then s' else send (get_values_results client.callback kept) s'

  unfoldable pub on_set_results : GetSetValuesClient → List SetValueResult → Vhal F → Vhal F
  on_set_results client results s =
      let (pool, kept) =
        get_or_set_values_callback (λ r. r.request_id) client.address results
          s.pending_request_pool in
      let s' = record s { pending_request_pool = pool } in
      if is_empty kept then s' else send (set_values_results client.callback kept) s'

  -- A call of the closure around `onTimeout`.
  unfoldable pub call_timeout : TimeoutCallback → List ℤ → Vhal F → Vhal F
  call_timeout c ids s = elim c.kind [
    | for_get ↦ send (get_values_results c.callback (timeout_get_results ids)) s
    | for_set ↦ send (set_values_results c.callback (timeout_set_results ids)) s
  ]

  unfoldable pub call_timeouts : List (ℕ × List ℤ) → Vhal F → Vhal F
  unfolding call_timeout
  call_timeouts [] s = s
  call_timeouts ((i, ids) ∷ calls) s =
      call_timeouts calls
        (elim (get_elem? s.timeout_callbacks i) [ none ↦ s | some c ↦ call_timeout c ids s ])

  -- A round of the pool's timer thread.
  unfoldable pub on_timer : ℕ → Vhal F → Vhal F
  unfolding call_timeouts
  on_timer now s =
      let (pool, calls) = check_timeout now s.pending_request_pool in
      call_timeouts calls (record s { pending_request_pool = pool })

  unfoldable pub on_property_set_error_event : List (PropIdAreaId × StatusCode) → Vhal F → Vhal F
  unfolding send_each
  on_property_set_error_event events s =
      send_each property_set_error
        (get_subscribed_clients_for_error_events events s.subscription_manager []) s

  unfoldable pub on_supported_value_change : List PropIdAreaId → Vhal F → Vhal F
  unfolding send_each
  on_supported_value_change keys s =
      send_each supported_value_change
        (get_subscribed_clients_for_supported_value_change keys s.subscription_manager []) s

  -- `onBinderDied` and `onBinderUnlinked`
  unfoldable pub on_binder_died : ℕ → Vhal F → Vhal F
  on_binder_died client s = record s {
    binder_events = push (record { for_on_binder_died = true; client_id = client }) s.binder_events;
  }

  unfoldable pub on_binder_unlinked : ℕ → Vhal F → Vhal F
  on_binder_unlinked client s = record s {
    binder_events =
        push (record { for_on_binder_died = false; client_id = client }) s.binder_events;
  }

  unfoldable pub on_binder_unlinked_with_context : ℕ → Vhal F → Vhal F
  on_binder_unlinked_with_context client s = record s {
    on_binder_died_contexts = erase ℕ_discrete client s.on_binder_died_contexts;
  }

  -- `countClients`
  unfoldable pub count_clients : Vhal F → ℕ
  count_clients s =
      length s.get_values_clients
      + length s.set_values_clients
      + count_property_change_clients s.subscription_manager
      + count_supported_value_change_clients s.subscription_manager

module _ {F : Type 0} (f : Floats F) where
  unfoldable pub on_property_change_event : List (VehiclePropValue F) → Vhal F → Vhal F
  unfolding send_each
  on_property_change_event values s =
      let (manager, by_callback) = get_subscribed_clients f values s.subscription_manager in
      send_each property_event by_callback (record s { subscription_manager = manager })

  -- The callback that the constructor registers: `batchPropertyChangeEvent`, or at once.
  unfoldable pub on_hardware_property_change : List (VehiclePropValue F) → Vhal F → Vhal F
  unfolding on_property_change_event
  on_hardware_property_change values s = elim s.batched_event_queue [
    | some queue ↦ record s { batched_event_queue = some (push_all values queue) }
    | none ↦ on_property_change_event values s
  ]

  -- The consumer's round: `flush`, and `handleBatchedPropertyEvents` of what there is.
  unfoldable pub on_batch : Vhal F → Vhal F
  unfolding on_property_change_event
  on_batch s = elim s.batched_event_queue [
    | none ↦ s
    | some queue ↦
        let (queue', values) = flush queue in
        let s' = record s { batched_event_queue = some queue' } in
        if is_empty values then s' else on_property_change_event values s'
  ]

module _ {F : Type 0} (f : Floats F) (hw : Hardware F) where
  -- `VehicleProperty::VHAL_HEARTBEAT`, sent at each beat of the recurrent timer.
  unfoldable pub check_health : ℤ → Vhal F → Vhal F
  unfolding on_property_change_event
  check_health uptime s = elim hw.check_health [
    | ok_code ↦
        on_property_change_event f
          (record {
            timestamp = pos 0;
            area_id = 0;
            prop = 0x11500f33;
            status = available;
            value = record (empty_raw {F = F}) { int64_values = uptime ∷ [] };
          }
            ∷ [])
          s
    | _ ↦ s
  ]

  unfoldable pub on_binder_died_with_context : ℕ → Vhal F → Vhal F
  on_binder_died_with_context client s = record s {
    set_values_clients = remove ℕ_discrete client s.set_values_clients;
    get_values_clients = remove ℕ_discrete client s.get_values_clients;
    subscription_manager = (unsubscribe f hw.subscription_status client s.subscription_manager).0;
  }

  -- The loop of `onBinderDiedUnlinkedHandler` over what it has taken from the queue.
  unfoldable pub handle_binder_events : List BinderDiedUnlinkedEvent → Vhal F → Vhal F
  unfolding on_binder_died_with_context on_binder_unlinked_with_context
  handle_binder_events [] s = s
  handle_binder_events (e ∷ es) s = handle_binder_events es (
      if e.for_on_binder_died
      then on_binder_died_with_context e.client_id s
      else on_binder_unlinked_with_context e.client_id s)

  -- A round of `onBinderDiedUnlinkedHandler`.
  unfoldable pub on_binder_died_unlinked_handler : Vhal F → Vhal F
  unfolding handle_binder_events
  on_binder_died_unlinked_handler s =
      let (queue, events) = flush s.binder_events in
      handle_binder_events events (record s { binder_events = queue })
