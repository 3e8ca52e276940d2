-- ===== src/DefaultVehicleHal/Requests.antt =====
-- `getValues` and `setValues` of DefaultVehicleHal.cpp.
use vhal_core.Prelude.{
  ℕ, Bool, Option, none, some, List, [], ◌∷◌, ◌++◌, map, lookup, ℕ_discrete, if◌then◌else◌, length,
  is_empty,
}
use vhal_core.Prelude.Int.{ℤ}
use vhal_core.Prelude.Sets.{contains, add}
use vhal_core.Prelude.Dict.{Dict, insert}
use vhal_core.HalTypes.{StatusCode, VhalResult, ok, err}
use vhal_core.Floats.{Floats}
use vhal_core.HalTypes.{ok_code, invalid_arg, VehiclePropValue}
use vhal_core.SubscriptionManager.{Callback}
use vhal_core.VehicleUtils.{Check, passed, refused}
use vhal_core.ConnectedClient.{
  GetValueResult, SetValueResult, GetSetValuesClient, add_client_requests,
  try_finish_client_requests, id_set, get_or_set_values_callback,
}
use vhal_core.DefaultVehicleHal.State.{
  GetValueRequest, SetValueRequest, Status, success, null_pointer, transaction_failed,
  service_specific, Kind, for_get, for_set, ValueCall, gets, sets, Sent, get_values_results,
  set_values_results, Hardware, Outside, Vhal,
}
use vhal_core.DefaultVehicleHal.Checks.{
  check_read_permission, check_write_permission, check_property, has_duplicate,
}

module _ {F : Type 0} where
  -- `monitorBinderLifeCycleLocked`: the state, and whether the binder is alive.
  unfoldable pub monitor_binder_life_cycle : Outside → ℕ → Vhal F → Vhal F × Bool
  monitor_binder_life_cycle out client s =
      if contains ℕ_discrete client s.on_binder_died_contexts then (s, out.is_alive client) else (
        record s { on_binder_died_contexts = add ℕ_discrete client s.on_binder_died_contexts },
        out.link_to_death client,
      )

  abbrev pub clients_of : Kind → Vhal F → Dict ℕ GetSetValuesClient
  clients_of for_get s = s.get_values_clients
  clients_of for_set s = s.set_values_clients

  abbrev pub set_clients : Kind → Dict ℕ GetSetValuesClient → Vhal F → Vhal F
  set_clients for_get m s = record s { get_values_clients = m }
  set_clients for_set m s = record s { set_values_clients = m }

  -- `getOrCreateClient`, with the constructor of `GetSetValuesClient`.
  unfoldable pub get_or_create_client :
      Outside → Kind → Callback → Vhal F → Vhal F × GetSetValuesClient
  get_or_create_client out kind callback s =
      elim (lookup ℕ_discrete callback.binder (clients_of kind s)) [
        | some client ↦ (s, client)
        | none ↦
            let client : GetSetValuesClient = record {
              address = out.new_address;
              callback = callback.pointer;
              timeout_callback = length s.timeout_callbacks;
            } in
            (
              set_clients kind (insert ℕ_discrete callback.binder client (clients_of kind s))
                  (record s {
                    timeout_callbacks =
                        s.timeout_callbacks
                        ++ record { kind = kind; callback = callback.pointer } ∷ [];
                  }),
              client,
            )
      ]

  -- A message to a client.
  abbrev pub send : Sent F → Vhal F → Vhal F
  send message s = record s { sent = message ∷ s.sent }

-- What `getValues` and `setValues` have in common, from `hardwareRequestIds` on, for requests of the
-- type `R` and results of the type `S`, with the results that come before the hardware returns.
module _ {F R S : Type 0} (hw : Hardware F) (out : Outside) (kind : Kind) (id_of : R → ℤ)
    (id_of_result : S → ℤ) (call : GetSetValuesClient → List R → ValueCall F)
    (results : ℕ → List S → Sent F) (before_return : List (ValueCall F) → List (List S)) where
  -- The result callback of the client, for one batch of results.
  unfoldable pub deliver_batch : GetSetValuesClient → List S → Vhal F → Vhal F
  deliver_batch client batch s =
      let (pool, answers) =
        get_or_set_values_callback id_of_result client.address batch s.pending_request_pool in
      record s {
        pending_request_pool = pool;
        sent = if is_empty answers then s.sent else results client.callback answers ∷ s.sent;
      }

  unfoldable pub deliver_batches : GetSetValuesClient → List (List S) → Vhal F → Vhal F
  unfolding deliver_batch
  deliver_batches client [] s = s
  deliver_batches client (batch ∷ batches) s =
      deliver_batches client batches (deliver_batch client batch s)

  -- What follows the call of the hardware: with an error, nothing is expected of it any more.
  unfoldable pub after_call : GetSetValuesClient → List R → StatusCode → Vhal F → Vhal F × Status
  after_call client requests ok_code s = (s, success)
  after_call client requests status s = (
    record s {
      pending_request_pool =
          (try_finish_client_requests client (id_set id_of requests) s.pending_request_pool).0;
    },
    service_specific status,
  )

  -- The call of the hardware, which may answer before it returns.
  unfoldable pub call_values : GetSetValuesClient → List R → Vhal F → Vhal F × Status
  unfolding after_call deliver_batches
  call_values client requests s =
      let calls = call client requests ∷ s.value_calls in
      after_call client requests (hw.value_status calls)
        (deliver_batches client (before_return calls) (record s { value_calls = calls }))

  -- The failed results are sent first, and the hardware is called if there is something for it.
  unfoldable pub hand_over : GetSetValuesClient → List S → List R → Vhal F → Vhal F × Status
  unfolding call_values
  hand_over client failed requests s =
      let s' = if is_empty failed then s else send (results client.callback failed) s in
      if is_empty requests then (s', success) else call_values client requests s'

  -- From `addRequests` on.
  unfoldable pub register_requests : GetSetValuesClient → List S → List R → Vhal F → Vhal F × Status
  unfolding hand_over
  register_requests client failed requests s =
      let (pool, r) =
        add_client_requests client (id_set id_of requests) out.now s.pending_request_pool in
      let s' = record s { pending_request_pool = pool } in
      elim r [ err e ↦ (s', service_specific e) | ok _ ↦ hand_over client failed requests s' ]

  unfoldable pub dispatch : Callback → List S → List R → Vhal F → Vhal F × Status
  unfolding monitor_binder_life_cycle get_or_create_client register_requests
  dispatch callback failed requests s =
      let (s', alive) = monitor_binder_life_cycle out callback.binder s in
      let (s'', client) = get_or_create_client out kind callback s' in
      if alive then register_requests client failed requests s'' else (s', transaction_failed)

module _ {F : Type 0} (f : Floats F) (hw : Hardware F) (out : Outside) where
  -- The loop of `getValues`: the results that have failed, and the requests for the hardware.
  unfoldable pub split_gets :
      Vhal F → List (GetValueRequest F) → List (GetValueResult F) × List (GetValueRequest F)
  split_gets s [] = ([], [])
  split_gets s (r ∷ rs) =
      let (failed, requests) = split_gets s rs in
      elim (check_read_permission hw out s r.prop) [
        | err e ↦ (record { request_id = r.request_id; status = e; prop = none } ∷ failed, requests)
        | ok _ ↦ (failed, r ∷ requests)
      ]

  unfoldable pub get_values : Option Callback → List (GetValueRequest F) → Vhal F → Vhal F × Status
  unfolding split_gets dispatch
  get_values none requests s = (s, null_pointer)
  get_values (some callback) requests s =
      if has_duplicate f (map (λ r. r.prop) requests) []
      then (s, service_specific invalid_arg)
      else let (failed, allowed) = split_gets s requests in
        dispatch hw out for_get (λ r. r.request_id) (λ r. r.request_id) gets get_values_results
          hw.get_results_before_return callback failed allowed s

  -- The checks of one request of `setValues`: `none` where the code reads outside of a vector.
  unfoldable pub check_set : Vhal F → VehiclePropValue F → Option (VhalResult (Unit {0}))
  check_set s v = elim (check_write_permission hw out s v) [
    | err e ↦ some (err e)
    | ok _ ↦ elim (check_property hw out s f v) [
      | passed ↦ some (ok tt)
      | refused ↦ some (err invalid_arg)
      | Check.fault ↦ none
    ]
  ]

  -- The loop of `setValues`.
  unfoldable pub split_sets :
      Vhal F → List (SetValueRequest F) → Option (List SetValueResult × List (SetValueRequest F))
  unfolding check_set
  split_sets s [] = some ([], [])
  split_sets s (r ∷ rs) = elim (check_set s r.value) [
    | none ↦ none
    | some c ↦ elim (split_sets s rs) [
      | none ↦ none
      | some (failed, requests) ↦ elim c [
        | err e ↦ some (record { request_id = r.request_id; status = e } ∷ failed, requests)
        | ok _ ↦ some (failed, r ∷ requests)
      ]
    ]
  ]

  unfoldable pub set_values : Option Callback → List (SetValueRequest F) → Vhal F → Vhal F × Status
  unfolding split_sets dispatch
  set_values none requests s = (s, null_pointer)
  set_values (some callback) requests s =
      if has_duplicate f (map (λ r. r.value) requests) []
      then (s, service_specific invalid_arg)
      else elim (split_sets s requests) [
        | none ↦ (s, Status.fault)
        | some (failed, allowed) ↦
            dispatch hw out for_set (λ r. r.request_id) (λ r. r.request_id) sets set_values_results
              hw.set_results_before_return callback failed allowed s
      ]
