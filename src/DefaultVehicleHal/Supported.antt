-- ===== src/DefaultVehicleHal/Supported.antt =====
-- The supported values of properties in DefaultVehicleHal.cpp: what a client asks of them, and the
-- subscriptions to their changes.
use vhal_core.Prelude.{
  ℕ, zero, suc, Bool, ◌||◌, Option, none, some, List, [], ◌∷◌, ◌==◌, if◌then◌else◌, length,
  is_empty,
}
use vhal_core.Prelude.Dict.{keys}
use vhal_core.HalTypes.{ok_code, invalid_arg, internal_error, PropIdAreaId, HasSupportedValueInfo}
use vhal_core.SubscriptionManager.{
  Callback, subscribe_supported_value_change, unsubscribe_supported_value_change,
}
use vhal_core.DefaultVehicleHal.State.{
  SupportedValuesListResult, MinMaxSupportedValueResult, Status, success, transaction_failed,
  service_specific, fault, to_scoped_status, Hardware, Outside, Vhal,
}
use vhal_core.DefaultVehicleHal.Configs.{get_has_supported_value_info}
use vhal_core.DefaultVehicleHal.Requests.{monitor_binder_life_cycle}

-- `results[i] = r`
unfoldable pub set {ℓ} : {A : Type ℓ} → List A → ℕ → A → List A
set [] i r = []
set (x ∷ xs) zero r = r ∷ xs
set (x ∷ xs) (suc i) r = x ∷ set xs i r

-- The loop that puts the hardware's results where the counters say; the lists have one length.
unfoldable pub scatter {ℓ} : {A : Type ℓ} → List A → List ℕ → List A → List A
unfolding set
scatter results (i ∷ counters) (r ∷ rs) = scatter (set results i r) counters rs
scatter results _ _ = results

-- What `getSupportedValuesLists` and `getMinMaxSupportedValue` have in common, for results of the
-- type `R`: what `goes_on` asks of the property's info, the results without the hardware, and the
-- call of it.
module _ {F R : Type 0} (hw : Hardware F) (out : Outside) (s : Vhal F)
    (goes_on : HasSupportedValueInfo → Bool) (refused nothing : R)
    (ask : List PropIdAreaId → List R) where
  -- The first loop, from `requestCounter` on: the results so far, the counters and the keys for the
  -- hardware. A result that the hardware is to give is still the empty one.
  unfoldable pub sort_out : ℕ → List PropIdAreaId → List R × List ℕ × List PropIdAreaId
  sort_out counter [] = ([], [], [])
  sort_out counter (key ∷ keys) =
      let (results, counters, to_hardware) = sort_out (suc counter) keys in
      elim (get_has_supported_value_info hw out s key.prop_id key.area_id) [
        | none ↦ (refused ∷ results, counters, to_hardware)
        | some info ↦
            if goes_on info
            then (nothing ∷ results, counter ∷ counters, key ∷ to_hardware)
            else (nothing ∷ results, counters, to_hardware)
      ]

  unfoldable pub get_supported : List PropIdAreaId → Status × List R
  unfolding sort_out scatter
  get_supported keys =
      let (results, counters, to_hardware) = sort_out 0 keys in
      let from_hardware = ask to_hardware in
      if is_empty to_hardware
      then (success, results)
      else if length from_hardware == length counters
      then (success, scatter results counters from_hardware)
      else (service_specific internal_error, [])

module _ {F : Type 0} (hw : Hardware F) (out : Outside) where
  unfoldable pub get_supported_values_lists :
      Vhal F → List PropIdAreaId → Status × List (SupportedValuesListResult F)
  unfolding get_supported
  get_supported_values_lists s =
      get_supported hw out s (λ info. info.has_supported_values_list)
        (record { status = invalid_arg; supported_values_list = none })
        (record { status = ok_code; supported_values_list = none }) hw.supported_values_lists

  unfoldable pub get_min_max_supported_value :
      Vhal F → List PropIdAreaId → Status × List (MinMaxSupportedValueResult F)
  unfolding get_supported
  get_min_max_supported_value s =
      get_supported hw out s (λ info. info.has_min_supported_value || info.has_max_supported_value)
        (record { status = invalid_arg; min_supported_value = none; max_supported_value = none })
        (record { status = ok_code; min_supported_value = none; max_supported_value = none })
        hw.min_max_supported_values

  -- The loop of `registerSupportedValueChangeCallback`: `none` where a property has no info.
  unfoldable pub keys_to_subscribe : Vhal F → List PropIdAreaId → Option (List PropIdAreaId)
  keys_to_subscribe s [] = some []
  keys_to_subscribe s (key ∷ keys) =
      elim (get_has_supported_value_info hw out s key.prop_id key.area_id) [
        | none ↦ none
        | some info ↦ elim (keys_to_subscribe s keys) [
          | none ↦ none
          | some rest ↦
              if info.has_min_supported_value || info.has_max_supported_value
                || info.has_supported_values_list
              then some (key ∷ rest)
              else some rest
        ]
      ]

  unfoldable pub register_supported_value_change_callback :
      Option Callback → List PropIdAreaId → Vhal F → Vhal F × Status
  unfolding keys_to_subscribe monitor_binder_life_cycle
  register_supported_value_change_callback callback keys s = elim (keys_to_subscribe s keys) [
    | none ↦ (s, service_specific invalid_arg)
    | some [] ↦ (s, success)
    | some (key ∷ rest) ↦ elim callback [
      | none ↦ (s, fault)
      | some c ↦
          let (s', alive) = monitor_binder_life_cycle out c.binder s in
          let (manager, r) =
            subscribe_supported_value_change hw.subscription_status c (key ∷ rest)
              s'.subscription_manager in
          if alive
          then (record s' { subscription_manager = manager }, to_scoped_status r)
          else (s', transaction_failed)
    ]
  ]

  unfoldable pub unregister_supported_value_change_callback :
      Option Callback → List PropIdAreaId → Vhal F → Vhal F × Status
  unregister_supported_value_change_callback none keys s = (s, fault)
  unregister_supported_value_change_callback (some c) keys s =
      let (manager, r) =
        unsubscribe_supported_value_change hw.subscription_status c.binder keys
          s.subscription_manager in
      (record s { subscription_manager = manager }, to_scoped_status r)
