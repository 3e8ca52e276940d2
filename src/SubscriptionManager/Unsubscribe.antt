-- ===== src/SubscriptionManager/Unsubscribe.antt =====
-- `unsubscribe` of SubscriptionManager.cpp, from properties or from all, and what it calls.
use vhal_core.Prelude.{
  ℕ, none, some, List, [], ◌∷◌, lookup, ℕ_discrete, ltb, if◌then◌else◌, length, is_empty,
}
use vhal_core.Prelude.Sets.{
  contains, add, erase, IsUnique, contains-add, contains-erase, contains-append, add-IsUnique,
  erase-IsUnique,
}
use vhal_core.Prelude.Dict.{insert, remove, keys}
use vhal_core.HalTypes.{StatusCode, ok}
use vhal_core.Floats.{Floats}
use vhal_core.HalTypes.{PropIdAreaId, PropIdAreaId-discrete}
use vhal_core.Prelude.Sets
use vhal_core.SubscriptionManager.Configs.{remove_client}
use vhal_core.SubscriptionManager.State.{
  HardwareCall, unsubscribes, get_list, M, ◌>>◌, done, call_hardware, configs_at, set_configs,
}
use vhal_core.SubscriptionManager.Subscribe.{update_cont_sub_configs}
use vhal_core.SubscriptionManager.Supported.{unsubscribe_supported_value_change}

-- The first loop: the keys of the properties.
unfoldable pub keys_of_props : List ℕ → List PropIdAreaId → List PropIdAreaId
keys_of_props props [] = []
keys_of_props props (key ∷ keys) =
    let rest = keys_of_props props keys in
    if contains ℕ_discrete key.prop_id props then key ∷ rest else rest

module _ {F : Type 0} where
  -- The end of `unsubscribePropIdAreaIdLocked`: the client goes, and with the last one the key.
  unfoldable pub drop_client : ℕ → PropIdAreaId → M F (Unit {0})
  drop_client client key s =
      let clients =
        remove ℕ_discrete client (get_list (lookup PropIdAreaId-discrete key s.clients_by_key)) in
      (
        (if is_empty clients
            then record s {
              clients_by_key = remove PropIdAreaId-discrete key s.clients_by_key;
              configs_by_key = remove PropIdAreaId-discrete key s.configs_by_key;
            }
            else record s {
              clients_by_key = insert PropIdAreaId-discrete key clients s.clients_by_key;
            }),
        ok tt,
      )

  -- `subscribedPropIdsAreaIds.erase(propIdAreaId)`
  unfoldable pub forget_key : ℕ → PropIdAreaId → M F (Unit {0})
  forget_key client key s = (
    record s {
      subscribed_by_client =
          insert ℕ_discrete client
            (Sets.erase PropIdAreaId-discrete key
              (get_list (lookup ℕ_discrete client s.subscribed_by_client)))
            s.subscribed_by_client;
    },
    ok tt,
  )

  -- `mSubscribedPropsByClient.erase(clientId)`
  unfoldable pub forget_client : ℕ → M F (Unit {0})
  forget_client client s =
      (record s { subscribed_by_client = remove ℕ_discrete client s.subscribed_by_client }, ok tt)

  unfoldable pub forget_if_empty : ℕ → M F (Unit {0})
  unfolding forget_client
  forget_if_empty client s =
      if is_empty (get_list (lookup ℕ_discrete client s.subscribed_by_client))
      then forget_client client s
      else (s, ok tt)

module _ {F : Type 0} (hardware : List (HardwareCall F) → StatusCode) where
  -- `removeOnChangeSubscriberLocked`
  unfoldable pub remove_on_change_subscriber : PropIdAreaId → M F (Unit {0})
  unfolding call_hardware
  remove_on_change_subscriber key s =
      let clients = get_list (lookup PropIdAreaId-discrete key s.clients_by_key) in
      (if ltb 1 (length clients) then done else call_hardware hardware (unsubscribes key))
        (record s { clients_by_key = insert PropIdAreaId-discrete key clients s.clients_by_key })

  unfoldable pub unsubscribe_supported : ℕ → M F (Unit {0})
  unsubscribe_supported client s = elim (lookup ℕ_discrete client s.supported_by_client) [
    | none ↦ (s, ok tt)
    | some keys ↦ unsubscribe_supported_value_change hardware client keys s
  ]

module _ {F : Type 0} (f : Floats F) (hardware : List (HardwareCall F) → StatusCode) where
  -- `removeContinuousSubscriberLocked`
  unfoldable pub remove_continuous_subscriber : ℕ → PropIdAreaId → M F (Unit {0})
  unfolding update_cont_sub_configs
  remove_continuous_subscriber client key s =
      let old = configs_at f key s in
      (do set_configs key old; update_cont_sub_configs f hardware key (remove_client f client old))
        s

  -- `unsubscribePropIdAreaIdLocked`
  unfoldable pub unsubscribe_key : ℕ → PropIdAreaId → M F (Unit {0})
  unfolding remove_continuous_subscriber remove_on_change_subscriber drop_client
  unsubscribe_key client key s = elim (lookup PropIdAreaId-discrete key s.configs_by_key) [
    | some configs ↦ (remove_continuous_subscriber client key >> drop_client client key) s
    | none ↦ elim (lookup PropIdAreaId-discrete key s.clients_by_key) [
      | none ↦ (s, ok tt)
      | some clients ↦ (remove_on_change_subscriber hardware key >> drop_client client key) s
    ]
  ]

  -- The second loop of `unsubscribe` from properties.
  unfoldable pub unsubscribe_keys : ℕ → List PropIdAreaId → M F (Unit {0})
  unsubscribe_keys client [] = done
  unsubscribe_keys client (key ∷ keys) =
      unsubscribe_key client key >> forget_key client key >> unsubscribe_keys client keys

  -- `unsubscribe(clientId, propIds)`
  unfoldable pub unsubscribe_props : ℕ → List ℕ → M F (Unit {0})
  unsubscribe_props client props s = elim (lookup ℕ_discrete client s.subscribed_by_client) [
    | none ↦ (s, ok tt)
    | some keys ↦ (unsubscribe_keys client (keys_of_props props keys) >> forget_if_empty client) s
  ]

  -- The first half of `unsubscribe(clientId)`: the keys stay in the client's set until all are done.
  unfoldable pub unsubscribe_each : ℕ → List PropIdAreaId → M F (Unit {0})
  unsubscribe_each client [] = done
  unsubscribe_each client (key ∷ keys) = unsubscribe_key client key >> unsubscribe_each client keys

  unfoldable pub unsubscribe_changes : ℕ → M F (Unit {0})
  unfolding forget_client
  unsubscribe_changes client s = elim (lookup ℕ_discrete client s.subscribed_by_client) [
    | none ↦ (s, ok tt)
    | some keys ↦ (unsubscribe_each client keys >> forget_client client) s
  ]

  -- `unsubscribe(clientId)`
  unfoldable pub unsubscribe : ℕ → M F (Unit {0})
  unfolding unsubscribe_changes unsubscribe_supported
  unsubscribe client = unsubscribe_changes client >> unsubscribe_supported hardware client
