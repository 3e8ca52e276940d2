-- ===== src/SubscriptionManager/Supported.antt =====
-- Subscriptions to changes of the supported values, of SubscriptionManager.cpp.
use vhal_core.Prelude.{
  ℕ, not, ◌&&◌, none, some, List, [], ◌∷◌, lookup, ℕ_discrete, ◌==◌, if◌then◌else◌, length,
  is_empty, is_none,
}
use vhal_core.Prelude.Sets.{
  contains, add, erase, IsUnique, contains-add, contains-erase, contains-append, add-IsUnique,
  erase-IsUnique,
}
use vhal_core.Prelude.Dict.{insert, remove, keys}
use vhal_core.HalTypes.{StatusCode, ok}
use vhal_core.HalTypes.{PropIdAreaId, PropIdAreaId-discrete}
use vhal_core.Prelude.Sets
use vhal_core.SubscriptionManager.State.{
  Callback, HardwareCall, subscribes_supported, unsubscribes_supported, Manager, get_list, M, ◌>>◌,
  done, call_hardware,
}

module _ {F : Type 0} where
  -- `propIdAreaIdsToUnsubscribe` of `unsubscribeSupportedValueChangeLocked`
  unfoldable pub only_client_keys : ℕ → List PropIdAreaId → Manager F → List PropIdAreaId
  only_client_keys client [] s = []
  only_client_keys client (key ∷ keys) s =
      let rest = only_client_keys client keys s in
      elim (lookup PropIdAreaId-discrete key s.supported_clients_by_key) [
        | none ↦ rest
        | some clients ↦
            if length clients == 1 && not (is_none (lookup ℕ_discrete client clients))
            then key ∷ rest
            else rest
      ]

  -- One round of its book-keeping.
  unfoldable pub drop_supported : ℕ → PropIdAreaId → Manager F → Manager F
  drop_supported client key s =
      let clients =
        remove ℕ_discrete client
          (get_list (lookup PropIdAreaId-discrete key s.supported_clients_by_key)) in
      let keys =
        Sets.erase PropIdAreaId-discrete key
          (get_list (lookup ℕ_discrete client s.supported_by_client)) in
      record s {
        supported_clients_by_key =
            if is_empty clients
            then remove PropIdAreaId-discrete key s.supported_clients_by_key
            else insert PropIdAreaId-discrete key clients s.supported_clients_by_key;
        supported_by_client =
            if is_empty keys
            then remove ℕ_discrete client s.supported_by_client
            else insert ℕ_discrete client keys s.supported_by_client;
      }

  unfoldable pub drop_all_supported : ℕ → List PropIdAreaId → M F (Unit {0})
  drop_all_supported client [] s = (s, ok tt)
  drop_all_supported client (key ∷ keys) s =
      drop_all_supported client keys (drop_supported client key s)

  -- The loop of `subscribeSupportedValueChange`.
  unfoldable pub add_all_supported : Callback → List PropIdAreaId → M F (Unit {0})
  add_all_supported callback [] s = (s, ok tt)
  add_all_supported callback (key ∷ keys) s =
      let client = callback.binder in
      add_all_supported callback keys (record s {
        supported_clients_by_key =
            insert PropIdAreaId-discrete key
              (insert ℕ_discrete client callback
                (get_list (lookup PropIdAreaId-discrete key s.supported_clients_by_key)))
              s.supported_clients_by_key;
        supported_by_client =
            insert ℕ_discrete client
              (Sets.add PropIdAreaId-discrete key
                (get_list (lookup ℕ_discrete client s.supported_by_client)))
              s.supported_by_client;
      })

module _ {F : Type 0} (hardware : List (HardwareCall F) → StatusCode) where
  -- `unsubscribeSupportedValueChangeLocked`
  unfoldable pub unsubscribe_supported_value_change : ℕ → List PropIdAreaId → M F (Unit {0})
  unfolding call_hardware
  unsubscribe_supported_value_change client keys s =
      let last = only_client_keys client keys s in
      ((if is_empty last then done else call_hardware hardware (unsubscribes_supported last))
          >> drop_all_supported client keys)
        s

  unfoldable pub subscribe_supported_value_change : Callback → List PropIdAreaId → M F (Unit {0})
  unfolding call_hardware
  subscribe_supported_value_change callback keys =
      call_hardware hardware (subscribes_supported keys) >> add_all_supported callback keys
