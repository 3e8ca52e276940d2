-- ===== src/SubscriptionManager/OnChange.antt =====
-- When SubscriptionManager.cpp tells the hardware that nobody wants an on-change property.
use vhal_core.Prelude.{
  ℕ, ◌≡◌, refl, ap, ◌∙◌, inl, inr, true, not, ◌&&◌, none, some, List, [], ◌∷◌, lookup, ℕ_discrete,
  ltb, if◌then◌else◌, Bool-cases, length, is_empty,
}
use vhal_core.Prelude.Dict.{Dict, insert, remove, lookup-insert_same}
use vhal_core.HalTypes.{StatusCode}
use vhal_core.HalTypes.{PropIdAreaId, PropIdAreaId-discrete, VehiclePropValue}
use vhal_core.Floats.{Floats}
use vhal_core.SubscriptionManager.{
  Callback, ContSubConfigs, HardwareCall, Manager, get_list, M, ◌>>◌, done, call_hardware,
  unsubscribes, no_configs, combine, refresh_combined_config, remove_client, configs_at,
  set_configs, is_vur_enabled_for_client, update_hardware, update_cont_sub_configs,
  remove_continuous_subscriber, remove_on_change_subscriber, drop_client, unsubscribe_key, deliver,
  deliver_one, deliver_clients, get_subscribed_clients,
}
use vhal_core.SubscriptionManager.Clients.{bind-cases}

module _ {F : Type 0} (f : Floats F) (hardware : List (HardwareCall F) → StatusCode) where
  drop_client-hardware_calls :
      (client : ℕ) (key : PropIdAreaId) (s : Manager F)
      → (drop_client client key s).0.hardware_calls ≡ s.hardware_calls
  unfolding drop_client
  drop_client-hardware_calls client key s =
      elim (Bool-cases (
        is_empty (
          remove ℕ_discrete client
            (get_list (lookup PropIdAreaId-discrete key s.clients_by_key))))) [
              | inl e ↦ rw e refl
              | inr e ↦ rw e refl
            ]

  then_drop :
      (client : ℕ) (key : PropIdAreaId) (m : M F (Unit {0})) (s : Manager F)
      → ((m >> drop_client client key) s).0.hardware_calls ≡ (m s).0.hardware_calls
  then_drop client key m s =
      bind-cases (λ x. x.0.hardware_calls ≡ (m s).0.hardware_calls) m (λ a. drop_client client key)
        s (λ a p. drop_client-hardware_calls client key (m s).0) λ e p. refl

  on_change_calls :
      (key : PropIdAreaId) (clients : Dict ℕ Callback) (s : Manager F)
      → lookup PropIdAreaId-discrete key s.clients_by_key ≡ some clients
      → (remove_on_change_subscriber hardware key s).0.hardware_calls
        ≡ (if ltb 1 (length clients) then s.hardware_calls else unsubscribes key ∷ s.hardware_calls)
  unfolding remove_on_change_subscriber call_hardware
  on_change_calls key clients s h =
      rw h (elim (Bool-cases (ltb 1 (length clients))) [ inl e ↦ rw e refl | inr e ↦ rw e refl ])

  -- As long as a key with clients has no configurations, the hardware is told to unsubscribe from it exactly if the key has one client at most, whichever client unsubscribes.
  pub unsubscribe_key-on_change :
      (client : ℕ) (key : PropIdAreaId) (clients : Dict ℕ Callback) (s : Manager F)
      → lookup PropIdAreaId-discrete key s.configs_by_key ≡ none
      → lookup PropIdAreaId-discrete key s.clients_by_key ≡ some clients
      → (unsubscribe_key f hardware client key s).0.hardware_calls
        ≡ (if ltb 1 (length clients) then s.hardware_calls else unsubscribes key ∷ s.hardware_calls)
  unfolding unsubscribe_key
  unsubscribe_key-on_change client key clients s h h' =
      rw (h, h', unsubscribe_key)
        (then_drop client key (remove_on_change_subscriber hardware key) s
          ∙ on_change_calls key clients s h')

  configs_at-lookup :
      (key : PropIdAreaId) (c : ContSubConfigs F) (s : Manager F)
      → lookup PropIdAreaId-discrete key s.configs_by_key ≡ some c
      → configs_at f key s ≡ c
  unfolding configs_at
  configs_at-lookup key c s h = rw (h, configs_at) refl

  configs_at-set_configs :
      (key : PropIdAreaId) (c : ContSubConfigs F) (s : Manager F)
      → configs_at f key (set_configs key c s).0 ≡ c
  unfolding set_configs
  configs_at-set_configs key c s =
      configs_at-lookup key c (set_configs key c s).0
        (lookup-insert_same PropIdAreaId-discrete key c s.configs_by_key)

  call-set_configs :
      (c : HardwareCall F) (key : PropIdAreaId) (configs : ContSubConfigs F) (s : Manager F)
      → (((done >> call_hardware hardware c) >> set_configs key configs) s).0.hardware_calls
        ≡ c ∷ s.hardware_calls
  unfolding call_hardware set_configs
  call-set_configs c key configs s =
      bind-cases (λ x. x.0.hardware_calls ≡ c ∷ s.hardware_calls) (done >> call_hardware hardware c)
        (λ a. set_configs key configs) s (λ a p. refl) λ e p. refl

  -- Nothing is asked for any more, and the old configuration looks different: its flag is not set.
  update_cont_sub_configs_empty :
      (client : ℕ) (key : PropIdAreaId) (s : Manager F)
      → f.eq_float f.zero_float f.zero_float ≡ true
      → configs_at f key s ≡ no_configs f
      → (update_cont_sub_configs f hardware key
          (remove_client f client (no_configs f))
          s).0.hardware_calls
        ≡ unsubscribes key ∷ s.hardware_calls
  unfolding update_cont_sub_configs no_configs remove_client refresh_combined_config combine remove
      update_hardware call_hardware
  update_cont_sub_configs_empty client key s z h =
      rw (h, z)
        (elim (Bool-cases (f.eq_float f.max_float f.max_float)) [
          | inl e ↦
              rw e
                (call-set_configs (unsubscribes key) key (remove_client f client (no_configs f)) s)
          | inr e ↦
              rw e
                (call-set_configs (unsubscribes key) key (remove_client f client (no_configs f)) s)
        ])

  remove_continuous_subscriber_empty :
      (client : ℕ) (key : PropIdAreaId) (s : Manager F)
      → f.eq_float f.zero_float f.zero_float ≡ true
      → configs_at f key s ≡ no_configs f
      → (remove_continuous_subscriber f hardware client key s).0.hardware_calls
        ≡ unsubscribes key ∷ s.hardware_calls
  unfolding remove_continuous_subscriber set_configs
  remove_continuous_subscriber_empty client key s z h = rw h (
      update_cont_sub_configs_empty client key (set_configs key (no_configs f) s).0 z
        (configs_at-set_configs key (no_configs f) s))

  empty_configs_calls :
      (client : ℕ) (key : PropIdAreaId) (s : Manager F)
      → f.eq_float f.zero_float f.zero_float ≡ true
      → lookup PropIdAreaId-discrete key s.configs_by_key ≡ some (no_configs f)
      → (unsubscribe_key f hardware client key s).0.hardware_calls
        ≡ unsubscribes key ∷ s.hardware_calls
  unfolding unsubscribe_key
  empty_configs_calls client key s z h =
      rw (h, unsubscribe_key)
        (then_drop client key (remove_continuous_subscriber f hardware client key) s
          ∙ remove_continuous_subscriber_empty client key s z
              (configs_at-lookup key (no_configs f) s h))

  deliver_one_empty :
      (key : PropIdAreaId) (v : VehiclePropValue F) (c : ℕ × Callback)
      (st : Manager F × Dict ℕ (List (VehiclePropValue F)))
      → configs_at f key st.0 ≡ no_configs f
      → (lookup PropIdAreaId-discrete key (deliver_one f key v c st).0.configs_by_key
          ≡ some (no_configs f))
        × ((deliver_one f key v c st).0.hardware_calls ≡ st.0.hardware_calls)
  unfolding deliver_one
  deliver_one_empty key v (client, callback) (s, out) h =
      let configs = configs_at f key s in
      let l : lookup PropIdAreaId-discrete key
            (insert PropIdAreaId-discrete key configs s.configs_by_key)
          ≡ some (no_configs f) =
        lookup-insert_same PropIdAreaId-discrete key configs s.configs_by_key ∙ ap some h in
      elim (Bool-cases (is_vur_enabled_for_client f client configs && not configs.enable_vur)) [
        | inl e ↦ rw e (l, refl)
        | inr e ↦ rw e (l, refl)
      ]

  deliver_clients_empty :
      (key : PropIdAreaId) (v : VehiclePropValue F) (c : ℕ × Callback) (cs : Dict ℕ Callback)
      (st : Manager F × Dict ℕ (List (VehiclePropValue F)))
      → configs_at f key st.0 ≡ no_configs f
      → (lookup PropIdAreaId-discrete key (deliver_clients f key v (c ∷ cs) st).0.configs_by_key
          ≡ some (no_configs f))
        × ((deliver_clients f key v (c ∷ cs) st).0.hardware_calls ≡ st.0.hardware_calls)
  unfolding deliver_clients
  deliver_clients_empty key v c [] st h = deliver_one_empty key v c st h
  deliver_clients_empty key v c (d ∷ cs) st h =
      let st' = deliver_one f key v c st in
      let (l, p) = deliver_one_empty key v c st h in
      let (l', p') =
        deliver_clients_empty key v d cs st' (configs_at-lookup key (no_configs f) st'.0 l) in
      (l', p' ∙ p)

  -- If zero equals itself as a float: after the delivery of an event of a key that had clients and no configurations, the next unsubscription from the key makes the hardware be told to unsubscribe, however many clients the key still has.
  pub unsubscribe_key-get_subscribed_clients :
      (client : ℕ) (v : VehiclePropValue F) (c : ℕ × Callback) (cs : Dict ℕ Callback)
      (s : Manager F)
      → let key : PropIdAreaId = record { prop_id = v.prop; area_id = v.area_id } in
        f.eq_float f.zero_float f.zero_float ≡ true
        → lookup PropIdAreaId-discrete key s.configs_by_key ≡ none
        → lookup PropIdAreaId-discrete key s.clients_by_key ≡ some (c ∷ cs)
        → (unsubscribe_key f hardware client key
            (get_subscribed_clients f (v ∷ []) s).0).0.hardware_calls
          ≡ unsubscribes key ∷ s.hardware_calls
  unfolding get_subscribed_clients deliver configs_at
  unsubscribe_key-get_subscribed_clients client v c cs s z h h' =
      let key : PropIdAreaId = record { prop_id = v.prop; area_id = v.area_id } in
      let (l, p) = deliver_clients_empty key v c cs (s, []) (rw (h, configs_at) refl) in
      rw (h', get_subscribed_clients, deliver)
        (empty_configs_calls client key (deliver_clients f key v (c ∷ cs) (s, [])).0 z l
          ∙ ap (λ calls. unsubscribes key ∷ calls) p)
