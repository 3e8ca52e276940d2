-- ===== src/SubscriptionManager/Frames.antt =====
-- The methods of SubscriptionManager.cpp that leave both indices of value subscriptions as they are:
-- delivery, and the subscriptions to supported values.
use vhal_core.Prelude.{
  ℕ, ◌≡◌, refl, ◌∙◌, inl, inr, not, ◌&&◌, Option, none, some, List, [], ◌∷◌, lookup, ℕ_discrete,
  if◌then◌else◌, Bool-cases, is_empty,
}
use vhal_core.Prelude.Dict.{Dict, keys}
use vhal_core.HalTypes.{StatusCode, VhalResult, ok}
use vhal_core.HalTypes.{PropIdAreaId, PropIdAreaId-discrete, VehiclePropValue}
use vhal_core.Floats.{Floats}
use vhal_core.SubscriptionManager.{
  Callback, HardwareCall, Manager, get_list, done, call_hardware, unsubscribe_supported,
  unsubscribe_supported_value_change, drop_all_supported, drop_supported, only_client_keys,
  unsubscribes_supported, subscribes_supported, subscribe_supported_value_change, add_all_supported,
  deliver, deliver_clients, deliver_one, configs_at, is_vur_enabled_for_client,
}
use vhal_core.SubscriptionManager.Clients.{
  Keeps, Keeps-if, Keeps-bind, Keeps-call_hardware, Keeps-done,
}

module _ {F : Type 0} where
  Keeps-drop_all_supported :
      (client : ℕ) (keys : List PropIdAreaId) → Keeps (drop_all_supported {F = F} client keys)
  unfolding drop_all_supported drop_supported
  Keeps-drop_all_supported client [] s = (refl, refl)
  Keeps-drop_all_supported client (key ∷ keys) s =
      Keeps-drop_all_supported client keys (drop_supported client key s)

  Keeps-add_all_supported :
      (callback : Callback) (keys : List PropIdAreaId)
      → Keeps (add_all_supported {F = F} callback keys)
  unfolding add_all_supported
  Keeps-add_all_supported callback [] s = (refl, refl)
  Keeps-add_all_supported callback (key ∷ keys) s = Keeps-add_all_supported callback keys _

module _ {F : Type 0} (hardware : List (HardwareCall F) → StatusCode) where
  pub Keeps-unsubscribe_supported_value_change :
      (client : ℕ) (keys : List PropIdAreaId)
      → Keeps (unsubscribe_supported_value_change hardware client keys)
  unfolding unsubscribe_supported_value_change
  Keeps-unsubscribe_supported_value_change client keys s =
      let last = only_client_keys client keys s in
      Keeps-bind
        (if is_empty last then done else call_hardware hardware (unsubscribes_supported last))
        (λ a. drop_all_supported client keys)
        (Keeps-if (is_empty last) _ _ Keeps-done
          (Keeps-call_hardware hardware (unsubscribes_supported last)))
        (λ a. Keeps-drop_all_supported client keys) s

  pub Keeps-subscribe_supported_value_change :
      (callback : Callback) (keys : List PropIdAreaId)
      → Keeps (subscribe_supported_value_change hardware callback keys)
  unfolding subscribe_supported_value_change
  Keeps-subscribe_supported_value_change callback keys =
      Keeps-bind (call_hardware hardware (subscribes_supported keys))
        (λ a. add_all_supported callback keys)
        (Keeps-call_hardware hardware (subscribes_supported keys))
        λ a. Keeps-add_all_supported callback keys

  pub Keeps-unsubscribe_supported : (client : ℕ) → Keeps (unsubscribe_supported hardware client)
  unfolding unsubscribe_supported
  Keeps-unsubscribe_supported client s = go (lookup ℕ_discrete client s.supported_by_client)
    where
      step : Option (List PropIdAreaId) → Manager F × VhalResult (Unit {0})
      step o = elim o [
        | none ↦ (s, ok tt)
        | some keys ↦ unsubscribe_supported_value_change hardware client keys s
      ]

      go :
          (o : Option (List PropIdAreaId))
          → ((step o).0.clients_by_key ≡ s.clients_by_key)
            × ((step o).0.subscribed_by_client ≡ s.subscribed_by_client)
      go none = (refl, refl)
      go (some keys) = Keeps-unsubscribe_supported_value_change client keys s

module _ {F : Type 0} (f : Floats F) where
  deliver_one-keep :
      (key : PropIdAreaId) (v : VehiclePropValue F) (c : ℕ × Callback)
      (st : Manager F × Dict ℕ (List (VehiclePropValue F)))
      → ((deliver_one f key v c st).0.clients_by_key ≡ st.0.clients_by_key)
        × ((deliver_one f key v c st).0.subscribed_by_client ≡ st.0.subscribed_by_client)
  unfolding deliver_one
  deliver_one-keep key v (client, callback) (s, out) =
      let configs = configs_at f key s in
      elim (Bool-cases (is_vur_enabled_for_client f client configs && not configs.enable_vur)) [
        | inl e ↦ rw e (refl, refl)
        | inr e ↦ rw e (refl, refl)
      ]

  -- Delivery changes the configurations and the values kept, and neither index.
  deliver_clients-keep :
      (key : PropIdAreaId) (v : VehiclePropValue F) (cs : Dict ℕ Callback)
      (st : Manager F × Dict ℕ (List (VehiclePropValue F)))
      → ((deliver_clients f key v cs st).0.clients_by_key ≡ st.0.clients_by_key)
        × ((deliver_clients f key v cs st).0.subscribed_by_client ≡ st.0.subscribed_by_client)
  unfolding deliver_clients
  deliver_clients-keep key v [] st = (refl, refl)
  deliver_clients-keep key v (c ∷ cs) st =
      let (p, q) = deliver_clients-keep key v cs (deliver_one f key v c st) in
      let (p', q') = deliver_one-keep key v c st in (p ∙ p', q ∙ q')

  pub deliver-keep :
      (vs : List (VehiclePropValue F)) (st : Manager F × Dict ℕ (List (VehiclePropValue F)))
      → ((deliver f vs st).0.clients_by_key ≡ st.0.clients_by_key)
        × ((deliver f vs st).0.subscribed_by_client ≡ st.0.subscribed_by_client)
  unfolding deliver
  deliver-keep [] st = (refl, refl)
  deliver-keep (v ∷ vs) (s, out) =
      let key : PropIdAreaId = record { prop_id = v.prop; area_id = v.area_id } in
      let cs = get_list (lookup PropIdAreaId-discrete key s.clients_by_key) in
      let (p, q) = deliver-keep vs (deliver_clients f key v cs (s, out)) in
      let (p', q') = deliver_clients-keep key v cs (s, out) in (p ∙ p', q ∙ q')
