-- ===== src/SubscriptionManager/Clients.antt =====
-- Which clients a property and area has, and which properties and areas a client has: the two
-- indices of the manager, and the steps that leave them alone.
use vhal_core.Prelude.{
  ℕ, ◌≡◌, refl, ◌∙◌, Bool, true, false, not, Option, none, some, List, lookup, ℕ_discrete,
  if◌then◌else◌, is_none,
}
use vhal_core.Prelude.Sets.{contains}
use vhal_core.Prelude.Dict.{Dict}
use vhal_core.HalTypes.{StatusCode, VhalResult, ok, err}
use vhal_core.HalTypes.{PropIdAreaId, PropIdAreaId-discrete}
use vhal_core.Floats.{Floats}
use vhal_core.SubscriptionManager.{
  SubConfig, ContSubConfigs, Callback, HardwareCall, Manager, get_list, M, ◌>>=◌, ◌>>◌, done,
  call_hardware, configs_at, set_configs, same_combined, update_hardware, update_cont_sub_configs,
  add_on_change_subscriber, add_continuous_subscriber, remove_continuous_subscriber, add_client,
  remove_client, subscribes, unsubscribes, updates_sample_rate, new_subscribe_options,
}

module _ {F : Type 0} where
  -- The client is in the key's map.
  abbrev pub is_client : PropIdAreaId → ℕ → Manager F → Bool
  is_client key client s = not (
      is_none
        (lookup ℕ_discrete client (get_list (lookup PropIdAreaId-discrete key s.clients_by_key))))

  -- The key is in the client's set.
  abbrev pub is_subscribed : ℕ → PropIdAreaId → Manager F → Bool
  is_subscribed client key s =
      contains PropIdAreaId-discrete key
        (get_list (lookup ℕ_discrete client s.subscribed_by_client))

  -- A step that leaves both indices as they are.
  abbrev pub Keeps : {A : Type 0} → M F A → Type 0
  Keeps m =
      (s : Manager F)
      → ((m s).0.clients_by_key ≡ s.clients_by_key)
        × ((m s).0.subscribed_by_client ≡ s.subscribed_by_client)

  -- A chain either stops with an error of its first method, or goes on where that one succeeded.
  pub bind-cases :
      {A B : Type 0} (P : Manager F × VhalResult B → Type 0) (m : M F A) (k : A → M F B)
      (s : Manager F)
      → ((a : A) → (m s).1 ≡ ok a → P (k a (m s).0))
      → ((e : StatusCode) → (m s).1 ≡ err e → P ((m s).0, err e))
      → P ((m >>= k) s)
  bind-cases {A} {B} P m k s hok herr = go (m s).0 (m s).1 hok herr
    where
      go :
          (s' : Manager F) (r : VhalResult A)
          → ((a : A) → r ≡ ok a → P (k a s'))
          → ((e : StatusCode) → r ≡ err e → P (s', err e))
          → P (elim r [ ok a ↦ k a s' | err e ↦ (s', err e) ])
      go s' (ok a) hok herr = hok a refl
      go s' (err e) hok herr = herr e refl

  pub Keeps-bind :
      {A B : Type 0} (m : M F A) (k : A → M F B)
      → Keeps m
      → ((a : A) → Keeps (k a))
      → Keeps (m >>= k)
  Keeps-bind m k hm hk s =
      bind-cases
        (λ x.
          (x.0.clients_by_key ≡ s.clients_by_key)
          × (x.0.subscribed_by_client ≡ s.subscribed_by_client))
        m k s (λ a _. ((hk a (m s).0).0 ∙ (hm s).0, (hk a (m s).0).1 ∙ (hm s).1)) λ e _. hm s

  pub Keeps-if : (b : Bool) (m n : M F (Unit {0})) → Keeps m → Keeps n → Keeps (if b then m else n)
  Keeps-if true m n hm hn = hm
  Keeps-if false m n hm hn = hn

  Keeps-set_configs : (key : PropIdAreaId) (c : ContSubConfigs F) → Keeps (set_configs key c)
  unfolding set_configs
  Keeps-set_configs key c s = (refl, refl)

  pub Keeps-done : Keeps done
  Keeps-done s = (refl, refl)

module _ {F : Type 0} (hardware : List (HardwareCall F) → StatusCode) where
  pub Keeps-call_hardware : (c : HardwareCall F) → Keeps (call_hardware hardware c)
  unfolding call_hardware
  Keeps-call_hardware c s = (refl, refl)

module _ {F : Type 0} (f : Floats F) (hardware : List (HardwareCall F) → StatusCode) where
  Keeps-update_hardware :
      (key : PropIdAreaId) (c old : ContSubConfigs F) → Keeps (update_hardware f hardware key c old)
  unfolding update_hardware
  Keeps-update_hardware key c old =
      Keeps-bind
        (if f.eq_float c.max_sample_rate_hz old.max_sample_rate_hz
          then done
          else call_hardware hardware (updates_sample_rate key c.max_sample_rate_hz))
        (λ a.
          if f.eq_float c.max_sample_rate_hz f.zero_float
          then call_hardware hardware (unsubscribes key)
          else call_hardware hardware (
              subscribes (
                new_subscribe_options key c.max_sample_rate_hz c.min_required_resolution
                  c.enable_vur)))
        (Keeps-if (f.eq_float c.max_sample_rate_hz old.max_sample_rate_hz) _ _ Keeps-done
          (Keeps-call_hardware hardware (updates_sample_rate key c.max_sample_rate_hz)))
        λ a.
          Keeps-if (f.eq_float c.max_sample_rate_hz f.zero_float) _ _
            (Keeps-call_hardware hardware (unsubscribes key))
            (Keeps-call_hardware hardware (
              subscribes (
                new_subscribe_options key c.max_sample_rate_hz c.min_required_resolution
                  c.enable_vur)))

  Keeps-update_cont_sub_configs :
      (key : PropIdAreaId) (c : ContSubConfigs F) → Keeps (update_cont_sub_configs f hardware key c)
  unfolding update_cont_sub_configs
  Keeps-update_cont_sub_configs key c s =
      Keeps-if (same_combined f c (configs_at f key s)) (set_configs key c)
        (update_hardware f hardware key c (configs_at f key s) >> set_configs key c)
        (Keeps-set_configs key c)
        (Keeps-bind (update_hardware f hardware key c (configs_at f key s)) (λ a. set_configs key c)
          (Keeps-update_hardware key c (configs_at f key s)) λ a. Keeps-set_configs key c)
        s

  pub Keeps-add_continuous_subscriber :
      (client : ℕ) (key : PropIdAreaId) (c : SubConfig F)
      → Keeps (add_continuous_subscriber f hardware client key c)
  unfolding add_continuous_subscriber
  Keeps-add_continuous_subscriber client key c s =
      Keeps-bind (set_configs key (configs_at f key s))
        (λ a. update_cont_sub_configs f hardware key (add_client f client c (configs_at f key s)))
        (Keeps-set_configs key (configs_at f key s))
        (λ a. Keeps-update_cont_sub_configs key (add_client f client c (configs_at f key s))) s

  pub Keeps-remove_continuous_subscriber :
      (client : ℕ) (key : PropIdAreaId) → Keeps (remove_continuous_subscriber f hardware client key)
  unfolding remove_continuous_subscriber
  Keeps-remove_continuous_subscriber client key s =
      Keeps-bind (set_configs key (configs_at f key s))
        (λ a. update_cont_sub_configs f hardware key (remove_client f client (configs_at f key s)))
        (Keeps-set_configs key (configs_at f key s))
        (λ a. Keeps-update_cont_sub_configs key (remove_client f client (configs_at f key s))) s

  pub Keeps-add_on_change_subscriber :
      (key : PropIdAreaId) → Keeps (add_on_change_subscriber f hardware key)
  unfolding add_on_change_subscriber call_hardware
  Keeps-add_on_change_subscriber key s = go (lookup PropIdAreaId-discrete key s.clients_by_key)
    where
      step : Option (Dict ℕ Callback) → Manager F × VhalResult (Unit {0})
      step o = elim o [
        | some clients ↦ (s, ok tt)
        | none ↦
            call_hardware hardware
              (subscribes (new_subscribe_options key f.zero_float f.zero_float false)) s
      ]

      go :
          (o : Option (Dict ℕ Callback))
          → ((step o).0.clients_by_key ≡ s.clients_by_key)
            × ((step o).0.subscribed_by_client ≡ s.subscribed_by_client)
      go none = (refl, refl)
      go (some clients) = (refl, refl)
