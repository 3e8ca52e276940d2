-- ===== src/SubscriptionManager/Subscribing.antt =====
-- `subscribe` of SubscriptionManager.cpp against the two indices of the manager.
use vhal_core.Prelude.{
  ℕ, ◌≡◌, refl, ◌∙◌, ite, if_pos, if_neg, Bool, false, ◌||◌, List, [], ◌∷◌, ◌++◌, map, lookup,
  arith, ℕ_discrete, if◌then◌else◌,
}
use vhal_core.Prelude.Sets.{
  contains, add, erase, IsUnique, contains-add, contains-erase, contains-append, add-IsUnique,
  erase-IsUnique,
}
use vhal_core.Prelude.Dict.{insert, lookup-insert}
use vhal_core.HalTypes.{StatusCode, VhalResult, ok, err}
use vhal_core.HalTypes.{PropIdAreaId, PropIdAreaId-discrete}
use vhal_core.Floats.{Floats}
use vhal_core.Prelude.Sets
use vhal_core.SubscriptionManager.{
  SubConfig, SubscribeOptions, Callback, HardwareCall, Manager, get_list, add_on_change_subscriber,
  add_continuous_subscriber, add_subscription, subscribe_one, subscribe_areas, subscribe_options,
  subscribe, check_options,
}
use vhal_core.SubscriptionManager.Progress.{IsProgress, IsProgress-bind}
use vhal_core.SubscriptionManager.Clients.{
  is_client, is_subscribed, Keeps-if, bind-cases, Keeps-add_continuous_subscriber,
  Keeps-add_on_change_subscriber,
}

abbrev keys_of_areas : ℕ → List ℕ → List PropIdAreaId
keys_of_areas prop = map λ area. record { prop_id = prop; area_id = area }

-- The keys that a request names, in its order.
abbrev pub requested : {F : Type 0} → List (SubscribeOptions F) → List PropIdAreaId
requested [] = []
requested (o ∷ os) = keys_of_areas o.prop_id o.area_ids ++ requested os

-- The key is one of these, and the client this one.
abbrev pub is_pair : ℕ → List PropIdAreaId → PropIdAreaId → ℕ → Bool
is_pair me ks key client = ite (ℕ_discrete client me) (contains PropIdAreaId-discrete key ks) false

module _ {F : Type 0} where
  -- In both indices the client has these keys more, and no other client or key changes.
  abbrev pub IsRegistered : ℕ → List PropIdAreaId → Manager F → Manager F → Type 0
  IsRegistered me ks s s' =
      (key : PropIdAreaId) (client : ℕ)
      → (is_client key client s' ≡ (is_client key client s || is_pair me ks key client))
        × (is_subscribed client key s' ≡ (is_subscribed client key s || is_pair me ks key client))

  IsRegistered-append :
      (me : ℕ) (ks ls : List PropIdAreaId) (s s' s'' : Manager F)
      → IsRegistered me ks s s'
      → IsRegistered me ls s' s''
      → IsRegistered me (ks ++ ls) s s''
  IsRegistered-append me ks ls s s' s'' h h' key client =
      let (a, b) = h key client in
      let (a', b') = h' key client in
      let e = contains-append PropIdAreaId-discrete key ks ls in
      (ground (arith, e), ground (arith, e))

  IsRegistered-none :
      (me : ℕ) (s s' : Manager F)
      → s'.clients_by_key ≡ s.clients_by_key
      → s'.subscribed_by_client ≡ s.subscribed_by_client
      → IsRegistered me [] s s'
  unfolding contains
  IsRegistered-none me s s' p q key client = rw (p, q) (ground arith, ground arith)

  IsRegistered-add_subscription :
      (callback : Callback) (key : PropIdAreaId) (s : Manager F)
      → IsRegistered callback.binder (key ∷ []) s (add_subscription callback key s).0
  unfolding add_subscription contains
  IsRegistered-add_subscription callback key s k c =
      let me = callback.binder in
      let clients = get_list (lookup PropIdAreaId-discrete key s.clients_by_key) in
      let ks = get_list (lookup ℕ_discrete me s.subscribed_by_client) in
      (
        rw
            (lookup-insert PropIdAreaId-discrete k key (insert ℕ_discrete me callback clients)
              s.clients_by_key)
            (elim (PropIdAreaId-discrete k key) [
              | yes p ↦
                  rw (if_pos _ p, lookup-insert ℕ_discrete c me callback clients)
                    (rw p (ground arith))
              | no p ↦ rw (if_neg _ p) (ground arith)
            ]),
        rw
            (lookup-insert ℕ_discrete c me (Sets.add PropIdAreaId-discrete key ks)
              s.subscribed_by_client)
            (elim (ℕ_discrete c me) [
              | yes p ↦
                  rw (if_pos _ p)
                    (rw p (contains-add PropIdAreaId-discrete k key ks ∙ ground arith))
              | no p ↦ rw (if_neg _ p) (ground arith)
            ]),
      )

module _ {F : Type 0} (f : Floats F) (hardware : List (HardwareCall F) → StatusCode) where
  subscribe_one-IsProgress :
      (callback : Callback) (continuous : Bool) (o : SubscribeOptions F) (key : PropIdAreaId)
      (s : Manager F)
      → IsProgress
          (IsRegistered callback.binder)
          (key ∷ [])
          s
          (subscribe_one f hardware callback continuous o key s)
  unfolding subscribe_one
  subscribe_one-IsProgress callback continuous o key s =
      let me = callback.binder in
      let c : SubConfig F = record {
        sample_rate_hz = o.sample_rate;
        resolution = o.resolution;
        enable_vur = o.enable_variable_update_rate;
      } in
      let m =
        if continuous
        then add_continuous_subscriber f hardware me key c
        else add_on_change_subscriber f hardware key in
      let (p, q) =
        Keeps-if continuous (add_continuous_subscriber f hardware me key c)
          (add_on_change_subscriber f hardware key)
          (Keeps-add_continuous_subscriber f hardware me key c)
          (Keeps-add_on_change_subscriber f hardware key) s in
      let kept = IsRegistered-none me s (m s).0 p q in
      bind-cases (IsProgress (IsRegistered me) (key ∷ []) s) m (λ a. add_subscription callback key)
        s
        (λ a h. (
          key ∷ [],
          [],
          refl,
          IsRegistered-append me [] (key ∷ []) s (m s).0 (add_subscription callback key (m s).0).0
              kept (IsRegistered-add_subscription callback key (m s).0),
          refl,
        ))
        λ e h. ([], key ∷ [], refl, kept, tt)

  subscribe_areas-IsProgress :
      (callback : Callback) (continuous : Bool) (o : SubscribeOptions F) (areas : List ℕ)
      (s : Manager F)
      → IsProgress
          (IsRegistered callback.binder)
          (keys_of_areas o.prop_id areas)
          s
          (subscribe_areas f hardware callback continuous o areas s)
  unfolding subscribe_areas
  subscribe_areas-IsProgress callback continuous o [] s =
      ([], [], refl, IsRegistered-none callback.binder s s refl refl, refl)
  subscribe_areas-IsProgress callback continuous o (area ∷ areas) s =
      let key : PropIdAreaId = record { prop_id = o.prop_id; area_id = area } in
      IsProgress-bind (IsRegistered callback.binder) (IsRegistered-append callback.binder)
        (key ∷ []) (keys_of_areas o.prop_id areas)
        (subscribe_one f hardware callback continuous o key)
        (subscribe_areas f hardware callback continuous o areas) s
        (subscribe_one-IsProgress callback continuous o key s)
        (subscribe_areas-IsProgress callback continuous o areas)

  subscribe_options-IsProgress :
      (callback : Callback) (continuous : Bool) (os : List (SubscribeOptions F)) (s : Manager F)
      → IsProgress
          (IsRegistered callback.binder)
          (requested os)
          s
          (subscribe_options f hardware callback continuous os s)
  unfolding subscribe_options
  subscribe_options-IsProgress callback continuous [] s =
      ([], [], refl, IsRegistered-none callback.binder s s refl refl, refl)
  subscribe_options-IsProgress callback continuous (o ∷ os) s =
      IsProgress-bind (IsRegistered callback.binder) (IsRegistered-append callback.binder)
        (keys_of_areas o.prop_id o.area_ids) (requested os)
        (subscribe_areas f hardware callback continuous o o.area_ids)
        (subscribe_options f hardware callback continuous os) s
        (subscribe_areas-IsProgress callback continuous o o.area_ids s)
        (subscribe_options-IsProgress callback continuous os)

  -- Whatever the hardware answers, `subscribe` registers the callback's client for the first of the requested keys, in their order, and for all of them when it succeeds; in both indices it changes nothing else.
  pub subscribe-IsProgress :
      (callback : Callback) (os : List (SubscribeOptions F)) (continuous : Bool) (s : Manager F)
      → IsProgress
          (IsRegistered callback.binder)
          (requested os)
          s
          (subscribe f hardware callback os continuous s)
  unfolding subscribe
  subscribe-IsProgress callback os continuous s = go (check_options f continuous os)
    where
      go :
          (r : VhalResult (Unit {0}))
          → IsProgress (IsRegistered callback.binder) (requested os) s (elim r [
            | ok _ ↦ subscribe_options f hardware callback continuous os s
            | err e ↦ (s, err e)
          ])
      go (ok a) = subscribe_options-IsProgress callback continuous os s
      go (err e) = ([], requested os, refl, IsRegistered-none callback.binder s s refl refl, tt)
