-- ===== src/SubscriptionManager/Reachability.antt =====
-- The states that the methods of SubscriptionManager.cpp lead to.
use vhal_core.Prelude.{ℕ, refl, Bool, List, [], lookup}
use vhal_core.Prelude.Sets.{contains}
use vhal_core.Prelude.Dict.{keys}
use vhal_core.HalTypes.{StatusCode}
use vhal_core.HalTypes.{PropIdAreaId, VehiclePropValue}
use vhal_core.Floats.{Floats}
use vhal_core.SubscriptionManager.{
  Callback, HardwareCall, Manager, subscribe, SubscribeOptions, unsubscribe_props, unsubscribe,
  unsubscribe_supported_value_change, subscribe_supported_value_change, get_subscribed_clients,
}
use vhal_core.SubscriptionManager.Frames.{
  Keeps-subscribe_supported_value_change, Keeps-unsubscribe_supported_value_change, deliver-keep,
}
use vhal_core.SubscriptionManager.Consistency.{
  IsConsistent, IsConsistent-keep, subscribe-IsConsistent, unsubscribe_props-IsConsistent,
  unsubscribe-IsConsistent,
}

module _ {F : Type 0} where
  -- What the constructor makes.
  abbrev pub empty_manager : Manager F
  empty_manager = record {
    clients_by_key = [];
    subscribed_by_client = [];
    configs_by_key = [];
    values_by_callback = [];
    supported_clients_by_key = [];
    supported_by_client = [];
    hardware_calls = [];
  }

module _ {F : Type 0} (f : Floats F) (hardware : List (HardwareCall F) → StatusCode) where
  -- The states that calls of the manager's methods lead to, whatever they return.
  pub data Reachable : Manager F → Type 0 where
    constructed : Reachable empty_manager
    subscribed :
        (callback : Callback) (os : List (SubscribeOptions F)) (continuous : Bool) (s : Manager F)
        → Reachable s
        → Reachable (subscribe f hardware callback os continuous s).0
    unsubscribed_props :
        (client : ℕ) (props : List ℕ) (s : Manager F)
        → Reachable s
        → Reachable (unsubscribe_props f hardware client props s).0
    unsubscribed :
        (client : ℕ) (s : Manager F) → Reachable s → Reachable (unsubscribe f hardware client s).0
    delivered :
        (vs : List (VehiclePropValue F)) (s : Manager F)
        → Reachable s
        → Reachable (get_subscribed_clients f vs s).0
    supported_subscribed :
        (callback : Callback) (keys : List PropIdAreaId) (s : Manager F)
        → Reachable s
        → Reachable (subscribe_supported_value_change hardware callback keys s).0
    supported_unsubscribed :
        (client : ℕ) (keys : List PropIdAreaId) (s : Manager F)
        → Reachable s
        → Reachable (unsubscribe_supported_value_change hardware client keys s).0

  -- In every state that calls of the manager lead to, failed ones included, a client of a key has the key in its set, from which `unsubscribe` takes what it removes.
  pub Reachable-IsConsistent : (s : Manager F) → Reachable s → IsConsistent s
  unfolding lookup contains get_subscribed_clients
  Reachable-IsConsistent _ constructed = λ key client. refl
  Reachable-IsConsistent _ (subscribed callback os continuous s h) =
      subscribe-IsConsistent f hardware callback os continuous s (Reachable-IsConsistent s h)
  Reachable-IsConsistent _ (unsubscribed_props client props s h) =
      unsubscribe_props-IsConsistent f hardware client props s (Reachable-IsConsistent s h)
  Reachable-IsConsistent _ (unsubscribed client s h) =
      unsubscribe-IsConsistent f hardware client s (Reachable-IsConsistent s h)
  Reachable-IsConsistent _ (delivered vs s h) =
      let (p, q) = deliver-keep f vs (s, []) in
      IsConsistent-keep s (get_subscribed_clients f vs s).0 p q (Reachable-IsConsistent s h)
  Reachable-IsConsistent _ (supported_subscribed callback keys s h) =
      let (p, q) = Keeps-subscribe_supported_value_change hardware callback keys s in
      IsConsistent-keep s (subscribe_supported_value_change hardware callback keys s).0 p q
        (Reachable-IsConsistent s h)
  Reachable-IsConsistent _ (supported_unsubscribed client keys s h) =
      let (p, q) = Keeps-unsubscribe_supported_value_change hardware client keys s in
      IsConsistent-keep s (unsubscribe_supported_value_change hardware client keys s).0 p q
        (Reachable-IsConsistent s h)
