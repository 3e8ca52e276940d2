-- ===== src/SubscriptionManager/Subscribe.antt =====
-- `subscribe` of SubscriptionManager.cpp and what it calls.
use vhal_core.Prelude.{
  ℕ, Bool, false, not, ◌&&◌, none, some, List, [], ◌∷◌, lookup, ℕ_discrete, if◌then◌else◌, is_empty,
  is_none,
}
use vhal_core.Prelude.Sets.{
  contains, add, erase, IsUnique, contains-add, contains-erase, contains-append, add-IsUnique,
  erase-IsUnique,
}
use vhal_core.Prelude.Dict.{insert}
use vhal_core.HalTypes.{StatusCode, VhalResult, ok, err}
use vhal_core.Floats.{Floats}
use vhal_core.HalTypes.{invalid_arg, PropIdAreaId, PropIdAreaId-discrete}
use vhal_core.Prelude.Sets
use vhal_core.SubscriptionManager.Configs.{
  SubConfig, ContSubConfigs, add_client, get_interval_nanos, check_resolution,
}
use vhal_core.SubscriptionManager.State.{
  SubscribeOptions, Callback, HardwareCall, subscribes, unsubscribes, updates_sample_rate, get_list,
  M, ◌>>◌, done, new_subscribe_options, call_hardware, configs_at, set_configs,
}

module _ {F : Type 0} where
  -- The book-keeping of one subscription.
  unfoldable pub add_subscription : Callback → PropIdAreaId → M F (Unit {0})
  add_subscription callback key s =
      let client = callback.binder in
      (
        record s {
          subscribed_by_client =
              insert ℕ_discrete client
                (Sets.add PropIdAreaId-discrete key
                  (get_list (lookup ℕ_discrete client s.subscribed_by_client)))
                s.subscribed_by_client;
          clients_by_key =
              insert PropIdAreaId-discrete key
                (insert ℕ_discrete client callback
                  (get_list (lookup PropIdAreaId-discrete key s.clients_by_key)))
                s.clients_by_key;
        },
        ok tt,
      )

module _ {F : Type 0} (f : Floats F) where
  -- The test of `updateContSubConfigsLocked` that nothing changes for the hardware.
  abbrev pub same_combined : ContSubConfigs F → ContSubConfigs F → Bool
  same_combined c old =
      f.eq_float c.max_sample_rate_hz old.max_sample_rate_hz
      && (f.eq_float c.min_required_resolution old.min_required_resolution
          && (if c.enable_vur then old.enable_vur else not old.enable_vur))

  -- The first loop of `subscribe`: the options are checked before anything changes.
  unfoldable pub check_options : Bool → List (SubscribeOptions F) → VhalResult (Unit {0})
  check_options continuous [] = ok tt
  check_options continuous (o ∷ os) =
      let rest = check_options continuous os in
      if continuous && is_none (get_interval_nanos f o.sample_rate)
      then err invalid_arg
      else if continuous && not (check_resolution f o.resolution)
      then err invalid_arg
      else if is_empty o.area_ids
      then err invalid_arg
      else rest

module _ {F : Type 0} (f : Floats F) (hardware : List (HardwareCall F) → StatusCode) where
  unfoldable pub update_hardware :
      PropIdAreaId → ContSubConfigs F → ContSubConfigs F → M F (Unit {0})
  unfolding call_hardware new_subscribe_options
  update_hardware key c old =
      (if f.eq_float c.max_sample_rate_hz old.max_sample_rate_hz
        then done
        else call_hardware hardware (updates_sample_rate key c.max_sample_rate_hz))
      >> (if f.eq_float c.max_sample_rate_hz f.zero_float
          then call_hardware hardware (unsubscribes key)
          else call_hardware hardware (
              subscribes (
                new_subscribe_options key c.max_sample_rate_hz c.min_required_resolution
                  c.enable_vur)))

  -- `updateContSubConfigsLocked`
  unfoldable pub update_cont_sub_configs : PropIdAreaId → ContSubConfigs F → M F (Unit {0})
  unfolding update_hardware set_configs
  update_cont_sub_configs key c s =
      let old = configs_at f key s in
      (if same_combined f c old
          then set_configs key c
          else (update_hardware key c old >> set_configs key c))
        s

  -- `addOnChangeSubscriberLocked`
  unfoldable pub add_on_change_subscriber : PropIdAreaId → M F (Unit {0})
  unfolding call_hardware new_subscribe_options
  add_on_change_subscriber key s = elim (lookup PropIdAreaId-discrete key s.clients_by_key) [
    | some clients ↦ (s, ok tt)
    | none ↦
        call_hardware hardware
          (subscribes (new_subscribe_options key f.zero_float f.zero_float false)) s
  ]

  -- `addContinuousSubscriberLocked`: the copy by `operator[]` leaves an entry behind.
  unfoldable pub add_continuous_subscriber : ℕ → PropIdAreaId → SubConfig F → M F (Unit {0})
  unfolding update_cont_sub_configs
  add_continuous_subscriber client key c s =
      let old = configs_at f key s in
      (do set_configs key old; update_cont_sub_configs key (add_client f client c old)) s

  unfoldable pub subscribe_one :
      Callback → Bool → SubscribeOptions F → PropIdAreaId → M F (Unit {0})
  unfolding add_continuous_subscriber add_on_change_subscriber add_subscription
  subscribe_one callback continuous o key =
      (if continuous
        then add_continuous_subscriber callback.binder key (record {
          sample_rate_hz = o.sample_rate;
          resolution = o.resolution;
          enable_vur = o.enable_variable_update_rate;
        })
        else add_on_change_subscriber key)
      >> add_subscription callback key

  -- The inner loop of `subscribe`, over the areas of an option.
  unfoldable pub subscribe_areas : Callback → Bool → SubscribeOptions F → List ℕ → M F (Unit {0})
  subscribe_areas callback continuous o [] = done
  subscribe_areas callback continuous o (area ∷ areas) =
      subscribe_one callback continuous o (record { prop_id = o.prop_id; area_id = area })
      >> subscribe_areas callback continuous o areas

  -- The outer loop, over the options.
  unfoldable pub subscribe_options : Callback → Bool → List (SubscribeOptions F) → M F (Unit {0})
  subscribe_options callback continuous [] = done
  subscribe_options callback continuous (o ∷ os) =
      subscribe_areas callback continuous o o.area_ids >> subscribe_options callback continuous os

  unfoldable pub subscribe : Callback → List (SubscribeOptions F) → Bool → M F (Unit {0})
  subscribe callback options continuous s = elim (check_options f continuous options) [
    | ok _ ↦ subscribe_options callback continuous options s
    | err e ↦ (s, err e)
  ]
