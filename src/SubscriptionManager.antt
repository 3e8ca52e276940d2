-- ===== src/SubscriptionManager.antt =====
-- packages/vhal-server/aidl/impl/4/vhal/{include/SubscriptionManager.h, src/SubscriptionManager.cpp}:
-- which client is subscribed to which property and area, and what the hardware is told.
-- The hardware, an `IVehicleHardware`, is a parameter that answers a call from the calls so far; the
-- state keeps these calls, the last first. A method is a function of the state that returns the new
-- state on an error too, since `operator[]` and partial progress change it.
mod Configs
mod State
mod Subscribe
mod Supported
mod Unsubscribe
mod Deliver
pub mod Combined
pub mod Clients
pub mod Progress
pub mod Leaving
pub mod Subscribing
pub mod Unsubscribing
pub mod Frames
pub mod Consistency
pub mod Reachability
pub mod OnChange
pub mod Filter
mod Tests
pub use Configs.{SubConfig, ContSubConfigs}
unfoldable pub use Configs.{
  no_configs, combine, refresh_combined_config, add_client, remove_client,
  is_vur_enabled_for_client, get_resolution_for_client, get_interval_nanos, check_sample_rate_hz,
  check_resolution,
}
pub use State.{
  SubscribeOptions, Callback, HardwareCall, subscribes, unsubscribes, updates_sample_rate,
  subscribes_supported, unsubscribes_supported, Manager, get_list, M, ◌>>=◌, ◌>>◌, done, fail,
  status_result,
}
unfoldable pub use State.{new_subscribe_options, call_hardware, configs_at, set_configs}
pub use Subscribe.{same_combined}
unfoldable pub use Subscribe.{
  update_hardware, update_cont_sub_configs, add_on_change_subscriber, add_continuous_subscriber,
  check_options, add_subscription, subscribe_one, subscribe_areas, subscribe_options, subscribe,
}
unfoldable pub use Unsubscribe.{
  remove_continuous_subscriber, remove_on_change_subscriber, drop_client, unsubscribe_key,
  forget_key, unsubscribe_keys, keys_of_props, forget_client, forget_if_empty, unsubscribe_props,
  unsubscribe_each, unsubscribe_changes, unsubscribe_supported, unsubscribe,
}
unfoldable pub use Supported.{
  only_client_keys, drop_supported, drop_all_supported, unsubscribe_supported_value_change,
  add_all_supported, subscribe_supported_value_change,
}
unfoldable pub use Deliver.{
  find_value, insert_value, is_value_updated, push_to, deliver_one, deliver_clients, deliver,
  get_subscribed_clients, push_to_all, get_subscribed_clients_for_error_events,
  get_subscribed_clients_for_supported_value_change, is_empty_manager,
  count_property_change_clients, count_supported_value_change_clients, destroy_manager,
}
