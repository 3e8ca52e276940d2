-- ===== src/SubscriptionManager/State.antt =====
-- The state of the subscription manager, its calls of the hardware, and methods that can fail.
use vhal_core.Prelude.{ℕ, Bool, Option, none, some, List, [], ◌∷◌, lookup}
use vhal_core.Prelude.Dict.{Dict, insert}
use vhal_core.HalTypes.{StatusCode, VhalResult, ok, err}
use vhal_core.Floats.{Floats}
use vhal_core.HalTypes.{ok_code, VehiclePropValue, PropIdAreaId, PropIdAreaId-discrete}
use vhal_core.SubscriptionManager.Configs.{ContSubConfigs, no_configs}

-- `SubscribeOptions`
pub record SubscribeOptions (F : Type 0) : Type 0 where
  pub prop_id : ℕ
  pub area_ids : List ℕ
  pub sample_rate : F
  pub resolution : F
  pub enable_variable_update_rate : Bool

-- A shared pointer to an `IVehicleCallback`, and the address of its binder, the client ID.
pub record Callback : Type 0 where
  pub pointer : ℕ
  pub binder : ℕ

-- The calls of `IVehicleHardware` that the manager makes.
pub data HardwareCall (F : Type 0) : Type 0 where
  subscribes : SubscribeOptions F → HardwareCall F
  unsubscribes : PropIdAreaId → HardwareCall F
  updates_sample_rate : PropIdAreaId → F → HardwareCall F
  subscribes_supported : List PropIdAreaId → HardwareCall F
  unsubscribes_supported : List PropIdAreaId → HardwareCall F

pub record Manager (F : Type 0) : Type 0 where
  pub clients_by_key : Dict PropIdAreaId (Dict ℕ Callback)
  pub subscribed_by_client : Dict ℕ (List PropIdAreaId)
  pub configs_by_key : Dict PropIdAreaId (ContSubConfigs F)
  pub values_by_callback : Dict ℕ (List (VehiclePropValue F))
  pub supported_clients_by_key : Dict PropIdAreaId (Dict ℕ Callback)
  pub supported_by_client : Dict ℕ (List PropIdAreaId)
  pub hardware_calls : List (HardwareCall F)

-- `m[k]`, for a map of maps, sets or vectors: an entry that is missing is made empty.
abbrev pub get_list {ℓ} : {A : Type ℓ} → Option (List A) → List A
get_list none = []
get_list (some xs) = xs

-- A method that can fail.
abbrev pub M : Type 0 → Type 0 → Type 0
M F A = Manager F → Manager F × VhalResult A

infixl 5 ◌>>=◌ ◌>>◌
abbrev pub ◌>>=◌ : {F A B : Type 0} → M F A → (A → M F B) → M F B
◌>>=◌ m k s = let (s', r) = m s in elim r [ ok a ↦ k a s' | err e ↦ (s', err e) ]

abbrev pub ◌>>◌ : {F B : Type 0} → M F (Unit {0}) → M F B → M F B
m >> k = m >>= λ _. k

abbrev pub done : {F : Type 0} → M F (Unit {0})
done s = (s, ok tt)

abbrev pub fail : {F : Type 0} → StatusCode → M F (Unit {0})
fail e s = (s, err e)

-- `status != StatusCode::OK` is an error with this status.
abbrev pub status_result : StatusCode → VhalResult (Unit {0})
status_result ok_code = ok tt
status_result e = err e

-- `newSubscribeOptions`
unfoldable pub new_subscribe_options :
    {F : Type 0} → PropIdAreaId → F → F → Bool → SubscribeOptions F
new_subscribe_options key rate resolution vur = record {
  prop_id = key.prop_id;
  area_ids = key.area_id ∷ [];
  sample_rate = rate;
  resolution = resolution;
  enable_variable_update_rate = vur;
}

module _ {F : Type 0} (hardware : List (HardwareCall F) → StatusCode) where
  -- A call of the hardware and the test of its status.
  unfoldable pub call_hardware : HardwareCall F → M F (Unit {0})
  call_hardware c s =
      let calls = c ∷ s.hardware_calls in
      (record s { hardware_calls = calls }, status_result (hardware calls))

module _ {F : Type 0} (f : Floats F) where
  -- `mContSubConfigsByPropIdArea[propIdAreaId]`
  unfoldable pub configs_at : PropIdAreaId → Manager F → ContSubConfigs F
  configs_at key s = elim (lookup PropIdAreaId-discrete key s.configs_by_key) [
    | none ↦ no_configs f
    | some c ↦ c
  ]

module _ {F : Type 0} where
  unfoldable pub set_configs : PropIdAreaId → ContSubConfigs F → M F (Unit {0})
  set_configs key c s =
      (record s { configs_by_key = insert PropIdAreaId-discrete key c s.configs_by_key }, ok tt)
