-- ===== src/DefaultVehicleHal/Configs.antt =====
-- The property configs of DefaultVehicleHal.cpp, which it reads from the hardware when it must.
use vhal_core.Prelude.{
  ℕ, Bool, true, false, not, Option, none, some, List, [], ◌∷◌, map, lookup, ℕ_discrete, ltb, ◌==◌,
  if◌then◌else◌,
}
use vhal_core.Prelude.Dict.{Dict, insert}
use vhal_core.HalTypes.{invalid_arg, VehiclePropConfig, VehicleAreaConfig, HasSupportedValueInfo}
use vhal_core.VehicleUtils.{get_area_config, get_prop_group}
use vhal_core.DefaultVehicleHal.State.{Status, success, service_specific, Hardware, Outside, Vhal}
use vhal_core.DefaultVehicleHal.Versions.{version_for_vehicle_property}

-- `isSystemProp`: the group is `VehiclePropertyGroup::SYSTEM`
unfoldable pub is_system_prop : ℕ → Bool
unfolding get_prop_group
is_system_prop prop = get_prop_group prop == 0x10000000

module _ {F : Type 0} (hw : Hardware F) (out : Outside) where
  unfoldable pub get_vhal_interface_version : Vhal F → ℕ
  get_vhal_interface_version s =
      if s.test_interface_version == 0 then out.interface_version else s.test_interface_version

  unfoldable pub is_config_supported_for_current_vhal_version : Vhal F → VehiclePropConfig F → Bool
  unfolding get_vhal_interface_version is_system_prop
  is_config_supported_for_current_vhal_version s config =
      if is_system_prop config.prop
      then elim (version_for_vehicle_property config.prop) [
        | none ↦ false
        | some required ↦ not (ltb (get_vhal_interface_version s) required)
      ]
      else true

  -- `filteredConfigs`
  unfoldable pub filter_configs : Vhal F → List (VehiclePropConfig F) → List (VehiclePropConfig F)
  filter_configs s [] = []
  filter_configs s (c ∷ cs) =
      let rest = filter_configs s cs in
      if is_config_supported_for_current_vhal_version s c then c ∷ rest else rest

  -- The loop that fills `mConfigsByPropId`.
  unfoldable pub insert_configs :
      List (VehiclePropConfig F) → Dict ℕ (VehiclePropConfig F) → Dict ℕ (VehiclePropConfig F)
  insert_configs [] m = m
  insert_configs (c ∷ cs) m = insert_configs cs (insert ℕ_discrete c.prop c m)

  -- `getAllPropConfigsFromHardwareLocked`; no memory file is made in this port.
  unfoldable pub get_all_prop_configs_from_hardware : Vhal F → Vhal F
  unfolding filter_configs insert_configs
  get_all_prop_configs_from_hardware s = record s {
    configs_by_prop_id =
        insert_configs (filter_configs s hw.all_property_configs) s.configs_by_prop_id;
    config_init = true;
  }

  -- The first step of `getConfigsByPropId`.
  unfoldable pub init_configs : Vhal F → Vhal F
  unfolding get_all_prop_configs_from_hardware
  init_configs s = if s.config_init then s else get_all_prop_configs_from_hardware s

  -- `getAllPropConfigs`
  unfoldable pub get_all_prop_configs : Vhal F → Vhal F × List (VehiclePropConfig F)
  unfolding init_configs
  get_all_prop_configs s = let s' = init_configs s in (s', map (λ e. e.1) s'.configs_by_prop_id)

  -- What the hardware says of a property, if this version supports it.
  unfoldable pub config_of_hardware : Vhal F → ℕ → Option (VehiclePropConfig F)
  unfolding is_config_supported_for_current_vhal_version
  config_of_hardware s prop = elim (hw.property_config prop) [
    | none ↦ none
    | some config ↦
        if is_config_supported_for_current_vhal_version s config then some config else none
  ]

  -- `getConfig`
  unfoldable pub get_config : Vhal F → ℕ → Option (VehiclePropConfig F)
  unfolding config_of_hardware
  get_config s prop =
      if s.config_init
      then lookup ℕ_discrete prop s.configs_by_prop_id
      else config_of_hardware s prop

  -- The loops of `getPropConfigs`: `none` where a property has no config.
  unfoldable pub configs_of : Vhal F → List ℕ → Option (List (VehiclePropConfig F))
  unfolding get_config
  configs_of s [] = some []
  configs_of s (prop ∷ props) = elim (get_config s prop) [
    | none ↦ none
    | some config ↦ elim (configs_of s props) [ none ↦ none | some rest ↦ some (config ∷ rest) ]
  ]

  unfoldable pub get_prop_configs : Vhal F → List ℕ → Status × List (VehiclePropConfig F)
  unfolding configs_of
  get_prop_configs s props = elim (configs_of s props) [
    | none ↦ (service_specific invalid_arg, [])
    | some configs ↦ (success, configs)
  ]

  -- `getAreaConfigForPropIdAreaId`
  unfoldable pub get_area_config_for_prop_id_area_id : Vhal F → ℕ → ℕ → Option (VehicleAreaConfig F)
  get_area_config_for_prop_id_area_id s prop area = elim (get_config s prop) [
    | none ↦ none
    | some config ↦ get_area_config prop area config
  ]

  -- `getHasSupportedValueInfo`; without a config it is an error for any property, global or not.
  unfoldable pub get_has_supported_value_info : Vhal F → ℕ → ℕ → Option HasSupportedValueInfo
  unfolding get_area_config_for_prop_id_area_id
  get_has_supported_value_info s prop area =
      elim (get_area_config_for_prop_id_area_id s prop area) [
        | none ↦ none
        | some config ↦ config.has_supported_value_info
      ]
