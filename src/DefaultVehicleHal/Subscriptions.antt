-- ===== src/DefaultVehicleHal/Subscriptions.antt =====
-- `subscribe` and `unsubscribe` of DefaultVehicleHal.cpp, and the checks of the options.
use vhal_core.Prelude.{
  ℕ, Bool, true, false, not, ◌&&◌, ◌||◌, Option, none, some, List, [], ◌∷◌, ◌++◌, map, lookup,
  ℕ_discrete, ◌==◌, if◌then◌else◌, is_empty, all,
}
use vhal_core.Prelude.Dict.{Dict}
use vhal_core.HalTypes.{VhalResult, ok, err}
use vhal_core.Floats.{Floats}
use vhal_core.HalTypes.{
  invalid_arg, access_denied, VehiclePropConfig, VehicleAreaConfig, VehiclePropertyAccess, read,
  VehiclePropertyChangeMode, static, continuous,
}
use vhal_core.SubscriptionManager.{
  SubscribeOptions, Callback, subscribe, unsubscribe_props, check_sample_rate_hz, check_resolution,
}
use vhal_core.VehicleUtils.{is_global_prop, get_area_config}
use vhal_core.DefaultVehicleHal.State.{
  Status, null_pointer, transaction_failed, service_specific, fault, to_scoped_status, Hardware,
  Outside, Vhal,
}
use vhal_core.DefaultVehicleHal.Configs.{init_configs}
use vhal_core.DefaultVehicleHal.Checks.{has_required_access}
use vhal_core.DefaultVehicleHal.Requests.{monitor_binder_life_cycle}

module _ {F : Type 0} where
  unfoldable pub area_configs_have_required_access :
      List (VehicleAreaConfig F) → VehiclePropertyAccess → Bool
  area_configs_have_required_access cs required =
      not (is_empty cs) && all (λ c. has_required_access c.access required) cs

  -- `areaConfigByAreaId.find(areaId)`: `emplace` keeps the first config of an area.
  unfoldable pub config_of_area : ℕ → List (VehicleAreaConfig F) → Option (VehicleAreaConfig F)
  config_of_area area [] = none
  config_of_area area (c ∷ cs) =
      let rest = config_of_area area cs in if c.area_id == area then some c else rest

  -- The loop over the areas of an option: `none` for an area that is not listed.
  unfoldable pub configs_of_areas :
      List (VehicleAreaConfig F) → List ℕ → Option (List (VehicleAreaConfig F))
  unfolding config_of_area
  configs_of_areas cs [] = some []
  configs_of_areas cs (area ∷ areas) =
      let rest = configs_of_areas cs areas in
      elim (config_of_area area cs) [
        | some c ↦ elim rest [ none ↦ none | some found ↦ some (c ∷ found) ]
        | none ↦ if not (area == 0) || not (is_empty cs) then none else rest
      ]

-- Neither `ON_CHANGE` nor `CONTINUOUS`.
abbrev pub is_static : VehiclePropertyChangeMode → Bool
is_static static = true
is_static _ = false

abbrev pub is_continuous : VehiclePropertyChangeMode → Bool
is_continuous continuous = true
is_continuous _ = false

module _ {F : Type 0} (f : Floats F) where
  unfoldable pub get_default_sample_rate_hz : F → F → F → F
  get_default_sample_rate_hz rate lo hi =
      if f.lt_float rate lo then lo else if f.lt_float hi rate then hi else rate

  -- One round of the loop of `checkSubscribeOptions`, with the property's config. For a rate that
  -- is different from itself, `sampleRateHz` is set to the same rate again.
  unfoldable pub check_option : SubscribeOptions F → VehiclePropConfig F → VhalResult (Unit {0})
  unfolding get_default_sample_rate_hz configs_of_areas area_configs_have_required_access
  check_option o config =
      elim (if is_empty o.area_ids
        then some config.area_configs
        else configs_of_areas config.area_configs o.area_ids) [
          | none ↦ err invalid_arg
          | some areas ↦
              if is_static config.change_mode
              then err invalid_arg
              else if not (has_required_access config.access read)
                  && not (area_configs_have_required_access areas read)
              then err access_denied
              else if is_continuous config.change_mode
                  && not (
                      check_sample_rate_hz f (
                        get_default_sample_rate_hz o.sample_rate config.min_sample_rate
                          config.max_sample_rate))
              then err invalid_arg
              else if is_continuous config.change_mode && not (check_resolution f o.resolution)
              then err invalid_arg
              else ok tt
        ]

  unfoldable pub check_subscribe_options :
      List (SubscribeOptions F) → Dict ℕ (VehiclePropConfig F) → VhalResult (Unit {0})
  unfolding check_option
  check_subscribe_options [] configs = ok tt
  check_subscribe_options (o ∷ os) configs = elim (lookup ℕ_discrete o.prop_id configs) [
    | none ↦ err invalid_arg
    | some config ↦ elim (check_option o config) [
      | err e ↦ err e
      | ok _ ↦ check_subscribe_options os configs
    ]
  ]

module _ {F : Type 0} where
  -- The areas of an option, all of them where it names none.
  unfoldable pub areas_of_option : SubscribeOptions F → VehiclePropConfig F → List ℕ
  areas_of_option o config =
      if is_global_prop o.prop_id
      then 0 ∷ []
      else if is_empty o.area_ids
      then map (λ c. c.area_id) config.area_configs
      else o.area_ids

  -- `areaConfig != nullptr && areaConfig->supportVariableUpdateRate`
  unfoldable pub supports_vur : ℕ → VehiclePropConfig F → ℕ → Bool
  supports_vur prop config area = elim (get_area_config prop area config) [
    | none ↦ false
    | some c ↦ c.support_variable_update_rate
  ]

  -- The loop that makes `areasVurEnabled` and `areasVurDisabled`.
  unfoldable pub split_areas : ℕ → VehiclePropConfig F → List ℕ → List ℕ × List ℕ
  unfolding supports_vur
  split_areas prop config [] = ([], [])
  split_areas prop config (area ∷ areas) =
      let (enabled, disabled) = split_areas prop config areas in
      if supports_vur prop config area
      then (area ∷ enabled, disabled)
      else (enabled, area ∷ disabled)

  -- The option for some areas, if there are any.
  abbrev pub option_for : SubscribeOptions F → List ℕ → Bool → List (SubscribeOptions F)
  option_for o [] vur = []
  option_for o (area ∷ areas) vur =
      record o { area_ids = area ∷ areas; enable_variable_update_rate = vur } ∷ []

module _ {F : Type 0} (f : Floats F) where
  -- What a round of the loop of `parseSubscribeOptions` pushes to the two vectors.
  unfoldable pub parse_option :
      SubscribeOptions F
      → VehiclePropConfig F
      → List (SubscribeOptions F) × List (SubscribeOptions F)
  unfolding areas_of_option split_areas get_default_sample_rate_hz
  parse_option o config =
      let areas = areas_of_option o config in
      let rate =
        get_default_sample_rate_hz f o.sample_rate config.min_sample_rate config.max_sample_rate in
      let copy = record o { area_ids = areas; sample_rate = rate } in
      let (enabled, disabled) = split_areas o.prop_id config areas in
      if is_continuous config.change_mode
      then (
        [],
        if o.enable_variable_update_rate
            then option_for copy enabled true ++ option_for copy disabled false
            else copy ∷ [],
      )
      else (record o { area_ids = areas } ∷ [], [])

  -- `parseSubscribeOptions`: the on-change and the continuous subscriptions. `none` is the exception
  -- of `at` for a property without a config.
  unfoldable pub parse_subscribe_options :
      List (SubscribeOptions F)
      → Dict ℕ (VehiclePropConfig F)
      → Option (List (SubscribeOptions F) × List (SubscribeOptions F))
  unfolding parse_option
  parse_subscribe_options [] configs = some ([], [])
  parse_subscribe_options (o ∷ os) configs = elim (lookup ℕ_discrete o.prop_id configs) [
    | none ↦ none
    | some config ↦ elim (parse_subscribe_options os configs) [
      | none ↦ none
      | some (on_changes, continuouses) ↦
          let (on_change', continuous') = parse_option o config in
          some (on_change' ++ on_changes, continuous' ++ continuouses)
    ]
  ]

module _ {F : Type 0} (f : Floats F) (hw : Hardware F) (out : Outside) where
  -- A call of `SubscriptionManager::subscribe`, if there is something to subscribe.
  unfoldable pub subscribe_if_any :
      Callback → List (SubscribeOptions F) → Bool → Vhal F → Vhal F × VhalResult (Unit {0})
  subscribe_if_any callback [] is_cont s = (s, ok tt)
  subscribe_if_any callback (o ∷ os) is_cont s =
      let (manager, r) =
        subscribe f hw.subscription_status callback (o ∷ os) is_cont s.subscription_manager in
      (record s { subscription_manager = manager }, r)

  -- The part of `subscribe` under `mLock`.
  unfoldable pub subscribe_locked :
      Callback → List (SubscribeOptions F) → List (SubscribeOptions F) → Vhal F → Vhal F × Status
  unfolding subscribe_if_any monitor_binder_life_cycle
  subscribe_locked callback on_changes continuouses s =
      let (s', alive) = monitor_binder_life_cycle out callback.binder s in
      let (s'', r) = subscribe_if_any callback on_changes false s' in
      if alive
      then elim r [
        | err e ↦ (s'', service_specific e)
        | ok _ ↦
            let (s''', r') = subscribe_if_any callback continuouses true s'' in
            (s''', to_scoped_status r')
      ]
      else (s', transaction_failed)

  unfoldable pub subscribe_client :
      Option Callback → List (SubscribeOptions F) → Vhal F → Vhal F × Status
  unfolding check_subscribe_options parse_subscribe_options subscribe_locked
  subscribe_client none options s = (s, null_pointer)
  subscribe_client (some callback) options s =
      let s' = init_configs hw out s in
      elim (check_subscribe_options f options s'.configs_by_prop_id) [
        | err e ↦ (s', service_specific e)
        | ok _ ↦ elim (parse_subscribe_options f options s'.configs_by_prop_id) [
          | none ↦ (s', fault)
          | some (on_changes, continuouses) ↦ subscribe_locked callback on_changes continuouses s'
        ]
      ]

  unfoldable pub unsubscribe_client : Option Callback → List ℕ → Vhal F → Vhal F × Status
  unsubscribe_client none props s = (s, null_pointer)
  unsubscribe_client (some callback) props s =
      let (manager, r) =
        unsubscribe_props f hw.subscription_status callback.binder props s.subscription_manager in
      (record s { subscription_manager = manager }, to_scoped_status r)
