-- ===== src/DefaultVehicleHal/Options.antt =====
-- What `parseSubscribeOptions` of DefaultVehicleHal.cpp makes of options that have been checked.
use vhal_core.Prelude.{
  ℕ, ◌+◌, ◌≡◌, refl, ◌∙◌, ◌⊎◌, inl, inr, Bool, true, false, none, some, List, [], ◌∷◌, ◌++◌, ap,
  map, lookup, arith, ℕ_discrete, ◌==◌, if◌then◌else◌, Bool-cases, Option-cases, is_empty, All,
  All-append,
}
use vhal_core.Prelude.Dict.{Dict}
use vhal_core.HalTypes.{ok}
use vhal_core.Floats.{Floats}
use vhal_core.HalTypes.{
  VehicleAreaConfig, VehiclePropConfig, VehiclePropertyChangeMode, static, on_change, continuous,
}
use vhal_core.SubscriptionManager.{SubscribeOptions, check_sample_rate_hz, check_resolution}
use vhal_core.VehicleUtils.{is_global_prop}
use vhal_core.DefaultVehicleHal.Dispatch.{VhalResult-cases}
use vhal_core.DefaultVehicleHal.Subscriptions.{
  is_static, is_continuous, get_default_sample_rate_hz, check_option, check_subscribe_options,
  areas_of_option, supports_vur, split_areas, option_for, parse_option, parse_subscribe_options,
  configs_of_areas,
}

-- How often an area is in a list.
abbrev pub occurrences : ℕ → List ℕ → ℕ
occurrences a [] = 0
occurrences a (x ∷ xs) = (if x == a then 1 else 0) + occurrences a xs

module _ {F : Type 0} where
  -- How often options subscribe to a property and area.
  abbrev pub subscribed : ℕ → ℕ → List (SubscribeOptions F) → ℕ
  subscribed p a [] = 0
  subscribed p a (o ∷ os) =
      (if o.prop_id == p then occurrences a o.area_ids else 0) + subscribed p a os

  -- How often an option asks for an area of its property, by whether the property is global, the
  -- areas that the option names, and those of the config: a global property has the area 0 only, and
  -- for another one no areas are all.
  abbrev pub asked : Bool → List ℕ → List (VehicleAreaConfig F) → ℕ → ℕ
  asked true areas cs a = if a == 0 then 1 else 0
  asked false (x ∷ xs) cs a = occurrences a (x ∷ xs)
  asked false [] [] a = 0
  asked false [] (c ∷ cs) a = (if c.area_id == a then 1 else 0) + asked false [] cs a

  asked_all :
      (a : ℕ) (cs : List (VehicleAreaConfig F))
      → occurrences a (map (λ c. c.area_id) cs) ≡ asked false [] cs a
  asked_all a [] = refl
  asked_all a (c ∷ cs) = ap (λ n. (if c.area_id == a then 1 else 0) + n) (asked_all a cs)

  areas_of_option-asked :
      (a : ℕ) (o : SubscribeOptions F) (config : VehiclePropConfig F)
      → occurrences a (areas_of_option o config)
        ≡ asked (is_global_prop o.prop_id) o.area_ids config.area_configs a
  unfolding areas_of_option
  areas_of_option-asked a o config = go (is_global_prop o.prop_id) o.area_ids
    where
      go :
          (t : Bool) (areas : List ℕ)
          → occurrences a (
              if t
              then 0 ∷ []
              else if is_empty areas
              then map (λ c. c.area_id) config.area_configs
              else areas)
            ≡ asked t areas config.area_configs a
      go true areas = ground arith
      go false [] = asked_all a config.area_configs
      go false (x ∷ xs) = refl

  -- How often the options of a client ask for an area of a property.
  abbrev pub wanted : ℕ → ℕ → List (SubscribeOptions F) → Dict ℕ (VehiclePropConfig F) → ℕ
  wanted p a [] configs = 0
  wanted p a (o ∷ os) configs =
      elim (lookup ℕ_discrete o.prop_id configs) [
        | none ↦ 0
        | some config ↦
            if o.prop_id == p
            then asked (is_global_prop o.prop_id) o.area_ids config.area_configs a
            else 0
      ]
      + wanted p a os configs

  subscribed-append :
      (p a : ℕ) (os os' : List (SubscribeOptions F))
      → subscribed p a (os ++ os') ≡ subscribed p a os + subscribed p a os'
  subscribed-append p a [] os' = omega arith
  subscribed-append p a (o ∷ os) os' = omega (arith, subscribed-append p a os os')

  split_areas-occurrences :
      (a prop : ℕ) (config : VehiclePropConfig F) (areas : List ℕ)
      → let (enabled, disabled) = split_areas prop config areas in
        occurrences a enabled + occurrences a disabled ≡ occurrences a areas
  unfolding split_areas
  split_areas-occurrences a prop config [] = omega arith
  split_areas-occurrences a prop config (x ∷ xs) =
      let ih = split_areas-occurrences a prop config xs in
      elim (Bool-cases (supports_vur prop config x)) [
        | inl e ↦ rw (e, split_areas) (omega (arith, ih))
        | inr e ↦ rw (e, split_areas) (omega (arith, ih))
      ]

  split_areas-All :
      (prop : ℕ) (config : VehiclePropConfig F) (areas : List ℕ)
      → All (λ a. supports_vur prop config a ≡ true) (split_areas prop config areas).0
  unfolding split_areas
  split_areas-All prop config [] = tt
  split_areas-All prop config (x ∷ xs) =
      let ih = split_areas-All prop config xs in
      elim (Bool-cases (supports_vur prop config x)) [
        | inl e ↦ rw (e, split_areas) (e, ih)
        | inr e ↦ rw (e, split_areas) ih
      ]

  option_for-subscribed :
      (p a : ℕ) (o : SubscribeOptions F) (xs : List ℕ) (vur : Bool)
      → subscribed p a (option_for o xs vur) ≡ (if o.prop_id == p then occurrences a xs else 0)
  option_for-subscribed p a o [] vur = ground arith
  option_for-subscribed p a o (x ∷ xs) vur = omega arith

module _ {F : Type 0} (f : Floats F) where
  -- What is true of an on-change subscription.
  abbrev pub IsOnChange : Dict ℕ (VehiclePropConfig F) → SubscribeOptions F → Type 0
  IsOnChange configs o =
      (config : VehiclePropConfig F) × (lookup ℕ_discrete o.prop_id configs ≡ some config)
      × (config.change_mode ≡ on_change)

  -- What is true of a continuous one: the rate and the resolution are valid, and only areas that
  -- support a variable update rate have it.
  abbrev pub IsContinuous : Dict ℕ (VehiclePropConfig F) → SubscribeOptions F → Type 0
  IsContinuous configs o =
      (config : VehiclePropConfig F) × (lookup ℕ_discrete o.prop_id configs ≡ some config)
      × (config.change_mode ≡ continuous)
      × (check_sample_rate_hz f o.sample_rate ≡ true)
      × (check_resolution f o.resolution ≡ true)
      × (o.enable_variable_update_rate ≡ true
          → All (λ a. supports_vur o.prop_id config a ≡ true) o.area_ids)

  mode_of :
      (m : VehiclePropertyChangeMode) → is_static m ≡ false → (m ≡ on_change) ⊎ (m ≡ continuous)
  mode_of static e = cc
  mode_of on_change e = inl refl
  mode_of continuous e = inr refl

  abbrev rate_of : SubscribeOptions F → VehiclePropConfig F → F
  rate_of o config =
      get_default_sample_rate_hz f o.sample_rate config.min_sample_rate config.max_sample_rate

  check_option_passed :
      (o : SubscribeOptions F) (config : VehiclePropConfig F)
      → check_option f o config ≡ ok tt
      → (is_static config.change_mode ≡ false)
        × (is_continuous config.change_mode ≡ true
            → (check_sample_rate_hz f (rate_of o config) ≡ true)
              × (check_resolution f o.resolution ≡ true))
  unfolding check_option
  check_option_passed o config h =
      elim (Option-cases (
        if is_empty o.area_ids
        then some config.area_configs
        else configs_of_areas config.area_configs o.area_ids)) [
          | inl e ↦ let q = rw (e, check_option) at h in cc
          | inr (areas, e) ↦
              let q = rw (e, check_option) at h in (ground (arith, q), λ c. ground (arith, q, c))
        ]

  All-option_for :
      (configs : Dict ℕ (VehiclePropConfig F)) (o : SubscribeOptions F) (xs : List ℕ) (vur : Bool)
      → IsContinuous configs (record o { area_ids = xs; enable_variable_update_rate = vur })
      → All (IsContinuous configs) (option_for o xs vur)
  All-option_for configs o [] vur h = tt
  All-option_for configs o (x ∷ xs) vur h = (h, tt)

  -- What an option that has passed the checks is parsed to.
  IsParsed :
      Dict ℕ (VehiclePropConfig F)
      → SubscribeOptions F
      → VehiclePropConfig F
      → List (SubscribeOptions F) × List (SubscribeOptions F)
      → Type 0
  IsParsed configs o config (on_changes, continuouses) =
      All (IsOnChange configs) on_changes
      × All (IsContinuous configs) continuouses
      × ((p a : ℕ)
          → subscribed p a on_changes + subscribed p a continuouses
            ≡ (if o.prop_id == p then occurrences a (areas_of_option o config) else 0))

  parse_option-IsParsed :
      (configs : Dict ℕ (VehiclePropConfig F)) (o : SubscribeOptions F)
      (config : VehiclePropConfig F)
      → lookup ℕ_discrete o.prop_id configs ≡ some config
      → check_option f o config ≡ ok tt
      → IsParsed configs o config (parse_option f o config)
  unfolding parse_option IsParsed
  parse_option-IsParsed configs o config found checked =
      let (not_static, valid) = check_option_passed o config checked in
      let areas = areas_of_option o config in
      let copy = record o { area_ids = areas; sample_rate = rate_of o config } in
      let split = split_areas o.prop_id config areas in
      elim (mode_of config.change_mode not_static) [
        | inl m ↦
            let c : is_continuous config.change_mode ≡ false = rw m refl in
            rw (c, parse_option) (((config, found, m), tt), tt, λ p a. omega arith)
        | inr m ↦
            let c : is_continuous config.change_mode ≡ true = rw m refl in
            let (rate, resolution) = valid c in
            elim (Bool-cases o.enable_variable_update_rate) [
              | inl vur ↦
                  rw (c, parse_option, vur)
                    (
                      tt,
                      All-append (IsContinuous configs) (option_for copy split.0 true)
                          (option_for copy split.1 false)
                          (All-option_for configs copy split.0 true (
                            config,
                            found,
                            m,
                            rate,
                            resolution,
                            λ e. split_areas-All o.prop_id config areas,
                          ))
                          (All-option_for configs copy split.1 false
                            (config, found, m, rate, resolution, λ e. cc)),
                      λ p a. ground (
                        arith,
                        subscribed-append p a (option_for copy split.0 true)
                            (option_for copy split.1 false),
                        option_for-subscribed p a copy split.0 true,
                        option_for-subscribed p a copy split.1 false,
                        split_areas-occurrences a o.prop_id config areas,
                      ),
                    )
              | inr vur ↦
                  rw (c, parse_option, vur)
                    (tt, ((config, found, m, rate, resolution, λ e. cc), tt), λ p a. omega arith)
            ]
      ]

  -- When checkSubscribeOptions accepts the options of a client, parseSubscribeOptions does not fail on them. It subscribes to each property and area exactly as often as the options ask for it: an option asks for the area 0 of a global property, and else for the areas that it names, or for all of the configuration if it names none. The on-change subscriptions are for on-change properties; the continuous ones are for continuous properties, with a valid sample rate and resolution, and with a variable update rate only where all their areas support it.
  pub parse_subscribe_options_lem :
      (options : List (SubscribeOptions F)) (configs : Dict ℕ (VehiclePropConfig F))
      → check_subscribe_options f options configs ≡ ok tt
      → (on_changes : List (SubscribeOptions F)) × (continuouses : List (SubscribeOptions F))
        × (parse_subscribe_options f options configs ≡ some (on_changes, continuouses))
        × All (IsOnChange configs) on_changes
        × All (IsContinuous configs) continuouses
        × ((p a : ℕ)
            → subscribed p a on_changes + subscribed p a continuouses ≡ wanted p a options configs)
  unfolding check_subscribe_options parse_subscribe_options IsParsed
  parse_subscribe_options_lem [] configs h = ([], [], refl, tt, tt, λ p a. omega arith)
  parse_subscribe_options_lem (o ∷ os) configs h =
      elim (Option-cases (lookup ℕ_discrete o.prop_id configs)) [
        | inl e ↦ let q = rw (e, check_subscribe_options) at h in cc
        | inr (config, e) ↦ elim (VhalResult-cases (check_option f o config)) [
          | inr (code, c) ↦ let q = rw (e, check_subscribe_options, c) at h in cc
          | inl c ↦
              let q : check_subscribe_options f os configs ≡ ok tt =
                rw (e, check_subscribe_options, c) at h in
              let (on_changes, continuouses, parsed, on, cont, count) =
                parse_subscribe_options_lem os configs q in
              let now = parse_option f o config in
              let (on', cont', count') = parse_option-IsParsed configs o config e c in
              (
                now.0 ++ on_changes,
                now.1 ++ continuouses,
                rw (e, parse_subscribe_options, parsed) refl,
                All-append (IsOnChange configs) now.0 on_changes on' on,
                All-append (IsContinuous configs) now.1 continuouses cont' cont,
                λ p a.
                    rw (e, wanted)
                      (omega (
                        arith,
                        subscribed-append p a now.0 on_changes,
                        subscribed-append p a now.1 continuouses,
                        count p a,
                        count' p a
                            ∙ ap (λ n. if o.prop_id == p then n else 0)
                                (areas_of_option-asked a o config),
                      )),
              )
        ]
      ]
