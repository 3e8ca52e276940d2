-- ===== src/SubscriptionManager/Configs.antt =====
-- `SubConfig` and `ContSubConfigs` of packages/vhal-server/aidl/impl/4/vhal/{include/
-- SubscriptionManager.h, src/SubscriptionManager.cpp}: what the clients of one continuous property
-- and area ask for, and the one configuration that satisfies all of them.
use vhal_core.Prelude.{
  ℕ, ◌-◌, ◌^◌, Bool, true, false, not, Option, none, some, [], ◌∷◌, lookup, ℕ_discrete,
  if◌then◌else◌, is_none,
}
use vhal_core.Prelude.Int.{ℤ, pos}
use vhal_core.Prelude.Dict.{Dict, insert, remove}
use vhal_core.Floats.{Floats}

pub record SubConfig (F : Type 0) : Type 0 where
  pub sample_rate_hz : F
  pub resolution : F
  pub enable_vur : Bool

-- A client is the address of its binder.
pub record ContSubConfigs (F : Type 0) : Type 0 where
  pub max_sample_rate_hz : F
  pub min_required_resolution : F
  pub enable_vur : Bool
  pub config_by_client : Dict ℕ (SubConfig F)

module _ {F : Type 0} (f : Floats F) where
  -- What `operator[]` of a map makes: `mEnableVur` has no initialiser, and is zeroed.
  unfoldable pub no_configs : ContSubConfigs F
  no_configs = record {
    max_sample_rate_hz = f.zero_float;
    min_required_resolution = f.max_float;
    enable_vur = false;
    config_by_client = [];
  }

  -- The three variables of the loop of `refreshCombinedConfig`.
  unfoldable pub combine : Dict ℕ (SubConfig F) → F → F → Bool → F × F × Bool
  combine [] rate resolution vur = (rate, resolution, vur)
  combine ((client, c) ∷ m) rate resolution vur =
      combine m (if f.lt_float rate c.sample_rate_hz then c.sample_rate_hz else rate)
        (if f.lt_float c.resolution resolution then c.resolution else resolution)
        (if c.enable_vur then vur else false)

  unfoldable pub refresh_combined_config : Dict ℕ (SubConfig F) → ContSubConfigs F
  unfolding combine
  refresh_combined_config m =
      let (rate, resolution, vur) = combine m f.zero_float f.max_float true in
      record {
        max_sample_rate_hz = rate;
        min_required_resolution = resolution;
        enable_vur = vur;
        config_by_client = m;
      }

  unfoldable pub add_client : ℕ → SubConfig F → ContSubConfigs F → ContSubConfigs F
  unfolding refresh_combined_config
  add_client client c s = refresh_combined_config (insert ℕ_discrete client c s.config_by_client)

  unfoldable pub remove_client : ℕ → ContSubConfigs F → ContSubConfigs F
  unfolding refresh_combined_config
  remove_client client s = refresh_combined_config (remove ℕ_discrete client s.config_by_client)

  unfoldable pub is_vur_enabled_for_client : ℕ → ContSubConfigs F → Bool
  is_vur_enabled_for_client client s = elim (lookup ℕ_discrete client s.config_by_client) [
    | none ↦ false
    | some c ↦ c.enable_vur
  ]

  unfoldable pub get_resolution_for_client : ℕ → ContSubConfigs F → F
  get_resolution_for_client client s = elim (lookup ℕ_discrete client s.config_by_client) [
    | none ↦ f.zero_float
    | some c ↦ c.resolution
  ]

  -- `getIntervalNanos`; the largest `int64_t` is 2^63 - 1.
  unfoldable pub get_interval_nanos : F → Option ℤ
  get_interval_nanos rate =
      if f.le_float rate f.zero_float
      then none
      else if f.le_float rate (f.div_float f.one_second_in_nanos (f.of_int (pos (2 ^ 63 - 1))))
      then none
      else some (f.to_int64 (f.div_float f.one_second_in_nanos rate))

  unfoldable pub check_sample_rate_hz : F → Bool
  unfolding get_interval_nanos
  check_sample_rate_hz rate = not (is_none (get_interval_nanos rate))

  unfoldable pub check_resolution : F → Bool
  check_resolution resolution =
      if f.eq_float resolution f.zero_float
      then true
      else let log = f.log10 resolution in
        f.lt_float (f.abs (f.sub_float log (f.round log))) f.epsilon
