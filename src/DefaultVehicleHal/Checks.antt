-- ===== src/DefaultVehicleHal/Checks.antt =====
-- The checks of DefaultVehicleHal.cpp on the values that a client wants to read or to set.
use vhal_core.Prelude.{
  ite, Bool, true, false, not, ◌&&◌, ◌||◌, Option, none, some, List, [], ◌∷◌, ◌==◌, if◌then◌else◌,
  is_none,
}
use vhal_core.Prelude.Int.{eqb_ℤ}
use vhal_core.HalTypes.{VhalResult, ok, err}
use vhal_core.Floats.{Floats}
use vhal_core.HalTypes.{
  invalid_arg, access_denied, VehiclePropValue, VehiclePropConfig, VehicleAreaConfig,
  VehiclePropertyAccess, no_access, read, write, read_write, VehiclePropertyStatus-discrete,
  eq_vector,
}
use vhal_core.VehicleUtils.{
  Check, passed, refused, fault, is_global_prop, get_area_config, check_prop_value,
  check_value_range,
}
use vhal_core.DefaultVehicleHal.State.{Hardware, Outside, Vhal}
use vhal_core.DefaultVehicleHal.Configs.{get_config}

-- `==` of the enum
unfoldable pub eq_access : VehiclePropertyAccess → VehiclePropertyAccess → Bool
eq_access no_access no_access = true
eq_access read read = true
eq_access write write = true
eq_access read_write read_write = true
eq_access _ _ = false

unfoldable pub has_required_access : VehiclePropertyAccess → VehiclePropertyAccess → Bool
unfolding eq_access
has_required_access access required = eq_access access required || eq_access access read_write

-- The set `validAccesses`.
unfoldable pub is_valid_access : VehiclePropertyAccess → Bool
is_valid_access no_access = false
is_valid_access _ = true

module _ {F : Type 0} where
  -- `areaConfig != nullptr && hasRequiredAccess(areaConfig->access, ...)`
  abbrev pub area_has_access : Option (VehicleAreaConfig F) → VehiclePropertyAccess → Bool
  area_has_access none required = false
  area_has_access (some c) required = has_required_access c.access required

  -- The rest of `checkPermissionHelper`, with the property's config.
  unfoldable pub check_access :
      VehiclePropValue F → VehiclePropertyAccess → VehiclePropConfig F → VhalResult (Unit {0})
  unfolding has_required_access
  check_access v access config =
      let area_config = get_area_config v.prop v.area_id config in
      if is_none area_config && not (is_global_prop v.prop)
      then err invalid_arg
      else if not (has_required_access config.access access)
          && not (area_has_access area_config access)
      then err access_denied
      else ok tt

  -- The rest of `checkProperty`, with the property's config.
  unfoldable pub check_with_config : Floats F → VehiclePropValue F → VehiclePropConfig F → Check
  check_with_config f v config =
      let area_config = get_area_config v.prop v.area_id config in
      if not (is_global_prop v.prop) && is_none area_config
      then refused
      else elim (check_prop_value v config) [
        | passed ↦ check_value_range f v area_config
        | refused ↦ refused
        | fault ↦ fault
      ]

module _ {F : Type 0} (hw : Hardware F) (out : Outside) (s : Vhal F) where
  unfoldable pub check_permission_helper :
      VehiclePropValue F → VehiclePropertyAccess → VhalResult (Unit {0})
  unfolding is_valid_access check_access
  check_permission_helper v access =
      if not (is_valid_access access) then err invalid_arg else elim (get_config hw out s v.prop) [
        | none ↦ err invalid_arg
        | some config ↦ check_access v access config
      ]

  unfoldable pub check_read_permission : VehiclePropValue F → VhalResult (Unit {0})
  unfolding check_permission_helper
  check_read_permission v = check_permission_helper v read

  unfoldable pub check_write_permission : VehiclePropValue F → VhalResult (Unit {0})
  unfolding check_permission_helper
  check_write_permission v = check_permission_helper v write

  unfoldable pub check_property : Floats F → VehiclePropValue F → Check
  unfolding check_with_config
  check_property f v = elim (get_config hw out s v.prop) [
    | none ↦ refused
    | some config ↦ check_with_config f v config
  ]

module _ {F : Type 0} (f : Floats F) where
  -- Neither is less than the other.
  unfoldable pub same_float : F → F → Bool
  same_float a b = not (f.lt_float a b) && not (f.lt_float b a)

  -- Neither `VehiclePropValue` is less than the other, in the order that AIDL derives, so that a
  -- `std::set` takes them for one.
  unfoldable pub same_value : VehiclePropValue F → VehiclePropValue F → Bool
  unfolding same_float
  same_value a b =
      eqb_ℤ a.timestamp b.timestamp
      && (a.area_id == b.area_id
          && (a.prop == b.prop
              && (ite (VehiclePropertyStatus-discrete a.status b.status) true false
                  && (eq_vector eqb_ℤ a.value.int32_values b.value.int32_values
                      && (eq_vector same_float a.value.float_values b.value.float_values
                          && (eq_vector eqb_ℤ a.value.int64_values b.value.int64_values
                              && (eq_vector ◌==◌ a.value.byte_values b.value.byte_values
                                  && eq_vector ◌==◌ a.value.string_value b.value.string_value)))))))

  -- `requestProps.count(prop) != 0`
  unfoldable pub counts : VehiclePropValue F → List (VehiclePropValue F) → Bool
  unfolding same_value
  counts v [] = false
  counts v (w ∷ ws) = same_value v w || counts v ws

  -- `CHECK_DUPLICATE_REQUESTS`: the values that the requests carry, and those seen so far.
  unfoldable pub has_duplicate : List (VehiclePropValue F) → List (VehiclePropValue F) → Bool
  unfolding counts
  has_duplicate [] seen = false
  has_duplicate (v ∷ vs) seen = counts v seen || has_duplicate vs (v ∷ seen)
