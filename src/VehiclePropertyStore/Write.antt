-- ===== src/VehiclePropertyStore/Write.antt =====
-- `writeValue`: when it accepts a value, what is stored after it, and whom it tells.
pub mod Effects
use vhal_core.Prelude.{
  is_none, ℕ, zero, suc, ◌+◌, ◌-◌, ◌*◌, ◌/◌, ◌%◌, ◌^◌, ◌≤◌, ◌<◌, ◌≡◌, refl, sym, ap, ◌∙◌, ◌≢◌, ◌↔◌,
  ◌⊎◌, inl, inr, ite, if_pos, if_neg, Bool, true, false, not, ◌&&◌, ◌||◌, Option, none, some, List,
  [], ◌∷◌, ◌++◌, map, lookup, arith, ℕ_discrete, ltb, leb, ◌==◌, if◌then◌else◌, Bool-cases,
  Option-cases, length, get_elem?, is_empty, all, All, All-append, length-append,
}
use vhal_core.Prelude.Int.{
  ℤ, pos, negsuc, ℤ_discrete, ltb_ℤ, eqb_ℤ, ◌≤ℤ◌, ◌<ℤ◌, eq_of_eqb_ℤ, eqb_ℤ_refl,
}
use vhal_core.Prelude.Sets.{
  contains, add, erase, IsUnique, contains-add, contains-erase, contains-append, add-IsUnique,
  erase-IsUnique,
}
use vhal_core.Prelude.Dict.{
  Dict, insert, remove, keys, IsMap, lookup-insert, lookup-remove, insert-All, remove-All,
  insert-IsMap, remove-IsMap, lookup_absent, lookup-All,
}
use vhal_core.HalTypes.{StatusCode, VhalResult, ok, err}
use vhal_core.Floats.{Floats}
use vhal_core.HalTypes.{
  invalid_arg, not_available, VehiclePropertyStatus, available, VehiclePropValue, VehiclePropConfig,
}
use vhal_core.VehicleUtils.{is_global_prop, get_area_config}
use vhal_core.VehiclePropertyStore.Keys.{
  stored, stored_record, get_record-set_values, stored-set_values, read_value-stored,
}
use vhal_core.VehiclePropertyStore.{
  RecordId, RecordId-discrete, Record, Store, Event, value_changed, values_changed, EventMode,
  on_value_change, always, never, get_record, get_record_id, read_value_locked, read_value,
  set_values, notify, store_value, is_updated, write_record, write_stamped, write_value,
}

module _ {F : Type 0} (f : Floats F) where
  -- The value with the timestamp that is written.
  abbrev pub stamped : VehiclePropValue F → Bool → ℤ → VehiclePropValue F
  stamped v use_current_timestamp now =
      if use_current_timestamp then record v { timestamp = now } else v

  -- The value that is stored: without `updateStatus` its status is that of the value before, or
  -- `AVAILABLE`.
  unfoldable pub written :
      VehiclePropValue F → Bool → Option (VehiclePropValue F) → VehiclePropValue F
  written v update_status old =
      if update_status
      then v
      else record v { status = elim old [ none ↦ available | some o ↦ o.status ] }

  -- The value is to be reported: always, or if it is new or differs from the one before.
  unfoldable pub is_reported : EventMode → Option (VehiclePropValue F) → VehiclePropValue F → Bool
  is_reported never old w = false
  is_reported always old w = true
  is_reported on_value_change none w = true
  is_reported on_value_change (some o) w = is_updated f o w

  -- One call of the callback that is set, the one for several values before the other.
  unfoldable pub report : Store F → VehiclePropValue F → List (Event F)
  report s w = elim s.on_values_change_callback [
    | some callback ↦ values_changed callback (w ∷ []) ∷ []
    | none ↦ elim s.on_value_change_callback [
      | some callback ↦ value_changed callback w ∷ []
      | none ↦ []
    ]
  ]

  -- No newer value is stored.
  unfoldable pub is_current : VehiclePropValue F → Option (VehiclePropValue F) → Bool
  is_current v none = true
  is_current v (some old) = not (ltb_ℤ v.timestamp old.timestamp)

  -- The code that accepts or refuses, over the record of the property.
  unfoldable pub is_accepted : VehiclePropValue F → Record F → Bool
  is_accepted v r =
      (is_global_prop v.prop || not (is_none (get_area_config v.prop v.area_id r.prop_config)))
      && is_current v (lookup RecordId-discrete (get_record_id v r) r.values)

  notify-report :
      (s : Store F) (mode : EventMode) (old : Option (VehiclePropValue F)) (w : VehiclePropValue F)
      (updated : Bool)
      → updated ≡ is_reported on_value_change old w
      → notify s mode updated w ≡ (if is_reported mode old w then report s w else [])
  unfolding notify is_reported report
  notify-report s never old w updated e = refl
  notify-report s always old w updated e = ground arith
  notify-report s on_value_change old w updated e = ground arith

  -- All that `writeValue` does to a registered property, on one line.
  pub write_stamped_lem :
      (v : VehiclePropValue F) (update_status : Bool) (mode : EventMode) (s : Store F)
      (r : Record F)
      → get_record v.prop s ≡ some r
      → let id = get_record_id v r in
        let old = lookup RecordId-discrete id r.values in
        let w = written v update_status old in
        write_stamped f v update_status mode s ≡ (
          if is_accepted v r
          then (
            set_values v.prop r (insert RecordId-discrete id w r.values) s,
            ok tt,
            if is_reported mode old w then report s w else [],
          )
          else (s, err invalid_arg, []))
  unfolding write_stamped store_value is_accepted is_current written is_reported
  write_stamped_lem v update_status mode s r e =
      let id = get_record_id v r in
      let old = lookup RecordId-discrete id r.values in
      let w = written v update_status old in
      ground (arith, e, notify-report s mode old w (is_reported on_value_change old w) refl)
