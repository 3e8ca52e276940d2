-- ===== src/VehiclePropertyStore.antt =====
-- packages/vhal-types/aidl/impl/4/utils/common/{include/VehiclePropertyStore.h,
-- src/VehiclePropertyStore.cpp}: the last value of each property, area and token.
-- A method takes what `elapsedRealtimeNano` returns, and the callbacks that it calls are part of its
-- result. A value that the code takes from its pool is a copy, here the value itself.
pub mod Keys
pub mod Write
pub mod Refresh
pub mod Remove
mod Tests
use vhal_core.Prelude.{
  is_none, ℕ, zero, suc, ◌+◌, ◌-◌, ◌*◌, ◌/◌, ◌%◌, ◌^◌, ◌≤◌, ◌<◌, ◌≡◌, refl, sym, ap, ◌∙◌, ◌≢◌, ◌↔◌,
  ◌⊎◌, inl, inr, ite, if_pos, if_neg, Bool, true, false, not, ◌&&◌, ◌||◌, Option, none, some, List,
  [], ◌∷◌, ◌++◌, map, lookup, arith, ℕ_discrete, ltb, leb, ◌==◌, if◌then◌else◌, Bool-cases,
  Option-cases, length, get_elem?, is_empty, all, All, All-append, length-append,
}
use vhal_core.Prelude.Int.{
  ℤ, pos, negsuc, ℤ_discrete, ltb_ℤ, eqb_ℤ, ◌≤ℤ◌, ◌<ℤ◌, eq_of_eqb_ℤ, eqb_ℤ_refl,
}
use vhal_core.Prelude.Sets.{
  contains, add, erase, IsUnique, contains-add, contains-erase, contains-append, add-IsUnique,
  erase-IsUnique,
}
use vhal_core.Prelude.Dict.{
  Dict, insert, remove, keys, IsMap, lookup-insert, lookup-remove, insert-All, remove-All,
  insert-IsMap, remove-IsMap, lookup_absent, lookup-All,
}
use vhal_core.HalTypes.{StatusCode, VhalResult, ok, err}
use vhal_core.Floats.{Floats}
use vhal_core.HalTypes.{
  invalid_arg, not_available, RawPropValues, VehiclePropertyStatus, VehiclePropertyStatus-discrete,
  available, VehiclePropValue, VehiclePropConfig, PropIdAreaId, eq_raw, empty_raw,
}
use vhal_core.VehicleUtils.{is_global_prop, get_area_config}

-- `EventMode`
pub data EventMode : Type 0 where
  on_value_change : EventMode
  always : EventMode
  never : EventMode

-- `RecordId`
pub record RecordId : Type 0 where
  pub area : ℕ
  pub token : ℤ

unfoldable pub RecordId-discrete : Discrete RecordId
RecordId-discrete = hlevel (ℕ_discrete, ℤ_discrete)

module _ (F : Type 0) where
  -- `Record`; a null token function is `none`.
  pub record Record : Type 0 where
    pub prop_config : VehiclePropConfig F
    pub token_function : Option (VehiclePropValue F → ℤ)
    pub values : Dict RecordId (VehiclePropValue F)

  -- A callback is known by its identity; `none` is a null one.
  pub record Store : Type 0 where
    pub records_by_prop_id : Dict ℕ Record
    pub on_value_change_callback : Option ℕ
    pub on_values_change_callback : Option ℕ

  -- A call of `OnValueChangeCallback` or of `OnValuesChangeCallback`.
  pub data Event : Type 0 where
    value_changed : ℕ → VehiclePropValue F → Event
    values_changed : ℕ → List (VehiclePropValue F) → Event

module _ {F : Type 0} where
  -- `getRecordLocked`
  unfoldable pub get_record : ℕ → Store F → Option (Record F)
  get_record prop s = lookup ℕ_discrete prop s.records_by_prop_id

  unfoldable pub token_of : Option (VehiclePropValue F → ℤ) → VehiclePropValue F → ℤ
  token_of none v = pos 0
  token_of (some token) v = token v

  -- `getRecordIdLocked`
  unfoldable pub get_record_id : VehiclePropValue F → Record F → RecordId
  unfolding token_of
  get_record_id v r = record {
    area = if is_global_prop v.prop then 0 else v.area_id;
    token = token_of r.token_function v;
  }

  -- `readValueLocked`
  unfoldable pub read_value_locked : RecordId → Record F → VhalResult (VehiclePropValue F)
  read_value_locked id r = elim (lookup RecordId-discrete id r.values) [
    | none ↦ err not_available
    | some v ↦ ok v
  ]

  -- `readValue(request)`
  unfoldable pub read_value : VehiclePropValue F → Store F → VhalResult (VehiclePropValue F)
  unfolding read_value_locked
  read_value request s = elim (get_record request.prop s) [
    | none ↦ err invalid_arg
    | some r ↦ read_value_locked (get_record_id request r) r
  ]

  -- `readValue(propId, areaId, token)`
  unfoldable pub read_value_by_id : ℕ → ℕ → ℤ → Store F → VhalResult (VehiclePropValue F)
  unfolding read_value_locked
  read_value_by_id prop area token s = elim (get_record prop s) [
    | none ↦ err invalid_arg
    | some r ↦
        read_value_locked (record { area = if is_global_prop prop then 0 else area; token = token })
          r
  ]

  -- `readValuesForProperty`
  unfoldable pub read_values_for_property : ℕ → Store F → VhalResult (List (VehiclePropValue F))
  read_values_for_property prop s = elim (get_record prop s) [
    | none ↦ err invalid_arg
    | some r ↦ ok (map (λ e. e.1) r.values)
  ]

  -- `readAllValues`
  unfoldable pub read_all : Dict ℕ (Record F) → List (VehiclePropValue F)
  read_all [] = []
  read_all ((prop, r) ∷ m) = map (λ e. e.1) r.values ++ read_all m

  -- `getPropConfig`
  unfoldable pub get_prop_config : ℕ → Store F → VhalResult (VehiclePropConfig F)
  get_prop_config prop s = elim (get_record prop s) [
    | none ↦ err invalid_arg
    | some r ↦ ok r.prop_config
  ]

  -- `registerProperty`: the record is made anew.
  unfoldable pub register_property :
      VehiclePropConfig F → Option (VehiclePropValue F → ℤ) → Store F → Store F
  register_property config token s = record s {
    records_by_prop_id =
        insert ℕ_discrete config.prop
          (record { prop_config = config; token_function = token; values = [] })
          s.records_by_prop_id;
  }

  -- The record's values with an assignment of `record->values`.
  unfoldable pub set_values : ℕ → Record F → Dict RecordId (VehiclePropValue F) → Store F → Store F
  set_values prop r values s = record s {
    records_by_prop_id = insert ℕ_discrete prop (record r { values = values }) s.records_by_prop_id;
  }

  -- The callbacks at the end of `writeValue`.
  unfoldable pub notify : Store F → EventMode → Bool → VehiclePropValue F → List (Event F)
  notify s never updated v = []
  notify s always updated v = elim s.on_values_change_callback [
    | some callback ↦ values_changed callback (v ∷ []) ∷ []
    | none ↦ elim s.on_value_change_callback [
      | some callback ↦ value_changed callback v ∷ []
      | none ↦ []
    ]
  ]
  notify s on_value_change updated v =
      if updated
      then elim s.on_values_change_callback [
        | some callback ↦ values_changed callback (v ∷ []) ∷ []
        | none ↦ elim s.on_value_change_callback [
          | some callback ↦ value_changed callback v ∷ []
          | none ↦ []
        ]
      ]
      else []

  -- `record->values[recId] = std::move(propValue)`, and what follows.
  unfoldable pub store_value :
      Record F
      → RecordId
      → VehiclePropValue F
      → EventMode
      → Bool
      → Store F
      → Store F × VhalResult (Unit {0}) × List (Event F)
  unfolding set_values
  store_value r id v mode updated s = (
    set_values v.prop r (insert RecordId-discrete id v r.values) s,
    ok tt,
    notify s mode updated v,
  )

module _ {F : Type 0} (f : Floats F) where
  -- `valueUpdated`: the value or the status differs.
  abbrev pub is_updated : VehiclePropValue F → VehiclePropValue F → Bool
  is_updated old v =
      not (eq_raw f old.value v.value)
      || ite (VehiclePropertyStatus-discrete old.status v.status) false true

  -- `writeValue` from the look at the stored value on.
  unfoldable pub write_record :
      Record F
      → VehiclePropValue F
      → Bool
      → EventMode
      → Store F
      → Store F × VhalResult (Unit {0}) × List (Event F)
  write_record r v update_status mode s =
      let id = get_record_id v r in
      elim (lookup RecordId-discrete id r.values) [
        | some old ↦
            if ltb_ℤ v.timestamp old.timestamp
            then (s, err invalid_arg, [])
            else let w = (if update_status then v else record v { status = old.status }) in
              store_value r id w mode (is_updated old w) s
        | none ↦
            store_value r id (if update_status then v else record v { status = available }) mode
              true s
      ]

  -- `writeValue` once the timestamp is set.
  unfoldable pub write_stamped :
      VehiclePropValue F
      → Bool
      → EventMode
      → Store F
      → Store F × VhalResult (Unit {0}) × List (Event F)
  unfolding write_record
  write_stamped v update_status mode s = elim (get_record v.prop s) [
    | none ↦ (s, err invalid_arg, [])
    | some r ↦
        if not (is_global_prop v.prop) && is_none (get_area_config v.prop v.area_id r.prop_config)
        then (s, err invalid_arg, [])
        else write_record r v update_status mode s
  ]

  unfoldable pub write_value :
      VehiclePropValue F
      → Bool
      → EventMode
      → Bool
      → ℤ
      → Store F
      → Store F × VhalResult (Unit {0}) × List (Event F)
  unfolding write_stamped
  write_value v update_status mode use_current_timestamp now s =
      write_stamped (if use_current_timestamp then record v { timestamp = now } else v)
        update_status mode s

module _ {F : Type 0} where
  -- The value that `refreshTimestamps` makes to find a record's ID.
  abbrev pub request_of : PropIdAreaId → VehiclePropValue F
  request_of key = record {
    timestamp = pos 0;
    area_id = key.area_id;
    prop = key.prop_id;
    status = available;
    value = empty_raw;
  }

  -- One round of the loop: the store, and the value to report, if any.
  unfoldable pub refresh_one :
      PropIdAreaId → EventMode → ℤ → Store F → Store F × List (VehiclePropValue F)
  unfolding set_values
  refresh_one key mode now s = elim (get_record key.prop_id s) [
    | none ↦ (s, [])
    | some r ↦
        let id = get_record_id (request_of key) r in
        elim (lookup RecordId-discrete id r.values) [
          | none ↦ (s, [])
          | some old ↦
              let w = record old { timestamp = now } in
              (
                set_values key.prop_id r (insert RecordId-discrete id w r.values) s,
                elim mode [ always ↦ w ∷ [] | _ ↦ [] ],
              )
        ]
  ]

  -- The loop; round `i` reads the clock as `clock i`.
  unfoldable pub refresh_loop :
      Dict PropIdAreaId EventMode → (ℕ → ℤ) → ℕ → Store F → Store F × List (VehiclePropValue F)
  refresh_loop [] clock i s = (s, [])
  refresh_loop ((key, mode) ∷ m) clock i s =
      let (s', updated) = refresh_one key mode (clock i) s in
      let (s'', updated') = refresh_loop m clock (suc i) s' in (s'', updated ++ updated')

  -- The callbacks at the end of `refreshTimestamps`.
  unfoldable pub notify_all : Store F → List (VehiclePropValue F) → List (Event F)
  notify_all s [] = []
  notify_all s (v ∷ vs) = elim s.on_values_change_callback [
    | some callback ↦ values_changed callback (v ∷ vs) ∷ []
    | none ↦ elim s.on_value_change_callback [
      | some callback ↦ map (value_changed callback) (v ∷ vs)
      | none ↦ []
    ]
  ]

  unfoldable pub refresh_timestamps :
      Dict PropIdAreaId EventMode → (ℕ → ℤ) → Store F → Store F × List (Event F)
  refresh_timestamps m clock s =
      let (s', updated) = refresh_loop m clock 0 s in (s', notify_all s updated)

  unfoldable pub refresh_timestamp : ℕ → ℕ → EventMode → ℤ → Store F → Store F × List (Event F)
  refresh_timestamp prop area mode now s =
      refresh_timestamps ((record { prop_id = prop; area_id = area }, mode) ∷ []) (λ _. now) s

  unfoldable pub remove_value : VehiclePropValue F → Store F → Store F
  unfolding set_values
  remove_value v s = elim (get_record v.prop s) [
    | none ↦ s
    | some r ↦ set_values v.prop r (remove RecordId-discrete (get_record_id v r) r.values) s
  ]

  unfoldable pub remove_values_for_property : ℕ → Store F → Store F
  unfolding set_values
  remove_values_for_property prop s = elim (get_record prop s) [
    | none ↦ s
    | some r ↦ set_values prop r [] s
  ]

  unfoldable pub set_on_value_change_callback : Option ℕ → Store F → Store F
  set_on_value_change_callback callback s = record s { on_value_change_callback = callback }

  unfoldable pub set_on_values_change_callback : Option ℕ → Store F → Store F
  set_on_values_change_callback callback s = record s { on_values_change_callback = callback }
