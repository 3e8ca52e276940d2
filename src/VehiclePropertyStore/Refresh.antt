-- ===== src/VehiclePropertyStore/Refresh.antt =====
-- `refreshTimestamps` changes timestamps only.
use mathlib.Core.Option
use mathlib.Core.List.{append-nil}
use vhal_core.Prelude.{
  ℕ, suc, ◌≡◌, refl, ap, ◌∙◌, inl, inr, ite, some, [], ◌∷◌, lookup, arith, ℕ_discrete, Option-cases,
}
use vhal_core.Prelude.Int.{ℤ, pos}
use vhal_core.Prelude.Dict.{Dict, insert, lookup-insert}
use vhal_core.HalTypes.{VehiclePropValue, PropIdAreaId}
use vhal_core.VehiclePropertyStore.Keys.{stored, stored_record, stored-set_values}
use vhal_core.VehiclePropertyStore.{
  RecordId, RecordId-discrete, Record, Store, EventMode, always, get_record, get_record_id,
  request_of, refresh_one, refresh_loop, notify_all, refresh_timestamps, refresh_timestamp,
}

module _ {F : Type 0} where
  abbrev at_time : ℤ → VehiclePropValue F → VehiclePropValue F
  at_time now v = record v { timestamp = now }

  -- One round sets the timestamp of the value with the key's ID, if there is one.
  refresh_one-stored :
      (key : PropIdAreaId) (mode : EventMode) (now : ℤ) (s : Store F) (r : Record F) (p : ℕ)
      (j : RecordId)
      → get_record key.prop_id s ≡ some r
      → stored p j (refresh_one key mode now s).0
        ≡ ite
            (ℕ_discrete p key.prop_id)
            (ite
              (RecordId-discrete j (get_record_id (request_of key) r))
              (Option.map (at_time now) (stored p j s))
              (stored p j s))
            (stored p j s)
  unfolding refresh_one
  refresh_one-stored key mode now s r p j e =
      let id = get_record_id (request_of key) r in
      elim (Option-cases (lookup RecordId-discrete id r.values)) [
        | inl missing ↦ ground (arith, e, missing, stored_record p j s r)
        | inr (old, found) ↦ ground (
          arith,
          e,
          found,
          stored-set_values p j key.prop_id r
              (insert RecordId-discrete id (at_time now old) r.values) s,
          lookup-insert RecordId-discrete j id (at_time now old) r.values,
          stored_record p j s r,
        )
      ]

  -- A value but for its timestamp.
  abbrev pub untimed : VehiclePropValue F → VehiclePropValue F
  untimed = at_time (pos 0)

  refresh_one-untimed :
      (key : PropIdAreaId) (mode : EventMode) (now : ℤ) (s : Store F) (p : ℕ) (j : RecordId)
      → Option.map untimed (stored p j (refresh_one key mode now s).0)
        ≡ Option.map untimed (stored p j s)
  unfolding refresh_one
  refresh_one-untimed key mode now s p j = elim (Option-cases (get_record key.prop_id s)) [
    | inl missing ↦ ground arith
    | inr (r, e) ↦ ground (arith, refresh_one-stored key mode now s r p j e)
  ]

  refresh_loop-untimed :
      (m : Dict PropIdAreaId EventMode) (clock : ℕ → ℤ) (i : ℕ) (s : Store F) (p : ℕ) (j : RecordId)
      → Option.map untimed (stored p j (refresh_loop m clock i s).0)
        ≡ Option.map untimed (stored p j s)
  unfolding refresh_loop
  refresh_loop-untimed [] clock i s p j = refl
  refresh_loop-untimed ((key, mode) ∷ m) clock i s p j =
      refresh_loop-untimed m clock (suc i) (refresh_one key mode (clock i) s).0 p j
      ∙ refresh_one-untimed key mode (clock i) s p j

  -- Refreshing any keys adds no value, removes none, and changes none but in its timestamp.
  pub refresh_timestamps-untimed :
      (m : Dict PropIdAreaId EventMode) (clock : ℕ → ℤ) (s : Store F) (p : ℕ) (j : RecordId)
      → Option.map untimed (stored p j (refresh_timestamps m clock s).0)
        ≡ Option.map untimed (stored p j s)
  unfolding refresh_timestamps
  refresh_timestamps-untimed m clock s p j = refresh_loop-untimed m clock 0 s p j

  refresh_one-report :
      (key : PropIdAreaId) (mode : EventMode) (now : ℤ) (s : Store F) (r : Record F)
      (old : VehiclePropValue F)
      → get_record key.prop_id s ≡ some r
      → stored key.prop_id (get_record_id (request_of key) r) s ≡ some old
      → (refresh_one key mode now s).1 ≡ elim mode [ always ↦ at_time now old ∷ [] | _ ↦ [] ]
  unfolding refresh_one
  refresh_one-report key mode now s r old e h =
      ground (arith, e, stored_record key.prop_id (get_record_id (request_of key) r) s r e)

  -- Refreshing a stored value sets its timestamp to the current time, and reports the value so
  -- changed exactly if the mode is always.
  pub refresh_timestamp_lem :
      (key : PropIdAreaId) (mode : EventMode) (now : ℤ) (s : Store F) (r : Record F)
      (old : VehiclePropValue F)
      → let id = get_record_id (request_of key) r in
        let out = refresh_timestamp key.prop_id key.area_id mode now s in
        get_record key.prop_id s ≡ some r
        → stored key.prop_id id s ≡ some old
        → (stored key.prop_id id out.0 ≡ some (at_time now old))
          × (out.1 ≡ notify_all s (elim mode [ always ↦ at_time now old ∷ [] | _ ↦ [] ]))
  unfolding refresh_timestamp refresh_timestamps refresh_loop
  refresh_timestamp_lem key mode now s r old e h =
      let id = get_record_id (request_of key) r in
      (
        ground (arith, refresh_one-stored key mode now s r key.prop_id id e),
        ap (notify_all s) (append-nil _ ∙ refresh_one-report key mode now s r old e h),
      )
