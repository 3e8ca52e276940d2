-- ===== src/VehiclePropertyStore/Keys.antt =====
-- The store as a map from a property and a record ID to the value stored.
use vhal_core.Prelude.{ℕ, ◌≡◌, ite, Option, none, some, lookup, arith, ℕ_discrete}
use vhal_core.Prelude.Dict.{Dict, lookup-insert}
use vhal_core.HalTypes.{ok, err}
use vhal_core.HalTypes.{not_available, VehiclePropValue}
use vhal_core.VehiclePropertyStore.{
  RecordId, RecordId-discrete, Record, Store, get_record, get_record_id, read_value_locked,
  read_value, set_values,
}

module _ {F : Type 0} where
  -- The value stored for the property and the record ID.
  unfoldable pub stored : ℕ → RecordId → Store F → Option (VehiclePropValue F)
  stored prop id s = elim (get_record prop s) [
    | none ↦ none
    | some r ↦ lookup RecordId-discrete id r.values
  ]

  pub stored_record :
      (prop : ℕ) (id : RecordId) (s : Store F) (r : Record F)
      → get_record prop s ≡ some r
      → stored prop id s ≡ lookup RecordId-discrete id r.values
  unfolding stored
  stored_record prop id s r e = rw (e, stored)

  pub get_record-set_values :
      (p prop : ℕ) (r : Record F) (values : Dict RecordId (VehiclePropValue F)) (s : Store F)
      → get_record p (set_values prop r values s)
        ≡ ite (ℕ_discrete p prop) (some (record r { values = values })) (get_record p s)
  unfolding get_record set_values
  get_record-set_values p prop r values s = rw lookup-insert

  pub stored-set_values :
      (p : ℕ) (id : RecordId) (prop : ℕ) (r : Record F)
      (values : Dict RecordId (VehiclePropValue F)) (s : Store F)
      → stored p id (set_values prop r values s)
        ≡ ite (ℕ_discrete p prop) (lookup RecordId-discrete id values) (stored p id s)
  unfolding stored
  stored-set_values p id prop r values s = ground (arith, get_record-set_values p prop r values s)

  -- What is read is what is stored.
  pub read_value-stored :
      (request : VehiclePropValue F) (s : Store F) (r : Record F)
      → get_record request.prop s ≡ some r
      → read_value request s ≡ elim (stored request.prop (get_record_id request r) s) [
        | none ↦ err not_available
        | some v ↦ ok v
      ]
  unfolding read_value read_value_locked stored
  read_value-stored request s r e = ground arith
