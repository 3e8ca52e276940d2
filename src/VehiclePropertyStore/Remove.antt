-- ===== src/VehiclePropertyStore/Remove.antt =====
-- `removeValue`, `removeValuesForProperty` and `registerProperty`: what is stored after them.
use vhal_core.Prelude.{
  ℕ, ◌≡◌, inl, inr, ite, Option, none, some, [], lookup, arith, ℕ_discrete, Option-cases,
}
use vhal_core.Prelude.Int.{ℤ}
use vhal_core.Prelude.Dict.{remove, lookup-insert, lookup-remove}
use vhal_core.HalTypes.{VehiclePropValue, VehiclePropConfig}
use vhal_core.VehiclePropertyStore.Keys.{stored, stored_record, stored-set_values}
use vhal_core.VehiclePropertyStore.{
  RecordId, RecordId-discrete, Record, Store, get_record, get_record_id, remove_value,
  remove_values_for_property, register_property,
}

module _ {F : Type 0} where
  -- Removing a value of a registered property takes away what is stored for its property and record
  -- ID, and nothing else.
  pub stored-remove_value :
      (v : VehiclePropValue F) (s : Store F) (r : Record F) (p : ℕ) (j : RecordId)
      → get_record v.prop s ≡ some r
      → stored p j (remove_value v s)
        ≡ ite
            (ℕ_discrete p v.prop)
            (ite (RecordId-discrete j (get_record_id v r)) none (stored p j s))
            (stored p j s)
  unfolding remove_value
  stored-remove_value v s r p j e =
      let id = get_record_id v r in
      ground (
        arith,
        e,
        stored-set_values p j v.prop r (remove RecordId-discrete id r.values) s,
        lookup-remove RecordId-discrete j id r.values,
        stored_record p j s r,
      )

  stored_absent : (p : ℕ) (j : RecordId) (s : Store F) → get_record p s ≡ none → stored p j s ≡ none
  unfolding stored
  stored_absent p j s e = rw (e, stored)

  stored-remove_all :
      (prop : ℕ) (s : Store F) (p : ℕ) (j : RecordId)
      → stored p j (remove_values_for_property prop s) ≡ ite (ℕ_discrete p prop) none (stored p j s)
  unfolding remove_values_for_property lookup
  stored-remove_all prop s p j = elim (Option-cases (get_record prop s)) [
    | inl missing ↦ ground (arith, missing, stored_absent p j s)
    | inr (r, e) ↦ ground (arith, e, stored-set_values p j prop r [] s)
  ]

  stored-register :
      (config : VehiclePropConfig F) (token : Option (VehiclePropValue F → ℤ)) (s : Store F) (p : ℕ)
      (j : RecordId)
      → stored p j (register_property config token s)
        ≡ ite (ℕ_discrete p config.prop) none (stored p j s)
  unfolding register_property stored get_record lookup
  stored-register config token s p j =
      let r : Record F = record { prop_config = config; token_function = token; values = [] } in
      ground (arith, lookup-insert ℕ_discrete p config.prop r s.records_by_prop_id)

  -- Removing the values of a property takes away all that is stored for it, and nothing else; so
  -- does registering it, anew or again.
  pub stored-remove_values_for_property :
      (prop : ℕ) (s : Store F) (config : VehiclePropConfig F)
      (token : Option (VehiclePropValue F → ℤ)) (p : ℕ) (j : RecordId)
      → (stored p j (remove_values_for_property prop s)
          ≡ ite (ℕ_discrete p prop) none (stored p j s))
        × (stored p j (register_property config token s)
            ≡ ite (ℕ_discrete p config.prop) none (stored p j s))
  stored-remove_values_for_property prop s config token p j =
      (stored-remove_all prop s p j, stored-register config token s p j)
