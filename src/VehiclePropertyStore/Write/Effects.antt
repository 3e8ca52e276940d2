-- ===== src/VehiclePropertyStore/Write/Effects.antt =====
-- What `writeValue` leaves in the store.
use vhal_core.Prelude.{
  ℕ, ◌≡◌, refl, ◌∙◌, inl, inr, ite, if_pos, Bool, true, false, Option, none, some, [], lookup,
  arith, ℕ_discrete, if◌then◌else◌, Bool-cases, Option-cases,
}
use vhal_core.Prelude.Int.{ℤ, ◌≤ℤ◌}
use vhal_core.Prelude.Dict.{insert, lookup-insert}
use vhal_core.HalTypes.{ok, err}
use vhal_core.Floats.{Floats}
use vhal_core.HalTypes.{invalid_arg, VehiclePropValue}
use vhal_core.VehiclePropertyStore.Keys.{
  stored, stored_record, get_record-set_values, stored-set_values, read_value-stored,
}
use vhal_core.VehiclePropertyStore.Write.{
  stamped, written, is_reported, report, is_current, is_accepted, write_stamped_lem,
}
use vhal_core.VehiclePropertyStore.{
  RecordId, RecordId-discrete, Record, Store, EventMode, get_record, get_record_id, read_value,
  set_values, write_stamped, write_value,
}

module _ {F : Type 0} (f : Floats F) where
  -- Whether the record of the property, if there is one, accepts the value.
  unfoldable pub accepts : VehiclePropValue F → Option (Record F) → Bool
  accepts v none = false
  accepts v (some r) = is_accepted f v r

  -- A write is accepted exactly if its property is registered, its area is configured or global,
  -- and no value with a later timestamp is stored. A refused write is an invalid argument, changes
  -- nothing and calls no callback.
  pub write_value_result :
      (v : VehiclePropValue F) (update_status use_current : Bool) (mode : EventMode) (now : ℤ)
      (s : Store F)
      → let v' = stamped f v use_current now in
        let out = write_value f v update_status mode use_current now s in
        (out.1 ≡ (if accepts v' (get_record v'.prop s) then ok tt else err invalid_arg))
        × (accepts v' (get_record v'.prop s) ≡ false → (out.0 ≡ s) × (out.2 ≡ []))
  unfolding write_value accepts write_stamped
  write_value_result v update_status use_current mode now s =
      let v' = stamped f v use_current now in
      elim (Option-cases (get_record v'.prop s)) [
        | inl e ↦ ground arith
        | inr (r, e) ↦ ground (arith, write_stamped_lem f v' update_status mode s r e)
      ]

module _ {F : Type 0} (f : Floats F) (v : VehiclePropValue F) (update_status : Bool)
    (mode : EventMode) (s : Store F) where
  write_stamped-stored :
      (r : Record F) (p : ℕ) (j : RecordId)
      → get_record v.prop s ≡ some r
      → is_accepted f v r ≡ true
      → let id = get_record_id v r in
        stored p j (write_stamped f v update_status mode s).0
        ≡ ite
            (ℕ_discrete p v.prop)
            (ite
              (RecordId-discrete j id)
              (some (written f v update_status (stored v.prop id s)))
              (stored p j s))
            (stored p j s)
  write_stamped-stored r p j e a =
      let id = get_record_id v r in
      let old = lookup RecordId-discrete id r.values in
      let w = written f v update_status old in
      rw (write_stamped_lem f v update_status mode s r e, a)
        (ground (
          arith,
          stored-set_values p j v.prop r (insert RecordId-discrete id w r.values) s,
          lookup-insert RecordId-discrete j id w r.values,
          stored_record v.prop id s r e,
          stored_record v.prop j s r e,
        ))

  write_stamped-read :
      (r : Record F)
      → get_record v.prop s ≡ some r
      → is_accepted f v r ≡ true
      → let out = write_stamped f v update_status mode s in
        let old = stored v.prop (get_record_id v r) s in
        let w = written f v update_status old in
        (read_value v out.0 ≡ ok w)
        × (out.2 ≡ (if is_reported f mode old w then report f s w else []))
  unfolding get_record_id
  write_stamped-read r e a =
      let id = get_record_id v r in
      let old = lookup RecordId-discrete id r.values in
      let w = written f v update_status old in
      let values = insert RecordId-discrete id w r.values in
      let after = record r { values = values } in
      let found : get_record v.prop (set_values v.prop r values s) ≡ some after =
        get_record-set_values v.prop v.prop r values s
        ∙ if_pos (ℕ_discrete v.prop v.prop) refl _ _ in
      rw (write_stamped_lem f v update_status mode s r e, a, stored_record v.prop id s r e)
        (
          read_value-stored v (set_values v.prop r values s) after found
              ∙ ground (
                arith,
                stored-set_values v.prop id v.prop r values s,
                lookup-insert RecordId-discrete id id w r.values,
              ),
          refl,
        )

  replaced :
      (r : Record F)
      → get_record v.prop s ≡ some r
      → is_accepted f v r ≡ true
      → (p : ℕ) (j : RecordId) (old : VehiclePropValue F) → stored p j s ≡ some old
      → (new : VehiclePropValue F) × (stored p j (write_stamped f v update_status mode s).0
          ≡ some new)
        × (old.timestamp ≤ℤ new.timestamp)
  unfolding is_accepted is_current written
  replaced r found a p j old e =
      let id = get_record_id v r in
      let law = write_stamped-stored r p j found a in
      elim (ℕ_discrete p v.prop) [
        | yes here ↦ elim (RecordId-discrete j id) [
          | yes same ↦ (
            written f v update_status (stored v.prop id s),
            ground arith,
            ground (arith, stored_record v.prop id s r found),
          )
          | no other ↦ (old, ground arith, omega arith)
        ]
        | no other ↦ (old, ground arith, omega arith)
      ]

  timestamp-write_stamped :
      (p : ℕ) (j : RecordId) (old : VehiclePropValue F)
      → stored p j s ≡ some old
      → (new : VehiclePropValue F) × (stored p j (write_stamped f v update_status mode s).0
          ≡ some new)
        × (old.timestamp ≤ℤ new.timestamp)
  unfolding write_stamped
  timestamp-write_stamped p j old e = elim (Option-cases (get_record v.prop s)) [
    | inl missing ↦ (old, ground arith, omega arith)
    | inr (r, found) ↦ elim (Bool-cases (is_accepted f v r)) [
      | inl a ↦ replaced r found a p j old e
      | inr a ↦
          (old, ground (arith, write_stamped_lem f v update_status mode s r found), omega arith)
    ]
  ]

-- A write that is accepted finds its record.
accepted :
    {F : Type 0} (f : Floats F) (v : VehiclePropValue F) (update_status : Bool) (mode : EventMode)
    (s : Store F)
    → (write_stamped f v update_status mode s).1 ≡ ok tt
    → (r : Record F) × (get_record v.prop s ≡ some r) × (is_accepted f v r ≡ true)
unfolding write_stamped
accepted f v update_status mode s h = elim (Option-cases (get_record v.prop s)) [
  | inl e ↦ absurd (ground arith)
  | inr (r, e) ↦ (r, e, ground (arith, write_stamped_lem f v update_status mode s r e))
]

module _ {F : Type 0} (f : Floats F) (v : VehiclePropValue F) (update_status use_current : Bool)
    (mode : EventMode) (now : ℤ) (s : Store F) where
  -- After an accepted write the value can be read back: as it was given, with the current time if
  -- that was asked for, and without `updateStatus` with the status of the value it replaces, or
  -- available if it replaces none. The callback gets this value exactly if it is to be reported.
  pub read_value-write_value :
      (r : Record F)
      → let v' = stamped f v use_current now in
        let out = write_value f v update_status mode use_current now s in
        let old = stored v'.prop (get_record_id v' r) s in
        let w = written f v' update_status old in
        get_record v'.prop s ≡ some r
        → out.1 ≡ ok tt
        → (read_value v' out.0 ≡ ok w)
          × (out.2 ≡ (if is_reported f mode old w then report f s w else []))
  unfolding write_value
  read_value-write_value r e h =
      let v' = stamped f v use_current now in
      let (r', e', a) = accepted f v' update_status mode s h in
      let same : is_accepted f v' r ≡ true = ground arith in
      write_stamped-read f v' update_status mode s r e same

  -- An accepted write changes what is stored for its own property and record ID, and nothing else.
  pub stored-write_value :
      (r : Record F) (p : ℕ) (j : RecordId)
      → let v' = stamped f v use_current now in
        let out = write_value f v update_status mode use_current now s in
        let id = get_record_id v' r in
        get_record v'.prop s ≡ some r
        → out.1 ≡ ok tt
        → stored p j out.0
          ≡ ite
              (ℕ_discrete p v'.prop)
              (ite
                (RecordId-discrete j id)
                (some (written f v' update_status (stored v'.prop id s)))
                (stored p j s))
              (stored p j s)
  unfolding write_value
  stored-write_value r p j e h =
      let v' = stamped f v use_current now in
      let (r', e', a) = accepted f v' update_status mode s h in
      let same : is_accepted f v' r ≡ true = ground arith in
      write_stamped-stored f v' update_status mode s r p j e same

  -- No write, accepted or refused, takes a value away or replaces it by one with an older timestamp.
  pub timestamp-write_value :
      (p : ℕ) (j : RecordId) (old : VehiclePropValue F)
      → stored p j s ≡ some old
      → let out = write_value f v update_status mode use_current now s in
        (new : VehiclePropValue F) × (stored p j out.0 ≡ some new)
        × (old.timestamp ≤ℤ new.timestamp)
  unfolding write_value
  timestamp-write_value p j old e =
      timestamp-write_stamped f (stamped f v use_current now) update_status mode s p j old e
