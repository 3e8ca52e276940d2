-- ===== src/SubscriptionManager/Filter.antt =====
-- The filter for variable update rate of SubscriptionManager.cpp, `isValueUpdatedLocked`.
use vhal_core.Prelude.{
  ◌≡◌, refl, ap, ◌∙◌, inl, inr, ite, true, false, ◌&&◌, some, List, [], ◌∷◌, Bool-cases,
}
use vhal_core.Prelude.Int.{ltb_ℤ}
use vhal_core.HalTypes.{VehiclePropValue, VehiclePropertyStatus-discrete, eq_raw}
use vhal_core.Floats.{Floats}
use vhal_core.SubscriptionManager.{find_value, insert_value, is_value_updated}

module _ {F : Type 0} where
  find_value_same :
      (u v : VehiclePropValue F) (ws : List (VehiclePropValue F))
      → u.prop ≡ v.prop
      → u.area_id ≡ v.area_id
      → find_value u ws ≡ find_value v ws
  unfolding find_value
  find_value_same u v [] p a = refl
  find_value_same u v (w ∷ ws) p a = rw (p, a, find_value_same u v ws p a) refl

module _ {F : Type 0} (f : Floats F) where
  -- A value of a key that has a kept value never takes that one's place.
  is_value_updated-kept :
      (u old : VehiclePropValue F) (kept : List (VehiclePropValue F))
      → find_value u kept ≡ some old
      → (is_value_updated f u kept).0 ≡ kept
  unfolding is_value_updated insert_value
  is_value_updated-kept u old kept h =
      let stays : insert_value u kept ≡ kept = rw (h, insert_value) refl in
      rw (h, is_value_updated)
        (elim (Bool-cases (ltb_ℤ u.timestamp old.timestamp)) [
          | inl e ↦ rw e refl
          | inr e ↦
              rw e
                (elim (Bool-cases (
                  eq_raw f old.value u.value
                  && ite (VehiclePropertyStatus-discrete old.status u.status) true false)) [
                    | inl e' ↦ rw e' stays
                    | inr e' ↦ rw e' stays
                  ])
        ])

  -- Once a value of a key is kept, no later value of the key has an influence on whether a further one is passed on: each is compared with the first value, not with the last.
  pub is_value_updated-ignores :
      (u v old : VehiclePropValue F) (kept : List (VehiclePropValue F))
      → u.prop ≡ v.prop
      → u.area_id ≡ v.area_id
      → find_value v kept ≡ some old
      → is_value_updated f v (is_value_updated f u kept).0 ≡ is_value_updated f v kept
  is_value_updated-ignores u v old kept p a h =
      ap (is_value_updated f v)
        (is_value_updated-kept u old kept (find_value_same u v kept p a ∙ h))
