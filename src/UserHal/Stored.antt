-- ===== src/UserHal/Stored.antt =====
-- That FakeUserHal.cpp never writes to the first of no values, whatever it is sent.
use vhal_core.Prelude.{
  ◌≡◌, refl, ◌≢◌, ◌⊎◌, inl, inr, false, Option, none, some, List, [], ◌∷◌, arith, ◌==◌, Bool-cases,
  is_empty,
}
use vhal_core.Prelude.Int.{ℤ, pos, eqb_ℤ}
use vhal_core.HalTypes.{StatusCode, VhalResult, ok, err}
use vhal_core.HalTypes.{VehiclePropValue}
use vhal_core.UserHal.Types.{
  initial_user_info, switch_user, create_user, remove_user, user_identification_association,
}
use vhal_core.UserHal.Fake.{
  FakeUserHal, new_fake_user_hal, Answer, fault, get_request_id, get_switch_user_message_type,
  with_first, send_user_hal_response, reply, on_set_initial_user_info_response, default_switch_user,
  on_set_switch_user_response, on_set_create_user_response, on_set_user_identification_association,
  on_get_user_identification_association, on_set_property, on_get_property,
}

ok_or_err : (r : VhalResult ℤ) → ((id : ℤ) × (r ≡ ok id)) ⊎ ((e : StatusCode) × (r ≡ err e))
ok_or_err (ok id) = inl (id, refl)
ok_or_err (err e) = inr (e, refl)

module _ {F : Type 0} where
  -- A stored response has a first value.
  abbrev IsFilled : Option (VehiclePropValue F) → Type 0
  IsFilled none = Unit {0}
  IsFilled (some v) = is_empty v.value.int32_values ≡ false

  record IsSafe (s : FakeUserHal F) : Type 0 where
    initial : IsFilled s.initial_user_response
    switched : IsFilled s.switch_user_response
    created : IsFilled s.create_user_response
    associated : IsFilled s.set_user_identification_association_response

  abbrev IsAnswer : Answer F → Type 0
  IsAnswer a = a ≢ fault

  get_request_id-eq :
      (v : VehiclePropValue F) {id : ℤ}
      → get_request_id v ≡ ok id
      → is_empty v.value.int32_values ≡ false
  unfolding get_request_id
  get_request_id-eq v h = ground arith

  with_first-IsAnswer :
      (v : VehiclePropValue F) (x : ℤ)
      → is_empty v.value.int32_values ≡ false
      → IsAnswer (with_first v x)
  unfolding with_first
  with_first-IsAnswer v x h = ground arith

  send_user_hal_response-IsAnswer :
      (v : VehiclePropValue F) (id : ℤ)
      → is_empty v.value.int32_values ≡ false
      → IsAnswer (send_user_hal_response v id)
  unfolding send_user_hal_response
  send_user_hal_response-IsAnswer v id h = ground (arith, with_first-IsAnswer v id h)

  reply-IsAnswer :
      (stored : Option (VehiclePropValue F)) (id : ℤ) (otherwise : Answer F)
      → IsFilled stored
      → IsAnswer otherwise
      → IsAnswer (reply stored id otherwise)
  reply-IsAnswer none id otherwise h k = k
  reply-IsAnswer (some v) id otherwise h k = send_user_hal_response-IsAnswer v id h

  IsKept : FakeUserHal F × Answer F → Type 0
  IsKept (s, a) = IsSafe s × IsAnswer a

  module _ (now : ℤ) (v : VehiclePropValue F) (s : FakeUserHal F) (safe : IsSafe s) where
    initial-IsKept : IsKept (on_set_initial_user_info_response now v s)
    unfolding on_set_initial_user_info_response IsKept
    initial-IsKept = elim (ok_or_err (get_request_id v)) [
      | inr (e, q) ↦ rw (q, on_set_initial_user_info_response) (safe, λ h. cc)
      | inl (id, q) ↦ elim (Bool-cases (v.area_id == 0)) [
        | inl a ↦
            rw (q, on_set_initial_user_info_response, a)
              (
                record {
                  initial = tt;
                  switched = safe.switched;
                  created = safe.created;
                  associated = safe.associated;
                },
                reply-IsAnswer s.initial_user_response id _ safe.initial (λ h. cc),
              )
        | inr a ↦
            rw (q, on_set_initial_user_info_response, a)
              (
                record {
                  initial = get_request_id-eq v q;
                  switched = safe.switched;
                  created = safe.created;
                  associated = safe.associated;
                },
                λ h. cc,
              )
      ]
    ]

    created-IsKept : IsKept (on_set_create_user_response now v s)
    unfolding on_set_create_user_response IsKept
    created-IsKept = elim (ok_or_err (get_request_id v)) [
      | inr (e, q) ↦ rw (q, on_set_create_user_response) (safe, λ h. cc)
      | inl (id, q) ↦ elim (Bool-cases (v.area_id == 0)) [
        | inl a ↦
            rw (q, on_set_create_user_response, a)
              (
                record {
                  initial = safe.initial;
                  switched = safe.switched;
                  created = tt;
                  associated = safe.associated;
                },
                reply-IsAnswer s.create_user_response id _ safe.created (λ h. cc),
              )
        | inr a ↦
            rw (q, on_set_create_user_response, a)
              (
                record {
                  initial = safe.initial;
                  switched = safe.switched;
                  created = get_request_id-eq v q;
                  associated = safe.associated;
                },
                λ h. cc,
              )
      ]
    ]

    associated-IsKept : IsKept (on_set_user_identification_association v s)
    unfolding on_set_user_identification_association IsKept
    associated-IsKept = elim (ok_or_err (get_request_id v)) [
      | inr (e, q) ↦ rw (q, on_set_user_identification_association) (safe, λ h. cc)
      | inl (id, q) ↦ elim (Bool-cases (v.area_id == 0)) [
        | inl a ↦
            rw (q, on_set_user_identification_association, a)
              (
                safe,
                reply-IsAnswer s.set_user_identification_association_response id _ safe.associated
                    (λ h. cc),
              )
        | inr a ↦
            rw (q, on_set_user_identification_association, a)
              (
                record {
                  initial = safe.initial;
                  switched = safe.switched;
                  created = safe.created;
                  associated = get_request_id-eq v q;
                },
                λ h. cc,
              )
      ]
    ]

    default_switch_user-IsAnswer : (id type : ℤ) → IsAnswer (default_switch_user now id type)
    unfolding default_switch_user
    default_switch_user-IsAnswer id type = ground arith

    switched-IsKept : IsKept (on_set_switch_user_response now v s)
    unfolding on_set_switch_user_response IsKept
    switched-IsKept = elim (ok_or_err (get_request_id v)) [
      | inr (e, q) ↦ rw (q, on_set_switch_user_response) (safe, λ h. cc)
      | inl (id, q) ↦ elim (ok_or_err (get_switch_user_message_type v)) [
        | inr (e, t) ↦ rw (q, on_set_switch_user_response, t) (safe, λ h. cc)
        | inl (type, t) ↦ elim (Bool-cases (v.area_id == 0)) [
          | inl a ↦
              rw (q, on_set_switch_user_response, t, a)
                (
                  record {
                    initial = safe.initial;
                    switched = tt;
                    created = safe.created;
                    associated = safe.associated;
                  },
                  reply-IsAnswer s.switch_user_response id _ safe.switched
                      (default_switch_user-IsAnswer id type),
                )
          | inr a ↦ elim (Bool-cases (eqb_ℤ type (pos 4))) [
            | inl b ↦ rw (q, on_set_switch_user_response, t, a, b) (safe, λ h. cc)
            | inr b ↦
                rw (q, on_set_switch_user_response, t, a, b)
                  (
                    record {
                      initial = safe.initial;
                      switched = get_request_id-eq v q;
                      created = safe.created;
                      associated = safe.associated;
                    },
                    λ h. cc,
                  )
          ]
        ]
      ]
    ]

    on_set_property-IsKept : IsKept (on_set_property now v s)
    unfolding on_set_property IsKept
    on_set_property-IsKept = elim (Bool-cases (v.prop == initial_user_info)) [
      | inl e ↦ rw (e, on_set_property) initial-IsKept
      | inr e ↦ elim (Bool-cases (v.prop == switch_user)) [
        | inl e' ↦ rw (e, on_set_property, e') switched-IsKept
        | inr e' ↦ elim (Bool-cases (v.prop == create_user)) [
          | inl e'' ↦ rw (e, on_set_property, e', e'') created-IsKept
          | inr e'' ↦ elim (Bool-cases (v.prop == remove_user)) [
            | inl d ↦ rw (e, on_set_property, e', e'', d) (safe, λ h. cc)
            | inr d ↦ elim (Bool-cases (v.prop == user_identification_association)) [
              | inl d' ↦ rw (e, on_set_property, e', e'', d, d') associated-IsKept
              | inr d' ↦ rw (e, on_set_property, e', e'', d, d') (safe, λ h. cc)
            ]
          ]
        ]
      ]
    ]

    on_get_property-IsAnswer : IsAnswer (on_get_property v s)
    unfolding on_get_property on_get_user_identification_association
    on_get_property-IsAnswer = let h = safe.associated in ground (arith, h)

  -- What the HAL is sent, each value with the time.
  abbrev pub after : List (ℤ × VehiclePropValue F) → FakeUserHal F → FakeUserHal F
  after [] s = s
  after ((now, v) ∷ history) s = after history (on_set_property now v s).0

  after-IsSafe :
      (history : List (ℤ × VehiclePropValue F)) (s : FakeUserHal F)
      → IsSafe s
      → IsSafe (after history s)
  unfolding IsKept
  after-IsSafe [] s safe = safe
  after-IsSafe ((now, v) ∷ history) s safe =
      after-IsSafe history (on_set_property now v s).0 (on_set_property-IsKept now v s safe).0

  -- Whatever values have been set before, of any property, from Android or from a test: when the next value is set or asked for, the code never reads or writes outside of a vector, so it gets an answer or an error.
  pub after-new_fake_user_hal :
      (history : List (ℤ × VehiclePropValue F)) (now : ℤ) (v : VehiclePropValue F)
      → let s = after history new_fake_user_hal in
        ((on_set_property now v s).1 ≢ fault) × (on_get_property v s ≢ fault)
  unfolding new_fake_user_hal IsKept
  after-new_fake_user_hal history now v =
      let safe =
        after-IsSafe history (new_fake_user_hal {F = F})
          (record { initial = tt; switched = tt; created = tt; associated = tt }) in
      let s = after history (new_fake_user_hal {F = F}) in
      ((on_set_property-IsKept now v s safe).1, on_get_property-IsAnswer now v s safe)
