-- ===== src/UserHal/Fake.antt =====
-- FakeUserHal.cpp: how the user HAL answers, by itself or as a test has told it to.
use vhal_core.Prelude.{
  ℕ, zero, suc, Bool, not, ◌||◌, Option, none, some, [], ◌∷◌, ◌==◌, if◌then◌else◌, get_elem?,
}
use vhal_core.Prelude.Int.{ℤ, pos, negsuc, eqb_ℤ}
use vhal_core.HalTypes.{StatusCode, VhalResult, ok, err}
use vhal_core.HalTypes.{invalid_arg, not_available, internal_error, VehiclePropValue}
use vhal_core.UserHal.Types.{
  parsed, initial_user_info, switch_user, create_user, remove_user, user_identification_association,
  switch_user_message_types,
}
use vhal_core.UserHal.Parse.{verify_and_cast}
use vhal_core.UserHal.Replies.{
  of_initial_user_info_response, of_switch_user_response, of_create_user_response,
}

-- The four responses that a test has stored.
pub record FakeUserHal (F : Type 0) : Type 0 where
  pub initial_user_response : Option (VehiclePropValue F)
  pub switch_user_response : Option (VehiclePropValue F)
  pub create_user_response : Option (VehiclePropValue F)
  pub set_user_identification_association_response : Option (VehiclePropValue F)

unfoldable pub new_fake_user_hal : {F : Type 0} → FakeUserHal F
new_fake_user_hal = record {
  initial_user_response = none;
  switch_user_response = none;
  create_user_response = none;
  set_user_identification_association_response = none;
}

-- `ValueResultType`: a value or the null pointer, an error, or no result, where the code writes to the
-- first of no values.
pub data Answer (F : Type 0) : Type 0 where
  answer : Option (VehiclePropValue F) → Answer F
  failure : StatusCode → Answer F
  fault : Answer F

unfoldable pub is_supported : ℕ → Bool
is_supported prop =
    prop == initial_user_info
    || (prop == switch_user
        || (prop == create_user
            || (prop == remove_user || prop == user_identification_association)))

-- `-requestId`
abbrev pub negate : ℤ → ℤ
negate (pos zero) = pos 0
negate (pos (suc n)) = negsuc n
negate (negsuc n) = pos (suc n)

module _ {F : Type 0} where
  unfoldable pub get_request_id : VehiclePropValue F → VhalResult ℤ
  get_request_id v = elim v.value.int32_values [ [] ↦ err invalid_arg | x ∷ xs ↦ ok x ]

  unfoldable pub get_switch_user_message_type : VehiclePropValue F → VhalResult ℤ
  get_switch_user_message_type v = elim (get_elem? v.value.int32_values 1) [
    | none ↦ err invalid_arg
    | some x ↦ elim (verify_and_cast switch_user_message_types x) [
      | parsed type ↦ ok type
      | _ ↦ err invalid_arg
    ]
  ]

  -- `value.int32Values[0] = x`, and the rest of what is sent: the area becomes 0.
  unfoldable pub with_first : VehiclePropValue F → ℤ → Answer F
  with_first v x = elim v.value.int32_values [
    | [] ↦ fault
    | y ∷ ys ↦
        answer (some (record v { area_id = 0; value = record v.value { int32_values = x ∷ ys } }))
  ]

  unfoldable pub send_user_hal_response : VehiclePropValue F → ℤ → Answer F
  unfolding with_first
  send_user_hal_response response id =
      if response.area_id == 1
      then with_first response id
      else if response.area_id == 2
      then with_first response (negate id)
      else if response.area_id == 3
      then failure not_available
      else failure internal_error

  -- The answer with a stored response, if there is one.
  abbrev pub reply : Option (VehiclePropValue F) → ℤ → Answer F → Answer F
  reply none id otherwise = otherwise
  reply (some response) id otherwise = send_user_hal_response response id

module _ {F : Type 0} (now : ℤ) where
  unfoldable pub on_set_initial_user_info_response :
      VehiclePropValue F → FakeUserHal F → FakeUserHal F × Answer F
  unfolding get_request_id send_user_hal_response of_initial_user_info_response
  on_set_initial_user_info_response v s = elim (get_request_id v) [
    | err e ↦ (s, failure e)
    | ok id ↦
        if not (v.area_id == 0)
        then (record s { initial_user_response = some v }, answer none)
        else (
          record s { initial_user_response = none },
          reply s.initial_user_response id (
              answer (
                some (
                  of_initial_user_info_response now (record {
                    request_id = id;
                    action = pos 0;
                    user_to_switch_or_create = record { user_id = pos 0; flags = pos 0 };
                    user_locales = [];
                    user_name_to_create = [];
                  })))),
        )
  ]

  -- What is answered to a SWITCH_USER of Android when nothing is stored.
  unfoldable pub default_switch_user : ℤ → ℤ → Answer F
  unfolding of_switch_user_response
  default_switch_user id type =
      if eqb_ℤ type (pos 1) || eqb_ℤ type (pos 5)
      then answer none
      else answer (
          some (
            of_switch_user_response now (record {
              request_id = id;
              message_type = pos 3;
              status = pos 1;
              error_message = [];
            })))

  unfoldable pub on_set_switch_user_response :
      VehiclePropValue F → FakeUserHal F → FakeUserHal F × Answer F
  unfolding get_request_id get_switch_user_message_type send_user_hal_response default_switch_user
  on_set_switch_user_response v s = elim (get_request_id v) [
    | err e ↦ (s, failure e)
    | ok id ↦ elim (get_switch_user_message_type v) [
      | err e ↦ (s, failure e)
      | ok type ↦
          if not (v.area_id == 0)
          then (if eqb_ℤ type (pos 4)
              then (s, answer (some v))
              else (record s { switch_user_response = some v }, answer none))
          else (
            record s { switch_user_response = none },
            reply s.switch_user_response id (default_switch_user id type),
          )
    ]
  ]

  unfoldable pub on_set_create_user_response :
      VehiclePropValue F → FakeUserHal F → FakeUserHal F × Answer F
  unfolding get_request_id send_user_hal_response of_create_user_response
  on_set_create_user_response v s = elim (get_request_id v) [
    | err e ↦ (s, failure e)
    | ok id ↦
        if not (v.area_id == 0)
        then (record s { create_user_response = some v }, answer none)
        else (
          record s { create_user_response = none },
          reply s.create_user_response id (
              answer (
                some (
                  of_create_user_response now
                    (record { request_id = id; status = pos 1; error_message = [] })))),
        )
  ]

module _ {F : Type 0} where
  -- The stored response stays, for later requests and for `onGetProperty`.
  unfoldable pub on_set_user_identification_association :
      VehiclePropValue F → FakeUserHal F → FakeUserHal F × Answer F
  unfolding get_request_id send_user_hal_response
  on_set_user_identification_association v s = elim (get_request_id v) [
    | err e ↦ (s, failure e)
    | ok id ↦
        if not (v.area_id == 0)
        then (record s { set_user_identification_association_response = some v }, answer none)
        else (s, reply s.set_user_identification_association_response id (failure not_available))
  ]

  -- Here the area of the stored response stays as it is.
  unfoldable pub on_get_user_identification_association :
      VehiclePropValue F → FakeUserHal F → Answer F
  unfolding get_request_id
  on_get_user_identification_association v s = elim s.set_user_identification_association_response [
    | none ↦ failure not_available
    | some response ↦ elim (get_request_id v) [
      | err e ↦ failure e
      | ok id ↦ elim response.value.int32_values [
        | [] ↦ fault
        | y ∷ ys ↦
            answer
              (some (record response { value = record response.value { int32_values = id ∷ ys } }))
      ]
    ]
  ]

  unfoldable pub on_set_property : ℤ → VehiclePropValue F → FakeUserHal F → FakeUserHal F × Answer F
  unfolding on_set_initial_user_info_response on_set_switch_user_response
      on_set_create_user_response on_set_user_identification_association
  on_set_property now v s =
      if v.prop == initial_user_info
      then on_set_initial_user_info_response now v s
      else if v.prop == switch_user
      then on_set_switch_user_response now v s
      else if v.prop == create_user
      then on_set_create_user_response now v s
      else if v.prop == remove_user
      then (s, answer none)
      else if v.prop == user_identification_association
      then on_set_user_identification_association v s
      else (s, failure invalid_arg)

  unfoldable pub on_get_property : VehiclePropValue F → FakeUserHal F → Answer F
  unfolding on_get_user_identification_association
  on_get_property v s =
      if v.prop == user_identification_association
      then on_get_user_identification_association v s
      else failure invalid_arg
