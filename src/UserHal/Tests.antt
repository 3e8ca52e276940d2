-- ===== src/UserHal/Tests.antt =====
-- The user HAL at concrete values.
use vhal_core.Prelude.{ℕ, ◌≡◌, refl, ◌≢◌, ◌↔◌, some, List, [], ◌∷◌, ℕ_discrete}
use vhal_core.Prelude.Int.{ℤ, pos, negsuc, ℤ_discrete}
use vhal_core.Prelude.Sets.{contains}
use vhal_core.HalTypes.{VehiclePropValue, available, empty_raw}
use vhal_core.UserHal.Types.{
  Parsed, parsed, refused, UserInfo, InitialUserInfoRequest, SwitchUserRequest, CreateUserRequest,
  RemoveUserRequest, initial_user_info, switch_user, create_user, user_identification_association,
}
use vhal_core.UserHal.Parse.{
  read_at, verify_and_cast, are_user_flags, parse_user_info, parse_existing_users, parse_users_info,
  parse_types, parse_user_association_types, verify_prop_value, to_initial_user_info_request,
  to_switch_user_request, to_create_user_request, to_remove_user_request,
  to_user_identification_get_request,
}
use vhal_core.UserHal.Requests.{
  HoldsInitialUserInfo, HoldsSwitchUser, HoldsCreateUser, HoldsRemoveUser, to_request_lem,
}
use vhal_core.UserHal.Replies.{
  of_initial_user_info_response, of_switch_user_response, of_create_user_response,
}
use vhal_core.UserHal.Fake.{
  FakeUserHal, new_fake_user_hal, Answer, answer, get_request_id, get_switch_user_message_type,
  with_first, send_user_hal_response, on_set_initial_user_info_response, default_switch_user,
  on_set_switch_user_response, on_set_create_user_response, on_set_user_identification_association,
  on_get_user_identification_association, on_set_property, on_get_property,
}
use vhal_core.UserHal.Stored.{after, after-new_fake_user_hal}

program : Unit {0}
unfolding read_at verify_and_cast are_user_flags parse_user_info parse_existing_users
    parse_users_info parse_types parse_user_association_types verify_prop_value
    to_initial_user_info_request to_switch_user_request to_create_user_request
    to_remove_user_request to_user_identification_get_request of_initial_user_info_response
    of_switch_user_response of_create_user_response new_fake_user_hal get_request_id
    get_switch_user_message_type with_first send_user_hal_response on_set_initial_user_info_response
    default_switch_user on_set_switch_user_response on_set_create_user_response
    on_set_user_identification_association on_get_user_identification_association on_set_property
    on_get_property contains ℤ_discrete ℕ_discrete
program = tt

abbrev message : ℕ → ℕ → List ℤ → VehiclePropValue ℕ
message prop area xs = record {
  timestamp = pos 0;
  area_id = area;
  prop = prop;
  status = available;
  value = record (empty_raw {F = ℕ}) { int32_values = xs };
}

-- Request 7: switch to user 11 from the system user 10; both exist.
abbrev switch_message : VehiclePropValue ℕ
switch_message =
    message switch_user 0 (
      pos 7
      ∷ pos 2
      ∷ pos 11
      ∷ pos 0
      ∷ pos 10
      ∷ pos 1
      ∷ pos 2
      ∷ pos 10
      ∷ pos 1
      ∷ pos 11
      ∷ pos 0
      ∷ [])

abbrev user : ℕ → ℕ → UserInfo
user n flags = record { user_id = pos n; flags = pos flags }

switch_read :
    to_switch_user_request switch_message
    ≡ parsed (record {
      request_id = pos 7;
      message_type = pos 2;
      target_user = user 11 0;
      users_info = record {
        current_user = user 10 1;
        number_users = pos 2;
        existing_users = user 10 1 ∷ user 11 0 ∷ [];
      };
    })
unfolding program
switch_read = refl

-- One user less than announced.
switch_short :
    to_switch_user_request
      (message switch_user 0 (pos 7 ∷ pos 2 ∷ pos 11 ∷ pos 0 ∷ pos 10 ∷ pos 1 ∷ pos 1 ∷ []))
    ≡ refused
unfolding program
switch_short = refl

-- A negative number of users: the vector cannot be resized.
negative_users :
    to_initial_user_info_request
      (message initial_user_info 0 (pos 7 ∷ pos 1 ∷ pos 10 ∷ pos 1 ∷ negsuc 0 ∷ []))
    ≡ Parsed.fault
unfolding program
negative_users = refl

-- A negative number of types passes the test of the size, whose sum wraps around.
negative_types :
    to_user_identification_get_request
      (message user_identification_association 0 (pos 7 ∷ pos 10 ∷ pos 1 ∷ negsuc 0 ∷ []))
    ≡ Parsed.fault
unfolding program
negative_types = refl

to_request_lem_example :
    ((r : InitialUserInfoRequest)
      → (to_initial_user_info_request switch_message ≡ parsed r)
        ↔ HoldsInitialUserInfo switch_message r)
    × ((r : SwitchUserRequest)
        → (to_switch_user_request switch_message ≡ parsed r) ↔ HoldsSwitchUser switch_message r)
    × ((r : CreateUserRequest)
        → (to_create_user_request switch_message ≡ parsed r) ↔ HoldsCreateUser switch_message r)
    × ((r : RemoveUserRequest)
        → (to_remove_user_request switch_message ≡ parsed r) ↔ HoldsRemoveUser switch_message r)
to_request_lem_example = to_request_lem switch_message

-- A test stores a response to be sent with the right ID; the second request gets the default.
abbrev stored : VehiclePropValue ℕ
stored = message create_user 1 (pos 0 ∷ pos 2 ∷ [])

abbrev asked : ℕ → VehiclePropValue ℕ
asked n = message create_user 0 (pos n ∷ pos 12 ∷ pos 0 ∷ [])

abbrev after_store : FakeUserHal ℕ
after_store = (on_set_property (pos 5) stored new_fake_user_hal).0

first_reply :
    (on_set_property (pos 6) (asked 8) after_store).1
    ≡ answer (some (message create_user 0 (pos 8 ∷ pos 2 ∷ [])))
unfolding program
first_reply = refl

second_reply :
    (on_set_property (pos 7) (asked 9) (on_set_property (pos 6) (asked 8) after_store).0).1
    ≡ answer (some (record (message create_user 0 (pos 9 ∷ pos 1 ∷ [])) { timestamp = pos 7 }))
unfolding program
second_reply = refl

after-new_fake_user_hal_example :
    let s = after ((pos 5, stored) ∷ []) (new_fake_user_hal {F = ℕ}) in
    ((on_set_property (pos 6) (asked 8) s).1 ≢ Answer.fault)
    × (on_get_property (asked 8) s ≢ Answer.fault)
after-new_fake_user_hal_example = after-new_fake_user_hal ((pos 5, stored) ∷ []) (pos 6) (asked 8)
