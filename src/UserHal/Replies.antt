-- ===== src/UserHal/Replies.antt =====
-- The messages that UserHalHelper.cpp makes.
use vhal_core.Prelude.{ℕ, zero, suc, not, Option, none, some, List, [], ◌∷◌, ◌++◌, if◌then◌else◌}
use vhal_core.Prelude.Int.{ℤ, pos, negsuc, eqb_ℤ}
use vhal_core.HalTypes.{VehiclePropValue, available, empty_raw}
use vhal_core.UserHal.Types.{
  Parsed, parsed, refused, fault, UserInfo, SwitchUserRequest, initial_user_info, switch_user,
  create_user, user_identification_association,
}

pub record InitialUserInfoResponse : Type 0 where
  pub request_id : ℤ
  pub action : ℤ
  pub user_to_switch_or_create : UserInfo
  pub user_locales : List ℕ
  pub user_name_to_create : List ℕ

pub record SwitchUserResponse : Type 0 where
  pub request_id : ℤ
  pub message_type : ℤ
  pub status : ℤ
  pub error_message : List ℕ

pub record CreateUserResponse : Type 0 where
  pub request_id : ℤ
  pub status : ℤ
  pub error_message : List ℕ

pub record UserIdentificationAssociation : Type 0 where
  pub type : ℤ
  pub value : ℤ

pub record UserIdentificationResponse : Type 0 where
  pub request_id : ℤ
  pub number_association : ℤ
  pub associations : List UserIdentificationAssociation
  pub error_message : List ℕ

-- `SwitchUserStatus::FAILURE` and `CreateUserStatus::FAILURE`
abbrev pub status_failure : ℤ
status_failure = pos 2

-- The loop over the associations, which the code reads without a look at their number; a message with
-- a negative number has no place for its first values.
unfoldable pub put_associations : ℕ → List UserIdentificationAssociation → Option (List ℤ)
put_associations zero as_list = some []
put_associations (suc n) [] = none
put_associations (suc n) (a ∷ rest) = elim (put_associations n rest) [
  | none ↦ none
  | some xs ↦ some (a.type ∷ a.value ∷ xs)
]

module _ {F : Type 0} (now : ℤ) where
  -- A new object of the pool, filled.
  abbrev pub new_message : ℕ → List ℤ → List ℕ → VehiclePropValue F
  new_message prop xs text = record {
    timestamp = now;
    area_id = 0;
    prop = prop;
    status = available;
    value = record (empty_raw {F = F}) { int32_values = xs; string_value = text };
  }

  -- `toVehiclePropValue`, for each of its types: only `VEHICLE_REQUEST` is a request of the HAL.
  unfoldable pub of_switch_user_request : SwitchUserRequest → Parsed (VehiclePropValue F)
  of_switch_user_request r =
      if not (eqb_ℤ r.message_type (pos 4))
      then refused
      else parsed
          (new_message switch_user (r.request_id ∷ r.message_type ∷ r.target_user.user_id ∷ []) [])

  unfoldable pub of_initial_user_info_response : InitialUserInfoResponse → VehiclePropValue F
  of_initial_user_info_response r =
      new_message initial_user_info
        (r.request_id ∷ r.action ∷ r.user_to_switch_or_create.user_id
          ∷ r.user_to_switch_or_create.flags ∷ [])
        (r.user_locales ++ (b'|' ∷ b'|' ∷ r.user_name_to_create))

  unfoldable pub of_switch_user_response : SwitchUserResponse → VehiclePropValue F
  of_switch_user_response r =
      new_message switch_user (r.request_id ∷ r.message_type ∷ r.status ∷ [])
        (if eqb_ℤ r.status status_failure then r.error_message else [])

  unfoldable pub of_create_user_response : CreateUserResponse → VehiclePropValue F
  of_create_user_response r =
      new_message create_user (r.request_id ∷ r.status ∷ [])
        (if eqb_ℤ r.status status_failure then r.error_message else [])

  unfoldable pub of_user_identification_response :
      UserIdentificationResponse → Parsed (VehiclePropValue F)
  unfolding put_associations
  of_user_identification_response r = elim r.number_association [
    | negsuc n ↦ fault
    | pos n ↦ elim (put_associations n r.associations) [
      | none ↦ fault
      | some xs ↦ parsed (
          new_message user_identification_association (r.request_id ∷ r.number_association ∷ xs)
            r.error_message)
    ]
  ]
