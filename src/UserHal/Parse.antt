-- ===== src/UserHal/Parse.antt =====
-- The readers of UserHalHelper.cpp.
use vhal_core.Prelude.{
  ℕ, zero, suc, ◌+◌, ◌-◌, ◌*◌, ◌%◌, ◌^◌, Bool, true, false, not, ◌||◌, none, some, List, [], ◌∷◌,
  ltb, ◌==◌, if◌then◌else◌, length, get_elem?,
}
use vhal_core.Prelude.Int.{ℤ, pos, negsuc, ℤ_discrete, eqb_ℤ}
use vhal_core.Prelude.Sets.{contains}
use vhal_core.HalTypes.{VehiclePropValue}
use vhal_core.VehicleUtils.{to_size}
use vhal_core.UserHal.Types.{
  Parsed, parsed, refused, fault, ◌>>=◌, ◌>>◌, UserInfo, UsersInfo, InitialUserInfoRequest,
  SwitchUserRequest, CreateUserRequest, RemoveUserRequest, UserIdentificationSetAssociation,
  UserIdentificationGetRequest, UserIdentificationSetRequest, initial_user_info, switch_user,
  create_user, remove_user, user_identification_association, initial_user_info_request_types,
  switch_user_message_types, association_types, association_set_values,
}
use Prim.Native.Nat.{bit_and}

-- `xs[i]`
unfoldable pub read_at : List ℤ → ℕ → Parsed ℤ
read_at xs i = elim (get_elem? xs i) [ none ↦ fault | some x ↦ parsed x ]

-- An error unless the test holds.
abbrev pub require : Bool → Parsed (Unit {0})
require true = parsed tt
require false = refused

-- `verifyAndCast`, by the numbers of the enum.
unfoldable pub verify_and_cast : List ℤ → ℤ → Parsed ℤ
verify_and_cast numbers x = if contains ℤ_discrete x numbers then parsed x else refused

-- The bits of an `int32_t`.
abbrev pub bits_of_int32 : ℤ → ℕ
bits_of_int32 (pos n) = n
bits_of_int32 (negsuc n) = 2 ^ 32 - suc n

-- `(intUserFlags & ~combinedFlags) == 0`, with six flags
unfoldable pub are_user_flags : ℤ → Bool
are_user_flags flags = bit_and (bits_of_int32 flags) 0xffffffc0 == 0

-- `resize(n)`, which throws beyond `max_size()`, as for any count that was negative.
abbrev pub resize : ℕ → Parsed (Unit {0})
resize n = if ltb n (2 ^ 60) then parsed tt else fault

unfoldable pub parse_user_info : List ℤ → ℕ → Parsed UserInfo
unfolding read_at are_user_flags
parse_user_info xs start = do
  require (not (ltb (length xs) (start + 2)))
  id ← read_at xs start
  flags ← read_at xs (suc start)
  require (are_user_flags flags)
  parsed (record { user_id = id; flags = flags })

-- The loop of `parseUsersInfo`.
unfoldable pub parse_existing_users : List ℤ → ℕ → ℕ → Parsed (List UserInfo)
parse_existing_users xs start zero = parsed []
parse_existing_users xs start (suc n) = do
  user ← parse_user_info xs start
  users ← parse_existing_users xs (suc (suc start)) n
  parsed (user ∷ users)

unfoldable pub parse_users_info : List ℤ → ℕ → Parsed UsersInfo
unfolding parse_user_info parse_existing_users read_at
parse_users_info xs start = do
  require (not (ltb (length xs) (start + 3)))
  current ← parse_user_info xs start
  number ← read_at xs (suc (suc start))
  resize (to_size number)
  existing ← parse_existing_users xs (suc (suc (suc start))) (to_size number)
  parsed (record { current_user = current; number_users = number; existing_users = existing })

-- The loop of `parseUserAssociationTypes`.
unfoldable pub parse_types : List ℤ → ℕ → ℕ → Parsed (List ℤ)
unfolding read_at verify_and_cast
parse_types xs start zero = parsed []
parse_types xs start (suc n) = do
  x ← read_at xs start
  type ← verify_and_cast association_types x
  types ← parse_types xs (suc start) n
  parsed (type ∷ types)

-- `parseUserAssociationTypes`; the sizes are `size_t`.
unfoldable pub parse_user_association_types : List ℤ → ℕ → ℕ → Parsed (List ℤ)
unfolding parse_types
parse_user_association_types xs start number = do
  require (not (ltb (length xs) ((start + number) % 2 ^ 64)))
  resize number
  parse_types xs start number

-- The loop of `parseUserAssociations`.
unfoldable pub parse_associations : List ℤ → ℕ → ℕ → Parsed (List UserIdentificationSetAssociation)
unfolding read_at verify_and_cast
parse_associations xs start zero = parsed []
parse_associations xs start (suc n) = do
  x ← read_at xs start
  type ← verify_and_cast association_types x
  y ← read_at xs (suc start)
  value ← verify_and_cast association_set_values y
  associations ← parse_associations xs (suc (suc start)) n
  parsed (record { type = type; value = value } ∷ associations)

unfoldable pub parse_user_associations :
    List ℤ → ℕ → ℕ → Parsed (List UserIdentificationSetAssociation)
unfolding parse_associations
parse_user_associations xs start number = do
  require (not (ltb (length xs) ((start + number * 2) % 2 ^ 64)))
  resize number
  parse_associations xs start number

module _ {F : Type 0} where
  -- `verifyPropValue`; a number that is no property at all is an error as well.
  unfoldable pub verify_prop_value : VehiclePropValue F → ℕ → ℕ → Parsed (Unit {0})
  verify_prop_value v prop min = do
    require (v.prop == prop)
    require (not (ltb (length v.value.int32_values) min))

  unfoldable pub to_initial_user_info_request : VehiclePropValue F → Parsed InitialUserInfoRequest
  unfolding verify_prop_value verify_and_cast read_at parse_users_info
  to_initial_user_info_request v = do
    verify_prop_value v initial_user_info 2
    id ← read_at v.value.int32_values 0
    x ← read_at v.value.int32_values 1
    type ← verify_and_cast initial_user_info_request_types x
    users ← parse_users_info v.value.int32_values 2
    parsed (record { request_id = id; request_type = type; users_info = users })

  unfoldable pub to_switch_user_request : VehiclePropValue F → Parsed SwitchUserRequest
  unfolding verify_prop_value verify_and_cast read_at parse_user_info parse_users_info
  to_switch_user_request v = do
    verify_prop_value v switch_user 2
    x ← read_at v.value.int32_values 1
    type ← verify_and_cast switch_user_message_types x
    require (eqb_ℤ type (pos 1) || (eqb_ℤ type (pos 2) || eqb_ℤ type (pos 5)))
    id ← read_at v.value.int32_values 0
    target ← parse_user_info v.value.int32_values 2
    users ← parse_users_info v.value.int32_values 4
    parsed
        (record { request_id = id; message_type = type; target_user = target; users_info = users })

  unfoldable pub to_create_user_request : VehiclePropValue F → Parsed CreateUserRequest
  unfolding verify_prop_value read_at parse_user_info parse_users_info
  to_create_user_request v = do
    verify_prop_value v create_user 1
    id ← read_at v.value.int32_values 0
    user ← parse_user_info v.value.int32_values 1
    users ← parse_users_info v.value.int32_values 3
    parsed (record {
      request_id = id;
      new_user_info = user;
      new_user_name = v.value.string_value;
      users_info = users;
    })

  unfoldable pub to_remove_user_request : VehiclePropValue F → Parsed RemoveUserRequest
  unfolding verify_prop_value read_at parse_user_info parse_users_info
  to_remove_user_request v = do
    verify_prop_value v remove_user 1
    id ← read_at v.value.int32_values 0
    user ← parse_user_info v.value.int32_values 1
    users ← parse_users_info v.value.int32_values 3
    parsed (record { request_id = id; removed_user_info = user; users_info = users })

  unfoldable pub to_user_identification_get_request :
      VehiclePropValue F → Parsed UserIdentificationGetRequest
  unfolding verify_prop_value read_at parse_user_info parse_user_association_types
  to_user_identification_get_request v = do
    verify_prop_value v user_identification_association 4
    id ← read_at v.value.int32_values 0
    user ← parse_user_info v.value.int32_values 1
    number ← read_at v.value.int32_values 3
    types ← parse_user_association_types v.value.int32_values 4 (to_size number)
    parsed (record {
      request_id = id;
      user_info = user;
      number_association_types = number;
      association_types = types;
    })

  unfoldable pub to_user_identification_set_request :
      VehiclePropValue F → Parsed UserIdentificationSetRequest
  unfolding verify_prop_value read_at parse_user_info parse_user_associations
  to_user_identification_set_request v = do
    verify_prop_value v user_identification_association 4
    id ← read_at v.value.int32_values 0
    user ← parse_user_info v.value.int32_values 1
    number ← read_at v.value.int32_values 3
    associations ← parse_user_associations v.value.int32_values 4 (to_size number)
    parsed (record {
      request_id = id;
      user_info = user;
      number_associations = number;
      associations = associations;
    })
