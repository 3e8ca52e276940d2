-- ===== src/UserHal/Types.antt =====
-- The parcelables of the messages on users, and the results of reading them.
use vhal_core.Prelude.{ℕ, List, [], ◌∷◌}
use vhal_core.Prelude.Int.{ℤ, pos}

-- `Result<T>` of a reader, less the message; `fault` where it reads outside of the values, or resizes
-- a vector beyond what there can be, which throws.
pub data Parsed (A : Type 0) : Type 0 where
  parsed : A → Parsed A
  refused : Parsed A
  fault : Parsed A

infixl 5 ◌>>=◌ ◌>>◌
abbrev pub ◌>>=◌ : {A B : Type 0} → Parsed A → (A → Parsed B) → Parsed B
parsed a >>= k = k a
refused >>= k = refused
fault >>= k = fault

abbrev pub ◌>>◌ : {B : Type 0} → Parsed (Unit {0}) → Parsed B → Parsed B
m >> k = m >>= λ _. k

pub record UserInfo : Type 0 where
  pub user_id : ℤ
  pub flags : ℤ

pub record UsersInfo : Type 0 where
  pub current_user : UserInfo
  pub number_users : ℤ
  pub existing_users : List UserInfo

pub record InitialUserInfoRequest : Type 0 where
  pub request_id : ℤ
  pub request_type : ℤ
  pub users_info : UsersInfo

pub record SwitchUserRequest : Type 0 where
  pub request_id : ℤ
  pub message_type : ℤ
  pub target_user : UserInfo
  pub users_info : UsersInfo

pub record CreateUserRequest : Type 0 where
  pub request_id : ℤ
  pub new_user_info : UserInfo
  pub new_user_name : List ℕ
  pub users_info : UsersInfo

pub record RemoveUserRequest : Type 0 where
  pub request_id : ℤ
  pub removed_user_info : UserInfo
  pub users_info : UsersInfo

pub record UserIdentificationSetAssociation : Type 0 where
  pub type : ℤ
  pub value : ℤ

pub record UserIdentificationGetRequest : Type 0 where
  pub request_id : ℤ
  pub user_info : UserInfo
  pub number_association_types : ℤ
  pub association_types : List ℤ

pub record UserIdentificationSetRequest : Type 0 where
  pub request_id : ℤ
  pub user_info : UserInfo
  pub number_associations : ℤ
  pub associations : List UserIdentificationSetAssociation

-- The numbers of the properties, from VehicleProperty.aidl.
abbrev pub initial_user_info : ℕ
initial_user_info = 0x11e00f07

abbrev pub switch_user : ℕ
switch_user = 0x11e00f08

abbrev pub create_user : ℕ
create_user = 0x11e00f09

abbrev pub remove_user : ℕ
remove_user = 0x11e00f0a

abbrev pub user_identification_association : ℕ
user_identification_association = 0x11e00f0b

-- The numbers of the enums.
abbrev pub initial_user_info_request_types : List ℤ
initial_user_info_request_types = pos 0 ∷ pos 1 ∷ pos 2 ∷ pos 3 ∷ pos 4 ∷ []

abbrev pub switch_user_message_types : List ℤ
switch_user_message_types = pos 0 ∷ pos 1 ∷ pos 2 ∷ pos 3 ∷ pos 4 ∷ pos 5 ∷ []

abbrev pub association_types : List ℤ
association_types = pos 0 ∷ pos 1 ∷ pos 101 ∷ pos 102 ∷ pos 103 ∷ pos 104 ∷ []

abbrev pub association_set_values : List ℤ
association_set_values = pos 0 ∷ pos 1 ∷ pos 2 ∷ pos 3 ∷ []
