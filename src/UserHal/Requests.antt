-- ===== src/UserHal/Requests.antt =====
-- That the readers of UserHalHelper.cpp accept exactly the messages of the layout, and read what they
-- hold.
use vhal_core.Prelude.{
  ℕ, suc, ◌≡◌, refl, sym, ap, ◌∙◌, ◌↔◌, ◌⊎◌, inl, inr, Bool, true, not, ◌||◌, some, List, ◌∷◌,
  arith, ℕ_discrete, ltb, ◌==◌, Bool-cases, length, get_elem?,
}
use vhal_core.Prelude.Int.{ℤ, pos, ℤ_discrete, eqb_ℤ, eq_of_eqb_ℤ}
use vhal_core.Prelude.Sets.{contains}
use mathlib.Core.Path.{subst}
use vhal_core.HalTypes.{VehiclePropValue}
use vhal_core.UserHal.Types.{
  parsed, InitialUserInfoRequest, SwitchUserRequest, CreateUserRequest, RemoveUserRequest,
  initial_user_info, switch_user, create_user, remove_user, initial_user_info_request_types,
  switch_user_message_types,
}
use vhal_core.UserHal.Parse.{
  read_at, require, verify_and_cast, parse_user_info, parse_users_info, verify_prop_value,
  to_initial_user_info_request, to_switch_user_request, to_create_user_request,
  to_remove_user_request,
}
use vhal_core.UserHal.Layout.{
  Holds, encode_user, encode_users, IsUser, IsUsers, >>=-eq-parsed, parsed-injective, require-eq,
  read_at-eq, read_at-some, get_elem?-lt, parse_user_info-eq, parse_user_info-parsed,
  parse_users_info-eq, parse_users_info-parsed,
}

module _ {F : Type 0} (v : VehiclePropValue F) where
  abbrev xs : List ℤ
  xs = v.value.int32_values

  -- A message holds a request: the property, the values, and what the readers check.
  abbrev pub HoldsInitialUserInfo : InitialUserInfoRequest → Type 0
  HoldsInitialUserInfo r =
      (v.prop ≡ initial_user_info)
      × Holds v.value.int32_values 0 (r.request_id ∷ r.request_type ∷ encode_users r.users_info)
      × (contains ℤ_discrete r.request_type initial_user_info_request_types ≡ true)
      × IsUsers r.users_info

  abbrev pub HoldsCreateUser : CreateUserRequest → Type 0
  HoldsCreateUser r =
      (v.prop ≡ create_user)
      × Holds v.value.int32_values 0
          (r.request_id ∷ encode_user r.new_user_info (encode_users r.users_info))
      × (v.value.string_value ≡ r.new_user_name)
      × IsUser r.new_user_info
      × IsUsers r.users_info

  abbrev pub HoldsRemoveUser : RemoveUserRequest → Type 0
  HoldsRemoveUser r =
      (v.prop ≡ remove_user)
      × Holds v.value.int32_values 0
          (r.request_id ∷ encode_user r.removed_user_info (encode_users r.users_info))
      × IsUser r.removed_user_info
      × IsUsers r.users_info

  -- Of the types of SWITCH_USER only those that Android sends.
  abbrev pub HoldsSwitchUser : SwitchUserRequest → Type 0
  HoldsSwitchUser r =
      (v.prop ≡ switch_user)
      × Holds v.value.int32_values 0
          (r.request_id ∷ r.message_type ∷ encode_user r.target_user (encode_users r.users_info))
      × ((r.message_type ≡ pos 1) ⊎ ((r.message_type ≡ pos 2) ⊎ (r.message_type ≡ pos 5)))
      × IsUser r.target_user
      × IsUsers r.users_info

  verify_prop_value-eq :
      (prop n : ℕ) {u : Unit {0}} → verify_prop_value v prop n ≡ parsed u → v.prop ≡ prop
  unfolding verify_prop_value
  verify_prop_value-eq prop n h =
      let (t, e, h1) = >>=-eq-parsed (require (v.prop == prop)) _ h in
      let k = require-eq (v.prop == prop) e in ground (arith, k)

  verify_prop_value-parsed :
      (prop n : ℕ) {x : ℤ}
      → v.prop ≡ prop
      → get_elem? xs n ≡ some x
      → verify_prop_value v prop (suc n) ≡ parsed tt
  unfolding verify_prop_value
  verify_prop_value-parsed prop n e h =
      let same : (v.prop == prop) ≡ true = ground arith in
      let long : not (ltb (length xs) (suc n)) ≡ true =
        let k = get_elem?-lt xs n h in ground (arith, k) in
      rw (same, long) refl

  verify_and_cast-eq :
      (numbers : List ℤ) (x y : ℤ)
      → verify_and_cast numbers x ≡ parsed y
      → (x ≡ y) × (contains ℤ_discrete x numbers ≡ true)
  unfolding verify_and_cast
  verify_and_cast-eq numbers x y h = ground arith

  verify_and_cast-parsed :
      (numbers : List ℤ) (x : ℤ)
      → contains ℤ_discrete x numbers ≡ true
      → verify_and_cast numbers x ≡ parsed x
  unfolding verify_and_cast
  verify_and_cast-parsed numbers x h = rw (h, verify_and_cast) refl

  create_user_lem :
      (r : CreateUserRequest) → (to_create_user_request v ≡ parsed r) ↔ HoldsCreateUser r
  unfolding to_create_user_request
  create_user_lem r = (
    λ h.
        let (t, e, h1) = >>=-eq-parsed (verify_prop_value v create_user 1) _ h in
        let (id, e1, h2) = >>=-eq-parsed (read_at xs 0) _ h1 in
        let (user, e2, h3) = >>=-eq-parsed (parse_user_info xs 1) _ h2 in
        let (users, e3, h4) = >>=-eq-parsed (parse_users_info xs 3) _ h3 in
        let ((first, (second, end)), valid) = parse_user_info-eq xs 1 user e2 in
        let (held, valids) = parse_users_info-eq xs 3 users e3 in
        subst HoldsCreateUser (parsed-injective h4) (
          verify_prop_value-eq create_user 1 e,
          (read_at-eq xs 0 e1, (first, (second, held))),
          refl,
          valid,
          valids,
        ),
    λ (prop, (id, (first, (second, held))), name, valid, valids).
        rw
          (
            verify_prop_value-parsed create_user 0 prop id,
            read_at-some xs 0 id,
            parse_user_info-parsed xs 1 r.new_user_info (first, (second, tt)) valid,
            parse_users_info-parsed xs 3 r.users_info held valids,
            name,
          )
          refl,
  )

  remove_user_lem :
      (r : RemoveUserRequest) → (to_remove_user_request v ≡ parsed r) ↔ HoldsRemoveUser r
  unfolding to_remove_user_request
  remove_user_lem r = (
    λ h.
        let (t, e, h1) = >>=-eq-parsed (verify_prop_value v remove_user 1) _ h in
        let (id, e1, h2) = >>=-eq-parsed (read_at xs 0) _ h1 in
        let (user, e2, h3) = >>=-eq-parsed (parse_user_info xs 1) _ h2 in
        let (users, e3, h4) = >>=-eq-parsed (parse_users_info xs 3) _ h3 in
        let ((first, (second, end)), valid) = parse_user_info-eq xs 1 user e2 in
        let (held, valids) = parse_users_info-eq xs 3 users e3 in
        subst HoldsRemoveUser (parsed-injective h4) (
          verify_prop_value-eq remove_user 1 e,
          (read_at-eq xs 0 e1, (first, (second, held))),
          valid,
          valids,
        ),
    λ (prop, (id, (first, (second, held))), valid, valids).
        rw
          (
            verify_prop_value-parsed remove_user 0 prop id,
            read_at-some xs 0 id,
            parse_user_info-parsed xs 1 r.removed_user_info (first, (second, tt)) valid,
            parse_users_info-parsed xs 3 r.users_info held valids,
          )
          refl,
  )

  initial_user_info_lem :
      (r : InitialUserInfoRequest)
      → (to_initial_user_info_request v ≡ parsed r) ↔ HoldsInitialUserInfo r
  unfolding to_initial_user_info_request
  initial_user_info_lem r = (
    λ h.
        let (t, e, h1) = >>=-eq-parsed (verify_prop_value v initial_user_info 2) _ h in
        let (id, e1, h2) = >>=-eq-parsed (read_at xs 0) _ h1 in
        let (x, e2, h3) = >>=-eq-parsed (read_at xs 1) _ h2 in
        let (type, e3, h4) =
          >>=-eq-parsed (verify_and_cast initial_user_info_request_types x) _ h3 in
        let (users, e4, h5) = >>=-eq-parsed (parse_users_info xs 2) _ h4 in
        let (same, known) = verify_and_cast-eq initial_user_info_request_types x type e3 in
        let (held, valids) = parse_users_info-eq xs 2 users e4 in
        subst HoldsInitialUserInfo (parsed-injective h5) (
          verify_prop_value-eq initial_user_info 2 e,
          (read_at-eq xs 0 e1, (read_at-eq xs 1 e2 ∙ ap some same, held)),
          ap (λ y. contains ℤ_discrete y initial_user_info_request_types) (sym same) ∙ known,
          valids,
        ),
    λ (prop, (id, (type, held)), known, valids).
        rw
          (
            verify_prop_value-parsed initial_user_info 1 prop type,
            read_at-some xs 0 id,
            read_at-some xs 1 type,
            verify_and_cast-parsed initial_user_info_request_types r.request_type known,
            parse_users_info-parsed xs 2 r.users_info held valids,
          )
          refl,
  )

  -- Of the enum's numbers only three are sent by Android.
  sent_by_android : ℤ → Bool
  sent_by_android t = eqb_ℤ t (pos 1) || (eqb_ℤ t (pos 2) || eqb_ℤ t (pos 5))

  sent_by_android-eq :
      (t : ℤ) → sent_by_android t ≡ true → (t ≡ pos 1) ⊎ ((t ≡ pos 2) ⊎ (t ≡ pos 5))
  unfolding sent_by_android
  sent_by_android-eq t h = elim (Bool-cases (eqb_ℤ t (pos 1))) [
    | inl e ↦ inl (eq_of_eqb_ℤ t (pos 1) e)
    | inr e ↦ elim (Bool-cases (eqb_ℤ t (pos 2))) [
      | inl e' ↦ inr (inl (eq_of_eqb_ℤ t (pos 2) e'))
      | inr e' ↦ inr (inr (eq_of_eqb_ℤ t (pos 5) (ground (arith, e, e', h))))
    ]
  ]

  -- Such a number is one of the enum's.
  android_message :
      (t : ℤ)
      → (t ≡ pos 1) ⊎ ((t ≡ pos 2) ⊎ (t ≡ pos 5))
      → (contains ℤ_discrete t switch_user_message_types ≡ true) × (sent_by_android t ≡ true)
  unfolding sent_by_android contains ℤ_discrete ℕ_discrete
  android_message t (inl e) = rw e (refl, refl)
  android_message t (inr (inl e)) = rw e (refl, refl)
  android_message t (inr (inr e)) = rw e (refl, refl)

  switch_user_lem :
      (r : SwitchUserRequest) → (to_switch_user_request v ≡ parsed r) ↔ HoldsSwitchUser r
  unfolding to_switch_user_request sent_by_android
  switch_user_lem r = (
    λ h.
        let (t, e, h1) = >>=-eq-parsed (verify_prop_value v switch_user 2) _ h in
        let (x, e1, h2) = >>=-eq-parsed (read_at xs 1) _ h1 in
        let (type, e2, h3) = >>=-eq-parsed (verify_and_cast switch_user_message_types x) _ h2 in
        let (t', e3, h4) = >>=-eq-parsed (require (sent_by_android type)) _ h3 in
        let (id, e4, h5) = >>=-eq-parsed (read_at xs 0) _ h4 in
        let (user, e5, h6) = >>=-eq-parsed (parse_user_info xs 2) _ h5 in
        let (users, e6, h7) = >>=-eq-parsed (parse_users_info xs 4) _ h6 in
        let (same, known) = verify_and_cast-eq switch_user_message_types x type e2 in
        let ((first, (second, end)), valid) = parse_user_info-eq xs 2 user e5 in
        let (held, valids) = parse_users_info-eq xs 4 users e6 in
        subst HoldsSwitchUser (parsed-injective h7) (
          verify_prop_value-eq switch_user 2 e,
          (read_at-eq xs 0 e4, (read_at-eq xs 1 e1 ∙ ap some same, (first, (second, held)))),
          sent_by_android-eq type (require-eq (sent_by_android type) e3),
          valid,
          valids,
        ),
    λ (prop, (id, (type, (first, (second, held)))), android, valid, valids).
        let (known, sent) = android_message r.message_type android in
        rw
          (
            verify_prop_value-parsed switch_user 1 prop type,
            read_at-some xs 1 type,
            verify_and_cast-parsed switch_user_message_types r.message_type known,
            sent,
            read_at-some xs 0 id,
            parse_user_info-parsed xs 2 r.target_user (first, (second, tt)) valid,
            parse_users_info-parsed xs 4 r.users_info held valids,
          )
          refl,
  )

-- Each of the four readers of requests accepts a value and reads a request from it exactly if the value is of the reader's property and begins with the encoding of that request, its users and their number included, with flags and types that are valid; for SWITCH_USER the type is one of the three that Android sends. So what is encoded is read back, and nothing else is read.
pub to_request_lem :
    {F : Type 0} (v : VehiclePropValue F)
    → ((r : InitialUserInfoRequest)
        → (to_initial_user_info_request v ≡ parsed r) ↔ HoldsInitialUserInfo v r)
      × ((r : SwitchUserRequest) → (to_switch_user_request v ≡ parsed r) ↔ HoldsSwitchUser v r)
      × ((r : CreateUserRequest) → (to_create_user_request v ≡ parsed r) ↔ HoldsCreateUser v r)
      × ((r : RemoveUserRequest) → (to_remove_user_request v ≡ parsed r) ↔ HoldsRemoveUser v r)
to_request_lem v =
    (initial_user_info_lem v, switch_user_lem v, create_user_lem v, remove_user_lem v)
