-- ===== src/UserHal/Layout.antt =====
-- The layout of the messages on users, and that the readers of UserHalHelper.cpp read exactly it.
use vhal_core.Prelude.{
  ℕ, zero, suc, ◌+◌, ◌^◌, ◌<◌, ◌≡◌, refl, ap, Bool, true, false, not, some, List, [], ◌∷◌, arith,
  ltb, length, get_elem?, All,
}
use vhal_core.Prelude.Int.{ℤ}
use vhal_core.VehicleUtils.{to_size}
use mathlib.Core.Path.{subst}
use vhal_core.UserHal.Types.{Parsed, parsed, refused, fault, ◌>>=◌, UserInfo, UsersInfo}
use vhal_core.UserHal.Parse.{
  read_at, require, resize, are_user_flags, parse_user_info, parse_existing_users, parse_users_info,
}

-- The values from the place `i` on begin with `ys`.
abbrev pub Holds : List ℤ → ℕ → List ℤ → Type 0
Holds xs i [] = Unit {0}
Holds xs i (y ∷ ys) = (get_elem? xs i ≡ some y) × Holds xs (suc i) ys

abbrev pub encode_user : UserInfo → List ℤ → List ℤ
encode_user u rest = u.user_id ∷ u.flags ∷ rest

abbrev pub encode_each : List UserInfo → List ℤ
encode_each [] = []
encode_each (u ∷ us) = encode_user u (encode_each us)

abbrev pub encode_users : UsersInfo → List ℤ
encode_users u = encode_user u.current_user (u.number_users ∷ encode_each u.existing_users)

abbrev pub IsUser : UserInfo → Type 0
IsUser u = are_user_flags u.flags ≡ true

-- The number of the other users is right, and a vector can be that long.
abbrev pub IsUsers : UsersInfo → Type 0
IsUsers u =
    IsUser u.current_user
    × All IsUser u.existing_users
    × (to_size u.number_users ≡ length u.existing_users)
    × (length u.existing_users < 2 ^ 60)

-- Inversion of a step, and the step forth.
module _ {A B : Type 0} (m : Parsed A) (k : A → Parsed B) where
  pub >>=-eq-parsed : {b : B} → (m >>= k) ≡ parsed b → (a : A) × (m ≡ parsed a) × (k a ≡ parsed b)
  >>=-eq-parsed {b} h = go m h
    where
      go : (n : Parsed A) → (n >>= k) ≡ parsed b → (a : A) × (n ≡ parsed a) × (k a ≡ parsed b)
      go (parsed a) e = (a, refl, e)
      go refused e = cc
      go fault e = cc

  >>=-parsed : (a : A) {b : B} → m ≡ parsed a → k a ≡ parsed b → (m >>= k) ≡ parsed b
  >>=-parsed a e h = rw e h

pub parsed-injective : {A : Type 0} {a b : A} → parsed a ≡ parsed b → a ≡ b
parsed-injective h = cc

pub require-eq : (b : Bool) {u : Unit {0}} → require b ≡ parsed u → b ≡ true
require-eq true h = refl
require-eq false h = cc

resize-lt : (n m : ℕ) {u : Unit {0}} → resize n ≡ parsed u → n ≡ m → m < 2 ^ 60
resize-lt n m h e = ground arith

resize-parsed : (n : ℕ) → n < 2 ^ 60 → resize n ≡ parsed tt
resize-parsed n h = ground arith

pub read_at-eq : (xs : List ℤ) (i : ℕ) {x : ℤ} → read_at xs i ≡ parsed x → get_elem? xs i ≡ some x
unfolding read_at
read_at-eq xs i h = ground arith

pub read_at-some : (xs : List ℤ) (i : ℕ) {x : ℤ} → get_elem? xs i ≡ some x → read_at xs i ≡ parsed x
unfolding read_at
read_at-some xs i h = rw (h, read_at) refl

pub get_elem?-lt :
    {A : Type 0} (xs : List A) (i : ℕ) {x : A} → get_elem? xs i ≡ some x → i < length xs
get_elem?-lt [] i h = cc
get_elem?-lt (y ∷ xs) zero h = omega arith
get_elem?-lt (y ∷ xs) (suc i) h = omega (arith, get_elem?-lt xs i h)

module _ (xs : List ℤ) where
  pub parse_user_info-eq :
      (i : ℕ) (u : UserInfo)
      → parse_user_info xs i ≡ parsed u
      → Holds xs i (encode_user u []) × IsUser u
  unfolding parse_user_info
  parse_user_info-eq i u h =
      let (t, e, h1) = >>=-eq-parsed (require (not (ltb (length xs) (i + 2)))) _ h in
      let (id, e1, h2) = >>=-eq-parsed (read_at xs i) _ h1 in
      let (flags, e2, h3) = >>=-eq-parsed (read_at xs (suc i)) _ h2 in
      let (t', e3, h4) = >>=-eq-parsed (require (are_user_flags flags)) _ h3 in
      let valid = require-eq (are_user_flags flags) e3 in
      let first = read_at-eq xs i e1 in
      let second = read_at-eq xs (suc i) e2 in
      subst (λ w. Holds xs i (encode_user w []) × IsUser w) (parsed-injective h4)
        ((first, (second, tt)), valid)

  pub parse_user_info-parsed :
      (i : ℕ) (u : UserInfo)
      → Holds xs i (encode_user u [])
      → IsUser u
      → parse_user_info xs i ≡ parsed u
  unfolding parse_user_info
  parse_user_info-parsed i u (first, (second, end)) valid =
      let long : not (ltb (length xs) (i + 2)) ≡ true =
        let k = get_elem?-lt xs (suc i) second in ground (arith, k) in
      rw (long, read_at-some xs i first, read_at-some xs (suc i) second, valid) refl

  -- The loop over the other users.
  parse_existing_users-eq :
      (i n : ℕ) (us : List UserInfo)
      → parse_existing_users xs i n ≡ parsed us
      → Holds xs i (encode_each us) × All IsUser us × (n ≡ length us)
  unfolding parse_existing_users
  parse_existing_users-eq i zero us h =
      subst (λ ws. Holds xs i (encode_each ws) × All IsUser ws × (0 ≡ length ws))
        (parsed-injective h) (tt, tt, refl)
  parse_existing_users-eq i (suc n) us h =
      let (u, e, h1) = >>=-eq-parsed (parse_user_info xs i) _ h in
      let (rest, e1, h2) = >>=-eq-parsed (parse_existing_users xs (suc (suc i)) n) _ h1 in
      let ((first, (second, end)), valid) = parse_user_info-eq i u e in
      let (held, others, same) = parse_existing_users-eq (suc (suc i)) n rest e1 in
      subst (λ ws. Holds xs i (encode_each ws) × All IsUser ws × (suc n ≡ length ws))
        (parsed-injective h2) ((first, (second, held)), (valid, others), ap suc same)

  parse_existing_users-parsed :
      (i : ℕ) (us : List UserInfo)
      → Holds xs i (encode_each us)
      → All IsUser us
      → parse_existing_users xs i (length us) ≡ parsed us
  unfolding parse_existing_users
  parse_existing_users-parsed i [] h v = refl
  parse_existing_users-parsed i (u ∷ us) (first, (second, rest)) (v, vs) =
      rw
        (
          parse_user_info-parsed i u (first, (second, tt)) v,
          parse_existing_users-parsed (suc (suc i)) us rest vs,
        )
        refl

  pub parse_users_info-eq :
      (i : ℕ) (u : UsersInfo)
      → parse_users_info xs i ≡ parsed u
      → Holds xs i (encode_users u) × IsUsers u
  unfolding parse_users_info
  parse_users_info-eq i u h =
      let (t, e, h1) = >>=-eq-parsed (require (not (ltb (length xs) (i + 3)))) _ h in
      let (current, e1, h2) = >>=-eq-parsed (parse_user_info xs i) _ h1 in
      let (number, e2, h3) = >>=-eq-parsed (read_at xs (suc (suc i))) _ h2 in
      let (t', e3, h4) = >>=-eq-parsed (resize (to_size number)) _ h3 in
      let (existing, e4, h5) =
        >>=-eq-parsed (parse_existing_users xs (suc (suc (suc i))) (to_size number)) _ h4 in
      let ((first, (second, end)), valid) = parse_user_info-eq i current e1 in
      let (held, others, same) =
        parse_existing_users-eq (suc (suc (suc i))) (to_size number) existing e4 in
      let short : length existing < 2 ^ 60 = resize-lt (to_size number) (length existing) e3 same in
      subst (λ w. Holds xs i (encode_users w) × IsUsers w) (parsed-injective h5)
        ((first, (second, (read_at-eq xs (suc (suc i)) e2, held))), (valid, others, same, short))

  pub parse_users_info-parsed :
      (i : ℕ) (u : UsersInfo)
      → Holds xs i (encode_users u)
      → IsUsers u
      → parse_users_info xs i ≡ parsed u
  unfolding parse_users_info
  parse_users_info-parsed i u (first, (second, (third, held))) (valid, others, same, short) =
      let long : not (ltb (length xs) (i + 3)) ≡ true =
        let k = get_elem?-lt xs (suc (suc i)) third in ground (arith, k) in
      rw
        (
          long,
          parse_user_info-parsed i u.current_user (first, (second, tt)) valid,
          read_at-some xs (suc (suc i)) third,
        )
        (rw
          (
            same,
            resize-parsed (length u.existing_users) short,
            parse_existing_users-parsed (suc (suc (suc i))) u.existing_users held others,
          )
          refl)
