-- ===== src/SubscriptionManager/Unsubscribing.antt =====
-- `unsubscribe` of SubscriptionManager.cpp, from properties and from all, against the two indices.
use vhal_core.Prelude.{
  ℕ, ◌≡◌, refl, inl, inr, if_pos, if_neg, true, false, Option, none, some, List, [], ◌∷◌,
  if◌then◌else◌, lookup, arith, ℕ_discrete, Bool-cases, is_empty,
}
use vhal_core.Prelude.Sets.{
  contains, add, erase, IsUnique, contains-add, contains-erase, contains-append, add-IsUnique,
  erase-IsUnique,
}
use vhal_core.Prelude.Dict.{keys, lookup-insert, lookup-remove}
use vhal_core.HalTypes.{StatusCode, ok}
use vhal_core.HalTypes.{PropIdAreaId, PropIdAreaId-discrete}
use vhal_core.Floats.{Floats}
use vhal_core.Prelude.Sets
use mathlib.Core.Path.{subst}
use mathlib.Core.List.{append-nil}
use vhal_core.SubscriptionManager.{
  HardwareCall, Manager, get_list, ◌>>◌, unsubscribe_key, forget_key, forget_client,
  forget_if_empty, unsubscribe_keys, keys_of_props, unsubscribe_props, unsubscribe_each,
}
use vhal_core.SubscriptionManager.Clients.{is_subscribed, bind-cases}
use vhal_core.SubscriptionManager.Progress.{
  IsFinished, IsProgress, IsProgress-bind, IsStep, IsProgress-step,
}
use vhal_core.SubscriptionManager.Leaving.{
  IsLeft, IsRemoved, IsLeft-append, IsRemoved-append, IsLeft-none, unsubscribe_key-IsStep,
}

-- The specification: the keys, in their order, whose property is one of these.
abbrev pub keys_with : List ℕ → List PropIdAreaId → List PropIdAreaId
keys_with props [] = []
keys_with props (key ∷ keys) =
    if contains ℕ_discrete key.prop_id props
    then key ∷ keys_with props keys
    else keys_with props keys

keys_of_props_lem :
    (props : List ℕ) (keys : List PropIdAreaId) → keys_of_props props keys ≡ keys_with props keys
unfolding keys_of_props
keys_of_props_lem props [] = refl
keys_of_props_lem props (key ∷ keys) = elim (Bool-cases (contains ℕ_discrete key.prop_id props)) [
  | inl e ↦ rw (e, keys_of_props, keys_of_props_lem props keys) refl
  | inr e ↦ rw (e, keys_of_props, keys_of_props_lem props keys) refl
]

contains_empty :
    (key : PropIdAreaId) (ks : List PropIdAreaId)
    → is_empty ks ≡ true
    → contains PropIdAreaId-discrete key ks ≡ false
unfolding contains
contains_empty key [] h = refl
contains_empty key (k ∷ ks) h = cc

module _ {F : Type 0} where
  IsRemoved-forget_key :
      (me : ℕ) (key : PropIdAreaId) (s s' : Manager F)
      → IsLeft me (key ∷ []) s s'
      → IsRemoved me (key ∷ []) s (forget_key me key s').0
  unfolding forget_key contains
  IsRemoved-forget_key me key s s' h k c =
      let (a, b) = h k c in
      let ks = get_list (lookup ℕ_discrete me s'.subscribed_by_client) in
      let e = contains-erase PropIdAreaId-discrete k key ks in
      (
        a,
        rw
            (lookup-insert ℕ_discrete c me (Sets.erase PropIdAreaId-discrete key ks)
              s'.subscribed_by_client)
            (elim (ℕ_discrete c me) [
              | yes p ↦
                  let b' : is_subscribed me k s' ≡ is_subscribed me k s = rw p at b in
                  rw (if_pos _ p, p) (ground (arith, e, b'))
              | no p ↦ rw (if_neg _ p) (ground (arith, b))
            ]),
      )

  IsRemoved-none : (me : ℕ) (s : Manager F) → IsRemoved me [] s s
  unfolding contains
  IsRemoved-none me s k c = (ground arith, ground arith)

  IsLeft→IsRemoved : (me : ℕ) (s s' : Manager F) → IsLeft me [] s s' → IsRemoved me [] s s'
  unfolding contains
  IsLeft→IsRemoved me s s' h k c = let (a, b) = h k c in (a, ground (arith, b))

  IsRemoved-forget_if_empty : (me : ℕ) (s : Manager F) → IsRemoved me [] s (forget_if_empty me s).0
  unfolding forget_if_empty forget_client contains
  IsRemoved-forget_if_empty me s k c =
      let ks = get_list (lookup ℕ_discrete me s.subscribed_by_client) in
      elim (Bool-cases (is_empty ks)) [
        | inl e ↦
            let n = contains_empty k ks e in
            rw e (
              ground arith,
              rw (lookup-remove ℕ_discrete c me s.subscribed_by_client) (elim (ℕ_discrete c me) [
                | yes p ↦ rw (if_pos _ p, p) (ground (arith, n))
                | no p ↦ rw (if_neg _ p) (ground arith)
              ]),
            )
        | inr e ↦ rw e (ground arith, ground arith)
      ]

  finished : (me : ℕ) (s : Manager F) → IsFinished (forget_if_empty me s).1 []
  unfolding forget_if_empty forget_client
  finished me s =
      elim (Bool-cases (is_empty (get_list (lookup ℕ_discrete me s.subscribed_by_client)))) [
        | inl e ↦ rw e refl
        | inr e ↦ rw e refl
      ]

module _ {F : Type 0} (f : Floats F) (hardware : List (HardwareCall F) → StatusCode) where
  forget-IsStep :
      (me : ℕ) (key : PropIdAreaId) (s : Manager F)
      → IsStep (IsRemoved me) key s ((unsubscribe_key f hardware me key >> forget_key me key) s)
  unfolding forget_key
  forget-IsStep me key s =
      let h = unsubscribe_key-IsStep f hardware me key s in
      let s1 = (unsubscribe_key f hardware me key s).0 in
      bind-cases (IsStep (IsRemoved me) key s) (unsubscribe_key f hardware me key)
        (λ a. forget_key me key) s
        (λ a p.
          IsRemoved-forget_key me key s s1 (subst (λ r. IsStep (IsLeft me) key s (s1, r)) p h))
        λ e p. IsLeft→IsRemoved me s s1 (subst (λ r. IsStep (IsLeft me) key s (s1, r)) p h)

  unsubscribe_keys-IsProgress :
      (me : ℕ) (ks : List PropIdAreaId) (s : Manager F)
      → IsProgress (IsRemoved me) ks s (unsubscribe_keys f hardware me ks s)
  unfolding unsubscribe_keys
  unsubscribe_keys-IsProgress me [] s = ([], [], refl, IsRemoved-none me s, refl)
  unsubscribe_keys-IsProgress me (key ∷ ks) s =
      IsProgress-bind (IsRemoved me) (IsRemoved-append me) (key ∷ []) ks
        (unsubscribe_key f hardware me key >> forget_key me key) (unsubscribe_keys f hardware me ks)
        s
        (IsProgress-step (IsRemoved me) key s
          ((unsubscribe_key f hardware me key >> forget_key me key) s) (forget-IsStep me key s))
        (unsubscribe_keys-IsProgress me ks)

  pub unsubscribe_each-IsProgress :
      (me : ℕ) (ks : List PropIdAreaId) (s : Manager F)
      → IsProgress (IsLeft me) ks s (unsubscribe_each f hardware me ks s)
  unfolding unsubscribe_each
  unsubscribe_each-IsProgress me [] s = ([], [], refl, IsLeft-none me s s refl refl, refl)
  unsubscribe_each-IsProgress me (key ∷ ks) s =
      IsProgress-bind (IsLeft me) (IsLeft-append me) (key ∷ []) ks
        (unsubscribe_key f hardware me key) (unsubscribe_each f hardware me ks) s
        (IsProgress-step (IsLeft me) key s (unsubscribe_key f hardware me key s)
          (unsubscribe_key-IsStep f hardware me key s))
        (unsubscribe_each-IsProgress me ks)

  -- Whatever the hardware answers, `unsubscribe` from properties removes the client, in both indices, from the first of its keys of these properties, in their order, and from all of them when it succeeds; it changes nothing else in the indices.
  pub unsubscribe_props-IsProgress :
      (client : ℕ) (props : List ℕ) (s : Manager F)
      → IsProgress
          (IsRemoved client)
          (keys_with props (get_list (lookup ℕ_discrete client s.subscribed_by_client)))
          s
          (unsubscribe_props f hardware client props s)
  unfolding unsubscribe_props forget_if_empty keys_of_props
  unsubscribe_props-IsProgress client props s =
      let keys = get_list (lookup ℕ_discrete client s.subscribed_by_client) in
      subst (λ ks. IsProgress (IsRemoved client) ks s (unsubscribe_props f hardware client props s))
        (keys_of_props_lem props keys) (go (lookup ℕ_discrete client s.subscribed_by_client))
    where
      go :
          (o : Option (List PropIdAreaId))
          → IsProgress (IsRemoved client) (keys_of_props props (get_list o)) s (elim o [
            | none ↦ (s, ok tt)
            | some keys ↦
                (unsubscribe_keys f hardware client (keys_of_props props keys)
                    >> forget_if_empty client)
                  s
          ])
      go none = ([], [], refl, IsRemoved-none client s, refl)
      go (some keys) =
          let ks = keys_of_props props keys in
          let m = unsubscribe_keys f hardware client ks in
          subst (λ ls. IsProgress (IsRemoved client) ls s ((m >> forget_if_empty client) s))
            (append-nil ks)
            (IsProgress-bind (IsRemoved client) (IsRemoved-append client) ks [] m
              (forget_if_empty client) s (unsubscribe_keys-IsProgress client ks s)
              λ s'. ([], [], refl, IsRemoved-forget_if_empty client s', finished client s'))
