-- ===== src/SubscriptionManager/Consistency.antt =====
-- That the two indices of SubscriptionManager.cpp agree after each method, and what `unsubscribe`
-- achieves because of that.
use vhal_core.Prelude.{
  ℕ, ◌≡◌, refl, sym, ◌∙◌, ◌≢◌, ite, if_pos, if_neg, Bool, true, false, not, ◌||◌, Option, none,
  some, List, [], lookup, arith, ℕ_discrete,
}
use vhal_core.Prelude.Sets.{contains}
use vhal_core.Prelude.Dict.{keys, lookup-remove}
use vhal_core.HalTypes.{StatusCode, VhalResult, ok, err}
use vhal_core.HalTypes.{PropIdAreaId}
use vhal_core.Floats.{Floats}
use mathlib.Core.Path.{subst}
use mathlib.Core.List.{append-nil}
use vhal_core.SubscriptionManager.{
  Callback, HardwareCall, Manager, get_list, ◌>>◌, subscribe, SubscribeOptions, forget_client,
  unsubscribe_props, unsubscribe_each, unsubscribe_changes, unsubscribe_supported, unsubscribe,
}
use vhal_core.SubscriptionManager.Clients.{is_client, is_subscribed, bind-cases}
use vhal_core.SubscriptionManager.Subscribing.{subscribe-IsProgress}
use vhal_core.SubscriptionManager.Leaving.{IsLeft}
use vhal_core.SubscriptionManager.Unsubscribing.{
  unsubscribe_each-IsProgress, unsubscribe_props-IsProgress,
}
use vhal_core.SubscriptionManager.Frames.{Keeps-unsubscribe_supported}

module _ {F : Type 0} where
  -- A client of a key has the key in its set.
  abbrev pub IsConsistent : Manager F → Type 0
  IsConsistent s =
      (key : PropIdAreaId) (client : ℕ)
      → (not (is_client key client s) || is_subscribed client key s) ≡ true

  pub IsConsistent-keep :
      (s s' : Manager F)
      → s'.clients_by_key ≡ s.clients_by_key
      → s'.subscribed_by_client ≡ s.subscribed_by_client
      → IsConsistent s
      → IsConsistent s'
  IsConsistent-keep s s' p q c key client = rw (p, q) (c key client)

  -- The client is out of both indices, and nothing else changed there.
  abbrev pub IsGone : ℕ → Manager F → Manager F → Type 0
  IsGone me s s' =
      (key : PropIdAreaId) (client : ℕ)
      → (is_client key client s' ≡ ite (ℕ_discrete client me) false (is_client key client s))
        × (is_subscribed client key s'
            ≡ ite (ℕ_discrete client me) false (is_subscribed client key s))

  -- No other client changed in either index, the client is in no place where it was not, and each key
  -- under which it is left is in its set.
  abbrev pub IsPartlyGone : ℕ → Manager F → Manager F → Type 0
  IsPartlyGone me s s' =
      ((key : PropIdAreaId) (client : ℕ)
        → client ≢ me
        → (is_client key client s' ≡ is_client key client s)
          × (is_subscribed client key s' ≡ is_subscribed client key s))
      × ((key : PropIdAreaId)
          → ((not (is_client key me s') || is_client key me s) ≡ true)
            × ((not (is_subscribed me key s') || is_subscribed me key s) ≡ true)
            × ((not (is_client key me s') || is_subscribed me key s') ≡ true))

  IsPartlyGone-IsConsistent :
      (me : ℕ) (s s' : Manager F) → IsConsistent s → IsPartlyGone me s s' → IsConsistent s'
  IsPartlyGone-IsConsistent me s s' c (others, mine) key client = elim (ℕ_discrete client me) [
    | yes p ↦ rw p (mine key).2
    | no p ↦ let (a, b) = others key client p in rw (a, b) (c key client)
  ]

  IsGone-IsPartlyGone : (me : ℕ) (s s' : Manager F) → IsGone me s s' → IsPartlyGone me s s'
  IsGone-IsPartlyGone me s s' g = (
    λ key client p. let (a, b) = g key client in (ground (arith, a, p), ground (arith, b, p)),
    λ key.
        let (a, b) = g key me in
        let a' : is_client key me s' ≡ false = ground (arith, a) in
        let b' : is_subscribed me key s' ≡ false = ground (arith, b) in
        (rw a' refl, rw b' refl, rw a' refl),
  )

  IsLeft-IsPartlyGone :
      (me : ℕ) (ks : List PropIdAreaId) (s s' : Manager F)
      → IsConsistent s
      → IsLeft me ks s s'
      → IsPartlyGone me s s'
  IsLeft-IsPartlyGone me ks s s' c left = (
    λ key client p. let (a, b) = left key client in (ground (arith, a, p), b),
    λ key.
        let (a, b) = left key me in
        (ground (arith, a), ground (arith, b), ground (arith, a, b, c key me)),
  )

  -- What `unsubscribe` promises, by its result.
  abbrev pub IsOutcome : ℕ → Manager F → Manager F × VhalResult (Unit {0}) → Type 0
  IsOutcome me s (s', ok a) = IsGone me s s'
  IsOutcome me s (s', err e) = IsPartlyGone me s s'

module _ {F : Type 0} (f : Floats F) (hardware : List (HardwareCall F) → StatusCode) where
  pub subscribe-IsConsistent :
      (callback : Callback) (os : List (SubscribeOptions F)) (continuous : Bool) (s : Manager F)
      → IsConsistent s
      → IsConsistent (subscribe f hardware callback os continuous s).0
  subscribe-IsConsistent callback os continuous s c key client =
      let (before, _, _, r, _) = subscribe-IsProgress f hardware callback os continuous s in
      let (a, b) = r key client in ground (arith, a, b, c key client)

  pub unsubscribe_props-IsConsistent :
      (me : ℕ) (props : List ℕ) (s : Manager F)
      → IsConsistent s
      → IsConsistent (unsubscribe_props f hardware me props s).0
  unsubscribe_props-IsConsistent me props s c key client =
      let (before, _, _, r, _) = unsubscribe_props-IsProgress f hardware me props s in
      let (a, b) = r key client in ground (arith, a, b, c key client)

  IsGone-forget_client :
      (me : ℕ) (s s' : Manager F)
      → IsConsistent s
      → IsLeft me (get_list (lookup ℕ_discrete me s.subscribed_by_client)) s s'
      → IsGone me s (forget_client me s').0
  unfolding forget_client contains
  IsGone-forget_client me s s' c h key client =
      let (a, b) = h key client in
      (
        elim (ℕ_discrete client me) [
          | yes p ↦ rw (if_pos _ p, p) (ground (arith, (h key me).0, c key me))
          | no p ↦ rw (if_neg _ p) (ground (arith, a))
        ],
        rw (lookup-remove ℕ_discrete client me s'.subscribed_by_client)
            (elim (ℕ_discrete client me) [
              | yes p ↦ rw (if_pos _ p, if_pos _ p) refl
              | no p ↦ rw (if_neg _ p, if_neg _ p) b
            ]),
      )

  after_supported :
      (me : ℕ) (s s1 : Manager F) (x : Manager F × VhalResult (Unit {0}))
      → IsConsistent s
      → IsGone me s s1
      → x.0.clients_by_key ≡ s1.clients_by_key
      → x.0.subscribed_by_client ≡ s1.subscribed_by_client
      → IsOutcome me s x
  after_supported me s s1 (s', ok a) c gone q r = λ key client. rw (q, r) (gone key client)
  after_supported me s s1 (s', err e) c gone q r = rw (q, r) (IsGone-IsPartlyGone me s s1 gone)

  unsubscribe_changes-IsOutcome :
      (me : ℕ) (s : Manager F)
      → IsConsistent s
      → IsOutcome me s (unsubscribe_changes f hardware me s)
  unfolding unsubscribe_changes contains
  unsubscribe_changes-IsOutcome me s c = go (lookup ℕ_discrete me s.subscribed_by_client) refl
    where
      go :
          (o : Option (List PropIdAreaId))
          → lookup ℕ_discrete me s.subscribed_by_client ≡ o
          → IsOutcome me s (elim o [
            | none ↦ (s, ok tt)
            | some keys ↦ (unsubscribe_each f hardware me keys >> forget_client me) s
          ])
      go none h = λ key client. elim (ℕ_discrete client me) [
        | yes p ↦
            let n : is_subscribed me key s ≡ false = rw h refl in
            rw (if_pos _ p, if_pos _ p, p) (ground (arith, c key me, n), n)
        | no p ↦ rw (if_neg _ p, if_neg _ p) (refl, refl)
      ]
      go (some keys) h =
          let (before, after, split, left, fin) =
            unsubscribe_each-IsProgress f hardware me keys s in
          let s1 = (unsubscribe_each f hardware me keys s).0 in
          bind-cases (IsOutcome me s) (unsubscribe_each f hardware me keys) (λ a. forget_client me)
            s
            (λ a p. IsGone-forget_client me s s1 c (
              let e : after ≡ [] = rw p at fin in
              let whole : keys ≡ before = split ∙ (rw e (append-nil before)) in
              subst (λ ks. IsLeft me ks s s1) (sym whole ∙ rw h refl) left))
            λ e p. IsLeft-IsPartlyGone me before s s1 c left

  -- In a state where each key that has a client is in the client's set, a successful `unsubscribe` takes the client out of both indices and changes nothing else in them. After a failed one every other client stands in both indices as before, the client stands nowhere where it did not, and each key that still has it is in its set (the set may hold keys that it has left).
  pub unsubscribe-IsOutcome :
      (me : ℕ) (s : Manager F) → IsConsistent s → IsOutcome me s (unsubscribe f hardware me s)
  unfolding unsubscribe
  unsubscribe-IsOutcome me s c =
      let h = unsubscribe_changes-IsOutcome me s c in
      let s1 = (unsubscribe_changes f hardware me s).0 in
      bind-cases (IsOutcome me s) (unsubscribe_changes f hardware me)
        (λ a. unsubscribe_supported hardware me) s
        (λ a p.
          let gone : IsGone me s s1 = subst (λ r. IsOutcome me s (s1, r)) p h in
          let (q, r) = Keeps-unsubscribe_supported hardware me s1 in
          after_supported me s s1 (unsubscribe_supported hardware me s1) c gone q r)
        λ e p. subst (λ r. IsOutcome me s (s1, r)) p h

  pub unsubscribe-IsConsistent :
      (me : ℕ) (s : Manager F) → IsConsistent s → IsConsistent (unsubscribe f hardware me s).0
  unsubscribe-IsConsistent me s c = go (unsubscribe f hardware me s) (unsubscribe-IsOutcome me s c)
    where
      go : (x : Manager F × VhalResult (Unit {0})) → IsOutcome me s x → IsConsistent x.0
      go (s', ok a) h =
          λ key client. let (a, b) = h key client in ground (arith, a, b, c key client)
      go (s', err e) h = IsPartlyGone-IsConsistent me s s' c h
