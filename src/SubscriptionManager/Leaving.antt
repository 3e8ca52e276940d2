-- ===== src/SubscriptionManager/Leaving.antt =====
-- One client and one key of `unsubscribe` in SubscriptionManager.cpp.
use vhal_core.Prelude.{
  ℕ, ◌≡◌, refl, ◌∙◌, inl, inr, if_pos, if_neg, true, not, ◌&&◌, Option, none, some, List, [], ◌∷◌,
  ◌++◌, lookup, arith, ℕ_discrete, ltb, if◌then◌else◌, Bool-cases, length, is_empty,
}
use vhal_core.Prelude.Sets.{contains, contains-append}
use vhal_core.Prelude.Dict.{Dict, insert, remove, lookup-insert, lookup-remove}
use vhal_core.HalTypes.{StatusCode, ok}
use vhal_core.HalTypes.{PropIdAreaId, PropIdAreaId-discrete}
use vhal_core.Floats.{Floats}
use vhal_core.SubscriptionManager.{
  Callback, ContSubConfigs, HardwareCall, Manager, get_list, M, ◌>>◌, done, call_hardware,
  unsubscribes, remove_continuous_subscriber, remove_on_change_subscriber, drop_client,
  unsubscribe_key,
}
use vhal_core.SubscriptionManager.Clients.{
  is_client, is_subscribed, Keeps-if, bind-cases, Keeps-call_hardware, Keeps-done,
  Keeps-remove_continuous_subscriber,
}
use vhal_core.SubscriptionManager.Subscribing.{is_pair}
use vhal_core.SubscriptionManager.Progress.{IsStep}

lookup_empty : (c : ℕ) (m : Dict ℕ Callback) → is_empty m ≡ true → lookup ℕ_discrete c m ≡ none
unfolding lookup
lookup_empty c [] h = refl
lookup_empty c (e ∷ m) h = cc

module _ {F : Type 0} where
  -- The client is no client of these keys any more; the rest of the first index, and the second, stay.
  abbrev pub IsLeft : ℕ → List PropIdAreaId → Manager F → Manager F → Type 0
  IsLeft me ks s s' =
      (key : PropIdAreaId) (client : ℕ)
      → (is_client key client s' ≡ (is_client key client s && not (is_pair me ks key client)))
        × (is_subscribed client key s' ≡ is_subscribed client key s)

  -- The client loses these keys in both indices, and nothing else changes there.
  abbrev pub IsRemoved : ℕ → List PropIdAreaId → Manager F → Manager F → Type 0
  IsRemoved me ks s s' =
      (key : PropIdAreaId) (client : ℕ)
      → (is_client key client s' ≡ (is_client key client s && not (is_pair me ks key client)))
        × (is_subscribed client key s'
            ≡ (is_subscribed client key s && not (is_pair me ks key client)))

  pub IsLeft-append :
      (me : ℕ) (ks ls : List PropIdAreaId) (s s' s'' : Manager F)
      → IsLeft me ks s s'
      → IsLeft me ls s' s''
      → IsLeft me (ks ++ ls) s s''
  IsLeft-append me ks ls s s' s'' h h' key client =
      let (a, b) = h key client in
      let (a', b') = h' key client in
      let e = contains-append PropIdAreaId-discrete key ks ls in (ground (arith, e), b' ∙ b)

  pub IsRemoved-append :
      (me : ℕ) (ks ls : List PropIdAreaId) (s s' s'' : Manager F)
      → IsRemoved me ks s s'
      → IsRemoved me ls s' s''
      → IsRemoved me (ks ++ ls) s s''
  IsRemoved-append me ks ls s s' s'' h h' key client =
      let (a, b) = h key client in
      let (a', b') = h' key client in
      let e = contains-append PropIdAreaId-discrete key ks ls in
      (ground (arith, e), ground (arith, e))

  pub IsLeft-none :
      (me : ℕ) (s s' : Manager F)
      → s'.clients_by_key ≡ s.clients_by_key
      → s'.subscribed_by_client ≡ s.subscribed_by_client
      → IsLeft me [] s s'
  unfolding contains
  IsLeft-none me s s' p q key client = rw (p, q) (ground arith, refl)

  IsLeft-drop_client :
      (me : ℕ) (key : PropIdAreaId) (s : Manager F)
      → IsLeft me (key ∷ []) s (drop_client me key s).0
  unfolding drop_client contains lookup
  IsLeft-drop_client me key s k c =
      let clients = get_list (lookup PropIdAreaId-discrete key s.clients_by_key) in
      let left = remove ℕ_discrete me clients in
      let l = lookup-remove ℕ_discrete c me clients in
      elim (Bool-cases (is_empty left)) [
        | inl e ↦
            let n = lookup_empty c left e in
            rw e (
              rw (lookup-remove PropIdAreaId-discrete k key s.clients_by_key)
                  (elim (PropIdAreaId-discrete k key) [
                    | yes p ↦ rw (if_pos _ p, p) (ground (arith, l, n))
                    | no p ↦ rw (if_neg _ p) (ground arith)
                  ]),
              refl,
            )
        | inr e ↦ rw e (
          rw (lookup-insert PropIdAreaId-discrete k key left s.clients_by_key)
              (elim (PropIdAreaId-discrete k key) [
                | yes p ↦ rw (if_pos _ p, p) (ground (arith, l))
                | no p ↦ rw (if_neg _ p) (ground arith)
              ]),
          refl,
        )
      ]

  IsLeft-absent :
      (me : ℕ) (key : PropIdAreaId) (s : Manager F)
      → lookup PropIdAreaId-discrete key s.clients_by_key ≡ none
      → IsLeft me (key ∷ []) s s
  unfolding contains lookup
  IsLeft-absent me key s h k c = elim (PropIdAreaId-discrete k key) [
    | yes p ↦ (rw (p, h) (ground arith), refl)
    | no p ↦ (ground arith, refl)
  ]

  IsLeft-reinsert :
      (me : ℕ) (key : PropIdAreaId) (s : Manager F)
      → IsLeft me [] s (record s {
        clients_by_key =
            insert PropIdAreaId-discrete key
              (get_list (lookup PropIdAreaId-discrete key s.clients_by_key))
              s.clients_by_key;
      })
  unfolding contains
  IsLeft-reinsert me key s k c =
      let clients = get_list (lookup PropIdAreaId-discrete key s.clients_by_key) in
      (
        rw (lookup-insert PropIdAreaId-discrete k key clients s.clients_by_key)
            (elim (PropIdAreaId-discrete k key) [
              | yes p ↦ rw (if_pos _ p, p) (ground arith)
              | no p ↦ rw (if_neg _ p) (ground arith)
            ]),
        refl,
      )

module _ {F : Type 0} (f : Floats F) (hardware : List (HardwareCall F) → StatusCode) where
  remove_on_change_subscriber-IsLeft :
      (me : ℕ) (key : PropIdAreaId) (s : Manager F)
      → IsLeft me [] s (remove_on_change_subscriber hardware key s).0
  unfolding remove_on_change_subscriber
  remove_on_change_subscriber-IsLeft me key s =
      let clients = get_list (lookup PropIdAreaId-discrete key s.clients_by_key) in
      let s1 = record s {
        clients_by_key = insert PropIdAreaId-discrete key clients s.clients_by_key;
      } in
      let m = if ltb 1 (length clients) then done else call_hardware hardware (unsubscribes key) in
      let (p, q) =
        Keeps-if (ltb 1 (length clients)) done (call_hardware hardware (unsubscribes key))
          Keeps-done (Keeps-call_hardware hardware (unsubscribes key)) s1 in
      IsLeft-append me [] [] s s1 (m s1).0 (IsLeft-reinsert me key s)
        (IsLeft-none me s1 (m s1).0 p q)

  -- The end of both branches: the client is dropped once the hardware has agreed.
  drop-IsStep :
      (me : ℕ) (key : PropIdAreaId) (m : M F (Unit {0})) (s : Manager F)
      → IsLeft me [] s (m s).0
      → IsStep (IsLeft me) key s ((m >> drop_client me key) s)
  unfolding drop_client
  drop-IsStep me key m s h =
      bind-cases (IsStep (IsLeft me) key s) m (λ a. drop_client me key) s
        (λ a _.
          IsLeft-append me [] (key ∷ []) s (m s).0 (drop_client me key (m s).0).0 h
            (IsLeft-drop_client me key (m s).0))
        λ e _. h

  pub unsubscribe_key-IsStep :
      (me : ℕ) (key : PropIdAreaId) (s : Manager F)
      → IsStep (IsLeft me) key s (unsubscribe_key f hardware me key s)
  unfolding unsubscribe_key
  unsubscribe_key-IsStep me key s =
      go (lookup PropIdAreaId-discrete key s.configs_by_key)
        (lookup PropIdAreaId-discrete key s.clients_by_key) refl
    where
      go :
          (configs : Option (ContSubConfigs F))
          → (clients : Option (Dict ℕ Callback))
          → lookup PropIdAreaId-discrete key s.clients_by_key ≡ clients
          → IsStep (IsLeft me) key s (elim configs [
            | some c ↦ (remove_continuous_subscriber f hardware me key >> drop_client me key) s
            | none ↦ elim clients [
              | none ↦ (s, ok tt)
              | some cs ↦ (remove_on_change_subscriber hardware key >> drop_client me key) s
            ]
          ])
      go (some c) clients h =
          let (p, q) = Keeps-remove_continuous_subscriber f hardware me key s in
          drop-IsStep me key (remove_continuous_subscriber f hardware me key) s
            (IsLeft-none me s (remove_continuous_subscriber f hardware me key s).0 p q)
      go none none h = IsLeft-absent me key s h
      go none (some cs) h =
          drop-IsStep me key (remove_on_change_subscriber hardware key) s
            (remove_on_change_subscriber-IsLeft me key s)
