-- ===== src/DefaultVehicleHal/Dispatch.antt =====
-- What `getValues` and `setValues` do with the requests that have passed their checks.
use vhal_core.Prelude.{
  ℕ, ◌≡◌, refl, sym, ap, none, ◌∙◌, ◌⊎◌, inl, inr, ite, Bool, true, false, not, ◌&&◌, ◌||◌, some,
  List, [], ◌∷◌, lookup, arith, ℕ_discrete, if◌then◌else◌, Bool-cases, Option-cases, is_empty,
}
use vhal_core.Prelude.Int.{ℤ}
use vhal_core.Prelude.Sets.{contains}
use vhal_core.Prelude.Dict.{lookup-insert_same}
use vhal_core.HalTypes.{StatusCode, VhalResult, ok, err}
use vhal_core.HalTypes.{ok_code}
use vhal_core.PendingRequestPool.{PendingRequestPool, add_requests, is_request_pending}
use vhal_core.PendingRequestPool.Add.{
  is_request_pending-add_requests, is_request_pending-add_requests_err,
}
use vhal_core.PendingRequestPool.Finish.{try_finish_requests_lem}
use vhal_core.PendingRequestPool.{try_finish_requests}
use mathlib.Core.Path.{subst}
use vhal_core.SubscriptionManager.{Callback}
use vhal_core.ConnectedClient.{
  GetSetValuesClient, add_client_requests, try_finish_client_requests, id_set,
}
use vhal_core.ConnectedClient.Results.{
  has_id, contains-id_set, with_ids, get_or_set_values_callback_lem,
}
use vhal_core.DefaultVehicleHal.State.{
  Status, success, transaction_failed, service_specific, Kind, for_get, for_set, ValueCall, Sent,
  Hardware, Outside, Vhal,
}
use vhal_core.DefaultVehicleHal.Requests.{
  monitor_binder_life_cycle, clients_of, get_or_create_client, deliver_batch, deliver_batches,
  after_call, call_values, hand_over, register_requests, dispatch,
}

module _ {F : Type 0} where
  -- Nothing has been promised, sent or asked of the hardware.
  abbrev pub Untouched : Vhal F → Vhal F → Type 0
  Untouched s s' =
      (s'.pending_request_pool ≡ s.pending_request_pool)
      × (s'.sent ≡ s.sent)
      × (s'.value_calls ≡ s.value_calls)

  pub monitor_binder_life_cycle-Untouched :
      (out : Outside) (client : ℕ) (s : Vhal F)
      → Untouched s (monitor_binder_life_cycle out client s).0
  unfolding monitor_binder_life_cycle
  monitor_binder_life_cycle-Untouched out client s =
      elim (Bool-cases (contains ℕ_discrete client s.on_binder_died_contexts)) [
        | inl e ↦ rw (e, monitor_binder_life_cycle) (refl, refl, refl)
        | inr e ↦ rw (e, monitor_binder_life_cycle) (refl, refl, refl)
      ]

  -- The client is then the one in the map.
  pub get_or_create_client_lem :
      (out : Outside) (kind : Kind) (callback : Callback) (s : Vhal F)
      → let (s', client) = get_or_create_client out kind callback s in
        Untouched s s' × (lookup ℕ_discrete callback.binder (clients_of kind s') ≡ some client)
  unfolding get_or_create_client
  get_or_create_client_lem out for_get callback s =
      elim (Option-cases (lookup ℕ_discrete callback.binder s.get_values_clients)) [
        | inl e ↦
            rw (e, get_or_create_client)
              (
                (refl, refl, refl),
                lookup-insert_same ℕ_discrete callback.binder _ s.get_values_clients,
              )
        | inr (client, e) ↦ rw (e, get_or_create_client) ((refl, refl, refl), e)
      ]
  get_or_create_client_lem out for_set callback s =
      elim (Option-cases (lookup ℕ_discrete callback.binder s.set_values_clients)) [
        | inl e ↦
            rw (e, get_or_create_client)
              (
                (refl, refl, refl),
                lookup-insert_same ℕ_discrete callback.binder _ s.set_values_clients,
              )
        | inr (client, e) ↦ rw (e, get_or_create_client) ((refl, refl, refl), e)
      ]

  -- It is the one that was there, if there was one.
  abbrev pub IsKept : Kind → Callback → Vhal F → GetSetValuesClient → Type 0
  IsKept kind callback s client =
      (lookup ℕ_discrete callback.binder (clients_of kind s) ≡ some client)
      ⊎ (lookup ℕ_discrete callback.binder (clients_of kind s) ≡ none)

  get_or_create_client-IsKept :
      (out : Outside) (kind : Kind) (callback : Callback) (s : Vhal F)
      → IsKept kind callback s (get_or_create_client out kind callback s).1
  unfolding get_or_create_client
  get_or_create_client-IsKept out kind callback s =
      elim (Option-cases (lookup ℕ_discrete callback.binder (clients_of kind s))) [
        | inl e ↦ inr e
        | inr (client, e) ↦ inl (e ∙ (rw (e, get_or_create_client) refl))
      ]

  monitor_binder_life_cycle-clients_of :
      (out : Outside) (kind : Kind) (client : ℕ) (s : Vhal F)
      → clients_of kind (monitor_binder_life_cycle out client s).0 ≡ clients_of kind s
  unfolding monitor_binder_life_cycle
  monitor_binder_life_cycle-clients_of out for_get client s =
      elim (Bool-cases (contains ℕ_discrete client s.on_binder_died_contexts)) [
        | inl e ↦ rw (e, monitor_binder_life_cycle) refl
        | inr e ↦ rw (e, monitor_binder_life_cycle) refl
      ]
  monitor_binder_life_cycle-clients_of out for_set client s =
      elim (Bool-cases (contains ℕ_discrete client s.on_binder_died_contexts)) [
        | inl e ↦ rw (e, monitor_binder_life_cycle) refl
        | inr e ↦ rw (e, monitor_binder_life_cycle) refl
      ]

  -- What is pending.
  abbrev pub is_pending : ℕ → ℤ → Vhal F → Bool
  is_pending c i s = is_request_pending c i s.pending_request_pool

pub VhalResult-cases : (r : VhalResult (Unit {0})) → (r ≡ ok tt) ⊎ ((e : StatusCode) × (r ≡ err e))
VhalResult-cases (ok a) = inl refl
VhalResult-cases (err e) = inr (e, refl)

-- `StatusCode::OK`, and the status that another code is returned as.
abbrev pub is_ok_code : StatusCode → Bool
is_ok_code ok_code = true
is_ok_code _ = false

abbrev pub status_of : StatusCode → Status
status_of ok_code = success
status_of e = service_specific e

finished_twice :
    (c a : ℕ) (p h x : Bool)
    → ((p && not (ite (ℕ_discrete c a) h false)) && not (ite (ℕ_discrete c a) x false))
      ≡ (p && not (ite (ℕ_discrete c a) (h || x) false))
finished_twice c a p h x = ground arith

module _ {F R S : Type 0} (hw : Hardware F) (out : Outside) (kind : Kind) (id_of : R → ℤ)
    (id_of_result : S → ℤ) (call : GetSetValuesClient → List R → ValueCall F)
    (results : ℕ → List S → Sent F) (before_return : List (ValueCall F) → List (List S)) where
  -- One of the batches has a result with the ID.
  abbrev pub is_answered : List (List S) → ℤ → Bool
  is_answered [] i = false
  is_answered (b ∷ bs) i = has_id id_of_result i b || is_answered bs i

  -- The messages for the batches, on top of those before: of each batch the results whose IDs are
  -- waited for and have not been answered by an earlier batch.
  abbrev pub with_answers : ℕ → (ℤ → Bool) → List (List S) → List (Sent F) → List (Sent F)
  with_answers callback waits [] sent = sent
  with_answers callback waits (b ∷ bs) sent =
      let answers = with_ids id_of_result waits b in
      with_answers callback (λ i. waits i && not (has_id id_of_result i b)) bs
        (if is_empty answers then sent else results callback answers ∷ sent)

  -- What the hardware is given, answers before it returns, and returns; all of this only if there is
  -- a request for it.
  abbrev pub calls_of : GetSetValuesClient → List R → Vhal F → List (ValueCall F)
  calls_of client [] s = s.value_calls
  calls_of client (q ∷ qs) s = call client (q ∷ qs) ∷ s.value_calls

  abbrev pub batches_of : GetSetValuesClient → List R → Vhal F → List (List S)
  batches_of client [] s = []
  batches_of client (q ∷ qs) s = before_return (call client (q ∷ qs) ∷ s.value_calls)

  abbrev pub code_of : GetSetValuesClient → List R → Vhal F → StatusCode
  code_of client [] s = ok_code
  code_of client (q ∷ qs) s = hw.value_status (call client (q ∷ qs) ∷ s.value_calls)

  -- What ends the wait for an ID: an answer, or a refusal by the hardware.
  abbrev pub is_settled : GetSetValuesClient → List R → Vhal F → ℤ → Bool
  is_settled client requests s i =
      is_answered (batches_of client requests s) i
      || (not (is_ok_code (code_of client requests s)) && has_id id_of i requests)

  abbrev pub failures_sent : GetSetValuesClient → List S → Vhal F → List (Sent F)
  failures_sent client failed s =
      if is_empty failed then s.sent else results client.callback failed ∷ s.sent

  -- The maps of clients stay.
  SameClients : Vhal F → Vhal F → Type 0
  SameClients s s' = (k : Kind) → clients_of k s' ≡ clients_of k s

  -- After the delivery of batches.
  IsDelivered : GetSetValuesClient → List (List S) → Vhal F → Vhal F → Type 0
  IsDelivered client bs s s' =
      ((c : ℕ) (i : ℤ)
        → is_pending c i s'
          ≡ (is_pending c i s && not (ite (ℕ_discrete c client.address) (is_answered bs i) false)))
      × (s'.sent ≡ with_answers client.callback (λ i. is_pending client.address i s) bs s.sent)
      × (s'.value_calls ≡ s.value_calls)
      × SameClients s s'

  clients_kept :
      (s : Vhal F) (pool : PendingRequestPool) (sent : List (Sent F)) (calls : List (ValueCall F))
      → SameClients s (record s { pending_request_pool = pool; sent = sent; value_calls = calls })
  unfolding SameClients
  clients_kept s pool sent calls for_get = refl
  clients_kept s pool sent calls for_set = refl

  deliver_batch-pending :
      (client : GetSetValuesClient) (b : List S) (s : Vhal F) (c : ℕ) (i : ℤ)
      → is_pending c i
          (deliver_batch hw out kind id_of id_of_result call results before_return client b s)
        ≡ (is_pending c i s
            && not (ite (ℕ_discrete c client.address) (has_id id_of_result i b) false))
  unfolding deliver_batch
  deliver_batch-pending client b s c i =
      (get_or_set_values_callback_lem id_of_result client.address b s.pending_request_pool).1 c i

  deliver_batch-sent :
      (client : GetSetValuesClient) (b : List S) (s : Vhal F)
      → (deliver_batch hw out kind id_of id_of_result call results before_return client b s).sent
        ≡ (let answers = with_ids id_of_result (λ i. is_pending client.address i s) b in
            if is_empty answers then s.sent else results client.callback answers ∷ s.sent)
  unfolding deliver_batch
  deliver_batch-sent client b s =
      ap (λ answers. if is_empty answers then s.sent else results client.callback answers ∷ s.sent)
        (get_or_set_values_callback_lem id_of_result client.address b s.pending_request_pool).0

  deliver_batch-calls :
      (client : GetSetValuesClient) (b : List S) (s : Vhal F)
      → (deliver_batch hw out kind id_of id_of_result call results before_return client b
          s).value_calls
        ≡ s.value_calls
  unfolding deliver_batch
  deliver_batch-calls client b s = refl

  deliver_batch-SameClients :
      (client : GetSetValuesClient) (b : List S) (s : Vhal F)
      → SameClients s
          (deliver_batch hw out kind id_of id_of_result call results before_return client b s)
  unfolding deliver_batch SameClients
  deliver_batch-SameClients client b s for_get = refl
  deliver_batch-SameClients client b s for_set = refl

  deliver_batches-IsDelivered :
      (client : GetSetValuesClient) (bs : List (List S)) (s : Vhal F)
      → IsDelivered client bs s
          (deliver_batches hw out kind id_of id_of_result call results before_return client bs s)
  unfolding deliver_batches IsDelivered SameClients
  deliver_batches-IsDelivered client [] s = ((λ c i. ground arith), refl, refl, λ k. refl)
  deliver_batches-IsDelivered client (b ∷ bs) s =
      let s1 = deliver_batch hw out kind id_of id_of_result call results before_return client b s in
      let (pend, sent, calls, same) = deliver_batches-IsDelivered client bs s1 in
      let waits : (i : ℤ)
          → is_pending client.address i s1
            ≡ (is_pending client.address i s && not (has_id id_of_result i b)) =
        λ i. let h = deliver_batch-pending client b s client.address i in ground (arith, h) in
      (
        (λ c i.
            pend c i
            ∙ (rw (deliver_batch-pending client b s c i) (
                finished_twice c client.address (is_pending c i s) (has_id id_of_result i b)
                  (is_answered bs i)))),
        sent ∙ (λ j.
            with_answers client.callback (λ i. waits i j) bs (deliver_batch-sent client b s j)),
        calls ∙ deliver_batch-calls client b s,
        λ k. same k ∙ deliver_batch-SameClients client b s k,
      )

  -- What is true of the call of the hardware and the code after it.
  IsHandedOver : GetSetValuesClient → List S → List R → Vhal F → Vhal F × Status → Type 0
  IsHandedOver client failed requests s (s', r) =
      (r ≡ status_of (code_of client requests s))
      × ((c : ℕ) (i : ℤ)
          → is_pending c i s' ≡ (
              is_pending c i s
              && not (ite (ℕ_discrete c client.address) (is_settled client requests s i) false)))
      × (s'.sent
          ≡ with_answers client.callback (λ i. is_pending client.address i s)
              (batches_of client requests s) (failures_sent client failed s))
      × (s'.value_calls ≡ calls_of client requests s)
      × SameClients s s'

  after_call_lem :
      (client : GetSetValuesClient) (requests : List R) (code : StatusCode) (s : Vhal F)
      → let (s', r) =
          after_call hw out kind id_of id_of_result call results before_return client requests code
            s in
        (r ≡ status_of code)
        × ((c : ℕ) (i : ℤ)
            → is_pending c i s' ≡ (
                is_pending c i s
                && not (
                    ite
                      (ℕ_discrete c client.address)
                      (not (is_ok_code code) && has_id id_of i requests)
                      false)))
        × (s'.sent ≡ s.sent)
        × (s'.value_calls ≡ s.value_calls)
        × SameClients s s'
  unfolding after_call try_finish_client_requests SameClients
  after_call_lem client requests ok_code s = (refl, (λ c i. ground arith), refl, refl, λ k. refl)
  after_call_lem client requests _ s = (
    refl,
    (λ c i.
        (try_finish_requests_lem client.address (id_set id_of requests) s.pending_request_pool c
          i).1
        ∙ (rw (contains-id_set id_of i requests) refl)),
    refl,
    refl,
    clients_kept s
        (try_finish_requests client.address (id_set id_of requests) s.pending_request_pool).0 s.sent
        s.value_calls,
  )

  -- The call itself, in a state to which the failed results have been sent.
  call_values_lem :
      (client : GetSetValuesClient) (q : R) (qs : List R) (s : Vhal F)
      → IsHandedOver client []
          (q ∷ qs)
          s
          (call_values hw out kind id_of id_of_result call results before_return client (q ∷ qs) s)
  unfolding call_values IsHandedOver IsDelivered SameClients
  call_values_lem client q qs s =
      let requests = q ∷ qs in
      let calls = call client requests ∷ s.value_calls in
      let s1 = record s { value_calls = calls } in
      let s2 =
        deliver_batches hw out kind id_of id_of_result call results before_return client
          (before_return calls) s1 in
      let (pend, sent, same_calls, same) =
        deliver_batches-IsDelivered client (before_return calls) s1 in
      let (r, pend', sent', same_calls', same') =
        after_call_lem client requests (hw.value_status calls) s2 in
      (
        r,
        (λ c i.
            pend' c i
            ∙ (rw (pend c i) (
                finished_twice c client.address (is_pending c i s)
                  (is_answered (before_return calls) i)
                  (not (is_ok_code (hw.value_status calls)) && has_id id_of i requests)))),
        sent' ∙ sent,
        same_calls' ∙ same_calls,
        λ k. same' k ∙ same k ∙ clients_kept s s.pending_request_pool s.sent calls k,
      )

  hand_over_lem :
      (client : GetSetValuesClient) (failed : List S) (requests : List R) (s : Vhal F)
      → IsHandedOver client failed requests s (
          hand_over hw out kind id_of id_of_result call results before_return client failed requests
            s)
  unfolding hand_over IsHandedOver SameClients
  hand_over_lem client [] [] s = (refl, (λ c i. ground arith), refl, refl, λ k. refl)
  hand_over_lem client (x ∷ failed) [] s = (
    refl,
    (λ c i. ground arith),
    refl,
    refl,
    clients_kept s s.pending_request_pool (results client.callback (x ∷ failed) ∷ s.sent)
        s.value_calls,
  )
  hand_over_lem client [] (q ∷ qs) s = call_values_lem client q qs s
  hand_over_lem client (x ∷ failed) (q ∷ qs) s =
      let sent = results client.callback (x ∷ failed) ∷ s.sent in
      let (r, pend, sent', calls, same) = call_values_lem client q qs (record s { sent = sent }) in
      (
        r,
        pend,
        sent',
        calls,
        λ k. same k ∙ clients_kept s s.pending_request_pool sent s.value_calls k,
      )

  -- Nothing becomes pending or ceases to be, and nothing is sent or asked of the hardware.
  abbrev pub IsRefused : Vhal F → Vhal F → Type 0
  IsRefused s s' =
      ((c : ℕ) (i : ℤ) → is_pending c i s' ≡ is_pending c i s)
      × (s'.sent ≡ s.sent)
      × (s'.value_calls ≡ s.value_calls)

  -- What waits for an answer once the requests have been accepted.
  abbrev pub waits : GetSetValuesClient → List R → Vhal F → ℕ → ℤ → Bool
  waits client requests s c i =
      ite (ℕ_discrete c client.address) (has_id id_of i requests) false || is_pending c i s

  -- What is returned, pending, sent, and asked of the hardware, once they have been accepted.
  abbrev pub IsDispatched : GetSetValuesClient → List S → List R → Vhal F → Vhal F × Status → Type 0
  IsDispatched client failed requests s (s', r) =
      (r ≡ status_of (code_of client requests s))
      × ((c : ℕ) (i : ℤ)
          → is_pending c i s' ≡ (
              waits client requests s c i
              && not (ite (ℕ_discrete c client.address) (is_settled client requests s i) false)))
      × (s'.sent
          ≡ with_answers client.callback (waits client requests s client.address)
              (batches_of client requests s) (failures_sent client failed s))
      × (s'.value_calls ≡ calls_of client requests s)

  -- What the pool says to the requests.
  abbrev pub admission : GetSetValuesClient → List R → Vhal F → VhalResult (Unit {0})
  admission client requests s =
      (add_requests client.address (id_set id_of requests) client.timeout_callback out.now
        s.pending_request_pool).1

  -- Refused by the pool, or dispatched.
  abbrev pub IsRegistered : GetSetValuesClient → List S → List R → Vhal F → Vhal F × Status → Type 0
  IsRegistered client failed requests s (s', r) =
      ((e : StatusCode) × ((admission client requests s ≡ err e)
          × ((r ≡ service_specific e) × IsRefused s s')))
      ⊎ ((admission client requests s ≡ ok tt) × IsDispatched client failed requests s (s', r))

  -- The pool plays no part in them.
  code_of_later :
      (client : GetSetValuesClient) (requests : List R) (s : Vhal F) (pool : PendingRequestPool)
      → code_of client requests (record s { pending_request_pool = pool })
        ≡ code_of client requests s
  code_of_later client [] s pool = refl
  code_of_later client (q ∷ qs) s pool = refl

  batches_of_later :
      (client : GetSetValuesClient) (requests : List R) (s : Vhal F) (pool : PendingRequestPool)
      → batches_of client requests (record s { pending_request_pool = pool })
        ≡ batches_of client requests s
  batches_of_later client [] s pool = refl
  batches_of_later client (q ∷ qs) s pool = refl

  calls_of_later :
      (client : GetSetValuesClient) (requests : List R) (s : Vhal F) (pool : PendingRequestPool)
      → calls_of client requests (record s { pending_request_pool = pool })
        ≡ calls_of client requests s
  calls_of_later client [] s pool = refl
  calls_of_later client (q ∷ qs) s pool = refl

  register_requests_lem :
      (client : GetSetValuesClient) (failed : List S) (requests : List R) (s : Vhal F)
      → let x =
          register_requests hw out kind id_of id_of_result call results before_return client failed
            requests s in
        IsRegistered client failed requests s x × SameClients s x.0
  unfolding register_requests add_client_requests IsHandedOver SameClients
  register_requests_lem client failed requests s =
      let ids = id_set id_of requests in
      let added =
        add_requests client.address ids client.timeout_callback out.now s.pending_request_pool in
      let s1 = record s { pending_request_pool = added.0 } in
      let same1 = clients_kept s added.0 s.sent s.value_calls in
      elim (VhalResult-cases added.1) [
        | inr (e, r) ↦
            rw (r, register_requests, add_client_requests)
              (
                inl (
                  e,
                  (
                    refl,
                    (
                      refl,
                      (
                        (λ c i.
                            is_request_pending-add_requests_err client.address ids
                              client.timeout_callback out.now s.pending_request_pool c i
                              (λ h. let q : err e ≡ ok tt = sym r ∙ h in cc)),
                        refl,
                        refl,
                      ),
                    ),
                  ),
                ),
                same1,
              )
        | inl r ↦
            let (status, pend, sent, calls, same) = hand_over_lem client failed requests s1 in
            let added_pend : (c : ℕ) (i : ℤ) → is_pending c i s1 ≡ waits client requests s c i =
              λ c i.
                is_request_pending-add_requests client.address ids client.timeout_callback out.now
                  s.pending_request_pool c i r
                ∙ (rw (contains-id_set id_of i requests) refl) in
            rw (r, register_requests, add_client_requests)
              (
                inr (
                  refl,
                  (
                    status ∙ ap status_of (code_of_later client requests s added.0),
                    (λ c i. pend c i ∙ (λ j.
                        added_pend c i j
                        && not (
                            ite (ℕ_discrete c client.address)
                              (is_answered (batches_of_later client requests s added.0 j) i
                                || (not (is_ok_code (code_of_later client requests s added.0 j))
                                    && has_id id_of i requests))
                              false))),
                    sent ∙ (λ j.
                        with_answers client.callback (λ i. added_pend client.address i j)
                          (batches_of_later client requests s added.0 j)
                          (failures_sent client failed s)),
                    calls ∙ calls_of_later client requests s added.0,
                  ),
                ),
                λ k. same k ∙ same1 k,
              )
      ]

  -- `monitorBinderLifeCycleLocked` finds the client alive.
  abbrev pub is_watched : ℕ → Vhal F → Bool
  is_watched client s =
      if contains ℕ_discrete client s.on_binder_died_contexts
      then out.is_alive client
      else out.link_to_death client

  -- A call for which no two requests are the same: the client is dead, or there is a client object
  -- for it in the map afterwards, for which the requests are refused by the pool or dispatched.
  abbrev pub IsDone : Callback → List S → List R → Vhal F → Vhal F × Status → Type 0
  IsDone callback failed requests s (s', r) =
      ((is_watched callback.binder s ≡ false) × ((r ≡ transaction_failed) × IsRefused s s'))
      ⊎ ((is_watched callback.binder s ≡ true)
          × ((client : GetSetValuesClient) × ((lookup ℕ_discrete callback.binder
                    (clients_of kind s')
                  ≡ some client)
                × (IsKept kind callback s client × IsRegistered client failed requests s (s', r)))))

  monitored :
      (client : ℕ) (s : Vhal F) → (monitor_binder_life_cycle out client s).1 ≡ is_watched client s
  unfolding monitor_binder_life_cycle
  monitored client s = elim (Bool-cases (contains ℕ_discrete client s.on_binder_died_contexts)) [
    | inl e ↦ rw (e, monitor_binder_life_cycle) refl
    | inr e ↦ rw (e, monitor_binder_life_cycle) refl
  ]

  -- A state with the same pool, messages and calls will do.
  IsRegistered-Untouched :
      (client : GetSetValuesClient) (failed : List S) (requests : List R) (s s' : Vhal F)
      (x : Vhal F × Status)
      → Untouched s s'
      → IsRegistered client failed requests s' x
      → IsRegistered client failed requests s x
  IsRegistered-Untouched client failed [] s s' x (pool, sent, calls) h =
      subst (λ t. IsRegistered client failed [] t x)
        (λ j. record s' { pending_request_pool = pool j; sent = sent j; value_calls = calls j }) h
  IsRegistered-Untouched client failed (q ∷ qs) s s' x (pool, sent, calls) h =
      subst (λ t. IsRegistered client failed (q ∷ qs) t x)
        (λ j. record s' { pending_request_pool = pool j; sent = sent j; value_calls = calls j }) h

  pub dispatch_lem :
      (callback : Callback) (failed : List S) (requests : List R) (s : Vhal F)
      → IsDone callback failed requests s (
          dispatch hw out kind id_of id_of_result call results before_return callback failed
            requests s)
  unfolding dispatch SameClients
  dispatch_lem callback failed requests s =
      let (s', alive) = monitor_binder_life_cycle out callback.binder s in
      let (s'', client) = get_or_create_client out kind callback s' in
      let kept = monitor_binder_life_cycle-Untouched out callback.binder s in
      let (made, found) = get_or_create_client_lem out kind callback s' in
      let watched = monitored callback.binder s in
      elim (Bool-cases alive) [
        | inr e ↦
            rw (e, dispatch)
              (inl (
                sym watched ∙ e,
                (refl, ((λ c i. ap (is_request_pending c i) kept.0), kept.1, kept.2)),
              ))
        | inl e ↦
            let (registered, same) = register_requests_lem client failed requests s'' in
            rw (e, dispatch)
              (inr (
                sym watched ∙ e,
                (
                  client,
                  (
                    ap (lookup ℕ_discrete callback.binder) (same kind) ∙ found,
                    (
                      subst
                          (λ m.
                            (lookup ℕ_discrete callback.binder m ≡ some client)
                            ⊎ (lookup ℕ_discrete callback.binder m ≡ none))
                          (monitor_binder_life_cycle-clients_of out kind callback.binder s)
                          (get_or_create_client-IsKept out kind callback s'),
                      IsRegistered-Untouched client failed requests s s''
                          (register_requests hw out kind id_of id_of_result call results
                            before_return client failed requests s'')
                          (made.0 ∙ kept.0, made.1 ∙ kept.1, made.2 ∙ kept.2) registered,
                    ),
                  ),
                ),
              ))
      ]
