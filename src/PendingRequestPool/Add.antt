-- ===== src/PendingRequestPool/Add.antt =====
-- `addRequests`: when it accepts, and what is pending after it.
use vhal_core.Prelude.{
  ℕ, ◌+◌, ◌++◌, ◌≤◌, ◌≡◌, refl, Bool, true, false, ◌||◌, ite, none, some, List, [], ◌∷◌, arith, inl,
  inr, ◌≢◌, if_neg, ◌∙◌, lookup, length, ltb, if◌then◌else◌, ℕ_discrete, Option-cases,
}
use vhal_core.Prelude.Int.{ℤ, ℤ_discrete}
use vhal_core.Prelude.Sets.{contains}
use vhal_core.Prelude.Dict.{insert, lookup-insert}
use vhal_core.HalTypes.{ok, err, invalid_arg, try_again}
use vhal_core.PendingRequestPool.Ids.{any_duplicate, scan-any_duplicate, is_pending_in-append}
use vhal_core.PendingRequestPool.{
  PendingRequest, PendingRequestPool, max_pending_request_per_client, push_back, add_requests,
  is_pending_in, is_request_pending, count_in, count_pending_requests,
}

-- Some of `ids` is pending for the client.
unfoldable pub any_request_pending : ℕ → List ℤ → PendingRequestPool → Bool
any_request_pending client [] p = false
any_request_pending client (i ∷ ids) p =
    is_request_pending client i p || any_request_pending client ids p

module _ (client : ℕ) (p : PendingRequestPool) where
  pub any_request_pending-none :
      (ids : List ℤ)
      → lookup ℕ_discrete client p.pending_requests_by_client ≡ none
      → any_request_pending client ids p ≡ false
  unfolding any_request_pending is_request_pending
  any_request_pending-none [] e = refl
  any_request_pending-none (i ∷ ids) e = rw (e, is_request_pending) (any_request_pending-none ids e)

  pub any_request_pending-some :
      (ids : List ℤ) (rs : List PendingRequest)
      → lookup ℕ_discrete client p.pending_requests_by_client ≡ some rs
      → any_request_pending client ids p ≡ any_duplicate ids rs
  unfolding any_request_pending is_request_pending any_duplicate
  any_request_pending-some [] rs e = refl
  any_request_pending-some (i ∷ ids) rs e =
      rw (e, is_request_pending, any_request_pending-some ids rs e)

  push_back_result :
      (rs : List PendingRequest) (count : ℕ) (ids : List ℤ) (callback now : ℕ)
      → count ≤ max_pending_request_per_client
      → (push_back client rs count ids callback now p).1
        ≡ (if ltb max_pending_request_per_client (count + length ids) then err try_again else ok tt)
  unfolding push_back
  push_back_result rs count ids callback now h = ground arith

-- For a client within its bound, a request is refused as invalid exactly if one of its IDs is pending
-- for the client, else it is to be tried again exactly if the client would have too many, and else it
-- is accepted.
pub add_requests_result :
    (client : ℕ) (ids : List ℤ) (callback now : ℕ) (p : PendingRequestPool)
    → count_pending_requests client p ≤ max_pending_request_per_client
    → (add_requests client ids callback now p).1 ≡ (
        if any_request_pending client ids p
        then err invalid_arg
        else if ltb max_pending_request_per_client (count_pending_requests client p + length ids)
        then err try_again
        else ok tt)
unfolding add_requests count_pending_requests
add_requests_result client ids callback now p h =
    elim (Option-cases (lookup ℕ_discrete client p.pending_requests_by_client)) [
      | inl e ↦
          rw (e, add_requests, count_pending_requests, any_request_pending-none client p ids e)
            (push_back_result client _ [] 0 ids callback now (omega arith))
      | inr (rs, e) ↦
          let bound : count_in rs ≤ max_pending_request_per_client =
            rw (e, count_pending_requests) at h in
          rw
            (
              e,
              add_requests,
              count_pending_requests,
              any_request_pending-some client p ids rs e,
              scan-any_duplicate ids rs 0,
            )
            (ground (arith, push_back_result client p rs (count_in rs) ids callback now bound))
    ]

push_back_pending :
    (client : ℕ) (rs : List PendingRequest) (count : ℕ) (ids : List ℤ) (callback now : ℕ)
    (p : PendingRequestPool) (c : ℕ) (i : ℤ)
    → (push_back client rs count ids callback now p).1 ≡ ok tt
    → is_request_pending c i (push_back client rs count ids callback now p).0
      ≡ ite
          (ℕ_discrete c client)
          (is_pending_in i rs || contains ℤ_discrete i ids)
          (is_request_pending c i p)
unfolding push_back is_request_pending is_pending_in
push_back_pending client rs count ids callback now p c i h =
    let r : PendingRequest = record {
      request_ids = ids;
      timeout_timestamp = now + p.timeout_in_nano;
      callback = callback;
    } in
    ground (
      arith,
      lookup-insert ℕ_discrete c client (rs ++ r ∷ []) p.pending_requests_by_client,
      is_pending_in-append i rs (r ∷ []),
    )

fresh_pending :
    (client : ℕ) (p : PendingRequestPool) (c : ℕ) (i : ℤ)
    → lookup ℕ_discrete client p.pending_requests_by_client ≡ none
    → (is_request_pending c i (record p {
      pending_requests_by_client = insert ℕ_discrete client [] p.pending_requests_by_client;
    })
        ≡ is_request_pending c i p)
      × (ite (ℕ_discrete c client) (is_request_pending c i p) false ≡ false)
      × (is_pending_in i [] ≡ false)
unfolding is_request_pending is_pending_in
fresh_pending client p c i e =
    ground (arith, lookup-insert ℕ_discrete c client [] p.pending_requests_by_client)

known_pending :
    (client : ℕ) (p : PendingRequestPool) (c : ℕ) (i : ℤ) (rs : List PendingRequest)
    → lookup ℕ_discrete client p.pending_requests_by_client ≡ some rs
    → c ≡ client
    → is_request_pending c i p ≡ is_pending_in i rs
unfolding is_request_pending
known_pending client p c i rs e h = ground arith

-- What is pending after an accepted request: the new IDs for this client, and all that was.
pub is_request_pending-add_requests :
    (client : ℕ) (ids : List ℤ) (callback now : ℕ) (p : PendingRequestPool) (c : ℕ) (i : ℤ)
    → (add_requests client ids callback now p).1 ≡ ok tt
    → is_request_pending c i (add_requests client ids callback now p).0
      ≡ (ite (ℕ_discrete c client) (contains ℤ_discrete i ids) false || is_request_pending c i p)
unfolding add_requests
is_request_pending-add_requests client ids callback now p c i h =
    elim (Option-cases (lookup ℕ_discrete client p.pending_requests_by_client)) [
      | inl e ↦
          let q = record p {
            pending_requests_by_client = insert ℕ_discrete client [] p.pending_requests_by_client;
          } in
          grind (
            arith,
            push_back_pending client [] 0 ids callback now q c i,
            fresh_pending client p c i e,
          )
      | inr (rs, e) ↦ ground (
        arith,
        push_back_pending client rs (count_in rs) ids callback now p c i,
        scan-any_duplicate ids rs 0,
        known_pending client p c i rs e,
      )
    ]

-- A refused request changes nothing that is pending.
pub is_request_pending-add_requests_err :
    (client : ℕ) (ids : List ℤ) (callback now : ℕ) (p : PendingRequestPool) (c : ℕ) (i : ℤ)
    → (add_requests client ids callback now p).1 ≢ ok tt
    → is_request_pending c i (add_requests client ids callback now p).0 ≡ is_request_pending c i p
unfolding add_requests is_request_pending push_back is_pending_in
is_request_pending-add_requests_err client ids callback now p c i h =
    ground (arith, lookup-insert ℕ_discrete c client [] p.pending_requests_by_client)

-- An ID of an accepted request was not pending for the client.
any_request_pending-contains :
    (client : ℕ) (ids : List ℤ) (p : PendingRequestPool) (i : ℤ)
    → any_request_pending client ids p ≡ false
    → contains ℤ_discrete i ids ≡ true
    → is_request_pending client i p ≡ false
unfolding any_request_pending contains
any_request_pending-contains client [] p i e m = cc
any_request_pending-contains client (j ∷ ids) p i e m = elim (ℤ_discrete i j) [
  | yes q ↦ rw q (ground arith)
  | no q ↦ any_request_pending-contains client ids p i (ground arith) (rw (if_neg _ q) at m)
]

pub is_request_pending-accepted :
    (client : ℕ) (ids : List ℤ) (callback now : ℕ) (p : PendingRequestPool) (i : ℤ)
    → (add_requests client ids callback now p).1 ≡ ok tt
    → contains ℤ_discrete i ids ≡ true
    → is_request_pending client i p ≡ false
unfolding add_requests
is_request_pending-accepted client ids callback now p i h =
    any_request_pending-contains client ids p i
      (elim (Option-cases (lookup ℕ_discrete client p.pending_requests_by_client)) [
        | inl e ↦ any_request_pending-none client p ids e
        | inr (rs, e) ↦
            any_request_pending-some client p ids rs e
            ∙ ground (arith, scan-any_duplicate ids rs 0, e, h)
      ])
