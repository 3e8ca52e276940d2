-- ===== src/PendingRequestPool/Finish.antt =====
-- `tryFinishRequests`: what it finds, and what stays pending.
use vhal_core.Prelude.{
  ℕ, ◌≡◌, refl, true, false, ◌&&◌, ◌||◌, not, ite, List, [], ◌∷◌, arith, lookup, if◌then◌else◌,
  is_empty, ℕ_discrete, Option-cases, inl, inr,
}
use vhal_core.Prelude.Int.{ℤ, ℤ_discrete}
use vhal_core.Prelude.Sets.{contains, add, erase, contains-add, contains-erase}
use vhal_core.Prelude.Dict.{lookup-insert}
use vhal_core.PendingRequestPool.{
  PendingRequest, PendingRequestPool, is_pending_in, is_request_pending, finish_ids, finish_in,
  try_finish_requests,
}

module _ (j : ℤ) where
  pub finish_ids-pending :
      (ids pending found : List ℤ)
      → contains ℤ_discrete j (finish_ids ids pending found).0
        ≡ (contains ℤ_discrete j pending && not (contains ℤ_discrete j ids))
  unfolding finish_ids contains
  finish_ids-pending [] pending found = ground arith
  finish_ids-pending (i ∷ ids) pending found =
      let hit = contains ℤ_discrete i pending in
      ground (
        arith,
        finish_ids-pending ids (if hit then erase ℤ_discrete i pending else pending)
            (if hit then add ℤ_discrete i found else found),
        contains-erase ℤ_discrete j i pending,
      )

  finish_ids-found :
      (ids pending found : List ℤ)
      → contains ℤ_discrete j (finish_ids ids pending found).1 ≡ (
          contains ℤ_discrete j found
          || (contains ℤ_discrete j pending && contains ℤ_discrete j ids))
  unfolding finish_ids contains
  finish_ids-found [] pending found = ground arith
  finish_ids-found (i ∷ ids) pending found =
      let hit = contains ℤ_discrete i pending in
      ground (
        arith,
        finish_ids-found ids (if hit then erase ℤ_discrete i pending else pending)
            (if hit then add ℤ_discrete i found else found),
        contains-erase ℤ_discrete j i pending,
        contains-add ℤ_discrete j i found,
      )

  is_empty-contains : (xs : List ℤ) → is_empty xs ≡ true → contains ℤ_discrete j xs ≡ false
  unfolding contains
  is_empty-contains [] h = refl
  is_empty-contains (x ∷ xs) h = ground arith

  pub finish_in-pending :
      (ids : List ℤ) (rs : List PendingRequest) (found : List ℤ)
      → is_pending_in j (finish_in ids rs found).0
        ≡ (is_pending_in j rs && not (contains ℤ_discrete j ids))
  unfolding finish_in is_pending_in
  finish_in-pending ids [] found = refl
  finish_in-pending ids (r ∷ rs) found =
      let step = finish_ids ids r.request_ids found in
      ground (
        arith,
        finish_ids-pending ids r.request_ids found,
        is_empty-contains step.0,
        finish_in-pending ids rs step.1,
      )

  finish_in-found :
      (ids : List ℤ) (rs : List PendingRequest) (found : List ℤ)
      → contains ℤ_discrete j (finish_in ids rs found).1
        ≡ (contains ℤ_discrete j found || (is_pending_in j rs && contains ℤ_discrete j ids))
  unfolding finish_in is_pending_in
  finish_in-found ids [] found = ground arith
  finish_in-found ids (r ∷ rs) found =
      let step = finish_ids ids r.request_ids found in
      ground (arith, finish_ids-found ids r.request_ids found, finish_in-found ids rs step.1)

-- The IDs returned are exactly those asked for that were pending for the client, and after the call
-- exactly these are no longer pending, for this client and no other.
pub try_finish_requests_lem :
    (client : ℕ) (ids : List ℤ) (p : PendingRequestPool) (c : ℕ) (j : ℤ)
    → (contains ℤ_discrete j (try_finish_requests client ids p).1
        ≡ (is_request_pending client j p && contains ℤ_discrete j ids))
      × (is_request_pending c j (try_finish_requests client ids p).0 ≡ (
          is_request_pending c j p
          && not (ite (ℕ_discrete c client) (contains ℤ_discrete j ids) false)))
unfolding try_finish_requests is_request_pending contains
try_finish_requests_lem client ids p c j =
    elim (Option-cases (lookup ℕ_discrete client p.pending_requests_by_client)) [
      | inl e ↦ ground arith
      | inr (rs, e) ↦ ground (
        arith,
        finish_in-found j ids rs [],
        finish_in-pending j ids rs [],
        lookup-insert ℕ_discrete c client (finish_in ids rs []).0 p.pending_requests_by_client,
      )
    ]
