-- ===== src/PendingRequestPool/Invariant/Finishing.antt =====
-- `tryFinishRequests` keeps the invariant.
use vhal_core.Prelude.{
  ℕ, ◌+◌, ◌≤◌, List, [], ◌∷◌, arith, lookup, length, if◌then◌else◌, ℕ_discrete, Option-cases,
  Bool-cases, inl, inr, All, is_empty,
}
use vhal_core.Prelude.Int.{ℤ, ℤ_discrete}
use vhal_core.Prelude.Sets.{contains, add, erase, IsUnique, erase-IsUnique}
use vhal_core.Prelude.Dict.{insert-IsMap, insert-All, lookup-All}
use vhal_core.PendingRequestPool.Finish.{finish_ids-pending, finish_in-pending}
use vhal_core.PendingRequestPool.{
  PendingRequest, PendingRequestPool, count_in, finish_ids, finish_in, try_finish_requests,
}
use vhal_core.PendingRequestPool.Invariant.{IsDistinct, IsOrdered, IsValidClient, IsValid}

-- `tryFinishRequests` only takes IDs away.
length-erase-le : (i : ℤ) (ids : List ℤ) → length (erase ℤ_discrete i ids) ≤ length ids
unfolding erase
length-erase-le i [] = omega arith
length-erase-le i (j ∷ ids) = ground (arith, length-erase-le i ids)

finish_ids-IsUnique :
    (ids pending found : List ℤ)
    → IsUnique ℤ_discrete pending
    → IsUnique ℤ_discrete (finish_ids ids pending found).0
      × (length (finish_ids ids pending found).0 ≤ length pending)
unfolding finish_ids
finish_ids-IsUnique [] pending found u = (u, omega arith)
finish_ids-IsUnique (i ∷ ids) pending found u =
    let hit = contains ℤ_discrete i pending in
    let pending' = if hit then erase ℤ_discrete i pending else pending in
    let found' = if hit then add ℤ_discrete i found else found in
    let u' : IsUnique ℤ_discrete pending' × (length pending' ≤ length pending) =
      ground (arith, erase-IsUnique ℤ_discrete i pending u, length-erase-le i pending) in
    let rest = finish_ids-IsUnique ids pending' found' u'.0 in (rest.0, omega arith)

module _ (ids : List ℤ) where
  finish_in-after :
      (t : ℕ) (rs : List PendingRequest) (found : List ℤ)
      → All (λ (s : PendingRequest). t ≤ s.timeout_timestamp) rs
      → All (λ (s : PendingRequest). t ≤ s.timeout_timestamp) (finish_in ids rs found).0
  unfolding finish_in
  finish_in-after t [] found a = tt
  finish_in-after t (r ∷ rs) found a =
      ground (arith, finish_in-after t rs (finish_ids ids r.request_ids found).1 a.1)

  finish_in-recent :
      (t : ℕ) (rs : List PendingRequest) (found : List ℤ)
      → All (λ (s : PendingRequest). s.timeout_timestamp ≤ t) rs
      → All (λ (s : PendingRequest). s.timeout_timestamp ≤ t) (finish_in ids rs found).0
  unfolding finish_in
  finish_in-recent t [] found a = tt
  finish_in-recent t (r ∷ rs) found a =
      ground (arith, finish_in-recent t rs (finish_ids ids r.request_ids found).1 a.1)

  finish_in-IsOrdered :
      (rs : List PendingRequest) (found : List ℤ)
      → IsOrdered rs
      → IsOrdered (finish_in ids rs found).0
  unfolding finish_in
  finish_in-IsOrdered [] found o = tt
  finish_in-IsOrdered (r ∷ rs) found o =
      let found' = (finish_ids ids r.request_ids found).1 in
      ground (
        arith,
        finish_in-after r.timeout_timestamp rs found' o.0,
        finish_in-IsOrdered rs found' o.1,
      )

  finish_in-count :
      (rs : List PendingRequest) (found : List ℤ)
      → IsDistinct rs
      → count_in (finish_in ids rs found).0 ≤ count_in rs
  unfolding finish_in count_in
  finish_in-count [] found d = omega arith
  finish_in-count (r ∷ rs) found d = ground (
    arith,
    finish_ids-IsUnique ids r.request_ids found d.0,
    finish_in-count rs (finish_ids ids r.request_ids found).1 d.2,
  )

  finish_in-IsDistinct :
      (rs : List PendingRequest) (found : List ℤ)
      → IsDistinct rs
      → IsDistinct (finish_in ids rs found).0
  unfolding finish_in
  finish_in-IsDistinct [] found d = tt
  finish_in-IsDistinct (r ∷ rs) found d =
      let (pending, found') = finish_ids ids r.request_ids found in
      let rest = finish_in-IsDistinct rs found' d.2 in
      elim (Bool-cases (is_empty pending)) [
        | inl e ↦ rw e rest
        | inr e ↦ rw e (
          (finish_ids-IsUnique ids r.request_ids found d.0).0,
          λ i k. ground (
            arith,
            finish_in-pending i ids rs found',
            finish_ids-pending i ids r.request_ids found,
            d.1 i,
          ),
          rest,
        )
      ]

  finish_in-IsValidClient :
      (due : ℕ) (rs : List PendingRequest)
      → IsValidClient due rs
      → IsValidClient due (finish_in ids rs []).0
  finish_in-IsValidClient due rs v = record {
    distinct = finish_in-IsDistinct rs [] v.distinct;
    ordered = finish_in-IsOrdered rs [] v.ordered;
    recent = finish_in-recent due rs [] v.recent;
    bounded = omega (arith, finish_in-count rs [] v.distinct, v.bounded);
  }

pub try_finish_requests-IsValid :
    (client : ℕ) (ids : List ℤ) (now : ℕ) (p : PendingRequestPool)
    → IsValid now p
    → IsValid now (try_finish_requests client ids p).0
unfolding try_finish_requests
try_finish_requests-IsValid client ids now p v =
    elim (Option-cases (lookup ℕ_discrete client p.pending_requests_by_client)) [
      | inl e ↦ rw (e, try_finish_requests) v
      | inr (rs, e) ↦
          let due = now + p.timeout_in_nano in
          let P = λ (e : ℕ × List PendingRequest). IsValidClient due e.1 in
          rw (e, try_finish_requests)
            (record {
              by_client = insert-IsMap ℕ_discrete client _ _ v.by_client;
              clients =
                  insert-All ℕ_discrete P client _ _
                    (finish_in-IsValidClient ids due rs
                      (lookup-All ℕ_discrete P client rs _ v.clients e))
                    v.clients;
            })
    ]
