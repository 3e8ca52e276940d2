-- ===== src/PendingRequestPool/Invariant/Adding.antt =====
-- `addRequests` keeps the invariant.
use native.Mathlib.Nat.{zero-add}
use vhal_core.Prelude.{
  ◌%◌, ◌-◌, ◌^◌, ℕ, ◌+◌, ◌≤◌, ◌≡◌, refl, true, false, List, [], ◌∷◌, ◌++◌, arith, lookup, length,
  ℕ_discrete, Option-cases, Bool-cases, inl, inr, All, All-append,
}
use vhal_core.Prelude.Int.{ℤ, ℤ_discrete}
use vhal_core.Prelude.Sets.{contains, IsUnique}
use vhal_core.Prelude.Dict.{insert-IsMap, insert-All, lookup-All}
use vhal_core.PendingRequestPool.Ids.{
  any_duplicate-nil, any_duplicate, scan-any_duplicate, is_pending_in-append,
}
use vhal_core.PendingRequestPool.{
  ltb, PendingRequest, PendingRequestPool, max_pending_request_per_client, is_pending_in, count_in,
  push_back, add_requests,
}
use vhal_core.PendingRequestPool.Invariant.{
  IsDistinct, IsOrdered, IsValidClient, IsValid, clients_mono,
}

-- Appending one request, as `addRequests` does.
count_in-append :
    (rs : List PendingRequest) (r : PendingRequest)
    → count_in (rs ++ r ∷ []) ≡ count_in rs + length r.request_ids
unfolding count_in
count_in-append [] r = omega arith
count_in-append (s ∷ rs) r = omega (arith, count_in-append rs r)

IsOrdered-append :
    (rs : List PendingRequest) (r : PendingRequest)
    → All (λ (s : PendingRequest). s.timeout_timestamp ≤ r.timeout_timestamp) rs
    → IsOrdered rs
    → IsOrdered (rs ++ r ∷ [])
IsOrdered-append [] r a o = (tt, tt)
IsOrdered-append (s ∷ rs) r a o = (
  All-append (λ (t : PendingRequest). s.timeout_timestamp ≤ t.timeout_timestamp) rs (r ∷ []) o.0
      (a.0, tt),
  IsOrdered-append rs r a.1 o.1,
)

not-pending_of_any_duplicate :
    (ids : List ℤ) (rs : List PendingRequest) (i : ℤ)
    → any_duplicate ids rs ≡ false
    → is_pending_in i rs ≡ true
    → contains ℤ_discrete i ids ≡ false
unfolding any_duplicate contains
not-pending_of_any_duplicate [] rs i h k = refl
not-pending_of_any_duplicate (j ∷ ids) rs i h k =
    ground (arith, not-pending_of_any_duplicate ids rs i)

IsDistinct-append :
    (rs : List PendingRequest) (r : PendingRequest)
    → IsUnique ℤ_discrete r.request_ids
    → ((i : ℤ) → is_pending_in i rs ≡ true → contains ℤ_discrete i r.request_ids ≡ false)
    → IsDistinct rs
    → IsDistinct (rs ++ r ∷ [])
unfolding is_pending_in
IsDistinct-append [] r u h d = (u, λ i k. refl, tt)
IsDistinct-append (s ∷ rs) r u h d = (
  d.0,
  λ i k. ground (arith, is_pending_in-append i rs (r ∷ []), d.1 i k, h i (ground arith)),
  IsDistinct-append rs r u (λ i k. h i (ground arith)) d.2,
)

push_back-IsValid :
    (client : ℕ) (rs : List PendingRequest) (ids : List ℤ) (callback now : ℕ)
    (p : PendingRequestPool)
    → IsUnique ℤ_discrete ids
    → any_duplicate ids rs ≡ false
    → IsValidClient (now + p.timeout_in_nano) rs
    → IsValid now p
    → IsValid now (push_back client rs (count_in rs) ids callback now p).0
unfolding push_back
push_back-IsValid client rs ids callback now p u d c v =
    let due = now + p.timeout_in_nano in
    let r : PendingRequest = record {
      request_ids = ids;
      timeout_timestamp = due;
      callback = callback;
    } in
    let room = max_pending_request_per_client + 2 ^ 64 - count_in rs in
    elim (Bool-cases (ltb (room % 2 ^ 64) (length ids))) [
      | inl full ↦ rw full v
      | inr fits ↦ rw fits (record {
        by_client = insert-IsMap ℕ_discrete client _ _ v.by_client;
        clients =
            insert-All ℕ_discrete (λ (e : ℕ × List PendingRequest). IsValidClient due e.1) client _
              _
              (record {
                distinct =
                    IsDistinct-append rs r u (λ i k. not-pending_of_any_duplicate ids rs i d k)
                      c.distinct;
                ordered = IsOrdered-append rs r c.recent c.ordered;
                recent =
                    All-append (λ (s : PendingRequest). s.timeout_timestamp ≤ due) rs (r ∷ [])
                      c.recent (omega arith, tt);
                bounded = ground (arith, count_in-append rs r, c.bounded);
              })
              v.clients;
      })
    ]

-- `addRequests`, accepted or refused, keeps the invariant as time goes on.
pub add_requests-IsValid :
    (client : ℕ) (ids : List ℤ) (callback before now : ℕ) (p : PendingRequestPool)
    → IsUnique ℤ_discrete ids
    → before ≤ now
    → IsValid before p
    → IsValid now (add_requests client ids callback now p).0
unfolding add_requests count_in
add_requests-IsValid client ids callback before now p u h v =
    let due = now + p.timeout_in_nano in
    let P = λ (e : ℕ × List PendingRequest). IsValidClient due e.1 in
    let later : IsValid now p = record {
      by_client = v.by_client;
      clients = clients_mono p.pending_requests_by_client (omega arith) v.clients;
    } in
    elim (Option-cases (lookup ℕ_discrete client p.pending_requests_by_client)) [
      | inl e ↦
          let fresh : IsValidClient due [] = record {
            distinct = tt;
            ordered = tt;
            recent = tt;
            bounded = omega arith;
          } in
          rw (e, add_requests)
            (push_back-IsValid client [] ids callback now _ u (any_duplicate-nil ids) fresh
              (record {
                by_client = insert-IsMap ℕ_discrete client _ _ v.by_client;
                clients = insert-All ℕ_discrete P client _ _ fresh later.clients;
              }))
      | inr (rs, e) ↦
          let c = lookup-All ℕ_discrete P client rs _ later.clients e in
          rw (e, add_requests, scan-any_duplicate ids rs 0)
            (elim (Bool-cases (any_duplicate ids rs)) [
              | inl d ↦ rw d later
              | inr d ↦
                  rw (d, zero-add) (push_back-IsValid client rs ids callback now p u d c later)
            ])
    ]
