-- ===== src/ConnectedClient/Results.antt =====
-- That ConnectedClient.cpp sends a client only results that it waits for, and each only once.
use vhal_core.Prelude.{
  ℕ, ◌≡◌, refl, ap, ◌∙◌, ite, if_pos, Bool, true, false, not, ◌&&◌, List, [], ◌∷◌, arith,
  ℕ_discrete, if◌then◌else◌,
}
use vhal_core.Prelude.Int.{ℤ, ℤ_discrete}
use vhal_core.Prelude.Sets.{contains, contains-add}
use vhal_core.PendingRequestPool.{PendingRequestPool, is_request_pending, try_finish_requests}
use vhal_core.PendingRequestPool.Finish.{try_finish_requests_lem}
use vhal_core.ConnectedClient.{id_set, keep_finished, get_or_set_values_callback}

module _ {R : Type 0} (id_of : R → ℤ) where
  -- Some result has the ID.
  abbrev pub has_id : ℤ → List R → Bool
  has_id i [] = false
  has_id i (r ∷ rs) = ite (ℤ_discrete i (id_of r)) true (has_id i rs)

  pub contains-id_set :
      (i : ℤ) (rs : List R) → contains ℤ_discrete i (id_set id_of rs) ≡ has_id i rs
  unfolding id_set contains
  contains-id_set i [] = refl
  contains-id_set i (r ∷ rs) =
      contains-add ℤ_discrete i (id_of r) (id_set id_of rs)
      ∙ ap (λ b. ite (ℤ_discrete i (id_of r)) true b) (contains-id_set i rs)

  -- The results with these IDs, in their order.
  abbrev pub with_ids : (ℤ → Bool) → List R → List R
  with_ids p [] = []
  with_ids p (r ∷ rs) = let rest = with_ids p rs in if p (id_of r) then r ∷ rest else rest

  keep_finished_lem :
      (finished : List ℤ) (p : ℤ → Bool) (rs : List R)
      → ((i : ℤ) → has_id i rs ≡ true → contains ℤ_discrete i finished ≡ p i)
      → keep_finished id_of finished rs ≡ with_ids p rs
  unfolding keep_finished
  keep_finished_lem finished p [] h = refl
  keep_finished_lem finished p (r ∷ rs) h =
      let here : contains ℤ_discrete (id_of r) finished ≡ p (id_of r) =
        h (id_of r) (rw (if_pos (ℤ_discrete (id_of r) (id_of r)) refl) refl) in
      let rest = keep_finished_lem finished p rs λ i e. h i (ground (arith, e)) in
      rw (here, rest) refl

  with_ids_none : (rs : List R) → with_ids (λ i. false) rs ≡ []
  with_ids_none [] = refl
  with_ids_none (r ∷ rs) = with_ids_none rs

  -- A batch of results for a client: it is sent exactly the results whose requests were pending for it, in their order, and afterwards exactly these requests are no longer pending; so when the same batch comes again nothing is sent.
  pub get_or_set_values_callback_lem :
      (client : ℕ) (results : List R) (p : PendingRequestPool)
      → let (p', sent) = get_or_set_values_callback id_of client results p in
        (sent ≡ with_ids (λ i. is_request_pending client i p) results)
        × ((c : ℕ) (i : ℤ)
            → is_request_pending c i p' ≡ (
                is_request_pending c i p
                && not (ite (ℕ_discrete c client) (has_id i results) false)))
        × ((get_or_set_values_callback id_of client results p').1 ≡ [])
  unfolding get_or_set_values_callback
  get_or_set_values_callback_lem client results p =
      let ids = id_set id_of results in
      let p' = (try_finish_requests client ids p).0 in
      let first : (i : ℤ)
          → has_id i results ≡ true
          → contains ℤ_discrete i (try_finish_requests client ids p).1
            ≡ is_request_pending client i p =
        λ i e.
          let a = (try_finish_requests_lem client ids p client i).0 in
          let b = contains-id_set i results in ground (arith, a, b, e) in
      let again : (i : ℤ)
          → has_id i results ≡ true
          → contains ℤ_discrete i (try_finish_requests client ids p').1 ≡ false =
        λ i e.
          let a = (try_finish_requests_lem client ids p' client i).0 in
          let c = (try_finish_requests_lem client ids p client i).1 in
          let b = contains-id_set i results in ground (arith, a, b, c, e) in
      (
        keep_finished_lem (try_finish_requests client ids p).1 (λ i. is_request_pending client i p)
            results first,
        λ c i. (try_finish_requests_lem client ids p c i).1 ∙ (rw (contains-id_set i results) refl),
        keep_finished_lem (try_finish_requests client ids p').1 (λ i. false) results again
            ∙ with_ids_none results,
      )
