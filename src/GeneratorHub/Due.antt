-- ===== src/GeneratorHub/Due.antt =====
-- That the thread of GeneratorHub.cpp hands an event on once one is due.
use vhal_core.Prelude.{
  ℕ, ◌≡◌, refl, sym, ap, ◌∙◌, inl, inr, if_neg, Bool, true, false, Option, List, [], ◌∷◌, ◌++◌,
  lookup, arith, ℕ_discrete, Bool-cases, Option-cases, is_none, All,
}
use vhal_core.Prelude.Int.{ℤ, ltb_ℤ, ◌≤ℤ◌}
use vhal_core.Prelude.Sets.{contains}
use vhal_core.Prelude.Dict.{Dict}
use vhal_core.HalTypes.{VehiclePropValue}
use vhal_core.GeneratorHub.{
  VhalEvent, testing, GeneratorHub, prune_events, replace_event, handle_event, await_event,
  hub_step,
}
use vhal_core.GeneratorHub.Pending.{ids}

module _ {F G : Type 0} where
  -- The event is of a registered generator, and stands in the queue behind events whose generators
  -- are not registered, and only those.
  abbrev pub IsFirst : Dict ℕ G → List (VhalEvent F) → VhalEvent F → Type 0
  IsFirst generators q e =
      (front : List (VhalEvent F)) × ((back : List (VhalEvent F)) × ((q ≡ front ++ e ∷ back)
          × (All (λ x. is_none (lookup ℕ_discrete x.generator_id generators) ≡ true) front
              × (is_none (lookup ℕ_discrete e.generator_id generators) ≡ false))))

  IsFirst-cons :
      (generators : Dict ℕ G) (x : VhalEvent F) (q : List (VhalEvent F)) (e : VhalEvent F)
      → is_none (lookup ℕ_discrete x.generator_id generators) ≡ true
      → IsFirst generators q e
      → IsFirst generators (x ∷ q) e
  IsFirst-cons generators x q e n (front, (back, (split, (a, r)))) =
      (x ∷ front, (back, (ap (λ t. x ∷ t) split, ((n, a), r))))

  -- The event at the front, once those without a generator are gone.
  IsNext : ℤ → Dict ℕ G → List (VhalEvent F) → Type 0
  IsNext now generators q =
      (e : VhalEvent F) × ((q' : List (VhalEvent F)) × ((prune_events generators q ≡ e ∷ q')
          × (IsFirst generators q e × (ltb_ℤ now e.val.timestamp ≡ false))))

  prune_events-IsNext :
      (now : ℤ) (id : ℕ) (generators : Dict ℕ G) (q : List (VhalEvent F))
      → is_none (lookup ℕ_discrete id generators) ≡ false
      → contains ℕ_discrete id (ids q) ≡ true
      → All (λ e. e.val.timestamp ≤ℤ now) q
      → IsNext now generators q
  unfolding prune_events contains IsNext
  prune_events-IsNext now id generators [] l c a = let n : true ≡ false = sym c in cc
  prune_events-IsNext now id generators (e ∷ q) l c a =
      elim (Bool-cases (is_none (lookup ℕ_discrete e.generator_id generators))) [
        | inl h ↦ elim (ℕ_discrete id e.generator_id) [
          | yes p ↦ let n : true ≡ false = sym h ∙ (rw p at l) in cc
          | no p ↦
              let (x, (q', (prune, (first, due)))) =
                prune_events-IsNext now id generators q l (rw (if_neg _ p) at c) a.1 in
              rw h (x, (q', (prune, (IsFirst-cons generators e q x h first, due))))
        ]
        | inr h ↦ rw h (e, (q, (refl, (([], (q, (refl, (tt, h)))), ground (arith, a.0)))))
      ]

  module _ (next_event : G → Option (VehiclePropValue F × G)) where
    replace_event-hal_events :
        (id : ℕ) (h : GeneratorHub F G) → (replace_event next_event id h).hal_events ≡ h.hal_events
    unfolding replace_event
    replace_event-hal_events id h = elim (Option-cases (lookup ℕ_discrete id h.generators)) [
      | inl n ↦ rw (n, replace_event) refl
      | inr (g, l) ↦ elim (Option-cases (next_event g)) [
        | inl n ↦ rw (l, replace_event, n) refl
        | inr (w, e) ↦ rw (l, replace_event, e) refl
      ]
    ]

    handle_event-hal_events :
        (h : GeneratorHub F G) (e : VhalEvent F) (q : List (VhalEvent F))
        → h.event_queue ≡ e ∷ q
        → (handle_event next_event h).hal_events ≡ h.hal_events ++ e.val ∷ []
    unfolding handle_event
    handle_event-hal_events h e q k =
        rw (k, handle_event)
          (replace_event-hal_events e.generator_id (record h {
            event_queue = q;
            place = testing;
            hal_events = h.hal_events ++ e.val ∷ [];
          }))

    -- Let the thread run and stand at the test of its loop, a generator be registered with an event in the queue, and no event of the queue lie ahead of the clock: then the next step hands on exactly one event: the first one of the queue whose generator is registered.
    pub hub_step-hal_events :
        (now : ℤ) (timed_out : Bool) (id : ℕ) (h : GeneratorHub F G)
        → h.place ≡ testing
        → h.shutting_down ≡ false
        → is_none (lookup ℕ_discrete id h.generators) ≡ false
        → contains ℕ_discrete id (ids h.event_queue) ≡ true
        → All (λ e. e.val.timestamp ≤ℤ now) h.event_queue
        → (e : VhalEvent F) × (((hub_step next_event now timed_out h).hal_events
              ≡ h.hal_events ++ e.val ∷ [])
            × IsFirst h.generators h.event_queue e)
    unfolding hub_step await_event IsNext
    hub_step-hal_events now timed_out id h p s l c a =
        let (e, (q, (prune, (l', due)))) =
          prune_events-IsNext now id h.generators h.event_queue l c a in
        (
          e,
          (
            rw (p, hub_step, s, await_event, prune, due)
                (handle_event-hal_events
                  (record h { event_queue = prune_events h.generators h.event_queue }) e q prune),
            l',
          ),
        )
