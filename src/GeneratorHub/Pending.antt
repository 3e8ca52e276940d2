-- ===== src/GeneratorHub/Pending.antt =====
-- That GeneratorHub.cpp forgets no generator, and takes the events by their times.
use vhal_core.Prelude.{
  ℕ, ◌≡◌, refl, sym, ◌∙◌, ◌≢◌, inl, inr, ite, if_pos, if_neg, Bool, true, false, Option, List, [],
  ◌∷◌, ◌++◌, lookup, arith, ℕ_discrete, Bool-cases, Option-cases, is_none, All,
}
use vhal_core.Prelude.Int.{ℤ, ltb_ℤ, ◌≤ℤ◌}
use vhal_core.Prelude.Sets.{contains}
use vhal_core.Prelude.Dict.{Dict, insert, remove, lookup-insert, lookup-remove}
use vhal_core.HalTypes.{VehiclePropValue}
use vhal_core.GeneratorHub.{
  VhalEvent, HubPlace, testing, waiting, sleeping, undefined, ended, GeneratorHub, new_hub,
  push_event, unregister_generator, shut_down_hub, prune_events, register_generator, replace_event,
  handle_event, await_event, hub_step,
}

-- What any thread can do next.
pub data Action (G : Type 0) : Type 0 where
  registers : ℕ → G → Action G
  unregisters : ℕ → Action G
  shuts_down : Action G
  works : ℤ → Bool → Action G

-- The behaviour is undefined: the thread has used a reference that may dangle.
abbrev pub is_undefined : HubPlace → Bool
is_undefined undefined = true
is_undefined _ = false

module _ {F : Type 0} where
  abbrev pub ids : List (VhalEvent F) → List ℕ
  ids [] = []
  ids (e ∷ q) = e.generator_id ∷ ids q

  -- No event is later than one behind it.
  abbrev pub IsOrdered : List (VhalEvent F) → Type 0
  IsOrdered [] = Unit {0}
  IsOrdered (e ∷ q) = All (λ x. e.val.timestamp ≤ℤ x.val.timestamp) q × IsOrdered q

  contains-push_event :
      (id : ℕ) (e : VhalEvent F) (q : List (VhalEvent F))
      → contains ℕ_discrete id (ids (push_event e q))
        ≡ ite (ℕ_discrete id e.generator_id) true (contains ℕ_discrete id (ids q))
  unfolding contains push_event
  contains-push_event id e [] = refl
  contains-push_event id e (x ∷ q) = elim (Bool-cases (ltb_ℤ e.val.timestamp x.val.timestamp)) [
    | inl h ↦ rw h refl
    | inr h ↦ rw (h, contains-push_event id e q) (ground arith)
  ]

  push_event-All {κ} :
      (P : VhalEvent F → Type κ) (e : VhalEvent F) (q : List (VhalEvent F))
      → P e
      → All P q
      → All P (push_event e q)
  unfolding push_event
  push_event-All P e [] p a = (p, tt)
  push_event-All P e (x ∷ q) p a = elim (Bool-cases (ltb_ℤ e.val.timestamp x.val.timestamp)) [
    | inl h ↦ rw h (p, a)
    | inr h ↦ rw h (a.0, push_event-All P e q p a.1)
  ]

  before-All :
      (a b : ℤ) (q : List (VhalEvent F))
      → a ≤ℤ b
      → All (λ x. b ≤ℤ x.val.timestamp) q
      → All (λ x. a ≤ℤ x.val.timestamp) q
  before-All a b [] h k = tt
  before-All a b (x ∷ q) h k = (omega (arith, h, k.0), before-All a b q h k.1)

  push_event-IsOrdered :
      (e : VhalEvent F) (q : List (VhalEvent F)) → IsOrdered q → IsOrdered (push_event e q)
  unfolding push_event
  push_event-IsOrdered e [] o = (tt, tt)
  push_event-IsOrdered e (x ∷ q) o = elim (Bool-cases (ltb_ℤ e.val.timestamp x.val.timestamp)) [
    | inl h ↦
        let k : e.val.timestamp ≤ℤ x.val.timestamp = ground arith in
        rw h ((k, before-All e.val.timestamp x.val.timestamp q k o.0), o)
    | inr h ↦
        let k : x.val.timestamp ≤ℤ e.val.timestamp = ground arith in
        rw h (
          push_event-All (λ y. x.val.timestamp ≤ℤ y.val.timestamp) e q k o.0,
          push_event-IsOrdered e q o.1,
        )
  ]

module _ {F G : Type 0} where
  -- Each registered generator has an event in the queue.
  abbrev pub IsServed : Dict ℕ G → List (VhalEvent F) → Type 0
  IsServed generators q =
      (id : ℕ)
      → is_none (lookup ℕ_discrete id generators) ≡ false
      → contains ℕ_discrete id (ids q) ≡ true

  pub prune_events-IsServed :
      (generators : Dict ℕ G) (q : List (VhalEvent F))
      → IsServed generators q
      → IsServed generators (prune_events generators q)
  unfolding prune_events contains
  prune_events-IsServed generators [] s = s
  prune_events-IsServed generators (e ∷ q) s =
      elim (Bool-cases (is_none (lookup ℕ_discrete e.generator_id generators))) [
        | inl h ↦ rw h (
            prune_events-IsServed generators q λ id k. elim (ℕ_discrete id e.generator_id) [
              | yes p ↦ let n : true ≡ false = sym h ∙ (rw p at k) in cc
              | no p ↦ rw (if_neg _ p) at (s id k)
            ])
        | inr h ↦ rw h s
      ]

  pub prune_events-IsOrdered :
      (generators : Dict ℕ G) (q : List (VhalEvent F))
      → IsOrdered q
      → IsOrdered (prune_events generators q)
  unfolding prune_events
  prune_events-IsOrdered generators [] o = o
  prune_events-IsOrdered generators (e ∷ q) o =
      elim (Bool-cases (is_none (lookup ℕ_discrete e.generator_id generators))) [
        | inl h ↦ rw h (prune_events-IsOrdered generators q o.1)
        | inr h ↦ rw h o
      ]

  abbrev pub IsValid : GeneratorHub F G → Type 0
  IsValid h = IsServed h.generators h.event_queue × IsOrdered h.event_queue

  remove-IsServed :
      (id : ℕ) (generators : Dict ℕ G) (q : List (VhalEvent F))
      → ((j : ℕ)
          → j ≢ id
          → is_none (lookup ℕ_discrete j generators) ≡ false
          → contains ℕ_discrete j (ids q) ≡ true)
      → IsServed (remove ℕ_discrete id generators) q
  remove-IsServed id generators q s j k = elim (ℕ_discrete j id) [
    | yes p ↦ let n : true ≡ false = rw (lookup-remove, if_pos _ p) at k in cc
    | no p ↦ s j p (rw (lookup-remove, if_neg _ p) at k)
  ]

  replaced-IsServed :
      (e : VhalEvent F) (g : G) (generators : Dict ℕ G) (q : List (VhalEvent F))
      → ((j : ℕ)
          → j ≢ e.generator_id
          → is_none (lookup ℕ_discrete j generators) ≡ false
          → contains ℕ_discrete j (ids q) ≡ true)
      → IsServed (insert ℕ_discrete e.generator_id g generators) (push_event e q)
  replaced-IsServed e g generators q s j k = elim (ℕ_discrete j e.generator_id) [
    | yes p ↦ rw (contains-push_event, if_pos _ p) refl
    | no p ↦ rw (contains-push_event, if_neg _ p) (s j p (rw (lookup-insert, if_neg _ p) at k))
  ]

  module _ (next_event : G → Option (VehiclePropValue F × G)) where
    register_generator-IsValid :
        (id : ℕ) (g : G) (h : GeneratorHub F G)
        → IsValid h
        → IsValid (register_generator next_event id g h)
    unfolding register_generator
    register_generator-IsValid id g h v = elim (Option-cases (next_event g)) [
      | inl n ↦ rw (n, register_generator) v
      | inr ((w, g'), e) ↦ elim (Bool-cases (is_none (lookup ℕ_discrete id h.generators))) [
        | inl t ↦
            let x : VhalEvent F = record { generator_id = id; val = w } in
            rw (e, register_generator, t)
              (
                replaced-IsServed x g' h.generators h.event_queue (λ j p k. v.0 j k),
                push_event-IsOrdered x h.event_queue v.1,
              )
        | inr t ↦
            rw (e, register_generator, t)
              (
                λ j k. elim (ℕ_discrete j id) [
                  | yes p ↦ v.0 j (rw p t)
                  | no p ↦ v.0 j (rw (lookup-insert, if_neg _ p) at k)
                ],
                v.1,
              )
      ]
    ]

    unregister_generator-IsValid :
        (id : ℕ) (h : GeneratorHub F G) → IsValid h → IsValid (unregister_generator id h).0
    unfolding unregister_generator
    unregister_generator-IsValid id h v =
        (remove-IsServed id h.generators h.event_queue (λ j p k. v.0 j k), v.1)

    -- What holds once the event of a generator is popped.
    IsOthersServed : ℕ → GeneratorHub F G → Type 0
    IsOthersServed id h =
        ((j : ℕ)
          → j ≢ id
          → is_none (lookup ℕ_discrete j h.generators) ≡ false
          → contains ℕ_discrete j (ids h.event_queue) ≡ true)
        × IsOrdered h.event_queue

    replace_event-IsValid :
        (id : ℕ) (h : GeneratorHub F G)
        → IsOthersServed id h
        → IsValid (replace_event next_event id h)
    unfolding replace_event IsOthersServed
    replace_event-IsValid id h v = elim (Option-cases (lookup ℕ_discrete id h.generators)) [
      | inl n ↦ rw (n, replace_event) (remove-IsServed id h.generators h.event_queue v.0, v.1)
      | inr (g, l) ↦ elim (Option-cases (next_event g)) [
        | inl n ↦ rw (l, replace_event, n) (remove-IsServed id h.generators h.event_queue v.0, v.1)
        | inr ((w, g'), e) ↦
            let x : VhalEvent F = record { generator_id = id; val = w } in
            rw (l, replace_event, e)
              (
                replaced-IsServed x g' h.generators h.event_queue v.0,
                push_event-IsOrdered x h.event_queue v.1,
              )
      ]
    ]

    handle_event-IsValid : (h : GeneratorHub F G) → IsValid h → IsValid (handle_event next_event h)
    unfolding handle_event IsOthersServed contains
    handle_event-IsValid h v = go h.event_queue v
      where
        go :
            (q : List (VhalEvent F))
            → IsServed h.generators q × IsOrdered q
            → IsValid (handle_event next_event (record h { event_queue = q }))
        go [] w = w
        go (e ∷ q) w =
            replace_event-IsValid e.generator_id
              (record h {
                event_queue = q;
                place = testing;
                hal_events = h.hal_events ++ e.val ∷ [];
              })
              (λ j p k. rw (if_neg _ p) at (w.0 j k), w.1.1)

    await_event-IsValid :
        (now : ℤ) (h : GeneratorHub F G) → IsValid h → IsValid (await_event next_event now h)
    unfolding await_event
    await_event-IsValid now h v = go h.shutting_down h.event_queue v
      where
        go :
            (s : Bool) (q : List (VhalEvent F))
            → IsServed h.generators q × IsOrdered q
            → IsValid (await_event next_event now (record h { event_queue = q; shutting_down = s }))
        go true q w = w
        go false [] w = w
        go false (e ∷ q) w = elim (Bool-cases (ltb_ℤ now e.val.timestamp)) [
          | inl t ↦ rw t w
          | inr t ↦
              rw t
                (handle_event-IsValid (record h { event_queue = e ∷ q; shutting_down = false }) w)
        ]

    hub_step-IsValid :
        (now : ℤ) (timed_out : Bool) (h : GeneratorHub F G)
        → IsValid h
        → IsValid (hub_step next_event now timed_out h)
    unfolding hub_step
    hub_step-IsValid now timed_out h v = go h.place h.shutting_down timed_out
      where
        pruned : IsServed h.generators (prune_events h.generators h.event_queue)
        pruned = prune_events-IsServed h.generators h.event_queue v.0

        asleep :
            (s t : Bool)
            → IsValid (
                hub_step next_event now true
                  (record h { place = sleeping; shutting_down = s; pushed = t }))
        asleep s true = v
        asleep s false =
            handle_event-IsValid (record h { place = sleeping; shutting_down = s; pushed = false })
              v

        go :
            (p : HubPlace) (s o : Bool)
            → IsValid (hub_step next_event now o (record h { place = p; shutting_down = s }))
        go testing true o = v
        go testing false o =
            await_event-IsValid now
              (record h {
                event_queue = prune_events h.generators h.event_queue;
                place = testing;
                shutting_down = false;
              })
              (pruned, prune_events-IsOrdered h.generators h.event_queue v.1)
        go waiting s o = await_event-IsValid now (record h { place = waiting; shutting_down = s }) v
        go sleeping s true = asleep s h.pushed
        go sleeping s false = v
        go undefined s o = v
        go ended s o = v

    abbrev pub act : Action G → GeneratorHub F G → GeneratorHub F G
    act (registers id g) h = register_generator next_event id g h
    act (unregisters id) h = (unregister_generator id h).0
    act shuts_down h = shut_down_hub h
    act (works now timed_out) h = hub_step next_event now timed_out h

    abbrev pub run : List (Action G) → GeneratorHub F G → GeneratorHub F G
    run [] h = h
    run (a ∷ acts) h = run acts (act a h)

    run-IsValid : (acts : List (Action G)) (h : GeneratorHub F G) → IsValid h → IsValid (run acts h)
    unfolding shut_down_hub
    run-IsValid [] h v = v
    run-IsValid (registers id g ∷ acts) h v =
        run-IsValid acts (act (registers id g) h) (register_generator-IsValid id g h v)
    run-IsValid (unregisters id ∷ acts) h v =
        run-IsValid acts (act (unregisters id) h) (unregister_generator-IsValid id h v)
    run-IsValid (shuts_down ∷ acts) h v = run-IsValid acts (act shuts_down h) v
    run-IsValid (works now timed_out ∷ acts) h v =
        run-IsValid acts (act (works now timed_out) h) (hub_step-IsValid now timed_out h v)

    -- However registrations, unregistrations, the shutdown and steps of the thread are interleaved, with whatever clock and generators, as long as the thread has not used its reference to the first event after another event was pushed while it slept: each registered generator has an event in the queue, so none is forgotten, and no event of the queue, which the thread takes from its front, is later than one behind it.
    pub run-new_hub :
        (acts : List (Action G))
        → is_undefined (run acts new_hub).place ≡ false
        → let h = run acts new_hub in
          ((id : ℕ)
            → is_none (lookup ℕ_discrete id h.generators) ≡ false
            → contains ℕ_discrete id (ids h.event_queue) ≡ true)
          × IsOrdered h.event_queue
    unfolding new_hub lookup
    run-new_hub acts d = run-IsValid acts new_hub ((λ id k. let n : true ≡ false = k in cc), tt)
