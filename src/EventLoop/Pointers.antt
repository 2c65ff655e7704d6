-- ===== src/EventLoop/Pointers.antt =====
-- The pointers that `Loop` of base/EventLoop.cpp asserts not to be null: a context, its handler and its
-- event.
use moxie_simple.Base.{
  ℕ, ◌≡◌, ◌≢◌, refl, sym, ap, subst, ◌∙◌, Bool, true, false, Option, none, some, Option-cases, inl,
  inr, update, update_same, ℕ_discrete, eq→==, ne→==, ◌==◌, Bool-cases,
}
use moxie_simple.EventLoop.{
  EpollEvent, Ctl, ctl_add, ctl_mod, ctl_del, EventContext, EventLoop, Outcome, count, register_at,
  register, modity, delete, event_add, event_del, event_mod, event_ctl, quit_loop,
}
use moxie_simple.EventLoop.Calls.{count-some}
use moxie_simple.EventLoop.Handlers.{Acts, done, registers, modifies, deletes, sets, quits}

-- No context stands at address zero or points to no handler or no event.
abbrev pub AllReal : (ℕ → Option EventContext) → Type 0
AllReal objects =
    (a : ℕ) (c : EventContext) → objects a ≡ some c → (a ≢ 0) × (c.handle ≢ 0) × (c.event ≢ 0)

put-AllReal :
    (objects : ℕ → Option EventContext) (a : ℕ) (c : EventContext)
    → AllReal objects
    → a ≢ 0
    → c.handle ≢ 0
    → c.event ≢ 0
    → AllReal (update objects a (some c))
unfolding update
put-AllReal objects a c real some_address some_handle some_event b d at = elim (ℕ_discrete b a) [
  | yes here ↦
      let same : some c ≡ some d = rw (eq→== b a here) at at in
      (λ z. some_address (sym here ∙ z), λ z. some_handle (cc), λ z. some_event (cc))
  | no other ↦ real b d (rw (ne→== b a other) at at)
]

drop-AllReal :
    (objects : ℕ → Option EventContext) (a : ℕ) → AllReal objects → AllReal (update objects a none)
unfolding update
drop-AllReal objects a real b d at = elim (ℕ_discrete b a) [
  | yes here ↦ absurd (let gone : none ≡ some d = rw (eq→== b a here) at at in cc)
  | no other ↦ real b d (rw (ne→== b a other) at at)
]

module _ {E : Type 0} (epoll_ctl : E → Ctl → ℕ → Option EpollEvent → Option E) where
  -- The contexts that a call leaves, if it returns.
  abbrev objects_of : Outcome E → ℕ → Option EventContext
  objects_of none a = none
  objects_of (some (ok, l)) a = l.objects a

  after-AllReal :
      (o : Outcome E) (ok : Bool) (l' : EventLoop E)
      → o ≡ some (ok, l')
      → AllReal (objects_of o)
      → AllReal l'.objects
  after-AllReal o ok l' call real = subst (λ x. AllReal (objects_of x)) call real

  is-AllReal : (o x : Outcome E) → o ≡ x → AllReal (objects_of x) → AllReal (objects_of o)
  is-AllReal o x same real = subst (λ o. AllReal (objects_of o)) (sym same) real

  nothing-AllReal : AllReal (objects_of none)
  nothing-AllReal a c h = absurd cc

  register_at-AllReal :
      (a event handler : ℕ) (l : EventLoop E)
      → AllReal l.objects
      → a ≢ 0
      → event ≢ 0
      → handler ≢ 0
      → AllReal (objects_of (register_at epoll_ctl a event handler l))
  unfolding register_at event_add event_ctl count
  register_at-AllReal a event handler l real some_a some_event some_handler =
      let fd = (l.pollers event).sock in
      let c : EventContext = record { fd = fd; event = event; handle = handler } in
      let et : EpollEvent = record { events = (l.pollers event).event; ptr = a } in
      let put = put-AllReal l.objects a c real some_a some_handler some_event in
      elim (Option-cases l.epoll) [
        | inl closed ↦
            is-AllReal (register_at epoll_ctl a event handler l) none
              (simp (register_at, closed) refl) nothing-AllReal
        | inr (e, opened) ↦ elim (Option-cases (epoll_ctl e ctl_add fd (some et))) [
          | inl failed ↦
              is-AllReal (register_at epoll_ctl a event handler l)
                (some (
                  false,
                  record l {
                    epoll = some e;
                    contexts = update (update l.contexts fd (some a)) fd none;
                    objects = update (update l.objects a (some c)) a none;
                  },
                ))
                (simp
                  (
                    register_at,
                    opened,
                    failed,
                    count-some (update l.contexts fd (some a)) fd a
                        (update_same l.contexts fd (some a)),
                  )
                  refl)
                (drop-AllReal (update l.objects a (some c)) a put)
          | inr (e', works) ↦
              is-AllReal (register_at epoll_ctl a event handler l)
                (some (
                  true,
                  record l {
                    epoll = some e';
                    contexts = update l.contexts fd (some a);
                    objects = update l.objects a (some c);
                  },
                ))
                (simp (register_at, opened, works) refl) put
        ]
      ]

  register-AllReal :
      (fresh : Option ℕ) (event handler : ℕ) (l : EventLoop E)
      → AllReal l.objects
      → fresh ≢ some 0
      → event ≢ 0
      → handler ≢ 0
      → AllReal (objects_of (register epoll_ctl fresh event handler l))
  unfolding register
  register-AllReal none event handler l real some_a some_event some_handler =
      elim (Bool-cases (count l.contexts (l.pollers event).sock == 0)) [
        | inl new ↦ rw (register, new) real
        | inr old ↦ rw (register, old) real
      ]
  register-AllReal (some a) event handler l real some_a some_event some_handler =
      elim (Bool-cases (count l.contexts (l.pollers event).sock == 0)) [
        | inl new ↦
            rw (register, new)
              (register_at-AllReal a event handler l real (λ z. some_a (ap some z)) some_event
                some_handler)
        | inr old ↦ rw (register, old) real
      ]

  modity-AllReal :
      (event : ℕ) (l : EventLoop E)
      → AllReal l.objects
      → AllReal (objects_of (modity epoll_ctl event l))
  unfolding modity event_mod event_ctl
  modity-AllReal event l real =
      let fd = (l.pollers event).sock in
      elim (Option-cases (l.contexts fd)) [
        | inl missing ↦
            is-AllReal (modity epoll_ctl event l) (some (false, l)) (simp (modity, missing) refl)
              real
        | inr (a, here) ↦ elim (Option-cases l.epoll) [
          | inl closed ↦
              is-AllReal (modity epoll_ctl event l) none (simp (modity, here, closed) refl)
                nothing-AllReal
          | inr (e, opened) ↦
              elim (Option-cases (
                epoll_ctl e ctl_mod fd
                  (some (record { events = (l.pollers event).event; ptr = a })))) [
                    | inl failed ↦
                        is-AllReal (modity epoll_ctl event l)
                          (some (false, record l { epoll = some e }))
                          (simp (modity, here, opened, failed) refl) real
                    | inr (e', works) ↦
                        is-AllReal (modity epoll_ctl event l)
                          (some (true, record l { epoll = some e' }))
                          (simp (modity, here, opened, works) refl) real
                  ]
        ]
      ]

  delete-AllReal :
      (event : ℕ) (l : EventLoop E)
      → AllReal l.objects
      → AllReal (objects_of (delete epoll_ctl event l))
  unfolding delete event_del event_ctl
  delete-AllReal event l real =
      let fd = (l.pollers event).sock in
      elim (Option-cases (l.contexts fd)) [
        | inl missing ↦
            is-AllReal (delete epoll_ctl event l) (some (false, l)) (simp (delete, missing) refl)
              real
        | inr (a, here) ↦ elim (Option-cases l.epoll) [
          | inl closed ↦
              is-AllReal (delete epoll_ctl event l) none (simp (delete, here, closed) refl)
                nothing-AllReal
          | inr (e, opened) ↦ elim (Option-cases (epoll_ctl e ctl_del fd none)) [
            | inl failed ↦
                is-AllReal (delete epoll_ctl event l) (some (false, record l { epoll = some e }))
                  (simp (delete, here, opened, failed) refl) real
            | inr (e', works) ↦
                is-AllReal (delete epoll_ctl event l)
                  (some (
                    true,
                    record l {
                      epoll = some e';
                      contexts = update l.contexts fd none;
                      objects = update l.objects a none;
                    },
                  ))
                  (simp (delete, here, opened, works) refl) (drop-AllReal l.objects a real)
          ]
        ]
      ]

  module _ (watched : E → ℕ → Option EpollEvent) (own : ℕ) where
    -- `Register`, `Modity` and `Delete` are given no null pointer, which they assert; nor does `new` give
    -- one, but for a failure, which is `none`.
    abbrev pub AreSound : {l l' : EventLoop E} → Acts epoll_ctl watched own l l' → Type 0
    AreSound (done same) = Unit {0}
    AreSound (registers fresh event handler ok unused call more) =
        (fresh ≢ some 0) × (event ≢ 0) × (handler ≢ 0) × AreSound more
    AreSound (modifies event ok call more) = (event ≢ 0) × AreSound more
    AreSound (deletes event ok mine call more) = (event ≢ 0) × AreSound more
    AreSound (sets event x more) = AreSound more
    AreSound (quits more) = AreSound more

    pub Acts-AllReal :
        {l l' : EventLoop E} (acts : Acts epoll_ctl watched own l l')
        → AreSound acts
        → AllReal l.objects
        → AllReal l'.objects
    unfolding quit_loop
    Acts-AllReal (done same) sound real = subst (λ k. AllReal k.objects) (sym same) real
    Acts-AllReal {l} {l'} (registers fresh event handler ok unused call more) (a, b, c, sound)
          real =
        Acts-AllReal more sound
          (after-AllReal _ ok _ call (register-AllReal fresh event handler l real a b c))
    Acts-AllReal {l} {l'} (modifies event ok call more) (b, sound) real =
        Acts-AllReal more sound (after-AllReal _ ok _ call (modity-AllReal event l real))
    Acts-AllReal {l} {l'} (deletes event ok mine call more) (b, sound) real =
        Acts-AllReal more sound (after-AllReal _ ok _ call (delete-AllReal event l real))
    Acts-AllReal (sets event x more) sound real = Acts-AllReal more sound real
    Acts-AllReal (quits more) sound real = Acts-AllReal more sound real
