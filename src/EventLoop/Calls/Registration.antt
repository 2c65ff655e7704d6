-- ===== src/EventLoop/Calls/Registration.antt =====
-- `Register` of base/EventLoop.cpp, whatever epoll and the allocator answer.
use moxie_simple.Base.{
  ap, sym, ◌∙◌, ℕ, ◌≡◌, ◌≢◌, refl, Bool, true, false, Option, none, some, arith, Option-cases,
  Bool-cases, ◌==◌, inl, inr, update, update_same, ℕ_discrete, eq→==, ne→==,
}
use moxie_simple.EventLoop.{
  EpollEvent, Ctl, ctl_add, EventContext, EventLoop, Outcome, count, register_at, register,
  event_add, event_ctl,
}
use moxie_simple.EventLoop.Tables.{IsEpoll, IsConsistent, entered-IsConsistent}
use moxie_simple.EventLoop.Calls.{IsUnused, Returns, unchanged, count-none, count-some}

module _ {E : Type 0} (epoll_ctl : E → Ctl → ℕ → Option EpollEvent → Option E)
    (watched : E → ℕ → Option EpollEvent) (laws : IsEpoll epoll_ctl watched) where
  -- An entry that is taken out again at once.
  undone-IsConsistent :
      (l : EventLoop E) (e : E) (fd a : ℕ) (c : EventContext)
      → IsConsistent watched l e
      → l.contexts fd ≡ none
      → l.objects a ≡ none
      → IsConsistent watched
          (record l {
            epoll = some e;
            contexts = update (update l.contexts fd (some a)) fd none;
            objects = update (update l.objects a (some c)) a none;
          })
          e
  unfolding update
  undone-IsConsistent l e fd a c v no_entry unused = record {
    opened = refl;
    held = λ q b at. elim (ℕ_discrete q fd) [
      | yes this ↦ cc (rw (eq→== q fd this) at at)
      | no other ↦
          let (c', there, of_q) = v.held q b (rw (ne→== q fd other) at at) in
          (c', ground (arith, there, unused), of_q)
    ];
    listed = λ b c' at. ground (arith, at, v.listed b c', no_entry);
    same = λ q. ground (arith, v.same q, no_entry);
  }

  register_at-failed :
      (a event handler : ℕ) (l : EventLoop E) (e : E)
      → l.epoll ≡ some e
      → epoll_ctl e ctl_add
          (l.pollers event).sock
          (some (record { events = (l.pollers event).event; ptr = a }))
        ≡ none
      → register_at epoll_ctl a event handler l
        ≡ some (
          false,
          record l {
            epoll = some e;
            contexts =
                update
                  (update l.contexts (l.pollers event).sock (some a))
                  (l.pollers event).sock
                  none;
            objects =
                update
                  (update l.objects a (
                    some (record { fd = (l.pollers event).sock; event = event; handle = handler })))
                  a
                  none;
          },
        )
  unfolding register_at event_add event_ctl
  register_at-failed a event handler l e opened failed =
      simp
        (
          register_at,
          opened,
          failed,
          count-some (update l.contexts (l.pollers event).sock (some a)) (l.pollers event).sock a
              (update_same l.contexts (l.pollers event).sock (some a)),
        )
        refl

  register_new :
      (a event handler : ℕ) (l : EventLoop E) (e : E)
      → IsConsistent watched l e
      → l.contexts (l.pollers event).sock ≡ none
      → l.objects a ≡ none
      → Returns watched
          (l.pollers event).sock
          false
          (some a)
          l
          (register_at epoll_ctl a event handler l)
  unfolding register_at event_add event_ctl update
  register_new a event handler l e v no_entry unused =
      elim (Option-cases (
        epoll_ctl e ctl_add (l.pollers event).sock
          (some (record { events = (l.pollers event).event; ptr = a })))) [
            | inl failed ↦ record {
              ok = false;
              after = record l {
                epoll = some e;
                contexts =
                    update (update l.contexts (l.pollers event).sock (some a))
                      (l.pollers event).sock none;
                objects =
                    update
                      (update l.objects a (
                        some (record {
                          fd = (l.pollers event).sock;
                          event = event;
                          handle = handler;
                        })))
                      a none;
              };
              epoll = e;
              returned = register_at-failed a event handler l e v.opened failed;
              valid = undone-IsConsistent l e (l.pollers event).sock a _ v no_entry unused;
              touches = record {
                entry = ground (arith, no_entry);
                others = λ q other. ground arith;
                live = λ b c at other. ground (arith, at, unused);
                pollers = refl;
                quit = refl;
              };
            }
            | inr (e', done) ↦ record {
              ok = true;
              after = record l {
                epoll = some e';
                contexts = update l.contexts (l.pollers event).sock (some a);
                objects = update l.objects a (
                    some (record { fd = (l.pollers event).sock; event = event; handle = handler }));
              };
              epoll = e';
              returned = simp (register_at, v.opened, done) refl;
              valid =
                  entered-IsConsistent watched l e e' (l.pollers event).sock a
                    (l.pollers event).event _ v refl no_entry unused (laws.added e e' _ _ done);
              touches = record {
                entry = ground arith;
                others = λ q other. ground arith;
                live = λ b c at other. ground (arith, at, unused);
                pollers = refl;
                quit = refl;
              };
            }
          ]

  register_fresh :
      (fresh : Option ℕ) (event handler : ℕ) (l : EventLoop E) (e : E)
      → IsConsistent watched l e
      → IsUnused fresh l
      → l.contexts (l.pollers event).sock ≡ none
      → count l.contexts (l.pollers event).sock ≡ 0
      → Returns watched
          (l.pollers event).sock
          false
          fresh
          l
          (register epoll_ctl fresh event handler l)
  unfolding register
  register_fresh none event handler l e v unused no_entry none_yet =
      unchanged watched _ false _ l e v (simp (register, none_yet) refl)
  register_fresh (some a) event handler l e v unused no_entry none_yet =
      rw (register, none_yet) (register_new a event handler l e v no_entry unused)

  -- Without a context nothing is registered.
  pub register-needs_context :
      (fresh : Option ℕ) (event handler : ℕ) (l l' : EventLoop E)
      → register epoll_ctl fresh event handler l ≡ some (true, l')
      → fresh ≢ none
  unfolding register
  register-needs_context (some a) event handler l l' e = λ n. cc
  register-needs_context none event handler l l' e = λ n.
      elim (Bool-cases (count l.contexts (l.pollers event).sock == 0)) [
        | inl free ↦ ground (arith, free, e)
        | inr taken ↦ ground (arith, taken, e)
      ]

  -- `Register` keeps the tables in agreement, and changes one entry at most.
  pub register-Returns :
      (fresh : Option ℕ) (event handler : ℕ) (l : EventLoop E) (e : E)
      → IsConsistent watched l e
      → IsUnused fresh l
      → Returns watched
          (l.pollers event).sock
          false
          fresh
          l
          (register epoll_ctl fresh event handler l)
  register-Returns fresh event handler l e v unused =
      elim (Option-cases (l.contexts (l.pollers event).sock)) [
        | inl no_entry ↦
            register_fresh fresh event handler l e v unused no_entry
              (count-none l.contexts _ no_entry)
        | inr (a, here) ↦ unchanged watched _ false _ l e v (
            unfold register in
            simp (register, count-some l.contexts (l.pollers event).sock a here) refl)
      ]

  -- When `Register` can succeed: the descriptor has no entry, there is memory, and epoll adds it.
  pub can_register : Option ℕ → ℕ → EventLoop E → E → Bool
  can_register none event l e = false
  can_register (some a) event l e =
      let fd = (l.pollers event).sock in
      let et : EpollEvent = record { events = (l.pollers event).event; ptr = a } in
      elim (l.contexts fd) [
        | none ↦ elim (epoll_ctl e ctl_add fd (some et)) [ none ↦ false | some e' ↦ true ]
        | some b ↦ false
      ]

  abbrev succeeds : Outcome E → Bool
  succeeds none = false
  succeeds (some (ok, l')) = ok

  register-succeeds :
      (fresh : Option ℕ) (event handler : ℕ) (l : EventLoop E) (e : E)
      → l.epoll ≡ some e
      → succeeds (register epoll_ctl fresh event handler l) ≡ can_register fresh event l e
  unfolding register register_at event_add event_ctl can_register
  register-succeeds none event handler l e opened = ground arith
  register-succeeds (some a) event handler l e opened =
      let fd = (l.pollers event).sock in
      let et : EpollEvent = record { events = (l.pollers event).event; ptr = a } in
      elim (Option-cases (l.contexts fd)) [
        | inr (b, here) ↦ simp (register, can_register, count-some l.contexts fd b here, here) refl
        | inl no_entry ↦ elim (Option-cases (epoll_ctl e ctl_add fd (some et))) [
          | inl failed ↦
              simp
                (
                  register,
                  can_register,
                  count-none l.contexts fd no_entry,
                  no_entry,
                  failed,
                  register_at-failed a event handler l e opened failed,
                )
                refl
          | inr (e', adds) ↦
              simp
                (
                  register,
                  register_at,
                  can_register,
                  count-none l.contexts fd no_entry,
                  no_entry,
                  opened,
                  adds,
                )
                refl
        ]
      ]

  -- If the tables of an event loop agree with what epoll watches, and the allocator gives no
  -- address in use or none at all, then `Register` returns, whatever epoll answers as documented,
  -- and the tables agree afterwards. It succeeds exactly if the descriptor had no entry, there was
  -- memory, and epoll adds it. The descriptor's entry is the new context if the call succeeded, and
  -- as before if not; no other entry or living context changes.
  pub register_lem :
      (fresh : Option ℕ) (event handler : ℕ) (l : EventLoop E) (e : E)
      → IsConsistent watched l e
      → IsUnused fresh l
      → (r : Returns watched
          (l.pollers event).sock
          false
          fresh
          l
          (register epoll_ctl fresh event handler l))
        × (r.ok ≡ can_register fresh event l e)
  register_lem fresh event handler l e v unused =
      let r = register-Returns fresh event handler l e v unused in
      (r, ap succeeds (sym r.returned) ∙ register-succeeds fresh event handler l e v.opened)
