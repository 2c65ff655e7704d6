-- ===== src/EventLoop/Calls.antt =====
-- `Modity` and `Delete` of base/EventLoop.cpp, whatever epoll answers, and `Register` in Registration.
pub mod Registration
use moxie_simple.Base.{
  ap, sym, ◌∙◌, ℕ, ◌≡◌, ◌≢◌, ◌⊎◌, refl, Bool, true, false, Option, none, some, arith, if◌then◌else◌,
  Option-cases, Bool-cases, ◌==◌, inl, inr, update, update_same, ℕ_discrete, eq→==, ne→==,
}
use moxie_simple.EventLoop.{
  EpollEvent, Ctl, ctl_add, ctl_del, ctl_mod, EventContext, EventLoop, Outcome, count, register_at,
  register, modity, delete, event_add, event_del, event_mod, event_ctl,
}
use moxie_simple.EventLoop.Tables.{
  IsEpoll, IsConsistent, refreshed-IsConsistent, entered-IsConsistent, left-IsConsistent,
}

-- What a call about the descriptor `own` leaves: an entry that is `now` if it succeeded and as
-- before if not, all other entries, and every context, of another descriptor at least where the
-- call may free one.
pub record Touches {E : Type 0} (own : ℕ) (frees : Bool) (now : Option ℕ) (l : EventLoop E)
    (ok : Bool) (after : EventLoop E) : Type 0 where
  pub entry : after.contexts own ≡ (if ok then now else l.contexts own)
  pub others : (q : ℕ) → q ≢ own → after.contexts q ≡ l.contexts q
  pub live :
      (a : ℕ) (c : EventContext)
      → l.objects a ≡ some c
      → (frees ≡ false) ⊎ (c.fd ≢ own)
      → after.objects a ≡ some c
  pub pollers : after.pollers ≡ l.pollers
  pub quit : after.quit ≡ l.quit

pub record Returns {E : Type 0} (watched : E → ℕ → Option EpollEvent) (own : ℕ) (frees : Bool)
    (now : Option ℕ) (l : EventLoop E) (r : Outcome E) : Type 0 where
  pub ok : Bool
  pub after : EventLoop E
  pub epoll : E
  pub returned : r ≡ some (ok, after)
  pub valid : IsConsistent watched after epoll
  pub touches : Touches own frees now l ok after

pub count-none : (m : ℕ → Option ℕ) (fd : ℕ) → m fd ≡ none → count m fd ≡ 0
unfolding count
count-none m fd e = ground (arith, e)

pub count-some : (m : ℕ → Option ℕ) (fd a : ℕ) → m fd ≡ some a → count m fd ≡ 1
unfolding count
count-some m fd a e = ground (arith, e)

-- The allocator gives no address that is in use.
abbrev pub IsUnused : {E : Type 0} → Option ℕ → EventLoop E → Type 0
IsUnused none l = Unit {0}
IsUnused (some a) l = l.objects a ≡ none

pub unchanged :
    {E : Type 0} (watched : E → ℕ → Option EpollEvent) (own : ℕ) (frees : Bool) (now : Option ℕ)
    (l : EventLoop E) (e : E) {r : Outcome E}
    → IsConsistent watched l e
    → r ≡ some (false, l)
    → Returns watched own frees now l r
unchanged watched own frees now l e v returned = record {
  ok = false;
  after = l;
  epoll = e;
  returned = returned;
  valid = v;
  touches = record {
    entry = refl;
    others = λ q other. refl;
    live = λ a c at other. at;
    pollers = refl;
    quit = refl;
  };
}

untouched :
    {E : Type 0} (own : ℕ) (frees : Bool) (now : Option ℕ) (l : EventLoop E) (e : E)
    → Touches own frees now l false (record l { epoll = some e })
untouched own frees now l e = record {
  entry = refl;
  others = λ q other. refl;
  live = λ a c at other. at;
  pollers = refl;
  quit = refl;
}

untouched_same :
    {E : Type 0} (own : ℕ) (frees : Bool) (l : EventLoop E) (e : E)
    → Touches own frees (l.contexts own) l true (record l { epoll = some e })
untouched_same own frees l e = record {
  entry = refl;
  others = λ q other. refl;
  live = λ a c at other. at;
  pollers = refl;
  quit = refl;
}

module _ {E : Type 0} (epoll_ctl : E → Ctl → ℕ → Option EpollEvent → Option E)
    (watched : E → ℕ → Option EpollEvent) (laws : IsEpoll epoll_ctl watched) where
  modity_known :
      (event : ℕ) (l : EventLoop E) (e : E) (a : ℕ)
      → IsConsistent watched l e
      → l.contexts (l.pollers event).sock ≡ some a
      → Returns watched
          (l.pollers event).sock
          false
          (l.contexts (l.pollers event).sock)
          l
          (modity epoll_ctl event l)
  unfolding modity event_mod event_ctl
  modity_known event l e a v here =
      elim (Option-cases (
        epoll_ctl e ctl_mod (l.pollers event).sock
          (some (record { events = (l.pollers event).event; ptr = a })))) [
            | inl failed ↦ record {
              ok = false;
              after = record l { epoll = some e };
              epoll = e;
              returned = simp (modity, here, v.opened, failed) refl;
              valid = record { opened = refl; held = v.held; listed = v.listed; same = v.same };
              touches =
                  untouched (l.pollers event).sock false (l.contexts (l.pollers event).sock) l e;
            }
            | inr (e', done) ↦ record {
              ok = true;
              after = record l { epoll = some e' };
              epoll = e';
              returned = simp (modity, here, v.opened, done) refl;
              valid =
                  refreshed-IsConsistent watched l e e' (l.pollers event).sock a
                    (l.pollers event).event v here (laws.modified e e' _ _ done);
              touches = untouched_same (l.pollers event).sock false l e';
            }
          ]

  -- `Modity` changes no table, and keeps them consistent with epoll.
  pub modity-Returns :
      (event : ℕ) (l : EventLoop E) (e : E)
      → IsConsistent watched l e
      → Returns watched
          (l.pollers event).sock
          false
          (l.contexts (l.pollers event).sock)
          l
          (modity epoll_ctl event l)
  modity-Returns event l e v = elim (Option-cases (l.contexts (l.pollers event).sock)) [
    | inl missing ↦ unchanged watched _ false _ l e v (unfold modity in simp (modity, missing) refl)
    | inr (a, here) ↦ modity_known event l e a v here
  ]

  delete_known :
      (event : ℕ) (l : EventLoop E) (e : E) (a : ℕ)
      → IsConsistent watched l e
      → l.contexts (l.pollers event).sock ≡ some a
      → Returns watched (l.pollers event).sock true none l (delete epoll_ctl event l)
  unfolding delete event_del event_ctl update
  delete_known event l e a v here =
      elim (Option-cases (epoll_ctl e ctl_del (l.pollers event).sock none)) [
        | inl failed ↦ record {
          ok = false;
          after = record l { epoll = some e };
          epoll = e;
          returned = simp (delete, here, v.opened, failed) refl;
          valid = record { opened = refl; held = v.held; listed = v.listed; same = v.same };
          touches = untouched (l.pollers event).sock true none l e;
        }
        | inr (e', done) ↦ record {
          ok = true;
          after = record l {
            epoll = some e';
            contexts = update l.contexts (l.pollers event).sock none;
            objects = update l.objects a none;
          };
          epoll = e';
          returned = simp (delete, here, v.opened, done) refl;
          valid =
              left-IsConsistent watched l e e' (l.pollers event).sock a v here
                (laws.deleted e e' _ done);
          touches = record {
            entry = ground arith;
            others = λ q other. ground arith;
            live = λ b c at other.
                let (c', there, of_fd) = v.held _ a here in ground (arith, there, of_fd, other);
            pollers = refl;
            quit = refl;
          };
        }
      ]

  pub delete-Returns :
      (event : ℕ) (l : EventLoop E) (e : E)
      → IsConsistent watched l e
      → Returns watched (l.pollers event).sock true none l (delete epoll_ctl event l)
  delete-Returns event l e v = elim (Option-cases (l.contexts (l.pollers event).sock)) [
    | inl missing ↦ unchanged watched _ true _ l e v (unfold delete in simp (delete, missing) refl)
    | inr (a, here) ↦ delete_known event l e a v here
  ]
