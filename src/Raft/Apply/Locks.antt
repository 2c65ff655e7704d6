-- ===== src/Raft/Apply/Locks.antt =====
-- The locks that `Apply` of floyd/src/floyd_apply.cc keeps in the database.
use moxie_simple.Base.{ℕ, ◌<◌, ◌≤◌, ◌≡◌, ◌⊎◌, inl, inr, ap, ◌∙◌, List, arith, lt→ltb, ge→ltb}
use moxie_simple.Raft.{Entry}
use moxie_simple.Raft.Server.{done, missing, Database, Lock, Library, Server}
use moxie_simple.Raft.Apply.{put_lock, apply_try_lock}

-- The lock that a `TryLock` asks for.
abbrev pub asked_lock : Entry → Lock
asked_lock e = record { holder = e.holder; lease_end = e.lease_end }

module _ {D : Type 0} (rocks : Database D) (lib : Library)
    (get_put : (key value : List ℕ) (db : D)
      → (rocks.put key value db).0 ≡ done
      → rocks.get key (rocks.put key value db).1 ≡ (done, value))
    (parse_serialize : (lock : Lock) → lib.parse_lock (lib.serialize_lock lock) ≡ lock) where
  put_lock_lem :
      (e : Entry) (s : Server D)
      → (put_lock rocks lib e s).0 ≡ done
      → let s' = (put_lock rocks lib e s).1 in
        ((rocks.get e.key s'.db).0 ≡ done)
        × (lib.parse_lock (rocks.get e.key s'.db).1 ≡ asked_lock e)
  unfolding put_lock
  put_lock_lem e s h =
      let back = get_put e.key (lib.serialize_lock (asked_lock e)) s.db h in
      (ap (λ x. x.0) back, ap (λ x. lib.parse_lock x.1) back ∙ parse_serialize (asked_lock e))

  free_lem :
      (now : ℕ) (e : Entry) (s : Server D)
      → (rocks.get e.key s.db).0 ≡ missing
      → apply_try_lock rocks lib now e s ≡ put_lock rocks lib e s
  unfolding apply_try_lock
  free_lem now e s free = simp (apply_try_lock, free)

  taken_lem :
      (now : ℕ) (e : Entry) (s : Server D)
      → (rocks.get e.key s.db).0 ≡ done
      → now ≤ (lib.parse_lock (rocks.get e.key s.db).1).lease_end
      → apply_try_lock rocks lib now e s ≡ (done, s)
  unfolding apply_try_lock
  taken_lem now e s there soon =
      let no_end = ge→ltb (lib.parse_lock (rocks.get e.key s.db).1).lease_end now soon in
      simp (apply_try_lock, there, no_end)

  over_lem :
      (now : ℕ) (e : Entry) (s : Server D)
      → (rocks.get e.key s.db).0 ≡ done
      → (lib.parse_lock (rocks.get e.key s.db).1).lease_end < now
      → apply_try_lock rocks lib now e s ≡ put_lock rocks lib e s
  unfolding apply_try_lock
  over_lem now e s there late =
      let ended = lt→ltb (lib.parse_lock (rocks.get e.key s.db).1).lease_end now late in
      simp (apply_try_lock, there, ended)

  -- A lock excludes others until its lease ends. If the key is missing, or its lease is over, and
  -- the database can write, `TryLock` makes its holder the holder; any other `TryLock` of that key
  -- that is applied before that lease ends, whoever asks, leaves the server as it is.
  pub apply_try_lock-excludes :
      (now now' : ℕ) (e e' : Entry) (s : Server D)
      → ((rocks.get e.key s.db).0 ≡ missing)
        ⊎ (((rocks.get e.key s.db).0 ≡ done)
            × ((lib.parse_lock (rocks.get e.key s.db).1).lease_end < now))
      → (put_lock rocks lib e s).0 ≡ done
      → e'.key ≡ e.key
      → now' ≤ e.lease_end
      → let (ret, s') = apply_try_lock rocks lib now e s in
        (ret ≡ done)
        × ((rocks.get e.key s'.db).0 ≡ done)
        × (lib.parse_lock (rocks.get e.key s'.db).1 ≡ asked_lock e)
        × (apply_try_lock rocks lib now' e' s' ≡ (done, s'))
  apply_try_lock-excludes now now' e e' s free written same soon =
      let (there, lock) = put_lock_lem e s written in
      let s' = (put_lock rocks lib e s).1 in
      let there' : (rocks.get e'.key s'.db).0 ≡ done =
        ap (λ k. (rocks.get k s'.db).0) same ∙ there in
      let lock' : lib.parse_lock (rocks.get e'.key s'.db).1 ≡ asked_lock e =
        ap (λ k. lib.parse_lock (rocks.get k s'.db).1) same ∙ lock in
      let soon' : now' ≤ (lib.parse_lock (rocks.get e'.key s'.db).1).lease_end =
        omega (arith, ap (λ l. l.lease_end) lock', soon) in
      let put : apply_try_lock rocks lib now e s ≡ put_lock rocks lib e s = elim free [
        | inl nobody ↦ free_lem now e s nobody
        | inr (held, late) ↦ over_lem now e s held late
      ] in
      rw put (written, there, lock, taken_lem now' e' s' there' soon')

  -- Servers that apply one and the same entry do not stay alike. Whether the lease of a lock is
  -- over is asked of each server's own clock when it applies the entry: where it reads the end of
  -- the lease at the latest the old lock stays, and where it reads later the lock of the entry is
  -- there, for the same server before and a database that can write.
  pub apply_try_lock-diverges :
      (now now' : ℕ) (e : Entry) (s : Server D)
      → (rocks.get e.key s.db).0 ≡ done
      → now ≤ (lib.parse_lock (rocks.get e.key s.db).1).lease_end
      → (lib.parse_lock (rocks.get e.key s.db).1).lease_end < now'
      → (put_lock rocks lib e s).0 ≡ done
      → let s₁ = (apply_try_lock rocks lib now e s).1 in
        let s₂ = (apply_try_lock rocks lib now' e s).1 in
        (lib.parse_lock (rocks.get e.key s₁.db).1 ≡ lib.parse_lock (rocks.get e.key s.db).1)
        × (lib.parse_lock (rocks.get e.key s₂.db).1 ≡ asked_lock e)
  apply_try_lock-diverges now now' e s there soon late written =
      let (there', lock) = put_lock_lem e s written in
      (
        ap (λ x. lib.parse_lock (rocks.get e.key x.1.db).1) (taken_lem now e s there soon),
        ap (λ x. lib.parse_lock (rocks.get e.key x.1.db).1) (over_lem now' e s there late) ∙ lock,
      )
