-- ===== src/Echo/Session.antt =====
-- The connections of example/Echo.cpp echo what arrives: all bytes once, in their order.
use moxie_simple.Base.{
  ℕ, ◌≡◌, ◌+◌, ◌<◌, refl, sym, subst, ◌∙◌, ap, List, [], ◌∷◌, ◌++◌, append_assoc, append-nil, Bool,
  true, false, Option, none, some, arith, length, ltb, lt→ltb, Bool-cases, inl, inr, ltb→ge,
}
use moxie_simple.Base.Memory.{slice}
use moxie_simple.Buffer.{Buffer, peek, readable_bytes, retrieve_all, contents, Readv, failed}
use moxie_simple.Buffer.Invariant.{IsValid, max_size, length-contents, readable_bytes_lem}
use moxie_simple.Buffer.Compaction.{append-Appended}
use moxie_simple.PollerEvent.{enable_write, disable_write}
use moxie_simple.PollerEvent.Bits.{enable_write_lem, wants_write}
use moxie_simple.ClientHandler.{
  ClientHandler, modity, Write, refused, eagain, do_read, do_write, write_loop,
}
use moxie_simple.ClientHandler.Delivery.{
  stream, asked, interest-append, Fits, Delivered, write_loop-Delivered,
}
use moxie_simple.ClientHandler.Reading.{Arrives, do_read-Arrives}
use moxie_simple.Echo.{update_interest, after_read, after_write}

-- The interest of the connection has EPOLLOUT, and is what the last `Modity` has given to epoll.
abbrev pub AsksToWrite : ClientHandler → Type 0
AsksToWrite c = (wants_write c.event ≡ 1) × (asked c ≡ some (c.event.sock, c.event.event))

-- While bytes wait to be sent, epoll is asked for EPOLLOUT.
abbrev pub IsInterested : ClientHandler → Type 0
IsInterested c = 0 < readable_bytes c.write_buf → AsksToWrite c

-- What `AfetrRead` leaves of a connection with bytes to echo.
record Echoed (c : ClientHandler) (r : Option ClientHandler) : Type 0 where
  pub after : ClientHandler
  pub returned : r ≡ some after
  pub valid : IsValid after.read_buf
  pub valid_write : IsValid after.write_buf
  pub empty : contents after.read_buf ≡ []
  pub same_stream : stream after ≡ stream c ++ contents c.read_buf
  pub interested : AsksToWrite after

retrieve_all-IsValid :
    (b : Buffer) → IsValid b → IsValid (retrieve_all b) × (contents (retrieve_all b) ≡ [])
unfolding retrieve_all
retrieve_all-IsValid b v = (omega (arith, v.within), refl)

after_read-Echoed :
    (c : ClientHandler)
    → IsValid c.read_buf
    → IsValid c.write_buf
    → 0 < readable_bytes c.read_buf
    → c.write_buf.writer_index + length (contents c.read_buf) < max_size
    → Echoed c (after_read c)
unfolding after_read peek update_interest
after_read-Echoed c v w some_bytes small =
    let bytes : slice c.read_buf.buffer c.read_buf.reader_index (readable_bytes c.read_buf)
        ≡ contents c.read_buf =
      rw (readable_bytes_lem c.read_buf v) refl in
    let (b, e, a) = append-Appended c.write_buf (contents c.read_buf) w small in
    let (v', none_left) = retrieve_all-IsValid c.read_buf v in
    record {
      after =
          update_interest (enable_write c.event)
            (record c { write_buf = b; read_buf = retrieve_all c.read_buf });
      returned = rw (after_read, lt→ltb _ _ some_bytes, bytes, e) refl;
      valid = v';
      valid_write = a.valid;
      empty = none_left;
      same_stream =
          ap (◌++◌ c.sent) a.extended
          ∙ sym (append_assoc c.sent (contents c.write_buf) (contents c.read_buf));
      interested = (
        (enable_write_lem c.event).0,
        interest-append none c.calls
            (modity (enable_write c.event).sock (enable_write c.event).event ∷ []),
      );
    }

-- A connection between two turns.
pub record IsReady (c : ClientHandler) : Type 0 where
  pub valid : IsValid c.read_buf
  pub valid_write : IsValid c.write_buf
  pub empty : contents c.read_buf ≡ []
  pub interested : IsInterested c

-- What a turn leaves, in which `bytes` have arrived.
abbrev pub Turns : ClientHandler → List ℕ → Option ClientHandler → Type 0
Turns c bytes r =
    (after : ClientHandler) × (r ≡ some after) × IsReady after × (stream after ≡ stream c ++ bytes)

-- A turn that reads until there is no more echoes all that has arrived behind what waits.
pub do_read-Turns :
    {outcomes : List Readv} {bytes : List ℕ} (c : ClientHandler) (later : List Readv)
    → Arrives outcomes bytes
    → IsReady c
    → 0 < length bytes
    → length c.read_buf.buffer + length bytes < max_size
    → c.write_buf.writer_index + length bytes < max_size
    → Turns c bytes (do_read after_read after_write (outcomes ++ failed eagain ∷ later) c)
do_read-Turns {outcomes} {bytes} c later arrives ready some_bytes small room =
    let (b, e, v', all) =
      do_read-Arrives after_read after_write c later arrives ready.valid small some_bytes in
    let now : contents b ≡ bytes = all ∙ ap (λ k. k ++ bytes) ready.empty in
    let some_left : 0 < readable_bytes b =
      omega (arith, some_bytes, length-contents b v', ap length now) in
    let t =
      after_read-Echoed (record c { read_buf = b }) v' ready.valid_write some_left
        (omega (arith, ap length now)) in
    (
      t.after,
      e ∙ t.returned,
      record {
        valid = t.valid;
        valid_write = t.valid_write;
        empty = t.empty;
        interested = λ waiting. t.interested;
      },
      t.same_stream ∙ ap (◌++◌ (stream c)) now,
    )

after_write-Turns : (c : ClientHandler) → IsReady c → Turns c [] (after_write c)
unfolding after_write update_interest
after_write-Turns c ready = elim (Bool-cases (ltb 0 (readable_bytes c.write_buf))) [
  | inl waiting ↦ (c, rw waiting refl, ready, sym (append-nil (stream c)))
  | inr sent_all ↦ (
    update_interest (disable_write c.event) c,
    rw sent_all refl,
    record {
      valid = ready.valid;
      valid_write = ready.valid_write;
      empty = ready.empty;
      interested = λ waiting.
          absurd (omega (arith, waiting, ltb→ge 0 (readable_bytes c.write_buf) sent_all));
    },
    sym (append-nil (stream c)),
  )
]

-- A turn that writes until the socket is full, or breaks, loses and adds nothing, and keeps
-- what epoll is asked for while bytes wait.
pub do_write-Turns :
    (outcomes : List Write) (c : ClientHandler)
    → IsReady c
    → Fits (readable_bytes c.write_buf) outcomes
    → Turns c [] (do_write after_read after_write (outcomes ++ refused eagain ∷ []) c)
unfolding do_write
do_write-Turns outcomes c ready fits =
    let d = write_loop-Delivered outcomes c ready.valid_write fits in
    ends d.served d.result d.returned (still_ready d) d.same_stream
  where
    still_ready : {r : Option (Bool × ClientHandler)} (d : Delivered c r) → IsReady d.result
    still_ready d = record {
      valid = subst IsValid (sym d.same_read) ready.valid;
      valid_write = d.valid;
      empty = ap contents d.same_read ∙ ready.empty;
      interested = λ waiting.
          (let (bit, given) = ready.interested (omega (arith, waiting, d.less)) in
            (
              ap wants_write d.same_event ∙ bit,
              d.same_asked ∙ given ∙ sym (ap (λ e. some (e.sock, e.event)) d.same_event),
            ));
    }

    ends :
        (served : Bool) (c' : ClientHandler)
        → write_loop (outcomes ++ refused eagain ∷ []) (readable_bytes c.write_buf) c
          ≡ some (served, c')
        → IsReady c'
        → stream c' ≡ stream c
        → Turns c [] (do_write after_read after_write (outcomes ++ refused eagain ∷ []) c)
    ends true c' e ready' same =
        let (after, returned, r, s) = after_write-Turns c' ready' in
        (after, rw (do_write, e) returned, r, s ∙ ap (λ k. k ++ []) same)
    ends false c' e ready' same =
        (c', rw (do_write, e) refl, ready', same ∙ sym (append-nil (stream c)))

-- Turns of a connection, with the bytes that arrive in them, from one state to another.
pub data Session : Option ClientHandler → List ℕ → Option ClientHandler → Type 0 where
  start : {r : Option ClientHandler} → Session r [] r
  reads :
      {c : ClientHandler} {r : Option ClientHandler} {outcomes : List Readv} {bytes more : List ℕ}
      (later : List Readv)
      → Arrives outcomes bytes
      → 0 < length bytes
      → length c.read_buf.buffer + length bytes < max_size
      → c.write_buf.writer_index + length bytes < max_size
      → Session (do_read after_read after_write (outcomes ++ failed eagain ∷ later) c) more r
      → Session (some c) (bytes ++ more) r
  writes :
      {c : ClientHandler} {r : Option ClientHandler} {bytes : List ℕ} (outcomes : List Write)
      → Fits (readable_bytes c.write_buf) outcomes
      → Session (do_write after_read after_write (outcomes ++ refused eagain ∷ []) c) bytes r
      → Session (some c) bytes r

carry :
    (c after : ClientHandler) (bytes more : List ℕ) {r : Option ClientHandler}
    → stream after ≡ stream c ++ bytes
    → Turns after more r
    → Turns c (bytes ++ more) r
carry c after bytes more same (c', e, ready, all) =
    (c', e, ready, all ∙ ap (λ k. k ++ more) same ∙ append_assoc (stream c) bytes more)

session :
    {r r' : Option ClientHandler} {bytes : List ℕ} (c : ClientHandler)
    → Session r bytes r'
    → r ≡ some c
    → IsReady c
    → Turns c bytes r'
session c start e ready = (c, e, ready, sym (append-nil (stream c)))
session c
      (reads {c = c₀} {r = r} {outcomes = outcomes} {bytes = bytes} {more = more} later arrives
        some_bytes small room rest)
      e ready =
    let same : c₀ ≡ c = cc in
    let (after, e', ready', s) =
      do_read-Turns c₀ later arrives (subst IsReady (sym same) ready) some_bytes small room in
    subst (λ k. Turns k (bytes ++ more) r) same
      (carry c₀ after bytes more s (session after rest e' ready'))
session c (writes {c = c₀} {r = r} {bytes = bytes} outcomes fits rest) e ready =
    let same : c₀ ≡ c = cc in
    let (after, e', ready', s) = do_write-Turns outcomes c₀ (subst IsReady (sym same) ready) fits in
    subst (λ k. Turns k bytes r) same (carry c₀ after [] bytes s (session after rest e' ready'))

-- A new echo connection, with nothing in its buffers and nothing sent, whose turns each read what
-- arrives until EAGAIN or write until EAGAIN or a failure, within the capacity of the machine:
-- however the turns follow each other, each returns, and what the client has been sent, followed
-- by what waits for it, is all that has arrived, in its order. While bytes wait, the interest of
-- its event has EPOLLOUT, and the last call of `Modity` was made with that interest.
pub Session-echoes :
    {r : Option ClientHandler} {bytes : List ℕ} (c : ClientHandler)
    → IsReady c
    → stream c ≡ []
    → Session (some c) bytes r
    → (after : ClientHandler) × (r ≡ some after)
      × IsReady after
      × (after.sent ++ contents after.write_buf ≡ bytes)
Session-echoes {r} {bytes} c ready new turns =
    let (after, e, ready', all) = session c turns refl ready in
    (after, e, ready', all ∙ ap (λ k. k ++ bytes) new)
