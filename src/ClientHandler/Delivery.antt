-- ===== src/ClientHandler/Delivery.antt =====
-- The write loop of base/ClientHandler.cpp loses no byte.
use moxie_simple.Base.{
  ℕ, ◌-◌, ◌≤◌, ◌≡◌, ◌≢◌, refl, sym, ap, ◌∙◌, List, [], ◌∷◌, ◌++◌, append_assoc, Bool, true, false,
  Option, none, some, arith, ℕ_discrete, eq→==, ne→==, length, take, drop, take-append-drop,
  size_sub, size_sub_lem, subst, length-drop, take-take_le,
}
use moxie_simple.Base.Memory.{slice}
use moxie_simple.Buffer.{Buffer, contents, readable_bytes, retrieve, peek}
use moxie_simple.Buffer.Invariant.{IsValid, readable_bytes_lem, length-contents}
use moxie_simple.Buffer.Contents.{retrieve_lem}
use moxie_simple.ClientHandler.{
  ClientHandler, Call, delete, close, modity, Write, refused, wrote, eagain, eintr, write_loop,
  hang_up,
}

-- `write` takes no more than it is given.
abbrev pub Fits : ℕ → List Write → Type 0
Fits len [] = Unit {0}
Fits len (refused errno ∷ outcomes) = Fits len outcomes
Fits len (wrote n ∷ outcomes) = (n ≤ len) × Fits (len - n) outcomes

-- The stream to the client: what has been sent, then what waits.
abbrev pub stream : ClientHandler → List ℕ
stream c = c.sent ++ contents c.write_buf

-- What the last `Modity` among some calls has given to epoll: the descriptor and its interest.
abbrev pub interest : Option (ℕ × ℕ) → List Call → Option (ℕ × ℕ)
interest i [] = i
interest i (modity sock event ∷ calls) = interest (some (sock, event)) calls
interest i (delete sock ∷ calls) = interest i calls
interest i (close sock ∷ calls) = interest i calls

pub interest-append :
    (i : Option (ℕ × ℕ)) (xs ys : List Call) → interest i (xs ++ ys) ≡ interest (interest i xs) ys
interest-append i [] ys = refl
interest-append i (modity sock event ∷ xs) ys = interest-append (some (sock, event)) xs ys
interest-append i (delete sock ∷ xs) ys = interest-append i xs ys
interest-append i (close sock ∷ xs) ys = interest-append i xs ys

abbrev pub asked : ClientHandler → Option (ℕ × ℕ)
asked c = interest none c.calls

-- What the loop leaves of a connection.
pub record Delivered (c : ClientHandler) (r : Option (Bool × ClientHandler)) : Type 0 where
  pub served : Bool
  pub result : ClientHandler
  pub returned : r ≡ some (served, result)
  pub valid : IsValid result.write_buf
  pub same_stream : stream result ≡ stream c
  pub same_event : result.event ≡ c.event
  pub same_read : result.read_buf ≡ c.read_buf
  pub same_asked : asked result ≡ asked c
  pub less : readable_bytes result.write_buf ≤ readable_bytes c.write_buf

stay :
    (c : ClientHandler) (served : Bool) {r : Option (Bool × ClientHandler)}
    → IsValid c.write_buf
    → r ≡ some (served, c)
    → Delivered c r
stay c served v e = record {
  served = served;
  result = c;
  returned = e;
  valid = v;
  same_stream = refl;
  same_event = refl;
  same_read = refl;
  same_asked = refl;
  less = omega arith;
}

leave :
    (c : ClientHandler) {r : Option (Bool × ClientHandler)}
    → IsValid c.write_buf
    → r ≡ some (false, hang_up c)
    → Delivered c r
unfolding hang_up
leave c v e = record {
  served = false;
  result = hang_up c;
  returned = e;
  valid = v;
  same_stream = refl;
  same_event = refl;
  same_read = refl;
  same_asked = interest-append none c.calls (delete c.event.sock ∷ close c.event.sock ∷ []);
  less = omega arith;
}

onwards :
    (c c' : ClientHandler) {r : Option (Bool × ClientHandler)} {r' : Option (Bool × ClientHandler)}
    → Delivered c' r'
    → r ≡ r'
    → stream c' ≡ stream c
    → (c'.event ≡ c.event) × (c'.read_buf ≡ c.read_buf) × (asked c' ≡ asked c)
    → readable_bytes c'.write_buf ≤ readable_bytes c.write_buf
    → Delivered c r
onwards c c' d e same (event, read, calls) fewer = record {
  served = d.served;
  result = d.result;
  returned = e ∙ d.returned;
  valid = d.valid;
  same_stream = d.same_stream ∙ same;
  same_event = d.same_event ∙ event;
  same_read = d.same_read ∙ read;
  same_asked = d.same_asked ∙ calls;
  less = omega (arith, d.less);
}

-- The first `n` bytes leave the buffer for the client.
abbrev moved : ClientHandler → ℕ → Buffer → ClientHandler
moved c n b = record c {
  write_buf = b;
  sent = c.sent ++ slice c.write_buf.buffer (peek c.write_buf) n;
}

stream-moved :
    (c : ClientHandler) (n : ℕ) (b : Buffer)
    → IsValid c.write_buf
    → n ≤ readable_bytes c.write_buf
    → contents b ≡ drop n (contents c.write_buf)
    → stream (moved c n b) ≡ stream c
unfolding peek
stream-moved c n b v small rest =
    let first : slice c.write_buf.buffer c.write_buf.reader_index n
        ≡ take n (contents c.write_buf) =
      sym (
        take-take_le n (c.write_buf.writer_index - c.write_buf.reader_index)
          (drop c.write_buf.reader_index c.write_buf.buffer)
          (omega (arith, small, readable_bytes_lem c.write_buf v))) in
    rw (first, rest)
      (append_assoc c.sent (take n (contents c.write_buf)) (drop n (contents c.write_buf))
        ∙ ap (◌++◌ c.sent) (take-append-drop n (contents c.write_buf)))

readable_bytes-moved :
    (b b' : Buffer) (n : ℕ)
    → IsValid b
    → IsValid b'
    → contents b' ≡ drop n (contents b)
    → readable_bytes b' ≡ readable_bytes b - n
readable_bytes-moved b b' n v v' rest =
    omega (
      arith,
      length-contents b v,
      length-contents b' v',
      ap length rest,
      length-drop n (contents b),
    )

fits_size :
    (b : Buffer) (n : ℕ)
    → IsValid b
    → n ≤ readable_bytes b
    → size_sub (readable_bytes b) n ≡ readable_bytes b - n
fits_size b n v small =
    size_sub_lem (readable_bytes b) n small (omega (arith, readable_bytes_lem b v))

abbrev then_full : List Write → List Write
then_full outcomes = outcomes ++ refused eagain ∷ []

write_none :
    (n : ℕ) (outcomes : List Write) (c : ClientHandler)
    → readable_bytes c.write_buf ≡ 0
    → write_loop (wrote n ∷ then_full outcomes) (readable_bytes c.write_buf) c ≡ some (true, c)
unfolding write_loop
write_none n outcomes c none_left = rw (eq→== _ _ none_left, write_loop) refl

write_zero :
    (n : ℕ) (outcomes : List Write) (c : ClientHandler)
    → readable_bytes c.write_buf ≢ 0
    → n ≡ 0
    → write_loop (wrote n ∷ then_full outcomes) (readable_bytes c.write_buf) c
      ≡ some (false, hang_up c)
unfolding write_loop
write_zero n outcomes c some_left closed =
    rw (ne→== _ _ some_left, eq→== _ _ closed, write_loop) refl

write_some :
    (n : ℕ) (outcomes : List Write) (c : ClientHandler) (b : Buffer)
    → readable_bytes c.write_buf ≢ 0
    → n ≢ 0
    → retrieve c.write_buf n ≡ some b
    → size_sub (readable_bytes c.write_buf) n ≡ readable_bytes b
    → write_loop (wrote n ∷ then_full outcomes) (readable_bytes c.write_buf) c
      ≡ write_loop (then_full outcomes) (readable_bytes b) (moved c n b)
unfolding write_loop
write_some n outcomes c b some_left some_taken taken len =
    rw (ne→== _ _ some_left, ne→== _ _ some_taken, write_loop, taken, len) refl

full-Delivered :
    (c : ClientHandler)
    → IsValid c.write_buf
    → Delivered c (write_loop (then_full []) (readable_bytes c.write_buf) c)
unfolding write_loop
full-Delivered c v = elim (ℕ_discrete (readable_bytes c.write_buf) 0) [
  | yes none_left ↦ stay c true v (rw (eq→== _ _ none_left) refl)
  | no some_left ↦ stay c true v (rw (ne→== _ _ some_left) refl)
]

refused-Delivered :
    (errno : ℕ) (outcomes : List Write) (c : ClientHandler)
    → IsValid c.write_buf
    → Delivered c (write_loop (then_full outcomes) (readable_bytes c.write_buf) c)
    → Delivered c (write_loop (refused errno ∷ then_full outcomes) (readable_bytes c.write_buf) c)
unfolding write_loop
refused-Delivered errno outcomes c v again = elim (ℕ_discrete (readable_bytes c.write_buf) 0) [
  | yes none_left ↦ stay c true v (rw (eq→== _ _ none_left, write_loop) refl)
  | no some_left ↦ elim (ℕ_discrete errno eintr) [
    | yes interrupted ↦
        onwards c c again (rw (ne→== _ _ some_left, eq→== _ _ interrupted, write_loop) refl) refl
          (refl, refl, refl) (omega arith)
    | no other ↦ elim (ℕ_discrete errno eagain) [
      | yes full ↦
          stay c true v (rw (ne→== _ _ some_left, ne→== _ _ other, eq→== _ _ full, write_loop) refl)
      | no broken ↦
          leave c v (rw (ne→== _ _ some_left, ne→== _ _ other, ne→== _ _ broken, write_loop) refl)
    ]
  ]
]

-- Whatever `write` did before, taking no more than it is given from a valid buffer, the loop of
-- `DoWrite` returns by the time it says EAGAIN. The bytes sent followed by those that still wait
-- are what they were: none is lost, repeated or moved.
pub write_loop-Delivered :
    (outcomes : List Write) (c : ClientHandler)
    → IsValid c.write_buf
    → Fits (readable_bytes c.write_buf) outcomes
    → Delivered c (write_loop (outcomes ++ refused eagain ∷ []) (readable_bytes c.write_buf) c)
write_loop-Delivered [] c v fits =
    unfold write_loop in
    elim (ℕ_discrete (readable_bytes c.write_buf) 0) [
      | yes none_left ↦ stay c true v (rw (eq→== _ _ none_left) refl)
      | no some_left ↦ stay c true v (rw (ne→== _ _ some_left) refl)
    ]
write_loop-Delivered (refused errno ∷ outcomes) c v fits =
    refused-Delivered errno outcomes c v (write_loop-Delivered outcomes c v fits)
write_loop-Delivered (wrote n ∷ outcomes) c v (small, fits) =
    elim (ℕ_discrete (readable_bytes c.write_buf) 0) [
      | yes none_left ↦ stay c true v (write_none n outcomes c none_left)
      | no some_left ↦ elim (ℕ_discrete n 0) [
        | yes closed ↦ leave c v (write_zero n outcomes c some_left closed)
        | no some_taken ↦
            let (b, taken, v', rest, same) = retrieve_lem c.write_buf n v small in
            let len : readable_bytes b ≡ readable_bytes c.write_buf - n =
              readable_bytes-moved c.write_buf b n v v' rest in
            onwards c (moved c n b)
              (write_loop-Delivered outcomes (moved c n b) v'
                (subst (λ k. Fits k outcomes) (sym len) fits))
              (write_some n outcomes c b some_left some_taken taken
                (fits_size c.write_buf n v small ∙ sym len))
              (stream-moved c n b v small rest) (refl, refl, refl) (omega (arith, len))
      ]
    ]
