-- ===== src/Redis/Reply.antt =====
-- Executing a request and writing its reply, and when `AfetrRead` schedules it.
use moxie_simple.Base.{
  ℕ, ◌+◌, ◌-◌, ◌≤◌, ◌<◌, ◌≡◌, refl, ap, sym, ◌∙◌, List, [], ◌∷◌, ◌++◌, Bool, true, false, Option,
  some, arith, if◌then◌else◌, ◌>>=◌, length, length-append, append_assoc, append-nil, inl, inr,
  eq→==, lt→ltb,
}
use moxie_simple.Buffer.{contents, crlf, cheap_prepend, writable_bytes}
use moxie_simple.Buffer.Invariant.{IsValid, max_size}
use moxie_simple.Buffer.Compaction.{append-Appended, writable-append}
use moxie_simple.Redis.{
  McachedClientHandler, Status, reply_string, reply_bulk_string, reply_result, is_set, is_get,
  do_mcached_command,
}
use moxie_simple.Redis.Text.{codes, to_string}
use moxie_simple.PollerEvent.{PollerEvent}

-- The handler `c'` is `c` with `bytes` behind its waiting replies.
pub record Replied (c : McachedClientHandler) (bytes : List ℕ) (c' : McachedClientHandler)
    : Type 0 where
  pub only_replies : c' ≡ record c { write_buf = c'.write_buf }
  pub valid : IsValid c'.write_buf
  pub written : contents c'.write_buf ≡ contents c.write_buf ++ bytes
  pub bound : c'.write_buf.writer_index ≤ c.write_buf.writer_index + length bytes
  pub front : c.write_buf.reader_index ≡ cheap_prepend → c'.write_buf.reader_index ≡ cheap_prepend
  pub used :
      c.write_buf.reader_index ≡ cheap_prepend
      → writable_bytes c'.write_buf ≡ writable_bytes c.write_buf - length bytes

Replied-trans :
    {c d e : McachedClientHandler} {xs ys : List ℕ}
    → Replied c xs d
    → Replied d ys e
    → Replied c (xs ++ ys) e
Replied-trans {c} {d} {e} {xs} {ys} r s = record {
  only_replies =
      s.only_replies
      ∙ ap {A = McachedClientHandler} (λ k. record k { write_buf = e.write_buf }) r.only_replies;
  valid = s.valid;
  written = s.written ∙ ap (λ k. k ++ ys) r.written ∙ append_assoc (contents c.write_buf) xs ys;
  bound = omega (arith, r.bound, s.bound, length-append xs ys);
  front = λ h. s.front (r.front h);
  used = λ h. omega (arith, r.used h, s.used (r.front h), length-append xs ys);
}

-- What writes exactly `bytes`, wherever there is room for them.
pub record Sends (f : McachedClientHandler → Option McachedClientHandler) (bytes : List ℕ)
    : Type 0 where
  pub sends :
      (c : McachedClientHandler)
      → IsValid c.write_buf
      → c.write_buf.writer_index + length bytes < max_size
      → (c' : McachedClientHandler) × (f c ≡ some c') × Replied c bytes c'

reply_string-Sends : (bytes : List ℕ) → Sends (λ c. reply_string c bytes) bytes
unfolding reply_string
reply_string-Sends bytes = record {
  sends = λ c v room.
      let (b, e, a) = append-Appended c.write_buf bytes v room in
      (
        record c { write_buf = b },
        rw e,
        record {
          only_replies = refl;
          valid = a.valid;
          written = a.extended;
          bound = a.bound;
          front = a.front;
          used = λ h. writable-append c.write_buf b bytes v h a;
        },
      );
}

Sends-bind :
    {f g : McachedClientHandler → Option McachedClientHandler} {xs ys : List ℕ}
    → Sends f xs
    → Sends g ys
    → Sends (λ c. f c >>= g) (xs ++ ys)
Sends-bind {f} {g} {xs} {ys} s t = record {
  sends = λ c v room.
      let (d, e, r) = s.sends c v (omega (arith, length-append xs ys)) in
      let (d', e', r') = t.sends d r.valid (omega (arith, r.bound, length-append xs ys)) in
      (d', rw e e', Replied-trans r r');
}

-- `$<length>CRLF<item>CRLF`.
abbrev pub bulk : List ℕ → List ℕ
bulk item = (b'$' ∷ []) ++ (to_string (length item) ++ (crlf ++ (item ++ crlf)))

reply_bulk_string-Sends : (item : List ℕ) → Sends (λ c. reply_bulk_string c item) (bulk item)
unfolding reply_bulk_string
reply_bulk_string-Sends item = Sends-bind (reply_string-Sends (b'$' ∷ [])) (
    Sends-bind (reply_string-Sends (to_string (length item))) (
      Sends-bind (reply_string-Sends crlf)
        (Sends-bind (reply_string-Sends item) (reply_string-Sends crlf))))

nothing-Sends : Sends (λ c. some c) []
nothing-Sends = record {
  sends = λ c v room. (
    c,
    refl,
    record {
      only_replies = refl;
      valid = v;
      written = sym (append-nil (contents c.write_buf));
      bound = omega arith;
      front = λ h. h;
      used = λ h. omega arith;
    },
  );
}

Sends-if :
    {f g : McachedClientHandler → Option McachedClientHandler} {xs ys : List ℕ} (b : Bool)
    → Sends f xs
    → Sends g ys
    → Sends (λ c. if b then f c else g c) (if b then xs else ys)
Sends-if true s t = s
Sends-if false s t = t

-- The reply to a request, from its name and from what its execution returned.
abbrev pub error_prefix : List (List ℕ) → List ℕ
error_prefix argv =
    if is_set argv
    then codes "-ERR write "
    else (if is_get argv then codes "-ERR read " else codes "-ERR request ")

abbrev pub reply_bytes : List (List ℕ) → Status × List ℕ → List ℕ
reply_bytes argv (inl ok, res) =
    if is_set argv then codes "+OK" ++ crlf else (if is_get argv then bulk res else [])
reply_bytes argv (inr message, res) = error_prefix argv ++ (message ++ (codes " " ++ crlf))

reply_result-Replied :
    (c : McachedClientHandler) (r : Status × List ℕ)
    → IsValid c.write_buf
    → c.write_buf.writer_index + length (reply_bytes c.argv r) < max_size
    → (c' : McachedClientHandler) × (reply_result c r ≡ some c')
      × Replied c (reply_bytes c.argv r) c'
unfolding reply_result
reply_result-Replied c (inr message, res) v room =
    (reply_string-Sends (error_prefix c.argv ++ (message ++ (codes " " ++ crlf)))).sends c v room
reply_result-Replied c (inl ok, res) v room =
    (Sends-if (is_set c.argv) (reply_string-Sends (codes "+OK" ++ crlf))
        (Sends-if (is_get c.argv) (reply_bulk_string-Sends res) nothing-Sends)).sends
      c v room

-- A complete request is executed once, on the state `w`; its reply is appended to the waiting ones;
-- and the handler is idle again, with its unread bytes as they were.
pub do_mcached_command_lem :
    {World : Type 0} (exec : World → List (List ℕ) → (Status × List ℕ) × World) (w : World)
    (c : McachedClientHandler)
    → c.argc ≡ length c.argv
    → 0 < c.argc
    → IsValid c.write_buf
    → c.write_buf.writer_index + length (reply_bytes c.argv (exec w c.argv).0) < max_size
    → (c' : McachedClientHandler) × (do_mcached_command exec w c ≡ some ((exec w c.argv).1, c'))
      × (c'.argc ≡ 0)
      × (c'.argv ≡ [])
      × (c'.read_buf ≡ c.read_buf)
      × IsValid c'.write_buf
      × (contents c'.write_buf ≡ contents c.write_buf ++ reply_bytes c.argv (exec w c.argv).0)
unfolding do_mcached_command
do_mcached_command_lem exec w c counted some_args v room =
    let (c', e, r) = reply_result-Replied c (exec w c.argv).0 v room in
    (
      record c' { argc = 0; argv = [] },
      rw (eq→== _ _ counted, lt→ltb _ _ some_args, e),
      refl,
      refl,
      ap (λ k. k.read_buf) r.only_replies,
      r.valid,
      r.written,
    )
