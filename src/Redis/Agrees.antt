-- ===== src/Redis/Agrees.antt =====
-- The parts of the parser of example/Mcached/McachedRequestHandler.cpp do on buffers what those of
-- the specification do on the received bytes.
use moxie_simple.Base.{
  ℕ, ◌+◌, ◌≤◌, ◌<◌, ◌≡◌, refl, ap, sym, List, [], ◌∷◌, ◌++◌, false, Option, some, arith, ◌==◌,
  if◌then◌else◌, length, get_or, drop, Bool-cases, Option-cases, inl, inr, append-nil, subst,
}
use moxie_simple.Buffer.{Buffer, contents, crlf}
use moxie_simple.Buffer.Invariant.{IsValid, max_size}
use moxie_simple.Buffer.Compaction.{append-Appended}
use moxie_simple.Redis.{
  McachedClientHandler, invalid_multibulk, invalid_argv_len, invalid_argv_str, Flow, go_on, return,
  reply_string, reject, retrieve_line, retrieve_crlf, parse_argc_line, parse_argc,
  parse_length_line, parse_argument_line, parse_round,
}
use moxie_simple.Redis.Text.{atoi, int_to_size, minus_one, is_negative}
use moxie_simple.Redis.Line.{next_line, find_chars-no_line, Lined, next_line-Lined}
use moxie_simple.Redis.Stream.{
  Request, view, need_more, rejected, Progress, advance, stop, progress_reply, flow_of, argc_line,
  read_argc, length_line, argument_line, item_line, read_item, IsSilent,
}

-- Both buffers are valid, and an error reply fits behind the replies that wait.
pub record IsReady (c : McachedClientHandler) : Type 0 where
  pub read_valid : IsValid c.read_buf
  pub write_valid : IsValid c.write_buf
  pub room : c.write_buf.writer_index + 64 < max_size

-- A part of the parser, started with `replies` waiting, agrees with the part of the specification
-- that ends in `p`.
pub record Agrees (replies : Buffer) (r : Option (Flow × McachedClientHandler))
    (p : Progress × Request) : Type 0 where
  pub result : McachedClientHandler
  pub returned : r ≡ some (flow_of p.0, result)
  pub seen : view result ≡ p.1
  pub read_valid : IsValid result.read_buf
  pub write_valid : IsValid result.write_buf
  pub written : contents result.write_buf ≡ contents replies ++ progress_reply p.0
  pub silent : IsSilent p.0 → result.write_buf ≡ replies

reject-Agrees :
    (c : McachedClientHandler) (message : List ℕ)
    → IsReady c
    → length message ≤ 64
    → Agrees c.write_buf (reject c message) (stop (rejected message), view c)
unfolding reject reply_string
reject-Agrees c message v short =
    let (b, e, a) = append-Appended c.write_buf message v.write_valid (omega (arith, v.room)) in
    record {
      result = record c { write_buf = b };
      returned = rw e;
      seen = refl;
      read_valid = v.read_valid;
      write_valid = a.valid;
      written = a.extended;
      silent = λ h. absurd h;
    }

-- A part that takes a line and hands it on.
retrieve_line-Lined :
    (c : McachedClientHandler) {line rest : List ℕ} (l : Lined c.read_buf line rest)
    → retrieve_line c l.pos ≡ some (line, record c { read_buf = l.after_line })
unfolding retrieve_line
retrieve_line-Lined c l = rw l.line_taken

retrieve_crlf-Lined :
    (c : McachedClientHandler) {b : Buffer} {line rest : List ℕ} (l : Lined b line rest)
    → c.read_buf ≡ l.after_line
    → retrieve_crlf c ≡ some (record c { read_buf = l.after_crlf })
unfolding retrieve_crlf
retrieve_crlf-Lined c l e = rw (e, l.crlf_taken)

Agrees-seen :
    {w : Buffer} {r : Option (Flow × McachedClientHandler)} {p : Progress} {q q' : Request}
    → Agrees w r (p, q)
    → q ≡ q'
    → Agrees w r (p, q')
Agrees-seen {w} {r} {p} a e = subst (λ q. Agrees w r (p, q)) e a

pub go_on-Agrees :
    (c : McachedClientHandler) → IsReady c → Agrees c.write_buf (some (go_on, c)) (advance, view c)
go_on-Agrees c v = record {
  result = c;
  returned = refl;
  seen = refl;
  read_valid = v.read_valid;
  write_valid = v.write_valid;
  written = sym (append-nil (contents c.write_buf));
  silent = λ h. refl;
}

-- `c` is the handler when the line has been taken.
module _ (c : McachedClientHandler) {b : Buffer} {line rest : List ℕ} (l : Lined b line rest)
    (at_line : c.read_buf ≡ l.after_line) (v : IsReady c) where
  -- A refused line leaves its CRLF in the buffer.
  left : contents c.read_buf ≡ crlf ++ rest
  left = rw at_line l.line_left

  reject_line-Agrees :
      (argc cur : ℕ) (message : List ℕ)
      → length message ≤ 64
      → Agrees c.write_buf (reject (record c { argc = argc; cur_argv_len = cur }) message) (
        stop (rejected message),
        record (view c) { input = crlf ++ rest; argc = argc; cur_argv_len = cur },
      )
  reject_line-Agrees argc cur message short =
      Agrees-seen
        (reject-Agrees (record c { argc = argc; cur_argv_len = cur }) message
          (record { read_valid = v.read_valid; write_valid = v.write_valid; room = v.room }) short)
        (ap (λ i. record (view c) { input = i; argc = argc; cur_argv_len = cur }) left)

  taken-Agrees :
      (argc cur : ℕ) (argv : List (List ℕ))
      → Agrees c.write_buf
          (some (
            go_on,
            record c { read_buf = l.after_crlf; argc = argc; argv = argv; cur_argv_len = cur },
          ))
          (advance, record { input = rest; argc = argc; argv = argv; cur_argv_len = cur })
  taken-Agrees argc cur argv =
      Agrees-seen
        (go_on-Agrees
          (record c { read_buf = l.after_crlf; argc = argc; argv = argv; cur_argv_len = cur })
          (record { read_valid = l.crlf_valid; write_valid = v.write_valid; room = v.room }))
        (ap (λ i. record { input = i; argc = argc; argv = argv; cur_argv_len = cur }) l.crlf_left)

  parse_argc_line-Agrees :
      Agrees c.write_buf (parse_argc_line c line) (argc_line (view c) line rest)
  unfolding parse_argc_line argc_line
  parse_argc_line-Agrees = elim (Bool-cases (get_or line 0 0 == b'*')) [
    | inl star ↦ elim (Bool-cases (int_to_size (atoi (drop 1 line)) == 0)) [
      | inl zero_args ↦
          rw (star, zero_args) (reject_line-Agrees _ _ invalid_multibulk (omega arith))
      | inr some_args ↦
          rw
            (
              star,
              some_args,
              retrieve_crlf-Lined (record c { argc = int_to_size (atoi (drop 1 line)) }) l at_line,
            )
            (taken-Agrees _ _ _)
    ]
    | inr other ↦ rw other (reject_line-Agrees _ _ invalid_multibulk (omega arith))
  ]

  parse_length_line-Agrees :
      Agrees c.write_buf (parse_length_line c line) (length_line (view c) line rest)
  unfolding parse_length_line length_line
  parse_length_line-Agrees = elim (Bool-cases (get_or line 0 0 == b'$')) [
    | inl dollar ↦
        rw (dollar, retrieve_crlf-Lined (record c { cur_argv_len = atoi (drop 1 line) }) l at_line)
          (taken-Agrees _ _ _)
    | inr other ↦ rw other (reject_line-Agrees _ _ invalid_argv_len (omega arith))
  ]

  parse_argument_line-Agrees :
      Agrees c.write_buf (parse_argument_line c line) (argument_line (view c) line rest)
  unfolding parse_argument_line argument_line
  parse_argument_line-Agrees = elim (Bool-cases (length line == int_to_size c.cur_argv_len)) [
    | inl fits ↦
        rw (fits, retrieve_crlf-Lined (record c { argv = c.argv ++ line ∷ [] }) l at_line)
          (taken-Agrees _ _ _)
    | inr other ↦ rw other (reject_line-Agrees _ _ invalid_argv_str (omega arith))
  ]

  parse_item_line-Agrees :
      Agrees c.write_buf
        (if is_negative c.cur_argv_len
          then parse_length_line c line
          else parse_argument_line c line)
        (item_line (view c) line rest)
  parse_item_line-Agrees = elim (Bool-cases (is_negative c.cur_argv_len)) [
    | inl n ↦ rw n parse_length_line-Agrees
    | inr n ↦ rw n parse_argument_line-Agrees
  ]

-- The handler when the line of `l` has been taken.
abbrev line_taken :
    (c : McachedClientHandler) {line rest : List ℕ}
    → Lined c.read_buf line rest
    → McachedClientHandler
line_taken c l = record c { read_buf = l.after_line }

line_taken-IsReady :
    (c : McachedClientHandler) {line rest : List ℕ} (l : Lined c.read_buf line rest)
    → IsReady c
    → IsReady (line_taken c l)
line_taken-IsReady c l v = record {
  read_valid = l.line_valid;
  write_valid = v.write_valid;
  room = v.room;
}

stop_silently :
    (c : McachedClientHandler)
    → IsReady c
    → Agrees c.write_buf (some (return false, c)) (stop need_more, view c)
stop_silently c v = record {
  result = c;
  returned = refl;
  seen = refl;
  read_valid = v.read_valid;
  write_valid = v.write_valid;
  written = sym (append-nil (contents c.write_buf));
  silent = λ h. refl;
}

pub parse_argc-Agrees :
    (c : McachedClientHandler) → IsReady c → Agrees c.write_buf (parse_argc c) (read_argc (view c))
unfolding parse_argc read_argc
parse_argc-Agrees c v = elim (Option-cases (next_line (contents c.read_buf))) [
  | inl e ↦
      rw (find_chars-no_line c.read_buf v.read_valid e, e, parse_argc, read_argc)
        (stop_silently _
          (record { read_valid = v.read_valid; write_valid = v.write_valid; room = v.room }))
  | inr (r, e) ↦
      let l = next_line-Lined c.read_buf r.0 r.1 v.read_valid e in
      let c' = record c { argv = []; cur_argv_len = minus_one } in
      rw (l.found, e, parse_argc, read_argc, retrieve_line-Lined c' l)
        (unfold argc_line in
          parse_argc_line-Agrees (line_taken c' l) l refl
            (record { read_valid = l.line_valid; write_valid = v.write_valid; room = v.room }))
]

pub parse_round-Agrees :
    (c : McachedClientHandler) → IsReady c → Agrees c.write_buf (parse_round c) (read_item (view c))
unfolding parse_round read_item
parse_round-Agrees c v = elim (Option-cases (next_line (contents c.read_buf))) [
  | inl e ↦
      rw (find_chars-no_line c.read_buf v.read_valid e, e, parse_round, read_item)
        (stop_silently c v)
  | inr (r, e) ↦
      let l = next_line-Lined c.read_buf r.0 r.1 v.read_valid e in
      rw (l.found, e, parse_round, read_item, retrieve_line-Lined c l)
        (unfold argument_line length_line in
          parse_item_line-Agrees (line_taken c l) l refl (line_taken-IsReady c l v))
]
