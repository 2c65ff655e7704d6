-- ===== src/Redis/Stream.antt =====
-- The protocol as the client sees it: the parser of example/Mcached/McachedRequestHandler.cpp on
-- the list of bytes that have arrived, with no buffer.
use moxie_simple.Base.{
  ℕ, zero, suc, List, [], ◌∷◌, ◌++◌, Bool, true, false, not, Option, none, some, ltb, ◌==◌,
  if◌then◌else◌, ◌&&◌, ◌⊎◌, inl, inr, ◌≡◌, refl, ap, eq→==, ne→==, ◌≢◌, length, get_or, drop,
}
use moxie_simple.Buffer.{crlf, contents}
use moxie_simple.Redis.{
  McachedClientHandler, invalid_multibulk, invalid_argv_len, invalid_argv_str, Flow, go_on, return,
}
use moxie_simple.Redis.Text.{atoi, int_to_size, minus_one, is_negative}
use moxie_simple.Redis.Line.{next_line}

-- The input that is left, and what of the request has been read.
pub record Request : Type 0 where
  pub input : List ℕ
  pub argc : ℕ
  pub argv : List (List ℕ)
  pub cur_argv_len : ℕ

abbrev pub view : McachedClientHandler → Request
view c = record {
  input = contents c.read_buf;
  argc = c.argc;
  argv = c.argv;
  cur_argv_len = c.cur_argv_len;
}

-- How a call of the parser ends: with a request, for want of bytes, or with an error reply.
pub data Outcome : Type 0 where
  ready need_more : Outcome
  rejected : List ℕ → Outcome

pub data Progress : Type 0 where
  advance : Progress
  stop : Outcome → Progress

abbrev pub outcome_reply : Outcome → List ℕ
outcome_reply ready = []
outcome_reply need_more = []
outcome_reply (rejected message) = message

abbrev pub is_ready : Outcome → Bool
is_ready ready = true
is_ready need_more = false
is_ready (rejected message) = false

abbrev pub progress_reply : Progress → List ℕ
progress_reply advance = []
progress_reply (stop o) = outcome_reply o

-- No reply is written.
abbrev pub IsSilent : Progress → Type 0
IsSilent advance = Unit {0}
IsSilent (stop ready) = Unit {0}
IsSilent (stop need_more) = Unit {0}
IsSilent (stop (rejected message)) = ⊥

abbrev pub flow_of : Progress → Flow
flow_of advance = go_on
flow_of (stop o) = return (is_ready o)

-- A line that announces the number of arguments. A line that is refused is consumed, its CRLF not.
unfoldable pub argc_line : Request → List ℕ → List ℕ → Progress × Request
argc_line q line rest =
    if not (get_or line 0 0 == b'*')
    then (stop (rejected invalid_multibulk), record q { input = crlf ++ rest })
    else (if int_to_size (atoi (drop 1 line)) == 0
        then (
          stop (rejected invalid_multibulk),
          record q { input = crlf ++ rest; argc = int_to_size (atoi (drop 1 line)) },
        )
        else (advance, record q { input = rest; argc = int_to_size (atoi (drop 1 line)) }))

unfoldable pub read_argc : Request → Progress × Request
read_argc q =
    let q = record q { argv = []; cur_argv_len = minus_one } in
    elim (next_line q.input) [
      | none ↦ (stop need_more, q)
      | some (line, rest) ↦ argc_line q line rest
    ]

-- A line that announces the length of the next argument.
unfoldable pub length_line : Request → List ℕ → List ℕ → Progress × Request
length_line q line rest =
    if not (get_or line 0 0 == b'$')
    then (
      stop (rejected invalid_argv_len),
      record q { input = crlf ++ rest; argc = 0; cur_argv_len = minus_one },
    )
    else (advance, record q { input = rest; cur_argv_len = atoi (drop 1 line) })

-- A line with the next argument, of the announced length.
unfoldable pub argument_line : Request → List ℕ → List ℕ → Progress × Request
argument_line q line rest =
    if not (length line == int_to_size q.cur_argv_len)
    then (
      stop (rejected invalid_argv_str),
      record q { input = crlf ++ rest; argc = 0; cur_argv_len = minus_one },
    )
    else (advance, record q { input = rest; argv = q.argv ++ line ∷ []; cur_argv_len = minus_one })

abbrev pub item_line : Request → List ℕ → List ℕ → Progress × Request
item_line q line rest =
    if is_negative q.cur_argv_len then length_line q line rest else argument_line q line rest

unfoldable pub read_item : Request → Progress × Request
read_item q = elim (next_line q.input) [
  | none ↦ (stop need_more, q)
  | some (line, rest) ↦ item_line q line rest
]

-- `none` where the fuel runs out.
unfoldable pub read_items : ℕ → Request → Option (Outcome × Request)
read_items zero q = none
read_items (suc fuel) q = elim (ltb (length q.argv) q.argc) [
  | false ↦ some ((if ltb 0 q.argc && length q.argv == q.argc then ready else need_more), q)
  | true ↦ elim (read_item q).0 [
    | stop o ↦ some (o, (read_item q).1)
    | advance ↦ read_items fuel (read_item q).1
  ]
]

-- The announcement of the number of arguments is read once for each request.
unfoldable pub read_start : Request → Progress × Request
read_start q = if q.argc == 0 then read_argc q else (advance, q)

unfoldable pub read_request : Request → Option (Outcome × Request)
read_request q = if length q.input == 0 then some (need_more, q) else elim (read_start q).0 [
  | stop o ↦ some (o, (read_start q).1)
  | advance ↦ read_items (suc (length (read_start q).1.input)) (read_start q).1
]

pub read_start_idle : (q : Request) → q.argc ≡ 0 → read_start q ≡ read_argc q
unfolding read_start
read_start_idle q h = rw (eq→== q.argc 0 h)

pub read_start_busy : (q : Request) → q.argc ≢ 0 → read_start q ≡ (advance, q)
unfolding read_start
read_start_busy q h = rw (ne→== q.argc 0 h)

pub read_argc_line :
    (q : Request) (line rest : List ℕ)
    → next_line q.input ≡ some (line, rest)
    → read_argc q ≡ argc_line (record q { argv = []; cur_argv_len = minus_one }) line rest
unfolding read_argc
read_argc_line q line rest e = rw (e, read_argc)

pub read_argc_no_line :
    (q : Request)
    → next_line q.input ≡ none
    → read_argc q ≡ (stop need_more, record q { argv = []; cur_argv_len = minus_one })
unfolding read_argc
read_argc_no_line q e = rw (e, read_argc)

pub read_item_line :
    (q : Request) (line rest : List ℕ)
    → next_line q.input ≡ some (line, rest)
    → read_item q ≡ item_line q line rest
unfolding read_item
read_item_line q line rest e = rw (e, read_item)

pub read_item_no_line : (q : Request) → next_line q.input ≡ none → read_item q ≡ (stop need_more, q)
unfolding read_item
read_item_no_line q e = rw (e, read_item)

-- The three things that a round of `read_items` does.
pub read_items_done :
    (fuel : ℕ) (q : Request)
    → ltb (length q.argv) q.argc ≡ false
    → read_items (suc fuel) q
      ≡ some ((if ltb 0 q.argc && length q.argv == q.argc then ready else need_more), q)
unfolding read_items
read_items_done fuel q h = rw (h, read_items)

pub read_items_stop :
    (fuel : ℕ) (q q' : Request) (o : Outcome)
    → ltb (length q.argv) q.argc ≡ true
    → read_item q ≡ (stop o, q')
    → read_items (suc fuel) q ≡ some (o, q')
unfolding read_items
read_items_stop fuel q q' o h e =
    let at_stop : (read_item q).0 ≡ stop o = ap (λ r. r.0) e in
    rw (h, read_items, at_stop) (ap (λ r. some (o, r.1)) e)

pub read_items_advance :
    (fuel : ℕ) (q q' : Request)
    → ltb (length q.argv) q.argc ≡ true
    → read_item q ≡ (advance, q')
    → read_items (suc fuel) q ≡ read_items fuel q'
unfolding read_items
read_items_advance fuel q q' h e =
    let at_advance : (read_item q).0 ≡ advance = ap (λ r. r.0) e in
    rw (h, read_items, at_advance) (ap (λ r. read_items fuel r.1) e)

pub Progress-cases :
    (r : Progress × Request)
    → ((o : Outcome) × (q : Request) × (r ≡ (stop o, q))) ⊎ ((q : Request) × (r ≡ (advance, q)))
Progress-cases (stop o, q) = inl (o, q, refl)
Progress-cases (advance, q) = inr (q, refl)

-- What a call comes to, once it has read the number of arguments.
pub read_request_empty :
    (q : Request) → (length q.input == 0) ≡ true → read_request q ≡ some (need_more, q)
unfolding read_request
read_request_empty q h = rw (h, read_request)

pub read_request_stop :
    (q q' : Request) (o : Outcome)
    → (length q.input == 0) ≡ false
    → read_start q ≡ (stop o, q')
    → read_request q ≡ some (o, q')
unfolding read_request
read_request_stop q q' o h e =
    let at_stop : (read_start q).0 ≡ stop o = ap (λ r. r.0) e in
    rw (read_request, h, at_stop) (ap (λ r. some (o, r.1)) e)

pub read_request_advance :
    (q q' : Request)
    → (length q.input == 0) ≡ false
    → read_start q ≡ (advance, q')
    → read_request q ≡ read_items (suc (length q'.input)) q'
unfolding read_request
read_request_advance q q' h e =
    let at_advance : (read_start q).0 ≡ advance = ap (λ r. r.0) e in
    rw (read_request, h, at_advance) (ap (λ r. read_items (suc (length r.1.input)) r.1) e)

-- A call on some input depends only on its start.
pub read_request_alike :
    (q r : Request)
    → (length q.input == 0) ≡ false
    → (length r.input == 0) ≡ false
    → read_start q ≡ read_start r
    → read_request q ≡ read_request r
unfolding read_request
read_request_alike q r h k e = rw (h, k) (ap (λ p. finish p) e)
  where
    finish : Progress × Request → Option (Outcome × Request)
    finish p = elim p.0 [
      | stop o ↦ some (o, p.1)
      | advance ↦ read_items (suc (length p.1.input)) p.1
    ]
