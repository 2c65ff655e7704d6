-- ===== src/Redis/RoundTrip.antt =====
-- A client's encoding of a request, and what the parser makes of it.
use moxie_simple.Base.{
  ℕ, ◌+◌, ◌^◌, ◌<◌, ◌≡◌, ◌≢◌, refl, ap, sym, ◌∙◌, List, [], ◌∷◌, ◌++◌, some, arith, true, false,
  length, length-append, append_assoc, append-nil, lt→ltb, ge→ltb, eq→==, inl, ne→==,
}
use moxie_simple.Buffer.{contents, crlf}
use moxie_simple.Redis.{McachedClientHandler, parse_redis_request}
use moxie_simple.Redis.Text.{
  AllDigits, to_string, to_string-AllDigits, atoi, atoi-to_string, int_to_size, minus_one,
  is_negative,
}
use moxie_simple.Redis.Line.{next_line, NoCrlf, next_line_of_NoCrlf}
use moxie_simple.Redis.Stream.{
  Request, view, ready, advance, read_item, read_item_line, read_items_done, item_line, length_line,
  argument_line, read_start_idle, read_argc_line, read_start, argc_line, read_request,
  read_request_advance,
}
use moxie_simple.Redis.Items.{items, items_advance}
use moxie_simple.Redis.Agrees.{IsReady}
use moxie_simple.Redis.Refine.{request-Answers}

-- `$<length>CRLF<argument>CRLF`.
abbrev pub encode_argument : List ℕ → List ℕ
encode_argument arg = (b'$' ∷ to_string (length arg)) ++ (crlf ++ (arg ++ crlf))

abbrev pub encode_arguments : List (List ℕ) → List ℕ
encode_arguments [] = []
encode_arguments (arg ∷ args) = encode_argument arg ++ encode_arguments args

-- `*<number of arguments>CRLF` and the arguments.
abbrev pub encode : List (List ℕ) → List ℕ
encode args = (b'*' ∷ to_string (length args)) ++ (crlf ++ encode_arguments args)

-- An argument with no CRLF inside, whose length an `int` can hold.
abbrev pub Sendable : List (List ℕ) → Type 0
Sendable [] = Unit {0}
Sendable (arg ∷ args) = NoCrlf arg × (length arg < 2 ^ 31) × Sendable args

NoCrlf-AllDigits : (c : ℕ) (s : List ℕ) → c ≢ 13 → AllDigits s → NoCrlf (c ∷ s)
NoCrlf-AllDigits c [] h a = tt
NoCrlf-AllDigits c (d ∷ s) h a = (inl h, NoCrlf-AllDigits d s (omega arith) a.2)

-- A header line with a number.
header_line :
    (mark n : ℕ) (rest : List ℕ)
    → mark ≢ 13
    → next_line ((mark ∷ to_string n) ++ (crlf ++ rest)) ≡ some (mark ∷ to_string n, rest)
header_line mark n rest h =
    next_line_of_NoCrlf (mark ∷ to_string n) rest
      (NoCrlf-AllDigits mark (to_string n) h (to_string-AllDigits n))

-- A request that has been read up to `argv`, of `argc` arguments.
abbrev at_item : List ℕ → ℕ → List (List ℕ) → Request
at_item input argc argv = record {
  input = input;
  argc = argc;
  argv = argv;
  cur_argv_len = minus_one;
}

unsigned : (n : ℕ) → n < 2 ^ 31 → is_negative n ≡ false
unsigned n h = ground arith

int_to_size-unsigned : (n : ℕ) → n < 2 ^ 31 → int_to_size n ≡ n
unfolding int_to_size
int_to_size-unsigned n h = ground arith

argument_taken :
    (q : Request) (line rest : List ℕ)
    → is_negative q.cur_argv_len ≡ false
    → length line ≡ int_to_size q.cur_argv_len
    → item_line q line rest ≡ (advance, at_item rest q.argc (q.argv ++ line ∷ []))
unfolding argument_line
argument_taken q line rest h e = rw (h, eq→== _ _ e)

read_length :
    (n argc : ℕ) (argv : List (List ℕ)) (rest : List ℕ)
    → n < 2 ^ 31
    → read_item (at_item ((b'$' ∷ to_string n) ++ (crlf ++ rest)) argc argv)
      ≡ (advance, record { input = rest; argc = argc; argv = argv; cur_argv_len = n })
read_length n argc argv rest h =
    read_item_line _ (b'$' ∷ to_string n) rest (header_line b'$' n rest (omega arith))
    ∙ unfold length_line in
      ap (λ k. (advance, record { input = rest; argc = argc; argv = argv; cur_argv_len = k }))
        (atoi-to_string n h)

read_argument :
    (arg : List ℕ) (argc : ℕ) (argv : List (List ℕ)) (rest : List ℕ)
    → NoCrlf arg
    → length arg < 2 ^ 31
    → read_item (record {
      input = arg ++ (crlf ++ rest);
      argc = argc;
      argv = argv;
      cur_argv_len = length arg;
    })
      ≡ (advance, at_item rest argc (argv ++ arg ∷ []))
read_argument arg argc argv rest clean short =
    read_item_line _ arg rest (next_line_of_NoCrlf arg rest clean)
    ∙ argument_taken _ arg rest (unsigned (length arg) short)
        (sym (int_to_size-unsigned (length arg) short))

-- The bytes of one argument, taken in two rounds.
items-argument :
    (arg : List ℕ) (argc : ℕ) (argv : List (List ℕ)) (rest : List ℕ)
    → NoCrlf arg
    → length arg < 2 ^ 31
    → length argv < argc
    → items (at_item (encode_argument arg ++ rest) argc argv)
      ≡ items (at_item rest argc (argv ++ arg ∷ []))
items-argument arg argc argv rest clean short more =
    ap (λ i. items (at_item i argc argv)) regroup
    ∙ items_advance _ _ (lt→ltb _ _ more)
        (read_length (length arg) argc argv (arg ++ (crlf ++ rest)) short)
    ∙ items_advance _ _ (lt→ltb _ _ more) (read_argument arg argc argv rest clean short)
  where
    regroup :
        encode_argument arg ++ rest
        ≡ (b'$' ∷ to_string (length arg)) ++ (crlf ++ (arg ++ (crlf ++ rest)))
    regroup = simp append_assoc

items-arguments :
    (args : List (List ℕ)) (argc : ℕ) (argv : List (List ℕ)) (rest : List ℕ)
    → Sendable args
    → length argv + length args ≡ argc
    → 0 < argc
    → items (at_item (encode_arguments args ++ rest) argc argv)
      ≡ some (ready, at_item rest argc (argv ++ args))
items-arguments [] argc argv rest h e pos =
    read_items_done (length rest) (at_item rest argc argv) (ge→ltb _ _ (omega arith))
    ∙ rw (lt→ltb 0 argc pos, eq→== (length argv) argc (omega arith), append-nil)
items-arguments (arg ∷ args) argc argv rest h e pos =
    ap (λ i. items (at_item i argc argv))
      (append_assoc (encode_argument arg) (encode_arguments args) rest)
    ∙ items-argument arg argc argv (encode_arguments args ++ rest) h.0 h.1 (omega arith)
    ∙ items-arguments args argc (argv ++ arg ∷ []) rest h.2
        (omega (arith, length-append argv (arg ∷ []))) pos
    ∙ ap (λ l. some (ready, at_item rest argc l)) (append_assoc argv (arg ∷ []) args)

nonempty : (args : List (List ℕ)) → args ≢ [] → 0 < length args
nonempty [] h = absurd (h refl)
nonempty (arg ∷ args) h = omega arith

announced :
    (q : Request) (n : ℕ) (rest : List ℕ)
    → n < 2 ^ 31
    → 0 < n
    → argc_line (record q { argv = []; cur_argv_len = minus_one }) (b'*' ∷ to_string n) rest
      ≡ (advance, at_item rest n [])
unfolding argc_line
announced q n rest h pos =
    let value : int_to_size (atoi (to_string n)) ≡ n =
      ap int_to_size (atoi-to_string n h) ∙ int_to_size-unsigned n h in
    rw (value, ne→== n 0 (omega arith))

-- The specification reads an encoded request back, and leaves what follows it.
read_request-encode :
    (q : Request) (args : List (List ℕ)) (rest : List ℕ)
    → q.argc ≡ 0
    → q.input ≡ encode args ++ rest
    → args ≢ []
    → length args < 2 ^ 31
    → Sendable args
    → read_request q ≡ some (ready, at_item rest (length args) args)
read_request-encode q args rest idle input some_args few h =
    read_request_advance q start (ne→== _ _ (omega (arith, ap length input))) begins
    ∙ items-arguments args (length args) [] rest h (omega arith) pos
  where
    start : Request
    start = at_item (encode_arguments args ++ rest) (length args) []

    pos : 0 < length args
    pos = nonempty args some_args

    line : next_line q.input ≡ some (b'*' ∷ to_string (length args), encode_arguments args ++ rest)
    line =
        ap next_line (
          input
          ∙ append_assoc (b'*' ∷ to_string (length args)) (crlf ++ encode_arguments args) rest)
        ∙ header_line b'*' (length args) (encode_arguments args ++ rest) (omega arith)

    begins : read_start q ≡ (advance, start)
    begins =
        read_start_idle q idle
        ∙ read_argc_line q (b'*' ∷ to_string (length args)) (encode_arguments args ++ rest) line
        ∙ announced q (length args) (encode_arguments args ++ rest) few pos

-- Whatever request a client encodes, `ParseRedisRequest` of an idle handler, with that encoding at
-- the front of its buffer, returns true with exactly its arguments, and leaves what follows it.
-- The arguments hold no CRLF, there is at least one, their number and lengths fit an `int`, and the
-- buffers are valid with room for a reply.
pub parse-encode :
    (c : McachedClientHandler) (args : List (List ℕ)) (rest : List ℕ)
    → IsReady c
    → c.argc ≡ 0
    → contents c.read_buf ≡ encode args ++ rest
    → args ≢ []
    → length args < 2 ^ 31
    → Sendable args
    → (c' : McachedClientHandler) × (parse_redis_request c ≡ some (true, c'))
      × (c'.argv ≡ args)
      × (c'.argc ≡ length args)
      × (contents c'.read_buf ≡ rest)
      × (contents c'.write_buf ≡ contents c.write_buf)
parse-encode c args rest v idle input some_args few h =
    let a =
      request-Answers c ready (at_item rest (length args) args) v
        (read_request-encode (view c) args rest idle input some_args few h) in
    (
      a.result,
      a.returned,
      ap (λ q. q.argv) a.seen,
      ap (λ q. q.argc) a.seen,
      ap (λ q. q.input) a.seen,
      a.written ∙ append-nil (contents c.write_buf),
    )
