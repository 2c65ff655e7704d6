-- ===== src/Redis/Resume.antt =====
-- A request may arrive in any pieces: a parser that waits for bytes goes on where it stopped.
use moxie_simple.Base.{
  ℕ, zero, suc, ◌<◌, ◌≡◌, ◌≢◌, refl, ap, ap₂, sym, ◌∙◌, List, [], ◌∷◌, ◌++◌, Option, some, arith,
  ltb, Bool, false, length, length-append, inl, inr, ◌==◌, ne→==, Bool-cases, Option-cases,
  ℕ_discrete,
}
use moxie_simple.Buffer.{contents}
use moxie_simple.Redis.{McachedClientHandler, parse_redis_request}
use moxie_simple.Redis.Text.{minus_one}
use moxie_simple.Redis.Line.{next_line, next_line-append}
use moxie_simple.Redis.Stream.{
  Request, view, Outcome, Progress, need_more, advance, stop, read_item, read_items_done,
  read_items_stop, read_item_line, read_item_no_line, item_line, length_line, argument_line,
  read_start, read_start_idle, read_argc, read_start_busy, read_argc_line, read_argc_no_line,
  argc_line, read_request, read_request_empty, read_request_stop, read_request_advance,
  Progress-cases, read_request_alike, is_ready, outcome_reply,
}
use moxie_simple.Redis.Totality.{read_item_shorter}
use moxie_simple.Redis.Items.{items, items_advance}
use moxie_simple.Redis.Agrees.{IsReady}
use moxie_simple.Redis.Refine.{parse_redis_request-Answers, request-Answers}

-- More bytes arrive.
abbrev pub feed : Request → List ℕ → Request
feed q bytes = record q { input = q.input ++ bytes }

-- A line is taken in the same way whatever follows it.
item_line-feed :
    (q q' : Request) (line rest bytes : List ℕ)
    → item_line q line rest ≡ (advance, q')
    → item_line (feed q bytes) line (rest ++ bytes) ≡ (advance, feed q' bytes)
unfolding length_line argument_line
item_line-feed q q' line rest bytes h = ground arith

item_line-no_wait :
    (q q' : Request) (line rest : List ℕ) → item_line q line rest ≢ (stop need_more, q')
unfolding length_line argument_line
item_line-no_wait q q' line rest h = ground arith

item_line_argc :
    (q q' : Request) (line rest : List ℕ) → item_line q line rest ≡ (advance, q') → q'.argc ≡ q.argc
unfolding length_line argument_line
item_line_argc q q' line rest h = ground arith

read_item-feed :
    (q q' : Request) (bytes : List ℕ)
    → read_item q ≡ (advance, q')
    → (read_item (feed q bytes) ≡ (advance, feed q' bytes)) × (q'.argc ≡ q.argc)
read_item-feed q q' bytes h = elim (Option-cases (next_line q.input)) [
  | inl e ↦ absurd (stuck (sym (read_item_no_line q e) ∙ h))
  | inr ((line, rest), e) ↦
      let taken = sym (read_item_line q line rest e) ∙ h in
      (
        read_item_line (feed q bytes) line (rest ++ bytes)
              (next_line-append q.input bytes line rest e)
            ∙ item_line-feed q q' line rest bytes taken,
        item_line_argc q q' line rest taken,
      )
]
  where
    stuck : ◌≡◌ {A = Progress × Request} (stop need_more, q) (advance, q') → ⊥
    stuck h = cc

read_item-wait : (q q' : Request) → read_item q ≡ (stop need_more, q') → q' ≡ q
read_item-wait q q' h = elim (Option-cases (next_line q.input)) [
  | inl e ↦ sym (same (sym (read_item_no_line q e) ∙ h))
  | inr ((line, rest), e) ↦
      absurd (item_line-no_wait q q' line rest (sym (read_item_line q line rest e) ∙ h))
]
  where
    same : ◌≡◌ {A = Progress × Request} (stop need_more, q) (stop need_more, q') → q ≡ q'
    same h = cc

-- The loop goes on where it stopped.
items-feed :
    (n : ℕ) (q q' : Request) (bytes : List ℕ)
    → length q.input < n
    → items q ≡ some (need_more, q')
    → (items (feed q bytes) ≡ items (feed q' bytes)) × (q'.argc ≡ q.argc)
items-feed zero q q' bytes h e = absurd (omega arith)
items-feed (suc n) q q' bytes h e = elim (Bool-cases (ltb (length q.argv) q.argc)) [
  | inr full ↦ unchanged (ending (sym (read_items_done (length q.input) q full) ∙ e)).1
  | inl more ↦ elim (Progress-cases (read_item q)) [
    | inl (o, q₁, stopped) ↦
        let (same_o, same_q) =
          ending (sym (read_items_stop (length q.input) q q₁ o more stopped) ∙ e) in
        unchanged (sym (read_item-wait q q' (stopped ∙ ap₂ (λ o q. (stop o, q)) same_o same_q)))
    | inr (q₁, went) ↦
        let (again, argc) = read_item-feed q q₁ bytes went in
        let (rest, argc') =
          items-feed n q₁ q' bytes (omega (arith, read_item_shorter q q₁ went))
            (sym (items_advance q q₁ more went) ∙ e) in
        (items_advance (feed q bytes) (feed q₁ bytes) more again ∙ rest, argc' ∙ argc)
  ]
]
  where
    ending :
        {o : Outcome} {r : Request}
        → ◌≡◌ {A = Option (Outcome × Request)} (some (o, r)) (some (need_more, q'))
        → (o ≡ need_more) × (r ≡ q')
    ending h = (cc, cc)

    unchanged : q ≡ q' → (items (feed q bytes) ≡ items (feed q' bytes)) × (q'.argc ≡ q.argc)
    unchanged s = (ap (λ r. items (feed r bytes)) s, ap (λ r. r.argc) (sym s))

argc_line-feed :
    (q q' : Request) (line rest bytes : List ℕ)
    → argc_line q line rest ≡ (advance, q')
    → (argc_line (feed q bytes) line (rest ++ bytes) ≡ (advance, feed q' bytes)) × (q'.argc ≢ 0)
unfolding argc_line
argc_line-feed q q' line rest bytes h = ground arith

argc_line-no_wait :
    (q q' : Request) (line rest : List ℕ) → argc_line q line rest ≢ (stop need_more, q')
unfolding argc_line
argc_line-no_wait q q' line rest h = ground arith

-- What a call makes of a request before its number of arguments is known.
abbrev fresh : Request → Request
fresh q = record q { argv = []; cur_argv_len = minus_one }

-- The start of a call goes on, or waits, alike when more bytes follow.
read_start-feed :
    (q q' : Request) (bytes : List ℕ)
    → read_start q ≡ (advance, q')
    → (read_start (feed q bytes) ≡ (advance, feed q' bytes)) × (q'.argc ≢ 0)
read_start-feed q q' bytes h = elim (ℕ_discrete q.argc 0) [
  | no busy ↦
      let same : q ≡ q' = advanced (sym (read_start_busy q busy) ∙ h) in
      (
        read_start_busy (feed q bytes) busy ∙ ap (λ r. (advance, feed r bytes)) same,
        λ z. busy (ap (λ r. r.argc) same ∙ z),
      )
  | yes idle ↦ elim (Option-cases (next_line q.input)) [
    | inl e ↦ absurd (stuck (sym (read_argc_no_line q e) ∙ sym (read_start_idle q idle) ∙ h))
    | inr ((line, rest), e) ↦
        let (again, some_args) =
          argc_line-feed (fresh q) q' line rest bytes
            (sym (read_argc_line q line rest e) ∙ sym (read_start_idle q idle) ∙ h) in
        (
          read_start_idle (feed q bytes) idle
              ∙ read_argc_line (feed q bytes) line (rest ++ bytes)
                  (next_line-append q.input bytes line rest e)
              ∙ again,
          some_args,
        )
  ]
]
  where
    advanced : ◌≡◌ {A = Progress × Request} (advance, q) (advance, q') → q ≡ q'
    advanced h = cc

    stuck : ◌≡◌ {A = Progress × Request} (stop need_more, fresh q) (advance, q') → ⊥
    stuck h = cc

read_start-wait :
    (q q' : Request) (bytes : List ℕ)
    → read_start q ≡ (stop need_more, q')
    → read_start (feed q bytes) ≡ read_start (feed q' bytes)
unfolding read_argc
read_start-wait q q' bytes h = elim (ℕ_discrete q.argc 0) [
  | no busy ↦ absurd (stuck (sym (read_start_busy q busy) ∙ h))
  | yes idle ↦ elim (Option-cases (next_line q.input)) [
    | inl e ↦
        let same : fresh q ≡ q' =
          stopped (sym (read_argc_no_line q e) ∙ sym (read_start_idle q idle) ∙ h) in
        read_start_idle (feed q bytes) idle
        ∙ sym (read_start_idle (feed (fresh q) bytes) idle)
        ∙ ap (λ r. read_start (feed r bytes)) same
    | inr ((line, rest), e) ↦ absurd (
        argc_line-no_wait (fresh q) q' line rest
          (sym (read_argc_line q line rest e) ∙ sym (read_start_idle q idle) ∙ h))
  ]
]
  where
    stuck : ◌≡◌ {A = Progress × Request} (advance, q) (stop need_more, q') → ⊥
    stuck h = cc

    stopped :
        ◌≡◌ {A = Progress × Request} (stop need_more, fresh q) (stop need_more, q') → fresh q ≡ q'
    stopped h = cc

length_pos : (bytes : List ℕ) → bytes ≢ [] → 0 < length bytes
length_pos [] h = absurd (h refl)
length_pos (x ∷ bytes) h = omega arith

-- The specification may be fed a request in two parts.
read_request-feed :
    (q q' : Request) (bytes : List ℕ)
    → bytes ≢ []
    → read_request q ≡ some (need_more, q')
    → read_request (feed q bytes) ≡ read_request (feed q' bytes)
read_request-feed q q' bytes more h = elim (Bool-cases (length q.input == 0)) [
  | inl empty ↦
      ap (λ r. read_request (feed r bytes)) (ending (sym (read_request_empty q empty) ∙ h)).1
  | inr filled ↦ elim (Progress-cases (read_start q)) [
    | inl (o, q₁, e) ↦
        let (same_o, same_q) = ending (sym (read_request_stop q q₁ o filled e) ∙ h) in
        alike (read_start-wait q q' bytes (e ∙ ap₂ (λ o q. (stop o, q)) same_o same_q))
    | inr (q₁, e) ↦
        let (again, some_args) = read_start-feed q q₁ bytes e in
        let (rest, argc) =
          items-feed (suc (length q₁.input)) q₁ q' bytes (omega arith)
            (sym (read_request_advance q q₁ filled e) ∙ h) in
        read_request_advance (feed q bytes) (feed q₁ bytes) (arrived q) again
        ∙ rest
        ∙ sym (
            read_request_advance (feed q' bytes) (feed q' bytes) (arrived q')
              (read_start_busy (feed q' bytes) (λ z. some_args (sym argc ∙ z))))
  ]
]
  where
    ending :
        {o : Outcome} {r : Request}
        → ◌≡◌ {A = Option (Outcome × Request)} (some (o, r)) (some (need_more, q'))
        → (o ≡ need_more) × (r ≡ q')
    ending h = (cc, cc)

    arrived : (r : Request) → (length (r.input ++ bytes) == 0) ≡ false
    arrived r = ne→== _ _ (omega (arith, length-append r.input bytes, length_pos bytes more))

    alike :
        read_start (feed q bytes) ≡ read_start (feed q' bytes)
        → read_request (feed q bytes) ≡ read_request (feed q' bytes)
    alike = read_request_alike (feed q bytes) (feed q' bytes) (arrived q) (arrived q')

-- A request may arrive in any pieces. Let the parser, started as `c`, stop for want of bytes as
-- `waiting`, with `more` bytes still to come. A handler like `waiting` that has them in its buffer
-- too returns the same result, leaves the same bytes, the same arguments and the same state of the
-- parser, and writes the same reply as a handler like `c` that had them from the start. Both have
-- valid buffers with room for a reply.
pub parse-feed :
    (c whole later : McachedClientHandler) (waiting : Request) (bytes : List ℕ)
    → IsReady whole
    → IsReady later
    → bytes ≢ []
    → read_request (view c) ≡ some (need_more, waiting)
    → view whole ≡ feed (view c) bytes
    → view later ≡ feed waiting bytes
    → (result : Bool) × (reply : List ℕ) × (c₁ : McachedClientHandler) × (c₂ : McachedClientHandler)
      × (parse_redis_request whole ≡ some (result, c₁))
      × (parse_redis_request later ≡ some (result, c₂))
      × (view c₁ ≡ view c₂)
      × (contents c₁.write_buf ≡ contents whole.write_buf ++ reply)
      × (contents c₂.write_buf ≡ contents later.write_buf ++ reply)
parse-feed c whole later waiting bytes v w some_bytes waits at_once in_parts =
    let (o, q, e, a) = parse_redis_request-Answers whole v in
    let b = request-Answers later o q w (
      ap read_request in_parts
      ∙ sym (read_request-feed (view c) waiting bytes some_bytes waits)
      ∙ ap read_request (sym at_once)
      ∙ e) in
    (
      is_ready o,
      outcome_reply o,
      a.result,
      b.result,
      a.returned,
      b.returned,
      a.seen ∙ sym b.seen,
      a.written,
      b.written,
    )
