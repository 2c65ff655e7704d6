-- ===== src/Redis/Totality.antt =====
-- The parser always ends: each round of its loop takes at least a CRLF from the input.
use moxie_simple.Base.{
  ℕ, zero, suc, ◌+◌, ◌≤◌, ◌<◌, ◌≡◌, ap, sym, ◌∙◌, List, ◌++◌, some, arith, ltb, ◌==◌, length,
  length-append, Bool-cases, Option-cases, inl, inr,
}
use moxie_simple.Buffer.{crlf}
use moxie_simple.Redis.Line.{next_line, next_line-split}
use moxie_simple.Redis.Stream.{
  Request, Outcome, Progress, read_item_line, read_item_no_line, need_more, advance, stop,
  read_item, read_items, read_request, read_start, item_line, argument_line, length_line,
  read_items_done, read_items_stop, read_items_advance, Progress-cases, read_request_empty,
  read_request_stop, read_request_advance,
}

item_line_input :
    (q q' : Request) (line rest : List ℕ) → item_line q line rest ≡ (advance, q') → q'.input ≡ rest
unfolding argument_line length_line
item_line_input q q' line rest h = ground arith

-- A round that goes on leaves less input.
pub read_item_shorter :
    (q q' : Request) → read_item q ≡ (advance, q') → length q'.input + 2 ≤ length q.input
read_item_shorter q q' h = elim (Option-cases (next_line q.input)) [
  | inl e ↦ absurd (stuck (sym (read_item_no_line q e) ∙ h))
  | inr ((line, rest), e) ↦ omega (
    arith,
    ap length (item_line_input q q' line rest (sym (read_item_line q line rest e) ∙ h)),
    ap length (next_line-split q.input line rest e),
    length-append line (crlf ++ rest),
  )
]
  where
    stuck : {q : Request} → ◌≡◌ {A = Progress × Request} (stop need_more, q) (advance, q') → ⊥
    stuck h = cc

-- Fuel above the length of the input is enough.
pub read_items_total :
    (fuel : ℕ) (q : Request)
    → length q.input < fuel
    → (o : Outcome) × (q' : Request) × (read_items fuel q ≡ some (o, q'))
read_items_total zero q h = absurd (omega arith)
read_items_total (suc fuel) q h = elim (Bool-cases (ltb (length q.argv) q.argc)) [
  | inr full ↦ (_, q, read_items_done fuel q full)
  | inl more ↦ elim (Progress-cases (read_item q)) [
    | inl (o, q', e) ↦ (o, q', read_items_stop fuel q q' o more e)
    | inr (q', e) ↦
        let (o, q'', e') = read_items_total fuel q' (omega (arith, read_item_shorter q q' e)) in
        (o, q'', read_items_advance fuel q q' more e ∙ e')
  ]
]

pub read_request_total :
    (q : Request) → (o : Outcome) × (q' : Request) × (read_request q ≡ some (o, q'))
read_request_total q = elim (Bool-cases (length q.input == 0)) [
  | inl empty ↦ (need_more, q, read_request_empty q empty)
  | inr some_input ↦ elim (Progress-cases (read_start q)) [
    | inl (o, q', e) ↦ (o, q', read_request_stop q q' o some_input e)
    | inr (q', e) ↦
        let (o, q'', e') = read_items_total (suc (length q'.input)) q' (omega arith) in
        (o, q'', read_request_advance q q' some_input e ∙ e')
  ]
]
