-- ===== src/Redis/Items.antt =====
-- The specification's loop with exactly enough fuel, and its rounds.
use moxie_simple.Base.{
  ℕ, zero, suc, ◌<◌, ◌≡◌, sym, ◌∙◌, Option, arith, ltb, true, length, Bool-cases, inl, inr,
}
use moxie_simple.Redis.Stream.{
  Request, Outcome, advance, read_item, read_items, read_items_done, read_items_stop,
  read_items_advance, Progress-cases,
}
use moxie_simple.Redis.Totality.{read_item_shorter}

abbrev pub items : Request → Option (Outcome × Request)
items q = read_items (suc (length q.input)) q

-- Any two fuels above the length of the input give the same.
fuel_irrelevant :
    (f g : ℕ) (q : Request)
    → length q.input < f
    → length q.input < g
    → read_items f q ≡ read_items g q
fuel_irrelevant zero g q h k = absurd (omega arith)
fuel_irrelevant (suc f) zero q h k = absurd (omega arith)
fuel_irrelevant (suc f) (suc g) q h k = elim (Bool-cases (ltb (length q.argv) q.argc)) [
  | inr full ↦ read_items_done f q full ∙ sym (read_items_done g q full)
  | inl more ↦ elim (Progress-cases (read_item q)) [
    | inl (o, q', e) ↦ read_items_stop f q q' o more e ∙ sym (read_items_stop g q q' o more e)
    | inr (q', e) ↦
        read_items_advance f q q' more e
        ∙ fuel_irrelevant f g q' (omega (arith, read_item_shorter q q' e))
            (omega (arith, read_item_shorter q q' e))
        ∙ sym (read_items_advance g q q' more e)
  ]
]

pub items_advance :
    (q q' : Request)
    → ltb (length q.argv) q.argc ≡ true
    → read_item q ≡ (advance, q')
    → items q ≡ items q'
items_advance q q' more e =
    read_items_advance (length q.input) q q' more e
    ∙ fuel_irrelevant (length q.input) (suc (length q'.input)) q'
        (omega (arith, read_item_shorter q q' e)) (omega arith)
