-- ===== src/Redis/Refine.antt =====
-- The parser on buffers does what the parser on the received bytes does.
use moxie_simple.Base.{
  ℕ, zero, suc, ◌≡◌, refl, ap, ap₂, ◌∙◌, sym, [], ◌++◌, Bool, true, false, Option, some, ltb, ◌==◌,
  if◌then◌else◌, length, Bool-cases, inl, inr, append-nil, subst, ◌&&◌,
}
use moxie_simple.Buffer.{Buffer, contents, readable_bytes}
use moxie_simple.Buffer.Invariant.{IsValid, length-contents}
use moxie_simple.Redis.{
  McachedClientHandler, Flow, go_on, return, parse_argc, parse_round, parse_args,
  parse_redis_request,
}
use moxie_simple.Redis.Totality.{read_request_total}
use moxie_simple.Redis.Agrees.{IsReady, Agrees, parse_argc-Agrees, parse_round-Agrees, go_on-Agrees}
use moxie_simple.Redis.Stream.{
  read_request_empty, read_request_stop, read_request_advance, Request, view, Outcome, ready,
  need_more, advance, stop, read_item, read_items, read_request, read_start, read_items_done,
  read_items_stop, read_items_advance, Progress-cases, outcome_reply, is_ready,
}

-- A whole call, started with `replies` waiting, answers as the specification does with `o` and `q`.
pub record Answers (replies : Buffer) (r : Option (Bool × McachedClientHandler)) (o : Outcome)
    (q : Request) : Type 0 where
  pub result : McachedClientHandler
  pub returned : r ≡ some (is_ready o, result)
  pub seen : view result ≡ q
  pub read_valid : IsValid result.read_buf
  pub write_valid : IsValid result.write_buf
  pub written : contents result.write_buf ≡ contents replies ++ outcome_reply o

stopped-Answers :
    {w : Buffer} {r : Option (Flow × McachedClientHandler)} {o : Outcome} {q : Request}
    (a : Agrees w r (stop o, q))
    → Answers w (some (is_ready o, a.result)) o q
stopped-Answers a = record {
  result = a.result;
  returned = refl;
  seen = a.seen;
  read_valid = a.read_valid;
  write_valid = a.write_valid;
  written = a.written;
}

advanced-IsReady :
    (c : McachedClientHandler) {r : Option (Flow × McachedClientHandler)} {q : Request}
    → IsReady c
    → (a : Agrees c.write_buf r (advance, q)) → IsReady a.result
advanced-IsReady c v a = record {
  read_valid = a.read_valid;
  write_valid = a.write_valid;
  room = rw (a.silent tt) v.room;
}

done-Answers :
    (c : McachedClientHandler) (o : Outcome)
    → IsReady c
    → outcome_reply o ≡ []
    → Answers c.write_buf (some (is_ready o, c)) o (view c)
done-Answers c o v e = record {
  result = c;
  returned = refl;
  seen = refl;
  read_valid = v.read_valid;
  write_valid = v.write_valid;
  written = rw e (sym (append-nil (contents c.write_buf)));
}

Answers-cast :
    {w : Buffer} {r r' : Option (Bool × McachedClientHandler)} {o o' : Outcome} {q q' : Request}
    → Answers w r o q
    → r ≡ r'
    → ◌≡◌ {A = Option (Outcome × Request)} (some (o, q)) (some (o', q'))
    → Answers w r' o' q'
Answers-cast {o} {o'} {q} {q'} a e h =
    let same_o : o ≡ o' = cc in let same_q : q ≡ q' = cc in rw (← same_o, ← same_q, ← e) a

parse_args_done :
    (fuel : ℕ) (c : McachedClientHandler)
    → ltb (length c.argv) c.argc ≡ false
    → parse_args (suc fuel) c ≡ some (ltb 0 c.argc && length c.argv == c.argc, c)
unfolding parse_args
parse_args_done fuel c h = rw (h, parse_args)

parse_args_stop :
    (fuel : ℕ) (c c' : McachedClientHandler) (b : Bool)
    → ltb (length c.argv) c.argc ≡ true
    → parse_round c ≡ some (return b, c')
    → parse_args (suc fuel) c ≡ some (b, c')
unfolding parse_args
parse_args_stop fuel c c' b h e = rw (h, parse_args, e)

parse_args_more :
    (fuel : ℕ) (c c' : McachedClientHandler)
    → ltb (length c.argv) c.argc ≡ true
    → parse_round c ≡ some (go_on, c')
    → parse_args (suc fuel) c ≡ parse_args fuel c'
unfolding parse_args
parse_args_more fuel c c' h e = rw (h, parse_args, e)

Answers-replies :
    {w w' : Buffer} {r : Option (Bool × McachedClientHandler)} {o : Outcome} {q : Request}
    → w ≡ w'
    → Answers w r o q
    → Answers w' r o q
Answers-replies {r} {o} {q} e a = subst (λ w. Answers w r o q) e a

abbrev outcome_at_end : Bool → Outcome
outcome_at_end b = if b then ready else need_more

is_ready_at_end : (b : Bool) → is_ready (outcome_at_end b) ≡ b
is_ready_at_end true = refl
is_ready_at_end false = refl

silent_at_end : (b : Bool) → outcome_reply (outcome_at_end b) ≡ []
silent_at_end true = refl
silent_at_end false = refl

parse_args-Answers :
    (fuel : ℕ) (c : McachedClientHandler) (o : Outcome) (q : Request)
    → IsReady c
    → read_items fuel (view c) ≡ some (o, q)
    → Answers c.write_buf (parse_args fuel c) o q
parse_args-Answers zero c o q v h = unfold read_items in cc
parse_args-Answers (suc fuel) c o q v h = elim (Bool-cases (ltb (length c.argv) c.argc)) [
  | inr full ↦
      let b = ltb 0 c.argc && length c.argv == c.argc in
      Answers-cast (done-Answers c (outcome_at_end b) v (silent_at_end b))
        (ap (λ b. some (b, c)) (is_ready_at_end b) ∙ sym (parse_args_done fuel c full))
        (sym (read_items_done fuel (view c) full) ∙ h)
  | inl more ↦ elim (Progress-cases (read_item (view c))) [
    | inl (o', q', e) ↦
        let a = subst (Agrees c.write_buf (parse_round c)) e (parse_round-Agrees c v) in
        Answers-cast (stopped-Answers a)
          (sym (parse_args_stop fuel c a.result (is_ready o') more a.returned))
          (sym (read_items_stop fuel (view c) q' o' more e) ∙ h)
    | inr (q', e) ↦
        let a = subst (Agrees c.write_buf (parse_round c)) e (parse_round-Agrees c v) in
        Answers-replies (a.silent tt) (
          Answers-cast
            (parse_args-Answers fuel a.result o q (advanced-IsReady c v a)
              (ap (read_items fuel) a.seen ∙ sym (read_items_advance fuel (view c) q' more e) ∙ h))
            (sym (parse_args_more fuel c a.result more a.returned)) refl)
  ]
]

abbrev parse_start : McachedClientHandler → Option (Flow × McachedClientHandler)
parse_start c = if c.argc == 0 then parse_argc c else some (go_on, c)

parse_start-Agrees :
    (c : McachedClientHandler)
    → IsReady c
    → Agrees c.write_buf (parse_start c) (read_start (view c))
unfolding read_start
parse_start-Agrees c v = elim (Bool-cases (c.argc == 0)) [
  | inl e ↦ rw e (parse_argc-Agrees c v)
  | inr e ↦ rw e (go_on-Agrees c v)
]

parse_empty :
    (c : McachedClientHandler)
    → (readable_bytes c.read_buf == 0) ≡ true
    → parse_redis_request c ≡ some (false, c)
unfolding parse_redis_request
parse_empty c h = rw h

parse_stop :
    (c c' : McachedClientHandler) (b : Bool)
    → (readable_bytes c.read_buf == 0) ≡ false
    → parse_start c ≡ some (return b, c')
    → parse_redis_request c ≡ some (b, c')
unfolding parse_redis_request
parse_stop c c' b h e = rw (h, e)

parse_advance :
    (c c' : McachedClientHandler)
    → (readable_bytes c.read_buf == 0) ≡ false
    → parse_start c ≡ some (go_on, c')
    → parse_redis_request c ≡ parse_args (suc (readable_bytes c'.read_buf)) c'
unfolding parse_redis_request
parse_advance c c' h e = rw (h, e)

pub request-Answers :
    (c : McachedClientHandler) (o : Outcome) (q : Request)
    → IsReady c
    → read_request (view c) ≡ some (o, q)
    → Answers c.write_buf (parse_redis_request c) o q
request-Answers c o q v h = elim (Bool-cases (readable_bytes c.read_buf == 0)) [
  | inl empty ↦
      Answers-cast (done-Answers c need_more v refl) (sym (parse_empty c empty))
        (sym (read_request_empty (view c) (rw len empty)) ∙ h)
  | inr filled ↦ elim (Progress-cases (read_start (view c))) [
    | inl (o', q', e) ↦
        let a = subst (Agrees c.write_buf (parse_start c)) e (parse_start-Agrees c v) in
        Answers-cast (stopped-Answers a)
          (sym (parse_stop c a.result (is_ready o') filled a.returned))
          (sym (read_request_stop (view c) q' o' (rw len filled) e) ∙ h)
    | inr (q', e) ↦
        let a = subst (Agrees c.write_buf (parse_start c)) e (parse_start-Agrees c v) in
        let fuel : length q'.input ≡ readable_bytes a.result.read_buf =
          ap (λ q. length q.input) (sym a.seen) ∙ length-contents a.result.read_buf a.read_valid in
        Answers-replies (a.silent tt) (
          Answers-cast
            (parse_args-Answers (suc (readable_bytes a.result.read_buf)) a.result o q
              (advanced-IsReady c v a)
              (ap₂ read_items (ap suc (sym fuel)) a.seen
                ∙ sym (read_request_advance (view c) q' (rw len filled) e)
                ∙ h))
            (sym (parse_advance c a.result filled a.returned)) refl)
  ]
]
  where
    len : length (contents c.read_buf) ≡ readable_bytes c.read_buf
    len = length-contents c.read_buf v.read_valid

-- With valid buffers that have room for a reply, `ParseRedisRequest` never fails an assertion and
-- always returns. On every input it returns what
-- the specification says, leaves what the specification leaves, and appends the error reply, if
-- there is one, to the replies that wait.
pub parse_redis_request-Answers :
    (c : McachedClientHandler)
    → IsReady c
    → (o : Outcome) × (q : Request) × (read_request (view c) ≡ some (o, q))
      × Answers c.write_buf (parse_redis_request c) o q
parse_redis_request-Answers c v =
    let (o, q, e) = read_request_total (view c) in (o, q, e, request-Answers c o q v e)
