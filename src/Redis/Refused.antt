-- ===== src/Redis/Refused.antt =====
-- What the parser of example/Mcached/McachedRequestHandler.cpp leaves of a line that it refuses.
use moxie_simple.Base.{
  ℕ, ◌≡◌, ◌≢◌, refl, ap, ◌∙◌, List, [], ◌++◌, false, some, ne→==, get_or, length, length-append,
  arith,
}
use moxie_simple.Buffer.{contents, crlf}
use moxie_simple.Redis.{McachedClientHandler, parse_redis_request, invalid_multibulk}
use moxie_simple.Redis.Text.{minus_one}
use moxie_simple.Redis.Line.{NoCrlf, next_line, next_line_of_NoCrlf}
use moxie_simple.Redis.Stream.{
  Request, view, rejected, read_request, read_start, read_start_idle, read_argc_line, argc_line,
  stop,
}
use moxie_simple.Redis.Agrees.{IsReady}
use moxie_simple.Redis.Refine.{request-Answers}

-- An idle parser before the given bytes.
abbrev idle_at : List ℕ → Request
idle_at input = record { input = input; argc = 0; argv = []; cur_argv_len = minus_one }

argc_line_refused :
    (q : Request) (line rest : List ℕ)
    → q.argc ≡ 0
    → get_or line 0 0 ≢ b'*'
    → argc_line (record q { argv = []; cur_argv_len = minus_one }) line rest
      ≡ (stop (rejected invalid_multibulk), idle_at (crlf ++ rest))
unfolding argc_line
argc_line_refused q line rest idle other = rw (ne→== _ _ other, idle) refl

read_request_refused :
    (q : Request) (line rest : List ℕ)
    → q.argc ≡ 0
    → q.input ≡ line ++ (crlf ++ rest)
    → NoCrlf line
    → get_or line 0 0 ≢ b'*'
    → read_request q ≡ some (rejected invalid_multibulk, idle_at (crlf ++ rest))
unfolding read_request
read_request_refused q line rest idle input whole other =
    let start : read_start q ≡ (stop (rejected invalid_multibulk), idle_at (crlf ++ rest)) =
      read_start_idle q idle
      ∙ read_argc_line q line rest (ap next_line input ∙ next_line_of_NoCrlf line rest whole)
      ∙ argc_line_refused q line rest idle other in
    let long : length q.input ≢ 0 =
      λ e. absurd (omega (arith, e, ap length input, length-append line (crlf ++ rest))) in
    let at_stop : (read_start q).0 ≡ stop (rejected invalid_multibulk) = ap (λ r. r.0) start in
    rw (read_request, ne→== _ _ long, at_stop)
      (ap (λ r. some (rejected invalid_multibulk, r.1)) start)

-- An idle handler, with valid buffers and room for a reply, whose next line does not start with `*`
-- takes the line but not the CRLF behind it, stays idle, and adds the error reply. Its next line is
-- then empty; of an empty line nothing is taken, whatever comes behind it, since line and CRLF are
-- what is left.
pub parse-refused :
    (c : McachedClientHandler) (line rest : List ℕ)
    → IsReady c
    → c.argc ≡ 0
    → contents c.read_buf ≡ line ++ (crlf ++ rest)
    → NoCrlf line
    → get_or line 0 0 ≢ b'*'
    → (c' : McachedClientHandler) × (parse_redis_request c ≡ some (false, c'))
      × (contents c'.read_buf ≡ crlf ++ rest)
      × (c'.argc ≡ 0)
      × (contents c'.write_buf ≡ contents c.write_buf ++ invalid_multibulk)
parse-refused c line rest v idle input whole other =
    let a =
      request-Answers c (rejected invalid_multibulk) (idle_at (crlf ++ rest)) v
        (read_request_refused (view c) line rest idle input whole other) in
    (a.result, a.returned, ap (λ q. q.input) a.seen, ap (λ q. q.argc) a.seen, a.written)
