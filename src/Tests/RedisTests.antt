-- ===== src/Tests/RedisTests.antt =====
-- example/Mcached/McachedRequestHandler.cpp at concrete handlers.
use moxie_simple.Base.{
  ℕ, ◌+◌, ◌≡◌, refl, List, [], ◌∷◌, ◌++◌, some, arith, inl, length, Bool, true, replicate, false,
}
use moxie_simple.Buffer.{Buffer, contents, crlf}
use moxie_simple.PollerEvent.{PollerEvent}
use moxie_simple.Redis.{invalid_multibulk, McachedClientHandler, Status, parse_redis_request}
use moxie_simple.Redis.Text.{codes, to_string, minus_one, atoi, int_to_size}
use moxie_simple.Redis.Line.{next_line}
use moxie_simple.Redis.Stream.{
  Request, view, Outcome, need_more, read_request, read_start, read_argc, argc_line, read_items,
  read_item,
}
use moxie_simple.Redis.Agrees.{IsReady}
use moxie_simple.Redis.Refine.{Answers, parse_redis_request-Answers}
use moxie_simple.Redis.RoundTrip.{parse-encode}
use moxie_simple.Redis.Resume.{parse-feed}
use moxie_simple.Redis.Refused.{parse-refused}

abbrev holding : List ℕ → Buffer
holding bytes = record {
  initial_size = 0;
  buffer = replicate 8 0 ++ bytes;
  reader_index = 8;
  writer_index = 8 + length bytes;
}

abbrev handler : List ℕ → McachedClientHandler
handler bytes = record {
  read_buf = holding bytes;
  write_buf = holding [];
  argc = 0;
  argv = [];
  cur_argv_len = minus_one;
}

abbrev ping : List (List ℕ)
ping = codes "PING" ∷ []

-- A request, and the first byte of the next.
abbrev bytes : List ℕ
bytes = codes "*1" ++ (crlf ++ (codes "$4" ++ (crlf ++ (codes "PING" ++ (crlf ++ codes "*")))))

abbrev first_part : List ℕ
first_part = codes "*1" ++ (crlf ++ codes "$")

abbrev second_part : List ℕ
second_part = codes "4" ++ (crlf ++ (codes "PING" ++ (crlf ++ codes "*")))

handler-IsReady : IsReady (handler bytes)
handler-IsReady = record { read_valid = omega arith; write_valid = omega arith; room = omega arith }

parse-encode_example :
    (c' : McachedClientHandler) × (parse_redis_request (handler bytes) ≡ some (true, c'))
    × (c'.argv ≡ ping)
    × (c'.argc ≡ 1)
    × (contents c'.read_buf ≡ codes "*")
    × (contents c'.write_buf ≡ [])
unfolding to_string
parse-encode_example =
    parse-encode (handler bytes) ping (codes "*") handler-IsReady refl refl (λ e. cc) (omega arith)
      (omega arith)

parse_redis_request-Answers_example :
    (o : Outcome) × (q : Request) × (read_request (view (handler bytes)) ≡ some (o, q))
    × Answers (holding []) (parse_redis_request (handler bytes)) o q
parse_redis_request-Answers_example = parse_redis_request-Answers (handler bytes) handler-IsReady

-- The announcement of one argument has been read, and the first byte of its length has come.
abbrev waiting : Request
waiting = record { input = codes "$"; argc = 1; argv = []; cur_argv_len = minus_one }

first_part_waits : read_request (view (handler first_part)) ≡ some (need_more, waiting)
unfolding read_request read_start read_argc argc_line read_items read_item next_line atoi
    int_to_size
first_part_waits = refl

abbrev later : McachedClientHandler
later = record (handler (codes "$" ++ second_part)) { argc = 1 }

later-IsReady : IsReady later
later-IsReady = record { read_valid = omega arith; write_valid = omega arith; room = omega arith }

parse-feed_example :
    (result : Bool) × (reply : List ℕ) × (c₁ : McachedClientHandler) × (c₂ : McachedClientHandler)
    × (parse_redis_request (handler bytes) ≡ some (result, c₁))
    × (parse_redis_request later ≡ some (result, c₂))
    × (view c₁ ≡ view c₂)
    × (contents c₁.write_buf ≡ contents (holding []) ++ reply)
    × (contents c₂.write_buf ≡ contents (holding []) ++ reply)
parse-feed_example =
    parse-feed (handler first_part) (handler bytes) later waiting second_part handler-IsReady
      later-IsReady (λ e. cc) first_part_waits refl refl

-- A cluster whose state is the last request, and that answers every request with three bytes.
abbrev echoing : List (List ℕ) → List (List ℕ) → (Status × List ℕ) × List (List ℕ)
echoing w argv = ((inl tt, codes "abc"), argv)

-- A complete GET, with eight bytes left in the write buffer.
abbrev got : McachedClientHandler
got = record {
  read_buf = holding [];
  write_buf = record {
    initial_size = 8;
    buffer = replicate 16 0;
    reader_index = 8;
    writer_index = 8;
  };
  argc = 2;
  argv = codes "get" ∷ codes "k" ∷ [];
  cur_argv_len = minus_one;
}

abbrev idle_event : PollerEvent
idle_event = record { event = 3; valatile = 1; sock = 7 }

abbrev get_bytes : List ℕ
get_bytes =
    codes "*2"
    ++ (crlf
        ++ (codes "$3"
            ++ (crlf ++ (codes "get" ++ (crlf ++ (codes "$1" ++ (crlf ++ (codes "k" ++ crlf))))))))

abbrev asking : McachedClientHandler
asking = record got { read_buf = holding get_bytes; argc = 0; argv = [] }

abbrev asked : McachedClientHandler
asked = record got { read_buf = record (holding get_bytes) { writer_index = 8 } }

-- An inline command, which the parser does not take, and a request behind it.
abbrev inline_bytes : List ℕ
inline_bytes = codes "PING" ++ (crlf ++ get_bytes)

parse-refused_example :
    (c' : McachedClientHandler) × (parse_redis_request (handler inline_bytes) ≡ some (false, c'))
    × (contents c'.read_buf ≡ crlf ++ get_bytes)
    × (c'.argc ≡ 0)
    × (contents c'.write_buf ≡ invalid_multibulk)
parse-refused_example =
    parse-refused (handler inline_bytes) (codes "PING") get_bytes
      record { read_valid = omega arith; write_valid = omega arith; room = omega arith } refl refl
      (omega arith, (omega arith, (omega arith, tt))) (λ e. cc)
