-- ===== src/Redis.antt =====
-- example/Mcached/McachedRequestHandler.h and .cpp: the connection handler that parses requests of
-- the Redis protocol, executes them and writes the replies. `none` is a failed assertion.
pub mod Text
pub mod Stream
pub mod Line
pub mod Totality
pub mod Agrees
pub mod Items
pub mod Refine
pub mod Resume
pub mod RoundTrip
pub mod Refused
pub mod Reply
use moxie_simple.Base.{
  ℕ, zero, suc, ◌+◌, ◌-◌, ◌≡◌, List, [], ◌∷◌, ◌++◌, Bool, true, false, not, ◌&&◌, ◌||◌, Option,
  none, some, ltb, leb, ◌==◌, if◌then◌else◌, assert, ◌>>=◌, ◌>>◌, length, get_or, drop, bytes_eq,
  size_sub, ◌⊎◌, inl, inr,
}
use moxie_simple.Buffer.{
  Buffer, append, find_chars, peek, readable_bytes, writable_bytes, retrieve, retrieve_as_string,
  crlf,
}
use moxie_simple.PollerEvent.{PollerEvent, enable_write, disable_write}
use Text.{codes, atoi, to_string, int_to_size, minus_one, is_negative}

-- `class McachedClientHandler` with the two buffers of `ClientHandler`. `curArgvlen_` is an `int`.
pub record McachedClientHandler : Type 0 where
  pub read_buf : Buffer
  pub write_buf : Buffer
  pub argc : ℕ
  pub argv : List (List ℕ)
  pub cur_argv_len : ℕ

-- Replies to malformed requests.
abbrev pub invalid_multibulk : List ℕ
invalid_multibulk = codes "-ERR Protocol error: invalid multibulk length" ++ crlf

abbrev pub invalid_argv_len : List ℕ
invalid_argv_len = codes "-ERR Protocol error: invalid bulk length (argv_len)" ++ crlf

abbrev pub invalid_argv_str : List ℕ
invalid_argv_str = codes "-ERR Protocol error: invalid bulk length (argv_str)" ++ crlf

unfoldable pub reply_string : McachedClientHandler → List ℕ → Option McachedClientHandler
reply_string c error = do b ← append c.write_buf error; some (record c { write_buf = b })

pub reply_bulk_string : McachedClientHandler → List ℕ → Option McachedClientHandler
unfolding reply_string
reply_bulk_string c item = do
  c ← reply_string c (b'$' ∷ [])
  let len = to_string (length item)
  c ← reply_string c len
  c ← reply_string c crlf
  c ← reply_string c item
  reply_string c crlf

-- What a part of the parser ends with: go on, or return this from `ParseRedisRequest`.
pub data Flow : Type 0 where
  go_on : Flow
  return : Bool → Flow

-- `ReplyString(error); return false;`
unfoldable pub reject : McachedClientHandler → List ℕ → Option (Flow × McachedClientHandler)
reject c error = do c ← reply_string c error; some (return false, c)

-- The string up to the found CRLF: `retrieveAsString(crlf - readBuf_.peek())`.
unfoldable pub retrieve_line : McachedClientHandler → ℕ → Option (List ℕ × McachedClientHandler)
retrieve_line c pos = do
  (line, b) ← retrieve_as_string c.read_buf (size_sub pos (peek c.read_buf))
  some (line, record c { read_buf = b })

-- `readBuf_.retrieve(2)`.
unfoldable pub retrieve_crlf : McachedClientHandler → Option McachedClientHandler
retrieve_crlf c = do b ← retrieve c.read_buf 2; some (record c { read_buf = b })

-- `argc_ = atoi(…)` of the line without its first character, which has to be `*`.
unfoldable pub parse_argc_line :
    McachedClientHandler → List ℕ → Option (Flow × McachedClientHandler)
parse_argc_line c line =
    if not (get_or line 0 0 == b'*')
    then reject c invalid_multibulk
    else (let c = record c { argc = int_to_size (atoi (drop 1 line)) } in
        if c.argc == 0
        then reject c invalid_multibulk
        else (do c ← retrieve_crlf c; some (go_on, c)))

-- The branch for `argc_ <= 0`.
unfoldable pub parse_argc : McachedClientHandler → Option (Flow × McachedClientHandler)
parse_argc c =
    let c = record c { argv = []; cur_argv_len = minus_one } in
    elim (find_chars c.read_buf crlf) [
      | none ↦ some (return false, c)
      | some pos ↦ (do (line, c) ← retrieve_line c pos; parse_argc_line c line)
    ]

-- A line with the length of the next argument.
unfoldable pub parse_length_line :
    McachedClientHandler → List ℕ → Option (Flow × McachedClientHandler)
parse_length_line c line =
    if not (get_or line 0 0 == b'$')
    then reject (record c { cur_argv_len = minus_one; argc = 0 }) invalid_argv_len
    else (do c ← retrieve_crlf (record c { cur_argv_len = atoi (drop 1 line) }); some (go_on, c))

-- A line with the argument itself.
unfoldable pub parse_argument_line :
    McachedClientHandler → List ℕ → Option (Flow × McachedClientHandler)
parse_argument_line c line =
    if not (length line == int_to_size c.cur_argv_len)
    then reject (record c { cur_argv_len = minus_one; argc = 0 }) invalid_argv_str
    else (do
      c ← retrieve_crlf (record c { argv = c.argv ++ line ∷ [] })
      some (go_on, record c { cur_argv_len = minus_one }))

-- One round of the `while` loop.
unfoldable pub parse_round : McachedClientHandler → Option (Flow × McachedClientHandler)
parse_round c = elim (find_chars c.read_buf crlf) [
  | none ↦ some (return false, c)
  | some pos ↦ (do
    (line, c) ← retrieve_line c pos
    (if is_negative c.cur_argv_len then parse_length_line c line else parse_argument_line c line))
]

-- The loop; `none` also where the fuel runs out.
unfoldable pub parse_args : ℕ → McachedClientHandler → Option (Bool × McachedClientHandler)
parse_args zero c = none
parse_args (suc fuel) c = elim (ltb (length c.argv) c.argc) [
  | false ↦ some (ltb 0 c.argc && length c.argv == c.argc, c)
  | true ↦
      parse_round c >>= λ r. elim r.0 [ return b ↦ some (b, r.1) | go_on ↦ parse_args fuel r.1 ]
]

-- Each round takes at least a CRLF from the buffer, so there are fewer rounds than bytes.
unfoldable pub parse_redis_request : McachedClientHandler → Option (Bool × McachedClientHandler)
parse_redis_request c = if readable_bytes c.read_buf == 0 then some (false, c) else (do
  (flow, c) ← (if c.argc == 0 then parse_argc c else some (go_on, c))
  elim flow [ return b ↦ some (b, c) | go_on ↦ parse_args (suc (readable_bytes c.read_buf)) c ])

-- `slash::Status` as the handler sees it: success, or the text of `ToString()`.
abbrev pub Status : Type 0
Status = Unit {0} ⊎ List ℕ

unfoldable pub is_set : List (List ℕ) → Bool
is_set argv = bytes_eq (get_or argv 0 []) (codes "SET") || bytes_eq (get_or argv 0 []) (codes "set")

unfoldable pub is_get : List (List ℕ) → Bool
is_get argv = bytes_eq (get_or argv 0 []) (codes "get") || bytes_eq (get_or argv 0 []) (codes "GET")

-- The reply to an executed request.
pub reply_result : McachedClientHandler → Status × List ℕ → Option McachedClientHandler
unfolding is_set is_get
reply_result c (inl ok, res) =
    if is_set c.argv
    then reply_string c (codes "+OK" ++ crlf)
    else (if is_get c.argv then reply_bulk_string c res else some c)
reply_result c (inr message, res) = reply_string c (
    (if is_set c.argv
      then codes "-ERR write "
      else (if is_get c.argv then codes "-ERR read " else codes "-ERR request "))
    ++ (message ++ (codes " " ++ crlf)))

-- `floyd_raft->ExecMcached(argv_, res)` on the state of the cluster, and `~ResetArgcArgv`.
module _ {World : Type 0} (exec_mcached : World → List (List ℕ) → (Status × List ℕ) × World) where
  pub do_mcached_command : World → McachedClientHandler → Option (World × McachedClientHandler)
  do_mcached_command w c = do
    assert (c.argc == length c.argv)
    assert (ltb 0 c.argc)
    let r = exec_mcached w c.argv
    c' ← reply_result c r.0
    some (r.1, record c' { argc = 0; argv = [] })

  -- `AfetrRead`. `event_` and `event` are the same object. The last part tells whether
  -- `loop->Modity(event)` was called.
  pub after_read :
      World
      → McachedClientHandler
      → PollerEvent
      → Option (World × McachedClientHandler × PollerEvent × Bool)
  after_read w c event = do
    (parsed, c) ← parse_redis_request c
    (w, c) ← (if parsed then do_mcached_command w c else some (w, c))
    some (
        if writable_bytes c.write_buf == 0
        then (w, c, event, false)
        else (w, c, enable_write event, true))

-- `AfetrWrite`, with the same last part.
pub after_write : McachedClientHandler → PollerEvent → PollerEvent × Bool
after_write c event =
    if ltb 0 (readable_bytes c.write_buf) then (event, false) else (disable_write event, true)
