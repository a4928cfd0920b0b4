-- ===== src/Stream/Read.antt =====
-- The reading half of IOStream: `read_from_buffer`, `read_to_buffer` and their callers.
use ctornado.Stream.Monad.{
  Exec, M, Recv, at_end, buffer_is_full, catching, done, eagain, exec_fails, is_some, match_end,
  modify, no_match, received, recv_blocks, recv_fails, return, socket_error, stuck, throw, throws,
  ◌>>=◌, ◌>>◌,
}
use ctornado.Stream.Close.{
  add_io_state, check_closed, close, consume, maybe_add_error_listener, maybe_run_close_callback,
  run_stream_callback,
}
use ctornado.Base.{
  Bool, Bytes, List, Option, [], err, false, fault, if◌then◌else◌, is_nil, leb, length, ltb, min,
  no_fuel, none, not, ok, some, suc, true, zero, ℕ, ◌&&◌, ◌+◌, ◌-◌, ◌==◌, ◌∷◌,
}
use ctornado.Str.{Str, len, null, text}
use ctornado.Str.Find.{memmem}
use ctornado.Buffer.{Buffer}
use ctornado.Buffer

-- `str.find(delimiter)`
unfoldable pub find_delimiter : Str → Bytes → Option ℕ
find_delimiter null d = none
find_delimiter (text s) d = memmem s d

-- what `read_from_buffer` does first for a streaming callback
unfoldable pub feed_streaming : M (Unit {0})
unfolding consume run_stream_callback
feed_streaming s =
    let size = s.read_buffer.size in
    let some_bytes = min s.read_bytes size in
    let rest = record s { read_bytes = s.read_bytes - some_bytes } in
    if is_some s.streaming_callback && ltb 0 size
    then (if s.read_bytes == 0
        then (consume size >>= run_stream_callback s.streaming_callback) s
        else (consume some_bytes >>= run_stream_callback s.streaming_callback) rest)
    else done tt s

-- The read is complete: the callbacks are taken out of the stream and the callback gets `loc` bytes.
unfoldable pub deliver : Option ℕ → ℕ → M Bool
unfolding consume run_stream_callback
deliver callback loc s =
    (consume loc >>= λ chunk. run_stream_callback callback chunk >> return true)
      (record s { read_callback = none; streaming_callback = none })

-- The loop over the read buffer for a delimiter. `fuel` bounds the rounds of `while (true)`.
unfoldable pub delimiter_loop : ℕ → Bytes → M Bool
delimiter_loop zero d s = stuck no_fuel
delimiter_loop (suc fuel) d s = elim (Buffer.top s.read_buffer) [
  | err e ↦ stuck e
  | ok str ↦ elim (find_delimiter str d) [
    | some loc ↦ deliver s.read_callback (loc + length d) (record s { read_delimiter = none })
    | none ↦ elim (s.read_buffer.size == 1) [
      | true ↦ done false s
      | false ↦ elim (Buffer.double_prefix s.read_buffer) [
        | err e ↦ stuck e
        | ok b ↦ delimiter_loop fuel d (record s { read_buffer = b })
      ]
    ]
  ]
]

-- The same for a regex.
unfoldable pub regex_loop : ℕ → (Str → Exec) → M Bool
regex_loop zero exec s = stuck no_fuel
regex_loop (suc fuel) exec s = elim (Buffer.top s.read_buffer) [
  | err e ↦ stuck e
  | ok str ↦ elim (exec str) [
    | exec_fails ↦ done false s
    | match_end loc ↦ deliver s.read_callback loc (record s { read_regex = none })
    | no_match ↦ elim (s.read_buffer.size == 1) [
      | true ↦ done false s
      | false ↦ elim (Buffer.double_prefix s.read_buffer) [
        | err e ↦ stuck e
        | ok b ↦ regex_loop fuel exec (record s { read_buffer = b })
      ]
    ]
  ]
]

-- `else if (read_regex_ != nullptr)`
unfoldable pub try_regex : ℕ → Option (Str → Exec) → M Bool
try_regex fuel none s = done false s
try_regex fuel (some exec) s =
    if ltb 0 s.read_buffer.size then regex_loop fuel exec s else done false s

-- `else if (read_delimiter_ != nullptr)`, and what is behind it
unfoldable pub try_delimiter : ℕ → Option Bytes → M Bool
try_delimiter fuel none s = try_regex fuel s.read_regex s
try_delimiter fuel (some d) s =
    if ltb 0 s.read_buffer.size then delimiter_loop fuel d s else done false s

-- `if (read_bytes_ != 0 && read_buffer_.size() >= read_bytes_)`, and what is behind it
unfoldable pub try_read : ℕ → M Bool
try_read fuel s =
    if not (s.read_bytes == 0) && leb s.read_bytes s.read_buffer.size
    then deliver s.read_callback s.read_bytes (record s { read_bytes = 0 })
    else try_delimiter fuel s.read_delimiter s

unfoldable pub read_from_buffer : ℕ → M Bool
read_from_buffer fuel = feed_streaming >> try_read fuel

-- `read_from_socket`: the next answer of `recv`.
unfoldable pub answer_recv : Recv → M Str
unfolding close
answer_recv (received bs) = if is_nil bs then close >> return null else return (text bs)
answer_recv at_end = close >> return null
answer_recv recv_blocks = modify (λ s. record s { sys_errno = eagain }) >> return null
answer_recv (recv_fails e) = modify (λ s. record s { sys_errno = e }) >> throw (socket_error e)

next_recv : List Recv → M Str
unfolding answer_recv
next_recv [] = answer_recv recv_blocks
next_recv (r ∷ rs) = modify (λ s. record s { incoming = rs }) >> answer_recv r

unfoldable pub read_from_socket : M Str
unfolding next_recv
read_from_socket s = next_recv s.incoming s

-- what `read_to_buffer` does with a chunk
unfoldable pub keep_chunk : Str → M ℕ
unfolding close
keep_chunk chunk s =
    let s' = record s { read_buffer = Buffer.push s.read_buffer chunk } in
    if len chunk == 0
    then done 0 s
    else if leb s'.max_buffer_size s'.read_buffer.size
    then (close >> throw buffer_is_full) s'
    else done (len chunk) s'

unfoldable pub read_to_buffer : M ℕ
unfolding read_from_socket keep_chunk
read_to_buffer = catching read_from_socket (λ t. close >> throw t) >>= keep_chunk

-- `while (true) { if (read_to_buffer() == 0) break; … }`, over the answers that the socket has left.
-- Each round takes one, so one round more than there are answers is enough fuel.
unfoldable pub read_loop : ℕ → M (Unit {0}) → M (Unit {0})
unfolding read_to_buffer
read_loop zero between s = stuck no_fuel
read_loop (suc fuel) between s = elim (read_to_buffer s) [
  | throws t s' ↦ throws t s'
  | stuck e ↦ stuck e
  | done n s' ↦ elim (n == 0) [
    | true ↦ done tt s'
    | false ↦ elim (between s') [
      | throws t s'' ↦ throws t s''
      | stuck e ↦ stuck e
      | done _ s'' ↦ read_loop fuel between s''
    ]
  ]
]

unfoldable pub less_pending : M (Unit {0})
less_pending = modify (λ s. record s { pending_callbacks = s.pending_callbacks - 1 })

unfoldable pub more_pending : M (Unit {0})
more_pending = modify (λ s. record s { pending_callbacks = s.pending_callbacks + 1 })

unfoldable pub read_all : M (Unit {0}) → M (Unit {0})
unfolding read_loop
read_all between s = read_loop (length s.incoming + 1) between s

-- `handle_read`: an error of the loop closes the stream, and does not leave the handler.
unfoldable pub handle_read : ℕ → M (Unit {0})
unfolding read_all more_pending less_pending read_from_buffer maybe_run_close_callback close
handle_read fuel = do
  ended ←
      catching (more_pending >> read_all (return tt) >> less_pending >> return true)
        (λ t. less_pending >> close >> return false)
  if ended
      then (do found ← read_from_buffer fuel; if found then return tt else maybe_run_close_callback)
      else return tt

-- `try_inline_read`
unfoldable pub try_inline_read : ℕ → M (Unit {0})
unfolding read_all more_pending less_pending read_from_buffer maybe_add_error_listener check_closed
try_inline_read fuel = do
  found ← read_from_buffer fuel
  if found then return tt else (do
    check_closed
    catching (more_pending >> read_all check_closed) (λ t. less_pending >> throw t)
    less_pending
    found_now ← read_from_buffer fuel
    if found_now then return tt else maybe_add_error_listener)

-- `set_read_callback`, with its ASSERT
unfoldable pub set_read_callback : Option ℕ → M (Unit {0})
set_read_callback cb s =
    if is_some s.read_callback then stuck fault else done tt (record s { read_callback = cb })

unfoldable pub read_until : ℕ → Bytes → Option ℕ → M (Unit {0})
unfolding set_read_callback try_inline_read
read_until fuel delimiter callback = do
  set_read_callback callback
  modify (λ s. record s { read_delimiter = some delimiter })
  try_inline_read fuel

unfoldable pub read_until_regex : ℕ → (Str → Exec) → Option ℕ → M (Unit {0})
unfolding set_read_callback try_inline_read
read_until_regex fuel exec callback = do
  set_read_callback callback
  modify (λ s. record s { read_regex = some exec })
  try_inline_read fuel

unfoldable pub read_n_bytes : ℕ → ℕ → Option ℕ → Option ℕ → M (Unit {0})
unfolding set_read_callback try_inline_read
read_n_bytes fuel num_bytes callback streaming = do
  set_read_callback callback
  modify (λ s. record s { read_bytes = num_bytes; streaming_callback = streaming })
  try_inline_read fuel

-- the branch of `read_until_close` for a stream that is closed
unfoldable pub flush_closed : M (Unit {0})
unfolding consume run_stream_callback
flush_closed s =
    (do
      (if is_some s.streaming_callback
          then consume s.read_buffer.size >>= run_stream_callback s.streaming_callback
          else return tt)
      consume_all >>= run_stream_callback s.read_callback
      modify (λ s. record s { streaming_callback = none; read_callback = none }))
      s
  where
    consume_all : M Str
    consume_all s = consume s.read_buffer.size s

unfoldable pub read_until_close : Option ℕ → Option ℕ → M (Unit {0})
unfolding set_read_callback flush_closed add_io_state
read_until_close callback streaming = do
  set_read_callback callback
  modify (λ s. record s { streaming_callback = streaming })
  finish
  where
    finish : M (Unit {0})
    finish s =
        if not s.socket
        then flush_closed s
        else (modify (λ s. record s { read_until_close = true }) >> add_io_state true false) s
