-- ===== src/Stream/Write.antt =====
-- The writing half of IOStream, connecting, and the events of the loop.
use ctornado.Stream.Monad.{
  Events, M, Send, Stream, call_close, catching, done, eagain, einprogress, has_events, is_some,
  modify, return, send_blocks, send_fails, sent, stuck, throw, ◌>>◌, ◌>>=◌,
}
use ctornado.Stream.Close.{
  add_io_state, check_closed, close, maybe_add_error_listener, run_callback,
}
use ctornado.Stream.Read.{handle_read}
use mathlib.Core.Bool.{xor}
use ctornado.Base.{
  Bool, Error, List, Option, Result, [], err, false, fault, if◌then◌else◌, length, ltb, min,
  no_fuel, none, not, ok, some, suc, take, true, zero, ℕ, ◌&&◌, ◌++◌, ◌+◌, ◌==◌, ◌||◌, ◌∷◌,
}
use ctornado.Str.{Str, bytes, len}
use ctornado.Buffer.{Buffer}
use ctornado.Buffer

-- The next answer of `send`; after the last, it blocks.
unfoldable pub next_send : List Send → Send × List Send
next_send [] = (send_blocks, [])
next_send (a ∷ answers) = (a, answers)

-- `remove_prefix` after `send` took `n` bytes of the chunk in front, which the wire now has
unfoldable pub take_sent : ℕ → Str → Stream → Result Stream
take_sent n chunk s = elim (Buffer.remove_prefix s.write_buffer n) [
  | err e ↦ err e
  | ok b ↦ ok (record s {
    write_buffer = b;
    write_buffer_frozen = false;
    wire = s.wire ++ take n (bytes chunk);
  })
]

-- How one round of the loop of `handle_write` ends.
pub data Round : Type 0 where
  again : Stream → Round
  leave_loop : Stream → Round
  give_up : Stream → Round
  failed : Error → Round

-- the answer of `send` to a chunk; it never takes more bytes than it is given
unfoldable pub answer_send : Send → Str → Stream → Round
unfolding take_sent
answer_send send_blocks chunk s =
    leave_loop (record s { write_buffer_frozen = true; sys_errno = eagain })
answer_send (send_fails e) chunk s = give_up (record s { sys_errno = e })
answer_send (sent n) chunk s =
    if min n (len chunk) == 0
    then leave_loop (record s { write_buffer_frozen = true })
    else elim (take_sent (min n (len chunk)) chunk s) [ ok s' ↦ again s' | err e ↦ failed e ]

-- `if (!write_buffer_frozen_) merge_prefix(1048576)`
unfoldable pub merge_unless_frozen : Stream → Result Buffer
merge_unless_frozen s =
    if s.write_buffer_frozen then ok s.write_buffer else Buffer.merge_prefix s.write_buffer 1048576

-- the chunk for `socket_->send`, which needs a socket
unfoldable pub socket_top : Bool → Buffer → Result Str
socket_top open_socket b = elim (Buffer.top b) [
  | err e ↦ err e
  | ok chunk ↦ if open_socket then ok chunk else err fault
]

-- one round of the loop, over a write buffer with bytes
unfoldable pub write_round : Stream → Round
unfolding merge_unless_frozen next_send answer_send socket_top
write_round s = elim (merge_unless_frozen s) [
  | err e ↦ failed e
  | ok b ↦ elim (socket_top s.socket b) [
    | err e ↦ failed e
    | ok chunk ↦
        let (answer, answers) = next_send s.accepting in
        answer_send answer chunk (record s { write_buffer = b; accepting = answers })
  ]
]

-- `while (write_buffer_.size() > 0)`; the Bool says that the code behind the loop is reached. Each round
-- that goes on takes an answer of `send`, so one round more than there are answers is enough fuel.
unfoldable pub write_loop : ℕ → M Bool
unfolding write_round close
write_loop zero s = stuck no_fuel
write_loop (suc fuel) s = elim (ltb 0 s.write_buffer.size) [
  | false ↦ done true s
  | true ↦ elim (write_round s) [
    | again s' ↦ write_loop fuel s'
    | leave_loop s' ↦ done true s'
    | give_up s' ↦ (close >> return false) s'
    | failed e ↦ stuck e
  ]
]

-- the end of `handle_write`
unfoldable pub finish_write : M (Unit {0})
unfolding run_callback
finish_write s =
    if s.write_buffer.size == 0 && is_some s.write_callback
    then run_callback s.write_callback (record s { write_callback = none })
    else done tt s

unfoldable pub handle_write : M (Unit {0})
unfolding write_loop finish_write
handle_write s =
    (do all ← write_loop (length s.accepting + 1); if all then finish_write else return tt) s

-- `if (data.len() > 0) write_buffer_.push(data)`
unfoldable pub queue_data : Str → Stream → Stream
queue_data chunk s =
    if ltb 0 (len chunk) then record s { write_buffer = Buffer.push s.write_buffer chunk } else s

-- `if (write_buffer_.size()) add_io_state(WRITE)`
unfoldable pub listen : M (Unit {0})
unfolding add_io_state
listen s = if s.write_buffer.size == 0 then done tt s else add_io_state false true s

-- `if (!connecting_) { … }`
unfoldable pub send_now : M (Unit {0})
unfolding handle_write listen maybe_add_error_listener
send_now s =
    if s.connecting then done tt s else (handle_write >> listen >> maybe_add_error_listener) s

-- `write(data, callback)`
unfoldable pub write : Str → Option ℕ → M (Unit {0})
unfolding check_closed queue_data send_now
write chunk callback = do
  check_closed
  modify (λ s. record (queue_data chunk s) { write_callback = callback })
  send_now

unfoldable pub set_close_callback : Option ℕ → M (Unit {0})
set_close_callback callback = modify (λ s. record s { close_callback = callback })

-- What `connect` of the socket answers.
pub data Connected : Type 0 where
  connected in_progress : Connected
  connect_fails : ℕ → Connected

-- the end of `connect` for a socket that connects
unfoldable pub await_connect : Option ℕ → M (Unit {0})
unfolding add_io_state
await_connect callback =
    modify (λ s. record s { connect_callback = callback }) >> add_io_state false true

unfoldable pub connect : Connected → Option ℕ → M (Unit {0})
unfolding close await_connect
connect connected callback = modify (λ s. record s { connecting = true }) >> await_connect callback
connect in_progress callback =
    modify (λ s. record s { connecting = true; sys_errno = einprogress }) >> await_connect callback
connect (connect_fails e) callback =
    modify (λ s. record s { connecting = true; sys_errno = e }) >> close

unfoldable pub run_connect_callback : M (Unit {0})
unfolding run_callback
run_connect_callback s =
    if is_some s.connect_callback
    then run_callback s.connect_callback (record s { connect_callback = none })
    else done tt s

-- `handle_connect`; `so_error` is the pending error of the socket, 0 for none.
unfoldable pub handle_connect : ℕ → M (Unit {0})
unfolding close run_connect_callback
handle_connect so_error = do
  (if so_error == 0 then return tt else modify (λ s. record s { error = some so_error }) >> close)
  run_connect_callback
  modify (λ s. record s { connecting = false })

-- the mask that `handle_events` asks for at its end
unfoldable pub wanted : Stream → Events
wanted s =
    let reading = is_some s.read_callback in
    let writing = ltb 0 s.write_buffer.size in
    record { on_read = reading || not writing; on_write = writing; on_error = true }

unfoldable pub same_events : Events → Events → Bool
same_events a b =
    not (xor a.on_read b.on_read)
    && (not (xor a.on_write b.on_write) && not (xor a.on_error b.on_error))

-- `if (state != state_) { ASSERT(state_ != 0); … update_handler … }`
unfoldable pub update_state : M (Unit {0})
unfolding same_events wanted
update_state s =
    if same_events (wanted s) s.state
    then done tt s
    else if has_events s.state
    then done tt (record s { state = wanted s; handler = some (wanted s) })
    else stuck fault

-- The parts of `handle_events`, each behind its test that the socket is there.
unfoldable pub handle_errors : ℕ → Events → M (Unit {0})
unfolding update_state
handle_errors so_error events s =
    if not s.socket
    then done tt s
    else if events.on_error
    then done tt (record s { error = some so_error; tasks = s.tasks ++ call_close ∷ [] })
    else update_state s

unfoldable pub handle_writes : ℕ → Events → M (Unit {0})
unfolding handle_connect handle_write
handle_writes so_error events s =
    if not s.socket || not events.on_write
    then done tt s
    else if s.connecting
    then (handle_connect so_error >> handle_write) s
    else handle_write s

unfoldable pub handle_events : ℕ → ℕ → Events → M (Unit {0})
unfolding handle_read handle_writes handle_errors close
handle_events fuel so_error events s =
    if not s.socket
    then done tt s
    else catching
        (do
          (if events.on_read then handle_read fuel else return tt)
          handle_writes so_error events
          handle_errors so_error events)
        (λ t. close >> throw t) s
