-- ===== src/Stream/Close.antt =====
-- Callbacks, events and closing: `run_callback`, `consume`, `close`, `maybe_run_close_callback`,
-- `maybe_add_error_listener`, `add_io_state`, `check_closed` and `callback_wrapper` of IOStream.
use ctornado.Stream.Monad.{
  Events, M, Stream, call, call_data, catching, done, has_events, is_some, modify, no_events,
  on_read_buffer, stream_is_closed, throw, throws, ◌>>=◌, ◌>>◌,
}
use ctornado.Base.{
  Bool, Option, Result, [], err, false, if◌then◌else◌, none, not, ok, some, true, ℕ, ◌&&◌, ◌++◌,
  ◌+◌, ◌-◌, ◌==◌, ◌||◌, ◌∷◌,
}
use ctornado.Str.{Str, null}
use ctornado.Buffer.{Buffer}
use ctornado.Buffer

-- `run_callback(callback)`
unfoldable pub run_callback : Option ℕ → M (Unit {0})
run_callback cb s =
    done tt
      (record s { pending_callbacks = s.pending_callbacks + 1; tasks = s.tasks ++ call cb ∷ [] })

-- `run_callback(callback, data)`
unfoldable pub run_stream_callback : Option ℕ → Str → M (Unit {0})
run_stream_callback cb chunk s = done tt (record s {
  pending_callbacks = s.pending_callbacks + 1;
  tasks = s.tasks ++ call_data cb chunk ∷ [];
})

-- `merge_prefix(loc)` and `pop()`
unfoldable pub take_front : ℕ → Buffer → Result (Str × Buffer)
take_front loc b = elim (Buffer.merge_prefix b loc) [ ok b' ↦ Buffer.pop b' | err e ↦ err e ]

unfoldable pub consume : ℕ → M Str
consume loc s = if loc == 0 then done null s else on_read_buffer (take_front loc) s

unfoldable pub maybe_run_close_callback : M (Unit {0})
unfolding run_callback
maybe_run_close_callback s =
    if not s.socket && (is_some s.close_callback && s.pending_callbacks == 0)
    then run_callback s.close_callback (record s { close_callback = none })
    else done tt s

-- the part of `close` for `read_until_close_`
unfoldable pub flush_until_close : M (Unit {0})
unfolding run_stream_callback consume
flush_until_close s =
    if s.read_until_close
    then (consume s.read_buffer.size >>= run_stream_callback s.read_callback)
        (record s { read_callback = none; read_until_close = false })
    else done tt s

-- `if (state_ != 0) { remove_handler; state_ = 0 }`
unfoldable pub drop_handler : Stream → Stream
drop_handler s = if has_events s.state then record s { state = no_events; handler = none } else s

-- the part of `close` for a socket that is open
unfoldable pub close_socket : M (Unit {0})
unfolding flush_until_close drop_handler
close_socket s =
    if s.socket
    then (do
      modify (λ s. if s.sys_errno == 0 then s else record s { error = some s.sys_errno })
      flush_until_close
      modify (λ s. record (drop_handler s) { socket = false }))
        s
    else done tt s

unfoldable pub close : M (Unit {0})
unfolding close_socket maybe_run_close_callback
close = do close_socket; modify (λ s. record s { read_regex = none }); maybe_run_close_callback

unfoldable pub check_closed : M (Unit {0})
check_closed s = if s.socket then done tt s else throws stream_is_closed s

-- `add_io_state` for READ or WRITE: an ERROR bit is asked for with the first of them.
unfoldable pub add_io_state : Bool → Bool → M (Unit {0})
add_io_state on_read on_write s =
    let mask : Events = record { on_read = on_read; on_write = on_write; on_error = true } in
    let more : Events = record {
      on_read = s.state.on_read || on_read;
      on_write = s.state.on_write || on_write;
      on_error = s.state.on_error;
    } in
    if not s.socket
    then done tt s
    else if not (has_events s.state)
    then done tt (record s { state = mask; handler = some mask })
    else if (s.state.on_read && on_read) || (s.state.on_write && on_write)
    then done tt s
    else done tt (record s { state = more; handler = some more })

unfoldable pub maybe_add_error_listener : M (Unit {0})
unfolding maybe_run_close_callback add_io_state
maybe_add_error_listener s =
    if not (has_events s.state) && s.pending_callbacks == 0
    then (if s.socket then add_io_state true false s else maybe_run_close_callback s)
    else done tt s

-- `callback_wrapper(callback)`, for a user's callback that acts on the stream.
unfoldable pub callback_wrapper : M (Unit {0}) → M (Unit {0})
unfolding close maybe_add_error_listener
callback_wrapper callback = do
  modify (λ s. record s { pending_callbacks = s.pending_callbacks - 1 })
  catching callback (λ t. close >> throw t)
  maybe_add_error_listener
