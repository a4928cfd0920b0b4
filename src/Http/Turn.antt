-- ===== src/Http/Turn.antt =====
-- One callback of the loop for a connection: `IOStream::callback_wrapper` around what HTTPConnection
-- bound to its stream.
use ctornado.Http.State.{C, fails, gives, on_stream, raises, ◌>>◌}
use ctornado.Http.Connection.{
  on_headers_id, on_request_body_id, on_write_complete, on_write_complete_id,
}
use ctornado.Http.Request.{on_headers, on_request_body}
use ctornado.Stream.Monad.{
  Events, Stream, Task, Thrown, call, call_close, call_data, done, has_events,
}
use ctornado.Stream.Close
use ctornado.Stream.Close.{add_io_state, maybe_add_error_listener}
use ctornado.Stream.Read.{less_pending}
use ctornado.Str.{}
use ctornado.Base.{
  Bool, Bool-cases, Bytes, Option, [], false, fault, if◌then◌else◌, inl, inr, none, refl, some,
  true, ℕ, ◌==◌, ◌∷◌, ◌≡◌,
}

-- `try { m } catch (Error& e) { h }`
abbrev pub catching : {A : Type 0} → C A → (Thrown → C A) → C A
catching m h c = elim (m c) [ gives a c' ↦ gives a c' | raises t c' ↦ h t c' | fails e ↦ fails e ]

-- `callback_wrapper(callback)`
unfoldable pub callback_wrapper : C (Unit {0}) → C (Unit {0})
unfolding less_pending Close.close maybe_add_error_listener
callback_wrapper callback = do
  on_stream less_pending
  catching callback (λ t. on_stream Close.close >> λ c. raises t c)
  on_stream maybe_add_error_listener

module _ (matches valid_ip : Bytes → Bool) (user : ℕ → C (Unit {0})) where
  -- what the connection bound; other callbacks are none of the connection's
  unfoldable pub bound : ℕ → Task → C (Unit {0})
  unfolding on_headers on_request_body on_write_complete
  bound fuel (call none) = λ c. fails fault
  bound fuel (call (some id)) =
      if id == on_write_complete_id then on_write_complete matches user fuel else λ c. fails fault
  bound fuel (call_data none chunk) = λ c. fails fault
  bound fuel (call_data (some id) chunk) =
      if id == on_headers_id
      then on_headers matches valid_ip fuel chunk
      else if id == on_request_body_id
      then on_request_body matches chunk
      else λ c. fails fault
  bound fuel call_close = λ c. fails fault

  -- The loop runs the first callback that the stream has scheduled.
  unfoldable pub run_task : ℕ → C (Unit {0})
  unfolding callback_wrapper bound
  run_task fuel c = elim c.stream.tasks [
    | [] ↦ gives tt c
    | t ∷ ts ↦
        callback_wrapper (bound fuel t) (record c { stream = record c.stream { tasks = ts } })
  ]

-- what `add_io_state(READ)` asks for first
abbrev reads : Events
reads = record { on_read = true; on_write = false; on_error = true }

-- `maybe_add_error_listener` on an open socket asks the loop for events, and does no more.
pub listens :
    (s : Stream)
    → s.socket ≡ true
    → (e : Events) × (h : Option Events) × (maybe_add_error_listener s
        ≡ done tt (record s { state = e; handler = h }))
unfolding maybe_add_error_listener add_io_state
listens s open_socket = elim (Bool-cases (has_events s.state)) [
  | inl some_events ↦ (s.state, s.handler, rw (some_events) refl)
  | inr none_yet ↦ elim (Bool-cases (s.pending_callbacks == 0)) [
    | inl idle ↦ (reads, some reads, rw (none_yet, idle, open_socket) refl)
    | inr busy ↦ (s.state, s.handler, rw (none_yet, busy) refl)
  ]
]
