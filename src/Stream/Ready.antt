-- ===== src/Stream/Ready.antt =====
-- `handle_events` of a stream that the loop watches for reading, when its socket can be read.
use ctornado.Stream.Monad.{
  Events, M, Out, Stream, bind_done, catching, done, has_events, throw, ◌>>◌,
}
use ctornado.Stream.Close.{add_io_state, close, maybe_add_error_listener}
use ctornado.Stream.Read.{handle_read}
use ctornado.Stream.Write.{
  handle_errors, handle_events, handle_writes, same_events, update_state, wanted,
}
use ctornado.Base.{
  Bool, Bool-cases, Option, false, if◌then◌else◌, inl, inr, not, refl, some, true, ℕ, ◌||◌, ◌∙◌,
  ◌≡◌, ◌⊎◌,
}

-- the events of a socket that can be read
abbrev pub readable : Events
readable = record { on_read = true; on_write = false; on_error = false }

-- The loop watches the socket for what the stream notes, and that is reading at least.
pub record Listens (s : Stream) : Type 0 where
  pub watched : s.handler ≡ some s.state
  pub for_read : s.state.on_read ≡ true

-- what `add_io_state(READ)` asks for first
abbrev reads : Events
reads = record { on_read = true; on_write = false; on_error = true }

-- The stream listens, or it is watched for nothing and no callback of it is pending.
abbrev pub CanListen : Stream → Type 0
CanListen s = Listens s ⊎ ((has_events s.state ≡ false) × (s.pending_callbacks ≡ 0))

some_event : (e : Events) → e.on_read ≡ true → has_events e ≡ true
some_event e h = rw (h) refl

-- Behind `maybe_add_error_listener` such a stream with an open socket listens.
pub begin_reading :
    (s : Stream)
    → s.socket ≡ true
    → CanListen s
    → (e : Events) × (h : Option Events) × (maybe_add_error_listener s
        ≡ done tt (record s { state = e; handler = h }))
      × Listens (record s { state = e; handler = h })
unfolding maybe_add_error_listener add_io_state
begin_reading s open_socket (inl l) = (
  s.state,
  s.handler,
  rw (some_event s.state l.for_read) refl,
  record { watched = l.watched; for_read = l.for_read },
)
begin_reading s open_socket (inr (none_yet, idle)) = (
  reads,
  some reads,
  rw (none_yet, idle, open_socket) refl,
  record { watched = refl; for_read = refl },
)

update_state_lem :
    (s : Stream)
    → has_events s.state ≡ true
    → (e : Events) × (h : Option Events) × (update_state s
        ≡ done tt (record s { state = e; handler = h }))
unfolding update_state
update_state_lem s some_events = elim (Bool-cases (same_events (wanted s) s.state)) [
  | inl same ↦ (s.state, s.handler, rw (same) refl)
  | inr other ↦ (wanted s, some (wanted s), rw (other, some_events) refl)
]

-- After `handle_read` there is nothing to write and no error; only what is watched may change.
pub handle_events_reads :
    (fuel so_error : ℕ) (s s' : Stream)
    → s.socket ≡ true
    → handle_read fuel s ≡ done tt s'
    → s'.socket ≡ true
    → s'.state.on_read ≡ true
    → (e : Events) × (h : Option Events) × (handle_events fuel so_error readable s
        ≡ done tt (record s' { state = e; handler = h }))
unfolding handle_events handle_writes handle_errors
handle_events_reads fuel so_error s s' open_socket run still_open on_read =
    let (e, h, updated) = update_state_lem s' (some_event s'.state on_read) in
    (
      e,
      h,
      taken s.socket open_socket (
          caught (
            bind_done (handle_read fuel)
              (λ _. handle_writes so_error readable >> handle_errors so_error readable) s run
            ∙ written e h updated)),
    )
  where
    inner : M (Unit {0})
    inner = handle_read fuel >> (handle_writes so_error readable >> handle_errors so_error readable)

    nothing_written :
        (b : Bool) (x : Out (Unit {0}))
        → b ≡ true
        → (if not b || not false then done tt s' else x) ≡ done tt s'
    nothing_written b x e = rw (e) refl

    no_error :
        (b : Bool) (x y : Out (Unit {0})) → b ≡ true → x ≡ y → (if not b then done tt s' else x) ≡ y
    no_error b x y e k = rw (e) k

    written :
        (e : Events) (h : Option Events)
        → update_state s' ≡ done tt (record s' { state = e; handler = h })
        → (handle_writes so_error readable >> handle_errors so_error readable) s'
          ≡ done tt (record s' { state = e; handler = h })
    written e h updated =
        bind_done (handle_writes so_error readable) (λ _. handle_errors so_error readable) s'
          {s' = s'} (nothing_written s'.socket _ still_open)
        ∙ no_error s'.socket _ _ still_open updated

    caught :
        {t : Stream} → inner s ≡ done tt t → catching inner (λ t. close >> throw t) s ≡ done tt t
    caught e = rw (e, catching) refl

    taken :
        {t : Stream} (b : Bool)
        → b ≡ true
        → catching inner (λ t. close >> throw t) s ≡ done tt t
        → (if not b then done tt s else catching inner (λ t. close >> throw t) s) ≡ done tt t
    taken b e k = rw (e) k
