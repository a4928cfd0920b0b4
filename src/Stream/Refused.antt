-- ===== src/Stream/Refused.antt =====
-- `handle_connect` where the connection was refused, and `handle_write` behind it.
use mathlib.Core.Path.{subst}
use ctornado.Stream.Monad.{
  Events, M, Stream, Thrown, bind_done, bind_stuck, call, catching, done, is_some, modify, return,
  stuck, throw, ◌>>◌,
}
use ctornado.Stream.Close.{close, run_callback}
use ctornado.Stream.Write.{
  Round, answer_send, failed, finish_write, handle_connect, handle_errors, handle_events,
  handle_write, handle_writes, merge_unless_frozen, next_send, run_connect_callback, socket_top,
  write_loop, write_round,
}
use ctornado.Stream.Read.{}
use ctornado.Stream.Shutdown.{close_lem}
use ctornado.Stream.Round.{merged_lem, some_top}
use ctornado.Stream.Sending.{loop_round}
use ctornado.Base.{
  Bool, Bool-cases, Error, [], ap, arith, err, false, fault, if◌then◌else◌, inl, inr, length,
  lt→ltb, none, not, ok, some, suc, sym, true, ℕ, ◌++◌, ◌+◌, ◌<◌, ◌==◌, ◌||◌, ◌∙◌, ◌∷◌, ◌≡◌,
}
use ctornado.Buffer
use ctornado.Buffer.{Buffer}
use ctornado.Buffer.Content.{IsValid}
use ctornado.Str.{Str}

round_shut :
    (s : Stream) (b : Buffer) (c : Str)
    → s.socket ≡ false
    → merge_unless_frozen s ≡ ok b
    → Buffer.top b ≡ ok c
    → write_round s ≡ failed fault
unfolding write_round socket_top
round_shut s b c o m h = rw (m, h, write_round) (chosen s.socket o)
  where
    chosen :
        (open_socket : Bool)
        → open_socket ≡ false
        → elim (if open_socket then ok c else err fault) as (λ x. Round) [
          | err e ↦ failed e
          | ok chunk ↦
              answer_send
                (next_send s.accepting).0
                chunk
                (record s { write_buffer = b; accepting = (next_send s.accepting).1 })
        ]
          ≡ failed fault
    chosen open_socket e = rw (e)

write_shut :
    (s : Stream)
    → s.socket ≡ false
    → IsValid s.write_buffer
    → 0 < s.write_buffer.size
    → handle_write s ≡ stuck fault
write_shut s o v h =
    let (b, m, all, w) = merged_lem s v in
    let (c, first, _) = some_top b w (omega (arith, v.counted, w.counted, ap length all)) in
    unfold handle_write in
    bind_stuck (write_loop (length s.accepting + 1))
      (λ all. if all then finish_write else return tt) s
      (ap (λ n. write_loop n s) one_more ∙ looped (round_shut s b c o m first))
  where
    one_more : length s.accepting + 1 ≡ suc (length s.accepting)
    one_more = omega arith

    looped : write_round s ≡ failed fault → write_loop (suc (length s.accepting)) s ≡ stuck fault
    looped e = loop_round (length s.accepting) s (lt→ltb 0 s.write_buffer.size h) ∙ rw (e)

-- the stream behind `handle_connect`
record Refused (s t : Stream) : Type 0 where
  no_socket : t.socket ≡ false
  same_write : t.write_buffer ≡ s.write_buffer

refused_lem :
    (so_error : ℕ) (s : Stream)
    → (so_error == 0) ≡ false
    → IsValid s.read_buffer
    → (t : Stream) × (handle_connect so_error s ≡ done tt t) × Refused s t
unfolding run_callback
refused_lem so_error s e v =
    let (u, run, c) = close_lem (record s { error = some so_error }) v in
    let (w, last, r) = called u c.gone c.quiet_step.same_unsent in
    (
      record w { connecting = false },
      whole u w run last,
      record { no_socket = r.no_socket; same_write = r.same_write },
    )
  where
    scheduled : Stream → Stream
    scheduled u = record u {
      connect_callback = none;
      pending_callbacks = u.pending_callbacks + 1;
      tasks = u.tasks ++ call u.connect_callback ∷ [];
    }

    called :
        (u : Stream)
        → u.socket ≡ false
        → u.write_buffer ≡ s.write_buffer
        → (w : Stream) × (run_connect_callback u ≡ done tt w) × Refused s w
    called u o k =
        unfold run_connect_callback in
        elim (Bool-cases (is_some u.connect_callback)) [
          | inl set ↦ (scheduled u, rw (set), record { no_socket = o; same_write = k })
          | inr unset ↦ (u, rw (unset), record { no_socket = o; same_write = k })
        ]

    whole :
        (u w : Stream)
        → close (record s { error = some so_error }) ≡ done tt u
        → run_connect_callback u ≡ done tt w
        → handle_connect so_error s ≡ done tt (record w { connecting = false })
    whole u w run last =
        unfold handle_connect in
        rw (e) (
          bind_done (modify (λ s. record s { error = some so_error }) >> close)
            (λ _. run_connect_callback >> modify (λ s. record s { connecting = false })) s run
          ∙ bind_done run_connect_callback (λ _. modify (λ s. record s { connecting = false })) u
              last)

caught :
    {A : Type 0} (m : M A) (h : Thrown → M A) (s : Stream) {e : Error}
    → m s ≡ stuck e
    → catching m h s ≡ stuck e
caught m h s e = rw (e, catching)

-- the mask WRITE
abbrev pub writable : Events
writable = record { on_read = false; on_write = true; on_error = false }

writes_at :
    (so_error : ℕ) (s : Stream)
    → s.socket ≡ true
    → s.connecting ≡ true
    → handle_writes so_error writable s ≡ (handle_connect so_error >> handle_write) s
unfolding handle_writes
writes_at so_error s o k = picks s.socket s.connecting _ _ _ o k
  where
    picks :
        {A : Type 0} (b c : Bool) (x y z : A)
        → b ≡ true
        → c ≡ true
        → (if not b || false then x else if c then y else z) ≡ y
    picks b c x y z e f = rw (e, f)

events_at :
    (fuel so_error : ℕ) (s : Stream) (e : Error)
    → s.socket ≡ true
    → handle_writes so_error writable s ≡ stuck e
    → handle_events fuel so_error writable s ≡ stuck e
unfolding handle_events
events_at fuel so_error s e o run =
    picks s.socket _ _ o
    ∙ caught (return tt >> (handle_writes so_error writable >> handle_errors so_error writable))
        (λ t. close >> throw t) s
        (bind_stuck (handle_writes so_error writable) (λ _. handle_errors so_error writable) s run)
  where
    picks : {A : Type 0} (b : Bool) (x y : A) → b ≡ true → (if not b then x else y) ≡ y
    picks b x y e = rw (e)

-- A connection that fails while data waits to be written: `handle_connect` closes the stream, and
-- `handle_events` then calls `handle_write`, which sends through the socket that is gone. This happens
-- on every stream with valid buffers that connects, for any error of the socket.
pub connect_refused :
    (fuel so_error : ℕ) (s : Stream)
    → s.socket ≡ true
    → s.connecting ≡ true
    → IsValid s.read_buffer
    → IsValid s.write_buffer
    → 0 < s.write_buffer.size
    → 0 < so_error
    → handle_events fuel so_error writable s ≡ stuck fault
connect_refused fuel so_error s o k v w h e =
    let (t, run, r) = refused_lem so_error s (nonzero so_error e) v in
    events_at fuel so_error s fault o (
      writes_at so_error s o k
      ∙ bind_done (handle_connect so_error) (λ _. handle_write) s run
      ∙ write_shut t r.no_socket (subst IsValid (sym r.same_write) w)
          (subst (λ b. 0 < b.size) (sym r.same_write) h))
  where
    nonzero : (n : ℕ) → 0 < n → (n == 0) ≡ false
    nonzero n h = ground arith
