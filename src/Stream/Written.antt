-- ===== src/Stream/Written.antt =====
-- `write`: the data goes behind what was written before.
use ctornado.Stream.Monad.{
  Events, M, Out, Stream, bind_done, call, done, has_events, is_some, modify, ◌>>◌,
}
use ctornado.Stream.Close.{
  add_io_state, check_closed, maybe_add_error_listener, maybe_run_close_callback, run_callback,
}
use ctornado.Stream.Write.{handle_write, listen, queue_data, send_now, write}
use ctornado.Stream.Round.{Conserved, written}
use ctornado.Stream.Sending.{handle_write_lem}
use ctornado.Base.{
  Bool, Option, [], ap, append-nil, append_assoc, arith, false, if◌then◌else◌, ltb, none, not, refl,
  some, sym, true, ℕ, ◌&&◌, ◌++◌, ◌+◌, ◌==◌, ◌||◌, ◌∙◌, ◌∷◌, ◌≡◌,
}
use ctornado.Buffer
use ctornado.Buffer.{Buffer}
use ctornado.Buffer.Content.{IsValid, contents, push_lem}
use ctornado.Str.{Str, bytes, len, null, text}

-- a step that returns, and conserves what was written
abbrev Fine : Stream → Out (Unit {0}) → Type 0
Fine s r = (s' : Stream) × (r ≡ done tt s') × Conserved s s'

Fine-if :
    (s : Stream) (b : Bool) (x y : Out (Unit {0}))
    → Fine s x
    → Fine s y
    → Fine s (if b then x else y)
Fine-if s true x y h k = h
Fine-if s false x y h k = k

along : (s t u : Stream) → Conserved s t → Conserved t u → Conserved s u
along s t u h k = record {
  kept = k.kept ∙ h.kept;
  valid_write = k.valid_write;
  valid_read = k.valid_read;
}

Fine-seq :
    (m k : M (Unit {0})) (s : Stream)
    → Fine s (m s)
    → ((t : Stream) → Conserved s t → Fine t (k t))
    → Fine s ((m >> k) s)
Fine-seq m k s (t, run, h) next =
    let (u, last, g) = next t h in (u, bind_done m (λ _. k) s run ∙ last, along s t u h g)

here : (s : Stream) → IsValid s.write_buffer → IsValid s.read_buffer → Conserved s s
here s v r = record { kept = refl; valid_write = v; valid_read = r }

add_io-Fine :
    (on_read on_write : Bool) (s : Stream)
    → Conserved s s
    → Fine s (add_io_state on_read on_write s)
unfolding add_io_state
add_io-Fine on_read on_write s h =
    Fine-if s (not s.socket) _ _ (s, refl, h)
      (Fine-if s (not (has_events s.state)) _ _ (updated mask, refl, same mask)
        (Fine-if s ((s.state.on_read && on_read) || (s.state.on_write && on_write)) _ _ (s, refl, h)
          (updated more, refl, same more)))
  where
    mask : Events
    mask = record { on_read = on_read; on_write = on_write; on_error = true }

    more : Events
    more = record {
      on_read = s.state.on_read || on_read;
      on_write = s.state.on_write || on_write;
      on_error = s.state.on_error;
    }

    updated : Events → Stream
    updated e = record s { state = e; handler = some e }

    same : (e : Events) → Conserved s (updated e)
    same e = record { kept = refl; valid_write = h.valid_write; valid_read = h.valid_read }

close_callback-Fine : (s : Stream) → Conserved s s → Fine s (maybe_run_close_callback s)
unfolding maybe_run_close_callback run_callback
close_callback-Fine s h =
    Fine-if s (not s.socket && (is_some s.close_callback && s.pending_callbacks == 0)) _ _
      (called, refl, record { kept = refl; valid_write = h.valid_write; valid_read = h.valid_read })
      (s, refl, h)
  where
    called : Stream
    called = record s {
      close_callback = none;
      pending_callbacks = s.pending_callbacks + 1;
      tasks = s.tasks ++ call s.close_callback ∷ [];
    }

listener-Fine : (s : Stream) → Conserved s s → Fine s (maybe_add_error_listener s)
unfolding maybe_add_error_listener
listener-Fine s h =
    Fine-if s (not (has_events s.state) && s.pending_callbacks == 0) _ _
      (Fine-if s s.socket _ _ (add_io-Fine true false s h) (close_callback-Fine s h)) (s, refl, h)

listen-Fine : (s : Stream) → Conserved s s → Fine s (listen s)
unfolding listen
listen-Fine s h = Fine-if s (s.write_buffer.size == 0) _ _ (s, refl, h) (add_io-Fine false true s h)

own : (s t : Stream) → Conserved s t → Conserved t t
own s t h = here t h.valid_write h.valid_read

send-Fine :
    (s : Stream)
    → s.socket ≡ true
    → IsValid s.write_buffer
    → IsValid s.read_buffer
    → Fine s (send_now s)
unfolding send_now
send-Fine s o v r =
    Fine-if s s.connecting _ _ (s, refl, here s v r)
      (Fine-seq (handle_write >> listen) maybe_add_error_listener s
        (Fine-seq handle_write listen s (handle_write_lem s o v r)
          (λ t h. listen-Fine t (own s t h)))
        (λ t h. listener-Fine t (own s t h)))

-- the stream with the data queued
record Queued (chunk : Str) (s t : Stream) : Type 0 where
  behind : written t ≡ written s ++ bytes chunk
  same_socket : t.socket ≡ s.socket
  valid_write : IsValid t.write_buffer
  valid_read : IsValid t.read_buffer

no_bytes : (c : Str) → ltb 0 (len c) ≡ false → bytes c ≡ []
no_bytes null h = refl
no_bytes (text []) h = refl
no_bytes (text (b ∷ bs)) h = absurd (ground arith)

queue_lem :
    (chunk : Str) (s : Stream)
    → IsValid s.write_buffer
    → IsValid s.read_buffer
    → Queued chunk s (queue_data chunk s)
unfolding queue_data
queue_lem chunk s v r = queued (ltb 0 (len chunk)) refl
  where
    queued :
        (b : Bool)
        → ltb 0 (len chunk) ≡ b
        → Queued chunk s
            (if b then record s { write_buffer = Buffer.push s.write_buffer chunk } else s)
    queued true e =
        let (same, valid) = push_lem s.write_buffer chunk in
        record {
          behind =
              ap (λ k. s.wire ++ k) same
              ∙ sym (append_assoc s.wire (contents s.write_buffer) (bytes chunk));
          same_socket = refl;
          valid_write = valid v;
          valid_read = r;
        }
    queued false e = record {
      behind = sym (ap (λ k. written s ++ k) (no_bytes chunk e) ∙ append-nil (written s));
      same_socket = refl;
      valid_write = v;
      valid_read = r;
    }

-- `write` on a stream with a socket and valid buffers returns, whatever the socket answers: the bytes
-- that the socket has taken, followed by those that still wait, are those from before with the data
-- behind them. This also holds while the stream connects, and where sending fails.
pub write_lem :
    (chunk : Str) (callback : Option ℕ) (s : Stream)
    → s.socket ≡ true
    → IsValid s.write_buffer
    → IsValid s.read_buffer
    → (s' : Stream) × (write chunk callback s ≡ done tt s')
      × (written s' ≡ written s ++ bytes chunk)
      × IsValid s'.write_buffer
      × IsValid s'.read_buffer
write_lem chunk callback s o v r =
    let q = queue_lem chunk s v r in
    let (t, run, h) =
      send-Fine (ready chunk callback s) (q.same_socket ∙ o) q.valid_write q.valid_read in
    (t, entered ∙ run, h.kept ∙ q.behind, h.valid_write, h.valid_read)
  where
    ready : Str → Option ℕ → Stream → Stream
    ready chunk callback s = record (queue_data chunk s) { write_callback = callback }

    checked : check_closed s ≡ done tt s
    checked = unfold check_closed in rw (o, check_closed)

    entered : write chunk callback s ≡ send_now (ready chunk callback s)
    entered =
        unfold write in
        bind_done check_closed
          (λ _. modify (λ s. record (queue_data chunk s) { write_callback = callback }) >> send_now)
          s checked
