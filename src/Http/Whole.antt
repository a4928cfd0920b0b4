-- ===== src/Http/Whole.antt =====
-- A whole request: from the chunks in which its bytes arrive to the call of `request_callback_`.
use ctornado.Http.State.{
  C, Connection, Request, bind_gives, gives, on_stream, on_stream_done, ◌>>=◌, ◌>>◌,
}
use ctornado.Http.Connection.{end_of_headers, on_headers_id}
use ctornado.Http.Request.{on_headers}
use ctornado.Http.Line.{}
use ctornado.Http.Made.{Describes}
use ctornado.Http.Serves.{Head, IsHead, head_text, on_headers-serves}
use ctornado.Http.Head.{head_text-ends}
use ctornado.Http.Turn.{bound, callback_wrapper, catching, listens, run_task}
use ctornado.Headers.{}
use ctornado.Headers.Cached.{IsCache}
use ctornado.Headers.Fields.{values_at}
use ctornado.Str.{Str, bytes, null, text}
use ctornado.Str.Find.{memmem}
use ctornado.Str.Lines.{}
use ctornado.Buffer.{}
use ctornado.Buffer.Content.{contents}
use ctornado.Stream.Monad.{Events, Recv, Task, call_data, received, recv_blocks}
use ctornado.Stream.Read.{less_pending}
use ctornado.Stream.Write.{handle_events}
use ctornado.Stream.Ready.{Listens, handle_events_reads, readable}
use ctornado.Stream.Delimiter.{Waits}
use ctornado.Stream.Front.{delivered}
use ctornado.Stream.Arrive.{HasBytes, NoneEmpty, arrived, handle_read_found, together}
use ctornado.Base.{
  All, Bool, Bytes, List, Option, [], ap, arith, codes, drop, if◌then◌else◌, length, map, none,
  refl, some, take, true, ℕ, ◌++◌, ◌+◌, ◌-◌, ◌<◌, ◌∙◌, ◌∷◌, ◌≡◌,
}

-- the connection when its callback is called
abbrev called : Connection → List Task → Connection
called c ts = record c {
  stream = record c.stream { tasks = ts; pending_callbacks = c.stream.pending_callbacks - 1 };
}

-- a connection that the loop watches for reading, with nothing under way but the read of the next head
pub record Awaits (c : Connection) : Type 0 where
  pub waits : Waits end_of_headers c.stream
  pub calls : c.stream.read_callback ≡ some on_headers_id
  pub is_open : c.stream.socket ≡ true
  pub watched : Listens c.stream
  pub nothing_else : c.stream.tasks ≡ []
  pub none_empty : NoneEmpty c.stream.read_buffer.chunk_dq

text_of : (c : Str) (bs : Bytes) → bytes c ≡ bs → 0 < length bs → c ≡ text bs
text_of null [] e h = absurd (omega arith)
text_of null (x ∷ bs) e h = absurd (omega (arith, ap length e))
text_of (text a) bs e h = ap text e

front_whole : (a b : Bytes) → (take (length a) (a ++ b) ≡ a) × (drop (length a) (a ++ b) ≡ b)
front_whole [] b = (refl, refl)
front_whole (x ∷ a) b = let (e, f) = front_whole a b in (ap (λ k. x ∷ k) e, f)

take_whole : (n : ℕ) (a b : Bytes) → n ≡ length a → take n (a ++ b) ≡ a
take_whole n a b e = ap (λ k. take k (a ++ b)) e ∙ (front_whole a b).0

drop_whole : (n : ℕ) (a b : Bytes) → n ≡ length a → drop n (a ++ b) ≡ b
drop_whole n a b e = ap (λ k. drop k (a ++ b)) e ∙ (front_whole a b).1

module _ (matches valid_ip : Bytes → Bool) (user : ℕ → C (Unit {0})) where
  run_headers :
      (fuel : ℕ) (c c' : Connection) (chunk : Str) (ts : List Task)
      → c.stream.tasks ≡ call_data (some on_headers_id) chunk ∷ ts
      → on_headers matches valid_ip fuel chunk (called c ts) ≡ gives tt c'
      → c'.stream.socket ≡ true
      → (e : Events) × (h : Option Events) × (run_task matches valid_ip user fuel c
          ≡ gives tt (record c' { stream = record c'.stream { state = e; handler = h } }))
  unfolding run_task callback_wrapper bound less_pending
  run_headers fuel c c' chunk ts first run open_socket =
      let (e, h, asks) = listens c'.stream open_socket in
      (e, h, rw (first, run, catching, ◌>>=◌, asks, on_stream) refl)

  -- What the loop does for a connection whose socket can be read: if it watches the socket for that, it
  -- calls the handler of the stream, then the callback that this has scheduled; otherwise nothing.
  unfoldable pub turn : ℕ → C (Unit {0})
  unfolding handle_events run_task
  turn fuel c = elim c.stream.handler [
    | none ↦ gives tt c
    | some e ↦
        if e.on_read
        then (on_stream (handle_events fuel 0 readable) >> run_task matches valid_ip user fuel) c
        else gives tt c
  ]

  handler_called :
      (fuel : ℕ) (c : Connection)
      → Listens c.stream
      → turn fuel c
        ≡ (on_stream (handle_events fuel 0 readable) >> run_task matches valid_ip user fuel) c
  unfolding turn
  handler_called fuel c l = rw (l.watched, l.for_read) refl

  -- A well-formed head of a request without Content-Length, for a connection that waits for one and that
  -- the loop watches for reading: its bytes, the first of which may be buffered before, arrive in any
  -- chunks that are not empty, with any others behind them, and fit in the read buffer. Then the handler
  -- of the stream, `handle_events`, and the callback that it schedules call `request_callback_` once, with the request that the head describes; the socket
  -- stays open, and the bytes behind the head stay buffered for the next request.
  pub turn-serves :
      (fuel : ℕ) (h : Head) (c : Connection) (cs : List Bytes) (answers : List Recv) (next : Bytes)
      → Awaits c
      → IsHead matches valid_ip h
      → IsCache matches c.cache
      → values_at (codes "Content-Length") none h.fields ≡ none
      → c.stream.incoming ≡ map received cs ++ recv_blocks ∷ answers
      → All HasBytes cs
      → c.stream.read_buffer.size + length (together cs) < c.stream.max_buffer_size
      → c.stream.max_buffer_size < fuel
      → contents c.stream.read_buffer ++ together cs ≡ bytes (head_text h) ++ next
      → (c' : Connection) × (r : Request) × (turn fuel c ≡ gives tt c')
        × (c'.request ≡ some r)
        × (c'.served ≡ c.served ++ r ∷ [])
        × (contents c'.stream.read_buffer ≡ next)
        × (c'.stream.socket ≡ true)
        × IsCache matches c'.cache
        × Describes matches valid_ip h.method h.uri h.version h.fields
            (if c.inet then c.address else text (codes "0.0.0.0"))
            c.xheaders
            r
  turn-serves fuel h c cs answers next a i v missing comes all room enough same =
      let (n, found, ends) = head_text-ends matches valid_ip h next i in
      let (chunk, b, run, front_bytes, rest, w) =
        handle_read_found fuel end_of_headers c.stream cs answers n a.waits comes all a.none_empty
          room enough (omega arith) (ap (λ k. memmem k end_of_headers) same ∙ found) in
      let behind =
        delivered (record (arrived c.stream answers b) { read_delimiter = none }) b chunk in
      let whole : chunk ≡ head_text h =
        text_of chunk _ (front_bytes ∙ ap (take (n + 4)) same ∙ take_whole (n + 4) _ next ends)
          (omega (arith, ends)) in
      let (ev, hd, handled) =
        handle_events_reads fuel 0 c.stream behind a.is_open run a.is_open a.watched.for_read in
      let now = record c { stream = record behind { state = ev; handler = hd } } in
      let (last, r, made, cached, d) =
        on_headers-serves matches valid_ip fuel h (called now []) i v a.is_open missing in
      let (e, k, ran) =
        run_headers fuel now _ (head_text h) [] (rw (a.nothing_else, a.calls, whole) refl) made
          a.is_open in
      (
        _,
        r,
        handler_called fuel c a.watched
            ∙ bind_gives (on_stream (handle_events fuel 0 readable))
                (λ _. run_task matches valid_ip user fuel) c
                (on_stream_done (handle_events fuel 0 readable) c handled)
            ∙ ran,
        refl,
        refl,
        rest ∙ ap (drop (n + 4)) same ∙ drop_whole (n + 4) _ next ends,
        a.is_open,
        cached,
        d,
      )
