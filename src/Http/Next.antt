-- ===== src/Http/Next.antt =====
-- The next request on a connection that is kept.
use mathlib.Core.Path.{subst}
use ctornado.Http.State.{C, Connection, Request, bind_gives, gives, on_stream_done, ◌>>◌}
use ctornado.Http.Connection.{close, end_of_headers, finish_request, on_headers_id, read_headers}
use ctornado.Http.KeepAlive.{finish_request_ok, stays}
use ctornado.Http.Made.{Describes}
use ctornado.Http.Serves.{Head, IsHead, head_text}
use ctornado.Stream.Ready.{CanListen, Listens, begin_reading}
use ctornado.Http.Whole.{Awaits, turn, turn-serves}
use ctornado.Headers.Cached.{IsCache}
use ctornado.Headers.Fields.{Field, add_all, values_at}
use ctornado.Str.{bytes, text}
use ctornado.Buffer
use ctornado.Buffer.{Buffer}
use ctornado.Buffer.Content.{IsValid, contents}
use ctornado.Stream.Monad.{Events, Out, Recv, Stream, done, eagain, received, recv_blocks}
use ctornado.Stream.Close.{check_closed}
use ctornado.Stream.Read.{delimiter_loop, read_all, read_from_buffer, read_until, try_delimiter}
use ctornado.Stream.Idle.{inline_blocked, read_all_blocked, read_until_idle}
use ctornado.Stream.Branches.{from_buffer_none, read_none}
use ctornado.Stream.Delimiter.{}
use ctornado.Stream.Arrive.{HasBytes, NoneEmpty, together}
use ctornado.Base.{
  All, Bool, Bytes, List, Option, [], ap, arith, codes, false, if◌then◌else◌, inl, inr, length, ltb,
  map, none, not, refl, some, sym, true, ℕ, ◌++◌, ◌+◌, ◌-◌, ◌<◌, ◌||◌, ◌∙◌, ◌∷◌, ◌≡◌,
}

-- A connection whose request has been answered, with nothing buffered and nothing under way. The loop
-- watches its socket for reading, or for nothing, where no callback is pending.
pub record Answered (c : Connection) : Type 0 where
  pub no_read : c.stream.read_callback ≡ none
  pub no_streaming : c.stream.streaming_callback ≡ none
  pub no_count : c.stream.read_bytes ≡ 0
  pub nothing_buffered : c.stream.read_buffer ≡ Buffer.empty
  pub is_open : c.stream.socket ≡ true
  pub nothing_else : c.stream.tasks ≡ []
  pub can_listen : CanListen c.stream
  pub calls : c.header_callback ≡ some on_headers_id

-- A stream that waits for a delimiter and has nothing buffered reads nothing.
nothing_found :
    (fuel : ℕ) (d : Bytes) (s : Stream)
    → s.streaming_callback ≡ none
    → s.read_bytes ≡ 0
    → s.read_delimiter ≡ some d
    → s.read_buffer ≡ Buffer.empty
    → read_from_buffer fuel s ≡ done false s
unfolding try_delimiter
nothing_found fuel d s streams counts waits none_there =
    from_buffer_none fuel s streams
    ∙ read_none fuel s counts
    ∙ ap (λ k. try_delimiter fuel k s) waits
    ∙ ap (λ b. if b then delimiter_loop fuel d s else done false s)
        (ap (λ b. ltb 0 b.size) none_there)

-- the stream that `read_headers` leaves
abbrev asking : Connection → List Recv → Events → Option Events → Stream
asking c answers e h = record c.stream {
  read_callback = c.header_callback;
  read_delimiter = some end_of_headers;
  pending_callbacks = c.stream.pending_callbacks + 1 - 1;
  incoming = answers;
  sys_errno = eagain;
  state = e;
  handler = h;
}

checked : (s : Stream) → s.socket ≡ true → check_closed s ≡ done tt s
unfolding check_closed
checked s h = picked s.socket _ _ h
  where
    picked : (b : Bool) (x y : Out (Unit {0})) → b ≡ true → (if b then x else y) ≡ x
    picked b x y h = rw (h) refl

-- `read_headers` of an answered connection whose client has sent nothing yet
read_headers_asks :
    (fuel : ℕ) (c : Connection) (answers : List Recv)
    → Answered c
    → c.stream.incoming ≡ recv_blocks ∷ answers
    → (e : Events) × (h : Option Events) × (read_headers fuel c
        ≡ gives tt (record c { stream = asking c answers e h }))
      × Listens (asking c answers e h)
unfolding read_headers
read_headers_asks fuel c answers a comes =
    let started : Stream = record c.stream {
      read_callback = c.header_callback;
      read_delimiter = some end_of_headers;
    } in
    let after : Stream = record started {
      pending_callbacks = c.stream.pending_callbacks + 1;
      incoming = answers;
      sys_errno = eagain;
    } in
    let (e, h, asks, l) =
      begin_reading (record after { pending_callbacks = c.stream.pending_callbacks + 1 - 1 })
        a.is_open (still_can c.stream a.can_listen) in
    (
      e,
      h,
      on_stream_done (read_until fuel end_of_headers c.header_callback) c (
          read_until_idle fuel end_of_headers c.header_callback c.stream a.no_read
          ∙ inline_blocked fuel started after
              (nothing_found fuel end_of_headers started a.no_streaming a.no_count refl
                a.nothing_buffered)
              (checked started a.is_open)
              (ap
                  (λ l. read_all check_closed (record started {
                    pending_callbacks = c.stream.pending_callbacks + 1;
                    incoming = l;
                  }))
                  comes
                ∙ read_all_blocked check_closed
                    (record started { pending_callbacks = c.stream.pending_callbacks + 1 }) answers)
              (nothing_found fuel end_of_headers
                (record after { pending_callbacks = c.stream.pending_callbacks + 1 - 1 })
                a.no_streaming a.no_count refl a.nothing_buffered)
          ∙ asks),
      record { watched = l.watched; for_read = l.for_read },
    )
  where
    still_can :
        (s : Stream)
        → CanListen s
        → CanListen (record s {
          read_callback = c.header_callback;
          read_delimiter = some end_of_headers;
          pending_callbacks = s.pending_callbacks + 1 - 1;
          incoming = answers;
          sys_errno = eagain;
        })
    still_can s (inl l) = inl (record { watched = l.watched; for_read = l.for_read })
    still_can s (inr (n, e)) = inr (n, omega (arith, e))

module _ (matches valid_ip : Bytes → Bool) (user : ℕ → C (Unit {0})) where
  -- `finish_request` for the answer, and the next turn of the loop for the connection
  abbrev pub finish_and_turn : ℕ → C (Unit {0})
  finish_and_turn fuel = finish_request matches fuel >> turn matches valid_ip user fuel

  asking-Awaits :
      (c : Connection) (answers : List Recv) (e : Events) (h : Option Events)
      → Answered c
      → Listens (asking c answers e h)
      → Awaits (record c { stream = asking c answers e h })
  asking-Awaits c answers e h a l = record {
    waits = record {
      valid = subst IsValid (sym a.nothing_buffered) (omega arith);
      no_streaming = a.no_streaming;
      no_count = a.no_count;
      waits_for = refl;
    };
    calls = a.calls;
    is_open = a.is_open;
    watched = l;
    nothing_else = a.nothing_else;
    none_empty = subst (λ b. NoneEmpty b.chunk_dq) (sym a.nothing_buffered) tt;
  }

  -- `finish_request` behind an answered request that the connection is kept for, with nothing buffered
  -- and nothing sent by the client yet, where the loop watches the socket for reading, or for nothing
  -- while no callback is pending; then the bytes of a well-formed head without Content-Length are there,
  -- in any chunks that are not empty, with any others behind them, and fit in the read buffer. The next
  -- turn of the loop for the connection, which calls the stream's handler only if the socket is watched
  -- for reading by then, calls `request_callback_` once more, with the request that this head describes;
  -- the socket stays open and the bytes behind the head stay buffered.
  pub finish_request-turn :
      (fuel : ℕ) (fs : List Field) (r : Request) (c : Connection) (h : Head) (cs : List Bytes)
      (answers : List Recv) (next : Bytes)
      → c.request ≡ some r
      → r.headers ≡ add_all [] fs
      → IsCache matches c.cache
      → (c.no_keep_alive || not (stays fs r)) ≡ false
      → Answered c
      → IsHead matches valid_ip h
      → values_at (codes "Content-Length") none h.fields ≡ none
      → c.stream.incoming ≡ recv_blocks ∷ (map received cs ++ recv_blocks ∷ answers)
      → All HasBytes cs
      → together cs ≡ bytes (head_text h) ++ next
      → length (together cs) < c.stream.max_buffer_size
      → c.stream.max_buffer_size < fuel
      → (c' : Connection) × (r' : Request) × (finish_and_turn fuel c ≡ gives tt c')
        × (c'.request ≡ some r')
        × (c'.served ≡ c.served ++ r' ∷ [])
        × (contents c'.stream.read_buffer ≡ next)
        × (c'.stream.socket ≡ true)
        × Describes matches valid_ip h.method h.uri h.version h.fields
            (if c.inet then c.address else text (codes "0.0.0.0"))
            c.xheaders
            r'
  finish_request-turn fuel fs r c h cs answers next e same v stay a i missing comes all whole room
        enough =
      let (last, run, w) = finish_request_ok matches fuel fs r c e same v in
      let free = record c { cache = last; request = none; request_finished = false } in
      let still : Answered free = record {
        no_read = a.no_read;
        no_streaming = a.no_streaming;
        no_count = a.no_count;
        nothing_buffered = a.nothing_buffered;
        is_open = a.is_open;
        nothing_else = a.nothing_else;
        can_listen = a.can_listen;
        calls = a.calls;
      } in
      let (ev, hd, asks, l) =
        read_headers_asks fuel free (map received cs ++ recv_blocks ∷ answers) still comes in
      let asked = record free {
        stream = asking free (map received cs ++ recv_blocks ∷ answers) ev hd;
      } in
      let (c', r', ran, made, served, rest, is_open, cached, d) =
        turn-serves matches valid_ip user fuel h asked cs answers next
          (asking-Awaits free (map received cs ++ recv_blocks ∷ answers) ev hd still l) i w missing
          refl all (omega (arith, room, ap (λ b. b.size) a.nothing_buffered)) enough
          (ap (λ b. contents b ++ together cs) a.nothing_buffered ∙ whole) in
      (
        c',
        r',
        bind_gives (finish_request matches fuel) (λ _. turn matches valid_ip user fuel) c
              (run ∙ ap (λ k. (if k then close else read_headers fuel) free) stay ∙ asks)
            ∙ ran,
        made,
        served,
        rest,
        is_open,
        d,
      )
