-- ===== src/Http/Open.antt =====
-- A connection that has just been made.
use ctornado.Http.State.{C, Connection, Request, gives, on_stream_done}
use ctornado.Http.Connection.{connect, end_of_headers, on_headers_id, read_headers}
use ctornado.Http.Whole.{turn, turn-serves}
use ctornado.Headers.{Cache}
use ctornado.Str.{Str, bytes, text}
use ctornado.Http.Made.{Describes}
use ctornado.Http.Serves.{Head, IsHead, head_text}
use ctornado.Headers.Cached.{IsCache}
use ctornado.Headers.Fields.{values_at}
use ctornado.Stream.Arrive.{HasBytes, together}
use ctornado.Buffer.Content.{contents}
use ctornado.Stream.Monad.{Recv, Send, Stream, done, eagain, received, recv_blocks}
use ctornado.Stream.Close.{add_io_state, check_closed, maybe_add_error_listener}
use ctornado.Stream.New.{new_stream}
use ctornado.Stream.Read.{feed_streaming, read_from_buffer, read_until, try_delimiter, try_read}
use ctornado.Stream.Idle.{inline_blocked, read_all_blocked, read_until_idle}
use ctornado.Base.{
  All, Bool, Bytes, List, [], arith, codes, false, if◌then◌else◌, length, map, none, refl, some,
  true, ℕ, ◌++◌, ◌<◌, ◌∙◌, ◌∷◌, ◌≡◌,
}

-- the stream when its client has been asked for the first head and has sent nothing
abbrev listening : ℕ → List Recv → List Send → ℕ → Stream
listening max_buffer_size answers accepting errno =
    record (new_stream max_buffer_size answers accepting eagain) {
      read_callback = some on_headers_id;
      read_delimiter = some end_of_headers;
      state = record { on_read = true; on_write = false; on_error = true };
      handler = some (record { on_read = true; on_write = false; on_error = true });
    }

try_read_new :
    (fuel max_buffer_size : ℕ) (answers : List Recv) (accepting : List Send) (errno : ℕ)
    → read_until fuel end_of_headers
        (some on_headers_id)
        (new_stream max_buffer_size (recv_blocks ∷ answers) accepting errno)
      ≡ done tt (listening max_buffer_size answers accepting errno)
unfolding new_stream read_from_buffer feed_streaming try_read try_delimiter maybe_add_error_listener
    add_io_state check_closed
try_read_new fuel m answers accepting errno =
    read_until_idle fuel end_of_headers (some on_headers_id)
      (new_stream m (recv_blocks ∷ answers) accepting errno) refl
    ∙ inline_blocked fuel started _ refl refl
        (read_all_blocked check_closed (record started { pending_callbacks = 1 }) answers) refl
  where
    started : Stream
    started = record (new_stream m (recv_blocks ∷ answers) accepting errno) {
      read_callback = some on_headers_id;
      read_delimiter = some end_of_headers;
    }

-- the connection then
abbrev opened : ℕ → List Recv → List Send → ℕ → Str → Bool → Bool → Bool → Cache → Connection
opened max_buffer_size answers accepting errno address no_keep_alive xheaders inet cache = record {
  stream = listening max_buffer_size answers accepting errno;
  address = address;
  inet = inet;
  no_keep_alive = no_keep_alive;
  xheaders = xheaders;
  request = none;
  request_finished = false;
  header_callback = some on_headers_id;
  write_callback = none;
  cache = cache;
  served = [];
  frees = 0;
}

module _ (matches valid_ip : Bytes → Bool) (user : ℕ → C (Unit {0})) where
  -- A client that has sent nothing when its connection is made: the constructor of HTTPConnection
  -- returns, with a handler for reading in the loop. When the bytes of a well-formed head without
  -- Content-Length are there then, in any chunks that are not empty, with any others behind them, and fit
  -- in the read buffer, the next turn of the loop for this connection calls `request_callback_` once,
  -- with the request that the head describes, and keeps the others buffered.
  pub connect-serves :
      (fuel max_buffer_size : ℕ) (h : Head) (cs : List Bytes) (answers : List Recv)
      (accepting : List Send) (errno : ℕ) (address : Str) (no_keep_alive xheaders inet : Bool)
      (cache : Cache) (next : Bytes)
      → IsHead matches valid_ip h
      → IsCache matches cache
      → values_at (codes "Content-Length") none h.fields ≡ none
      → All HasBytes cs
      → together cs ≡ bytes (head_text h) ++ next
      → length (together cs) < max_buffer_size
      → max_buffer_size < fuel
      → (c : Connection) × (c' : Connection) × (r : Request) × (connect fuel
            (new_stream max_buffer_size
              (recv_blocks ∷ (map received cs ++ recv_blocks ∷ answers))
              accepting
              errno)
            address
            no_keep_alive
            xheaders
            inet
            cache
          ≡ gives tt c)
        × (c.stream.handler ≡ some (record { on_read = true; on_write = false; on_error = true }))
        × (turn matches valid_ip user fuel c ≡ gives tt c')
        × (c'.served ≡ r ∷ [])
        × (contents c'.stream.read_buffer ≡ next)
        × (c'.stream.socket ≡ true)
        × Describes matches valid_ip h.method h.uri h.version h.fields
            (if inet then address else text (codes "0.0.0.0"))
            xheaders
            r
  unfolding connect read_headers new_stream
  connect-serves fuel m h cs answers accepting errno address nk xh inet cache next i v missing all
        same room enough =
      let c =
        opened m (map received cs ++ recv_blocks ∷ answers) accepting errno address nk xh inet
          cache in
      let (c', r, run, made, served, rest, is_open, cached, d) =
        turn-serves matches valid_ip user fuel h c cs answers next
          (record {
            waits = record {
              valid = omega arith;
              no_streaming = refl;
              no_count = refl;
              waits_for = refl;
            };
            calls = refl;
            is_open = refl;
            watched = record { watched = refl; for_read = refl };
            nothing_else = refl;
            none_empty = tt;
          })
          i v missing refl all (omega (arith, room)) enough same in
      (
        c,
        c',
        r,
        on_stream_done (read_until fuel end_of_headers (some on_headers_id))
            (record c {
              stream =
                  new_stream m (recv_blocks ∷ (map received cs ++ recv_blocks ∷ answers)) accepting
                    errno;
            })
            (try_read_new fuel m (map received cs ++ recv_blocks ∷ answers) accepting errno),
        refl,
        run,
        served,
        rest,
        is_open,
        d,
      )
