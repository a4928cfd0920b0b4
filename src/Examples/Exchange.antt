-- ===== src/Examples/Exchange.antt =====
-- A client's request from the socket to the user, at concrete inputs.
use ctornado.Examples.Fields.{host_field, never}
use ctornado.Examples.Requests.{asks, asks-IsHead, connection, got, new_client, no_length}
use ctornado.Http.State.{C, Connection, Request, gives}
use ctornado.Http.Connection.{connect, end_of_headers, on_headers_id}
use ctornado.Http.Serves.{head_text}
use ctornado.Http.Made.{Describes}
use ctornado.Http.Whole.{Awaits, turn, turn-serves}
use ctornado.Http.Open.{connect-serves}
use ctornado.Http.Next.{Answered, finish_and_turn, finish_request-turn}
use ctornado.Headers.Cached.{IsCache, IsCache-nil}
use ctornado.Str.{Str, bytes, text}
use ctornado.Str.Find.{memmem}
use ctornado.Buffer.{Buffer}
use ctornado.Buffer.Content.{IsValid, contents}
use ctornado.Stream.Monad.{done, received, recv_blocks}
use ctornado.Stream.New.{new_stream}
use ctornado.Stream.Read.{handle_read}
use ctornado.Stream.Front.{delivered}
use ctornado.Stream.Delimiter.{}
use ctornado.Stream.Arrive.{arrived, handle_read_found, together}
use ctornado.Base.{
  Bytes, List, [], arith, codes, false, inr, map, none, refl, some, true, ℕ, ◌++◌, ◌∷◌, ◌≡◌,
}

-- the head in two chunks, with a byte of the next behind it
abbrev chunks : List Bytes
chunks = codes "GET /?x=1 HTT" ∷ codes "P/1.1\r\nhOST: b\r\n\r\nP" ∷ []

whole_head : together chunks ≡ bytes (head_text asks) ++ codes "P"
whole_head = refl

-- a user whose callbacks do nothing
abbrev idle : ℕ → C (Unit {0})
idle n c = gives tt c

abbrev Described : Request → Type 0
Described =
    Describes never never (codes "GET") (codes "/?x=1") (codes "HTTP/1.1") (host_field ∷ [])
      (text (codes "10.0.0.1")) false

connect-serves_example :
    (c : Connection) × (c' : Connection) × (r : Request) × (connect 200
        (new_stream 100 (recv_blocks ∷ (map received chunks ++ recv_blocks ∷ [])) [] 0)
        (text (codes "10.0.0.1"))
        false
        false
        true
        []
      ≡ gives tt c)
    × (c.stream.handler ≡ some (record { on_read = true; on_write = false; on_error = true }))
    × (turn never never idle 200 c ≡ gives tt c')
    × (c'.served ≡ r ∷ [])
    × (contents c'.stream.read_buffer ≡ codes "P")
    × (c'.stream.socket ≡ true)
    × Described r
connect-serves_example =
    connect-serves never never idle 200 100 asks chunks [] [] 0 (text (codes "10.0.0.1")) false
      false true [] (codes "P") asks-IsHead (IsCache-nil never) no_length
      (omega arith, (omega arith, tt)) whole_head (omega arith) (omega arith)

-- the first bytes are buffered, the others come
abbrev begun : Connection
begun = record connection {
  stream = record connection.stream {
    read_buffer = record { chunk_dq = text (codes "GET /?x") ∷ []; size = 7 };
    read_delimiter = some end_of_headers;
    read_callback = some on_headers_id;
    incoming = received (codes "=1 HTTP/1.1\r\nhOST: b\r\n\r\nP") ∷ recv_blocks ∷ [];
    state = record { on_read = true; on_write = false; on_error = true };
    handler = some (record { on_read = true; on_write = false; on_error = true });
  };
}

begun-Awaits : Awaits begun
begun-Awaits = record {
  waits = record { valid = omega arith; no_streaming = refl; no_count = refl; waits_for = refl };
  calls = refl;
  is_open = refl;
  watched = record { watched = refl; for_read = refl };
  nothing_else = refl;
  none_empty = (omega arith, tt);
}

turn-serves_example :
    (c' : Connection) × (r : Request) × (turn never never idle 200 begun ≡ gives tt c')
    × (c'.request ≡ some r)
    × (c'.served ≡ r ∷ [])
    × (contents c'.stream.read_buffer ≡ codes "P")
    × (c'.stream.socket ≡ true)
    × IsCache never c'.cache
    × Described r
turn-serves_example =
    turn-serves never never idle 200 asks begun (codes "=1 HTTP/1.1\r\nhOST: b\r\n\r\nP" ∷ []) []
      (codes "P") begun-Awaits asks-IsHead (IsCache-nil never) no_length refl (omega arith, tt)
      (omega arith) (omega arith) refl

head_found : memmem (codes "GET /?x=1 HTTP/1.1\r\nhOST: b\r\n\r\nP") end_of_headers ≡ some 27
unfolding memmem
head_found = refl

handle_read_found_example :
    (chunk : Str) × (b : Buffer) × (handle_read 200 begun.stream
      ≡ done tt (delivered (record (arrived begun.stream [] b) { read_delimiter = none }) b chunk))
    × (bytes chunk ≡ codes "GET /?x=1 HTTP/1.1\r\nhOST: b\r\n\r\n")
    × (contents b ≡ codes "P")
    × IsValid b
handle_read_found_example =
    handle_read_found 200 end_of_headers begun.stream (codes "=1 HTTP/1.1\r\nhOST: b\r\n\r\nP" ∷ [])
      [] 27 begun-Awaits.waits refl (omega arith, tt) (omega arith, tt) (omega arith) (omega arith)
      (omega arith) head_found

-- The client's next request comes when the answer is finished.
abbrev replied : Connection
replied = record connection {
  request = some (got (codes "HTTP/1.1"));
  stream = record connection.stream {
    incoming = recv_blocks ∷ (map received chunks ++ recv_blocks ∷ []);
  };
}

replied-Answered : Answered replied
replied-Answered = record {
  no_read = refl;
  no_streaming = refl;
  no_count = refl;
  nothing_buffered = refl;
  is_open = refl;
  nothing_else = refl;
  can_listen = inr (refl, refl);
  calls = refl;
}

finish_request-turn_example :
    (c' : Connection) × (r' : Request) × (finish_and_turn never never idle 200 replied
      ≡ gives tt c')
    × (c'.request ≡ some r')
    × (c'.served ≡ r' ∷ [])
    × (contents c'.stream.read_buffer ≡ codes "P")
    × (c'.stream.socket ≡ true)
    × Described r'
finish_request-turn_example =
    finish_request-turn never never idle 200 (host_field ∷ []) (got (codes "HTTP/1.1")) replied asks
      chunks [] (codes "P") refl refl (IsCache-nil never) new_client replied-Answered asks-IsHead
      no_length refl (omega arith, (omega arith, tt)) whole_head (omega arith) (omega arith)
