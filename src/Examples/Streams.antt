-- ===== src/Examples/Streams.antt =====
-- Streams at concrete states.
use ctornado.Stream.Monad.{Stream, done, no_events, stuck}
use ctornado.Stream.Close.{}
use ctornado.Stream.Read.{read_from_buffer}
use ctornado.Stream.Write.{}
use ctornado.Stream.Front.{}
use ctornado.Stream.Delimiter.{Delivered, Waits, read_until_absent, read_until_found}
use ctornado.Stream.Counted.{Counts, read_bytes_buffered}
use ctornado.Stream.Streamed.{Feeds, arrive, arrive-Feeds}
use ctornado.Buffer
use ctornado.Buffer.{Buffer}
use ctornado.Buffer.Content.{IsValid}
use ctornado.Str.{Str, text}
use ctornado.Str.Find.{memmem}
use ctornado.Base.{List, [], arith, codes, false, no_fuel, none, ok, refl, some, true, ◌∷◌, ◌≡◌}

-- "ab;" and "cd" are buffered, callback 7 waits for ";"
abbrev pub buffered : Buffer
buffered = record { chunk_dq = text (codes "ab") ∷ text (codes ";cd") ∷ []; size = 5 }

abbrev pub waiting : Stream
waiting = record {
  socket = true;
  max_buffer_size = 100;
  error = none;
  read_buffer = buffered;
  write_buffer = Buffer.empty;
  write_buffer_frozen = false;
  read_delimiter = some (codes ";");
  read_regex = none;
  read_bytes = 0;
  read_until_close = false;
  read_callback = some 7;
  streaming_callback = none;
  write_callback = none;
  close_callback = none;
  connect_callback = none;
  connecting = false;
  state = no_events;
  pending_callbacks = 0;
  sys_errno = 0;
  incoming = [];
  accepting = [];
  handler = none;
  tasks = [];
  wire = [];
}

waits : Waits (codes ";") waiting
waits = record { valid = omega arith; no_streaming = refl; no_count = refl; waits_for = refl }

first_chunk : Buffer.top buffered ≡ ok (text (codes "ab"))
unfolding Buffer.top
first_chunk = refl

third_byte : memmem (codes "ab;cd") (codes ";") ≡ some 2
unfolding memmem
third_byte = refl

read_until_found_example :
    Delivered 3 (record waiting { read_delimiter = none }) (read_from_buffer 6 waiting)
read_until_found_example =
    read_until_found 6 (codes ";") waiting (text (codes "ab")) 2 waits first_chunk (omega arith)
      (omega arith) third_byte (omega arith)

abbrev waiting_more : Stream
waiting_more = record waiting { read_delimiter = some (codes "x") }

Waits-more : Waits (codes "x") waiting_more
Waits-more = record { valid = omega arith; no_streaming = refl; no_count = refl; waits_for = refl }

no_x : memmem (codes "ab;cd") (codes "x") ≡ none
unfolding memmem
no_x = refl

read_until_absent_example : read_from_buffer 1000 waiting_more ≡ stuck no_fuel
read_until_absent_example =
    read_until_absent 1000 (codes "x") waiting_more Waits-more (omega arith) no_x

abbrev counting : Stream
counting = record waiting { read_delimiter = none; read_bytes = 4 }

pub counting_buffer : IsValid buffered
counting_buffer = omega arith

counts : Counts counting
counts = record { valid = omega arith; no_delimiter = refl; no_regex = refl }

read_bytes_buffered_example :
    Delivered 4 (record counting { read_bytes = 0 }) (read_from_buffer 0 counting)
read_bytes_buffered_example =
    read_bytes_buffered 0 counting counting_buffer refl (omega arith) (omega arith)

abbrev counting_none : Stream
counting_none = record waiting { read_delimiter = none }

Counts-none : Counts counting_none
Counts-none = record { valid = omega arith; no_delimiter = refl; no_regex = refl }

abbrev streaming : Stream
streaming = record counting { streaming_callback = some 8 }

Counts-streaming : Counts streaming
Counts-streaming = record { valid = omega arith; no_delimiter = refl; no_regex = refl }

arrive-Feeds_example :
    (chunks : List Str) × (s' : Stream) × (arrive 3
        (text (codes "e") ∷ text (codes "fg") ∷ [])
        streaming
      ≡ done tt s')
    × Feeds (text (codes "e") ∷ text (codes "fg") ∷ []) chunks streaming s'
arrive-Feeds_example =
    arrive-Feeds 3 (text (codes "e") ∷ text (codes "fg") ∷ []) streaming 8 Counts-streaming refl
