-- ===== src/Examples/Requests.antt =====
-- The HTTP layer at concrete inputs.
use ctornado.Examples.Fields.{
  host_field, host_field-IsField, length_field, length_field-IsField, never,
}
use ctornado.Http.State.{Connection, Request, fails, gives}
use ctornado.Http.Connection.{end_of_headers, finish_request, on_headers_id}
use ctornado.Http.Request.{on_headers}
use ctornado.Http.Line.{IsWord}
use ctornado.Http.Made.{}
use ctornado.Http.Serves.{Head, IsHead, head_text, on_headers-too_long, on_headers-without_socket}
use ctornado.Http.Malformed.{Malformed, count, not_three, on_headers-Malformed}
use ctornado.Http.KeepAlive.{finish_request-closes, finish_request-next, stays}
use ctornado.Base.{
  All, Bytes, [], ap, arith, codes, false, fault, length, none, not, ok, refl, some, true, ◌||◌,
  ◌∷◌, ◌≡◌,
}
use ctornado.Headers.{joined}
use ctornado.Headers.Cached.{IsCache-nil}
use ctornado.Headers.Fields.{add_all, values_at}
use ctornado.Str.{Str, bytes, eq, eq_bytes, null, starts_with, text}
use ctornado.Str.Find.{memmem}
use ctornado.Str.Transform.{}
use ctornado.Str.Lines.{}
use ctornado.Str.Number.{}
use ctornado.Chars.{is_digit, to_lower}
use ctornado.Buffer
use ctornado.Buffer.{Buffer}
use ctornado.Buffer.Content.{contents}
use ctornado.Stream.Monad.{Stream, call_data, no_events}
use ctornado.Stream.Shutdown.{Closed}

abbrev pub asks : Head
asks = record {
  method = codes "GET";
  uri = codes "/?x=1";
  version = codes "HTTP/1.1";
  fields = host_field ∷ [];
}

get-IsWord : IsWord (codes "GET")
get-IsWord = record { no_space = omega arith; no_break = (refl, (refl, (refl, tt))) }

uri-IsWord : IsWord (codes "/?x=1")
uri-IsWord = record {
  no_space = omega arith;
  no_break = (refl, (refl, (refl, (refl, (refl, tt)))));
}

version-IsWord : IsWord (codes "HTTP/1.1")
version-IsWord = record {
  no_space = omega arith;
  no_break = (refl, (refl, (refl, (refl, (refl, (refl, (refl, (refl, tt))))))));
}

http_begins : starts_with (text (codes "HTTP/1.1")) (text (codes "HTTP/")) ≡ true
unfolding starts_with
http_begins = refl

pub asks-IsHead : IsHead never never asks
asks-IsHead = record {
  method_word = get-IsWord;
  uri_word = uri-IsWord;
  version_word = version-IsWord;
  is_http = http_begins;
  fields_fit = (host_field-IsField, tt);
}

abbrev stream : Buffer → Stream
stream b = record {
  socket = true;
  max_buffer_size = 100;
  error = none;
  read_buffer = b;
  write_buffer = Buffer.empty;
  write_buffer_frozen = false;
  read_delimiter = none;
  read_regex = none;
  read_bytes = 0;
  read_until_close = false;
  read_callback = none;
  streaming_callback = none;
  write_callback = none;
  close_callback = none;
  connect_callback = none;
  connecting = false;
  state = no_events;
  pending_callbacks = 0;
  sys_errno = 0;
  incoming = [];
  accepting = [];
  handler = none;
  tasks = [];
  wire = [];
}

abbrev pub connection : Connection
connection = record {
  stream = stream Buffer.empty;
  address = text (codes "10.0.0.1");
  inet = true;
  no_keep_alive = false;
  xheaders = false;
  request = none;
  request_finished = false;
  header_callback = some on_headers_id;
  write_callback = none;
  cache = [];
  served = [];
  frees = 0;
}

abbrev gone : Connection
gone = record connection { stream = record (stream Buffer.empty) { socket = false } }

on_headers-without_socket_example : on_headers never never 10 (head_text asks) gone ≡ fails fault
on_headers-without_socket_example =
    on_headers-without_socket never never 10 asks gone asks-IsHead (IsCache-nil never) refl

pub no_length : values_at (codes "Content-Length") none (host_field ∷ []) ≡ none
unfolding eq_bytes
no_length = refl

abbrev sends : Head
sends = record asks { fields = length_field ∷ [] }

sends-IsHead : IsHead never never sends
sends-IsHead = record {
  method_word = get-IsWord;
  uri_word = uri-IsWord;
  version_word = version-IsWord;
  is_http = http_begins;
  fields_fit = (length_field-IsField, tt);
}

a_length : values_at (codes "Content-Length") none (length_field ∷ []) ≡ some (text (codes "101"))
unfolding eq_bytes joined
a_length = refl

all_digits : All (λ b. is_digit b ≡ true) (codes "101")
unfolding is_digit
all_digits = (refl, (refl, (refl, tt)))

on_headers-too_long_example :
    (c' : Connection) × (on_headers never never 10 (head_text sends) connection ≡ gives tt c')
    × Closed connection.stream c'.stream
    × (c'.header_callback ≡ none)
    × (c'.frees ≡ 1)
    × (c'.served ≡ [])
on_headers-too_long_example =
    on_headers-too_long never never 10 sends connection (codes "101") sends-IsHead
      (IsCache-nil never) refl (omega arith) a_length all_digits
      (λ e. absurd (omega (arith, ap length e))) (omega arith) (omega arith)

two_words : Malformed (codes "GET /")
unfolding count
two_words = not_three (refl, (refl, (refl, (refl, (refl, tt))))) (omega arith)

on_headers-Malformed_example :
    (c' : Connection) × (on_headers never never 10 (text (codes "GET /\r\n\r\n")) connection
      ≡ gives tt c')
    × Closed connection.stream c'.stream
    × (c'.header_callback ≡ none)
    × (c'.frees ≡ 1)
    × (c'.served ≡ [])
on_headers-Malformed_example =
    on_headers-Malformed never never 10 (codes "GET /") (codes "\r\n") connection two_words
      (omega arith)

abbrev pub got : Bytes → Request
got version = record {
  method = text (codes "GET");
  uri = text (codes "/");
  version = text version;
  headers = add_all [] (host_field ∷ []);
  remote_ip = null;
  protocol = text (codes "http");
  host = text (codes "b");
  body = null;
  path = text (codes "/");
  query = null;
  arguments = [];
  files = [];
}

abbrev answered : Bytes → Buffer → Connection
answered version b = record connection { stream = stream b; request = some (got version) }

old_client : (false || not (stays (host_field ∷ []) (got (codes "HTTP/1.0")))) ≡ true
unfolding eq eq_bytes to_lower
old_client = refl

finish_request-closes_example :
    (c' : Connection) × (finish_request never 10 (answered (codes "HTTP/1.0") Buffer.empty)
      ≡ gives tt c')
    × Closed (stream Buffer.empty) c'.stream
    × (c'.request ≡ none)
    × (c'.header_callback ≡ none)
    × (c'.frees ≡ 1)
finish_request-closes_example =
    finish_request-closes never 10 (host_field ∷ []) (got (codes "HTTP/1.0"))
      (answered (codes "HTTP/1.0") Buffer.empty) refl refl (IsCache-nil never) (omega arith)
      old_client

pub new_client : (false || not (stays (host_field ∷ []) (got (codes "HTTP/1.1")))) ≡ false
unfolding eq eq_bytes to_lower
new_client = refl

abbrev pipelined : Buffer
pipelined = record { chunk_dq = text (codes "x\r\n") ∷ text (codes "\r\nyz") ∷ []; size = 7 }

first_piece : Buffer.top pipelined ≡ ok (text (codes "x\r\n"))
unfolding Buffer.top
first_piece = refl

head_ends : memmem (contents pipelined) end_of_headers ≡ some 1
unfolding memmem
head_ends = refl

finish_request-next_example :
    (c' : Connection) × (head : Str) × (finish_request never 10
        (answered (codes "HTTP/1.1") pipelined)
      ≡ gives tt c')
    × (c'.request ≡ none)
    × (c'.stream.tasks ≡ call_data (some on_headers_id) head ∷ [])
    × (bytes head ≡ codes "x\r\n\r\n")
    × (contents c'.stream.read_buffer ≡ codes "yz")
finish_request-next_example =
    finish_request-next never 10 (host_field ∷ []) (got (codes "HTTP/1.1"))
      (answered (codes "HTTP/1.1") pipelined) (text (codes "x\r\n")) 1 refl refl (IsCache-nil never)
      new_client refl (omega arith) refl refl first_piece (omega arith) head_ends (omega arith)
