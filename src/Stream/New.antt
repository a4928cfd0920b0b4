-- ===== src/Stream/New.antt =====
-- The constructor of IOStream.
use ctornado.Stream.Monad.{Recv, Send, Stream, no_events}
use ctornado.Buffer
use ctornado.Base.{List, [], false, none, true, ℕ}

-- `IOStream(socket, ioloop, max_buffer_size)`, for what the socket will answer and the `errno` of that
-- moment, on a socket that `set_nonblocking` does not refuse
unfoldable pub new_stream : ℕ → List Recv → List Send → ℕ → Stream
new_stream max_buffer_size incoming accepting errno = record {
  socket = true;
  max_buffer_size = max_buffer_size;
  error = none;
  read_buffer = Buffer.empty;
  write_buffer = Buffer.empty;
  write_buffer_frozen = false;
  read_delimiter = none;
  read_regex = none;
  read_bytes = 0;
  read_until_close = false;
  read_callback = none;
  streaming_callback = none;
  write_callback = none;
  close_callback = none;
  connect_callback = none;
  connecting = false;
  state = no_events;
  pending_callbacks = 0;
  sys_errno = errno;
  incoming = incoming;
  accepting = accepting;
  handler = none;
  tasks = [];
  wire = [];
}
