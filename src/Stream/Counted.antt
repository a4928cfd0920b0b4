-- ===== src/Stream/Counted.antt =====
-- `read_bytes`: reads of a number of bytes.
use ctornado.Stream.Monad.{Stream, done, is_some, ◌>>=◌}
use ctornado.Stream.Close.{consume, run_stream_callback}
use ctornado.Stream.Read.{feed_streaming, read_from_buffer}
use ctornado.Stream.Branches.{delimiter_none, from_buffer_none, read_none, read_some}
use ctornado.Stream.Front.{deliver_lem}
use ctornado.Stream.Delimiter.{Delivered}
use ctornado.Base.{ap, arith, false, lt→ltb, min, none, some, ℕ, ◌-◌, ◌<◌, ◌==◌, ◌∙◌, ◌≡◌, ◌≤◌}
use ctornado.Buffer.{}
use ctornado.Buffer.Content.{IsValid}
use ctornado.Str.{}

-- `read_bytes` without a streaming callback, where that many bytes are buffered: `read_from_buffer`
-- returns true, the callback gets just those bytes in one string, and the others stay, in order.
pub read_bytes_buffered :
    (fuel : ℕ) (s : Stream)
    → IsValid s.read_buffer
    → s.streaming_callback ≡ none
    → 0 < s.read_bytes
    → s.read_bytes ≤ s.read_buffer.size
    → Delivered s.read_bytes (record s { read_bytes = 0 }) (read_from_buffer fuel s)
read_bytes_buffered fuel s v e h k =
    let (chunk, b, run, front_bytes, rest, w) =
      deliver_lem s.read_bytes (record s { read_bytes = 0 }) v h in
    (chunk, b, from_buffer_none fuel s e ∙ read_some fuel s h k ∙ run, front_bytes, rest, w)

-- the state of a stream that waits for a number of bytes, and for nothing else
pub record Counts (s : Stream) : Type 0 where
  pub valid : IsValid s.read_buffer
  pub no_delimiter : s.read_delimiter ≡ none
  pub no_regex : s.read_regex ≡ none

-- `read_bytes(0)`: whatever is buffered, `read_from_buffer` returns false and changes nothing. The read
-- callback stays where it is and is not scheduled, so the read of 0 bytes does not complete.
read_bytes_zero :
    (fuel : ℕ) (s : Stream)
    → Counts s
    → s.streaming_callback ≡ none
    → s.read_bytes ≡ 0
    → read_from_buffer fuel s ≡ done false s
read_bytes_zero fuel s w e z =
    from_buffer_none fuel s e ∙ read_none fuel s z ∙ delimiter_none fuel s w.no_delimiter w.no_regex

pub feed_branch :
    (s : Stream) (cb : ℕ)
    → s.streaming_callback ≡ some cb
    → 0 < s.read_bytes
    → 0 < s.read_buffer.size
    → feed_streaming s
      ≡ (consume (min s.read_bytes s.read_buffer.size) >>= run_stream_callback s.streaming_callback)
          (record s { read_bytes = s.read_bytes - min s.read_bytes s.read_buffer.size })
unfolding feed_streaming
feed_branch s cb e h k = rw (ap is_some e, lt→ltb 0 s.read_buffer.size k, nonzero s.read_bytes h)
  where
    nonzero : (n : ℕ) → 0 < n → (n == 0) ≡ false
    nonzero n h = ground arith
