-- ===== src/Stream/Branches.antt =====
-- The branches of `read_from_buffer`, as equations.
use ctornado.Stream.Monad.{Stream, bind_done, done, is_some}
use ctornado.Stream.Close.{}
use ctornado.Stream.Read.{
  delimiter_loop, deliver, feed_streaming, read_from_buffer, try_delimiter, try_read, try_regex,
}
use ctornado.Base.{
  Bytes, ap, arith, false, le→leb, lt→ltb, none, refl, some, ℕ, ◌<◌, ◌==◌, ◌∙◌, ◌≡◌, ◌≤◌,
}
use ctornado.Buffer.{}

pub feed_none : (s : Stream) → s.streaming_callback ≡ none → feed_streaming s ≡ done tt s
unfolding feed_streaming
feed_none s h = rw (ap is_some h)

pub from_buffer_none :
    (fuel : ℕ) (s : Stream)
    → s.streaming_callback ≡ none
    → read_from_buffer fuel s ≡ try_read fuel s
unfolding read_from_buffer
from_buffer_none fuel s h = bind_done feed_streaming (λ _. try_read fuel) s (feed_none s h)

pub from_buffer_fed :
    (fuel : ℕ) (s s' : Stream)
    → feed_streaming s ≡ done tt s'
    → read_from_buffer fuel s ≡ try_read fuel s'
unfolding read_from_buffer
from_buffer_fed fuel s s' h = bind_done feed_streaming (λ _. try_read fuel) s h

pub read_none :
    (fuel : ℕ) (s : Stream)
    → s.read_bytes ≡ 0
    → try_read fuel s ≡ try_delimiter fuel s.read_delimiter s
unfolding try_read
read_none fuel s h = rw (ap (λ k. k == 0) h)

pub read_some :
    (fuel : ℕ) (s : Stream)
    → 0 < s.read_bytes
    → s.read_bytes ≤ s.read_buffer.size
    → try_read fuel s ≡ deliver s.read_callback s.read_bytes (record s { read_bytes = 0 })
unfolding try_read
read_some fuel s h k = rw (nonzero s.read_bytes h, le→leb s.read_bytes s.read_buffer.size k)
  where
    nonzero : (n : ℕ) → 0 < n → (n == 0) ≡ false
    nonzero n h = ground arith

pub delimiter_some :
    (fuel : ℕ) (d : Bytes) (s : Stream)
    → s.read_delimiter ≡ some d
    → 0 < s.read_buffer.size
    → try_delimiter fuel s.read_delimiter s ≡ delimiter_loop fuel d s
delimiter_some fuel d s e h = ap (λ k. try_delimiter fuel k s) e ∙ entered
  where
    entered : try_delimiter fuel (some d) s ≡ delimiter_loop fuel d s
    entered = unfold try_delimiter in rw (lt→ltb 0 s.read_buffer.size h)

pub delimiter_none :
    (fuel : ℕ) (s : Stream)
    → s.read_delimiter ≡ none
    → s.read_regex ≡ none
    → try_delimiter fuel s.read_delimiter s ≡ done false s
delimiter_none fuel s e h =
    ap (λ k. try_delimiter fuel k s) e ∙ on_regex ∙ ap (λ k. try_regex fuel k s) h ∙ left
  where
    on_regex : try_delimiter fuel none s ≡ try_regex fuel s.read_regex s
    on_regex = unfold try_delimiter in refl

    left : try_regex fuel none s ≡ done false s
    left = unfold try_regex in refl
