-- ===== src/Stream/Front.antt =====
-- What `consume` and the delivery of a read take out of the read buffer.
use mathlib.Core.List.{append_cancel_left}
use ctornado.Stream.Monad.{Stream, bind_done, call_data, done, on_read_buffer, return, ◌>>◌}
use ctornado.Stream.Close.{consume, run_stream_callback, take_front}
use ctornado.Stream.Read.{deliver}
use ctornado.Base.{
  ==_iff, Bool-cases, [], ap, arith, drop, inl, inr, none, ok, sym, take, take-append-drop, true, ℕ,
  ◌++◌, ◌+◌, ◌<◌, ◌==◌, ◌∙◌, ◌∷◌, ◌≡◌,
}
use ctornado.Str.{Str, bytes}
use ctornado.Buffer.{Buffer}
use ctornado.Buffer.Content.{IsValid, contents, pop-top}
use ctornado.Buffer.Prefix.{merge_prefix_lem}

-- On a valid buffer, taking a positive number of bytes from the front returns them (all, if there are
-- fewer) and leaves the others, in order, in a valid buffer.
pub take_front_lem :
    (n : ℕ) (b : Buffer)
    → IsValid b
    → 0 < n
    → (c : Str) × (b' : Buffer) × (take_front n b ≡ ok (c, b'))
      × (bytes c ≡ take n (contents b))
      × (contents b' ≡ drop n (contents b))
      × IsValid b'
unfolding take_front
take_front_lem n b v h =
    let (m, c, run, first, front_bytes, all, w) = merge_prefix_lem b n v h in
    let (b', popped, split, u) = pop-top m c w first in
    (c, b', rw (run, take_front, popped), front_bytes, rest m c b' front_bytes all split, u)
  where
    rest :
        (m : Buffer) (c : Str) (b' : Buffer)
        → bytes c ≡ take n (contents b)
        → contents m ≡ contents b
        → contents m ≡ bytes c ++ contents b'
        → contents b' ≡ drop n (contents b)
    rest m c b' e f g =
        append_cancel_left (take n (contents b)) (contents b') (drop n (contents b)) (
          ap (λ k. k ++ contents b') (sym e)
          ∙ (sym g ∙ (f ∙ sym (take-append-drop n (contents b)))))

-- the stream after a read has been delivered: callbacks gone, `chunk` on its way to the callback
abbrev pub delivered : Stream → Buffer → Str → Stream
delivered s b chunk = record s {
  read_buffer = b;
  read_callback = none;
  streaming_callback = none;
  pending_callbacks = s.pending_callbacks + 1;
  tasks = s.tasks ++ call_data s.read_callback chunk ∷ [];
}

-- `consume` as a step on the stream
pub consume_at :
    (n : ℕ) (s : Stream) (c : Str) (b : Buffer)
    → 0 < n
    → take_front n s.read_buffer ≡ ok (c, b)
    → consume n s ≡ done c (record s { read_buffer = b })
unfolding consume
consume_at n s c b h run = elim (Bool-cases (n == 0)) [
  | inl z ↦ absurd (omega (arith, (==_iff n 0).0 z))
  | inr nz ↦ rw (nz, run, on_read_buffer)
]

deliver_at :
    (n : ℕ) (s : Stream) (c : Str) (b : Buffer)
    → 0 < n
    → take_front n s.read_buffer ≡ ok (c, b)
    → deliver s.read_callback n s ≡ done true (delivered s b c)
unfolding deliver run_stream_callback
deliver_at n s c b h run =
    bind_done (consume n) (λ chunk. run_stream_callback s.read_callback chunk >> return true)
      started (consume_at n started c b h run)
  where
    started : Stream
    started = record s { read_callback = none; streaming_callback = none }

-- Delivering a positive number of bytes hands the callback just those bytes, in one string, and leaves
-- the others.
pub deliver_lem :
    (n : ℕ) (s : Stream)
    → IsValid s.read_buffer
    → 0 < n
    → (c : Str) × (b : Buffer) × (deliver s.read_callback n s ≡ done true (delivered s b c))
      × (bytes c ≡ take n (contents s.read_buffer))
      × (contents b ≡ drop n (contents s.read_buffer))
      × IsValid b
deliver_lem n s v h =
    let (c, b, run, front_bytes, rest, w) = take_front_lem n s.read_buffer v h in
    (c, b, deliver_at n s c b h run, front_bytes, rest, w)
