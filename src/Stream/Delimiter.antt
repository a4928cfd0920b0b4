-- ===== src/Stream/Delimiter.antt =====
-- `read_until`: what the loop over the read buffer finds.
use mathlib.Core.Path.{subst}
use ctornado.Stream.Monad.{Out, Stream, done, stuck}
use ctornado.Stream.Close.{}
use ctornado.Stream.Read.{delimiter_loop, deliver, find_delimiter, read_from_buffer}
use ctornado.Stream.Branches.{delimiter_some, from_buffer_none, read_none}
use ctornado.Stream.Front.{deliver_lem, delivered}
use ctornado.Base.{
  Bool, Bytes, List, Option, Option-cases, [], ap, append-nil, arith, drop, false, inl, inr, length,
  length-append, no_fuel, none, ok, refl, some, suc, sym, take, true, zero, ℕ, ◌++◌, ◌+◌, ◌<◌, ◌==◌,
  ◌∙◌, ◌∷◌, ◌≡◌, ◌≢◌,
}
use ctornado.Buffer
use ctornado.Buffer.{Buffer}
use ctornado.Buffer.Content.{IsValid, concat, contents, pop-top}
use ctornado.Buffer.Merge.{double_prefix_lem, double_prefix_longer}
use ctornado.Str.{Str, bytes, len, null, text}
use ctornado.Str.Find.{memmem}
use ctornado.Str.Occurs.{memmem-append, memmem-none_front}

find_text : (c : Str) (d : Bytes) → 0 < len c → find_delimiter c d ≡ memmem (bytes c) d
unfolding find_delimiter
find_text null d h = elim h [ ]
find_text (text bs) d h = refl

-- a round that finds the delimiter
loop_found :
    (fuel : ℕ) (d : Bytes) (s : Stream) (c : Str) (i : ℕ)
    → Buffer.top s.read_buffer ≡ ok c
    → find_delimiter c d ≡ some i
    → delimiter_loop (suc fuel) d s
      ≡ deliver s.read_callback (i + length d) (record s { read_delimiter = none })
unfolding delimiter_loop
loop_found fuel d s c i h f = rw (h, delimiter_loop, f)

-- a round that does not, and goes on
loop_again :
    (fuel : ℕ) (d : Bytes) (s : Stream) (c : Str) (b : Buffer)
    → Buffer.top s.read_buffer ≡ ok c
    → find_delimiter c d ≡ none
    → (s.read_buffer.size == 1) ≡ false
    → Buffer.double_prefix s.read_buffer ≡ ok b
    → delimiter_loop (suc fuel) d s ≡ delimiter_loop fuel d (record s { read_buffer = b })
unfolding delimiter_loop
loop_again fuel d s c b h f z g = rw (h, delimiter_loop, f, z, g)

-- What a delivered read is: the callback has the first `n` bytes, the buffer keeps the others, and the
-- code has returned true.
abbrev pub Delivered : ℕ → Stream → Out Bool → Type 0
Delivered n s r =
    (chunk : Str) × (b : Buffer) × (r ≡ done true (delivered s b chunk))
    × (bytes chunk ≡ take n (contents s.read_buffer))
    × (contents b ≡ drop n (contents s.read_buffer))
    × IsValid b

delivers :
    (n : ℕ) (s : Stream) (b : Buffer) (out : Out Bool)
    → IsValid b
    → contents b ≡ contents s.read_buffer
    → 0 < n
    → out ≡ deliver s.read_callback n (record s { read_buffer = b })
    → Delivered n s out
delivers n s b out v e h run =
    let (chunk, b', ran, front_bytes, rest, w) = deliver_lem n (record s { read_buffer = b }) v h in
    (chunk, b', run ∙ ran, front_bytes ∙ ap (take n) e, rest ∙ ap (drop n) e, w)

-- one round over the buffer `b`, whose first chunk is `c`
found_round :
    (fuel : ℕ) (d : Bytes) (s : Stream) (b : Buffer) (c : Str) (i j : ℕ)
    → IsValid b
    → contents b ≡ contents s.read_buffer
    → Buffer.top b ≡ ok c
    → 0 < len c
    → 0 < length d
    → i ≡ j
    → memmem (bytes c) d ≡ some j
    → Delivered
        (i + length d)
        (record s { read_delimiter = none })
        (delimiter_loop (suc fuel) d (record s { read_buffer = b }))
found_round fuel d s b c i j v e h l m same f =
    delivers (i + length d) (record s { read_delimiter = none }) b _ v e (omega arith)
      (loop_found fuel d (record s { read_buffer = b }) c i h
        (find_text c d l ∙ f ∙ ap some (sym same)))

same_place : {i j : ℕ} {r : Option ℕ} → r ≡ some i → r ≡ some j → i ≡ j
same_place e f = cc

front_of :
    (b : Buffer) (c : Str)
    → IsValid b
    → Buffer.top b ≡ ok c
    → (rest : Bytes) × (contents b ≡ bytes c ++ rest)
front_of b c v h = let (b', run, e, w) = pop-top b c v h in (contents b', e)

not_one : (n : ℕ) → n ≢ 1 → (n == 1) ≡ false
not_one n h = ground arith

-- A buffer whose first chunk has bytes and is not all has more than one byte.
two_bytes :
    (b : Buffer) (c : Str) (rest : Bytes)
    → IsValid b
    → contents b ≡ bytes c ++ rest
    → 0 < len c
    → bytes c ≢ contents b
    → b.size ≢ 1
two_bytes b c [] v e l ne z = ne (sym (append-nil (bytes c)) ∙ sym e)
two_bytes b c (x ∷ rest) v e l ne z =
    omega (arith, ap length e, length-append (bytes c) (x ∷ rest), v.counted)

-- The loop finds a delimiter that is in the buffer: each round that does not find it makes the first
-- chunk longer.
delimiter_loop_lem :
    (fuel : ℕ) (d : Bytes) (s : Stream) (b : Buffer) (c : Str) (i : ℕ)
    → IsValid b
    → contents b ≡ contents s.read_buffer
    → Buffer.top b ≡ ok c
    → 0 < len c
    → 0 < length d
    → memmem (contents b) d ≡ some i
    → length (contents b) < fuel + len c
    → Delivered
        (i + length d)
        (record s { read_delimiter = none })
        (delimiter_loop fuel d (record s { read_buffer = b }))
delimiter_loop_lem zero d s b c i v e h l m f enough =
    let (rest, split) = front_of b c v h in
    absurd (omega (arith, ap length split, length-append (bytes c) rest))
delimiter_loop_lem (suc fuel) d s b c i v e h l m f enough =
    let (rest, split) = front_of b c v h in
    elim (Option-cases (memmem (bytes c) d)) [
      | inr (j, g) ↦
          found_round fuel d s b c i j v e h l m
            (same_place f (ap (λ k. memmem k d) split ∙ memmem-append (bytes c) rest d j g)) g
      | inl absent ↦
          let (b', c', run, h', longer, all, w) =
            double_prefix_longer b c v h l (λ q. differs c absent q) in
          subst (Delivered (i + length d) (record s { read_delimiter = none }))
            (sym (
              loop_again fuel d (record s { read_buffer = b }) c b' h (find_text c d l ∙ absent)
                (not_one b.size (two_bytes b c rest v split l (differs c absent))) run))
            (delimiter_loop_lem fuel d s b' c' i w (all ∙ e) h' (omega (arith, longer)) m
              (ap (λ k. memmem k d) all ∙ f) (omega (arith, longer, ap length all)))
    ]
  where
    differs : (c : Str) → memmem (bytes c) d ≡ none → bytes c ≢ contents b
    differs c absent q = cc (ap (λ k. memmem k d) q)

-- the state of a stream that waits for a delimiter, and for nothing else
pub record Waits (d : Bytes) (s : Stream) : Type 0 where
  pub valid : IsValid s.read_buffer
  pub no_streaming : s.streaming_callback ≡ none
  pub no_count : s.read_bytes ≡ 0
  pub waits_for : s.read_delimiter ≡ some d

-- For such a stream `read_from_buffer` is the loop over the read buffer.
waiting_loop :
    (fuel : ℕ) (d : Bytes) (s : Stream)
    → Waits d s
    → 0 < s.read_buffer.size
    → read_from_buffer fuel s ≡ delimiter_loop fuel d s
waiting_loop fuel d s w h =
    from_buffer_none fuel s w.no_streaming
    ∙ read_none fuel s w.no_count
    ∙ delimiter_some fuel d s w.waits_for h

-- `read_until`, where the delimiter is in the read buffer: `read_from_buffer` returns true, whatever the
-- chunks are cut into. The read callback gets, in one string, the bytes up to the end of the first
-- occurrence; the others stay, in order; the delimiter and the callback are forgotten.
-- The first chunk has bytes, as chunks from the socket do, and one round more than there are bytes is
-- enough.
pub read_until_found :
    (fuel : ℕ) (d : Bytes) (s : Stream) (c : Str) (i : ℕ)
    → Waits d s
    → Buffer.top s.read_buffer ≡ ok c
    → 0 < len c
    → 0 < length d
    → memmem (contents s.read_buffer) d ≡ some i
    → s.read_buffer.size < fuel
    → Delivered (i + length d) (record s { read_delimiter = none }) (read_from_buffer fuel s)
read_until_found fuel d s c i w h l m f enough =
    let (rest, split) = front_of s.read_buffer c w.valid h in
    subst (Delivered (i + length d) (record s { read_delimiter = none }))
      (sym (
        waiting_loop fuel d s w
          (omega (arith, w.valid.counted, ap length split, length-append (bytes c) rest))))
      (delimiter_loop_lem fuel d s s.read_buffer c i w.valid refl h l m f
        (omega (arith, w.valid.counted)))

find_absent : (c : Str) (d : Bytes) → memmem (bytes c) d ≡ none → find_delimiter c d ≡ none
unfolding find_delimiter
find_absent null d h = refl
find_absent (text bs) d h = h

some_front :
    (cs : List Str) (n : ℕ)
    → n ≡ length (concat cs)
    → 0 < n
    → (c : Str) × (Buffer.top (record { chunk_dq = cs; size = n }) ≡ ok c)
unfolding Buffer.top
some_front [] n e h = absurd (omega arith)
some_front (c ∷ cs) n e h = (c, refl)

endless :
    (fuel : ℕ) (d : Bytes) (s : Stream) (b : Buffer)
    → IsValid b
    → 1 < b.size
    → memmem (contents b) d ≡ none
    → delimiter_loop fuel d (record s { read_buffer = b }) ≡ stuck no_fuel
endless zero d s b v h f = unfold delimiter_loop in refl
endless (suc fuel) d s b v h f =
    let (c, first) = some_front b.chunk_dq b.size v.counted (omega arith) in
    let (rest, split) = front_of b c v first in
    let (b', run, all, w) = double_prefix_lem b v in
    loop_again fuel d (record s { read_buffer = b }) c b' first
      (find_absent c d (memmem-none_front (bytes c) rest d (ap (λ k. memmem k d) (sym split) ∙ f)))
      (not_one b.size (omega arith)) run
    ∙ endless fuel d s b' w (omega (arith, v.counted, w.counted, ap length all))
        (ap (λ k. memmem k d) all ∙ f)

-- `read_until`, where two bytes or more are buffered and the delimiter is not among them: the loop
-- never ends. No number of rounds is enough, since the test that should see the last chunk compares
-- the number of bytes with 1.
pub read_until_absent :
    (fuel : ℕ) (d : Bytes) (s : Stream)
    → Waits d s
    → 1 < s.read_buffer.size
    → memmem (contents s.read_buffer) d ≡ none
    → read_from_buffer fuel s ≡ stuck no_fuel
read_until_absent fuel d s w h f =
    waiting_loop fuel d s w (omega arith) ∙ endless fuel d s s.read_buffer w.valid h f
