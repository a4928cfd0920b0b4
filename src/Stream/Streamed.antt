-- ===== src/Stream/Streamed.antt =====
-- `read_bytes` with a streaming callback, over all bytes that come.
use ctornado.Stream.Monad.{M, Stream, bind_done, call_data, done, is_some, ◌>>=◌}
use ctornado.Stream.Close.{consume, run_stream_callback}
use ctornado.Stream.Read.{feed_streaming, read_from_buffer, try_read}
use ctornado.Stream.Branches.{delimiter_none, from_buffer_fed, read_none}
use ctornado.Stream.Front.{consume_at, take_front_lem}
use ctornado.Stream.Counted.{Counts, feed_branch}
use ctornado.Base.{
  Bool, List, [], ap, append-nil, append_assoc, arith, false, if◌then◌else◌, inl, inr, leb, length,
  length-drop, ltb, lt→ltb, map, min, not, refl, some, suc, sym, take, take-append-drop, true, zero,
  ℕ, ◌&&◌, ◌++◌, ◌+◌, ◌-◌, ◌<◌, ◌==◌, ◌∙◌, ◌∷◌, ◌≡◌, ◌≤◌, ◌⊎◌,
}
use ctornado.Buffer
use ctornado.Buffer.{Buffer}
use ctornado.Buffer.Content.{IsValid, concat, concat-append, contents, push_lem}
use ctornado.Str.{Str, bytes}

-- the stream after the streaming callback has got the chunk `c`, with the buffer `b` left
abbrev chunk_given : Stream → Buffer → Str → Stream
chunk_given s b c = record s {
  read_buffer = b;
  pending_callbacks = s.pending_callbacks + 1;
  tasks = s.tasks ++ call_data s.streaming_callback c ∷ [];
}

given :
    (n : ℕ) (s : Stream)
    → IsValid s.read_buffer
    → 0 < n
    → n ≤ s.read_buffer.size
    → (c : Str) × (b : Buffer) × ((consume n >>= run_stream_callback s.streaming_callback) s
        ≡ done tt (chunk_given s b c))
      × (bytes c ++ contents b ≡ contents s.read_buffer)
      × (b.size ≡ s.read_buffer.size - n)
      × IsValid b
unfolding run_stream_callback
given n s v h k =
    let (c, b, run, front_bytes, rest, w) = take_front_lem n s.read_buffer v h in
    (
      c,
      b,
      bind_done (consume n) (run_stream_callback s.streaming_callback) s (consume_at n s c b h run),
      ap (λ x. x ++ contents b) front_bytes
          ∙ ap (λ x. take n (contents s.read_buffer) ++ x) rest
          ∙ take-append-drop n (contents s.read_buffer),
      omega (arith, w.counted, v.counted, ap length rest, length-drop n (contents s.read_buffer)),
      w,
    )

-- Nothing is wanted, or more than is there.
abbrev Short : Stream → Type 0
Short s = (s.read_bytes ≡ 0) ⊎ (s.read_buffer.size < s.read_bytes)

not_read : (fuel : ℕ) (s : Stream) → Counts s → Short s → try_read fuel s ≡ done false s
unfolding try_read
not_read fuel s w (inl none_wanted) =
    read_none fuel s none_wanted ∙ delimiter_none fuel s w.no_delimiter w.no_regex
not_read fuel s w (inr few) =
    passed _ _ s.read_bytes s.read_buffer.size few ∙ delimiter_none fuel s w.no_delimiter w.no_regex
  where
    passed :
        {A : Type 0} (x y : A) (n k : ℕ) → k < n → (if not (n == 0) && leb n k then x else y) ≡ y
    passed x y n k h = ground arith

-- The stream `s'` is `s` after the bytes `came`: its streaming callback is scheduled with the chunks, in
-- order, and nothing else is scheduled; what came and is not in them is buffered.
pub record Feeds (came chunks : List Str) (s s' : Stream) : Type 0 where
  pub counts : Counts s'
  pub same_streaming : s'.streaming_callback ≡ s.streaming_callback
  pub same_read : s'.read_callback ≡ s.read_callback
  pub scheduled : s'.tasks ≡ s.tasks ++ map (call_data s.streaming_callback) chunks
  pub same_bytes : concat chunks ++ contents s'.read_buffer ≡ contents s.read_buffer ++ concat came

nothing_fed : (s : Stream) → Counts s → Feeds [] [] s s
nothing_fed s w = record {
  counts = w;
  same_streaming = refl;
  same_read = refl;
  scheduled = sym (append-nil s.tasks);
  same_bytes = sym (append-nil (contents s.read_buffer));
}

map_append : {A B : Type 0} (f : A → B) (xs ys : List A) → map f (xs ++ ys) ≡ map f xs ++ map f ys
map_append f [] ys = refl
map_append f (x ∷ xs) ys = ap (λ k. f x ∷ k) (map_append f xs ys)

fed_again :
    (a b x y : List Str) (s t u : Stream)
    → Feeds a x s t
    → Feeds b y t u
    → Feeds (a ++ b) (x ++ y) s u
fed_again a b x y s t u f g = record {
  counts = g.counts;
  same_streaming = g.same_streaming ∙ f.same_streaming;
  same_read = g.same_read ∙ f.same_read;
  scheduled =
      g.scheduled
      ∙ ap (λ k. t.tasks ++ map (call_data k) y) f.same_streaming
      ∙ ap (λ k. k ++ map (call_data s.streaming_callback) y) f.scheduled
      ∙ append_assoc s.tasks (map (call_data s.streaming_callback) x)
          (map (call_data s.streaming_callback) y)
      ∙ ap (λ k. s.tasks ++ k) (sym (map_append (call_data s.streaming_callback) x y));
  same_bytes =
      ap (λ k. k ++ contents u.read_buffer) (concat-append x y)
      ∙ append_assoc (concat x) (concat y) (contents u.read_buffer)
      ∙ ap (λ k. concat x ++ k) g.same_bytes
      ∙ sym (append_assoc (concat x) (contents t.read_buffer) (concat b))
      ∙ ap (λ k. k ++ concat b) f.same_bytes
      ∙ append_assoc (contents s.read_buffer) (concat a) (concat b)
      ∙ ap (λ k. contents s.read_buffer ++ k) (sym (concat-append a b));
}

-- How one call of `read_from_buffer` feeds the streaming callback.
FeedsOnce : ℕ → Stream → Type 0
FeedsOnce fuel s =
    (chunks : List Str) × (s' : Stream) × (read_from_buffer fuel s ≡ done false s')
    × Feeds [] chunks s s'

-- the call where `n` of the buffered bytes are taken, and `left` are wanted then
feeds_chunk :
    (fuel n left : ℕ) (s : Stream)
    → Counts s
    → 0 < n
    → n ≤ s.read_buffer.size
    → (left ≡ 0) ⊎ (s.read_buffer.size - n < left)
    → feed_streaming s
      ≡ (consume n >>= run_stream_callback s.streaming_callback) (record s { read_bytes = left })
    → FeedsOnce fuel s
unfolding FeedsOnce
feeds_chunk fuel n left s w h k short e =
    let (c, b, run, same, size, v) = given n (record s { read_bytes = left }) w.valid h k in
    let counts : Counts (chunk_given (record s { read_bytes = left }) b c) = record {
      valid = v;
      no_delimiter = w.no_delimiter;
      no_regex = w.no_regex;
    } in
    (
      c ∷ [],
      chunk_given (record s { read_bytes = left }) b c,
      from_buffer_fed fuel s (chunk_given (record s { read_bytes = left }) b c) (e ∙ run)
          ∙ not_read fuel (chunk_given (record s { read_bytes = left }) b c) counts
              (still_short b size short),
      record {
        counts = counts;
        same_streaming = refl;
        same_read = refl;
        scheduled = refl;
        same_bytes =
            append_assoc (bytes c) [] (contents b)
            ∙ same
            ∙ sym (append-nil (contents s.read_buffer));
      },
    )
  where
    still_short :
        (b : Buffer)
        → b.size ≡ s.read_buffer.size - n
        → (left ≡ 0) ⊎ (s.read_buffer.size - n < left)
        → (left ≡ 0) ⊎ (b.size < left)
    still_short b size (inl e) = inl e
    still_short b size (inr e) = inr (omega (arith, size))

fed_zero :
    (s : Stream) (cb : ℕ)
    → s.streaming_callback ≡ some cb
    → s.read_bytes ≡ 0
    → 0 < s.read_buffer.size
    → feed_streaming s ≡ (consume s.read_buffer.size >>= run_stream_callback s.streaming_callback) s
unfolding feed_streaming
fed_zero s cb e z k = rw (ap is_some e, lt→ltb 0 s.read_buffer.size k, ap (λ n. n == 0) z)

fed_nothing : (s : Stream) → s.read_buffer.size ≡ 0 → feed_streaming s ≡ done tt s
unfolding feed_streaming
fed_nothing s z = passed _ _ (is_some s.streaming_callback) s.read_buffer.size z
  where
    passed : {A : Type 0} (x y : A) (b : Bool) (n : ℕ) → n ≡ 0 → (if b && ltb 0 n then x else y) ≡ y
    passed x y true n e = ground (arith, e)
    passed x y false n e = refl

zero_or : (n : ℕ) → (n ≡ 0) ⊎ (0 < n)
zero_or zero = inl refl
zero_or (suc n) = inr (omega arith)

feeds_once :
    (fuel : ℕ) (s : Stream) (cb : ℕ) → Counts s → s.streaming_callback ≡ some cb → FeedsOnce fuel s
unfolding FeedsOnce
feeds_once fuel s cb w e = elim (zero_or s.read_buffer.size) [
  | inl nothing ↦ (
    [],
    s,
    from_buffer_fed fuel s s (fed_nothing s nothing)
        ∙ not_read fuel s w (few s.read_bytes s.read_buffer.size nothing),
    nothing_fed s w,
  )
  | inr some_bytes ↦ elim (zero_or s.read_bytes) [
    | inl any ↦
        feeds_chunk fuel s.read_buffer.size s.read_bytes s w some_bytes (omega arith) (inl any)
          (fed_zero s cb e any some_bytes)
    | inr wanted ↦
        feeds_chunk fuel (min s.read_bytes s.read_buffer.size)
          (s.read_bytes - min s.read_bytes s.read_buffer.size) s w (omega arith) (omega arith)
          (left_over s.read_bytes s.read_buffer.size) (feed_branch s cb e wanted some_bytes)
  ]
]
  where
    few : (n k : ℕ) → k ≡ 0 → (n ≡ 0) ⊎ (k < n)
    few zero k e = inl refl
    few (suc n) k e = inr (omega (arith, e))

    left_over : (n k : ℕ) → (n - min n k ≡ 0) ⊎ (k - min n k < n - min n k)
    left_over n k = elim (zero_or (n - k)) [
      | inl all ↦ inl (omega (arith, all))
      | inr more ↦ inr (omega (arith, more))
    ]

-- the stream to which bytes come
abbrev came_in : Stream → Str → Stream
came_in s c = record s { read_buffer = Buffer.push s.read_buffer c }

-- bytes that come, with a call of `read_from_buffer` behind each chunk
unfoldable pub arrive : ℕ → List Str → M (Unit {0})
arrive fuel [] s = done tt s
arrive fuel (c ∷ cs) s = (read_from_buffer fuel >>= λ _. arrive fuel cs) (came_in s c)

came_in-Feeds : (s : Stream) (c : Str) → Counts s → Feeds (c ∷ []) [] s (came_in s c)
came_in-Feeds s c w =
    let (same, valid) = push_lem s.read_buffer c in
    record {
      counts = record {
        valid = valid w.valid;
        no_delimiter = w.no_delimiter;
        no_regex = w.no_regex;
      };
      same_streaming = refl;
      same_read = refl;
      scheduled = sym (append-nil s.tasks);
      same_bytes = same ∙ ap (λ k. contents s.read_buffer ++ k) (sym (append-nil (bytes c)));
    }

-- A stream that waits for a number of bytes, and for nothing else, with a streaming callback: whatever
-- chunks come, with a call of `read_from_buffer` behind each, these calls return, and schedule the
-- streaming callback only, with chunks that are the bytes buffered before and those that came, in order,
-- up to what is still buffered. The read callback is not scheduled, and is still the stream's, also when
-- the wanted number of bytes has come.
pub arrive-Feeds :
    (fuel : ℕ) (cs : List Str) (s : Stream) (cb : ℕ)
    → Counts s
    → s.streaming_callback ≡ some cb
    → (chunks : List Str) × (s' : Stream) × (arrive fuel cs s ≡ done tt s') × Feeds cs chunks s s'
unfolding arrive FeedsOnce
arrive-Feeds fuel [] s cb w e = ([], s, refl, nothing_fed s w)
arrive-Feeds fuel (c ∷ cs) s cb w e =
    let pushed = came_in-Feeds s c w in
    let (x, t, run, f) = feeds_once fuel (came_in s c) cb pushed.counts e in
    let (y, u, later, g) = arrive-Feeds fuel cs t cb f.counts (f.same_streaming ∙ e) in
    (
      x ++ y,
      u,
      bind_done (read_from_buffer fuel) (λ _. arrive fuel cs) (came_in s c) run ∙ later,
      fed_again (c ∷ []) cs [] (x ++ y) s (came_in s c) u pushed
          (fed_again [] cs x y (came_in s c) t u f g),
    )
