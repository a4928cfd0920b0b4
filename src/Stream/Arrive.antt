-- ===== src/Stream/Arrive.antt =====
-- `handle_read`: what the socket has for the stream, up to the callback of a `read_until`.
use ctornado.Stream.Monad.{
  Recv, Stream, catching, done, eagain, received, recv_blocks, return, ◌>>=◌,
}
use ctornado.Stream.Read.{
  answer_recv, handle_read, keep_chunk, less_pending, more_pending, read_all, read_from_buffer,
  read_from_socket, read_loop, read_to_buffer,
}
use ctornado.Stream.Close.{}
use ctornado.Stream.Front.{delivered}
use ctornado.Stream.Delimiter.{Waits, read_until_found}
use ctornado.Base.{
  All, All-append, Bytes, List, [], ap, append-nil, append_assoc, arith, drop, false, leb, length,
  length-append, map, none, ok, refl, some, suc, sym, take, true, zero, ℕ, ◌++◌, ◌+◌, ◌-◌, ◌<◌,
  ◌==◌, ◌∙◌, ◌∷◌, ◌≡◌,
}
use ctornado.Buffer
use ctornado.Buffer.{Buffer}
use ctornado.Buffer.Content.{IsValid, concat, contents, push_lem}
use ctornado.Str.{Str, bytes, len, text}
use ctornado.Str.Find.{memmem}
use ctornado.Str.Occurs.{memmem_room}

-- the stream while its socket is read
abbrev reading : Stream → List Recv → Buffer → Stream
reading s answers b = record s { incoming = answers; read_buffer = b }

-- the stream when the socket would block
abbrev blocked : Stream → List Recv → Buffer → Stream
blocked s answers b = record s { incoming = answers; read_buffer = b; sys_errno = eagain }

not_full : (n m : ℕ) → n < m → leb m n ≡ false
not_full n m h = ground arith

not_zero : (n : ℕ) → 0 < n → (n == 0) ≡ false
not_zero n h = ground arith

chunk_round :
    (s : Stream) (c : Bytes) (answers : List Recv) (b : Buffer)
    → 0 < length c
    → b.size + length c < s.max_buffer_size
    → read_to_buffer (reading s (received c ∷ answers) b)
      ≡ done (length c) (reading s answers (Buffer.push b (text c)))
unfolding read_to_buffer read_from_socket answer_recv keep_chunk Buffer.push
chunk_round s [] answers b h room = absurd (omega arith)
chunk_round s (x ∷ c) answers b h room =
    rw (not_zero (length (x ∷ c)) h, not_full (b.size + length (x ∷ c)) s.max_buffer_size room) refl

-- the bytes of several chunks
abbrev pub together : List Bytes → Bytes
together [] = []
together (c ∷ cs) = c ++ together cs

abbrev pub HasBytes : Bytes → Type 0
HasBytes c = 0 < length c

pushed : Buffer → List Bytes → Buffer
pushed b [] = b
pushed b (c ∷ cs) = pushed (Buffer.push b (text c)) cs

size-pushed : (b : Buffer) (cs : List Bytes) → (pushed b cs).size ≡ b.size + length (together cs)
unfolding pushed Buffer.push
size-pushed b [] = omega arith
size-pushed b (c ∷ cs) =
    omega (arith, size-pushed (Buffer.push b (text c)) cs, length-append c (together cs))

pushed_lem :
    (b : Buffer) (cs : List Bytes)
    → (contents (pushed b cs) ≡ contents b ++ together cs) × (IsValid b → IsValid (pushed b cs))
unfolding pushed
pushed_lem b [] = (sym (append-nil (contents b)), λ v. v)
pushed_lem b (c ∷ cs) =
    let (same, valid) = push_lem b (text c) in
    let (rest, still) = pushed_lem (Buffer.push b (text c)) cs in
    (
      rest ∙ ap (λ k. k ++ together cs) same ∙ append_assoc (contents b) c (together cs),
      λ v. still (valid v),
    )

-- all chunks of a queue have bytes
abbrev pub NoneEmpty : List Str → Type 0
NoneEmpty = All (λ c. 0 < len c)

pushed-NoneEmpty :
    (b : Buffer) (cs : List Bytes)
    → NoneEmpty b.chunk_dq
    → All HasBytes cs
    → NoneEmpty (pushed b cs).chunk_dq
unfolding pushed Buffer.push
pushed-NoneEmpty b [] h a = h
pushed-NoneEmpty b (c ∷ cs) h (k, a) =
    pushed-NoneEmpty (Buffer.push b (text c)) cs
      (All-append (λ c. 0 < len c) b.chunk_dq (text c ∷ []) h (k, tt)) a

loop_more :
    (fuel n : ℕ) (s s' : Stream)
    → read_to_buffer s ≡ done n s'
    → 0 < n
    → read_loop (suc fuel) (return tt) s ≡ read_loop fuel (return tt) s'
unfolding read_loop
loop_more fuel n s s' e h = rw (e, read_loop, not_zero n h) refl

-- the loop of `handle_read`, over chunks that fit in the read buffer
read_loop_lem :
    (fuel : ℕ) (s : Stream) (cs : List Bytes) (answers : List Recv) (b : Buffer)
    → All HasBytes cs
    → b.size + length (together cs) < s.max_buffer_size
    → length cs < fuel
    → read_loop fuel (return tt) (reading s (map received cs ++ recv_blocks ∷ answers) b)
      ≡ done tt (blocked s answers (pushed b cs))
unfolding read_loop pushed
read_loop_lem zero s cs answers b a room h = absurd (omega arith)
read_loop_lem (suc fuel) s [] answers b a room h = refl
read_loop_lem (suc fuel) s (c ∷ cs) answers b (k, a) room h =
    let long = length-append c (together cs) in
    loop_more fuel (length c)
      (reading s (received c ∷ (map received cs ++ recv_blocks ∷ answers)) b)
      (reading s (map received cs ++ recv_blocks ∷ answers) (Buffer.push b (text c)))
      (chunk_round s c (map received cs ++ recv_blocks ∷ answers) b k (omega (arith, long))) k
    ∙ read_loop_lem fuel s cs answers (Buffer.push b (text c)) a
        (unfold Buffer.push in omega (arith, long)) (omega arith)

top_bytes :
    (b : Buffer)
    → NoneEmpty b.chunk_dq
    → 0 < length (contents b)
    → (c : Str) × (Buffer.top b ≡ ok c) × (0 < len c)
unfolding Buffer.top
top_bytes b h l = first b.chunk_dq h l
  where
    first :
        (cs : List Str)
        → NoneEmpty cs
        → 0 < length (concat cs)
        → (c : Str) × (Buffer.top (record { chunk_dq = cs; size = b.size }) ≡ ok c) × (0 < len c)
    first [] h l = absurd (omega arith)
    first (c ∷ cs) (k, h) l = (c, refl, k)

-- the stream once the bytes are in its read buffer
abbrev pub arrived : Stream → List Recv → Buffer → Stream
arrived s answers b = record s { incoming = answers; sys_errno = eagain; read_buffer = b }

counted_back : (n : ℕ) → n + 1 - 1 ≡ n
counted_back n = omega arith

length-received : (cs : List Bytes) → length (map received cs) ≡ length cs
length-received [] = refl
length-received (c ∷ cs) = ap suc (length-received cs)

read_all_lem :
    (s : Stream) (cs : List Bytes) (answers : List Recv)
    → All HasBytes cs
    → s.read_buffer.size + length (together cs) < s.max_buffer_size
    → read_all (return tt) (reading s (map received cs ++ recv_blocks ∷ answers) s.read_buffer)
      ≡ done tt (blocked s answers (pushed s.read_buffer cs))
unfolding read_all
read_all_lem s cs answers a room =
    read_loop_lem _ s cs answers s.read_buffer a room
      (omega (arith, length-append (map received cs) (recv_blocks ∷ answers), length-received cs))

handle_read_ended :
    (fuel : ℕ) (before after : Stream) {s' : Stream}
    → read_all (return tt) (record before { pending_callbacks = before.pending_callbacks + 1 })
      ≡ done tt after
    → read_from_buffer fuel (record after { pending_callbacks = after.pending_callbacks - 1 })
      ≡ done true s'
    → handle_read fuel before ≡ done tt s'
unfolding handle_read more_pending less_pending
handle_read_ended fuel before after run found = rw (run, catching, ◌>>=◌, found) refl

-- `handle_read` up to the call of `read_from_buffer`
handle_read_reads :
    (fuel : ℕ) (s : Stream) (cs : List Bytes) (answers : List Recv) {s' : Stream}
    → All HasBytes cs
    → s.read_buffer.size + length (together cs) < s.max_buffer_size
    → read_from_buffer fuel (arrived s answers (pushed s.read_buffer cs)) ≡ done true s'
    → handle_read fuel (reading s (map received cs ++ recv_blocks ∷ answers) s.read_buffer)
      ≡ done tt s'
handle_read_reads fuel s cs answers a room found =
    let more = record s { pending_callbacks = s.pending_callbacks + 1 } in
    handle_read_ended fuel (reading s (map received cs ++ recv_blocks ∷ answers) s.read_buffer)
      (blocked more answers (pushed s.read_buffer cs)) (read_all_lem more cs answers a room)
      (rw (counted_back s.pending_callbacks) found)

-- What the socket has for a stream that waits for a delimiter, cut into any chunks that are not empty,
-- then no more for now: if the delimiter is among the bytes buffered before and these, and they fit in
-- the read buffer, `handle_read` returns with the delimiter forgotten and the read callback scheduled
-- with the bytes up to the end of the first occurrence; the others stay buffered, in order.
pub handle_read_found :
    (fuel : ℕ) (d : Bytes) (s : Stream) (cs : List Bytes) (answers : List Recv) (i : ℕ)
    → Waits d s
    → s.incoming ≡ map received cs ++ recv_blocks ∷ answers
    → All HasBytes cs
    → NoneEmpty s.read_buffer.chunk_dq
    → s.read_buffer.size + length (together cs) < s.max_buffer_size
    → s.max_buffer_size < fuel
    → 0 < length d
    → memmem (contents s.read_buffer ++ together cs) d ≡ some i
    → (chunk : Str) × (b : Buffer) × (handle_read fuel s
        ≡ done tt (delivered (record (arrived s answers b) { read_delimiter = none }) b chunk))
      × (bytes chunk ≡ take (i + length d) (contents s.read_buffer ++ together cs))
      × (contents b ≡ drop (i + length d) (contents s.read_buffer ++ together cs))
      × IsValid b
handle_read_found fuel d s cs answers i w comes a n room enough m found =
    let (same, valid) = pushed_lem s.read_buffer cs in
    let v = valid w.valid in
    let size = size-pushed s.read_buffer cs in
    let here = ap (λ k. memmem k d) same ∙ found in
    let (c, first, l) =
      top_bytes buffer (pushed-NoneEmpty s.read_buffer cs n a)
        (omega (arith, memmem_room (contents buffer) d i here)) in
    let (chunk, b, run, front_bytes, rest, u) =
      read_until_found fuel d (arrived s answers buffer) c i
        (record {
          valid = v;
          no_streaming = w.no_streaming;
          no_count = w.no_count;
          waits_for = w.waits_for;
        })
        first l m here (omega (arith, size)) in
    (
      chunk,
      b,
      ap (λ l. handle_read fuel (reading s l s.read_buffer)) comes
          ∙ handle_read_reads fuel s cs answers a room run,
      front_bytes ∙ ap (take (i + length d)) same,
      rest ∙ ap (drop (i + length d)) same,
      u,
    )
  where
    buffer : Buffer
    buffer = pushed s.read_buffer cs
