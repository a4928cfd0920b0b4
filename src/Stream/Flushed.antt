-- ===== src/Stream/Flushed.antt =====
-- What `close` does with the read that it ends: the part for `read_until_close_`.
use ctornado.Stream.Monad.{Stream, Task, bind_done, call_data, done}
use ctornado.Stream.Close.{consume, flush_until_close, run_stream_callback}
use ctornado.Stream.Front.{consume_at, take_front_lem}
use ctornado.Base.{
  Bool, Bool-cases, List, [], ap, append-nil, append_assoc, arith, drop_all, false, inl, inr, none,
  refl, sym, take_all, true, ℕ, ◌++◌, ◌+◌, ◌<◌, ◌==◌, ◌∙◌, ◌∷◌, ◌≡◌, ◌≤◌, ◌⊎◌,
}
use ctornado.Buffer.{Buffer}
use ctornado.Buffer.Content.{IsValid, contents}
use ctornado.Str.{Str, bytes, null}

-- a step that leaves the sending side and the descriptor as they are, and the read buffer valid
pub record Quiet (s s' : Stream) : Type 0 where
  pub same_wire : s'.wire ≡ s.wire
  pub same_unsent : s'.write_buffer ≡ s.write_buffer
  pub valid : IsValid s'.read_buffer
  pub more : List Task
  pub more_tasks : s'.tasks ≡ s.tasks ++ more

pub quiet : (s : Stream) → IsValid s.read_buffer → Quiet s s
quiet s v = record {
  same_wire = refl;
  same_unsent = refl;
  valid = v;
  more = [];
  more_tasks = sym (append-nil s.tasks);
}

pub joined : (s t u : Stream) → Quiet s t → Quiet t u → Quiet s u
joined s t u a b = record {
  same_wire = b.same_wire ∙ a.same_wire;
  same_unsent = b.same_unsent ∙ a.same_unsent;
  valid = b.valid;
  more = a.more ++ b.more;
  more_tasks =
      b.more_tasks ∙ ap (λ k. k ++ b.more) a.more_tasks ∙ append_assoc s.tasks a.more b.more;
}

-- what is buffered is still there, for the same read
abbrev pub ReadKept : Stream → Stream → Type 0
ReadKept s s' = (s'.read_buffer ≡ s.read_buffer) × (s'.read_callback ≡ s.read_callback)

-- the callback of the read is scheduled once, with all bytes that were buffered
abbrev pub ReadGiven : Stream → Stream → Type 0
ReadGiven s s' =
    (chunk : Str) × (rest : List Task) × (s'.tasks
      ≡ s.tasks ++ call_data s.read_callback chunk ∷ rest)
    × (bytes chunk ≡ contents s.read_buffer)
    × (contents s'.read_buffer ≡ [])
    × (s'.read_callback ≡ none)

-- the one for a stream that is not read to its end, the other for one that is
abbrev pub ReadSide : Bool → Stream → Stream → Type 0
ReadSide to_end s s' = ((to_end ≡ false) × ReadKept s s') ⊎ ((to_end ≡ true) × ReadGiven s s')

given_later :
    (s t u : Stream) (more : List Task)
    → ReadGiven s t
    → ReadKept t u
    → u.tasks ≡ t.tasks ++ more
    → ReadGiven s u
given_later s t u more (chunk, rest, scheduled, all, none_left, taken) (same, calls) later = (
  chunk,
  rest ++ more,
  later ∙ ap (λ k. k ++ more) scheduled ∙ append_assoc s.tasks _ more,
  all,
  ap contents same ∙ none_left,
  calls ∙ taken,
)

pub read_later :
    (to_end : Bool) (s t u : Stream) (more : List Task)
    → ReadSide to_end s t
    → ReadKept t u
    → u.tasks ≡ t.tasks ++ more
    → ReadSide to_end s u
read_later to_end s t u more (inl (off, (same, calls))) (again, calls') later =
    inl (off, (again ∙ same, calls' ∙ calls))
read_later to_end s t u more (inr (on, g)) k later = inr (on, given_later s t u more g k later)

-- `consume` of all that is buffered
consume_all :
    (s : Stream)
    → IsValid s.read_buffer
    → (c : Str) × (b : Buffer) × (consume s.read_buffer.size s
        ≡ done c (record s { read_buffer = b }))
      × (bytes c ≡ contents s.read_buffer)
      × (contents b ≡ [])
      × IsValid b
unfolding consume
consume_all s v = elim (Bool-cases (s.read_buffer.size == 0)) [
  | inl z ↦
      let no_byte = take_all 0 (contents s.read_buffer) (nothing s.read_buffer.size z v.counted) in
      (null, s.read_buffer, rw (z), no_byte, sym no_byte, v)
  | inr nz ↦
      let (c, b, run, front_bytes, rest, w) =
        take_front_lem s.read_buffer.size s.read_buffer v (nonzero s.read_buffer.size nz) in
      (
        c,
        b,
        consume_at s.read_buffer.size s c b (nonzero s.read_buffer.size nz) run,
        front_bytes
            ∙ take_all s.read_buffer.size (contents s.read_buffer) (omega (arith, v.counted)),
        rest ∙ drop_all s.read_buffer.size (contents s.read_buffer) (omega (arith, v.counted)),
        w,
      )
]
  where
    nothing : (n : ℕ) {k : ℕ} → (n == 0) ≡ true → n ≡ k → k ≤ 0
    nothing n h e = ground (arith, e)

    nonzero : (n : ℕ) → (n == 0) ≡ false → 0 < n
    nonzero n h = ground arith

-- the stream after `read_until_close` has got its bytes
abbrev flushed : Stream → Buffer → Str → Stream
flushed s b c = record s {
  read_callback = none;
  read_until_close = false;
  read_buffer = b;
  pending_callbacks = s.pending_callbacks + 1;
  tasks = s.tasks ++ call_data s.read_callback c ∷ [];
}

pub flush_lem :
    (s : Stream)
    → IsValid s.read_buffer
    → (s' : Stream) × (flush_until_close s ≡ done tt s')
      × Quiet s s'
      × ReadSide s.read_until_close s s'
unfolding flush_until_close run_stream_callback
flush_lem s v = elim (Bool-cases s.read_until_close) [
  | inr off ↦ (s, rw (off), quiet s v, inl (off, (refl, refl)))
  | inl on ↦
      let (c, b, run, all, none_left, w) = consume_all (started s) v in
      (
        flushed s b c,
        whole on c b run,
        record {
          same_wire = refl;
          same_unsent = refl;
          valid = w;
          more = call_data s.read_callback c ∷ [];
          more_tasks = refl;
        },
        inr (on, (c, [], refl, all, none_left, refl)),
      )
]
  where
    started : Stream → Stream
    started s = record s { read_callback = none; read_until_close = false }

    whole :
        s.read_until_close ≡ true
        → (c : Str) (b : Buffer)
        → consume s.read_buffer.size (started s) ≡ done c (record (started s) { read_buffer = b })
        → flush_until_close s ≡ done tt (flushed s b c)
    whole on c b run = rw (on) (
        bind_done (consume s.read_buffer.size) (run_stream_callback s.read_callback) (started s)
          run)
