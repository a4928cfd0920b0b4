-- ===== src/Stream/Round.antt =====
-- One round of the loop of `handle_write`: what it does to the bytes that wait.
use mathlib.Core.Path.{subst}
use ctornado.Stream.Monad.{Send, Stream, send_blocks, send_fails, sent}
use ctornado.Stream.Close.{}
use ctornado.Stream.Write.{
  Round, again, answer_send, failed, give_up, leave_loop, merge_unless_frozen, next_send,
  socket_top, take_sent, write_round,
}
use ctornado.Base.{
  Bool, Bool-cases, Bytes, List, [], ap, append_assoc, arith, drop, err, false, fault,
  if◌then◌else◌, inl, inr, length, min, ok, refl, sym, take, take-append-drop, take_append_le, true,
  ℕ, ◌++◌, ◌<◌, ◌==◌, ◌∙◌, ◌∷◌, ◌≡◌, ◌≤◌,
}
use ctornado.Buffer
use ctornado.Buffer.{Buffer}
use ctornado.Buffer.Content.{IsValid, concat, contents, remove_prefix_lem}
use ctornado.Buffer.Prefix.{merge_prefix_lem}
use ctornado.Str.{Str, bytes, len}

-- what was written to the stream: the bytes that the socket took, and those that wait
abbrev pub written : Stream → Bytes
written s = s.wire ++ contents s.write_buffer

-- the stream with the buffers valid, and what was written to it unchanged
pub record Conserved (s s' : Stream) : Type 0 where
  pub kept : written s' ≡ written s
  pub valid_write : IsValid s'.write_buffer
  pub valid_read : IsValid s'.read_buffer

-- how a round may end
pub data RoundOf (s : Stream) : Round → Type 0 where
  goes_on :
      (s' : Stream)
      → s'.socket ≡ true
      → length s'.accepting < length s.accepting
      → Conserved s s'
      → RoundOf s (again s')
  leaves : (s' : Stream) → s'.socket ≡ true → Conserved s s' → RoundOf s (leave_loop s')
  gives_up : (s' : Stream) → Conserved s s' → RoundOf s (give_up s')

pub merged_lem :
    (s : Stream)
    → IsValid s.write_buffer
    → (b : Buffer) × (merge_unless_frozen s ≡ ok b)
      × (contents b ≡ contents s.write_buffer)
      × IsValid b
unfolding merge_unless_frozen
merged_lem s v = elim (Bool-cases s.write_buffer_frozen) [
  | inl frozen ↦ (s.write_buffer, rw (frozen), refl, v)
  | inr thawed ↦
      let (b, c, run, first, front_bytes, all, w) =
        merge_prefix_lem s.write_buffer 1048576 v (omega arith) in
      (b, rw (thawed, run), all, w)
]

nonempty_top :
    (cs : List Str) (n : ℕ)
    → n ≡ length (concat cs)
    → 0 < n
    → (c : Str) × (Buffer.top (record { chunk_dq = cs; size = n }) ≡ ok c)
      × ((rest : Bytes) × (concat cs ≡ bytes c ++ rest))
unfolding Buffer.top
nonempty_top [] n e h = absurd (omega arith)
nonempty_top (c ∷ cs) n e h = (c, refl, (concat cs, refl))

pub some_top :
    (b : Buffer)
    → IsValid b
    → 0 < b.size
    → (c : Str) × (Buffer.top b ≡ ok c) × ((rest : Bytes) × (contents b ≡ bytes c ++ rest))
some_top b v h = nonempty_top b.chunk_dq b.size v.counted h

take_sent_lem :
    (n : ℕ) (c : Str) (s : Stream) (rest : Bytes)
    → IsValid s.write_buffer
    → contents s.write_buffer ≡ bytes c ++ rest
    → n ≤ len c
    → (b : Buffer) × (take_sent n c s
        ≡ ok (record s {
          write_buffer = b;
          write_buffer_frozen = false;
          wire = s.wire ++ take n (bytes c);
        }))
      × ((s.wire ++ take n (bytes c)) ++ contents b ≡ written s)
      × IsValid b
unfolding take_sent
take_sent_lem n c s rest v e h =
    let (b, run, left, w) = remove_prefix_lem s.write_buffer n v in
    (b, rw (run, take_sent), all b left, w)
  where
    cut : take n (bytes c) ++ drop n (contents s.write_buffer) ≡ contents s.write_buffer
    cut =
        ap (λ k. k ++ drop n (contents s.write_buffer))
          (sym (ap (take n) e ∙ take_append_le n (bytes c) rest h))
        ∙ take-append-drop n (contents s.write_buffer)

    all :
        (b : Buffer)
        → contents b ≡ drop n (contents s.write_buffer)
        → (s.wire ++ take n (bytes c)) ++ contents b ≡ written s
    all b left =
        append_assoc s.wire (take n (bytes c)) (contents b)
        ∙ ap (λ k. s.wire ++ (take n (bytes c) ++ k)) left
        ∙ ap (λ k. s.wire ++ k) cut

-- the answer to a chunk in front of a state `t` that came from `s`
answer_lem :
    (a : Send) (c : Str) (s t : Stream) (rest : Bytes)
    → t.socket ≡ true
    → length t.accepting < length s.accepting
    → Conserved s t
    → contents t.write_buffer ≡ bytes c ++ rest
    → RoundOf s (answer_send a c t)
unfolding answer_send
answer_lem send_blocks c s t rest o l k e =
    leaves _ o (record { kept = k.kept; valid_write = k.valid_write; valid_read = k.valid_read })
answer_lem (send_fails n) c s t rest o l k e =
    gives_up _ (record { kept = k.kept; valid_write = k.valid_write; valid_read = k.valid_read })
answer_lem (sent n) c s t rest o l k e = elim (Bool-cases (min n (len c) == 0)) [
  | inl nothing ↦ subst (RoundOf s) (sym (none_taken nothing)) (
      leaves _ o (record { kept = k.kept; valid_write = k.valid_write; valid_read = k.valid_read }))
  | inr something ↦
      let (b, run, all, w) = take_sent_lem (min n (len c)) c t rest k.valid_write e (omega arith) in
      subst (RoundOf s) (sym (some_taken something b run)) (
        goes_on (after b) o l
          (record { kept = all ∙ k.kept; valid_write = w; valid_read = k.valid_read }))
]
  where
    after : Buffer → Stream
    after b = record t {
      write_buffer = b;
      write_buffer_frozen = false;
      wire = t.wire ++ take (min n (len c)) (bytes c);
    }

    none_taken :
        (min n (len c) == 0) ≡ true
        → answer_send (sent n) c t ≡ leave_loop (record t { write_buffer_frozen = true })
    none_taken z = rw (z)

    some_taken :
        (min n (len c) == 0) ≡ false
        → (b : Buffer) → take_sent (min n (len c)) c t ≡ ok (after b)
        → answer_send (sent n) c t ≡ again (after b)
    some_taken z b run = rw (z, run)

by_answers :
    (s : Stream) (b : Buffer) (c : Str) (rest : Bytes) (answers : List Send)
    → answers ≡ s.accepting
    → s.socket ≡ true
    → Conserved s (record s { write_buffer = b })
    → contents b ≡ bytes c ++ rest
    → RoundOf s (
        answer_send
          (next_send answers).0
          c
          (record s { write_buffer = b; accepting = (next_send answers).1 }))
unfolding next_send answer_send
by_answers s b c rest [] e o k g =
    leaves _ o (record { kept = k.kept; valid_write = k.valid_write; valid_read = k.valid_read })
by_answers s b c rest (a ∷ answers) e o k g =
    answer_lem a c s (record s { write_buffer = b; accepting = answers }) rest o
      (omega (arith, ap length e))
      (record { kept = k.kept; valid_write = k.valid_write; valid_read = k.valid_read }) g

round_at :
    (s : Stream) (b : Buffer) (c : Str)
    → s.socket ≡ true
    → merge_unless_frozen s ≡ ok b
    → Buffer.top b ≡ ok c
    → write_round s
      ≡ answer_send
          (next_send s.accepting).0
          c
          (record s { write_buffer = b; accepting = (next_send s.accepting).1 })
unfolding write_round socket_top
round_at s b c o m h = rw (m, h, write_round) (chosen s.socket o)
  where
    chosen :
        (open_socket : Bool)
        → open_socket ≡ true
        → elim (if open_socket then ok c else err fault) as (λ x. Round) [
          | err e ↦ failed e
          | ok chunk ↦
              answer_send
                (next_send s.accepting).0
                chunk
                (record s { write_buffer = b; accepting = (next_send s.accepting).1 })
        ]
          ≡ answer_send
              (next_send s.accepting).0
              c
              (record s { write_buffer = b; accepting = (next_send s.accepting).1 })
    chosen open_socket e = rw (e)

pub round_lem :
    (s : Stream)
    → s.socket ≡ true
    → IsValid s.write_buffer
    → IsValid s.read_buffer
    → 0 < s.write_buffer.size
    → RoundOf s (write_round s)
round_lem s o v r h =
    let (b, m, all, w) = merged_lem s v in
    let (c, first, (rest, split)) =
      some_top b w (omega (arith, v.counted, w.counted, ap length all)) in
    subst (RoundOf s) (sym (round_at s b c o m first)) (
      by_answers s b c rest s.accepting refl o
        (record { kept = ap (λ k. s.wire ++ k) all; valid_write = w; valid_read = r }) split)
