-- ===== src/Buffer/Content.antt =====
-- The bytes that a Buffer holds, the invariant of `size_`, and `push`, `pop`, `remove_prefix`.
use ctornado.Base.{
  Bytes, List, Result, [], ap, append-nil, append_assoc, arith, drop, drop-nil, drop_append_ge,
  drop_append_le, err, fault, length, length-append, length-drop, lt→ltb, ok, refl, suc, sym, zero,
  ℕ, ◌++◌, ◌+◌, ◌-◌, ◌<◌, ◌∙◌, ◌∷◌, ◌≡◌, ◌≤◌,
}
use native.Mathlib.Decide.{dec_lt}
use ctornado.Str.View.{substr_suffix}
use ctornado.Buffer.{Buffer, pop, push, remove_chunks, remove_prefix, top}
use ctornado.Str.{Str, bytes, len, text}

-- the bytes of a queue of chunks, in order
abbrev pub concat : List Str → Bytes
concat [] = []
concat (c ∷ cs) = bytes c ++ concat cs

abbrev pub contents : Buffer → Bytes
contents b = concat b.chunk_dq

-- `size_` is the number of the bytes in the queue.
pub record IsValid (b : Buffer) : Type 0 where
  pub counted : b.size ≡ length (concat b.chunk_dq)

pub concat-append : (xs ys : List Str) → concat (xs ++ ys) ≡ concat xs ++ concat ys
concat-append [] ys = refl
concat-append (x ∷ xs) ys = simp (concat-append xs ys, append_assoc)

pub length-concat_cons :
    (c : Str) (cs : List Str) → length (concat (c ∷ cs)) ≡ len c + length (concat cs)
length-concat_cons c cs = length-append (bytes c) (concat cs)

-- A pushed chunk stands behind what was there, and `size_` stays right.
pub push_lem :
    (b : Buffer) (c : Str)
    → (contents (push b c) ≡ contents b ++ bytes c) × (IsValid b → IsValid (push b c))
unfolding push
push_lem b c = (same, λ v. valid v)
  where
    same : concat (b.chunk_dq ++ c ∷ []) ≡ concat b.chunk_dq ++ bytes c
    same = simp (concat-append, append-nil)

    valid : IsValid b → IsValid (push b c)
    valid v = record {
      counted =
          omega (arith, v.counted, ap length same, length-append (concat b.chunk_dq) (bytes c));
    }

-- What `pop` and `remove_prefix` are about, by their result.
abbrev pub Popped : Buffer → Result (Str × Buffer) → Type 0
Popped b (ok (c, b')) =
    (contents b ≡ bytes c ++ contents b') × (b.size ≡ len c + b'.size) × IsValid b'
Popped b (err e) = (b.chunk_dq ≡ []) × (e ≡ fault)

pop_at :
    (cs : List Str) (n : ℕ)
    → IsValid (record { chunk_dq = cs; size = n })
    → Popped (record { chunk_dq = cs; size = n }) (pop (record { chunk_dq = cs; size = n }))
unfolding pop
pop_at [] n v = (refl, refl)
pop_at (c ∷ cs) n v = (
  refl,
  omega (arith, v.counted, length-concat_cons c cs),
  record { counted = omega (arith, v.counted, length-concat_cons c cs) },
)

-- On a valid buffer `pop` fails only when no chunk is queued. Else it hands out the bytes in front,
-- the others stay in order, and `size_` falls by their number.
pop_lem : (b : Buffer) → IsValid b → Popped b (pop b)
pop_lem b v = pop_at b.chunk_dq b.size v

pop-top_at :
    (cs : List Str) (n : ℕ) (c : Str)
    → IsValid (record { chunk_dq = cs; size = n })
    → top (record { chunk_dq = cs; size = n }) ≡ ok c
    → (b' : Buffer) × (pop (record { chunk_dq = cs; size = n }) ≡ ok (c, b'))
      × (concat cs ≡ bytes c ++ contents b')
      × IsValid b'
unfolding top pop
pop-top_at [] n c v h = cc
pop-top_at (d ∷ cs) n c v h = (
  record { chunk_dq = cs; size = n - len d },
  cc,
  ap (λ k. bytes k ++ concat cs) (same h),
  record { counted = omega (arith, v.counted, length-concat_cons d cs) },
)
  where
    same : {x y : Str} → ok x ≡ ok y → x ≡ y
    same e = cc

-- `pop` hands out what `top` shows.
pub pop-top :
    (b : Buffer) (c : Str)
    → IsValid b
    → top b ≡ ok c
    → (b' : Buffer) × (pop b ≡ ok (c, b')) × (contents b ≡ bytes c ++ contents b') × IsValid b'
pop-top b c v h = pop-top_at b.chunk_dq b.size c v h

remove_part :
    (c : Str) (cs : List Str) (n t : ℕ)
    → suc n < len c
    → remove_chunks (c ∷ cs) (suc n) t ≡ ok (text (drop (suc n) (bytes c)) ∷ cs, t - suc n)
unfolding remove_chunks
remove_part c cs n t h = rw (lt→ltb (suc n) (len c) h, substr_suffix c (suc n) h)

remove_whole :
    (c : Str) (cs : List Str) (n t : ℕ)
    → len c ≤ suc n
    → remove_chunks (c ∷ cs) (suc n) t ≡ remove_chunks cs (suc n - len c) (t - len c)
unfolding remove_chunks
remove_whole c cs n t h = ground arith

-- The loop of `remove_prefix` drops bytes and keeps `size_` the number of those left.
remove_chunks_lem :
    (cs : List Str) (n t : ℕ)
    → t ≡ length (concat cs)
    → (left : List Str) × (remove_chunks cs n t ≡ ok (left, length (concat left)))
      × (concat left ≡ drop n (concat cs))
remove_chunks_lem [] n t e = ([], unfold remove_chunks in rw e, sym (drop-nil n))
remove_chunks_lem (c ∷ cs) zero t e = (c ∷ cs, unfold remove_chunks in rw e, refl)
remove_chunks_lem (c ∷ cs) (suc n) t e = elim (dec_lt (suc n) (len c)) [
  | yes inside ↦ (
    text (drop (suc n) (bytes c)) ∷ cs,
    remove_part c cs n t inside
        ∙ ap (λ k. ok (text (drop (suc n) (bytes c)) ∷ cs, k)) (counts inside),
    sym (drop_append_le (suc n) (bytes c) (concat cs) (omega arith)),
  )
  | no past ↦
      let (left, run, rest) =
        remove_chunks_lem cs (suc n - len c) (t - len c) (omega (arith, length-concat_cons c cs)) in
      (
        left,
        remove_whole c cs n t (omega arith) ∙ run,
        rest ∙ sym (drop_append_ge (suc n) (bytes c) (concat cs) (omega arith)),
      )
]
  where
    counts : suc n < len c → t - suc n ≡ length (concat (text (drop (suc n) (bytes c)) ∷ cs))
    counts h = omega (
      arith,
      length-concat_cons c cs,
      length-concat_cons (text (drop (suc n) (bytes c))) cs,
      length-drop (suc n) (bytes c),
    )

-- On a valid buffer `remove_prefix` always returns; it drops that many bytes from the front (all, if
-- there are fewer), keeps the others in order, and keeps `size_` right.
pub remove_prefix_lem :
    (b : Buffer) (n : ℕ)
    → IsValid b
    → (b' : Buffer) × (remove_prefix b n ≡ ok b') × (contents b' ≡ drop n (contents b)) × IsValid b'
unfolding remove_prefix
remove_prefix_lem b n v =
    let (left, run, rest) = remove_chunks_lem b.chunk_dq n b.size v.counted in
    (
      record { chunk_dq = left; size = length (concat left) },
      rw run,
      rest,
      record { counted = refl },
    )
