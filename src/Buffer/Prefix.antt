-- ===== src/Buffer/Prefix.antt =====
-- `merge_prefix`, `double_prefix` and `BufferIO::get_value`: what the first chunk is afterwards.
use native.Mathlib.Decide.{dec_lt, ℕ_discrete}
use ctornado.Base.{
  Bytes, List, [], ap, append-nil, append_assoc, arith, drop, drop_append_ge, drop_append_le,
  length, lt→ltb, min, ok, refl, suc, sym, take, take-append-drop, take_all, take_append_ge,
  take_append_le, zero, ℕ, ◌++◌, ◌-◌, ◌<◌, ◌∙◌, ◌∷◌, ◌≡◌, ◌≤◌,
}
use ctornado.Str.View.{substr_prefix, substr_suffix}
use ctornado.Buffer.{Buffer, gather, get_value, merge_chunks, merge_prefix, merge_queue, top}
use ctornado.Buffer.Content.{IsValid, concat, contents, length-concat_cons}
use ctornado.Str.{Str, bytes, len, text}

take-min : (n : ℕ) (bs : Bytes) → take (min n (length bs)) bs ≡ take n bs
take-min zero bs = ap (λ k. take k bs) {y = 0} (omega arith)
take-min (suc n) [] = ap (λ k. take {A = ℕ} k []) {y = 0} (omega arith)
take-min (suc n) (x ∷ bs) =
    ap (λ k. take k (x ∷ bs)) {y = suc (min n (length bs))} (omega arith)
    ∙ ap (λ t. x ∷ t) (take-min n bs)

drop-min : (n : ℕ) (bs : Bytes) → drop (min n (length bs)) bs ≡ drop n bs
drop-min zero bs = ap (λ k. drop k bs) {y = 0} (omega arith)
drop-min (suc n) [] = ap (λ k. drop {A = ℕ} k []) {y = 0} (omega arith)
drop-min (suc n) (x ∷ bs) =
    ap (λ k. drop k (x ∷ bs)) {y = suc (min n (length bs))} (omega arith) ∙ drop-min n bs

gather_part :
    (c : Str) (cs : List Str) (n : ℕ) (out : Bytes)
    → suc n < len c
    → gather (c ∷ cs) (suc n) out
      ≡ ok (out ++ take (suc n) (bytes c), text (drop (suc n) (bytes c)) ∷ cs)
unfolding gather
gather_part c cs n out h = rw (lt→ltb (suc n) (len c) h, substr_suffix c (suc n) h)

gather_whole :
    (c : Str) (cs : List Str) (n : ℕ) (out : Bytes)
    → len c ≤ suc n
    → gather (c ∷ cs) (suc n) out ≡ gather cs (suc n - len c) (out ++ bytes c)
unfolding gather
gather_whole c cs n out h = ground arith

-- The copying loop takes the first `n` bytes out of the queue, if there are as many.
gather_lem :
    (cs : List Str) (n : ℕ) (out : Bytes)
    → n ≤ length (concat cs)
    → (rest : List Str) × (gather cs n out ≡ ok (out ++ take n (concat cs), rest))
      × (concat rest ≡ drop n (concat cs))
gather_lem cs zero out h = (cs, unfold gather in rw append-nil, refl)
gather_lem [] (suc n) out h = absurd (omega arith)
gather_lem (c ∷ cs) (suc n) out h = elim (dec_lt (suc n) (len c)) [
  | yes inside ↦ (
    text (drop (suc n) (bytes c)) ∷ cs,
    gather_part c cs n out inside
        ∙ ap (λ k. ok (out ++ k, text (drop (suc n) (bytes c)) ∷ cs))
            (sym (take_append_le (suc n) (bytes c) (concat cs) (omega (arith)))),
    sym (drop_append_le (suc n) (bytes c) (concat cs) (omega (arith))),
  )
  | no past ↦
      let (rest, run, left) =
        gather_lem cs (suc n - len c) (out ++ bytes c) (omega (arith, length-concat_cons c cs)) in
      (
        rest,
        gather_whole c cs n out (omega arith) ∙ run ∙ ap (λ k. ok (k, rest)) (joined past),
        left ∙ sym (drop_append_ge (suc n) (bytes c) (concat cs) (omega arith)),
      )
]
  where
    joined :
        ¬ (suc n < len c)
        → (out ++ bytes c) ++ take (suc n - len c) (concat cs)
          ≡ out ++ take (suc n) (concat (c ∷ cs))
    joined past =
        rw (take_append_ge (suc n) (bytes c) (concat cs) (omega arith))
          (append_assoc out (bytes c) _)

-- A queue split in front: the first chunk and the bytes behind it.
abbrev pub Fronted : ℕ → List Str → List Str → Type 0
Fronted n old [] = ⊥
Fronted n old (c ∷ cs) = (bytes c ≡ take n (concat old)) × (bytes c ++ concat cs ≡ concat old)

gathered :
    (c : Str) (cs : List Str) (n : ℕ)
    → len c ≤ suc n
    → (rest : List Str) × (gather (c ∷ cs) (min (suc n) (length (concat (c ∷ cs)))) []
        ≡ ok (take (suc n) (concat (c ∷ cs)), rest))
      × (take (suc n) (concat (c ∷ cs)) ++ concat rest ≡ concat (c ∷ cs))
gathered c cs n h =
    let m = min (suc n) (length (concat (c ∷ cs))) in
    let (rest, run, left) = gather_lem (c ∷ cs) m [] (omega arith) in
    (
      rest,
      run ∙ ap (λ k. ok (k, rest)) (take-min (suc n) (concat (c ∷ cs))),
      rw (left, drop-min (suc n) (concat (c ∷ cs))) (take-append-drop (suc n) (concat (c ∷ cs))),
    )

merge_one : (c : Str) (n : ℕ) → len c ≤ suc n → Fronted (suc n) (c ∷ []) (c ∷ [])
merge_one c n h = rw append-nil (sym (take_all (suc n) (bytes c) h), refl)

merge_split :
    (c : Str) (cs : List Str) (n : ℕ)
    → suc n < len c
    → Fronted (suc n) (c ∷ cs) (text (take (suc n) (bytes c)) ∷ text (drop (suc n) (bytes c)) ∷ cs)
merge_split c cs n h = (
  sym (take_append_le (suc n) (bytes c) (concat cs) (omega arith)),
  sym (append_assoc (take (suc n) (bytes c)) _ (concat cs))
      ∙ ap (λ k. k ++ concat cs) (take-append-drop (suc n) (bytes c)),
)

merge_inside :
    (c : Str) (cs : List Str) (n t : ℕ)
    → suc n < len c
    → merge_chunks c cs (suc n) t
      ≡ ok (text (take (suc n) (bytes c)) ∷ text (drop (suc n) (bytes c)) ∷ cs)
unfolding merge_chunks
merge_inside c cs n t h = ground (arith, substr_suffix c (suc n) h, substr_prefix c (suc n) h)

merge_same :
    (c : Str) (cs : List Str) (n t : ℕ) → len c ≡ suc n → merge_chunks c cs (suc n) t ≡ ok (c ∷ cs)
unfolding merge_chunks
merge_same c cs n t h = ground arith

merge_last : (c : Str) (n t : ℕ) → len c ≤ suc n → merge_chunks c [] (suc n) t ≡ ok (c ∷ [])
unfolding merge_chunks
merge_last c n t h = ground arith

merge_more :
    (c d : Str) (cs : List Str) (n t : ℕ) {bs : Bytes} {rest : List Str}
    → len c < suc n
    → gather (c ∷ d ∷ cs) (min (suc n) t) [] ≡ ok (bs, rest)
    → merge_chunks c (d ∷ cs) (suc n) t ≡ ok (text bs ∷ rest)
unfolding merge_chunks
merge_more c d cs n t h g = ground arith

merge_past :
    (c : Str) (cs : List Str) (n : ℕ)
    → len c ≤ suc n
    → (out : List Str) × (merge_chunks c cs (suc n) (length (concat (c ∷ cs))) ≡ ok out)
      × Fronted (suc n) (c ∷ cs) out
merge_past c [] n h = (c ∷ [], merge_last c n _ h, merge_one c n h)
merge_past c (d ∷ cs) n h = elim (ℕ_discrete (len c) (suc n)) [
  | yes same ↦ (c ∷ d ∷ cs, merge_same c (d ∷ cs) n _ same, (sym (take_exact same), refl))
  | no other ↦
      let (rest, run, left) = gathered c (d ∷ cs) n h in
      (
        text (take (suc n) (concat (c ∷ d ∷ cs))) ∷ rest,
        merge_more c d cs n _ (omega arith) run,
        (refl, left),
      )
]
  where
    take_exact : len c ≡ suc n → take (suc n) (concat (c ∷ d ∷ cs)) ≡ bytes c
    take_exact e =
        take_append_le (suc n) (bytes c) (concat (d ∷ cs)) (omega arith)
        ∙ take_all (suc n) (bytes c) (omega arith)

-- All branches of `merge_prefix` at a queue that is not empty and a positive size.
merge_chunks_lem :
    (c : Str) (cs : List Str) (n : ℕ)
    → (out : List Str) × (merge_chunks c cs (suc n) (length (concat (c ∷ cs))) ≡ ok out)
      × Fronted (suc n) (c ∷ cs) out
merge_chunks_lem c cs n = elim (dec_lt (suc n) (len c)) [
  | yes inside ↦ (
    text (take (suc n) (bytes c)) ∷ text (drop (suc n) (bytes c)) ∷ cs,
    merge_inside c cs n _ inside,
    merge_split c cs n inside,
  )
  | no past ↦ merge_past c cs n (omega arith)
]

Fronted-at :
    (b : Buffer) (n : ℕ) (out : List Str)
    → IsValid b
    → Fronted n b.chunk_dq out
    → (c : Str) × (top (record b { chunk_dq = out }) ≡ ok c)
      × (bytes c ≡ take n (contents b))
      × (concat out ≡ contents b)
      × IsValid (record b { chunk_dq = out })
unfolding top
Fronted-at b n [] v h = elim h [ ]
Fronted-at b n (c ∷ cs) v (h, k) =
    (c, refl, h, k, record { counted = v.counted ∙ ap length (sym k) })

merge_at :
    (cs : List Str) (n t : ℕ)
    → t ≡ length (concat cs)
    → 0 < n
    → (out : List Str) × (merge_queue cs n t ≡ ok out) × Fronted n cs out
unfolding merge_queue
merge_at cs zero t e h = elim h [ ]
merge_at [] (suc n) t e h = (text [] ∷ [], refl, (refl, refl))
merge_at (c ∷ cs) (suc n) t e h = rw e (merge_chunks_lem c cs n)

-- On a valid buffer and for a positive size, `merge_prefix` returns without reading outside the queue:
-- the first chunk then holds that many bytes (all of them, if there are fewer), while the bytes of the
-- buffer, their order and `size_` stay as they were.
pub merge_prefix_lem :
    (b : Buffer) (n : ℕ)
    → IsValid b
    → 0 < n
    → (b' : Buffer) × (c : Str) × (merge_prefix b n ≡ ok b')
      × (top b' ≡ ok c)
      × (bytes c ≡ take n (contents b))
      × (contents b' ≡ contents b)
      × IsValid b'
unfolding merge_prefix
merge_prefix_lem b n v h =
    let (out, run, f) = merge_at b.chunk_dq n b.size v.counted h in
    let (c, first, front_bytes, all, w) = Fronted-at b n out v f in
    (record b { chunk_dq = out }, c, rw run, first, front_bytes, all, w)

-- At size 0 `merge_prefix` only puts an empty chunk into an empty queue.
merge_zero :
    (cs : List Str) (t : ℕ)
    → t ≡ length (concat cs)
    → (c : Str) × (rest : List Str) × (merge_queue cs 0 t ≡ ok (c ∷ rest))
      × (bytes c ++ concat rest ≡ concat cs)
unfolding merge_queue merge_chunks
merge_zero [] t e = (text [], [], refl, refl)
merge_zero (c ∷ cs) t e = (c, cs, ground arith, refl)

-- Whatever the size, `merge_prefix` of a valid buffer returns and keeps the bytes.
pub merge_prefix_keeps :
    (b : Buffer) (n : ℕ)
    → IsValid b
    → (b' : Buffer) × (merge_prefix b n ≡ ok b') × (contents b' ≡ contents b) × IsValid b'
merge_prefix_keeps b zero v =
    let (c, rest, run, all) = merge_zero b.chunk_dq b.size v.counted in
    (
      record b { chunk_dq = c ∷ rest },
      unfold merge_prefix in rw run,
      all,
      record { counted = v.counted ∙ ap length (sym all) },
    )
merge_prefix_keeps b (suc n) v =
    let (b', c, run, first, front_bytes, all, w) = merge_prefix_lem b (suc n) v (omega arith) in
    (b', run, all, w)

nil_of_length : (xs ys zs : Bytes) → xs ++ ys ≡ zs → length zs ≡ 0 → xs ≡ zs
nil_of_length [] ys [] e h = refl
nil_of_length [] ys (z ∷ zs) e h = absurd (omega arith)
nil_of_length (x ∷ xs) ys zs e h = absurd (omega (arith, ap length e))

get_value_from :
    (b : Buffer) (c : Str) (rest : List Str)
    → merge_queue b.chunk_dq b.size b.size ≡ ok (c ∷ rest)
    → get_value b ≡ ok (c, record b { chunk_dq = c ∷ rest })
unfolding get_value merge_prefix top
get_value_from b c rest h = rw h

get_value_zero :
    (b : Buffer)
    → IsValid b
    → b.size ≡ 0
    → (c : Str) × (b' : Buffer) × (get_value b ≡ ok (c, b'))
      × (bytes c ≡ contents b)
      × (contents b' ≡ contents b)
      × IsValid b'
get_value_zero b v e =
    let (c, rest, run, all) = merge_zero b.chunk_dq b.size v.counted in
    (
      c,
      record b { chunk_dq = c ∷ rest },
      get_value_from b c rest (ap (λ k. merge_queue b.chunk_dq k b.size) e ∙ run),
      nil_of_length (bytes c) (concat rest) (contents b) all (omega (arith, v.counted)),
      all,
      record { counted = v.counted ∙ ap length (sym all) },
    )

-- `BufferIO::get_value` on a valid buffer returns all its bytes in one string, an empty one for an
-- empty buffer, and the buffer keeps its bytes.
pub get_value_lem :
    (b : Buffer)
    → IsValid b
    → (c : Str) × (b' : Buffer) × (get_value b ≡ ok (c, b'))
      × (bytes c ≡ contents b)
      × (contents b' ≡ contents b)
      × IsValid b'
get_value_lem b v = elim (dec_lt 0 b.size) [
  | yes more ↦
      let (b', c, run, first, bs, all, w) = merge_prefix_lem b b.size v more in
      (
        c,
        b',
        unfold get_value in rw (run, first),
        bs ∙ take_all b.size (contents b) (omega (arith, v.counted)),
        all,
        w,
      )
  | no no_bytes ↦ get_value_zero b v (omega arith)
]
