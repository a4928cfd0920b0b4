-- ===== src/Buffer/Merge.antt =====
-- `merge` and `double_prefix`: loops that end, and the bytes they keep.

use ctornado.Base.{
  Bytes, List, [], ap, append-nil, append_assoc, arith, length, length-take, lt→ltb, max, ok, refl,
  suc, sym, take, zero, ℕ, ◌*◌, ◌++◌, ◌+◌, ◌-◌, ◌<◌, ◌∙◌, ◌∷◌, ◌≡◌, ◌≢◌,
}
use ctornado.Buffer.{Buffer, double_prefix, double_queue, merge, merge_loop, pop, push, top}
use ctornado.Buffer.Content.{IsValid, concat, contents, length-concat_cons, push_lem}
use ctornado.Buffer.Prefix.{merge_prefix_keeps, merge_prefix_lem}
use ctornado.Str.{Str, bytes, len}

merge_step :
    (fuel n : ℕ) (c : Str) (cs : List Str) (b : Buffer)
    → 0 < n
    → merge_loop (suc fuel) b (record { chunk_dq = c ∷ cs; size = n })
      ≡ merge_loop fuel (push b c) (record { chunk_dq = cs; size = n - len c })
unfolding merge_loop pop
merge_step fuel n c cs b h = rw (lt→ltb 0 n h)

merge_done :
    (fuel : ℕ) (cs : List Str) (b : Buffer)
    → merge_loop (suc fuel) b (record { chunk_dq = cs; size = 0 })
      ≡ ok (b, record { chunk_dq = cs; size = 0 })
unfolding merge_loop
merge_done fuel cs b = refl

no_bytes : (xs : Bytes) → 0 ≡ length xs → xs ≡ []
no_bytes [] h = refl
no_bytes (x ∷ xs) h = absurd (omega arith)

-- What the loop of `merge` has done when it stops.
abbrev Merged : Buffer → Bytes → Buffer × Buffer → Type 0
Merged b more (b', source') =
    (contents b' ≡ contents b ++ more) × IsValid b' × (contents source' ≡ []) × (source'.size ≡ 0)

merge_loop_lem :
    (fuel n : ℕ) (cs : List Str) (b : Buffer)
    → length cs < fuel
    → n ≡ length (concat cs)
    → IsValid b
    → (out : Buffer × Buffer) × (merge_loop fuel b (record { chunk_dq = cs; size = n }) ≡ ok out)
      × Merged b (concat cs) out
merge_loop_lem zero n cs b h e v = absurd (omega arith)
merge_loop_lem (suc fuel) zero cs b h e v = (
  (b, record { chunk_dq = cs; size = 0 }),
  merge_done fuel cs b,
  rw (no_bytes (concat cs) e) (rw append-nil (refl, v, refl, refl)),
)
merge_loop_lem (suc fuel) (suc n) [] b h e v = absurd (omega arith)
merge_loop_lem (suc fuel) (suc n) (c ∷ cs) b h e v =
    let (same, keep) = push_lem b c in
    let (out, run, (all, w, gone, zero_left)) =
      merge_loop_lem fuel (suc n - len c) cs (push b c) (omega arith)
        (omega (arith, length-concat_cons c cs)) (keep v) in
    (
      out,
      merge_step fuel (suc n) c cs b (omega arith) ∙ run,
      (rw (all, same) (append_assoc (contents b) (bytes c) (concat cs)), w, gone, zero_left),
    )

-- `merge` of valid buffers returns: the bytes of the source stand behind those of the target, in order,
-- `size_` of the target stays right, and the source is left without bytes.
merge_lem :
    (b source : Buffer)
    → IsValid b
    → IsValid source
    → (b' source' : Buffer) × (merge b source ≡ ok (b', source'))
      × (contents b' ≡ contents b ++ contents source)
      × IsValid b'
      × (contents source' ≡ [])
      × (source'.size ≡ 0)
unfolding merge
merge_lem b source v w =
    let ((b', source'), run, (all, u, gone, zero_left)) =
      merge_loop_lem (length source.chunk_dq + 1) source.size source.chunk_dq b (omega arith)
        w.counted v in
    (b', source', run, all, u, gone, zero_left)

double_at :
    (cs : List Str) (b : Buffer)
    → IsValid b
    → (b' : Buffer) × (double_queue cs b ≡ ok b') × (contents b' ≡ contents b) × IsValid b'
unfolding double_queue
double_at [] b v = (b, refl, refl, v)
double_at (c ∷ []) b v = (b, refl, refl, v)
double_at (c ∷ d ∷ cs) b v = merge_prefix_keeps b (max (len c * 2) (len c + len d)) v

-- `double_prefix` of a valid buffer returns, and keeps the bytes, their order and `size_`.
pub double_prefix_lem :
    (b : Buffer)
    → IsValid b
    → (b' : Buffer) × (double_prefix b ≡ ok b') × (contents b' ≡ contents b) × IsValid b'
unfolding double_prefix
double_prefix_lem b v = double_at b.chunk_dq b v

-- With two chunks or more, and bytes in the first two, `double_prefix` makes the first chunk at least
-- twice as long and at least as long as the first two together, unless that is all there is.
pub double_prefix_grows :
    (c d : Str) (cs : List Str) (n : ℕ)
    → n ≡ length (concat (c ∷ d ∷ cs))
    → 0 < len c + len d
    → (b' : Buffer) × (c' : Str) × (double_prefix (record { chunk_dq = c ∷ d ∷ cs; size = n })
        ≡ ok b')
      × (top b' ≡ ok c')
      × (bytes c' ≡ take (max (len c * 2) (len c + len d)) (concat (c ∷ d ∷ cs)))
      × (contents b' ≡ concat (c ∷ d ∷ cs))
      × IsValid b'
unfolding double_prefix double_queue
double_prefix_grows c d cs n e h =
    merge_prefix_lem (record { chunk_dq = c ∷ d ∷ cs; size = n }) (max (len c * 2) (len c + len d))
      (record { counted = e }) (omega arith)

grows_at :
    (cs : List Str) (n : ℕ) (c : Str)
    → IsValid (record { chunk_dq = cs; size = n })
    → top (record { chunk_dq = cs; size = n }) ≡ ok c
    → 0 < len c
    → bytes c ≢ concat cs
    → (b' : Buffer) × (c' : Str) × (double_prefix (record { chunk_dq = cs; size = n }) ≡ ok b')
      × (top b' ≡ ok c')
      × (len c < len c')
      × (contents b' ≡ concat cs)
      × IsValid b'
unfolding top
grows_at [] n c v h l ne = cc
grows_at (x ∷ []) n c v h l ne =
    absurd (ne (sym (append-nil (bytes c)) ∙ ap (λ k. bytes k ++ []) (same h)))
  where
    same : {x y : Str} → ok x ≡ ok y → y ≡ x
    same e = cc
grows_at (x ∷ y ∷ cs) n c v h l ne =
    let (b', c', run, first, bs, all, w) =
      double_prefix_grows x y cs n v.counted (omega (arith, ap len e)) in
    (b', c', run, first, longer c' bs, all, w)
  where
    e : c ≡ x
    e = cc

    cut : bytes c ++ concat (y ∷ cs) ≡ concat (x ∷ y ∷ cs)
    cut = ap (λ k. bytes k ++ concat (y ∷ cs)) e

    more : length (concat (y ∷ cs)) ≢ 0
    more z =
        ne (sym (append-nil (bytes c)) ∙ ap (λ k. bytes c ++ k) (sym (no_bytes _ (sym z))) ∙ cut)

    longer :
        (c' : Str)
        → bytes c' ≡ take (max (len x * 2) (len x + len y)) (concat (x ∷ y ∷ cs))
        → len c < len c'
    longer c' f = omega (
      arith,
      ap length f,
      length-take (max (len x * 2) (len x + len y)) (concat (x ∷ y ∷ cs)),
      ap len e,
      length-concat_cons x (y ∷ cs),
      more,
    )

-- As long as the first chunk is not empty and not all of the buffer, `double_prefix` makes it longer,
-- and keeps the bytes, their order and `size_`.
pub double_prefix_longer :
    (b : Buffer) (c : Str)
    → IsValid b
    → top b ≡ ok c
    → 0 < len c
    → bytes c ≢ contents b
    → (b' : Buffer) × (c' : Str) × (double_prefix b ≡ ok b')
      × (top b' ≡ ok c')
      × (len c < len c')
      × (contents b' ≡ contents b)
      × IsValid b'
double_prefix_longer b c v h l ne = grows_at b.chunk_dq b.size c v h l ne
