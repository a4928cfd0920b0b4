-- ===== src/Str/Occurs.antt =====
-- Searching in the front part of a text.
use mathlib.Core.Path.{ap₂}
use ctornado.Base.{
  Bool-cases, Bytes, Option, Option-cases, [], ap, arith, inl, inr, leb, length, length-append,
  le→leb, none, refl, some, suc, sym, take, take_append_le, ℕ, ◌&&◌, ◌++◌, ◌+◌, ◌∙◌, ◌∷◌, ◌≡◌, ◌≤◌,
}
use ctornado.Str.{eq_bytes}
use ctornado.Str.View.{}
use ctornado.Str.Find.{further, memmem}

pub some-suc : (r : Option ℕ) {j : ℕ} → further r ≡ some j → (i : ℕ) × (r ≡ some i) × (j ≡ suc i)
some-suc none h = cc
some-suc (some i) {j} h = (i, refl, ground arith)

-- An occurrence leaves room for the pattern.
pub memmem_room : (s d : Bytes) (i : ℕ) → memmem s d ≡ some i → i + length d ≤ length s
unfolding memmem
memmem_room [] [] i h = ground arith
memmem_room [] (y ∷ d) i h = cc
memmem_room (c ∷ s) d i h =
    elim (Bool-cases (leb (length d) (suc (length s)) && eq_bytes (take (length d) (c ∷ s)) d)) [
      | inl here ↦ ground (arith)
      | inr past ↦
          let (k, e, f) = some-suc (memmem s d) (rw past at h) in
          ground (arith, memmem_room s d k e)
    ]

take_front_same :
    (s t d : Bytes) → length d ≤ length s → take (length d) (s ++ t) ≡ take (length d) s
take_front_same s t d h = take_append_le (length d) s t h

tests_same :
    (c : ℕ) (s t d : Bytes)
    → length d ≤ suc (length s)
    → (leb (length d) (suc (length (s ++ t))) && eq_bytes (take (length d) (c ∷ (s ++ t))) d)
      ≡ (leb (length d) (suc (length s)) && eq_bytes (take (length d) (c ∷ s)) d)
tests_same c s t d h =
    ap₂ ◌&&◌ (le→leb _ _ (omega (arith, length-append s t)) ∙ sym (le→leb _ _ h))
      (ap (λ k. eq_bytes k d) (take_front_same (c ∷ s) t d h))

-- The first occurrence in the front part of a text is the first in the text.
pub memmem-append : (s t d : Bytes) (i : ℕ) → memmem s d ≡ some i → memmem (s ++ t) d ≡ some i
unfolding memmem
memmem-append [] [] [] i h = h
memmem-append [] (y ∷ t) [] i h = unfold eq_bytes in ground arith
memmem-append [] t (y ∷ d) i h = cc
memmem-append (c ∷ s) t d i h =
    let fits = memmem_room (c ∷ s) d i h in
    let tests = tests_same c s t d (omega (arith, fits)) in
    elim (Bool-cases (leb (length d) (suc (length s)) && eq_bytes (take (length d) (c ∷ s)) d)) [
      | inl here ↦ rw (tests, here) (rw here at h)
      | inr past ↦
          let (k, e, f) = some-suc (memmem s d) (rw past at h) in
          rw (tests, past, memmem-append s t d k e) (ap some (sym f))
    ]

-- What is nowhere in a text is nowhere in its front part.
pub memmem-none_front : (s t d : Bytes) → memmem (s ++ t) d ≡ none → memmem s d ≡ none
memmem-none_front s t d h = elim (Option-cases (memmem s d)) [
  | inl absent ↦ absent
  | inr (i, found) ↦ cc (memmem-append s t d i found)
]
