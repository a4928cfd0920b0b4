-- ===== src/Str/Cuts.antt =====
-- `substr` at places that are known as lengths of what stands in front, and `operator[]` in range.
use mathlib.Core.Path.{ap₂}
use ctornado.Base.{
  ==_iff, Bool-cases, Bytes, [], ap, arith, drop, inl, inr, length, length-append, none, ok, refl,
  some, suc, take, zero, ℕ, ◌++◌, ◌+◌, ◌-◌, ◌<◌, ◌==◌, ◌∙◌, ◌∷◌, ◌≡◌,
}
use ctornado.Str.{char_at, last_char, substr, text}
use ctornado.Str.View.{substr_rest, substr_text}
use ctornado.Str.Split.{take_self_append}

pub drop_self : (a t : Bytes) → drop (length a) (a ++ t) ≡ t
drop_self [] t = refl
drop_self (x ∷ a) t = drop_self a t

pub front_of : (l t : Bytes) → substr (text (l ++ t)) 0 (some (length l)) ≡ ok (text l)
front_of l t =
    substr_text (l ++ t) 0 (length l) (omega arith) (omega (arith, length-append l t))
    ∙ ap (λ k. ok (text k)) (ap (λ n. take n (l ++ t)) (omega arith) ∙ take_self_append l t)

pub back_of : (l t : Bytes) → substr (text (l ++ t)) (length l) none ≡ ok (text t)
back_of l t =
    substr_rest (l ++ t) (length l) (omega (arith, length-append l t))
    ∙ ap (λ k. ok (text k)) (drop_self l t)

middle_of :
    (a b t : Bytes)
    → substr (text (a ++ (b ++ t))) (length a) (some (length a + length b)) ≡ ok (text b)
middle_of a b t =
    substr_text (a ++ (b ++ t)) (length a) (length a + length b) (omega arith)
      (omega (arith, length-append a (b ++ t), length-append b t))
    ∙ ap (λ k. ok (text k))
        (ap₂ (λ n s. take n s) (omega arith) (drop_self a (b ++ t)) ∙ take_self_append b t)

-- the bytes `b` behind the `i` bytes of `a`
pub middle_at :
    {s : Bytes} {i j : ℕ} (a b t : Bytes)
    → s ≡ a ++ (b ++ t)
    → i ≡ length a
    → j ≡ length a + length b
    → substr (text s) i (some j) ≡ ok (text b)
middle_at a b t e f g = rw (e, f, g) (middle_of a b t)

pub back_at :
    {s : Bytes} {i : ℕ} (a t : Bytes)
    → s ≡ a ++ t
    → i ≡ length a
    → substr (text s) i none ≡ ok (text t)
back_at a t e f = rw (e, f) (back_of a t)

pub char_at_ok : (s : Bytes) (i : ℕ) → i < length s → (c : ℕ) × (char_at (text s) i ≡ ok c)
unfolding char_at
char_at_ok [] i h = absurd (omega arith)
char_at_ok (x ∷ s) zero h = (x, refl)
char_at_ok (x ∷ s) (suc i) h = char_at_ok s i (omega arith)

pub last_char_ok : (s : Bytes) → 0 < length s → (c : ℕ) × (last_char (text s) ≡ ok c)
unfolding last_char
last_char_ok s h = elim (Bool-cases (length s == 0)) [
  | inl nothing ↦ absurd (omega (arith, (==_iff (length s) 0).0 nothing))
  | inr some_bytes ↦
      let (c, e) = char_at_ok s (length s - 1) (omega arith) in (c, rw (some_bytes) e)
]
