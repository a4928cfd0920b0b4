-- ===== src/Str/Exact.antt =====
-- The copies that count first and write then: `escape`, `retain` and `remove`.
use ctornado.Base.{
  ==_iff, All, All-append, Bool, Bool-cases, Bytes, [], ap, arith, false, if◌then◌else◌, inl, inr,
  length, length-append, ok, refl, true, ℕ, ◌%◌, ◌+◌, ◌-◌, ◌/◌, ◌<◌, ◌==◌, ◌∙◌, ◌∷◌, ◌≡◌, ◌≤◌,
}
use ctornado.Chars.{is_print, is_space}
use ctornado.Str.{text}
use ctornado.Str.Transform.{count_kept, keep, retain, sized}
use ctornado.Str.Number.{escape, escape_all, escape_char, escape_len, escape_space, hex_char}

pub sized_exact : (n : ℕ) (out : Bytes) → length out ≡ n → sized n out ≡ ok (text out)
unfolding sized
sized_exact n out e = rw ((==_iff (length out) n).1 e)

length-keep :
    (f : ℕ → Bool) (s : Bytes) (n : ℕ)
    → length s ≤ n
    → count_kept f s n ≡ length (keep f s) + (n - length s)
unfolding count_kept keep
length-keep f [] n h = omega arith
length-keep f (c ∷ s) n h = elim (Bool-cases (f c)) [
  | inl k ↦ rw (k) (omega (arith, length-keep f s n (omega arith)))
  | inr d ↦ rw (d) (omega (arith, length-keep f s (n - 1) (omega arith)))
]

-- `retain` fills its buffer exactly, with the bytes that pass the test, in order.
pub retain_exact : (f : ℕ → Bool) (s : Bytes) → retain f (text s) ≡ ok (text (keep f s))
unfolding retain
retain_exact f s =
    sized_exact (count_kept f s (length s)) (keep f s)
      (omega (arith, length-keep f s (length s) (omega arith)))

length-escape_space : (c : ℕ) → is_print c ≡ false → is_space c ≡ true → length (escape_space c) ≡ 1
unfolding escape_space is_print is_space
length-escape_space c h k = ground arith

escape_char_len :
    (c : ℕ) → length (escape_char c) ≡ (if is_print c then 1 else if is_space c then 2 else 4)
unfolding escape_char
escape_char_len c = elim (Bool-cases (is_print c)) [
  | inl p ↦ rw (p)
  | inr q ↦ elim (Bool-cases (is_space c)) [
    | inl s ↦ rw (q, s) (omega (arith, length-escape_space c q s))
    | inr n ↦ rw (q, n)
  ]
]

width : Bool → Bool → ℕ
width p q = if p then 1 else if q then 2 else 4

widen : (p q : Bool) (n : ℕ) → (if p then n else if q then n + 1 else n + 3) ≡ n + (width p q - 1)
unfolding width
widen true q n = omega arith
widen false true n = omega arith
widen false false n = omega arith

width_pos : (p q : Bool) → 0 < width p q
unfolding width
width_pos true q = omega arith
width_pos false true = omega arith
width_pos false false = omega arith

length-escape :
    (s : Bytes) (n : ℕ) → length s ≤ n → escape_len s n ≡ length (escape_all s) + (n - length s)
unfolding escape_len escape_all width
length-escape [] n h = omega arith
length-escape (c ∷ s) n h =
    ap (escape_len s) (widen (is_print c) (is_space c) n)
    ∙ omega (
      arith,
      length-escape s (n + (width (is_print c) (is_space c) - 1)) (omega arith),
      length-append (escape_char c) (escape_all s),
      escape_char_len c,
      width_pos (is_print c) (is_space c),
    )

abbrev pub IsShown : ℕ → Type 0
IsShown c = is_print c ≡ true

hex_char-IsShown : (d : ℕ) → d < 16 → IsShown (hex_char d)
unfolding is_print
hex_char-IsShown d h = ground arith

All-if : (b : Bool) (x y : Bytes) → All IsShown x → All IsShown y → All IsShown (if b then x else y)
All-if true x y h k = h
All-if false x y h k = k

escape_space-All : (c : ℕ) → All IsShown (escape_space c)
unfolding escape_space is_print
escape_space-All c =
    All-if (c == 9) _ _ (refl, tt)
      (All-if (c == 10) _ _ (refl, tt)
        (All-if (c == 11) _ _ (refl, tt)
          (All-if (c == 12) _ _ (refl, tt) (All-if (c == 13) _ _ (refl, tt) tt))))

backslash : IsShown b'\\'
unfolding is_print
backslash = refl

letter_x : IsShown b'x'
unfolding is_print
letter_x = refl

escape_char-All : (c : ℕ) → All IsShown (escape_char c)
unfolding escape_char
escape_char-All c = elim (Bool-cases (is_print c)) [
  | inl p ↦ rw (p) (p, tt)
  | inr q ↦
      rw (q) (
        All-if (is_space c) _ _ (backslash, escape_space-All c) (backslash, (letter_x, hex_digits)))
]
  where
    hex_digits : All IsShown (hex_char (c / 16 % 16) ∷ hex_char (c % 16) ∷ [])
    hex_digits = (
      hex_char-IsShown (c / 16 % 16) (omega arith),
      (hex_char-IsShown (c % 16) (omega arith), tt),
    )

escape_all-All : (s : Bytes) → All IsShown (escape_all s)
unfolding escape_all
escape_all-All [] = tt
escape_all-All (c ∷ s) =
    All-append IsShown (escape_char c) (escape_all s) (escape_char-All c) (escape_all-All s)

-- `escape` fills its buffer exactly, and all that it writes is printable ASCII.
pub escape_lem :
    (s : Bytes) → (escape (text s) ≡ ok (text (escape_all s))) × All IsShown (escape_all s)
unfolding escape
escape_lem s = (
  sized_exact (escape_len s (length s)) (escape_all s)
      (omega (arith, length-escape s (length s) (omega arith))),
  escape_all-All s,
)
