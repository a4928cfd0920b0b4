-- ===== src/Str/Digits.antt =====
-- `toi` and `Str(int, base)`: the number that a text of digits stands for.
use mathlib.Core.Path.{subst}
use ctornado.Base.{
  ==_iff, All, Bool, Bool-cases, Bytes, [], ap, arith, false, if◌then◌else◌, inl, inr, leb, length,
  negsuc, ok, pos, refl, some, suc, sym, true, zero, ℕ, ◌%◌, ◌*◌, ◌+◌, ◌-◌, ◌/◌, ◌<◌, ◌==◌, ◌^◌,
  ◌∙◌, ◌∷◌, ◌≡◌, ◌≢◌, ◌≤◌,
}
use ctornado.Chars.{is_digit}
use ctornado.Str.{text}
use ctornado.Str.Number.{as_int, hex_char, int_digits, of_int, toi, toi_loop}

-- the value of decimal digits behind `n`
abbrev pub value : ℕ → Bytes → ℕ
value n [] = n
value n (c ∷ s) = value (n * 10 + (c - b'0')) s

toi_loop_lem :
    (s : Bytes) (n : ℕ)
    → All (λ c. is_digit c ≡ true) s
    → toi_loop s (n % 2 ^ 32) ≡ some (value n s % 2 ^ 32)
unfolding toi_loop
toi_loop_lem [] n h = refl
toi_loop_lem (c ∷ s) n (d, h) =
    rw (d) (ap (toi_loop s) (word n (c - b'0')) ∙ toi_loop_lem s (n * 10 + (c - b'0')) h)
  where
    word : (n k : ℕ) → (n % 2 ^ 32 * 10 + k) % 2 ^ 32 ≡ (n * 10 + k) % 2 ^ 32
    word n k = omega arith

pub toi_lem :
    (s : Bytes)
    → All (λ c. is_digit c ≡ true) s
    → s ≢ []
    → toi (text s)
      ≡ (if leb (2 ^ 31) (value 0 s % 2 ^ 32) then negsuc 0 else pos (value 0 s % 2 ^ 32))
unfolding toi as_int
toi_lem [] h n = absurd (n refl)
toi_lem (c ∷ s) h n =
    ap (λ b. if b then negsuc 0 else as_int (toi_loop (c ∷ s) 0)) (not_zero (length s))
    ∙ ap as_int (toi_loop_lem (c ∷ s) 0 h)
  where
    not_zero : (n : ℕ) → (suc n == 0) ≡ false
    not_zero n = ground arith

-- the same for a value that an `int` holds
pub toi-value :
    (s : Bytes)
    → All (λ c. is_digit c ≡ true) s
    → s ≢ []
    → value 0 s < 2 ^ 31
    → toi (text s) ≡ pos (value 0 s)
toi-value s h n small = toi_lem s h n ∙ in_range (value 0 s) small
  where
    in_range :
        (k : ℕ)
        → k < 2 ^ 31
        → (if leb (2 ^ 31) (k % 2 ^ 32) then negsuc 0 else pos (k % 2 ^ 32)) ≡ pos k
    in_range k h = ground arith

hex_decimal : (d : ℕ) → d < 10 → (is_digit (hex_char d) ≡ true) × (hex_char d - b'0' ≡ d)
unfolding is_digit
hex_decimal d h = (ground arith, ground arith)

int_digits-All :
    (fuel i : ℕ) (out : Bytes)
    → All (λ c. is_digit c ≡ true) out
    → All (λ c. is_digit c ≡ true) (int_digits fuel 10 i out)
unfolding int_digits
int_digits-All zero i out h = h
int_digits-All (suc fuel) i out h =
    All-if (i / 10 == 0) _ _ ((hex_decimal (i % 10) (omega arith)).0, h)
      (int_digits-All fuel (i / 10) (hex_char (i % 10) ∷ out)
        ((hex_decimal (i % 10) (omega arith)).0, h))
  where
    All-if :
        (b : Bool) (x y : Bytes)
        → All (λ c. is_digit c ≡ true) x
        → All (λ c. is_digit c ≡ true) y
        → All (λ c. is_digit c ≡ true) (if b then x else y)
    All-if true x y p q = p
    All-if false x y p q = q

length-int_digits : (fuel i : ℕ) (out : Bytes) → length out ≤ length (int_digits fuel 10 i out)
unfolding int_digits
length-int_digits zero i out = omega arith
length-int_digits (suc fuel) i out = elim (Bool-cases (i / 10 == 0)) [
  | inl last ↦ rw (last) (omega arith)
  | inr more ↦ rw (more) (omega (arith, length-int_digits fuel (i / 10) (hex_char (i % 10) ∷ out)))
]

int_digits_pos : (fuel i : ℕ) (out : Bytes) → 0 < length (int_digits (suc fuel) 10 i out)
unfolding int_digits
int_digits_pos fuel i out = elim (Bool-cases (i / 10 == 0)) [
  | inl last ↦ rw (last) (omega arith)
  | inr more ↦ rw (more) (omega (arith, length-int_digits fuel (i / 10) (hex_char (i % 10) ∷ out)))
]

-- the rounds suffice for the number
Fits : ℕ → ℕ → Type 0
Fits zero i = i ≡ 0
Fits (suc fuel) i = Fits fuel (i / 10)

Fits-zero : (fuel : ℕ) → Fits fuel 0
unfolding Fits
Fits-zero zero = refl
Fits-zero (suc fuel) = Fits-zero fuel

Fits-int : (i : ℕ) → i < 2 ^ 31 → Fits 32 i
unfolding Fits
Fits-int i h = subst (Fits 22) (sym (gone (i / 10 / 10 / 10) (omega arith))) (Fits-zero 22)
  where
    gone : (j : ℕ) → j < 2147484 → j / 10 / 10 / 10 / 10 / 10 / 10 / 10 ≡ 0
    gone j h = omega arith

value-int_digits :
    (fuel i : ℕ) (out : Bytes) → Fits fuel i → value 0 (int_digits fuel 10 i out) ≡ value i out
unfolding int_digits Fits
value-int_digits zero i out h = ap (λ k. value k out) (sym h)
value-int_digits (suc fuel) i out h = elim (Bool-cases (i / 10 == 0)) [
  | inl last ↦ rw (last) (ap (λ k. value k out) (first (omega (arith, (==_iff (i / 10) 0).0 last))))
  | inr more ↦
      rw (more)
        (value-int_digits fuel (i / 10) (hex_char (i % 10) ∷ out) h ∙ ap (λ k. value k out) shifted)
]
  where
    first : i / 10 ≡ 0 → 0 * 10 + (hex_char (i % 10) - b'0') ≡ i
    first e = omega (arith, (hex_decimal (i % 10) (omega arith)).1)

    shifted : i / 10 * 10 + (hex_char (i % 10) - b'0') ≡ i
    shifted = omega (arith, (hex_decimal (i % 10) (omega arith)).1)

-- `toi` undoes `Str(i, 10)`: for every `int` that is not negative, the text is made, holds digits only,
-- and is read as that number.
pub toi-of_int :
    (i : ℕ)
    → i < 2 ^ 31
    → (s : Bytes) × (of_int (pos i) 10 ≡ ok (text s))
      × All (λ c. is_digit c ≡ true) s
      × (toi (text s) ≡ pos i)
unfolding of_int
toi-of_int i h = (
  digits,
  refl,
  digits-All,
  toi_lem digits digits-All nonempty
      ∙ small (value 0 digits) (value-int_digits 32 i [] (Fits-int i h)),
)
  where
    digits : Bytes
    digits = int_digits 32 10 i []

    digits-All : All (λ c. is_digit c ≡ true) digits
    digits-All = int_digits-All 32 i [] tt

    nonempty : digits ≢ []
    nonempty e = absurd (omega (arith, ap length e, int_digits_pos 31 i []))

    small :
        (v : ℕ) → v ≡ i → (if leb (2 ^ 31) (v % 2 ^ 32) then negsuc 0 else pos (v % 2 ^ 32)) ≡ pos i
    small v e = ground arith
