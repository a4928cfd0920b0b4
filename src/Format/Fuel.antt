-- ===== src/Format/Fuel.antt =====
-- The fuel of the two passes is enough: every round reads a byte of the format.
use mathlib.Core.Path.{subst}
use ctornado.Base.{
  Bool, Bytes, List, Result, [], arith, err, false, fault, if◌then◌else◌, length, no_fuel, ok,
  out_of_range, suc, true, zero, ℕ, ◌*◌, ◌+◌, ◌-◌, ◌<◌, ◌==◌, ◌>>=◌, ◌∷◌, ◌≢◌, ◌≤◌,
}
use ctornado.Str.{}
use ctornado.Format.Number.{
  Arg, Spec, char_ptr, character, double, pointer, signed_int, size, str_ptr, unsigned_int,
}
use ctornado.Format.Spec.{
  is_number, read_digits, read_flags, read_spec, start_spec, take_character, take_chars,
  take_double, take_number, take_pointer, take_size, take_str, zero_flag,
}
use ctornado.Format.Convert.{convert_len}
use ctornado.Format.Passes.{count_loop, directive_len, vslprintf_len}

-- A call that did not stop for want of fuel.
abbrev pub Ended {ℓ} : {A : Type ℓ} → Result A → Type 0
Ended (ok a) = Unit
Ended (err no_fuel) = ⊥
Ended (err fault) = Unit
Ended (err out_of_range) = Unit

Ended-bind {ℓ κ} :
    {A : Type ℓ} {B : Type κ} (r : Result A) (f : A → Result B)
    → Ended r
    → ((a : A) → Ended (f a))
    → Ended (r >>= f)
Ended-bind (ok a) f e h = h a
Ended-bind (err no_fuel) f e h = e
Ended-bind (err fault) f e h = tt
Ended-bind (err out_of_range) f e h = tt

Ended-if {ℓ} :
    {A : Type ℓ} (b : Bool) (x y : Result A) → Ended x → Ended y → Ended (if b then x else y)
Ended-if true x y h k = h
Ended-if false x y h k = k

-- what is left of a format behind the flags
abbrev Left : ℕ → Result (Spec × Bytes × List Arg) → Type 0
Left n (ok (sp, fmt, args)) = length fmt ≤ n
Left n (err no_fuel) = ⊥
Left n (err fault) = Unit
Left n (err out_of_range) = Unit

Left-if :
    (n : ℕ) (b : Bool) (x y : Result (Spec × Bytes × List Arg))
    → Left n x
    → Left n y
    → Left n (if b then x else y)
Left-if n true x y h k = h
Left-if n false x y h k = k

Left-more : (n m : ℕ) (r : Result (Spec × Bytes × List Arg)) → n ≤ m → Left n r → Left m r
Left-more n m (ok (sp, fmt, args)) h l = omega arith
Left-more n m (err no_fuel) h l = l
Left-more n m (err fault) h l = tt
Left-more n m (err out_of_range) h l = tt

digits_left : (fmt : Bytes) (w : ℕ) → length (read_digits fmt w).1 ≤ length fmt
unfolding read_digits
digits_left [] w = omega arith
digits_left (c ∷ fmt) w = ground (arith, digits_left fmt (w * 10 + (c - b'0')))

star-Left :
    (n : ℕ) (args : List Arg) (f : ℕ × List Arg → Result (Spec × Bytes × List Arg))
    → ((k : ℕ) (more : List Arg) → Left n (f (k, more)))
    → Left n (take_size args >>= f)
unfolding take_size
star-Left n (size k ∷ args) f h = h k args
star-Left n _ f h = tt

flags-Left :
    (upper : ℕ) (fmt : Bytes) (sp : Spec) (args : List Arg)
    → Left (length fmt) (read_flags upper fmt sp args)
unfolding read_flags
flags-Left upper [] sp args = omega arith
flags-Left upper (c ∷ fmt) sp args =
    Left-if n (c == b'u') _ _ (Left-more _ n _ (omega arith) (flags-Left upper fmt _ args)) (
      Left-if n (c == b'X') _ _ (Left-more _ n _ (omega arith) (flags-Left upper fmt _ args)) (
        Left-if n (c == b'x') _ _ (Left-more _ n _ (omega arith) (flags-Left upper fmt _ args)) (
          Left-if n (c == b'.') _ _ (omega (arith, digits_left fmt sp.frac_width)) (
            Left-if n (c == b'*') _ _
              (star-Left n args _
                (λ k more. Left-more _ n _ (omega arith) (flags-Left upper fmt _ more)))
              (omega arith)))))
  where
    n : ℕ
    n = suc (length fmt)

spec-Left :
    (upper : ℕ) (fmt : Bytes) (args : List Arg) → Left (length fmt) (read_spec upper fmt args)
unfolding read_spec
spec-Left upper fmt args =
    Left-more _ _ _ (digits_left fmt 0) (
      flags-Left upper (read_digits fmt 0).1 (start_spec (zero_flag fmt) (read_digits fmt 0).0)
        args)

take-Ended {ℓ κ} :
    {X : Type ℓ} {Y : Type κ} (t : Result (X × List Arg)) (f : X × List Arg → Result Y)
    → Ended t
    → ((x : X) (args : List Arg) → Ended (f (x, args)))
    → Ended (t >>= f)
take-Ended t f e h = Ended-bind t f e (λ (x, args). h x args)

number-Ended : (b : Bool) (args : List Arg) → Ended (take_number b args)
unfolding take_number
number-Ended true (signed_int i ∷ args) = tt
number-Ended true _ = tt
number-Ended false (unsigned_int i ∷ args) = tt
number-Ended false (size i ∷ args) = tt
number-Ended false _ = tt

str-Ended : (args : List Arg) → Ended (take_str args)
unfolding take_str
str-Ended (str_ptr s ∷ args) = tt
str-Ended _ = tt

chars-Ended : (args : List Arg) → Ended (take_chars args)
unfolding take_chars
chars-Ended (char_ptr s ∷ args) = tt
chars-Ended _ = tt

double-Ended : (args : List Arg) → Ended (take_double args)
unfolding take_double
double-Ended (double s ∷ args) = tt
double-Ended _ = tt

pointer-Ended : (args : List Arg) → Ended (take_pointer args)
unfolding take_pointer
pointer-Ended (pointer s ∷ args) = tt
pointer-Ended _ = tt

character-Ended : (args : List Arg) → Ended (take_character args)
unfolding take_character
character-Ended (character s ∷ args) = tt
character-Ended _ = tt

convert_len-Ended : (sp : Spec) (c : ℕ) (args : List Arg) → Ended (convert_len sp c args)
unfolding convert_len
convert_len-Ended sp c args =
    Ended-if (c == b'S') _ _ (take-Ended (take_str args) _ (str-Ended args) (λ x more. tt)) (
      Ended-if (c == b's') _ _ (take-Ended (take_chars args) _ (chars-Ended args) (λ x more. tt)) (
        Ended-if (c == b'T') _ _
          (take-Ended (take_number true args) _ (number-Ended true args) (λ x more. tt))
          (Ended-if (is_number c) _ _
            (take-Ended (take_number sp.sign args) _ (number-Ended sp.sign args) (λ x more. tt))
            (Ended-if (c == b'f') _ _
              (take-Ended (take_double args) _ (double-Ended args) (λ x more. tt))
              (Ended-if (c == b'p') _ _
                (take-Ended (take_pointer args) _ (pointer-Ended args) (λ x more. tt))
                (Ended-if (c == b'c') _ _
                  (take-Ended (take_character args) _ (character-Ended args) (λ x more. tt))
                  tt))))))

spec-Ended :
    (n : ℕ) (r : Result (Spec × Bytes × List Arg)) (f : Spec × Bytes × List Arg → Result ℕ)
    → Left n r
    → ((sp : Spec) (fmt : Bytes) (args : List Arg) → length fmt ≤ n → Ended (f (sp, fmt, args)))
    → Ended (r >>= f)
spec-Ended n (ok (sp, fmt, args)) f l h = h sp fmt args l
spec-Ended n (err no_fuel) f l h = l
spec-Ended n (err fault) f l h = tt
spec-Ended n (err out_of_range) f l h = tt

directive-Ended :
    (n : ℕ) (next : ℕ × List Arg → Bytes → Result ℕ) (sp : Spec) (fmt : Bytes) (args : List Arg)
    → length fmt ≤ n
    → ((k : ℕ) (more : List Arg) (rest : Bytes) → length rest < n → Ended (next (k, more) rest))
    → Ended (directive_len next (sp, fmt, args))
unfolding directive_len
directive-Ended n next sp [] args l h = tt
directive-Ended n next sp (c ∷ fmt) args l h =
    take-Ended (convert_len sp c args) _ (convert_len-Ended sp c args)
      (λ k more. h k more fmt (omega arith))

count-Ended :
    (fuel : ℕ) (fmt : Bytes) (args : List Arg)
    → length fmt < fuel
    → Ended (count_loop fuel fmt args)
unfolding count_loop
count-Ended zero fmt args h = absurd (omega arith)
count-Ended (suc fuel) [] args h = tt
count-Ended (suc fuel) (c ∷ fmt) args h =
    Ended-if (c == b'%') _ _
      (spec-Ended (length fmt) (read_spec 1 fmt args) _ (spec-Left 1 fmt args) (λ sp fmt' more l.
        directive-Ended (length fmt) _ sp fmt' more l (λ k more' rest q.
          Ended-bind (count_loop fuel rest more') _ (count-Ended fuel rest more' (omega arith))
            (λ m. tt))))
      (Ended-bind (count_loop fuel fmt args) _ (count-Ended fuel fmt args (omega arith)) (λ m. tt))

-- The counting pass ends: it returns a count, or reads what is not there (an argument of another type,
-- or a format that a directive runs out of), for every format and all arguments.
vslprintf_len_ended : (fmt : Bytes) (args : List Arg) → vslprintf_len fmt args ≢ err no_fuel
unfolding vslprintf_len
vslprintf_len_ended fmt args e = subst Ended e (count-Ended (length fmt + 1) fmt args (omega arith))
