-- ===== src/Format/Spec.antt =====
-- How `vslprintf` and `vslprintf_len` read the flags of a directive and take a number.
use ctornado.Base.{
  Bool, Bytes, List, Result, [], err, false, fault, if◌then◌else◌, leb, none, ok, pos, some, suc,
  true, zero, ℕ, ℤ, ◌%◌, ◌&&◌, ◌*◌, ◌+◌, ◌-◌, ◌==◌, ◌>>=◌, ◌^◌, ◌||◌, ◌∷◌,
}
use ctornado.Str.{Str}
use ctornado.Format.Number.{
  Arg, Double, Spec, char_ptr, character, double, pointer, signed_int, size, str_ptr, unsigned_int,
}

-- `while (*fmt >= '0' && *fmt <= '9')`: the number and the rest of the format.
unfoldable pub read_digits : Bytes → ℕ → ℕ × Bytes
read_digits [] width = (width, [])
read_digits (c ∷ fmt) width =
    let rest = read_digits fmt (width * 10 + (c - b'0')) in
    if leb b'0' c && leb c b'9' then rest else (width, c ∷ fmt)

-- `va_arg(args, size_t)`
unfoldable pub take_size : List Arg → Result (ℕ × List Arg)
take_size (size n ∷ args) = ok (n, args)
take_size args = err fault

-- `for ( ;; ) switch (*fmt)`; `upper` is the value of `hex` for X.
unfoldable pub read_flags : ℕ → Bytes → Spec → List Arg → Result (Spec × Bytes × List Arg)
unfolding read_digits
read_flags upper [] sp args = ok (sp, [], args)
read_flags upper (c ∷ fmt) sp args =
    let on_u = read_flags upper fmt (record sp { sign = false }) args in
    let on_upper = read_flags upper fmt (record sp { hex = upper; sign = false }) args in
    let on_lower = read_flags upper fmt (record sp { hex = 1; sign = false }) args in
    let on_dot : Result (Spec × Bytes × List Arg) =
      (let (k, fmt') = read_digits fmt sp.frac_width in
        ok (record sp { frac_width = k }, fmt', args)) in
    let on_star : Result (Spec × Bytes × List Arg) =
      take_size args >>= λ (n, more). read_flags upper fmt (record sp { slen = some n }) more in
    if c == b'u'
    then on_u
    else if c == b'X'
    then on_upper
    else if c == b'x'
    then on_lower
    else if c == b'.'
    then on_dot
    else if c == b'*'
    then on_star
    else ok (sp, c ∷ fmt, args)

-- `zero = (*++fmt == '0') ? '0' : ' '`
unfoldable pub zero_flag : Bytes → ℕ
zero_flag [] = b' '
zero_flag (c ∷ fmt) = if c == b'0' then b'0' else b' '

-- the variables at the start of a directive, with its width
abbrev pub start_spec : ℕ → ℕ → Spec
start_spec zero_char width = record {
  zero_char = zero_char;
  width = width;
  sign = true;
  hex = 0;
  frac_width = 0;
  slen = none;
}

-- the start of a directive, behind its `%`
unfoldable pub read_spec : ℕ → Bytes → List Arg → Result (Spec × Bytes × List Arg)
unfolding read_flags read_digits zero_flag
read_spec upper fmt args =
    let (w, fmt') = read_digits fmt 0 in read_flags upper fmt' (start_spec (zero_flag fmt) w) args

-- `va_arg` for a number: the type that `sign` asks for must be the one that was passed.
unfoldable pub take_number : Bool → List Arg → Result (ℤ × List Arg)
take_number true (signed_int i ∷ args) = ok (i, args)
take_number false (unsigned_int n ∷ args) = ok (pos n, args)
take_number false (size n ∷ args) = ok (pos n, args)
take_number b args = err fault

-- `va_arg` for the other types
unfoldable pub take_str : List Arg → Result (Str × List Arg)
take_str (str_ptr s ∷ args) = ok (s, args)
take_str args = err fault

unfoldable pub take_chars : List Arg → Result (Bytes × List Arg)
take_chars (char_ptr p ∷ args) = ok (p, args)
take_chars args = err fault

unfoldable pub take_double : List Arg → Result (Double × List Arg)
take_double (double f ∷ args) = ok (f, args)
take_double args = err fault

unfoldable pub take_pointer : List Arg → Result (ℕ × List Arg)
take_pointer (pointer p ∷ args) = ok (p, args)
take_pointer args = err fault

unfoldable pub take_character : List Arg → Result (ℕ × List Arg)
take_character (character d ∷ args) = ok (d, args)
take_character args = err fault

-- `scale *= 10`, `frac_width` times
unfoldable pub scale_of : ℕ → ℕ
scale_of zero = 1
scale_of (suc k) = scale_of k * 10 % 2 ^ 64

-- `ui64` and `frac` of a double: a fraction that rounds up to the scale carries into the whole part.
unfoldable pub double_parts : ℕ → Double → ℕ × ℕ
double_parts frac_width f =
    let scale = scale_of frac_width in
    if frac_width == 0
    then (f.whole, 0)
    else if f.scaled scale == scale
    then (f.whole + 1, 0)
    else (f.whole, f.scaled scale)

unfoldable pub is_number : ℕ → Bool
is_number c = c == b'z' || (c == b'd' || (c == b'l' || (c == b'D' || c == b'L')))
