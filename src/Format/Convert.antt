-- ===== src/Format/Convert.antt =====
-- The conversions of `vslprintf` and of `vslprintf_len`.
use ctornado.Base.{
  Bool, Bytes, List, Option, Result, [], abs, err, false, fault, if◌then◌else◌, is_negative, leb,
  length, ltb, min, none, ok, pos, some, suc, take, true, ℕ, ℤ, ◌%◌, ◌++◌, ◌+◌, ◌-◌, ◌==◌, ◌>>=◌,
  ◌∷◌,
}
use ctornado.Str.{bytes, len}
use ctornado.Format.Number.{Arg, Double, Spec, ptr_width, sprintf_num, sprintf_num_len}
use ctornado.Format.Spec.{
  double_parts, is_number, take_character, take_chars, take_double, take_number, take_pointer,
  take_str,
}

-- the end of a numeric directive: a minus sign, written without a check, and the digits
unfoldable pub print_number : ℕ → Spec → ℤ → Bytes
print_number room sp i =
    if is_negative i
    then b'-' ∷ sprintf_num (room - 1) (abs i) sp.zero_char sp.hex sp.width
    else sprintf_num room (abs i) sp.zero_char sp.hex sp.width

-- the sign and the whole part of `%f`
unfoldable pub double_front : ℕ → Spec → Bool → ℕ → Bytes
double_front room sp true whole = b'-' ∷ sprintf_num (room - 1) whole sp.zero_char 0 sp.width
double_front room sp false whole = sprintf_num room whole sp.zero_char 0 sp.width

-- the point, if there is room for it, and the fraction
unfoldable pub double_tail : ℕ → ℕ → ℕ → Bytes
double_tail room frac frac_width =
    let dot : Bytes = (if ltb 0 room then b'.' ∷ [] else []) in
    dot ++ sprintf_num (room - length dot) frac b'0' 0 frac_width

unfoldable pub print_double : ℕ → Spec → Double → Bytes
print_double room sp f =
    let (whole, frac) = double_parts sp.frac_width f in
    let front = double_front room sp f.negative whole in
    if sp.frac_width == 0
    then front
    else front ++ double_tail (room - length front) frac sp.frac_width

-- `%s` with a length copies that many bytes, which must be there.
unfoldable pub print_chars : ℕ → Option ℕ → Bytes → Result Bytes
print_chars room none p = ok (take room p)
print_chars room (some slen) p =
    if leb (min room slen) (length p) then ok (take (min room slen) p) else err fault

-- `%p`: the variables are set anew, but for those that a number does not use.
abbrev pub pointer_spec : ℕ → Spec → Spec
pointer_spec hex sp = record sp { hex = hex; zero_char = b'0'; width = ptr_width }

-- `switch (*fmt)` of `vslprintf`: the bytes written and the arguments left.
unfoldable pub convert : ℕ → Spec → ℕ → List Arg → Result (Bytes × List Arg)
convert room sp c args =
    if c == b'S'
    then (take_str args >>= λ (s, more). ok (take room (bytes s), more))
    else if c == b's'
    then (take_chars args >>= λ (p, more). print_chars room sp.slen p >>= λ out. ok (out, more))
    else if c == b'T'
    then (take_number true args >>= λ (i, more). ok (print_number room sp i, more))
    else if is_number c
    then (take_number sp.sign args >>= λ (i, more). ok (print_number room sp i, more))
    else if c == b'f'
    then (take_double args >>= λ (f, more). ok (print_double room sp f, more))
    else if c == b'p'
    then (take_pointer args >>= λ (p, more).
        ok (print_number room (pointer_spec 2 sp) (pos p), more))
    else if c == b'c'
    then (take_character args >>= λ (d, more). ok ((d % 256) ∷ [], more))
    else if c == b'Z'
    then ok (0 ∷ [], args)
    else if c == b'N'
    then ok (b'\n' ∷ [], args)
    else ok (c ∷ [], args)

-- the end of a numeric directive in the counting pass
unfoldable pub number_len : Spec → ℤ → ℕ
number_len sp i =
    if is_negative i
    then suc (sprintf_num_len (abs i) sp.hex sp.width)
    else sprintf_num_len (abs i) sp.hex sp.width

unfoldable pub double_len : Spec → Double → ℕ
double_len sp f =
    let (whole, frac) = double_parts sp.frac_width f in
    let front = (if f.negative then 1 else 0) + sprintf_num_len whole 0 sp.width in
    if sp.frac_width == 0 then front else front + (sprintf_num_len frac 0 sp.frac_width + 1)

-- `n += slen` or `n += strlen(p)`
unfoldable pub chars_len : Option ℕ → Bytes → ℕ
chars_len none p = length p
chars_len (some slen) p = slen

-- `switch (*fmt)` of `vslprintf_len`: what is added to `n`, and the arguments left.
unfoldable pub convert_len : Spec → ℕ → List Arg → Result (ℕ × List Arg)
convert_len sp c args =
    if c == b'S'
    then (take_str args >>= λ (s, more). ok (len s, more))
    else if c == b's'
    then (take_chars args >>= λ (p, more). ok (chars_len sp.slen p, more))
    else if c == b'T'
    then (take_number true args >>= λ (i, more). ok (number_len sp i, more))
    else if is_number c
    then (take_number sp.sign args >>= λ (i, more). ok (number_len sp i, more))
    else if c == b'f'
    then (take_double args >>= λ (f, more). ok (double_len sp f, more))
    else if c == b'p'
    then (take_pointer args >>= λ (p, more). ok (number_len (pointer_spec 1 sp) (pos p), more))
    else if c == b'c'
    then (take_character args >>= λ (d, more). ok (1, more))
    else ok (1, args)
