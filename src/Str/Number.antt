-- ===== src/Str/Number.antt =====
-- `Str(int, base)`, `toi` and `escape` of src/lib/string.cc.
use ctornado.Base.{
  Bytes, Option, Result, [], err, fault, if◌then◌else◌, leb, length, ltb, negsuc, none, ok, pos,
  some, suc, zero, ℕ, ℤ, ◌%◌, ◌&&◌, ◌*◌, ◌++◌, ◌+◌, ◌-◌, ◌/◌, ◌==◌, ◌^◌, ◌∷◌,
}
use ctornado.Chars.{is_digit, is_print, is_space}
use ctornado.Str.Transform.{sized}
use ctornado.Str.{Str, bytes, len, null, text}

-- `_hex[d]`
abbrev pub hex_char : ℕ → ℕ
hex_char d = if ltb d 10 then d + b'0' else d - 10 + b'a'

-- `do { *tp++ = _hex[i % base]; i /= base; } while (i > 0)`, read from the back. No number of 32 bits
-- makes more than 32 rounds.
unfoldable pub int_digits : ℕ → ℕ → ℕ → Bytes → Bytes
int_digits zero base i out = out
int_digits (suc fuel) base i out =
    let out' = hex_char (i % base) ∷ out in
    let rest = int_digits fuel base (i / base) out' in if i / base == 0 then out' else rest

-- `Str(int, base)`, with its ASSERT. The negative of the least `int` is no `int`.
unfoldable pub of_int : ℤ → ℕ → Result Str
unfolding int_digits
of_int (pos i) base =
    if leb 8 base && leb base 16 then ok (text (int_digits 32 base i [])) else err fault
of_int (negsuc n) base =
    if leb 8 base && (leb base 16 && ltb n (2 ^ 31 - 1))
    then ok (text (b'-' ∷ int_digits 32 base (suc n) []))
    else err fault

-- The loop of `toi`: `i` is kept as a word of 32 bits, and the test `i < 0` behind the loop reads its
-- highest bit.
unfoldable pub toi_loop : Bytes → ℕ → Option ℕ
toi_loop [] i = some i
toi_loop (c ∷ s) i =
    let rest = toi_loop s ((i * 10 + (c - b'0')) % 2 ^ 32) in if is_digit c then rest else none

-- the return value of `toi` for the word that the loop ends with
unfoldable pub as_int : Option ℕ → ℤ
as_int none = negsuc 0
as_int (some i) = if leb (2 ^ 31) i then negsuc 0 else pos i

unfoldable pub toi : Str → ℤ
unfolding toi_loop as_int
toi s = if len s == 0 then negsuc 0 else as_int (toi_loop (bytes s) 0)

-- the first loop of `escape`
unfoldable pub escape_len : Bytes → ℕ → ℕ
escape_len [] n = n
escape_len (c ∷ s) n = escape_len s (if is_print c then n else if is_space c then n + 1 else n + 3)

-- `switch (*pos)` for a space that is not printed
unfoldable pub escape_space : ℕ → Bytes
escape_space c =
    if c == 9
    then b't' ∷ []
    else if c == 10
    then b'n' ∷ []
    else if c == 11
    then b'v' ∷ []
    else if c == 12
    then b'f' ∷ []
    else if c == 13
    then b'r' ∷ []
    else []

unfoldable pub escape_char : ℕ → Bytes
unfolding escape_space
escape_char c =
    if is_print c
    then c ∷ []
    else if is_space c
    then b'\\' ∷ escape_space c
    else b'\\' ∷ b'x' ∷ hex_char (c / 16 % 16) ∷ hex_char (c % 16) ∷ []

-- the second loop of `escape`
unfoldable pub escape_all : Bytes → Bytes
unfolding escape_char
escape_all [] = []
escape_all (c ∷ s) = escape_char c ++ escape_all s

unfoldable pub escape : Str → Result Str
unfolding escape_len escape_all sized
escape null = err fault
escape (text s) = sized (escape_len s (length s)) (escape_all s)
