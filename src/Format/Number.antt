-- ===== src/Format/Number.antt =====
-- Numbers: `_sprintf_num` and `_sprintf_num_len` of src/lib/string.cc, and what the two passes share.
use ctornado.Base.{
  Bool, Bytes, Option, [], if◌then◌else◌, leb, length, ltb, max, min, replicate, suc, take, zero, ℕ,
  ℤ, ◌%◌, ◌++◌, ◌+◌, ◌-◌, ◌/◌, ◌==◌, ◌^◌, ◌∷◌,
}
use ctornado.Str.{Str}

-- What the code reads off a double `f`: whether it is below 0, the whole part of its absolute value,
-- and that of (fraction * scale + 0.5).
pub record Double : Type 0 where
  pub negative : Bool
  pub whole : ℕ
  pub scaled : ℕ → ℕ

-- `char_ptr p` points to the bytes `p` and a NUL.
pub data Arg : Type 0 where
  signed_int : ℤ → Arg
  unsigned_int : ℕ → Arg
  size : ℕ → Arg
  str_ptr : Str → Arg
  char_ptr : Bytes → Arg
  double : Double → Arg
  pointer : ℕ → Arg
  character : ℕ → Arg

-- the variables that a directive sets before its conversion
pub record Spec : Type 0 where
  pub zero_char : ℕ
  pub width : ℕ
  pub sign : Bool
  pub hex : ℕ
  pub frac_width : ℕ
  pub slen : Option ℕ

abbrev pub u32_max : ℕ
u32_max = 2 ^ 32 - 1

-- `PTR_SIZE * 2` on a 64-bit machine
abbrev pub ptr_width : ℕ
ptr_width = 16

-- `_hex[d]` and `_HEX[d]`; a decimal digit is below 10.
abbrev pub digit_char : ℕ → ℕ → ℕ
digit_char letter d = if ltb d 10 then d + b'0' else d - 10 + letter

-- The loops `do { *--p = …; } while (n /= base)`. No number of 64 bits makes more than 64 rounds.
abbrev pub rounds : ℕ
rounds = 64

unfoldable pub emit : ℕ → ℕ → ℕ → ℕ → Bytes → Bytes
emit zero base letter n temp = temp
emit (suc fuel) base letter n temp =
    let temp' = digit_char letter (n % base) ∷ temp in
    let rest = emit fuel base letter (n / base) temp' in if n / base == 0 then temp' else rest

unfoldable pub digits : ℕ → ℕ → Bytes
digits ui64 hexadecimal =
    if hexadecimal == 0
    then (if leb ui64 u32_max
        then emit rounds 10 b'a' (ui64 % 2 ^ 32) []
        else emit rounds 10 b'a' ui64 [])
    else if hexadecimal == 1
    then emit rounds 16 b'a' ui64 []
    else emit rounds 16 b'A' ui64 []

-- `_sprintf_num` with `room` bytes between `buf` and `end`: the bytes that it writes.
unfoldable pub sprintf_num : ℕ → ℕ → ℕ → ℕ → ℕ → Bytes
sprintf_num room ui64 zero_char hexadecimal width =
    let ds = digits ui64 hexadecimal in
    let padding = replicate (min (width - length ds) room) zero_char in
    padding ++ take (room - length padding) ds

unfoldable pub count_rounds : ℕ → ℕ → ℕ → ℕ
count_rounds zero base n = 0
count_rounds (suc fuel) base n =
    let rest = suc (count_rounds fuel base (n / base)) in if n / base == 0 then 1 else rest

-- `_sprintf_num_len`
unfoldable pub sprintf_num_len : ℕ → ℕ → ℕ → ℕ
sprintf_num_len ui64 hexadecimal width =
    let n =
      (if hexadecimal == 0
        then (if leb ui64 u32_max
            then count_rounds rounds 10 (ui64 % 2 ^ 32)
            else count_rounds rounds 10 ui64)
        else count_rounds rounds 16 ui64) in
    max n width
