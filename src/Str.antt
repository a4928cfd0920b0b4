-- ===== src/Str.antt =====
-- The class Str of src/lib/string.h: values and the operations on positions.
pub mod View
pub mod Find
pub mod Split
pub mod Range
pub mod Pieces
pub mod Cuts
pub mod Counts
pub mod Occurs
pub mod Transform
pub mod Number
pub mod Exact
pub mod Lines
pub mod Digits
use ctornado.Base.{
  Bool, Bytes, Option, Result, [], drop, err, false, fault, get_elem?, if◌then◌else◌, leb, length,
  none, ok, out_of_range, some, take, true, ℕ, ◌&&◌, ◌++◌, ◌-◌, ◌==◌, ◌∷◌,
}

-- `null` has a null data pointer (`nullstr`); `text bs` points to the bytes `bs`. The views that
-- share one counted buffer never write to it, so a view is its bytes.
pub data Str : Type 0 where
  null : Str
  text : Bytes → Str

abbrev pub bytes : Str → Bytes
bytes null = []
bytes (text bs) = bs

abbrev pub len : Str → ℕ
len s = length (bytes s)

-- `memcmp(a, b, n) == 0` for two areas of one length
unfoldable pub eq_bytes : Bytes → Bytes → Bool
eq_bytes [] [] = true
eq_bytes [] (y ∷ ys) = false
eq_bytes (x ∷ xs) [] = false
eq_bytes (x ∷ xs) (y ∷ ys) = x == y && eq_bytes xs ys

-- `STR_VALID_POS`: the position -1, `none` here, is the end.
abbrev pub valid_pos : Option ℕ → ℕ → ℕ
valid_pos none n = n
valid_pos (some p) n = p

-- `substr(start, end)`; positions out of order or out of range make a view outside the string, and a
-- null string fails the ASSERT.
unfoldable pub substr : Str → ℕ → Option ℕ → Result Str
substr null start end = err fault
substr (text bs) start end =
    let e = valid_pos end (length bs) in
    if leb start e && leb e (length bs)
    then ok (text (take (e - start) (drop start bs)))
    else err fault

-- `eq`: two null strings are equal, a null one equals no other.
unfoldable pub eq : Str → Str → Bool
unfolding eq_bytes
eq null null = true
eq null (text b) = false
eq (text a) null = false
eq (text a) (text b) = eq_bytes a b

unfoldable pub is_null : Str → Bool
is_null null = true
is_null (text b) = false

-- `operator[]` for an index from the front.
unfoldable pub char_at : Str → ℕ → Result ℕ
char_at s i = elim (get_elem? (bytes s) i) [ none ↦ err out_of_range | some c ↦ ok c ]

-- `operator[](-1)`
unfoldable pub last_char : Str → Result ℕ
last_char s = if len s == 0 then err out_of_range else char_at s (len s - 1)

unfoldable pub starts_with : Str → Str → Bool
unfolding eq_bytes
starts_with null p = false
starts_with (text s) null = false
starts_with (text s) (text p) = leb (length p) (length s) && eq_bytes (take (length p) s) p

unfoldable pub ends_with : Str → Str → Bool
unfolding eq_bytes
ends_with null p = false
ends_with (text s) null = false
ends_with (text s) (text p) = leb (length p) (length s) && eq_bytes (drop (length s - length p) s) p

-- `remove_prefix(n)`, with its ASSERT.
unfoldable pub remove_prefix : Str → ℕ → Result Str
remove_prefix null n = if n == 0 then ok null else err fault
remove_prefix (text s) n = if leb n (length s) then ok (text (drop n s)) else err fault

-- `concat`, of strings that are not null.
unfoldable pub concat : Str → Str → Result Str
concat null t = err fault
concat (text a) null = err fault
concat (text a) (text b) = ok (text (a ++ b))
