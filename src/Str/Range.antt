-- ===== src/Str/Range.antt =====
-- `find`, `rfind` and `count` in a part of a string, `split` and `join` by a string, and `replace`.
use ctornado.Base.{
  Bytes, List, Option, Result, [], drop, err, fault, if◌then◌else◌, is_nil, length, no_fuel, none,
  ok, some, suc, take, zero, ℕ, ◌++◌, ◌+◌, ◌-◌, ◌∷◌, ◌>>=◌,
}
use ctornado.Str.{Str, bytes, null, text}
use ctornado.Str.Find.{memmem, strnfind, strnrfind_str}
use ctornado.Str.Split.{}

-- the bytes from `start` to `end`
abbrev pub range : Bytes → ℕ → ℕ → Bytes
range s start end = take (end - start) (drop start s)

-- `find(c, start)`
unfoldable pub find_from : Str → ℕ → ℕ → Option ℕ
find_from null c start = none
find_from (text s) c start = elim (strnfind (drop start s) c) [
  | none ↦ none
  | some i ↦ some (start + i)
]

-- `find(str)`
unfoldable pub find_str : Str → Bytes → Option ℕ
find_str null t = none
find_str (text s) t = memmem s t

-- `rfind(str)`
unfoldable pub rfind_str : Str → Bytes → Option ℕ
rfind_str null t = none
rfind_str (text s) t = strnrfind_str s t

-- The loop of `count(c, start, end)`: every round but the last goes on behind a byte, so one round more
-- than there are bytes is enough fuel.
unfoldable pub count_char_loop : ℕ → Bytes → ℕ → Result ℕ
count_char_loop zero s c = err no_fuel
count_char_loop (suc fuel) s c = elim (strnfind s c) [
  | none ↦ ok 0
  | some i ↦ do n ← count_char_loop fuel (drop (suc i) s) c; ok (suc n)
]

-- `count(c, start, end)`
unfoldable pub count_char : Str → ℕ → ℕ → ℕ → Result ℕ
unfolding count_char_loop
count_char null c start end = ok 0
count_char (text s) c start end = count_char_loop (length s + 1) (range s start end) c

-- the loop of `count(str, start, end)`, which does not end for an empty `str`
unfoldable pub count_str_loop : ℕ → Bytes → Bytes → Result ℕ
count_str_loop zero s t = err no_fuel
count_str_loop (suc fuel) s t = elim (memmem s t) [
  | none ↦ ok 0
  | some i ↦ do n ← count_str_loop fuel (drop (i + length t) s) t; ok (suc n)
]

-- `count(str, start, end)`
unfoldable pub count_str : Str → Bytes → ℕ → ℕ → Result ℕ
unfolding count_str_loop
count_str null t start end = ok 0
count_str (text s) t start end = count_str_loop (length s + 1) (range s start end) t

-- the loop of `split(sep)` for a string `sep`
unfoldable pub split_str_loop : ℕ → Bytes → Bytes → Result (List Str)
split_str_loop zero s sep = err no_fuel
split_str_loop (suc fuel) s sep = elim (memmem s sep) [
  | none ↦ ok (text s ∷ [])
  | some i ↦ do
    substrs ← split_str_loop fuel (drop (length sep) (drop i s)) sep
    ok (text (take i s) ∷ substrs)
]

-- `split(sep)`, with its ASSERT
unfoldable pub split_str : Str → Bytes → Result (List Str)
unfolding split_str_loop
split_str null sep = err fault
split_str (text s) sep = if is_nil sep then err fault else split_str_loop (length s + 1) s sep

-- `split_pair(sep)` for a string `sep`
unfoldable pub split_pair_str : Str → Bytes → Result (Str × Str)
split_pair_str null sep = err fault
split_pair_str (text s) sep =
    let pair : Str × Str = elim (memmem s sep) [
      | none ↦ (text s, null)
      | some i ↦ (text (take i s), text (drop (i + length sep) s))
    ] in
    if is_nil sep then err fault else ok pair

-- `sep.join(strs)`: the parts, with `sep` between them
unfoldable pub join_str : Bytes → List Str → Bytes
join_str sep [] = []
join_str sep (s ∷ []) = bytes s
join_str sep (s ∷ t ∷ strs) = bytes s ++ (sep ++ join_str sep (t ∷ strs))

-- `replace(oldstr, newstr)`
unfoldable pub replace : Str → Bytes → Bytes → Result Str
unfolding split_str join_str
replace s old new = do parts ← split_str s old; ok (text (join_str new parts))
