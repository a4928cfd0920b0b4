-- ===== src/Cookie/Quote.antt =====
-- `_quote` and `_unquote` of src/lib/cookie.cc.
use ctornado.Base.{
  Bool, Bytes, Result, [], codes, false, if◌then◌else◌, leb, length, ltb, not, ok, some, ℕ, ◌%◌,
  ◌&&◌, ◌*◌, ◌++◌, ◌+◌, ◌-◌, ◌/◌, ◌==◌, ◌>>=◌, ◌||◌, ◌∷◌,
}
use ctornado.Chars.{all, is_alpha, is_digit}
use ctornado.Str.{Str, bytes, char_at, last_char, len, null, substr, text}
use ctornado.Str.Transform.{sized}

abbrev pub quote_mark : ℕ
quote_mark = 34

is_in : Bytes → ℕ → Bool
is_in [] c = false
is_in (x ∷ xs) c = c == x || is_in xs c

-- `_is_legal_char`: the table `_legal_chars`
unfoldable pub is_legal_char : ℕ → Bool
unfolding is_alpha is_digit is_in
is_legal_char c = is_alpha c || (is_digit c || is_in (codes "!#$%&'*+-.^_`|~") c)

-- the table `_translator`
unfoldable pub is_translated : ℕ → Bool
is_translated c = ltb c 32 || (c == b',' || (c == b';' || leb 127 c))

-- what the second loop of `_quote` writes for a byte
unfoldable pub quote_char : ℕ → Bytes
unfolding is_translated
quote_char c =
    if c == quote_mark || c == b'\\'
    then b'\\' ∷ c ∷ []
    else if is_translated c
    then b'\\' ∷ (b'0' + c / 64 % 8) ∷ (b'0' + c / 8 % 8) ∷ (b'0' + c % 8) ∷ []
    else c ∷ []

unfoldable pub quote_all : Bytes → Bytes
unfolding quote_char
quote_all [] = []
quote_all (c ∷ s) = quote_char c ++ quote_all s

-- the first loop of `_quote`: `i + j * 3`
unfoldable pub quote_extra : Bytes → ℕ
unfolding is_translated
quote_extra [] = 0
quote_extra (c ∷ s) =
    let rest = quote_extra s in
    if c == quote_mark || c == b'\\' then rest + 1 else if is_translated c then rest + 3 else rest

-- `_quote`
unfoldable pub quote : Str → Result Str
unfolding is_legal_char quote_all quote_extra all
quote null = ok null
quote (text s) =
    if all is_legal_char s
    then ok (text s)
    else sized (length s + quote_extra s + 2) (quote_mark ∷ (quote_all s ++ quote_mark ∷ []))

unfoldable pub is_octal : ℕ → ℕ → ℕ → Bool
is_octal c1 c2 c3 =
    (leb b'0' c1 && leb c1 b'3') && ((leb b'0' c2 && leb c2 b'7') && (leb b'0' c3 && leb c3 b'7'))

-- The loop of `_unquote`: a backslash is left out, and with three octal digits behind it makes one byte.
unfoldable pub unquote_loop : Bytes → Bytes
unfolding is_octal
unquote_loop [] = []
unquote_loop (c ∷ []) = if c == b'\\' then [] else c ∷ []
unquote_loop (c ∷ c1 ∷ []) =
    let rest = unquote_loop (c1 ∷ []) in if c == b'\\' then rest else c ∷ rest
unquote_loop (c ∷ c1 ∷ c2 ∷ []) =
    let rest = unquote_loop (c1 ∷ c2 ∷ []) in if c == b'\\' then rest else c ∷ rest
unquote_loop (c ∷ c1 ∷ c2 ∷ c3 ∷ s) =
    let rest = unquote_loop (c1 ∷ c2 ∷ c3 ∷ s) in
    let behind = unquote_loop s in
    if c == b'\\'
    then (if is_octal c1 c2 c3
        then ((c1 - b'0') * 64 + (c2 - b'0') * 8 + (c3 - b'0')) ∷ behind
        else rest)
    else c ∷ rest

-- `_unquote`
unfoldable pub unquote : Str → Result Str
unfolding unquote_loop
unquote str = if ltb (len str) 2 then ok str else (do
  first ← char_at str 0
  last ← last_char str
  (if not (first == quote_mark) || not (last == quote_mark)
      then ok str
      else (substr str 1 (some (len str - 1)) >>= λ sub. ok (text (unquote_loop (bytes sub))))))
