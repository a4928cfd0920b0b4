-- ===== src/Cookie.antt =====
-- The cookies of src/lib/cookie.cc: the classes CookieMorsel and Cookie. What PCRE finds of
-- `_cookie_pattern` in a text is the parameter `exec`.
pub mod Quote
pub mod Coded
use ctornado.Cookie.Quote.{is_legal_char, quote, unquote}
use ctornado.Base.{
  Bool, Bytes, List, Option, Result, [], codes, err, false, if◌then◌else◌, map, no_fuel, none, not,
  ok, out_of_range, some, suc, true, zero, ℕ, ◌&&◌, ◌++◌, ◌+◌, ◌==◌, ◌>>=◌, ◌||◌, ◌∷◌,
}
use ctornado.Chars.{all, to_lower}
use ctornado.Dict.{assign, lookup}
use ctornado.Str.{Str, bytes, eq, eq_bytes, len, null, remove_prefix, text}
use ctornado.Str.Range.{join_str}
use ctornado.Str.Transform.{}

-- `_reserved`
abbrev pub reserved : List (Bytes × Bytes)
reserved =
    (codes "comment", codes "Comment")
    ∷ (codes "domain", codes "Domain")
    ∷ (codes "expires", codes "expires")
    ∷ (codes "httponly", codes "httponly")
    ∷ (codes "max-age", codes "Max-Age")
    ∷ (codes "path", codes "Path")
    ∷ (codes "secure", codes "secure")
    ∷ (codes "version", codes "Version")
    ∷ []

-- `_reserved.find(k) != _reserved.end()`
unfoldable pub is_reserved : Bytes → Bool
is_reserved k = elim (lookup k reserved) [ none ↦ false | some v ↦ true ]

-- CookieMorsel
pub record Morsel : Type 0 where
  pub key : Str
  pub value : Str
  pub coded_value : Str
  pub attributes : List (Bytes × Str)

abbrev pub new_morsel : Morsel
new_morsel = record { key = null; value = null; coded_value = null; attributes = [] }

unfoldable pub set_morsel : Bytes → Str → Str → Morsel → Morsel
unfolding is_reserved is_legal_char all
set_morsel key value coded_value m =
    if not (is_reserved (map to_lower key)) && all is_legal_char key
    then record m { key = text key; value = value; coded_value = coded_value }
    else m

unfoldable pub set_attribute : Bytes → Str → Morsel → Morsel
unfolding is_reserved
set_attribute key value m =
    let k = map to_lower key in
    if is_reserved k then record m { attributes = assign k value m.attributes } else m

unfoldable pub get_attribute : Bytes → Morsel → Str
get_attribute key m = elim (lookup key m.attributes) [ none ↦ null | some v ↦ v ]

-- the text that `_reserved[k]` gives
unfoldable pub reserved_name : Bytes → Bytes
reserved_name k = elim (lookup k reserved) [ none ↦ [] | some v ↦ v ]

-- the loop of `CookieMorsel::output`
unfoldable pub attribute_texts : List (Bytes × Str) → List Str
unfolding reserved_name
attribute_texts [] = []
attribute_texts ((k, v) ∷ attributes) =
    let rest = attribute_texts attributes in
    if eq v (text [])
    then rest
    else if eq_bytes k (codes "secure") || eq_bytes k (codes "httponly")
    then text (reserved_name k) ∷ rest
    else text (reserved_name k ++ b'=' ∷ bytes v) ∷ rest

unfoldable pub morsel_output : Morsel → Bytes
unfolding attribute_texts
morsel_output m =
    join_str (codes "; ")
      (text (bytes m.key ++ b'=' ∷ bytes m.coded_value) ∷ attribute_texts m.attributes)

abbrev pub Cookies : Type 0
Cookies = List (Bytes × Morsel)

unfoldable pub has : Bytes → Cookies → Bool
has key cs = elim (lookup key cs) [ none ↦ false | some m ↦ true ]

-- `__set(key, value, coded_value)`
unfoldable pub set_coded : Bytes → Str → Str → Cookies → Cookies
unfolding set_morsel
set_coded key value coded_value cs =
    assign key
      (set_morsel key value coded_value (elim (lookup key cs) [ none ↦ new_morsel | some m ↦ m ]))
      cs

-- `Cookie::set`
unfoldable pub set : Bytes → Str → Cookies → Result Cookies
unfolding set_coded
set key value cs = do coded ← quote value; ok (set_coded key value coded cs)

-- `Cookie::output`
unfoldable pub output : Cookies → Bytes
unfolding morsel_output
output cs = join_str (codes "\r\n") (map (λ e. text (codes "Set-Cookie: " ++ morsel_output e.1)) cs)

-- What `exec` finds: both groups and the end of the match, or nothing, for an error too.
pub data CookieMatch : Type 0 where
  pair_at : Bytes → Bytes → ℕ → CookieMatch
  no_pair : CookieMatch

module _ (exec : Bytes → CookieMatch) where
  -- an attribute of the cookie that was read last, `cm`
  unfoldable pub set_last : Option Bytes → Bytes → Str → Cookies → Cookies
  unfolding set_attribute
  set_last none key value cs = cs
  set_last (some cm) key value cs = elim (lookup cm cs) [
    | none ↦ cs
    | some m ↦ assign cm (set_attribute key value m) cs
  ]

  -- what the loop of `load` does with a key and a value
  unfoldable pub load_pair :
      Option Bytes → Bytes → Bytes → Cookies → Result (Option Bytes × Cookies)
  unfolding set_last
  load_pair cm [] value cs = err out_of_range
  load_pair cm (c ∷ key) value cs =
      if c == b'$'
      then ok (cm, set_last cm key (text value) cs)
      else (unquote (text value) >>= λ plain.
          if is_reserved (map to_lower (c ∷ key))
          then ok (cm, set_last cm (c ∷ key) plain cs)
          else ok (some (c ∷ key), set_coded (c ∷ key) plain (text value) cs))

  -- The loop of `load`: a match takes a byte or more, so one round more than there are bytes is enough
  -- fuel.
  unfoldable pub load_loop : ℕ → Option Bytes → Bytes → Cookies → Result Cookies
  unfolding load_pair
  load_loop zero cm tmp cs = err no_fuel
  load_loop (suc fuel) cm [] cs = ok cs
  load_loop (suc fuel) cm (c ∷ tmp) cs = elim (exec (c ∷ tmp)) [
    | no_pair ↦ ok cs
    | pair_at key value end ↦ do
      rest ← remove_prefix (text (c ∷ tmp)) end
      (cm', cs') ← load_pair cm key value cs
      load_loop fuel cm' (bytes rest) cs'
  ]

  unfoldable pub load : Str → Cookies → Result Cookies
  unfolding load_loop
  load dat cs = load_loop (len dat + 1) none (bytes dat) cs
