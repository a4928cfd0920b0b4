-- ===== src/Headers.antt =====
-- The class HTTPHeaders of src/core/httputil.cc. `normalized_header_re_` is compiled by PCRE: whether it
-- matches a name is the parameter `matches`. The static map `normalized_headers_` is the argument and
-- result `cache` of the operations.
pub mod Cached
pub mod Fields
use ctornado.Base.{
  Bool, Bytes, List, Option, Result, [], err, false, if◌then◌else◌, is_nil, length, no_fuel, none,
  ok, some, suc, true, zero, ℕ, ◌++◌, ◌+◌, ◌>>=◌, ◌||◌, ◌∷◌,
}
use ctornado.Dict.{assign, lookup}
use ctornado.Str.{Str, bytes, is_null, text}
use ctornado.Str.Split.{split_pair}
use ctornado.Str.Lines.{split_lines}
use ctornado.Str.Transform.{capitalize_each, strip}
use ctornado.Chars.{is_space}

abbrev pub Cache : Type 0
Cache = List (Bytes × Bytes)

abbrev pub Headers : Type 0
Headers = List (Bytes × Str)

-- `value` is joined to what the name has: `Str::sprintf("%S,%S", &map_[name], &value)`.
unfoldable pub joined : Option Str → Str → Str
joined none value = value
joined (some old) value = text (bytes old ++ b',' ∷ bytes value)

-- `while (it != lines.end() && !(*it).empty() && isspace((*it)[0]))`: the lines that go on with
-- `line`, and those behind them
unfoldable pub continued : Bytes → List Bytes → Bytes × List Bytes
continued line [] = (line, [])
continued line ([] ∷ lines) = (line, [] ∷ lines)
continued line ((c ∷ s) ∷ lines) =
    let rest = continued (line ++ c ∷ s) lines in
    if is_space c then rest else (line, (c ∷ s) ∷ lines)

module _ (matches : Bytes → Bool) where
  -- a name in Http-Header-Case, without the cache
  unfoldable pub normal : Bytes → Result Bytes
  normal name =
      if matches name then ok name else (capitalize_each (text name) b'-' >>= λ s. ok (bytes s))

  -- `normalize_name`
  unfoldable pub normalize_name : Cache → Bytes → Result (Bytes × Cache)
  unfolding normal
  normalize_name cache name = elim (lookup name cache) [
    | some normalized ↦ ok (normalized, cache)
    | none ↦ do normalized ← normal name; ok (normalized, assign name normalized cache)
  ]

  unfoldable pub has : Cache → Headers → Bytes → Result (Bool × Cache)
  unfolding normalize_name
  has cache h name = do
    (n, cache') ← normalize_name cache name
    ok (elim (lookup n h) [ none ↦ false | some v ↦ true ], cache')

  unfoldable pub set : Cache → Headers → Bytes → Str → Result (Headers × Cache)
  unfolding normalize_name
  set cache h name value = do (n, cache') ← normalize_name cache name; ok (assign n value h, cache')

  unfoldable pub add : Cache → Headers → Bytes → Str → Result (Headers × Cache)
  unfolding normalize_name joined
  add cache h name value = do
    (n, cache') ← normalize_name cache name
    ok (assign n (joined (lookup n h) value) h, cache')

  unfoldable pub get : Cache → Headers → Bytes → Str → Result (Str × Cache)
  unfolding normalize_name
  get cache h name default = do
    (n, cache') ← normalize_name cache name
    ok (elim (lookup n h) [ none ↦ default | some v ↦ v ], cache')

  -- what `parse` does with a whole line
  unfoldable pub add_line : Cache → Headers → Bytes → Result (Headers × Cache)
  unfolding add
  add_line cache h line = do
    (name, value) ← split_pair (text line) b':'
    if is_null name || is_null value
        then ok (h, cache)
        else (do v ← strip none value; add cache h (bytes name) v)

  -- The loop of `parse`: every round takes a line or more, so one round more than there are lines is
  -- enough fuel.
  unfoldable pub parse_lines : ℕ → Cache → Headers → List Bytes → Result (Headers × Cache)
  unfolding continued add_line
  parse_lines zero cache h lines = err no_fuel
  parse_lines (suc fuel) cache h [] = ok (h, cache)
  parse_lines (suc fuel) cache h (line ∷ lines) =
      let (whole, rest) = continued line lines in
      let more : Result (Headers × Cache) = do
        (h', cache') ← add_line cache h whole
        parse_lines fuel cache' h' rest
      in let skip = parse_lines fuel cache h lines in if is_nil line then skip else more

  -- `HTTPHeaders::parse(str)`
  unfoldable pub parse : Cache → Str → Result (Headers × Cache)
  unfolding parse_lines
  parse cache str = do lines ← split_lines str; parse_lines (length lines + 1) cache [] lines
