-- ===== src/Form.antt =====
-- The forms of src/core/httputil.cc: `_parse_param`, `_parse_header`, `parse_body_arguments` and
-- `parse_multipart_form_data`. What PCRE says of a name is the parameter `matches`.
pub mod Quoted
pub mod Params
pub mod Parts
use ctornado.Base.{
  Bool, Bytes, List, Result, [], codes, err, get_elem?, if◌then◌else◌, leb, no_fuel, none, not, ok,
  some, suc, zero, ℕ, ◌%◌, ◌&&◌, ◌++◌, ◌+◌, ◌-◌, ◌==◌, ◌>>=◌, ◌∷◌,
}
use ctornado.Dict.{assign, insert, lookup}
use ctornado.Headers.{Cache, Headers, get, parse}
use ctornado.Query.{Query, parse_extend}
use ctornado.Str.{
  Str, bytes, char_at, ends_with, eq, is_null, last_char, len, remove_prefix, starts_with, substr,
  text,
}
use ctornado.Str.Find.{}
use ctornado.Str.Split.{split, split_pair}
use ctornado.Str.Range.{count_char, count_str, find_from, find_str, replace, rfind_str, split_str}
use ctornado.Str.Transform.{lower, strip}

abbrev pub quote : ℕ
quote = 34

abbrev pub Params : Type 0
Params = List (Bytes × Str)

-- HTTPFile
pub record File : Type 0 where
  pub filename : Str
  pub body : Str
  pub content_type : Str

-- is the number of quotes in front of `end`, without those behind a backslash, odd?
unfoldable pub in_quotes : Str → ℕ → Result Bool
in_quotes str end = do
  quotes ← count_char str quote 0 end
  escaped ← count_str str (b'\\' ∷ quote ∷ []) 0 end
  ok (not ((quotes - escaped) % 2 == 0))

-- The loop of `_parse_param`: every round goes on behind a semicolon, so one round more than there are
-- bytes is enough fuel.
unfoldable pub param_loop : ℕ → Str → ℕ → Result ℕ
unfolding in_quotes
param_loop zero str end = err no_fuel
param_loop (suc fuel) str end =
    let on : Result ℕ = elim (find_from str b';' (end + 1)) [
      | none ↦ ok (len str)
      | some e ↦ param_loop fuel str e
    ] in
    if end == 0 then ok end else (in_quotes str end >>= λ quoted. if quoted then on else ok end)

-- `_parse_param`
unfoldable pub parse_param : Str → Result ℕ
unfolding param_loop
parse_param str = elim (find_from str b';' 0) [
  | none ↦ ok (len str)
  | some end ↦ param_loop (len str + 1) str end
]

-- a value between quotes, without them and without its backslashes
unfoldable pub unquoted : Str → Result Str
unquoted value =
    if leb 2 (len value)
    then (do
      first ← char_at value 0
      last ← last_char value
      (if first == quote && last == quote
          then (do
            inner ← substr value 1 (some (len value - 1))
            single ← replace inner (codes "\\\\") (codes "\\")
            replace single (b'\\' ∷ quote ∷ []) (quote ∷ []))
          else ok value))
    else ok value

-- `pdict->insert({ name, value })`: a name that is there keeps its value.
unfoldable pub insert_new : Bytes → Str → Params → Params
insert_new name value ps = elim (lookup name ps) [ none ↦ assign name value ps | some v ↦ ps ]

-- what `_parse_header` does with one parameter
unfoldable pub add_param : Params → Str → Result Params
unfolding unquoted insert_new
add_param ps p = elim (find_str p (codes "=")) [
  | none ↦ ok ps
  | some i ↦ do
    front ← substr p 0 (some i)
    name ← strip none front
    key ← lower name
    back ← substr p (i + 1) none
    value ← strip none back
    plain ← unquoted value
    ok (insert_new (bytes key) plain ps)
]

-- The loop of `_parse_header`: every round cuts off a byte or more, so one round more than there are
-- bytes is enough fuel.
unfoldable pub params_loop : ℕ → Params → Str → ℕ → Result Params
unfolding parse_param add_param
params_loop zero ps parts at = err no_fuel
params_loop (suc fuel) ps parts at =
    let more : Result Params = do
      rest ← remove_prefix parts (at + 1)
      end ← parse_param rest
      p ← substr rest 0 (some end)
      ps' ← add_param ps p
      params_loop fuel ps' rest end
    in elim (get_elem? (bytes parts) at) [
      | none ↦ ok ps
      | some c ↦ if c == b';' then more else ok ps
    ]

-- `_parse_header`
unfoldable pub parse_header : Str → Params → Result (Str × Params)
unfolding params_loop
parse_header line ps = do
  end ← parse_param line
  key ← substr line 0 (some end)
  ps' ← params_loop (len line + 1) ps line end
  ok (key, ps')

-- what the loop over the parts of a form changes; `params` is `disp_params`
pub record Parsed : Type 0 where
  pub cache : Cache
  pub params : Params
  pub arguments : Query
  pub files : List (Bytes × File)

-- the boundary without its quotes
unfoldable pub bare_boundary : Str → Result Str
bare_boundary boundary = do
  first ← char_at boundary 0
  (if first == quote
      then (do
        last ← last_char boundary
        (if last == quote then substr boundary 1 (some (len boundary - 1)) else ok boundary))
      else ok boundary)

abbrev pub final_delimiter : Bytes → Bytes
final_delimiter bound = codes "--" ++ (bound ++ codes "--")

abbrev pub part_delimiter : Bytes → Bytes
part_delimiter bound = codes "--" ++ (bound ++ codes "\r\n")

module _ (matches : Bytes → Bool) where
  -- the end of the loop over the parts, for a part with a name: `value` and the file's name decide what
  -- it is
  unfoldable pub add_value : Headers → Str → Str → Parsed → Result Parsed
  add_value h name value st = elim (lookup (codes "filename") st.params) [
    | none ↦ ok (record st { params = []; arguments = insert (bytes name) value st.arguments })
    | some filename ↦ do
      (ctype, cache) ←
          get matches st.cache h (codes "Content-Type") (text (codes "application/unknown"))
      let file : File = record { filename = filename; body = value; content_type = ctype }
      ok (record st { cache = cache; params = []; files = insert (bytes name) file st.files })
  ]

  -- the loop's body for a part with an empty line at `eoh`
  unfoldable pub read_part : Str → ℕ → Parsed → Result Parsed
  unfolding parse_header add_value
  read_part part eoh st = do
    head ← substr part 0 (some eoh)
    (h, cache) ← parse matches st.cache head
    (disp_header, cache') ← get matches cache h (codes "Content-Disposition") (text [])
    (disposition, ps) ← parse_header disp_header st.params
    let st' : Parsed = record st { cache = cache'; params = ps }
    (if eq disposition (text (codes "form-data")) && ends_with part (text (codes "\r\n"))
        then elim (lookup (codes "name") ps) as (λ x. Result Parsed) [
          | none ↦ ok st'
          | some name ↦
              substr part (eoh + 4) (some (len part - 2)) >>= λ value. add_value h name value st'
        ]
        else ok st')

  -- the loop over the parts
  unfoldable pub read_parts : List Str → Parsed → Result Parsed
  unfolding read_part
  read_parts [] st = ok st
  read_parts (part ∷ parts) st =
      if len part == 0
      then read_parts parts st
      else elim (find_str part (codes "\r\n\r\n")) as (λ x. Result Parsed) [
        | none ↦ read_parts parts st
        | some eoh ↦ read_part part eoh st >>= λ st'. read_parts parts st'
      ]

  -- `parse_multipart_form_data`
  unfoldable pub parse_multipart : Str → Str → Parsed → Result Parsed
  unfolding bare_boundary read_parts
  parse_multipart boundary body st = do
    bound ← bare_boundary boundary
    (elim (rfind_str body (final_delimiter (bytes bound))) as (λ x. Result Parsed) [
      | none ↦ ok st
      | some final ↦ do
        front ← substr body 0 (some final)
        parts ← split_str front (part_delimiter (bytes bound))
        read_parts parts (record st { params = [] })
    ])

  -- the loop over the fields of a content type: the first boundary is used
  unfoldable pub find_boundary : List Str → Str → Parsed → Result Parsed
  unfolding parse_multipart
  find_boundary [] body st = ok st
  find_boundary (field ∷ fields) body st = do
    stripped ← strip none field
    (name, value) ← split_pair stripped b'='
    (if eq name (text (codes "boundary")) && not (is_null value)
        then parse_multipart value body st
        else find_boundary fields body st)

  -- `parse_body_arguments`
  unfoldable pub parse_body_arguments : Str → Str → Parsed → Result Parsed
  unfolding find_boundary
  parse_body_arguments content_type body st =
      if starts_with content_type (text (codes "application/x-www-form-urlencoded"))
      then (parse_extend st.arguments body >>= λ q. ok (record st { arguments = q }))
      else if starts_with content_type (text (codes "multipart/form-data"))
      then (split content_type b';' >>= λ fields. find_boundary fields body st)
      else ok st

  -- `parse_body_arguments(content_type, body, arguments, files)`, for the arguments and files of a
  -- request
  unfoldable pub form_values :
      Str
      → Str
      → Query
      → List (Bytes × File)
      → Cache
      → Result ((Query × List (Bytes × File)) × Cache)
  unfolding parse_body_arguments
  form_values content_type body q fs cache = do
    st ←
        parse_body_arguments content_type body
          (record { cache = cache; params = []; arguments = q; files = fs })
    ok ((st.arguments, st.files), st.cache)
