-- ===== src/Query.antt =====
-- The class Query of src/lib/urllib.cc: the arguments of a request, in the order of their names.
pub mod Total
pub mod RoundTrip
use ctornado.Base.{
  Bytes, List, Result, [], if◌then◌else◌, map, none, ok, some, ◌++◌, ◌==◌, ◌∷◌, ◌>>=◌,
}
use ctornado.Dict.{insert, lookup}
use ctornado.Str.{Str, bytes, len, null, text}
use ctornado.Str.Split.{join, split, split_pair}

abbrev pub Query : Type 0
Query = List (Bytes × Str)

-- what the loop of `parse_extend` does with one part
unfoldable pub add_part : Query → Str → Result Query
add_part q part = do
  (name, value) ← split_pair part b'='
  if len value == 0 then ok q else ok (insert (bytes name) value q)

unfoldable pub add_parts : Query → List Str → Result Query
unfolding add_part
add_parts q [] = ok q
add_parts q (part ∷ parts) = do q' ← add_part q part; add_parts q' parts

unfoldable pub parse_extend : Query → Str → Result Query
unfolding add_parts
parse_extend q null = ok q
parse_extend q (text s) = do parts ← split (text s) b'&'; add_parts q parts

-- `Query::parse`
unfoldable pub parse : Str → Result Query
unfolding parse_extend
parse str = parse_extend [] str

-- `encode`; each part is made by `Str::sprintf("%S=%S", …)`.
unfoldable pub encode : Query → Str
encode [] = null
encode (p ∷ q) = join b'&' (map (λ e. text (e.0 ++ b'=' ∷ bytes e.1)) (p ∷ q))

unfoldable pub add : Query → Bytes → Str → Query
add q name value = insert name value q

unfoldable pub get : Query → Bytes → Str → Str
get q name default = elim (lookup name q) [ none ↦ default | some v ↦ v ]
