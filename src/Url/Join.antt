-- ===== src/Url/Join.antt =====
-- `url_join` and `url_concat` of src/lib/urllib.cc, on the bytes of the strings.
use ctornado.Str.Split.{join, split}
use ctornado.Url.{Url, is_one_of, is_uses_netloc, unsplit}
use ctornado.Base.{
  Bool, Bytes, List, Option, Result, [], codes, err, if◌then◌else◌, is_nil, length, map, no_fuel,
  none, not, ok, out_of_range, some, suc, zero, ℕ, ◌&&◌, ◌++◌, ◌+◌, ◌==◌, ◌>>=◌, ◌||◌, ◌∷◌,
}
use ctornado.Str.{Str, bytes, concat, eq_bytes, last_char, text}
use ctornado.Str.Find.{strnfind}
use ctornado.Url
use ctornado.Query.{Query, encode}

abbrev pub uses_relative : List Bytes
uses_relative = map codes (
    "ftp" ∷ "http" ∷ "gopher" ∷ "nntp" ∷ "imap" ∷ "wais" ∷ "file" ∷ "mms" ∷ "https" ∷ "shttp"
    ∷ "prospero" ∷ "rtsp" ∷ "rtspu" ∷ "svn" ∷ "svn+ssh" ∷ "sftp" ∷ [])

unfoldable pub is_uses_relative : Bytes → Bool
unfolding is_one_of
is_uses_relative str = is_one_of uses_relative str

-- `segs1.back() = ""` for a last segment that is a single dot
unfoldable pub dot_last : List Bytes → List Bytes
dot_last [] = []
dot_last (s ∷ []) = (if eq_bytes s (codes ".") then [] else s) ∷ []
dot_last (s ∷ t ∷ segs) = s ∷ dot_last (t ∷ segs)

unfoldable pub drop_dots : List Bytes → List Bytes
drop_dots [] = []
drop_dots (s ∷ segs) =
    let rest = drop_dots segs in if eq_bytes s (codes ".") then rest else s ∷ rest

-- The loop over `i`: the first `..` that is not the last segment and stands behind a name is erased with
-- the name. `none` says that there is no such.
unfoldable pub one_up : List Bytes → Option (List Bytes)
one_up [] = none
one_up (a ∷ []) = none
one_up (a ∷ b ∷ []) = none
one_up (a ∷ b ∷ c ∷ segs) = elim (one_up (b ∷ c ∷ segs)) [
  | none ↦
      if eq_bytes b (codes "..") && (not (is_nil a) && not (eq_bytes a (codes "..")))
      then some (c ∷ segs)
      else none
  | some rest ↦
      if eq_bytes b (codes "..") && (not (is_nil a) && not (eq_bytes a (codes "..")))
      then some (c ∷ segs)
      else some (a ∷ rest)
]

-- `while (true)`: every round but the last erases two segments, so one round more than there are
-- segments is enough fuel.
unfoldable pub ups : ℕ → List Bytes → Result (List Bytes)
unfolding one_up
ups zero segs = err no_fuel
ups (suc fuel) segs = elim (one_up segs) [ none ↦ ok segs | some rest ↦ ups fuel rest ]

-- A `..` at the end of three segments or more goes with the one in front; these are those behind the
-- first.
unfoldable pub up_last_of : Bytes → Bytes → List Bytes → List Bytes
up_last_of b c [] = if eq_bytes c (codes "..") then [] ∷ [] else b ∷ c ∷ []
up_last_of b c (d ∷ segs) = b ∷ up_last_of c d segs

-- a `..` at the end of two segments or more
unfoldable pub up_last : List Bytes → List Bytes
unfolding up_last_of
up_last [] = []
up_last (a ∷ []) = a ∷ []
up_last (a ∷ b ∷ []) =
    if eq_bytes b (codes "..") then (if is_nil a then [] ∷ [] ∷ [] else [] ∷ []) else a ∷ b ∷ []
up_last (a ∷ b ∷ c ∷ segs) = a ∷ up_last_of b c segs

unfoldable pub without_last : List Bytes → List Bytes
without_last [] = []
without_last (s ∷ []) = []
without_last (s ∷ t ∷ segs) = s ∷ without_last (t ∷ segs)

-- the path that `url_join` makes of the segments of both paths
unfoldable pub join_paths : Bytes → Bytes → Result Bytes
unfolding dot_last drop_dots ups up_last without_last
join_paths base path = do
  segs1 ← split (text base) b'/'
  segs2 ← split (text path) b'/'
  segments ←
      (let all_segs : List Bytes = dot_last (without_last (map bytes segs1) ++ map bytes segs2) in
        ups (length all_segs + 1) (drop_dots all_segs))
  ok (bytes (join b'/' (map text (up_last segments))))

-- `url_join` behind the tests of the schemes, with `u` as it is by then. The test for an empty path
-- stands behind the read of its first byte, which throws for one, so its branch is left out.
unfoldable pub join_parts : Url → Url → Result Bytes
unfolding join_paths
join_parts b u = elim u.path [
  | [] ↦ err out_of_range
  | c ∷ path ↦
      if c == b'/'
      then ok (unsplit u)
      else (join_paths b.path (c ∷ path) >>= λ joined. ok (unsplit (record u { path = joined })))
]

unfoldable pub url_join : Bytes → Bytes → Bool → Result Bytes
unfolding join_parts is_uses_relative
url_join base url allow_fragments =
    let b = Url.split allow_fragments base in
    let u0 = Url.split allow_fragments url in
    let u : Url = (if is_nil u0.scheme then record u0 { scheme = b.scheme } else u0) in
    if is_nil base
    then ok url
    else if is_nil url
    then ok base
    else if not (eq_bytes u.scheme b.scheme) || not (is_uses_relative u.scheme)
    then ok url
    else if is_uses_netloc u.scheme
    then (if not (is_nil u.netloc)
        then ok (unsplit u)
        else join_parts b (record u { netloc = b.netloc }))
    else join_parts b u

-- `url_concat`
unfoldable pub url_concat : Str → Option Query → Result Str
url_concat url none = ok url
url_concat url (some query) = do
  c ← last_char url
  (if c == b'?' || c == b'&'
      then concat url (encode query)
      else (let d : ℕ = elim (strnfind (bytes url) b'?') [ none ↦ b'?' | some i ↦ b'&' ] in
          ok (text (bytes url ++ d ∷ bytes (encode query)))))
