-- ===== src/Url.antt =====
-- The class URL of src/lib/urllib.cc: `split` and `unsplit`. A part is the list of its bytes; a null part
-- has none.
use ctornado.Base.{
  Bool, Bytes, List, [], codes, drop, false, if◌then◌else◌, is_nil, leb, length, map, min, none,
  not, some, suc, take, ℕ, ◌&&◌, ◌++◌, ◌+◌, ◌-◌, ◌==◌, ◌||◌, ◌∷◌,
}
use ctornado.Chars.{all, between, is_digit, to_lower}
use ctornado.Str.{eq_bytes}
use ctornado.Str.Find.{strnfind}
pub mod RoundTrip
pub mod Netloc
pub mod Join
pub mod Joined

pub record Url : Type 0 where
  pub scheme : Bytes
  pub netloc : Bytes
  pub path : Bytes
  pub query : Bytes
  pub fragment : Bytes

-- a byte of `scheme_chars`
is_scheme_char : ℕ → Bool
unfolding is_digit
is_scheme_char c =
    between b'a' b'z' c
    || (between b'A' b'Z' c || (is_digit c || (c == b'+' || (c == b'-' || c == b'.'))))

-- `find(c, start)`, with the length for a byte that is not found
unfoldable pub found_at : ℕ → Bytes → ℕ → ℕ
found_at c url start = elim (strnfind (drop start url) c) [ none ↦ length url | some i ↦ start + i ]

unfoldable pub split_netloc : Bytes → ℕ → ℕ
unfolding found_at
split_netloc url start =
    min (min (min (length url) (found_at b'/' url start)) (found_at b'?' url start))
      (found_at b'#' url start)

-- `if (url0.len() >= 2 && url0.substr(0, 2).eq("//"))`: the network location, and what is behind it
unfoldable pub take_netloc : Bytes → Bytes × Bytes
unfolding split_netloc
take_netloc url =
    if leb 2 (length url) && eq_bytes (take 2 url) (b'/' ∷ b'/' ∷ [])
    then (let j = split_netloc url 2 in (take (j - 2) (drop 2 url), drop j url))
    else ([], url)

-- what stands before and behind the first `c`
unfoldable pub cut : ℕ → Bytes → Bytes × Bytes
cut c url = elim (strnfind url c) [ none ↦ (url, []) | some j ↦ (take j url, drop (suc j) url) ]

-- the second half of `split`, which stands in it twice
unfoldable pub split_rest : Bool → Bytes → Bytes → Url
unfolding take_netloc cut
split_rest allow_fragments scheme url =
    let (netloc, tail) = take_netloc url in
    let (front, fragment) = (if allow_fragments then cut b'#' tail else (tail, [])) in
    let (path, query) = cut b'?' front in
    record { scheme = scheme; netloc = netloc; path = path; query = query; fragment = fragment }

-- `split` for an URL with a colon behind `i` bytes
unfoldable pub split_scheme : Bool → Bytes → ℕ → Url
unfolding split_rest all is_digit is_scheme_char to_lower
split_scheme allow_fragments url i =
    let url1 = take i url in
    let rest = drop (suc i) url in
    if i == 0
    then split_rest allow_fragments [] url
    else if eq_bytes url1 (codes "http")
    then split_rest allow_fragments (map to_lower url1) rest
    else if all is_scheme_char url1 && (is_nil rest || not (all is_digit rest))
    then split_rest allow_fragments (map to_lower url1) rest
    else split_rest allow_fragments [] url

-- `URL::split(url, allow_fragments)`
unfoldable pub split : Bool → Bytes → Url
unfolding split_scheme
split allow_fragments url = elim (strnfind url b':') [
  | none ↦ split_rest allow_fragments [] url
  | some i ↦ split_scheme allow_fragments url i
]

abbrev pub uses_netloc : List Bytes
uses_netloc = map codes (
    "ftp" ∷ "http" ∷ "gopher" ∷ "nntp" ∷ "telnet" ∷ "imap" ∷ "wais" ∷ "file" ∷ "mms" ∷ "https"
    ∷ "shttp" ∷ "snews" ∷ "prospero" ∷ "rtsp" ∷ "rtspu" ∷ "rsync" ∷ "svn" ∷ "svn+ssh" ∷ "sftp"
    ∷ "nfs" ∷ "git" ∷ "git+ssh" ∷ [])

is_one_of : List Bytes → Bytes → Bool
is_one_of [] str = false
is_one_of (s ∷ strs) str = eq_bytes str s || is_one_of strs str

unfoldable pub is_uses_netloc : Bytes → Bool
unfolding is_one_of
is_uses_netloc str = is_one_of uses_netloc str

-- the slash in front of a path that has none
unfoldable pub rooted : Bytes → Bytes
rooted [] = []
rooted (c ∷ path) = if c == b'/' then c ∷ path else b'/' ∷ c ∷ path

-- `if (part.len() != 0) url = Str::sprintf("%S…%S", …)`
unfoldable pub add_part : ℕ → Bytes → Bytes → Bytes
add_part c url part = if is_nil part then url else url ++ c ∷ part

-- `unsplit`
unfoldable pub unsplit : Url → Bytes
unfolding is_uses_netloc rooted add_part
unsplit u =
    let path = u.path in
    let slashes = leb 2 (length path) && eq_bytes (take 2 path) (b'/' ∷ b'/' ∷ []) in
    let url =
      (if not (is_nil u.netloc)
          || (not (is_nil u.scheme) && (is_uses_netloc u.scheme && not slashes))
        then b'/' ∷ b'/' ∷ u.netloc ++ rooted path
        else path) in
    let whole = (if is_nil u.scheme then url else u.scheme ++ b':' ∷ url) in
    add_part b'#' (add_part b'?' whole u.query) u.fragment
