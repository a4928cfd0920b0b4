-- ===== src/Http/Arguments.antt =====
-- The arguments of a request whose URL `url_concat` has made.
use mathlib.Core.Path.{ap₂, subst}
use ctornado.Dict.{insert}
use ctornado.Http.State.{Request}
use ctornado.Http.Made.{Describes}
use ctornado.Headers.Fields.{Field}
use ctornado.Query.{Query, add_part, add_parts, encode, parse, parse_extend}
use ctornado.Query.RoundTrip.{IsArgument, Ordered, parse-encode, query_of}
use ctornado.Url.Join.{url_concat}
use ctornado.Str.{Str, bytes, last_char, null, text}
use ctornado.Str.Find.{strnfind}
use ctornado.Str.Split.{PairOf, join, split, split_loop, split_pair, strnfind_absent}
use ctornado.Base.{
  All, Bool, Bytes, Lacks, List, [], ap, arith, false, ok, refl, some, sym, ℕ, ◌++◌, ◌==◌, ◌||◌,
  ◌∙◌, ◌∷◌, ◌≡◌, ◌≢◌,
}

-- the first bytes of equal texts, and the others
cons_parts : {x y : ℕ} {s t : Bytes} → x ∷ s ≡ y ∷ t → (x ≡ y) × (s ≡ t)
cons_parts e = (cc, cc)

-- A text is cut at its first byte `c` in one way.
cut_once :
    (c : ℕ) (a b s t : Bytes) → Lacks c a → Lacks c b → a ++ c ∷ s ≡ b ++ c ∷ t → (a ≡ b) × (s ≡ t)
cut_once c [] [] s t h k e = (refl, (cons_parts e).1)
cut_once c [] (y ∷ b) s t h (k, ks) e = absurd (k (sym (cons_parts e).0))
cut_once c (x ∷ a) [] s t (h, hs) k e = absurd (h (cons_parts e).0)
cut_once c (x ∷ a) (y ∷ b) s t (h, hs) (k, ks) e =
    let (first, rest) = cons_parts e in
    let (front, back) = cut_once c a b s t hs ks rest in (ap₂ (λ x a. x ∷ a) first front, back)

has_byte : (c : ℕ) (a s : Bytes) → Lacks c (a ++ c ∷ s) → ⊥
has_byte c [] s (h, hs) = h refl
has_byte c (x ∷ a) s (h, hs) = has_byte c a s hs

-- What a URI is cut into, where it has the separator.
pair_at :
    (c : ℕ) (a s : Bytes) (k v : Str)
    → Lacks c a
    → PairOf c (a ++ c ∷ s) (ok (k, v))
    → (bytes k ≡ a) × (v ≡ text s)
pair_at c a s k null h (e, l) = absurd (has_byte c a s l)
pair_at c a s k (text v) h (e, l) =
    let (front, back) = cut_once c a (bytes k) s v h l e in (sym front, ap text (sym back))

url_concat_lem :
    (p : Bytes) (c : ℕ) (q : Query)
    → last_char (text p) ≡ ok c
    → c ≢ b'&'
    → c ≢ b'?'
    → Lacks b'?' p
    → url_concat (text p) (some q) ≡ ok (text (p ++ b'?' ∷ bytes (encode q)))
unfolding url_concat
url_concat_lem p c q h n m l = rw (h, other c n m, strnfind_absent p b'?' l) refl
  where
    other : (c : ℕ) → c ≢ b'&' → c ≢ b'?' → (c == b'?' || c == b'&') ≡ false
    other c n m = ground arith

query_back :
    (ps : List (Bytes × Bytes))
    → All IsArgument ps
    → Ordered ps
    → parse (text (bytes (encode (query_of ps)))) ≡ ok (query_of ps)
unfolding parse encode parse_extend add_parts add_part split split_loop strnfind split_pair join
    insert
query_back [] i o = refl
query_back (p ∷ ps) i o = parse-encode (p ∷ ps) i o

-- A URL that `url_concat` has made of a path without `?`, which does not end in `&`, and of arguments
-- whose names are in the order of the map, no name with `=` or `&` in it and no value empty or with `&`:
-- the request that a head with this URI describes has just these arguments, and this path.
pub arguments-url_concat :
    (matches valid_ip : Bytes → Bool) (m u w path : Bytes) (last : ℕ) (fs : List Field)
    (address : Str) (xheaders : Bool) (r : Request) (ps : List (Bytes × Bytes))
    → last_char (text path) ≡ ok last
    → last ≢ b'&'
    → last ≢ b'?'
    → Lacks b'?' path
    → All IsArgument ps
    → Ordered ps
    → url_concat (text path) (some (query_of ps)) ≡ ok (text u)
    → Describes matches valid_ip m u w fs address xheaders r
    → (r.arguments ≡ query_of ps) × (bytes r.path ≡ path)
arguments-url_concat matches valid_ip m u w path last fs address xheaders r ps e n k l i o made d =
    let same : path ++ b'?' ∷ bytes (encode (query_of ps)) ≡ u =
      same_text (sym (url_concat_lem path last (query_of ps) e n k l) ∙ made) in
    let (front, query) =
      pair_at b'?' path (bytes (encode (query_of ps))) r.path r.query l
        (subst (λ v. PairOf b'?' v (ok (r.path, r.query))) (sym same) d.uri_cut) in
    (same_query (sym d.query_read ∙ ap parse query ∙ query_back ps i o), front)
  where
    same_text : {a b : Bytes} → ok (text a) ≡ ok (text b) → a ≡ b
    same_text e = cc

    same_query : {a b : Query} → ok a ≡ ok b → a ≡ b
    same_query e = cc
