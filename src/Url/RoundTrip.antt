-- ===== src/Url/RoundTrip.antt =====
-- `split` on the text that `unsplit` makes of an http URL.
use ctornado.Url.{
  Url, add_part, cut, found_at, rooted, split, split_netloc, split_rest, split_scheme, take_netloc,
  unsplit,
}
use ctornado.Base.{
  ==_iff, All-append, Bool, Bool-cases, Bytes, Lacks, Option, [], ap, append-nil, append_assoc,
  arith, codes, drop, false, if◌then◌else◌, inl, inr, is_nil, leb, length, length-append, le→leb,
  none, not, refl, some, suc, sym, take, true, ℕ, ◌&&◌, ◌++◌, ◌+◌, ◌-◌, ◌==◌, ◌||◌, ◌∙◌, ◌∷◌, ◌≡◌,
  ◌≢◌, ◌≤◌, ◌⊎◌,
}
use ctornado.Chars.{to_lower}
use ctornado.Str.{eq_bytes}
use ctornado.Str.Find.{strnfind}
use ctornado.Str.Occurs.{some-suc}
use ctornado.Str.Split.{drop_self_cons, strnfind_absent, strnfind_at, take_self_append}

-- a part behind its mark, or nothing
abbrev pub mark : ℕ → Bytes → Bytes
mark c [] = []
mark c (b ∷ bs) = c ∷ b ∷ bs

add_part-mark : (c : ℕ) (url part : Bytes) → add_part c url part ≡ url ++ mark c part
unfolding add_part
add_part-mark c url [] = sym (append-nil url)
add_part-mark c url (b ∷ bs) = refl

cut_found : (c : ℕ) (a s : Bytes) → Lacks c a → cut c (a ++ c ∷ s) ≡ (a, s)
unfolding cut
cut_found c a s h = rw (strnfind_at a s c h, cut, take_self_append a (c ∷ s), drop_self_cons a s c)

cut-mark : (c : ℕ) (a s : Bytes) → Lacks c a → cut c (a ++ mark c s) ≡ (a, s)
cut-mark c a [] h = ap (cut c) (append-nil a) ∙ (unfold cut in rw (strnfind_absent a c h, cut))
cut-mark c a (b ∷ bs) h = cut_found c a (b ∷ bs) h

no_match : (x c : ℕ) (r : Option ℕ) → x ≢ c → (if x == c then some 0 else r) ≡ r
no_match x c r h = ground arith

found_later :
    (c : ℕ) (a t : Bytes) → Lacks c a → (i : ℕ) → strnfind (a ++ t) c ≡ some i → length a ≤ i
unfolding strnfind
found_later c [] t h i e = omega arith
found_later c (x ∷ a) t (hx, h) i e =
    let (k, g, l) = some-suc (strnfind (a ++ t) c) (sym (no_match x c _ hx) ∙ e) in
    omega (arith, found_later c a t h k g, l)

-- A byte that a text starts without is found behind that start, or not at all.
found_behind :
    (c : ℕ) (a t : Bytes) → Lacks c a → 2 + length a ≤ found_at c (b'/' ∷ b'/' ∷ (a ++ t)) 2
unfolding found_at
found_behind c a t h = behind (strnfind (a ++ t) c) (found_later c a t h)
  where
    behind :
        (r : Option ℕ)
        → ((i : ℕ) → r ≡ some i → length a ≤ i)
        → 2 + length a ≤ elim r as (λ x. ℕ) [ none ↦ suc (suc (length (a ++ t))) | some i ↦ 2 + i ]
    behind none k = omega (arith, length-append a t)
    behind (some i) k = omega (arith, k i refl)

found_there :
    (c d : ℕ) (a t : Bytes)
    → d ≡ c
    → Lacks c a
    → found_at c (b'/' ∷ b'/' ∷ (a ++ d ∷ t)) 2 ≡ 2 + length a
unfolding found_at
found_there c d a t e h =
    ap (λ k. found_at c (b'/' ∷ b'/' ∷ (a ++ k ∷ t)) 2) e ∙ (rw (strnfind_at a t c h, found_at))

-- what ends the network location: nothing, or one of its three marks
Ends : Bytes → Type 0
Ends [] = Unit {0}
Ends (c ∷ t) = (c ≡ b'/') ⊎ ((c ≡ b'?') ⊎ (c ≡ b'#'))

pub record Netloc (a : Bytes) : Type 0 where
  pub no_slash : Lacks b'/' a
  pub no_question : Lacks b'?' a
  pub no_hash : Lacks b'#' a

Netloc-end :
    (a t : Bytes) → Netloc a → Ends t → split_netloc (b'/' ∷ b'/' ∷ (a ++ t)) 2 ≡ 2 + length a
unfolding split_netloc Ends
Netloc-end a [] n e = omega (
  arith,
  length-append a [],
  found_behind b'/' a [] n.no_slash,
  found_behind b'?' a [] n.no_question,
  found_behind b'#' a [] n.no_hash,
)
Netloc-end a (c ∷ t) n (inl e) = omega (
  arith,
  length-append a (c ∷ t),
  found_there b'/' c a t e n.no_slash,
  found_behind b'?' a (c ∷ t) n.no_question,
  found_behind b'#' a (c ∷ t) n.no_hash,
)
Netloc-end a (c ∷ t) n (inr (inl e)) = omega (
  arith,
  length-append a (c ∷ t),
  found_behind b'/' a (c ∷ t) n.no_slash,
  found_there b'?' c a t e n.no_question,
  found_behind b'#' a (c ∷ t) n.no_hash,
)
Netloc-end a (c ∷ t) n (inr (inr e)) = omega (
  arith,
  length-append a (c ∷ t),
  found_behind b'/' a (c ∷ t) n.no_slash,
  found_behind b'?' a (c ∷ t) n.no_question,
  found_there b'#' c a t e n.no_hash,
)

drop_self : (a t : Bytes) → drop (length a) (a ++ t) ≡ t
drop_self [] t = refl
drop_self (x ∷ a) t = drop_self a t

take_netloc_lem : (a t : Bytes) → Netloc a → Ends t → take_netloc (b'/' ∷ b'/' ∷ (a ++ t)) ≡ (a, t)
unfolding take_netloc eq_bytes
take_netloc_lem a t n e =
    entered (length (a ++ t)) _ _
    ∙ ap (λ j. (take (j - 2) (a ++ t), drop j (b'/' ∷ b'/' ∷ (a ++ t))))
        (Netloc-end a t n e ∙ twice)
    ∙ ap (λ k. (take k (a ++ t), drop (length a) (a ++ t))) two_more
    ∙ rw (take_self_append a t, drop_self a t)
  where
    entered : (n : ℕ) (x y : Bytes × Bytes) → (if leb 2 (suc (suc n)) && true then x else y) ≡ x
    entered n x y = rw (le→leb 2 (suc (suc n)) (omega arith))

    twice : 2 + length a ≡ suc (suc (length a))
    twice = omega arith

    two_more : suc (suc (length a)) - 2 ≡ length a
    two_more = omega arith

-- an http URL whose parts hold none of the marks that end them, with a path that is empty or starts
-- with a slash
pub record IsHttp (u : Url) : Type 0 where
  pub http : u.scheme ≡ codes "http"
  pub location : Netloc u.netloc
  pub some_location : u.netloc ≢ []
  pub is_rooted : rooted u.path ≡ u.path
  pub path_question : Lacks b'?' u.path
  pub path_hash : Lacks b'#' u.path
  pub query_hash : Lacks b'#' u.query

abbrev pub tail_of : Url → Bytes
tail_of u = (u.path ++ mark b'?' u.query) ++ mark b'#' u.fragment

http_parts : Url → Url
http_parts u = record {
  scheme = codes "http";
  netloc = u.netloc;
  path = u.path;
  query = u.query;
  fragment = u.fragment;
}

IsHttp-parts : (u : Url) → IsHttp u → http_parts u ≡ u
unfolding http_parts
IsHttp-parts u h =
    ap
      (λ s. record {
        scheme = s;
        netloc = u.netloc;
        path = u.path;
        query = u.query;
        fragment = u.fragment;
      })
      (sym h.http)

not_nil : (a : Bytes) → a ≢ [] → is_nil a ≡ false
not_nil [] h = absurd (h refl)
not_nil (b ∷ a) h = refl

pub unsplit_http : (u : Url) → IsHttp u → unsplit u ≡ codes "http://" ++ (u.netloc ++ tail_of u)
unfolding unsplit http_parts
unsplit_http u h =
    ap unsplit (sym (IsHttp-parts u h))
    ∙ ap (λ url. add_part b'#' (add_part b'?' (codes "http:" ++ url) u.query) u.fragment)
        (picked (is_nil u.netloc) _ _ _ (not_nil u.netloc h.some_location))
    ∙ ap
        (λ p. add_part b'#' (add_part b'?' (codes "http://" ++ (u.netloc ++ p)) u.query) u.fragment)
        h.is_rooted
    ∙ add_part-mark b'#' (add_part b'?' (codes "http://" ++ (u.netloc ++ u.path)) u.query)
        u.fragment
    ∙ ap (λ k. k ++ mark b'#' u.fragment)
        (add_part-mark b'?' (codes "http://" ++ (u.netloc ++ u.path)) u.query)
    ∙ ap (λ k. codes "http://" ++ (k ++ mark b'#' u.fragment))
        (append_assoc u.netloc u.path (mark b'?' u.query))
    ∙ ap (λ k. codes "http://" ++ k)
        (append_assoc u.netloc (u.path ++ mark b'?' u.query) (mark b'#' u.fragment))
  where
    picked : (b c : Bool) (x y : Bytes) → b ≡ false → (if not b || c then x else y) ≡ x
    picked b c x y e = rw (e)

rooted_slash : (c : ℕ) (p : Bytes) → rooted (c ∷ p) ≡ c ∷ p → c ≡ b'/'
unfolding rooted
rooted_slash c p e = elim (Bool-cases (c == b'/')) [
  | inl slash ↦ (==_iff c b'/').0 slash
  | inr other ↦ absurd (longer (sym (added other) ∙ e))
]
  where
    added : (c == b'/') ≡ false → rooted (c ∷ p) ≡ b'/' ∷ c ∷ p
    added h = rw (h, rooted)

    longer : (b'/' ∷ c ∷ p) ≢ (c ∷ p)
    longer e = omega (arith, ap length e)

tail-Ends :
    (path query fragment : Bytes)
    → rooted path ≡ path
    → Ends ((path ++ mark b'?' query) ++ mark b'#' fragment)
unfolding rooted Ends
tail-Ends [] [] [] e = tt
tail-Ends [] [] (c ∷ f) e = inr (inr refl)
tail-Ends [] (c ∷ q) f e = inr (inl refl)
tail-Ends (c ∷ p) q f e = inl (rooted_slash c p e)

mark-Lacks : (c d : ℕ) (s : Bytes) → d ≢ c → Lacks c s → Lacks c (mark d s)
mark-Lacks c d [] h k = tt
mark-Lacks c d (b ∷ bs) h k = (h, k)

split_tail :
    (u : Url)
    → IsHttp u
    → split_rest true (codes "http") (b'/' ∷ b'/' ∷ (u.netloc ++ tail_of u)) ≡ http_parts u
unfolding split_rest http_parts
split_tail u h = rw (
  take_netloc_lem u.netloc (tail_of u) h.location (tail-Ends u.path u.query u.fragment h.is_rooted),
  cut-mark b'#' (u.path ++ mark b'?' u.query) u.fragment (
      All-append _ u.path (mark b'?' u.query) h.path_hash
        (mark-Lacks b'#' b'?' u.query (omega arith) h.query_hash)),
  cut-mark b'?' u.path u.query h.path_question,
)

split_http : (r : Bytes) → split true (codes "http:" ++ r) ≡ split_rest true (codes "http") r
unfolding split split_scheme to_lower eq_bytes strnfind
split_http r = refl

-- `split` undoes `unsplit` on an http URL with a network location, whose parts hold none of the marks
-- that would end them, and whose path is empty or starts with a slash.
pub split-unsplit : (u : Url) → IsHttp u → split true (unsplit u) ≡ u
split-unsplit u h =
    ap (split true) (unsplit_http u h)
    ∙ split_http (b'/' ∷ b'/' ∷ (u.netloc ++ tail_of u))
    ∙ split_tail u h
    ∙ IsHttp-parts u h
