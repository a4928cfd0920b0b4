-- ===== src/Http/Body.antt =====
-- `on_request_body`.
use ctornado.Http.State.{Connection, Reply, Request, fails, gives, modify, on_cache, ◌>>=◌, ◌>>◌}
use ctornado.Http.Connection.{get_header}
use ctornado.Http.Request.{has_form, on_request_body, read_body, serve}
use ctornado.Http.Made.{get_header_ok, value_of}
use ctornado.Base.{
  All, Bool, Bool-cases, Bytes, List, Option, [], ap, arith, codes, false, fault, if◌then◌else◌,
  inl, inr, leb, length, length-take, min, none, ok, refl, some, suc, sym, take, true, ℕ, ◌&&◌,
  ◌++◌, ◌<◌, ◌||◌, ◌∙◌, ◌∷◌, ◌≡◌,
}
use ctornado.Headers.{Cache}
use ctornado.Headers.Cached.{IsCache}
use ctornado.Headers.Fields.{Field, add_all}
use ctornado.Form.{File, form_values, parse_body_arguments}
use ctornado.Query.{Query, encode, parse_extend}
use ctornado.Query.RoundTrip.{Behind, IsArgument, Ordered, parse_extend-encode, query_of}
use ctornado.Query.Total.{parse_extend-total}
use ctornado.Chars.{is_alpha, to_lower, to_upper}
use ctornado.Str.{Str, bytes, eq, eq_bytes, null, starts_with, text}
use ctornado.Str.Find.{strnfind}
use ctornado.Str.Transform.{capitalize_each}

abbrev pub content_type_of : List Field → Str
content_type_of fs = value_of fs (codes "Content-Type") (text [])

-- Does the text begin with the other?
abbrev pub begins : Bytes → Bytes → Bool
begins s p = eq_bytes (take (length p) s) p

-- the methods of requests whose body is read as a form
abbrev pub is_form_method : Bytes → Bool
is_form_method m =
    eq_bytes m (codes "POST") || (eq_bytes m (codes "PATCH") || eq_bytes m (codes "PUT"))

-- Are the arguments of the request extended by its body?
abbrev pub extends : List Field → Request → Bool
extends fs r =
    is_form_method (bytes r.method)
    && begins (bytes (content_type_of fs)) (codes "application/x-www-form-urlencoded")

-- the arguments of the request behind a body in URL encoding
abbrev pub extended : List Field → Request → List (Bytes × Bytes) → Query
extended fs r ps = if extends fs r then r.arguments ++ query_of ps else r.arguments

short_fails : (a p : Bytes) → length a < length p → eq_bytes a p ≡ false
unfolding eq_bytes
short_fails a [] h = absurd (omega arith)
short_fails [] (y ∷ p) h = refl
short_fails (x ∷ a) (y ∷ p) h = rw (short_fails a p (omega arith)) (ground arith)

starts_with-begins :
    (s : Str) (c : ℕ) (p : Bytes) → starts_with s (text (c ∷ p)) ≡ begins (bytes s) (c ∷ p)
unfolding starts_with eq_bytes
starts_with-begins null c p = refl
starts_with-begins (text s) c p = elim (Bool-cases (leb (suc (length p)) (length s))) [
  | inl fits ↦ rw (fits) refl
  | inr short ↦ rw (short) (
      sym (
        short_fails (take (suc (length p)) s) (c ∷ p)
          (shorter (length s) (length-take (suc (length p)) s) short)))
]
  where
    shorter :
        {k : ℕ} (n : ℕ)
        → k ≡ min (suc (length p)) n
        → leb (suc (length p)) n ≡ false
        → k < suc (length p)
    shorter n e h = ground (arith, e)

same_method : (m : Str) (c : ℕ) (d : Bytes) → eq m (text (c ∷ d)) ≡ eq_bytes (bytes m) (c ∷ d)
unfolding eq eq_bytes
same_method null c d = refl
same_method (text m) c d = refl

has_form_lem : (r : Request) → has_form r ≡ is_form_method (bytes r.method)
unfolding has_form
has_form_lem r =
    rw
      (
        same_method r.method b'P' (codes "OST"),
        same_method r.method b'P' (codes "ATCH"),
        same_method r.method b'P' (codes "UT"),
      )
      refl

-- the same by the tests of the code
abbrev tests : List Field → Request → Bool
tests fs r =
    has_form r
    && starts_with (content_type_of fs) (text (codes "application/x-www-form-urlencoded"))

tests_lem : (fs : List Field) (r : Request) → tests fs r ≡ extends fs r
tests_lem fs r =
    rw
      (
        has_form_lem r,
        starts_with-begins (content_type_of fs) b'a' (codes "pplication/x-www-form-urlencoded"),
      )
      refl

parsed_body :
    (fs : List Field) (r : Request) (ps : List (Bytes × Bytes)) (q : Query)
    → parse_extend r.arguments (encode (query_of ps)) ≡ ok (r.arguments ++ query_of ps)
    → (if tests fs r then parse_extend r.arguments (encode (query_of ps)) else ok r.arguments)
      ≡ ok q
    → q ≡ extended fs r ps
parsed_body fs r ps q e k = by_test (tests fs r) (extends fs r) (tests_lem fs r) k
  where
    by_test :
        (b c : Bool)
        → b ≡ c
        → (if b then parse_extend r.arguments (encode (query_of ps)) else ok r.arguments) ≡ ok q
        → q ≡ (if c then r.arguments ++ query_of ps else r.arguments)
    by_test true true h k = cc
    by_test false false h k = cc
    by_test true false h k = cc
    by_test false true h k = cc

module _ (matches : Bytes → Bool) where
  form_values_ok :
      (content_type body : Str) (q : Query) (files : List (Bytes × File)) (cache : Cache)
      → starts_with content_type (text (codes "multipart/form-data")) ≡ false
      → (q' : Query) × (form_values matches content_type body q files cache
          ≡ ok ((q', files), cache))
        × ((if starts_with content_type (text (codes "application/x-www-form-urlencoded"))
              then parse_extend q body
              else ok q)
            ≡ ok q')
  unfolding form_values parse_body_arguments
  form_values_ok content_type body q files cache single =
      elim (Bool-cases
        (starts_with content_type (text (codes "application/x-www-form-urlencoded")))) [
          | inl encoded ↦
              let (q', run) = parse_extend-total q body in
              (q', rw (encoded, run) refl, rw (encoded) run)
          | inr other ↦ (q, rw (other, single) refl, rw (other) refl)
        ]

  read_body_ok :
      (fs : List Field) (r : Request) (body : Str) (c : Connection)
      → r.headers ≡ add_all [] fs
      → IsCache matches c.cache
      → starts_with (content_type_of fs) (text (codes "multipart/form-data")) ≡ false
      → (q : Query) × (last : Cache) × (read_body matches r body c
          ≡ gives (record r { arguments = q }) (record c { cache = last }))
        × ((if tests fs r then parse_extend r.arguments body else ok r.arguments) ≡ ok q)
        × IsCache matches last
  unfolding read_body capitalize_each strnfind is_alpha to_lower to_upper
  read_body_ok fs r body c same v single = elim (Bool-cases (has_form r)) [
    | inr no_form ↦ (r.arguments, c.cache, rw (no_form) refl, rw (no_form) refl, v)
    | inl form ↦
        let (last, e, w) = get_header_ok matches fs "Content-Type" (text []) c refl v in
        let (q, run, is_q) =
          form_values_ok (content_type_of fs) body r.arguments r.files last single in
        (
          q,
          last,
          rw
              (
                form,
                ap (λ h. get_header matches h "Content-Type" (text []) c) same ∙ e,
                run,
                ◌>>=◌,
                on_cache,
              )
              refl,
          rw (form) is_q,
          w,
        )
  ]

  on_request_body_ok :
      (fs : List Field) (r : Request) (body : Str) (c : Connection)
      → c.request ≡ some r
      → r.headers ≡ add_all [] fs
      → IsCache matches c.cache
      → starts_with (content_type_of fs) (text (codes "multipart/form-data")) ≡ false
      → (q : Query) × (last : Cache) × (on_request_body matches body c
          ≡ gives tt (record c {
            cache = last;
            request = some (record r { body = body; arguments = q });
            served = c.served ++ record r { body = body; arguments = q } ∷ [];
          }))
        × ((if tests fs r then parse_extend r.arguments body else ok r.arguments) ≡ ok q)
        × IsCache matches last
  unfolding on_request_body serve
  on_request_body_ok fs r body c e same v single =
      let (q, last, run, is_q, w) =
        read_body_ok fs (record r { body = body }) body c same v single in
      (q, last, at c.request e ∙ rw (run, ◌>>=◌) refl, is_q, w)
    where
      after : Request → Reply (Unit {0})
      after r =
          (read_body matches (record r { body = body }) body >>= λ filled.
          modify (λ c. record c { request = some filled }) >> serve)
            c

      at :
          (o : Option Request)
          → o ≡ some r
          → elim o as (λ x. Reply (Unit {0})) [ none ↦ fails fault | some r ↦ after r ] ≡ after r
      at o k = rw (k)

  -- `on_request_body`, for a request whose content type is not that of a form in parts, with a body that
  -- encodes arguments in URL encoding, as `encode` writes them: the names in their order and behind
  -- those of the request, no value empty. It returns, and has called `request_callback_` once, with the
  -- request and its body. If the method is POST, PATCH or PUT and the content type is URL encoding, the
  -- request has these arguments behind its own; otherwise its own only. Nothing else of the connection
  -- changes but the cache, which stays valid.
  pub on_request_body-serves :
      (fs : List Field) (r : Request) (ps : List (Bytes × Bytes)) (c : Connection)
      → c.request ≡ some r
      → r.headers ≡ add_all [] fs
      → IsCache matches c.cache
      → begins (bytes (content_type_of fs)) (codes "multipart/form-data") ≡ false
      → All IsArgument ps
      → Ordered ps
      → Behind r.arguments ps
      → (r' : Request) × (last : Cache) × (on_request_body matches (encode (query_of ps)) c
          ≡ gives tt (record c { cache = last; request = some r'; served = c.served ++ r' ∷ [] }))
        × (r' ≡ record r { body = encode (query_of ps); arguments = extended fs r ps })
        × IsCache matches last
  on_request_body-serves fs r ps c e same v single i o b =
      let (q, last, run, is_q, w) =
        on_request_body_ok fs r (encode (query_of ps)) c e same v
          (starts_with-begins (content_type_of fs) b'm' (codes "ultipart/form-data") ∙ single) in
      (
        record r { body = encode (query_of ps); arguments = q },
        last,
        run,
        ap (λ q. record r { body = encode (query_of ps); arguments = q })
            (parsed_body fs r ps q (parse_extend-encode r.arguments ps i o b) is_q),
        w,
      )
