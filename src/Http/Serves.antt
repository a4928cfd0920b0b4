-- ===== src/Http/Serves.antt =====
-- `on_headers` on the head of a request: a request line, fields and an empty line.
use ctornado.Http.State.{C, Connection, Reply, Request, fails, gives, on_cache, ◌>>=◌}
use ctornado.Http.Connection.{}
use ctornado.Http.Request.{await_body, on_headers, on_request_line, peer, serve, size_of}
use ctornado.Http.Line.{IsWord, on_headers_line, request_line}
use ctornado.Http.Made.{Describes, get_header_ok, make_request_ok}
use ctornado.Http.Shut.{close-Shut}
use ctornado.Base.{
  All, Bool, Bytes, List, Option, [], ap, codes, false, fault, if◌then◌else◌, lt→ltb, none, ok,
  refl, some, true, ℕ, ◌++◌, ◌+◌, ◌<◌, ◌^◌, ◌∙◌, ◌∷◌, ◌≡◌, ◌≢◌,
}
use ctornado.Headers.{Cache, parse}
use ctornado.Headers.Cached.{IsCache}
use ctornado.Headers.Fields.{Field, IsField, add_all, field_lines, parse_at, values_at}
use ctornado.Str.{Str, is_null, len, null, starts_with, text}
use ctornado.Str.Number.{toi}
use ctornado.Str.Lines.{block}
use ctornado.Str.Digits.{toi-value, value}
use ctornado.Str.Find.{strnfind}
use ctornado.Str.Transform.{capitalize_each}
use ctornado.Chars.{is_alpha, is_digit, to_lower, to_upper}
use ctornado.Buffer.Content.{IsValid}
use ctornado.Stream.Shutdown.{Closed}
use ctornado.Stream.Monad.{}

-- the head of a request
pub record Head : Type 0 where
  pub method : Bytes
  pub uri : Bytes
  pub version : Bytes
  pub fields : List Field

-- as it comes on the wire
abbrev pub head_text : Head → Str
head_text h =
    text (request_line h.method h.uri h.version ++ b'\r' ∷ b'\n' ∷ block (field_lines h.fields))

peer_ok :
    (c : Connection)
    → c.stream.socket ≡ true
    → peer c ≡ gives (if c.inet then c.address else text (codes "0.0.0.0")) c
unfolding peer
peer_ok c e = picked c.stream.socket _ _ e
  where
    picked : (b : Bool) (x y : Reply Str) → b ≡ true → (if b then x else y) ≡ x
    picked b x y e = rw (e)

module _ (matches valid_ip : Bytes → Bool) where
  pub record IsHead (h : Head) : Type 0 where
    pub method_word : IsWord h.method
    pub uri_word : IsWord h.uri
    pub version_word : IsWord h.version
    pub is_http : starts_with (text h.version) (text (codes "HTTP/")) ≡ true
    pub fields_fit : All (IsField matches) h.fields

  on_headers_fields :
      (fuel : ℕ) (h : Head) (c : Connection)
      → IsHead h
      → IsCache matches c.cache
      → (l : Cache) × (on_headers matches valid_ip fuel (head_text h) c
          ≡ on_request_line matches valid_ip fuel
              (text h.method)
              (text h.uri)
              (text h.version)
              (text (b'\r' ∷ b'\n' ∷ block (field_lines h.fields)))
              c)
        × (parse matches c.cache (text (b'\r' ∷ b'\n' ∷ block (field_lines h.fields)))
            ≡ ok (add_all [] h.fields, l))
        × IsCache matches l
  on_headers_fields fuel h c i v =
      let (l, run, w) = parse_at matches c.cache h.fields v i.fields_fit in
      (
        l,
        on_headers_line matches valid_ip fuel h.method h.uri h.version
            (block (field_lines h.fields)) c i.method_word i.uri_word i.version_word i.is_http,
        run,
        w,
      )

  -- A well-formed request whose client has gone: once the stream has no socket, `on_headers` uses a null
  -- pointer, and this is all that it does.
  pub on_headers-without_socket :
      (fuel : ℕ) (h : Head) (c : Connection)
      → IsHead h
      → IsCache matches c.cache
      → c.stream.socket ≡ false
      → on_headers matches valid_ip fuel (head_text h) c ≡ fails fault
  unfolding on_request_line peer
  on_headers-without_socket fuel h c i v gone =
      let (l, run, e, w) = on_headers_fields fuel h c i v in
      run ∙ rw (e, gone, ◌>>=◌, on_cache) refl

  -- what `on_headers` does behind the constructor, for the value of Content-Length
  abbrev behind : ℕ → Head → Str → C (Unit {0})
  behind fuel h len =
      if is_null len
      then serve
      else await_body matches valid_ip fuel (add_all [] h.fields) (size_of (toi len))

  on_headers_made :
      (fuel : ℕ) (h : Head) (c : Connection) (o : Option Str)
      → values_at (codes "Content-Length") none h.fields ≡ o
      → IsHead h
      → IsCache matches c.cache
      → c.stream.socket ≡ true
      → (last : Cache) × (r : Request) × (on_headers matches valid_ip fuel (head_text h) c
          ≡ behind fuel h
              (elim o [ none ↦ null | some v ↦ v ])
              (record c { cache = last; request = some r }))
        × IsCache matches last
        × Describes matches valid_ip h.method h.uri h.version h.fields
            (if c.inet then c.address else text (codes "0.0.0.0"))
            c.xheaders
            r
  unfolding on_request_line capitalize_each strnfind is_alpha to_lower to_upper
  on_headers_made fuel h c o found i v open_socket =
      let address = if c.inet then c.address else text (codes "0.0.0.0") in
      let (l1, run, e1, v1) = on_headers_fields fuel h c i v in
      let (l2, r, e2, v2, d) =
        make_request_ok matches valid_ip h.method h.uri h.version h.fields address
          (record c { cache = l1 }) v1 in
      let (l3, e3, v3) =
        get_header_ok matches h.fields "Content-Length" null
          (record c { cache = l2; request = some r }) refl v2 in
      (
        l3,
        r,
        run
            ∙ rw (e1, peer_ok (record c { cache = l1 }) open_socket, e2, e3, ◌>>=◌, on_cache)
                (ap
                  (λ o.
                    behind fuel h (elim o [ none ↦ null | some v ↦ v ])
                      (record c { cache = l3; request = some r }))
                  found),
        v3,
        d,
      )

  -- The head of a request without a field Content-Length, on a connection whose socket is open:
  -- `on_headers` returns, and has called `request_callback_` once, with a request that has the parts of
  -- the request line, the fields, and the arguments of the query. Nothing else of the connection changes
  -- but the cache, which stays valid.
  pub on_headers-serves :
      (fuel : ℕ) (h : Head) (c : Connection)
      → IsHead h
      → IsCache matches c.cache
      → c.stream.socket ≡ true
      → values_at (codes "Content-Length") none h.fields ≡ none
      → (last : Cache) × (r : Request) × (on_headers matches valid_ip fuel (head_text h) c
          ≡ gives tt (record c { cache = last; request = some r; served = c.served ++ r ∷ [] }))
        × IsCache matches last
        × Describes matches valid_ip h.method h.uri h.version h.fields
            (if c.inet then c.address else text (codes "0.0.0.0"))
            c.xheaders
            r
  unfolding serve is_null
  on_headers-serves fuel h c i v open_socket missing =
      let (last, r, run, w, d) = on_headers_made fuel h c none missing i v open_socket in
      (last, r, run, w, d)

  -- A field Content-Length of decimal digits whose value is below 2^31 and above the stream's limit, on a
  -- connection whose socket is open and whose read buffer is valid: `on_headers` returns with the
  -- connection closed and its memory to be freed once, and no request is served. Of a value of 2^31 or
  -- more, which an `int` does not hold, nothing is stated.
  pub on_headers-too_long :
      (fuel : ℕ) (h : Head) (c : Connection) (d : Bytes)
      → IsHead h
      → IsCache matches c.cache
      → c.stream.socket ≡ true
      → IsValid c.stream.read_buffer
      → values_at (codes "Content-Length") none h.fields ≡ some (text d)
      → All (λ b. is_digit b ≡ true) d
      → d ≢ []
      → value 0 d < 2 ^ 31
      → c.stream.max_buffer_size < value 0 d
      → (c' : Connection) × (on_headers matches valid_ip fuel (head_text h) c ≡ gives tt c')
        × Closed c.stream c'.stream
        × (c'.header_callback ≡ none)
        × (c'.frees ≡ c.frees + 1)
        × (c'.served ≡ c.served)
  unfolding await_body is_null
  on_headers-too_long fuel h c d i v open_socket b found digits some_digit small above =
      let (last, r, run, w, made) =
        on_headers_made fuel h c (some (text d)) found i v open_socket in
      let (c', shut, s) = close-Shut (record c { cache = last; request = some r }) b in
      (
        c',
        run
            ∙ rw
                (
                  toi-value d digits some_digit small,
                  lt→ltb c.stream.max_buffer_size (value 0 d) above,
                )
                shut,
        s.stream_closed,
        s.no_header_callback,
        s.freed,
        s.same_served,
      )
