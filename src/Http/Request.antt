-- ===== src/Http/Request.antt =====
-- The constructor of HTTPRequest, and `on_headers` and `on_request_body` of HTTPConnection. What PCRE says of a name and what
-- the system says of an address are parameters.
use ctornado.Http.State.{
  C, Request, fails, gives, modify, of_result, on_cache, on_stream, return, ◌>>=◌, ◌>>◌,
}
use ctornado.Http.Connection.{close, get_header, on_request_body_id}
use ctornado.Base.{
  Bool, Bytes, List, Option, [], codes, fault, if◌then◌else◌, ltb, negsuc, none, pos, some, ℕ, ℤ,
  ◌++◌, ◌-◌, ◌^◌, ◌||◌, ◌∷◌,
}
use ctornado.Str.{Str, bytes, eq, is_null, len, null, starts_with, substr, text}
use ctornado.Str.Split.{split, split_pair}
use ctornado.Str.Number.{toi}
use ctornado.Headers.{Headers}
use ctornado.Headers
use ctornado.Query
use ctornado.Form.{form_values}
use ctornado.Stream.Monad.{}
use ctornado.Stream.Read
use ctornado.Stream.Write

-- an `int` that becomes a `size_t`
abbrev pub size_of : ℤ → ℕ
size_of (pos n) = n
size_of (negsuc n) = 2 ^ 64 - 1 - n

-- the three parts of a request line
unfoldable pub three : List Str → Option (Str × Str × Str)
three (a ∷ b ∷ c ∷ []) = some (a, b, c)
three (a ∷ b ∷ c ∷ d ∷ rest) = none
three (a ∷ b ∷ []) = none
three (a ∷ []) = none
three [] = none

-- `request_callback_(request_)`
unfoldable pub serve : C (Unit {0})
serve c = elim c.request [
  | none ↦ fails fault
  | some r ↦ gives tt (record c { served = c.served ++ r ∷ [] })
]

-- `family = stream_->socket_->family_`, which needs the socket, and the address for the request
unfoldable pub peer : C Str
peer c =
    if c.stream.socket
    then gives (if c.inet then c.address else text (codes "0.0.0.0")) c
    else fails fault

-- where the request line ends: `find("\r\n")`, with the length for a line that does not
unfoldable pub line_length : Str → ℕ
unfolding Read.find_delimiter
line_length str = elim (Read.find_delimiter str (codes "\r\n")) [ none ↦ len str | some i ↦ i ]

-- the methods whose body `on_request_body` reads
unfoldable pub has_form : Request → Bool
has_form r =
    eq r.method (text (codes "POST"))
    || (eq r.method (text (codes "PATCH")) || eq r.method (text (codes "PUT")))

-- `full_url`, which is `Str::sprintf("%S://%S%S", …)`
unfoldable pub full_url : Request → Str
full_url r = text (bytes r.protocol ++ codes "://" ++ bytes r.host ++ bytes r.uri)

module _ (matches : Bytes → Bool) where
  -- `parse_body_arguments` for a request
  unfoldable pub read_body : Request → Str → C Request
  unfolding has_form get_header
  read_body r body c =
      if has_form r
      then (do
        content_type ← get_header matches r.headers "Content-Type" (text [])
        (arguments, files) ← on_cache (form_values matches content_type body r.arguments r.files)
        return (record r { arguments = arguments; files = files }))
          c
      else gives r c

  unfoldable pub on_request_body : Str → C (Unit {0})
  unfolding read_body serve
  on_request_body body c = elim c.request [
    | none ↦ fails fault
    | some r ↦
        (do
          filled ← read_body (record r { body = body }) body
          modify (λ c. record c { request = some filled })
          serve)
          c
  ]

module _ (matches valid_ip : Bytes → Bool) where
  -- the address and the protocol of a request behind a proxy
  unfoldable pub proxied : Headers → Str → Str → C (Str × Str)
  unfolding get_header
  proxied h remote_ip protocol = do
    forwarded ← get_header matches h "X-Forwarded-For" remote_ip
    ip ← get_header matches h "X-Real-Ip" forwarded
    forwarded_proto ← get_header matches h "X-Forwarded-Proto" protocol
    proto ← get_header matches h "X-Scheme" forwarded_proto
    return (
      if valid_ip (bytes ip) then ip else remote_ip,
      if eq proto (text (codes "http")) || eq proto (text (codes "https"))
          then proto
          else text (codes "http"),
    )

  -- `HTTPRequest(connection, method, uri, version, headers, remote_ip, protocol, host, body)`
  unfoldable pub make_request : Str → Str → Str → Headers → Str → Str → Str → Str → C Request
  unfolding proxied
  make_request method uri version h remote_ip protocol host body c =
      (do
        found_host ←
            (if is_null host
              then get_header matches h "Host" (text (codes "127.0.0.1"))
              else return host)
        (ip, proto) ←
            (if c.xheaders
              then proxied h remote_ip protocol
              else return (remote_ip, if is_null protocol then text (codes "http") else protocol))
        (path, query) ← of_result (split_pair uri b'?')
        arguments ← of_result (Query.parse query)
        return (record {
          method = method;
          uri = uri;
          version = version;
          headers = h;
          remote_ip = ip;
          protocol = proto;
          host = found_host;
          body = body;
          path = path;
          query = query;
          arguments = arguments;
          files = [];
        }))
        c

  -- the branch of `on_headers` for a request with a body
  unfoldable pub await_body : ℕ → Headers → ℕ → C (Unit {0})
  unfolding close
  await_body fuel h content_length c =
      if ltb c.stream.max_buffer_size content_length
      then close c
      else (do
        expect ← get_header matches h "Expect" null
        (if eq expect (text (codes "100-continue"))
            then on_stream (Write.write (text (codes "HTTP/1.1 100 (Continue)\r\n\r\n")) none)
            else return tt)
        on_stream (Read.read_n_bytes fuel content_length (some on_request_body_id) none))
          c

  -- `on_headers` behind the tests of the request line
  unfoldable pub on_request_line : ℕ → Str → Str → Str → Str → C (Unit {0})
  unfolding make_request await_body serve
  on_request_line fuel method uri version rest c =
      (do
        h ← on_cache (λ cache. Headers.parse matches cache rest)
        remote_ip ← peer
        r ← make_request method uri version h remote_ip null null null
        modify (λ c. record c { request = some r })
        content_length ← get_header matches h "Content-Length" null
        (if is_null content_length
            then serve
            else await_body fuel h (size_of (toi content_length))))
        c

  -- `on_headers` for the parts of the request line
  unfoldable pub on_parts : ℕ → Str → Option (Str × Str × Str) → C (Unit {0})
  on_parts fuel str none = close
  on_parts fuel str (some (method, uri, version)) =
      if starts_with version (text (codes "HTTP/"))
      then of_result (substr str (line_length str) none) >>= on_request_line fuel method uri version
      else close

  unfoldable pub on_headers : ℕ → Str → C (Unit {0})
  unfolding three
  on_headers fuel str = do
    start_line ← of_result (substr str 0 (some (line_length str)))
    strs ← of_result (split start_line b' ')
    on_parts fuel str (three strs)
