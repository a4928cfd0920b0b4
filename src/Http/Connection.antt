-- ===== src/Http/Connection.antt =====
-- The operations of HTTPConnection. The callbacks that it binds are the numbers `on_headers_id` and so
-- on. What PCRE says of a name is a parameter.
use Prim.Native.String.{String}
use ctornado.Http.State.{
  C, Reply, Request, fails, gives, modify, of_result, on_cache, on_stream, return, ◌>>◌, ◌>>=◌,
}
use ctornado.Base.{
  Bool, Bytes, Option, [], codes, false, fault, if◌then◌else◌, ltb, none, not, some, true, ℕ, ◌&&◌,
  ◌+◌, ◌||◌,
}
use ctornado.Str.{Str, eq, is_null, null, text}
use ctornado.Str.Find.{}
use ctornado.Str.Split.{}
use ctornado.Str.Transform.{lower}
use ctornado.Str.Number.{}
use ctornado.Headers.{Cache, Headers}
use ctornado.Headers
use ctornado.Stream.Monad.{Stream}
use ctornado.Stream.Close
use ctornado.Stream.Read
use ctornado.Stream.Write

abbrev pub on_headers_id : ℕ
on_headers_id = 0

abbrev pub on_request_body_id : ℕ
on_request_body_id = 1

abbrev pub on_write_complete_id : ℕ
on_write_complete_id = 2

abbrev pub end_of_headers : Bytes
end_of_headers = codes "\r\n\r\n"

-- `closed` and `writing` of the stream
abbrev pub writing : Stream → Bool
writing s = ltb 0 s.write_buffer.size

unfoldable pub close : C (Unit {0})
close = do
  on_stream Close.close
  modify (λ c. record c { header_callback = none; frees = c.frees + 1 })

-- `stream_->read_until("\r\n\r\n", header_callback_)`
unfoldable pub read_headers : ℕ → C (Unit {0})
read_headers fuel c = on_stream (Read.read_until fuel end_of_headers c.header_callback) c

-- The constructor of HTTPConnection. `inet` is what the socket says of its family, `cache` the static map
-- of HTTPHeaders.
unfoldable pub connect : ℕ → Stream → Str → Bool → Bool → Bool → Cache → Reply (Unit {0})
unfolding read_headers
connect fuel stream address no_keep_alive xheaders inet cache = read_headers fuel (record {
  stream = stream;
  address = address;
  inet = inet;
  no_keep_alive = no_keep_alive;
  xheaders = xheaders;
  request = none;
  request_finished = false;
  header_callback = some on_headers_id;
  write_callback = none;
  cache = cache;
  served = [];
  frees = 0;
})

-- `write`, with its ASSERT
unfoldable pub write : Str → Option ℕ → C (Unit {0})
write chunk callback c = elim c.request [
  | none ↦ fails fault
  | some r ↦
      if c.stream.socket
      then on_stream (Write.write chunk (some on_write_complete_id))
          (record c { write_callback = callback })
      else gives tt c
]

module _ (matches : Bytes → Bool) where
  unfoldable pub get_header : Headers → String → Str → C Str
  get_header h name default = on_cache (λ cache. Headers.get matches cache h (codes name) default)

  -- the tests for a request that is not HTTP/1.1
  unfoldable pub wants_close_1_0 : Request → Str → C Bool
  wants_close_1_0 r connection = do
    has_length ← on_cache (λ cache. Headers.has matches cache r.headers (codes "Content-Length"))
    return (
        if has_length || (eq r.method (text (codes "HEAD")) || eq r.method (text (codes "GET")))
        then not (eq connection (text (codes "keep-alive")))
        else true)

  -- the tests of `finish_request`: is the connection closed?
  unfoldable pub wants_close : Request → C Bool
  unfolding get_header wants_close_1_0
  wants_close r = do
    header ← get_header r.headers "Connection" null
    connection ← (if is_null header then return header else of_result (lower header))
    (if eq r.version (text (codes "HTTP/1.1"))
        then return (eq connection (text (codes "close")))
        else wants_close_1_0 r connection)

  unfoldable pub finish_request : ℕ → C (Unit {0})
  unfolding wants_close close read_headers
  finish_request fuel c =
      (do
        disconnect ←
            (if c.no_keep_alive then return true else elim c.request as (λ x. C Bool) [
              | none ↦ (λ c. fails fault)
              | some r ↦ wants_close r
            ])
        modify (λ c. record c { request = none; request_finished = false })
        (if disconnect then close else read_headers fuel))
        c

  -- `finish`, with its ASSERT
  unfoldable pub finish : ℕ → C (Unit {0})
  unfolding finish_request
  finish fuel c = elim c.request [
    | none ↦ fails fault
    | some r ↦
        if writing c.stream
        then gives tt (record c { request_finished = true })
        else finish_request fuel (record c { request_finished = true })
  ]

  -- the second half of `on_write_complete`
  unfoldable pub finish_written : ℕ → C (Unit {0})
  unfolding finish_request
  finish_written fuel c =
      if c.request_finished && not (writing c.stream) then finish_request fuel c else gives tt c

  -- `on_write_complete`, for what the callbacks that the user gave to `write` do
  unfoldable pub on_write_complete : (ℕ → C (Unit {0})) → ℕ → C (Unit {0})
  unfolding finish_written
  on_write_complete user fuel c = elim c.write_callback [
    | none ↦ finish_written fuel c
    | some callback ↦ (user callback >> finish_written fuel) (record c { write_callback = none })
  ]
