-- ===== src/Http/KeepAlive.antt =====
-- `finish_request`: whether the connection is kept for the client's next request.
use ctornado.Http.State.{
  C, Connection, Request, fails, gives, of_result, on_cache_ok, on_stream_done, return, ◌>>=◌,
}
use ctornado.Http.Connection.{
  close, end_of_headers, finish_request, read_headers, wants_close, wants_close_1_0,
}
use ctornado.Http.Made.{get_header_ok, normal_itself, value_of}
use ctornado.Http.Shut.{close-Shut}
use ctornado.Base.{
  Bool, Bool-cases, Bytes, List, Option, [], ap, arith, codes, drop, false, fault, if◌then◌else◌,
  inl, inr, map, none, not, ok, refl, some, take, true, ℕ, ◌&&◌, ◌++◌, ◌+◌, ◌<◌, ◌||◌, ◌∙◌, ◌∷◌,
  ◌≡◌,
}
use ctornado.Headers.{Cache, has}
use ctornado.Headers.Cached.{IsCache}
use ctornado.Headers.Fields.{Field, add_all, has_field, values_at}
use ctornado.Str.{Str, bytes, eq, is_null, len, null, text}
use ctornado.Str.Find.{memmem, strnfind}
use ctornado.Str.Transform.{capitalize_each, lower}
use ctornado.Chars.{is_alpha, to_lower, to_upper}
use ctornado.Buffer
use ctornado.Buffer.{Buffer, front}
use ctornado.Stream.Monad.{Stream, call_data}
use ctornado.Stream.Read.{read_until}
use ctornado.Buffer.Content.{IsValid, contents}
use ctornado.Stream.Shutdown.{Closed}
use ctornado.Stream.Idle.{inline_found, read_until_idle}
use ctornado.Stream.Front.{delivered}
use ctornado.Stream.Delimiter.{Waits, read_until_found}

-- the value of Connection in lower case
abbrev pub lowered : Str → Str
lowered null = null
lowered (text s) = text (map to_lower s)

abbrev pub connection_option : List Field → Str
connection_option fs = lowered (value_of fs (codes "Connection") null)

abbrev pub has_length : List Field → Bool
has_length fs = elim (values_at (codes "Content-Length") none fs) [ none ↦ false | some v ↦ true ]

-- Is the connection kept behind the request? A client of HTTP/1.1 says `close` if not, and any other
-- says `keep-alive` if so, on a request whose end is known.
abbrev pub stays : List Field → Request → Bool
stays fs r =
    if eq r.version (text (codes "HTTP/1.1"))
    then not (eq (connection_option fs) (text (codes "close")))
    else ((has_length fs || (eq r.method (text (codes "HEAD")) || eq r.method (text (codes "GET"))))
        && eq (connection_option fs) (text (codes "keep-alive")))

lowered_ok :
    (header : Str) (c : Connection)
    → (if is_null header then return header else of_result (lower header)) c
      ≡ gives (lowered header) c
unfolding is_null lower
lowered_ok null c = refl
lowered_ok (text s) c = refl

not-not : (b : Bool) → b ≡ not (not b)
not-not true = refl
not-not false = refl

not_and : (a b : Bool) → (if a then not b else true) ≡ not (a && b)
not_and true b = refl
not_and false b = refl

module _ (matches : Bytes → Bool) where
  wants_close_1_0_ok :
      (fs : List Field) (r : Request) (connection : Str) (c : Connection)
      → r.headers ≡ add_all [] fs
      → IsCache matches c.cache
      → (last : Cache) × (wants_close_1_0 matches r connection c
          ≡ gives
              (not (
                (has_length fs
                  || (eq r.method (text (codes "HEAD")) || eq r.method (text (codes "GET"))))
                && eq connection (text (codes "keep-alive"))))
              (record c { cache = last }))
        × IsCache matches last
  unfolding wants_close_1_0 capitalize_each strnfind is_alpha to_lower to_upper
  wants_close_1_0_ok fs r connection c same v =
      let (last, e, w) =
        has_field matches c.cache fs (codes "Content-Length") (codes "Content-Length") v
          (normal_itself matches (codes "Content-Length") refl) in
      (
        last,
        rw
            (
              same,
              on_cache_ok (λ cache. has matches cache (add_all [] fs) (codes "Content-Length")) c e,
              ◌>>=◌,
            )
            (ap (λ b. gives b (record c { cache = last })) (not_and _ _)),
        w,
      )

  wants_close_ok :
      (fs : List Field) (r : Request) (c : Connection)
      → r.headers ≡ add_all [] fs
      → IsCache matches c.cache
      → (last : Cache) × (wants_close matches r c
          ≡ gives (not (stays fs r)) (record c { cache = last }))
        × IsCache matches last
  unfolding wants_close capitalize_each strnfind is_alpha to_lower to_upper
  wants_close_ok fs r c same v =
      let (l1, e1, v1) = get_header_ok matches fs "Connection" null c refl v in
      let (l2, e2, v2) =
        wants_close_1_0_ok fs r (connection_option fs) (record c { cache = l1 }) same v1 in
      elim (Bool-cases (eq r.version (text (codes "HTTP/1.1")))) [
        | inl newer ↦ (
          l1,
          rw
              (
                same,
                e1,
                lowered_ok (value_of fs (codes "Connection") null) (record c { cache = l1 }),
                newer,
                ◌>>=◌,
              )
              (ap (λ b. gives b (record c { cache = l1 })) (not-not _)),
          v1,
        )
        | inr older ↦ (
          l2,
          rw
              (
                same,
                e1,
                lowered_ok (value_of fs (codes "Connection") null) (record c { cache = l1 }),
                older,
                ◌>>=◌,
              )
              e2,
          v2,
        )
      ]

  disconnect_ok :
      (no_keep_alive : Bool) (o : Option Request) (fs : List Field) (r : Request) (c : Connection)
      → o ≡ some r
      → r.headers ≡ add_all [] fs
      → IsCache matches c.cache
      → (last : Cache) × ((if no_keep_alive then return true else elim o as (λ x. C Bool) [
        | none ↦ (λ c. fails fault)
        | some r ↦ wants_close matches r
      ])
            c
          ≡ gives (no_keep_alive || not (stays fs r)) (record c { cache = last }))
        × IsCache matches last
  disconnect_ok true o fs r c e same v = (c.cache, refl, v)
  disconnect_ok false o fs r c e same v =
      let (last, run, w) = wants_close_ok fs r c same v in (last, rw (e) run, w)

  pub finish_request_ok :
      (fuel : ℕ) (fs : List Field) (r : Request) (c : Connection)
      → c.request ≡ some r
      → r.headers ≡ add_all [] fs
      → IsCache matches c.cache
      → (last : Cache) × (finish_request matches fuel c
          ≡ (if c.no_keep_alive || not (stays fs r) then close else read_headers fuel)
              (record c { cache = last; request = none; request_finished = false }))
        × IsCache matches last
  unfolding finish_request
  finish_request_ok fuel fs r c e same v =
      let (last, run, w) = disconnect_ok c.no_keep_alive c.request fs r c e same v in
      (last, rw (run, ◌>>=◌) refl, w)

  -- `finish_request` behind a request that the connection is not kept for, on a connection whose read
  -- buffer is valid: it returns with the request forgotten, the connection closed, and its memory to be
  -- freed once.
  pub finish_request-closes :
      (fuel : ℕ) (fs : List Field) (r : Request) (c : Connection)
      → c.request ≡ some r
      → r.headers ≡ add_all [] fs
      → IsCache matches c.cache
      → IsValid c.stream.read_buffer
      → (c.no_keep_alive || not (stays fs r)) ≡ true
      → (c' : Connection) × (finish_request matches fuel c ≡ gives tt c')
        × Closed c.stream c'.stream
        × (c'.request ≡ none)
        × (c'.header_callback ≡ none)
        × (c'.frees ≡ c.frees + 1)
  finish_request-closes fuel fs r c e same v b ends =
      let (last, run, w) = finish_request_ok fuel fs r c e same v in
      let (c', shut, s) =
        close-Shut (record c { cache = last; request = none; request_finished = false }) b in
      (
        c',
        run
            ∙ ap
                (λ k.
                  (if k then close else read_headers fuel)
                    (record c { cache = last; request = none; request_finished = false }))
                ends
            ∙ shut,
        s.stream_closed,
        s.same_request,
        s.no_header_callback,
        s.freed,
      )

  read_headers_found :
      (fuel : ℕ) (c : Connection) (first : Str) (i : ℕ)
      → c.stream.read_callback ≡ none
      → IsValid c.stream.read_buffer
      → c.stream.streaming_callback ≡ none
      → c.stream.read_bytes ≡ 0
      → Buffer.top c.stream.read_buffer ≡ ok first
      → 0 < len first
      → memmem (contents c.stream.read_buffer) end_of_headers ≡ some i
      → c.stream.read_buffer.size < fuel
      → (head : Str) × (b : Buffer) × (read_headers fuel c
          ≡ gives tt (record c {
            stream =
                delivered
                  (record c.stream { read_callback = c.header_callback; read_delimiter = none })
                  b
                  head;
          }))
        × (bytes head ≡ take (i + 4) (contents c.stream.read_buffer))
        × (contents b ≡ drop (i + 4) (contents c.stream.read_buffer))
        × IsValid b
  unfolding read_headers
  read_headers_found fuel c first i idle v streams counts t l m f =
      let s : Stream = record c.stream {
        read_callback = c.header_callback;
        read_delimiter = some end_of_headers;
      } in
      let waits : Waits end_of_headers s = record {
        valid = v;
        no_streaming = streams;
        no_count = counts;
        waits_for = refl;
      } in
      let (head, b, run, front, back, valid) =
        read_until_found fuel end_of_headers s first i waits t l (omega arith) m f in
      (
        head,
        b,
        on_stream_done (read_until fuel end_of_headers c.header_callback) c (
            read_until_idle fuel end_of_headers c.header_callback c.stream idle
            ∙ inline_found fuel s run),
        front,
        back,
        valid,
      )

  -- `finish_request` behind a request that the connection is kept for, where the head of the next
  -- request is in the read buffer already, no read is under way, the first chunk has bytes, and the fuel
  -- is more than the buffer's bytes: it returns with the request forgotten, and the head, up to its empty
  -- line, is scheduled for the callback of headers; the bytes behind it stay.
  pub finish_request-next :
      (fuel : ℕ) (fs : List Field) (r : Request) (c : Connection) (first : Str) (i : ℕ)
      → c.request ≡ some r
      → r.headers ≡ add_all [] fs
      → IsCache matches c.cache
      → (c.no_keep_alive || not (stays fs r)) ≡ false
      → c.stream.read_callback ≡ none
      → IsValid c.stream.read_buffer
      → c.stream.streaming_callback ≡ none
      → c.stream.read_bytes ≡ 0
      → Buffer.top c.stream.read_buffer ≡ ok first
      → 0 < len first
      → memmem (contents c.stream.read_buffer) end_of_headers ≡ some i
      → c.stream.read_buffer.size < fuel
      → (c' : Connection) × (head : Str) × (finish_request matches fuel c ≡ gives tt c')
        × (c'.request ≡ none)
        × (c'.stream.tasks ≡ c.stream.tasks ++ call_data c.header_callback head ∷ [])
        × (bytes head ≡ take (i + 4) (contents c.stream.read_buffer))
        × (contents c'.stream.read_buffer ≡ drop (i + 4) (contents c.stream.read_buffer))
  finish_request-next fuel fs r c first i e same v stay idle valid streams counts t l m f =
      let (last, run, w) = finish_request_ok fuel fs r c e same v in
      let next : Connection = record c { cache = last; request = none; request_finished = false } in
      let (head, b, more, front, back, ok_now) =
        read_headers_found fuel next first i idle valid streams counts t l m f in
      (
        _,
        head,
        run ∙ ap (λ k. (if k then close else read_headers fuel) next) stay ∙ more,
        refl,
        refl,
        front,
        back,
      )
