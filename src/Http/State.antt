-- ===== src/Http/State.antt =====
-- A request, the fields of HTTPConnection with its stream, and code that changes them.
use ctornado.Base.{Bool, Bytes, Error, List, Option, Result, err, ok, ℕ, ◌≡◌}
use ctornado.Str.{Str}
use ctornado.Headers.{Cache, Headers}
use ctornado.Query.{Query}
use ctornado.Form.{File}
use ctornado.Stream.Monad.{M, Stream, Thrown, done, stuck, throws}

-- HTTPRequest, without its times and its cookies
pub record Request : Type 0 where
  pub method : Str
  pub uri : Str
  pub version : Str
  pub headers : Headers
  pub remote_ip : Str
  pub protocol : Str
  pub host : Str
  pub body : Str
  pub path : Str
  pub query : Str
  pub arguments : Query
  pub files : List (Bytes × File)

-- `inet` says whether the socket's family is AF_INET or AF_INET6. `cache` is the static map of
-- HTTPHeaders. `served` are the requests that `request_callback_` was called with, and `frees` counts how
-- often the loop was asked to free the connection.
pub record Connection : Type 0 where
  pub stream : Stream
  pub address : Str
  pub inet : Bool
  pub no_keep_alive : Bool
  pub xheaders : Bool
  pub request : Option Request
  pub request_finished : Bool
  pub header_callback : Option ℕ
  pub write_callback : Option ℕ
  pub cache : Cache
  pub served : List Request
  pub frees : ℕ

-- How code on a connection ends. An exception keeps the changes made before it.
pub data Reply {ℓ} (A : Type ℓ) : Type ℓ where
  gives : A → Connection → Reply A
  raises : Thrown → Connection → Reply A
  fails : Error → Reply A

abbrev pub C : Type 0 → Type 0
C A = Connection → Reply A

infixl 5 ◌>>=◌ ◌>>◌
abbrev pub ◌>>=◌ : {A B : Type 0} → C A → (A → C B) → C B
◌>>=◌ m f c = elim (m c) [ gives a c' ↦ f a c' | raises t c' ↦ raises t c' | fails e ↦ fails e ]

abbrev pub ◌>>◌ : {B : Type 0} → C (Unit {0}) → C B → C B
m >> k = m >>= λ _. k

abbrev pub return : {A : Type 0} → A → C A
return a c = gives a c

abbrev pub modify : (Connection → Connection) → C (Unit {0})
modify f c = gives tt (f c)

-- a call of the stream
abbrev pub on_stream : {A : Type 0} → M A → C A
on_stream m c = elim (m c.stream) [
  | done a s ↦ gives a (record c { stream = s })
  | throws t s ↦ raises t (record c { stream = s })
  | stuck e ↦ fails e
]

abbrev pub of_result : {A : Type 0} → Result A → C A
of_result r c = elim r [ ok a ↦ gives a c | err e ↦ fails e ]

-- a call of HTTPHeaders
abbrev pub on_cache : {A : Type 0} → (Cache → Result (A × Cache)) → C A
on_cache f c = elim (f c.cache) [
  | ok (a, cache) ↦ gives a (record c { cache = cache })
  | err e ↦ fails e
]

pub bind_gives :
    {A B : Type 0} (m : C A) (f : A → C B) (c : Connection) {a : A} {c' : Connection}
    → m c ≡ gives a c'
    → (m >>= f) c ≡ f a c'
bind_gives m f c e = rw (e, ◌>>=◌)

pub bind_fails :
    {A B : Type 0} (m : C A) (f : A → C B) (c : Connection) {e : Error}
    → m c ≡ fails e
    → (m >>= f) c ≡ fails e
bind_fails m f c e = rw (e, ◌>>=◌)

pub on_cache_ok :
    {A : Type 0} (f : Cache → Result (A × Cache)) (c : Connection) {a : A} {cache : Cache}
    → f c.cache ≡ ok (a, cache)
    → on_cache f c ≡ gives a (record c { cache = cache })
on_cache_ok f c e = rw (e, on_cache)

pub on_stream_done :
    {A : Type 0} (m : M A) (c : Connection) {a : A} {s : Stream}
    → m c.stream ≡ done a s
    → on_stream m c ≡ gives a (record c { stream = s })
on_stream_done m c e = rw (e, on_stream)
