-- ===== src/Stream/Monad.antt =====
-- The fields of IOStream, what it asks of the socket and of the loop, and code that changes them.
use ctornado.Buffer.{Buffer}
use ctornado.Base.{
  Bool, Bytes, Error, List, Option, Result, err, false, none, ok, some, true, ℕ, ◌||◌, ◌≡◌,
}
use ctornado.Str.{Str}

-- the event bits READ, WRITE and ERROR of a mask
pub record Events : Type 0 where
  pub on_read : Bool
  pub on_write : Bool
  pub on_error : Bool

-- mask 0
abbrev pub no_events : Events
no_events = record { on_read = false; on_write = false; on_error = false }

-- What `recv` answers: bytes, 0 at the end, EWOULDBLOCK or EAGAIN, or another errno.
pub data Recv : Type 0 where
  received : Bytes → Recv
  at_end : Recv
  recv_blocks : Recv
  recv_fails : ℕ → Recv

-- What `send` answers: for how many bytes there is room, EWOULDBLOCK or EAGAIN, or another errno.
pub data Send : Type 0 where
  sent : ℕ → Send
  send_blocks : Send
  send_fails : ℕ → Send

-- What `pcre_exec` answers: the end of the match, no match, or an error.
pub data Exec : Type 0 where
  match_end : ℕ → Exec
  no_match : Exec
  exec_fails : Exec

-- the errno of a call that would block
abbrev pub eagain : ℕ
eagain = 11

-- the errno of a connect that goes on
abbrev pub einprogress : ℕ
einprogress = 115

-- What the stream has given to `add_callback`, with the user's callback (`none` for a null one).
pub data Task : Type 0 where
  call : Option ℕ → Task
  call_data : Option ℕ → Str → Task
  call_close : Task

-- `socket` says whether `socket_` is not null. `incoming` and `accepting` are the socket's next answers
-- (after the last, it blocks), `handler` is the mask that the loop holds for the descriptor, `tasks` what
-- was handed to `add_callback`, `wire` the bytes that `send` took. A compiled regex is what `exec`
-- answers; `sys_errno` is `errno`.
pub record Stream : Type 0 where
  pub socket : Bool
  pub max_buffer_size : ℕ
  pub error : Option ℕ
  pub read_buffer : Buffer
  pub write_buffer : Buffer
  pub write_buffer_frozen : Bool
  pub read_delimiter : Option Bytes
  pub read_regex : Option (Str → Exec)
  pub read_bytes : ℕ
  pub read_until_close : Bool
  pub read_callback : Option ℕ
  pub streaming_callback : Option ℕ
  pub write_callback : Option ℕ
  pub close_callback : Option ℕ
  pub connect_callback : Option ℕ
  pub connecting : Bool
  pub state : Events
  pub pending_callbacks : ℕ
  pub sys_errno : ℕ
  pub incoming : List Recv
  pub accepting : List Send
  pub handler : Option Events
  pub tasks : List Task
  pub wire : Bytes

-- the exceptions of this class: `IOError` with its text, and `SocketError` with its number
pub data Thrown : Type 0 where
  stream_is_closed buffer_is_full : Thrown
  socket_error : ℕ → Thrown

-- How code on a stream ends. An exception keeps the changes made before it.
pub data Out {ℓ} (A : Type ℓ) : Type ℓ where
  done : A → Stream → Out A
  throws : Thrown → Stream → Out A
  stuck : Error → Out A

abbrev pub M : Type 0 → Type 0
M A = Stream → Out A

infixl 5 ◌>>=◌ ◌>>◌
abbrev pub ◌>>=◌ : {A B : Type 0} → M A → (A → M B) → M B
◌>>=◌ m f s = elim (m s) [ done a s' ↦ f a s' | throws t s' ↦ throws t s' | stuck e ↦ stuck e ]

abbrev pub ◌>>◌ : {B : Type 0} → M (Unit {0}) → M B → M B
m >> k = m >>= λ _. k

abbrev pub return : {A : Type 0} → A → M A
return a s = done a s

abbrev pub modify : (Stream → Stream) → M (Unit {0})
modify f s = done tt (f s)

abbrev pub throw : {A : Type 0} → Thrown → M A
throw t s = throws t s

-- `try { m } catch (e) { h }`
abbrev pub catching : {A : Type 0} → M A → (Thrown → M A) → M A
catching m h s = elim (m s) [ done a s' ↦ done a s' | throws t s' ↦ h t s' | stuck e ↦ stuck e ]

-- a call on the read buffer, with its result
abbrev pub on_read_buffer : {A : Type 0} → (Buffer → Result (A × Buffer)) → M A
on_read_buffer f s = elim (f s.read_buffer) [
  | ok (a, b) ↦ done a (record s { read_buffer = b })
  | err e ↦ stuck e
]

abbrev pub is_some {ℓ} : {A : Type ℓ} → Option A → Bool
is_some none = false
is_some (some a) = true

abbrev pub has_events : Events → Bool
has_events e = e.on_read || (e.on_write || e.on_error)

-- A step whose outcome is known is taken out of a sequence.
pub bind_done :
    {A B : Type 0} (m : M A) (f : A → M B) (s : Stream) {a : A} {s' : Stream}
    → m s ≡ done a s'
    → (m >>= f) s ≡ f a s'
bind_done m f s e = rw (e, ◌>>=◌)

pub bind_stuck :
    {A B : Type 0} (m : M A) (f : A → M B) (s : Stream) {e : Error}
    → m s ≡ stuck e
    → (m >>= f) s ≡ stuck e
bind_stuck m f s e = rw (e, ◌>>=◌)
