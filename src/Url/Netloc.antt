-- ===== src/Url/Netloc.antt =====
-- `get_uphp` of the class URL: user name, password, host and port from the network location.
use mathlib.Core.Path.{ap₂}
use ctornado.Base.{
  All, All-append, Bytes, Lacks, Option, Result, [], ap, append_assoc, arith, drop, err, false,
  fault, if◌then◌else◌, leb, length, length-append, ltb, lt→ltb, negsuc, none, ok, pos, refl, some,
  suc, sym, take, true, ℕ, ℤ, ◌&&◌, ◌++◌, ◌+◌, ◌-◌, ◌<◌, ◌==◌, ◌∙◌, ◌∷◌, ◌≡◌, ◌≢◌, ◌>>=◌,
}
use ctornado.Str.{Str, char_at, last_char, len, null, substr, text}
use ctornado.Str.Cuts.{back_at, drop_self, front_of, last_char_ok, middle_at}
use ctornado.Str.View.{}
use ctornado.Str.Find.{strnfind, strnrfind}
use ctornado.Str.Split.{strnfind_at, take_self_append}
use ctornado.Str.Number.{of_int, toi}
use ctornado.Str.Digits.{toi-of_int}
use ctornado.Chars.{is_digit}

-- what `get_uphp` sets
pub record Uphp : Type 0 where
  pub username : Str
  pub password : Str
  pub host : Str
  pub port : ℤ

-- `valid_port(port) ? port : -1`
unfoldable pub checked_port : ℤ → ℤ
checked_port (negsuc n) = negsuc 0
checked_port (pos n) = if ltb 0 n && ltb n 65536 then pos n else negsuc 0

-- the user name and the password, for an `@` at `i`
unfoldable pub user_of : Bytes → Option ℕ → Result (Str × Str)
user_of s none = ok (null, null)
user_of s (some i) = elim (strnfind (take i s) b':') [
  | none ↦ do username ← substr (text s) 0 (some i); ok (username, null)
  | some j ↦ do
    username ← substr (text s) 0 (some j)
    password ← substr (text s) (j + 1) (some i)
    ok (username, password)
]

-- the host and the port of a network location from `start` on
unfoldable pub host_of : Bytes → ℕ → Result (Str × ℤ)
host_of s start = elim (strnfind (drop start s) b':') [
  | none ↦ do host ← substr (text s) start none; ok (host, negsuc 0)
  | some d ↦ do
    host ← substr (text s) start (some (start + d))
    port ← substr (text s) (start + d + 1) none
    ok (host, toi port)
]

-- a host without its brackets
unfoldable pub unbracketed : Str → Result Str
unbracketed host =
    if leb 2 (len host)
    then (do
      first ← char_at host 0
      last ← last_char host
      (if first == b'[' && last == b']' then substr host 1 (some (len host - 1)) else ok host))
    else ok host

-- `get_uphp`; of a null network location it fails the ASSERT of `substr`.
unfoldable pub get_uphp : Str → Result Uphp
unfolding user_of host_of unbracketed checked_port
get_uphp null = err fault
get_uphp (text s) = do
  let i = strnrfind s b'@'
  (username, password) ← user_of s i
  (host, port) ← host_of s (elim i [ none ↦ 0 | some i ↦ i + 1 ])
  bare ← unbracketed host
  ok (record { username = username; password = password; host = bare; port = checked_port port })

strnrfind_absent : (s : Bytes) (c : ℕ) → Lacks c s → strnrfind s c ≡ none
unfolding strnrfind
strnrfind_absent [] c h = refl
strnrfind_absent (x ∷ s) c (k, h) = rw (strnrfind_absent s c h) (ground arith)

-- the last `c` of a text
strnrfind_at : (a t : Bytes) (c : ℕ) → Lacks c t → strnrfind (a ++ c ∷ t) c ≡ some (length a)
unfolding strnrfind
strnrfind_at [] t c h = rw (strnrfind_absent t c h) (ground arith)
strnrfind_at (x ∷ a) t c h = rw (strnrfind_at a t c h)

Lacks-digits :
    (ds : Bytes) (c : ℕ) → is_digit c ≡ false → All (λ d. is_digit d ≡ true) ds → Lacks c ds
Lacks-digits [] c n h = tt
Lacks-digits (d ∷ ds) c n (k, h) = ((λ e. clash d e k), Lacks-digits ds c n h)
  where
    clash : (d : ℕ) → d ≡ c → is_digit d ≡ true → ⊥
    clash d e k = cc

-- a host that is not in brackets
abbrev pub IsBare : Bytes → Type 0
IsBare [] = Unit {0}
IsBare (c ∷ s) = c ≢ b'['

unbracketed_bare : (h : Bytes) → IsBare h → unbracketed (text h) ≡ ok (text h)
unfolding unbracketed char_at
unbracketed_bare [] n = refl
unbracketed_bare (x ∷ []) n = refl
unbracketed_bare (x ∷ y ∷ s) n =
    let (c, last) = last_char_ok (x ∷ y ∷ s) (omega arith) in
    rw (at_least_two (length s), last) (outside x c n)
  where
    at_least_two : (k : ℕ) → leb 2 (suc (suc k)) ≡ true
    at_least_two k = ground arith

    outside :
        (x c : ℕ)
        → x ≢ b'['
        → (if x == b'[' && c == b']'
            then substr (text (x ∷ y ∷ s)) 1 (some (suc (suc (length s)) - 1))
            else ok (text (x ∷ y ∷ s)))
          ≡ ok (text (x ∷ y ∷ s))
    outside x c k = ground arith

-- a network location with all its parts
abbrev pub netloc_text : Bytes → Bytes → Bytes → Bytes → Bytes
netloc_text u p h ds = (u ++ b':' ∷ p) ++ b'@' ∷ (h ++ b':' ∷ ds)

user_of_lem :
    (u p t : Bytes)
    → Lacks b':' u
    → user_of ((u ++ b':' ∷ p) ++ b'@' ∷ t) (some (length (u ++ b':' ∷ p))) ≡ ok (text u, text p)
unfolding user_of
user_of_lem u p t l =
    let whole = u ++ b':' ∷ p in
    let at : strnfind (take (length whole) (whole ++ b'@' ∷ t)) b':' ≡ some (length u) =
      ap (λ k. strnfind k b':') (take_self_append whole (b'@' ∷ t)) ∙ strnfind_at u p b':' l in
    let front : substr (text ((u ++ b':' ∷ p) ++ b'@' ∷ t)) 0 (some (length u)) ≡ ok (text u) =
      rw (append_assoc u (b':' ∷ p) (b'@' ∷ t)) (front_of u (b':' ∷ (p ++ b'@' ∷ t))) in
    let back : substr (text ((u ++ b':' ∷ p) ++ b'@' ∷ t)) (length u + 1)
          (some (length (u ++ b':' ∷ p)))
        ≡ ok (text p) =
      middle_at (u ++ b':' ∷ []) p (b'@' ∷ t)
        (append_assoc u (b':' ∷ p) (b'@' ∷ t) ∙ sym (append_assoc u (b':' ∷ []) (p ++ b'@' ∷ t)))
        (omega (arith, length-append u (b':' ∷ [])))
        (omega (arith, length-append u (b':' ∷ []), length-append u (b':' ∷ p))) in
    rw (at, user_of, front, back) refl

host_of_lem :
    (a h ds : Bytes)
    → Lacks b':' h
    → host_of (a ++ b'@' ∷ (h ++ b':' ∷ ds)) (length a + 1) ≡ ok (text h, toi (text ds))
unfolding host_of
host_of_lem a h ds l =
    let front = a ++ b'@' ∷ [] in
    let long : length front ≡ length a + 1 = length-append a (b'@' ∷ []) in
    let cut : a ++ b'@' ∷ (h ++ b':' ∷ ds) ≡ front ++ (h ++ b':' ∷ ds) =
      sym (append_assoc a (b'@' ∷ []) (h ++ b':' ∷ ds)) in
    let rest : drop (length a + 1) (a ++ b'@' ∷ (h ++ b':' ∷ ds)) ≡ h ++ b':' ∷ ds =
      ap₂ (λ n s. drop n s) (sym long) cut ∙ drop_self front (h ++ b':' ∷ ds) in
    let host : substr (text (a ++ b'@' ∷ (h ++ b':' ∷ ds))) (length a + 1)
          (some (length a + 1 + length h))
        ≡ ok (text h) =
      middle_at front h (b':' ∷ ds) cut (omega (arith, long)) (omega (arith, long)) in
    let port : substr (text (a ++ b'@' ∷ (h ++ b':' ∷ ds))) (length a + 1 + length h + 1) none
        ≡ ok (text ds) =
      back_at (front ++ (h ++ b':' ∷ [])) ds
        (cut
          ∙ ap (λ k. front ++ k) (sym (append_assoc h (b':' ∷ []) ds))
          ∙ sym (append_assoc front (h ++ b':' ∷ []) ds))
        (omega (arith, long, length-append front (h ++ b':' ∷ []), length-append h (b':' ∷ []))) in
    let at : strnfind (drop (length a + 1) (a ++ b'@' ∷ (h ++ b':' ∷ ds))) b':' ≡ some (length h) =
      ap (λ k. strnfind k b':') rest ∙ strnfind_at h ds b':' l in
    rw (at, host_of, host, port) refl

-- A network location `user:password@host:port`: the user name has no colon, the host has neither colon
-- nor `@` and is not in brackets, and the port, which `Str(int, 10)` has written, is one that is valid.
-- `get_uphp` returns the four parts.
pub get_uphp-netloc_text :
    (u p h : Bytes) (port : ℕ)
    → Lacks b':' u
    → Lacks b':' h
    → Lacks b'@' h
    → IsBare h
    → 0 < port
    → port < 65536
    → (ds : Bytes) × (of_int (pos port) 10 ≡ ok (text ds))
      × (get_uphp (text (netloc_text u p h ds))
          ≡ ok (record { username = text u; password = text p; host = text h; port = pos port }))
unfolding get_uphp is_digit checked_port
get_uphp-netloc_text u p h port lu lh la b low high =
    let (ds, written, digits, read) = toi-of_int port (omega arith) in
    let host_lacks : Lacks b'@' (h ++ b':' ∷ ds) =
      All-append (λ c. c ≢ b'@') h (b':' ∷ ds) la (omega arith, Lacks-digits ds b'@' refl digits) in
    let at = strnrfind_at (u ++ b':' ∷ p) (h ++ b':' ∷ ds) b'@' host_lacks in
    (
      ds,
      written,
      rw
          (
            at,
            user_of_lem u p (h ++ b':' ∷ ds) lu,
            host_of_lem (u ++ b':' ∷ p) h ds lh,
            unbracketed_bare h b,
            read,
            lt→ltb 0 port low,
            lt→ltb port 65536 high,
          )
          refl,
    )
