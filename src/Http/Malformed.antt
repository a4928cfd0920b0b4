-- ===== src/Http/Malformed.antt =====
-- `on_headers` on a first line that is no request line.
use ctornado.Http.State.{Connection, gives, of_result, ◌>>=◌}
use ctornado.Http.Connection.{close}
use ctornado.Http.Request.{line_length, on_headers, on_parts, three}
use ctornado.Http.Line.{IsWord, line_length_lem, request_line, request_line-IsLine, words_split}
use ctornado.Http.Shut.{close-Shut}
use ctornado.Base.{
  All, Bool, Bytes, Lacks, List, [], ap, arith, codes, false, if◌then◌else◌, length, none, ok, refl,
  some, suc, sym, ℕ, ◌++◌, ◌+◌, ◌==◌, ◌∙◌, ◌∷◌, ◌≡◌, ◌≢◌,
}
use ctornado.Str.{Str, bytes, starts_with, substr, text}
use ctornado.Str.Cuts.{front_of}
use ctornado.Str.Split.{join, join-split, split}
use ctornado.Str.Lines.{IsLine}
use ctornado.Buffer.Content.{IsValid}
use ctornado.Stream.Shutdown.{Closed}

-- how often a byte occurs
unfoldable pub count : ℕ → Bytes → ℕ
count x [] = 0
count x (c ∷ s) = if c == x then suc (count x s) else count x s

count-append : (x : ℕ) (a t : Bytes) → count x (a ++ t) ≡ count x a + count x t
unfolding count
count-append x [] t = omega arith
count-append x (c ∷ a) t = ground (arith, count-append x a t)

count-Lacks : (x : ℕ) (a : Bytes) → Lacks x a → count x a ≡ 0
unfolding count
count-Lacks x [] h = refl
count-Lacks x (c ∷ a) (e, h) = ground (arith, count-Lacks x a h)

-- A joined text has one separator less than parts.
count_joined :
    (x : ℕ) (p : Str) (ps : List Str)
    → All (λ p. Lacks x (bytes p)) (p ∷ ps)
    → count x (bytes (join x (p ∷ ps))) ≡ length ps
unfolding join count
count_joined x p [] (h, hs) = count-Lacks x (bytes p) h
count_joined x p (q ∷ ps) (h, hs) =
    count-append x (bytes p) (x ∷ bytes (join x (q ∷ ps)))
    ∙ rw (count-Lacks x (bytes p) h, count_joined x q ps hs) (separator (length ps))
  where
    separator : (n : ℕ) → 0 + (if x == x then suc n else n) ≡ suc n
    separator n = ground arith

three-none : (strs : List Str) → length strs ≢ 3 → three strs ≡ none
unfolding three
three-none [] h = refl
three-none (a ∷ []) h = refl
three-none (a ∷ b ∷ []) h = refl
three-none (a ∷ b ∷ c ∷ []) h = absurd (h refl)
three-none (a ∷ b ∷ c ∷ d ∷ strs) h = refl

-- A line that `on_headers` refuses: it has another number of spaces than two, or what stands behind the
-- second does not begin as the name of an HTTP version.
pub data Malformed : Bytes → Type 0 where
  not_three : {l : Bytes} → IsLine l → count b' ' l ≢ 2 → Malformed l
  not_http :
      {m u v : Bytes}
      → IsWord m
      → IsWord u
      → IsWord v
      → starts_with (text v) (text (codes "HTTP/")) ≡ false
      → Malformed (request_line m u v)

module _ (matches valid_ip : Bytes → Bool) where
  on_headers_refused :
      (fuel : ℕ) (l t : Bytes) (strs : List Str) (c : Connection)
      → IsLine l
      → split (text l) b' ' ≡ ok strs
      → on_parts matches valid_ip fuel (text (l ++ b'\r' ∷ b'\n' ∷ t)) (three strs) ≡ close
      → on_headers matches valid_ip fuel (text (l ++ b'\r' ∷ b'\n' ∷ t)) c ≡ close c
  unfolding on_headers
  on_headers_refused fuel l t strs c h cut shut =
      let front : substr (text (l ++ b'\r' ∷ b'\n' ∷ t)) 0
            (some (line_length (text (l ++ b'\r' ∷ b'\n' ∷ t))))
          ≡ ok (text l) =
        rw (line_length_lem l t h) (front_of l (b'\r' ∷ b'\n' ∷ t)) in
      rw (front, cut, ◌>>=◌, of_result, shut) refl

  on_headers-close :
      (fuel : ℕ) (l t : Bytes) (c : Connection)
      → Malformed l
      → on_headers matches valid_ip fuel (text (l ++ b'\r' ∷ b'\n' ∷ t)) c ≡ close c
  unfolding on_parts three
  on_headers-close fuel l t c (not_three h n) =
      let (strs, e, joins, all, ne) = join-split l b' ' (omega arith) in
      on_headers_refused fuel l t strs c h e
        (rw (three-none strs (λ k. n (two_spaces strs joins all k))) refl)
    where
      two_spaces :
          (strs : List Str)
          → join b' ' strs ≡ text l
          → All (λ p. Lacks b' ' (bytes p)) strs
          → length strs ≡ 3
          → count b' ' l ≡ 2
      two_spaces [] joins all k = absurd (omega arith)
      two_spaces (p ∷ ps) joins all k =
          ap (λ s. count b' ' (bytes s)) (sym joins) ∙ count_joined b' ' p ps all ∙ omega arith
  on_headers-close fuel l t c (not_http {m} {u} {v} hm hu hv h) =
      on_headers_refused fuel l t (text m ∷ text u ∷ text v ∷ []) c
        (request_line-IsLine m u v hm hu hv) (words_split m u v hm hu hv) (rw (h) refl)

  -- A head whose first line is malformed, on a connection whose read buffer is valid: `on_headers`
  -- returns with the connection closed and its memory to be freed once, and no request is served.
  pub on_headers-Malformed :
      (fuel : ℕ) (l t : Bytes) (c : Connection)
      → Malformed l
      → IsValid c.stream.read_buffer
      → (c' : Connection) × (on_headers matches valid_ip fuel (text (l ++ b'\r' ∷ b'\n' ∷ t)) c
          ≡ gives tt c')
        × Closed c.stream c'.stream
        × (c'.header_callback ≡ none)
        × (c'.frees ≡ c.frees + 1)
        × (c'.served ≡ c.served)
  on_headers-Malformed fuel l t c h b =
      let (c', shut, s) = close-Shut c b in
      (
        c',
        on_headers-close fuel l t c h ∙ shut,
        s.stream_closed,
        s.no_header_callback,
        s.freed,
        s.same_served,
      )
