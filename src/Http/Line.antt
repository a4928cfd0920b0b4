-- ===== src/Http/Line.antt =====
-- `on_headers`: how the request line is taken apart.
use ctornado.Http.State.{Connection, of_result, ◌>>=◌}
use ctornado.Http.Connection.{}
use ctornado.Http.Request.{line_length, on_headers, on_parts, on_request_line, three}
use ctornado.Base.{
  All-append, Bool, Bytes, Lacks, Option, [], ap, arith, codes, false, if◌then◌else◌, length,
  le→leb, none, ok, refl, some, suc, true, ℕ, ◌&&◌, ◌++◌, ◌==◌, ◌||◌, ◌∙◌, ◌∷◌, ◌≡◌,
}
use ctornado.Str.{eq_bytes, starts_with, substr, text}
use ctornado.Str.Cuts.{back_of, front_of}
use ctornado.Str.View.{}
use ctornado.Str.Find.{further, memmem}
use ctornado.Str.Split.{join, split, split-join}
use ctornado.Str.Lines.{IsLine, crlf, is_break}
use ctornado.Stream.Read.{find_delimiter}

memmem_line : (l t : Bytes) → IsLine l → memmem (l ++ b'\r' ∷ b'\n' ∷ t) crlf ≡ some (length l)
unfolding memmem eq_bytes
memmem_line [] t h = rw (le→leb 2 (suc (suc (length t))) (omega arith))
memmem_line (c ∷ l) t (b, h) =
    passed _ (c == b'\r') _ (some 0) _ (first (c == b'\r') (c == b'\n') b)
    ∙ ap further (memmem_line l t h)
  where
    passed : (a x y : Bool) (r s : Option ℕ) → x ≡ false → (if a && (x && y) then r else s) ≡ s
    passed false x y r s e = refl
    passed true x y r s e = rw (e)

    first : (x y : Bool) → (x || y) ≡ false → x ≡ false
    first true y e = e
    first false y e = refl

pub line_length_lem :
    (l t : Bytes) → IsLine l → line_length (text (l ++ b'\r' ∷ b'\n' ∷ t)) ≡ length l
unfolding line_length find_delimiter
line_length_lem l t h = rw (memmem_line l t h, line_length) refl

-- a request line
abbrev pub request_line : Bytes → Bytes → Bytes → Bytes
request_line m u v = m ++ b' ' ∷ (u ++ b' ' ∷ v)

-- A part of a request line has no space and no line break.
pub record IsWord (w : Bytes) : Type 0 where
  pub no_space : Lacks b' ' w
  pub no_break : IsLine w

pub request_line-IsLine :
    (m u v : Bytes) → IsWord m → IsWord u → IsWord v → IsLine (request_line m u v)
request_line-IsLine m u v hm hu hv =
    All-append (λ c. is_break c ≡ false) m _ hm.no_break
      (refl, All-append (λ c. is_break c ≡ false) u _ hu.no_break (refl, hv.no_break))

pub words_split :
    (m u v : Bytes)
    → IsWord m
    → IsWord u
    → IsWord v
    → split (text (request_line m u v)) b' ' ≡ ok (text m ∷ text u ∷ text v ∷ [])
unfolding join
words_split m u v hm hu hv =
    split-join b' ' m (u ∷ v ∷ []) (omega arith) (hm.no_space, (hu.no_space, (hv.no_space, tt)))

module _ (matches valid_ip : Bytes → Bool) where
  -- The request line is cut at its two spaces, and the rest begins at its end.
  pub on_headers_line :
      (fuel : ℕ) (m u v t : Bytes) (c : Connection)
      → IsWord m
      → IsWord u
      → IsWord v
      → starts_with (text v) (text (codes "HTTP/")) ≡ true
      → on_headers matches valid_ip fuel (text (request_line m u v ++ b'\r' ∷ b'\n' ∷ t)) c
        ≡ on_request_line matches valid_ip fuel
            (text m)
            (text u)
            (text v)
            (text (b'\r' ∷ b'\n' ∷ t))
            c
  unfolding on_headers on_parts three
  on_headers_line fuel m u v t c hm hu hv h =
      let ends = line_length_lem (request_line m u v) t (request_line-IsLine m u v hm hu hv) in
      let front : substr (text (whole)) 0 (some (line_length (text whole)))
          ≡ ok (text (request_line m u v)) =
        rw (ends) (front_of (request_line m u v) (b'\r' ∷ b'\n' ∷ t)) in
      let back : substr (text whole) (line_length (text whole)) none
          ≡ ok (text (b'\r' ∷ b'\n' ∷ t)) =
        rw (ends) (back_of (request_line m u v) (b'\r' ∷ b'\n' ∷ t)) in
      rw (front, words_split m u v hm hu hv, h, back, ◌>>=◌, of_result, on_parts, three) refl
    where
      whole : Bytes
      whole = request_line m u v ++ b'\r' ∷ b'\n' ∷ t
