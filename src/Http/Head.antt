-- ===== src/Http/Head.antt =====
-- Where the head of a request ends: the first empty line.
use ctornado.Http.Connection.{end_of_headers}
use ctornado.Http.Serves.{Head, IsHead, head_text}
use ctornado.Http.Line.{request_line, request_line-IsLine}
use ctornado.Headers.Fields.{Field, IsField, StartsField, field_lines, line_of, lines-All}
use ctornado.Str.Find.{memmem}
use ctornado.Str.Lines.{IsLine, block, is_break}
use ctornado.Str.{bytes, eq_bytes, len}
use ctornado.Chars.{}
use ctornado.Base.{
  All, Bool, Bytes, List, [], ap, append_assoc, arith, false, length, length-append, refl, some,
  suc, sym, ℕ, ◌++◌, ◌+◌, ◌∙◌, ◌∷◌, ◌≡◌, ◌≢◌,
}

module _ (d : Bytes) where
  -- a byte that is not the first of the pattern
  passed_byte :
      (c : ℕ) (s : Bytes) {i : ℕ}
      → c ≢ b'\r'
      → memmem s (b'\r' ∷ d) ≡ some i
      → memmem (c ∷ s) (b'\r' ∷ d) ≡ some (suc i)
  unfolding memmem eq_bytes
  passed_byte c s h e = ground (arith, e)

  not_return : (c : ℕ) → is_break c ≡ false → c ≢ b'\r'
  not_return c h e = ground (arith)

  -- a line that is in front
  passed_line :
      (l s : Bytes) {i : ℕ}
      → IsLine l
      → memmem s (b'\r' ∷ d) ≡ some i
      → memmem (l ++ s) (b'\r' ∷ d) ≡ some (length l + i)
  passed_line [] s {i = i} h e = e ∙ ap some (nadd_suc i)
    where
      nadd_suc : (i : ℕ) → i ≡ 0 + i
      nadd_suc i = omega arith
  passed_line (c ∷ l) s {i = i} (b, h) e =
      passed_byte c (l ++ s) (not_return c b) (passed_line l s h e) ∙ ap some (add_suc (length l) i)
    where
      add_suc : (n i : ℕ) → suc (n + i) ≡ suc n + i
      add_suc n i = omega arith

-- an end of line with a byte behind it that is none
passed_end :
    (c : ℕ) (s : Bytes) {i : ℕ}
    → c ≢ b'\r'
    → memmem (c ∷ s) end_of_headers ≡ some i
    → memmem (b'\r' ∷ b'\n' ∷ c ∷ s) end_of_headers ≡ some (suc (suc i))
unfolding memmem eq_bytes
passed_end c s h e = ground (arith, e)

empty_line : (s : Bytes) → memmem (b'\r' ∷ b'\n' ∷ b'\r' ∷ b'\n' ∷ s) end_of_headers ≡ some 0
unfolding memmem eq_bytes
empty_line s = ground arith

-- Where a head ends in a text that begins with it.
abbrev EndsHead : Bytes → Bytes → Type 0
EndsHead head s = (i : ℕ) × (memmem (head ++ s) end_of_headers ≡ some i) × (i + 4 ≡ length head)

over_line :
    (l b s : Bytes) (c : ℕ) (rest : Bytes) {i : ℕ}
    → IsLine l
    → b ≡ c ∷ rest
    → c ≢ b'\r'
    → memmem (b ++ s) end_of_headers ≡ some i
    → memmem ((l ++ b'\r' ∷ b'\n' ∷ b) ++ s) end_of_headers ≡ some (length l + suc (suc i))
over_line l b s c rest h e n f =
    ap (λ k. memmem k end_of_headers) (append_assoc l (b'\r' ∷ b'\n' ∷ b) s)
    ∙ passed_line (b'\n' ∷ b'\r' ∷ b'\n' ∷ []) l _ h (
        ap (λ k. memmem (b'\r' ∷ b'\n' ∷ (k ++ s)) end_of_headers) e
        ∙ passed_end c (rest ++ s) n (ap (λ k. memmem (k ++ s) end_of_headers) (sym e) ∙ f))

module _ (matches : Bytes → Bool) where
  field_begins :
      (f : Field)
      → IsField matches f
      → (c : ℕ) × (rest : Bytes) × (line_of f ≡ c ∷ rest) × (c ≢ b'\r')
  field_begins f i = begins f.name i.starts i.name_line
    where
      begins :
          (n : Bytes)
          → StartsField n
          → IsLine n
          → (c : ℕ) × (rest : Bytes) × (n ++ b':' ∷ b' ' ∷ f.value ≡ c ∷ rest) × (c ≢ b'\r')
      begins [] e h = elim e [ ]
      begins (c ∷ n) e (b, h) = (c, n ++ b':' ∷ b' ' ∷ f.value, refl, not_return [] c b)

  block_ends :
      (l : Bytes) (fs : List Field) (s : Bytes)
      → IsLine l
      → All (IsField matches) fs
      → EndsHead (block (l ∷ field_lines fs)) s
  block_ends l [] s h a = (
    length l + 0,
    ap (λ k. memmem k end_of_headers) (append_assoc l end_of_headers s)
        ∙ passed_line (b'\n' ∷ b'\r' ∷ b'\n' ∷ []) l _ h (empty_line s),
    omega (arith, length-append l end_of_headers),
  )
  block_ends l (f ∷ fs) s h (i, a) =
      let (c, rest, e, n) = field_begins f i in
      let (line, _) = lines-All matches (f ∷ fs) (i, a) in
      let (j, found, len) = block_ends (line_of f) fs s line a in
      let tail : Bytes = block (line_of f ∷ field_lines fs) in
      (
        length l + suc (suc j),
        over_line l tail s c _ h (ap (λ k. k ++ b'\r' ∷ b'\n' ∷ block (field_lines fs)) e) n found,
        omega (arith, len, length-append l (b'\r' ∷ b'\n' ∷ tail)),
      )

-- The head of a request ends at the first empty line of a text that begins with it: a search for
-- "\r\n\r\n" finds the last four bytes of the head.
pub head_text-ends :
    (matches valid_ip : Bytes → Bool) (h : Head) (s : Bytes)
    → IsHead matches valid_ip h
    → (i : ℕ) × (memmem (bytes (head_text h) ++ s) end_of_headers ≡ some i)
      × (i + 4 ≡ len (head_text h))
head_text-ends matches valid_ip h s i =
    block_ends matches (request_line h.method h.uri h.version) h.fields s
      (request_line-IsLine h.method h.uri h.version i.method_word i.uri_word i.version_word)
      i.fields_fit
