-- ===== src/Str/Lines.antt =====
-- `split_lines` of src/lib/string.cc.
use ctornado.Base.{
  All, Bool, Bytes, List, Result, [], ap, arith, err, false, fault, if◌then◌else◌, is_nil, length,
  length-append, no_fuel, ok, refl, suc, zero, ℕ, ◌&&◌, ◌++◌, ◌+◌, ◌<◌, ◌==◌, ◌>>=◌, ◌||◌, ◌∙◌, ◌∷◌,
  ◌≡◌,
}
use ctornado.Str.{Str, null, text}

abbrev pub is_break : ℕ → Bool
is_break c = c == b'\r' || c == b'\n'

-- `while (ptr != end && *ptr != '\r' && *ptr != '\n') ptr++`
unfoldable pub line_end : Bytes → Bytes × Bytes
line_end [] = ([], [])
line_end (c ∷ s) = let rest = line_end s in if is_break c then ([], c ∷ s) else (c ∷ rest.0, rest.1)

-- `if (*ptr++ == '\r' && ptr != end && *ptr == '\n') ptr++`
unfoldable pub skip_break : Bytes → Bytes
skip_break [] = []
skip_break (c ∷ []) = []
skip_break (c ∷ d ∷ s) = if c == b'\r' && d == b'\n' then s else d ∷ s

-- The loop: every round passes a byte or more, so one round more than there are bytes is enough fuel.
unfoldable pub lines_loop : ℕ → Bytes → Result (List Bytes)
unfolding line_end skip_break
lines_loop zero s = err no_fuel
lines_loop (suc fuel) [] = ok []
lines_loop (suc fuel) (c ∷ s) =
    let (line, rest) = line_end (c ∷ s) in
    let more : Result (List Bytes) = do lines ← lines_loop fuel (skip_break rest); ok (line ∷ lines)
    in if is_nil rest then ok (line ∷ []) else more

-- the parts, none of which is null
unfoldable pub split_lines : Str → Result (List Bytes)
unfolding lines_loop
split_lines null = err fault
split_lines (text s) = lines_loop (length s + 1) s

-- a line without the two bytes that end lines
abbrev pub IsLine : Bytes → Type 0
IsLine = All (λ c. is_break c ≡ false)

abbrev pub crlf : Bytes
crlf = b'\r' ∷ b'\n' ∷ []

line_end_lem : (l t : Bytes) → IsLine l → line_end (l ++ b'\r' ∷ t) ≡ (l, b'\r' ∷ t)
unfolding line_end
line_end_lem [] t h = refl
line_end_lem (c ∷ l) t (b, h) = rw (b) (ap (λ r. (c ∷ r.0, r.1)) (line_end_lem l t h))

-- A line with CR LF behind it comes off as one part.
pub lines_loop_line :
    (fuel : ℕ) (l t : Bytes)
    → IsLine l
    → lines_loop (suc fuel) (l ++ b'\r' ∷ b'\n' ∷ t)
      ≡ (lines_loop fuel t >>= λ lines. ok (l ∷ lines))
unfolding lines_loop
lines_loop_line fuel [] t h = refl
lines_loop_line fuel (c ∷ l) t (b, h) =
    ap
      (λ (r : Bytes × Bytes).
        if is_nil r.1
        then ok (r.0 ∷ [])
        else (lines_loop fuel (skip_break r.1) >>= λ lines. ok (r.0 ∷ lines)))
      (line_end_lem (c ∷ l) (b'\n' ∷ t) (b, h))

-- lines, each with CR LF behind it
abbrev pub block : List Bytes → Bytes
block [] = []
block (l ∷ ls) = l ++ b'\r' ∷ b'\n' ∷ block ls

lines_loop-block :
    (fuel : ℕ) (ls : List Bytes)
    → All IsLine ls
    → length (block ls) < fuel
    → lines_loop fuel (block ls) ≡ ok ls
lines_loop-block zero ls h e = absurd (omega arith)
lines_loop-block (suc fuel) [] h e = unfold lines_loop in refl
lines_loop-block (suc fuel) (l ∷ ls) (hl, h) e =
    lines_loop_line fuel l (block ls) hl
    ∙ ap (λ r. r >>= λ lines. ok (l ∷ lines))
        (lines_loop-block fuel ls h (omega (arith, length-append l (b'\r' ∷ b'\n' ∷ block ls))))

-- `split_lines` returns the lines of a text in which each has CR LF behind it.
pub split_lines-block : (ls : List Bytes) → All IsLine ls → split_lines (text (block ls)) ≡ ok ls
unfolding split_lines
split_lines-block ls h = lines_loop-block (length (block ls) + 1) ls h (omega arith)
