-- ===== src/Str/Transform.antt =====
-- The functions of src/lib/string.cc that make a changed copy, or a view without the spaces around it.
-- A null string fails their ASSERT.
use ctornado.Base.{
  Bool, Bytes, Option, Result, [], drop, err, false, fault, if◌then◌else◌, is_nil, length, map,
  no_fuel, none, not, ok, some, suc, take, true, zero, ℕ, ◌&&◌, ◌++◌, ◌+◌, ◌-◌, ◌==◌, ◌||◌, ◌∷◌,
  ◌>>=◌,
}
use ctornado.Chars.{is_alpha, is_space, to_lower, to_upper}
use ctornado.Str.{Str, null, text}
use ctornado.Str.Find.{strnfind}

unfoldable pub lower : Str → Result Str
lower null = err fault
lower (text s) = ok (text (map to_lower s))

unfoldable pub upper : Str → Result Str
upper null = err fault
upper (text s) = ok (text (map to_upper s))

-- `capitalize` behind its `lower`
unfoldable pub cap_first : Bytes → Bytes
cap_first [] = []
cap_first (c ∷ s) = (if is_alpha c then to_upper c else c) ∷ s

unfoldable pub capitalize : Str → Result Str
unfolding cap_first
capitalize null = err fault
capitalize (text s) = ok (text (cap_first (map to_lower s)))

-- `while (*pos == sep)`: the separators, and what is behind them. The loop has no test for the end, so
-- it reads behind the string where this ends in separators.
unfoldable pub skip_seps : ℕ → Bytes → Result (Bytes × Bytes)
skip_seps sep [] = err fault
skip_seps sep (c ∷ s) =
    let more : Result (Bytes × Bytes) = do (seps, rest) ← skip_seps sep s; ok (c ∷ seps, rest)
    in if c == sep then more else ok ([], c ∷ s)

-- The loop of `capitalize_each`: every round passes a byte or more, so one round more than there are
-- bytes is enough fuel.
unfoldable pub capitalize_loop : ℕ → ℕ → Bytes → Result Bytes
unfolding cap_first skip_seps
capitalize_loop zero sep s = err no_fuel
capitalize_loop (suc fuel) sep s = elim (strnfind (cap_first s) sep) [
  | none ↦ ok (cap_first s)
  | some i ↦ do
    (seps, rest) ← skip_seps sep (drop i (cap_first s))
    words ← capitalize_loop fuel sep rest
    ok (take i (cap_first s) ++ (seps ++ words))
]

unfoldable pub capitalize_each : Str → ℕ → Result Str
unfolding capitalize_loop
capitalize_each null sep = err fault
capitalize_each (text s) sep = do
  out ← capitalize_loop (length s + 1) sep (map to_lower s)
  ok (text out)

-- the bytes that `lstrip`, `rstrip` and `strip` take away: spaces for a null `chars`, and else those of
-- `chars`, where `strchr` finds the NUL behind them too
unfoldable pub strips : Option Bytes → ℕ → Bool
strips none c = is_space c
strips (some []) c = false
strips (some (d ∷ chars)) c =
    c == d || (c == 0 || elim (strnfind chars c) [ none ↦ false | some i ↦ true ])

unfoldable pub drop_front : (ℕ → Bool) → Bytes → Bytes
drop_front f [] = []
drop_front f (c ∷ s) = let rest = drop_front f s in if f c then rest else c ∷ s

unfoldable pub drop_back : (ℕ → Bool) → Bytes → Bytes
drop_back f [] = []
drop_back f (c ∷ s) = let rest = drop_back f s in if f c && is_nil rest then [] else c ∷ rest

unfoldable pub lstrip : Option Bytes → Str → Result Str
unfolding drop_front
lstrip chars null = err fault
lstrip chars (text s) = ok (text (drop_front (strips chars) s))

unfoldable pub rstrip : Option Bytes → Str → Result Str
unfolding drop_back
rstrip chars null = err fault
rstrip chars (text s) = ok (text (drop_back (strips chars) s))

unfoldable pub strip : Option Bytes → Str → Result Str
unfolding drop_front drop_back
strip chars null = err fault
strip chars (text s) = ok (text (drop_back (strips chars) (drop_front (strips chars) s)))

-- `translate(table)`
unfoldable pub translate : (ℕ → ℕ) → Str → Result Str
translate table null = err fault
translate table (text s) = ok (text (map table s))

-- `translate(isfunc, c)`
unfoldable pub translate_if : (ℕ → Bool) → ℕ → Str → Result Str
translate_if f c null = err fault
translate_if f c (text s) = ok (text (map (λ b. if f b then c else b) s))

unfoldable pub keep : (ℕ → Bool) → Bytes → Bytes
keep f [] = []
keep f (c ∷ s) = let rest = keep f s in if f c then c ∷ rest else rest

-- the first loop of `remove` and `retain`, which counts the bytes to allocate
unfoldable pub count_kept : (ℕ → Bool) → Bytes → ℕ → ℕ
count_kept f [] n = n
count_kept f (c ∷ s) n = count_kept f s (if f c then n else n - 1)

-- `Str(buffer, n)` around the `out` that was written to a buffer of `n` bytes: more is written behind
-- its end, and less leaves bytes that nothing was written to.
unfoldable pub sized : ℕ → Bytes → Result Str
sized n out = if length out == n then ok (text out) else err fault

unfoldable pub retain : (ℕ → Bool) → Str → Result Str
unfolding keep count_kept sized
retain f null = err fault
retain f (text s) = sized (count_kept f s (length s)) (keep f s)

unfoldable pub remove : (ℕ → Bool) → Str → Result Str
unfolding keep count_kept sized
remove f null = err fault
remove f (text s) = sized (count_kept (λ c. not (f c)) s (length s)) (keep (λ c. not (f c)) s)
