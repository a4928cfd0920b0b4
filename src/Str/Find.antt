-- ===== src/Str/Find.antt =====
-- `strnfind` and `strnrfind` of src/lib/string.cc. A pointer that they return is the offset
-- from the string's first byte; the null pointer is `none`.
use ctornado.Base.{
  ==_iff, Bool-cases, Bytes, Lacks, Option, [], ap, arith, drop, false, if◌then◌else◌, inl, inr,
  is_nil, leb, length, ltb, none, refl, some, suc, take, ℕ, ◌&&◌, ◌++◌, ◌<◌, ◌==◌, ◌∷◌, ◌≡◌, ◌≢◌,
}
use ctornado.Str.{eq_bytes}
use ctornado.Str.View.{}

-- one byte further on
abbrev pub further : Option ℕ → Option ℕ
further none = none
further (some i) = some (suc i)

-- `strnfind(s, n, c)`
unfoldable pub strnfind : Bytes → ℕ → Option ℕ
strnfind [] c = none
strnfind (c1 ∷ s) c = let rest = further (strnfind s c) in if c1 == c then some 0 else rest

-- `strnrfind(s, n, c)`: the last byte is the first that is looked at.
unfoldable pub strnrfind : Bytes → ℕ → Option ℕ
strnrfind [] c = none
strnrfind (c1 ∷ s) c = elim (strnrfind s c) [
  | none ↦ if c1 == c then some 0 else none
  | some i ↦ some (suc i)
]

-- `memmem(s, n, s2, n2)`: the first place where the bytes of `s2` stand.
unfoldable pub memmem : Bytes → Bytes → Option ℕ
unfolding eq_bytes
memmem [] s2 = if is_nil s2 then some 0 else none
memmem (c1 ∷ s) s2 =
    let rest = further (memmem s s2) in
    if leb (length s2) (suc (length s)) && eq_bytes (take (length s2) (c1 ∷ s)) s2
    then some 0
    else rest

-- `strnfind(s, n, s2, n2)` where memmem is missing, for a pattern `c2 ∷ s2`: the outer loop goes on
-- behind a first byte that matches, and gives up when too few bytes are left.
unfoldable pub strnfind_portable : Bytes → ℕ → Bytes → Option ℕ
unfolding eq_bytes
strnfind_portable [] c2 s2 = none
strnfind_portable (c1 ∷ s) c2 s2 =
    let rest = further (strnfind_portable s c2 s2) in
    if c1 == c2
    then (if ltb (length s) (length s2)
        then none
        else if eq_bytes (take (length s2) s) s2
        then some 0
        else rest)
    else rest

-- `strnrfind(s, n, s2, n2)`: the last place where the bytes of `s2` stand, from the end down.
unfoldable pub strnrfind_str : Bytes → Bytes → Option ℕ
unfolding eq_bytes
strnrfind_str [] s2 = none
strnrfind_str (c1 ∷ s) s2 = elim (strnrfind_str s s2) [
  | none ↦
      if leb (length s2) (suc (length s)) && eq_bytes (take (length s2) (c1 ∷ s)) s2
      then some 0
      else none
  | some i ↦ some (suc i)
]

-- What a search for a byte says of the text: the part in front lacks the byte, and the byte follows.
abbrev pub Found : ℕ → Bytes → Option ℕ → Type 0
Found c s none = Lacks c s
Found c s (some i) = Lacks c (take i s) × (s ≡ take i s ++ c ∷ drop (suc i) s) × (i < length s)

-- `strnfind` returns the place of the first byte `c`, or null if there is none.
pub strnfind_lem : (s : Bytes) (c : ℕ) → Found c s (strnfind s c)
unfolding strnfind
strnfind_lem [] c = tt
strnfind_lem (c1 ∷ s) c = elim (Bool-cases (c1 == c)) [
  | inl here ↦ rw here (tt, ap (λ k. k ∷ s) ((==_iff c1 c).0 here), omega arith)
  | inr past ↦ rw past (later s c1 c (strnfind s c) (λ e. differs c1 c e past) (strnfind_lem s c))
]
  where
    differs : (a b : ℕ) → a ≡ b → (a == b) ≡ false → ⊥
    differs a b e f = ground arith

    later :
        (s : Bytes) (c1 c : ℕ) (r : Option ℕ) → c1 ≢ c → Found c s r → Found c (c1 ∷ s) (further r)
    later s c1 c none h f = (h, f)
    later s c1 c (some i) h (f, g, l) = ((h, f), ap (λ k. c1 ∷ k) g, omega arith)

-- A pattern that is longer than the text is nowhere in it.
pub memmem_short : (s s2 : Bytes) → length s < length s2 → memmem s s2 ≡ none
unfolding memmem
memmem_short [] [] h = elim h [ ]
memmem_short [] (y ∷ ys) h = refl
memmem_short (x ∷ s) s2 h = ground (arith, memmem_short s s2)

-- The search of the fallback finds what `memmem` finds, for every pattern but the empty one.
pub strnfind_portable-memmem :
    (s : Bytes) (c2 : ℕ) (s2 : Bytes) → strnfind_portable s c2 s2 ≡ memmem s (c2 ∷ s2)
unfolding strnfind_portable memmem eq_bytes
strnfind_portable-memmem [] c2 s2 = refl
strnfind_portable-memmem (c1 ∷ s) c2 s2 =
    ground (arith, strnfind_portable-memmem s c2 s2, memmem_short s (c2 ∷ s2))
