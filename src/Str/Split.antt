-- ===== src/Str/Split.antt =====
-- `split`, `split_pair` and `join` with a separating byte.
use mathlib.Core.Path.{subst}
use ctornado.Base.{
  ==_iff, All, Bool-cases, Bytes, Lacks, List, Option, Result, [], ap, arith, drop, err, false,
  fault, if◌then◌else◌, inl, inr, length, length-append, length-drop, map, no_fuel, none, ok, refl,
  some, suc, sym, take, zero, ℕ, ◌++◌, ◌+◌, ◌<◌, ◌==◌, ◌>>=◌, ◌∷◌, ◌≡◌, ◌≢◌,
}
use ctornado.Str.{Str, bytes, len, null, text}
use ctornado.Str.Find.{Found, strnfind, strnfind_lem}

-- The loop of `split(char)`: every round cuts one part off, so one more round than there are bytes is
-- enough fuel.
unfoldable pub split_loop : ℕ → Bytes → ℕ → Result (List Str)
split_loop zero s sep = err no_fuel
split_loop (suc fuel) s sep = elim (strnfind s sep) [
  | none ↦ ok (text s ∷ [])
  | some i ↦ do substrs ← split_loop fuel (drop (suc i) s) sep; ok (text (take i s) ∷ substrs)
]

-- `split(char)`
unfoldable pub split : Str → ℕ → Result (List Str)
unfolding split_loop
split null sep = err fault
split (text s) sep = if sep == 0 then err fault else split_loop (length s + 1) s sep

-- `split_pair(char)`
unfoldable pub split_pair : Str → ℕ → Result (Str × Str)
split_pair null sep = err fault
split_pair (text s) sep =
    let pair : Str × Str = elim (strnfind s sep) [
      | none ↦ (text s, null)
      | some i ↦ (text (take i s), text (drop (suc i) s))
    ] in
    if sep == 0 then err fault else ok pair

-- `join(char, strs)`: the bytes that the loop writes, with the separator behind each but the last.
write_joined : ℕ → Str → List Str → Bytes
write_joined c s [] = bytes s
write_joined c s (t ∷ strs) = bytes s ++ c ∷ write_joined c t strs

unfoldable pub join : ℕ → List Str → Str
unfolding write_joined
join c [] = text []
join c (s ∷ strs) = text (write_joined c s strs)

total_len : List Str → ℕ
total_len [] = 0
total_len (s ∷ strs) = len s + total_len strs

-- the size that `join` allocates before it writes
unfoldable pub join_size : List Str → ℕ
unfolding total_len
join_size [] = 0
join_size (s ∷ strs) = length strs + total_len (s ∷ strs)

write_joined_size :
    (c : ℕ) (s : Str) (strs : List Str)
    → length (write_joined c s strs) ≡ length strs + (len s + total_len strs)
unfolding write_joined total_len
write_joined_size c s [] = omega arith
write_joined_size c s (t ∷ strs) =
    omega (arith, write_joined_size c t strs, length-append (bytes s) (c ∷ write_joined c t strs))

-- `join` fills its buffer exactly: it writes as many bytes as it has allocated, whatever the parts.
pub len-join : (c : ℕ) (strs : List Str) → len (join c strs) ≡ join_size strs
unfolding join join_size
len-join c [] = refl
len-join c (s ∷ strs) = write_joined_size c s strs

-- What the parts of a split are: they spell the text again, and none holds the separator.
abbrev pub SplitOf : ℕ → Bytes → Result (List Str) → Type 0
SplitOf sep s (ok strs) =
    (join sep strs ≡ text s) × All (λ p. Lacks sep (bytes p)) strs × (strs ≢ [])
SplitOf sep s (err e) = ⊥

SplitOf-more :
    (sep : ℕ) (a t : Bytes) (r : Result (List Str))
    → Lacks sep a
    → SplitOf sep t r
    → SplitOf sep (a ++ sep ∷ t) (r >>= λ substrs. ok (text a ∷ substrs))
unfolding join
SplitOf-more sep a t (ok []) la (e, all, ne) = absurd (ne refl)
SplitOf-more sep a t (ok (p ∷ ps)) la (e, all, ne) =
    (ap (λ k. text (a ++ sep ∷ bytes k)) e, (la, all), cc)
SplitOf-more sep a t (err e) la h = elim h [ ]

SplitOf-round :
    (fuel : ℕ) (s : Bytes) (sep : ℕ) (r : Option ℕ)
    → Found sep s r
    → ((t : Bytes) → length t < fuel → SplitOf sep t (split_loop fuel t sep))
    → length s < suc fuel
    → SplitOf sep s (elim r [
      | none ↦ ok (text s ∷ [])
      | some i ↦ split_loop fuel (drop (suc i) s) sep >>= λ substrs. ok (text (take i s) ∷ substrs)
    ])
SplitOf-round fuel s sep none f rest h = (unfold join write_joined in refl, (f, tt), cc)
SplitOf-round fuel s sep (some i) (f, e, l) rest h =
    subst
      (λ k.
        SplitOf sep k
          (split_loop fuel (drop (suc i) s) sep >>= λ substrs. ok (text (take i s) ∷ substrs)))
      (sym e)
      (SplitOf-more sep (take i s) (drop (suc i) s) (split_loop fuel (drop (suc i) s) sep) f
        (rest (drop (suc i) s) (omega (arith, length-drop (suc i) s))))

split_loop_lem :
    (fuel : ℕ) (s : Bytes) (sep : ℕ) → length s < fuel → SplitOf sep s (split_loop fuel s sep)
unfolding split_loop
split_loop_lem zero s sep h = absurd (omega arith)
split_loop_lem (suc fuel) s sep h =
    SplitOf-round fuel s sep (strnfind s sep) (strnfind_lem s sep)
      (λ t l. split_loop_lem fuel t sep l) h

split_of : (s : Bytes) (sep : ℕ) → sep ≢ 0 → SplitOf sep s (split (text s) sep)
unfolding split
split_of s sep h = elim (Bool-cases (sep == 0)) [
  | inl z ↦ absurd (h ((==_iff sep 0).0 z))
  | inr nz ↦ rw nz (split_loop_lem (length s + 1) s sep (omega arith))
]

SplitOf-ok :
    (sep : ℕ) (s : Bytes) (r : Result (List Str))
    → SplitOf sep s r
    → (strs : List Str) × (r ≡ ok strs)
      × (join sep strs ≡ text s)
      × All (λ p. Lacks sep (bytes p)) strs
      × (strs ≢ [])
SplitOf-ok sep s (ok strs) (e, all, ne) = (strs, refl, e, all, ne)
SplitOf-ok sep s (err x) h = elim h [ ]

-- For a separator other than NUL, `split` of any text returns: there is at least one part, no part
-- holds the separator, and `join` puts the text together again.
pub join-split :
    (s : Bytes) (sep : ℕ)
    → sep ≢ 0
    → (strs : List Str) × (split (text s) sep ≡ ok strs)
      × (join sep strs ≡ text s)
      × All (λ p. Lacks sep (bytes p)) strs
      × (strs ≢ [])
join-split s sep h = SplitOf-ok sep s (split (text s) sep) (split_of s sep h)

pub strnfind_at :
    (a t : Bytes) (sep : ℕ) → Lacks sep a → strnfind (a ++ sep ∷ t) sep ≡ some (length a)
unfolding strnfind
strnfind_at [] t sep h = ground arith
strnfind_at (x ∷ a) t sep (hx, h) = ground (arith, strnfind_at a t sep h)

pub strnfind_absent : (a : Bytes) (sep : ℕ) → Lacks sep a → strnfind a sep ≡ none
unfolding strnfind
strnfind_absent [] sep h = refl
strnfind_absent (x ∷ a) sep (hx, h) = ground (arith, strnfind_absent a sep h)

pub take_self_append : (a t : Bytes) → take (length a) (a ++ t) ≡ a
take_self_append [] t = refl
take_self_append (x ∷ a) t = ap (λ k. x ∷ k) (take_self_append a t)

pub drop_self_cons : (a t : Bytes) (c : ℕ) → drop (suc (length a)) (a ++ c ∷ t) ≡ t
drop_self_cons [] t c = refl
drop_self_cons (x ∷ a) t c = drop_self_cons a t c

split_loop_joined :
    (fuel sep : ℕ) (p : Bytes) (ps : List Bytes)
    → length (write_joined sep (text p) (map text ps)) < fuel
    → All (Lacks sep) (p ∷ ps)
    → split_loop fuel (write_joined sep (text p) (map text ps)) sep ≡ ok (map text (p ∷ ps))
unfolding split_loop write_joined
split_loop_joined zero sep p ps h l = absurd (omega arith)
split_loop_joined (suc fuel) sep p [] h (lp, _) = rw (strnfind_absent p sep lp, split_loop)
split_loop_joined (suc fuel) sep p (q ∷ ps) h (lp, l) =
    let t = write_joined sep (text q) (map text ps) in
    let ih = split_loop_joined fuel sep q ps (omega (arith, length-append p (sep ∷ t))) l in
    rw
      (strnfind_at p t sep lp, split_loop, take_self_append p (sep ∷ t), drop_self_cons p t sep, ih)

-- `split` undoes `join` on one or more parts without the separator, which is not NUL.
pub split-join :
    (sep : ℕ) (p : Bytes) (ps : List Bytes)
    → sep ≢ 0
    → All (Lacks sep) (p ∷ ps)
    → split (join sep (map text (p ∷ ps))) sep ≡ ok (map text (p ∷ ps))
unfolding split join
split-join sep p ps h l = elim (Bool-cases (sep == 0)) [
  | inl z ↦ absurd (h ((==_iff sep 0).0 z))
  | inr nz ↦ rw nz (split_loop_joined _ sep p ps (omega arith) l)
]

-- What `split_pair` returns: the text in front of the first separator and the text behind it, or the
-- whole text and a null string.
abbrev pub PairOf : ℕ → Bytes → Result (Str × Str) → Type 0
PairOf sep s (ok (k, null)) = (k ≡ text s) × Lacks sep s
PairOf sep s (ok (k, text v)) = (s ≡ bytes k ++ sep ∷ v) × Lacks sep (bytes k)
PairOf sep s (err e) = ⊥

pair_of :
    (sep : ℕ) (s : Bytes) (r : Option ℕ)
    → Found sep s r
    → PairOf sep s (
        ok (
          let pair : Str × Str = elim r [
            | none ↦ (text s, null)
            | some i ↦ (text (take i s), text (drop (suc i) s))
          ] in
          pair))
pair_of sep s none f = (refl, f)
pair_of sep s (some i) (f, e, l) = (e, f)

-- `split_pair` cuts the text at its first separator: the name lacks it, and name, separator and value
-- spell the text. The value is null exactly if there is no separator.
pub split_pair_lem : (sep : ℕ) (s : Bytes) → sep ≢ 0 → PairOf sep s (split_pair (text s) sep)
unfolding split_pair
split_pair_lem sep s h = elim (Bool-cases (sep == 0)) [
  | inl z ↦ absurd (h ((==_iff sep 0).0 z))
  | inr nz ↦ rw nz (pair_of sep s (strnfind s sep) (strnfind_lem s sep))
]

-- A text that is cut at its first separator.
pub split_pair_at :
    (a t : Bytes) (sep : ℕ)
    → (sep == 0) ≡ false
    → Lacks sep a
    → split_pair (text (a ++ sep ∷ t)) sep ≡ ok (text a, text t)
unfolding split_pair
split_pair_at a t sep z h =
    rw (z, strnfind_at a t sep h, take_self_append a (sep ∷ t), drop_self_cons a t sep)
