-- ===== src/Str/Pieces.antt =====
-- `split` and `join` by a string.
use mathlib.Core.Path.{subst}
use ctornado.Base.{
  Bool, Bool-cases, Bytes, List, Option, Result, [], ap, arith, drop, err, false, inl, inr, leb,
  length, length-append, none, ok, refl, some, suc, sym, take, true, zero, ℕ, ◌&&◌, ◌++◌, ◌+◌, ◌<◌,
  ◌>>=◌, ◌∙◌, ◌∷◌, ◌≡◌, ◌≢◌,
}
use ctornado.Str.{Str, eq_bytes, text}
use ctornado.Str.View.{eq_bytes_sound}
use ctornado.Str.Find.{further, memmem}
use ctornado.Str.Range.{join_str, replace, split_str, split_str_loop}

-- What a search for bytes says of the text: they stand at the place that it names.
abbrev StandsAt : Bytes → Bytes → Option ℕ → Type 0
StandsAt s t none = Unit {0}
StandsAt s t (some i) = s ≡ take i s ++ (t ++ drop (length t) (drop i s))

cut_here : (s t : Bytes) → take (length t) s ≡ t → s ≡ t ++ drop (length t) s
cut_here s [] e = refl
cut_here [] (y ∷ t) e = cc
cut_here (x ∷ s) (y ∷ t) e = let ih = cut_here s t (cc) in cc

stands_at : (s t : Bytes) → StandsAt s t (memmem s t)
unfolding memmem
stands_at [] [] = refl
stands_at [] (y ∷ t) = tt
stands_at (x ∷ s) t =
    elim (Bool-cases (leb (length t) (suc (length s)) && eq_bytes (take (length t) (x ∷ s)) t)) [
      | inl found ↦ rw (found) (
          cut_here (x ∷ s) t
            (eq_bytes_sound _ _ (second (leb (length t) (suc (length s))) _ found)))
      | inr other ↦ rw (other) (later (memmem s t) (stands_at s t))
    ]
  where
    second : (a b : Bool) → (a && b) ≡ true → b ≡ true
    second true b h = h
    second false b h = cc

    later : (r : Option ℕ) → StandsAt s t r → StandsAt (x ∷ s) t (further r)
    later none h = tt
    later (some i) h = ap (λ k. x ∷ k) h

-- what the loop of `split` returns
abbrev SplitAs : Bytes → Bytes → Result (List Str) → Type 0
SplitAs sep s (ok parts) = (join_str sep parts ≡ s) × (parts ≢ [])
SplitAs sep s (err e) = ⊥

joined_more :
    (sep a t : Bytes) (r : Result (List Str))
    → SplitAs sep t r
    → SplitAs sep (a ++ (sep ++ t)) (r >>= λ parts. ok (text a ∷ parts))
unfolding join_str
joined_more sep a t (ok []) (e, ne) = absurd (ne refl)
joined_more sep a t (ok (p ∷ ps)) (e, ne) = (ap (λ k. a ++ (sep ++ k)) e, cc)
joined_more sep a t (err e) h = elim h [ ]

split_str_loop_lem :
    (fuel : ℕ) (s sep : Bytes)
    → length s < fuel
    → 0 < length sep
    → SplitAs sep s (split_str_loop fuel s sep)
unfolding split_str_loop join_str
split_str_loop_lem zero s sep h p = absurd (omega arith)
split_str_loop_lem (suc fuel) s sep h p =
    round (memmem s sep) (stands_at s sep) (λ t l. split_str_loop_lem fuel t sep l p)
  where
    round :
        (r : Option ℕ)
        → StandsAt s sep r
        → ((t : Bytes) → length t < fuel → SplitAs sep t (split_str_loop fuel t sep))
        → SplitAs sep s (elim r as (λ o. Result (List Str)) [
          | none ↦ ok (text s ∷ [])
          | some i ↦ split_str_loop fuel (drop (length sep) (drop i s)) sep >>= λ substrs.
              ok (text (take i s) ∷ substrs)
        ])
    round none e rest = (refl, cc)
    round (some i) e rest =
        let after = drop (length sep) (drop i s) in
        let long : length s ≡ length (take i s) + (length sep + length after) =
          ap length e
          ∙ length-append (take i s) (sep ++ after)
          ∙ ap (λ n. length (take i s) + n) (length-append sep after) in
        subst
          (λ k. SplitAs sep k (
            split_str_loop fuel (drop (length sep) (drop i s)) sep >>= λ substrs.
            ok (text (take i s) ∷ substrs)))
          (sym e)
          (joined_more sep (take i s) (drop (length sep) (drop i s))
            (split_str_loop fuel (drop (length sep) (drop i s)) sep)
            (rest (drop (length sep) (drop i s)) (omega (arith, p, h, long))))

-- For a separator that is not empty, `split` of any text returns: there is at least one part, and
-- `join` with the separator puts the text together again.
pub join_str-split_str :
    (s sep : Bytes)
    → 0 < length sep
    → (parts : List Str) × (split_str (text s) sep ≡ ok parts)
      × (join_str sep parts ≡ s)
      × (parts ≢ [])
unfolding split_str
join_str-split_str s [] h = absurd (omega arith)
join_str-split_str s (x ∷ sep) h =
    parts_of (split_str_loop (length s + 1) s (x ∷ sep))
      (split_str_loop_lem (length s + 1) s (x ∷ sep) (omega arith) h)
  where
    parts_of :
        (r : Result (List Str))
        → SplitAs (x ∷ sep) s r
        → (parts : List Str) × (r ≡ ok parts) × (join_str (x ∷ sep) parts ≡ s) × (parts ≢ [])
    parts_of (ok parts) (e, ne) = (parts, refl, e, ne)
    parts_of (err e) k = elim k [ ]

-- `replace` of a text that is not empty by itself returns the text unchanged.
pub replace_same : (s old : Bytes) → 0 < length old → replace (text s) old old ≡ ok (text s)
unfolding replace
replace_same s old h =
    let (parts, cut, joins, ne) = join_str-split_str s old h in
    rw (cut) (ap (λ k. ok (text k)) joins)
