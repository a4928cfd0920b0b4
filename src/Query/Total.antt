-- ===== src/Query/Total.antt =====
-- `Query::parse`: it returns for any text.
use mathlib.Core.Path.{subst}
use ctornado.Str.Find.{strnfind}
use ctornado.Dict.{insert}
use ctornado.Base.{
  All, Bool-cases, Bytes, List, Option, Result, [], arith, drop, err, inl, inr, length, none, ok,
  refl, some, suc, take, zero, ℕ, ◌+◌, ◌==◌, ◌>>=◌, ◌∷◌, ◌≡◌,
}
use ctornado.Str.{Str, bytes, len, null, text}
use ctornado.Str.Split.{PairOf, join-split, split, split_loop, split_pair, split_pair_lem}
use ctornado.Query.{Query, add_part, add_parts, parse, parse_extend}

-- a string that is not null
pub IsText : Str → Type 0
IsText null = ⊥
IsText (text s) = Unit {0}

pub PairOf-ok :
    (sep : ℕ) (s : Bytes) (r : Result (Str × Str))
    → PairOf sep s r
    → (k : Str) × (v : Str) × (r ≡ ok (k, v)) × PairOf sep s (ok (k, v))
PairOf-ok sep s (ok (k, v)) h = (k, v, refl, h)
PairOf-ok sep s (err e) h = elim h [ ]

-- every part that the loop cuts off is a text
TextsOf : Result (List Str) → Type 0
TextsOf (ok parts) = All IsText parts
TextsOf (err e) = Unit {0}

texts_more :
    (a : Bytes) (r : Result (List Str)) → TextsOf r → TextsOf (r >>= λ parts. ok (text a ∷ parts))
unfolding TextsOf IsText
texts_more a (ok parts) h = (tt, h)
texts_more a (err e) h = tt

split_loop_texts : (fuel : ℕ) (s : Bytes) (sep : ℕ) → TextsOf (split_loop fuel s sep)
unfolding split_loop TextsOf IsText
split_loop_texts zero s sep = tt
split_loop_texts (suc fuel) s sep = cut (λ t. split_loop_texts fuel t sep) (strnfind s sep)
  where
    cut :
        ((t : Bytes) → TextsOf (split_loop fuel t sep))
        → (r : Option ℕ)
        → TextsOf (elim r as (λ o. Result (List Str)) [
          | none ↦ ok (text s ∷ [])
          | some i ↦
              split_loop fuel (drop (suc i) s) sep >>= λ substrs. ok (text (take i s) ∷ substrs)
        ])
    cut rest none = (tt, tt)
    cut rest (some i) =
        texts_more (take i s) (split_loop fuel (drop (suc i) s) sep) (rest (drop (suc i) s))

split_texts : (s : Bytes) (parts : List Str) → split (text s) b'&' ≡ ok parts → All IsText parts
unfolding split TextsOf
split_texts s parts e = subst TextsOf e (split_loop_texts (length s + 1) s b'&')

add_part_ok : (q : Query) (s : Bytes) → (q' : Query) × (add_part q (text s) ≡ ok q')
unfolding add_part
add_part_ok q s =
    let (k, v, e, h) =
      PairOf-ok b'=' s (split_pair (text s) b'=') (split_pair_lem b'=' s (omega arith)) in
    elim (Bool-cases (len v == 0)) [
      | inl nothing ↦ (q, rw (e, nothing) refl)
      | inr more ↦ (insert (bytes k) v q, rw (e, more) refl)
    ]

add_parts_ok :
    (parts : List Str) (q : Query) → All IsText parts → (q' : Query) × (add_parts q parts ≡ ok q')
unfolding add_parts IsText
add_parts_ok [] q h = (q, refl)
add_parts_ok (null ∷ parts) q (h, hs) = absurd h
add_parts_ok (text s ∷ parts) q (h, hs) =
    let (q', e) = add_part_ok q s in let (last, es) = add_parts_ok parts q' hs in (last, rw (e) es)

-- `parse_extend` returns for any string, the null one included.
pub parse_extend-total : (q : Query) (str : Str) → (q' : Query) × (parse_extend q str ≡ ok q')
unfolding parse_extend
parse_extend-total q null = (q, refl)
parse_extend-total q (text s) =
    let (parts, e, joins, all, ne) = join-split s b'&' (omega arith) in
    let (q', more) = add_parts_ok parts q (split_texts s parts e) in (q', rw (e) more)

pub parse-total : (str : Str) → (q : Query) × (parse str ≡ ok q)
unfolding parse
parse-total str = parse_extend-total [] str
