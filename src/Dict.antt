-- ===== src/Dict.antt =====
-- `std::map` and `std::multimap` with strings as keys (src/core/core.h), in the order of `StrLess`.
use ctornado.Base.{
  Bool, Bytes, List, Option, [], arith, false, if◌then◌else◌, ltb, none, refl, some, true, ◌&&◌,
  ◌==◌, ◌∷◌, ◌≡◌,
}
use ctornado.Str.View.{eq_bytes_iff}
use ctornado.Str.{eq_bytes}

-- `StrLess` on strings that are not null: by `memcmp`, and then by length
unfoldable pub less : Bytes → Bytes → Bool
less [] [] = false
less [] (y ∷ ys) = true
less (x ∷ xs) [] = false
less (x ∷ xs) (y ∷ ys) = let rest = less xs ys in if ltb x y then true else x == y && rest

module _ {ℓ} {V : Type ℓ} where
  -- `find`, for a map: the value of a key
  unfoldable pub lookup : Bytes → List (Bytes × V) → Option V
  lookup k [] = none
  lookup k ((j, v) ∷ m) = let rest = lookup k m in if eq_bytes j k then some v else rest

  -- `map[k] = v`
  unfoldable pub assign : Bytes → V → List (Bytes × V) → List (Bytes × V)
  unfolding less
  assign k v [] = (k, v) ∷ []
  assign k v ((j, w) ∷ m) =
      let rest = assign k v m in
      if eq_bytes j k then (j, v) ∷ m else if less k j then (k, v) ∷ (j, w) ∷ m else (j, w) ∷ rest

  -- `insert` of a multimap: behind the entries that have the key
  unfoldable pub insert : Bytes → V → List (Bytes × V) → List (Bytes × V)
  unfolding less
  insert k v [] = (k, v) ∷ []
  insert k v ((j, w) ∷ m) =
      let rest = insert k v m in if less k j then (k, v) ∷ (j, w) ∷ m else (j, w) ∷ rest

  -- What a key has after an assignment.
  pub lookup-assign :
      (j k : Bytes) (v : V) (m : List (Bytes × V))
      → lookup j (assign k v m) ≡ (if eq_bytes k j then some v else lookup j m)
  unfolding lookup assign
  lookup-assign j k v [] = refl
  lookup-assign j k v ((i, w) ∷ m) =
      ground (arith, eq_bytes_iff i k, eq_bytes_iff i j, eq_bytes_iff k j, lookup-assign j k v m)
