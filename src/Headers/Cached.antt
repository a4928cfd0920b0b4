-- ===== src/Headers/Cached.antt =====
-- `normalize_name`: the cache does not change what it returns.
use mathlib.Core.Path.{subst}
use ctornado.Headers.{Cache, normal, normalize_name}
use ctornado.Base.{
  Bool, Bool-cases, Bytes, Error, Option-cases, Result, [], err, inl, inr, ok, refl, some, sym,
  ◌>>=◌, ◌∙◌, ◌≡◌,
}
use ctornado.Dict.{assign, lookup, lookup-assign}
use ctornado.Str.View.{eq_bytes_sound}
use ctornado.Str.{eq_bytes}

second :
    (m m' : Bytes) (a b : Cache) → ◌≡◌ {A = Result (Bytes × Cache)} (ok (m, a)) (ok (m', b)) → a ≡ b
second m m' a b h = cc

module _ (matches : Bytes → Bool) where
  -- every name in the cache stands with its normal form
  abbrev pub IsCache : Cache → Type 0
  IsCache cache = (k v : Bytes) → lookup k cache ≡ some v → normal matches k ≡ ok v

  pub IsCache-nil : IsCache []
  unfolding lookup
  IsCache-nil k v h = cc

  pub assign-IsCache :
      (cache : Cache) (n m : Bytes)
      → IsCache cache
      → normal matches n ≡ ok m
      → IsCache (assign n m cache)
  assign-IsCache cache n m c e k v h = elim (Bool-cases (eq_bytes n k)) [
    | inl same ↦ cc (lookup-assign k n m cache, same, eq_bytes_sound n k same)
    | inr other ↦ c k v (sym (lookup-assign k n m cache ∙ (rw (other))) ∙ h)
  ]

  pub normalize_ok :
      (cache : Cache) (n m : Bytes)
      → IsCache cache
      → normal matches n ≡ ok m
      → (cache' : Cache) × (normalize_name matches cache n ≡ ok (m, cache')) × IsCache cache'
  unfolding normalize_name
  normalize_ok cache n m c e = elim (Option-cases (lookup n cache)) [
    | inr (m', found) ↦ (cache, (rw (found, normalize_name) (cc (c n m' found))), c)
    | inl absent ↦
        (assign n m cache, (rw (absent, normalize_name, e)), assign-IsCache cache n m c e)
  ]

  normalize_err :
      (cache : Cache) (n : Bytes) (x : Error)
      → IsCache cache
      → normal matches n ≡ err x
      → normalize_name matches cache n ≡ err x
  unfolding normalize_name
  normalize_err cache n x c e = elim (Option-cases (lookup n cache)) [
    | inr (m', found) ↦ cc (c n m' found)
    | inl absent ↦ rw (absent, normalize_name, e)
  ]

  -- Behind a valid cache `normalize_name` returns, or fails, as without one, and the cache that it
  -- leaves is valid again.
  pub normalize_name_lem :
      (cache : Cache) (n : Bytes)
      → IsCache cache
      → ((normalize_name matches cache n >>= λ r. ok r.0) ≡ normal matches n)
        × ((m : Bytes) (cache' : Cache)
            → normalize_name matches cache n ≡ ok (m, cache')
            → IsCache cache')
  normalize_name_lem cache n c = by_normal (normal matches n) refl
    where
      by_normal :
          (r : Result Bytes)
          → normal matches n ≡ r
          → ((normalize_name matches cache n >>= λ r. ok r.0) ≡ normal matches n)
            × ((m : Bytes) (cache' : Cache)
                → normalize_name matches cache n ≡ ok (m, cache')
                → IsCache cache')
      by_normal (err x) e =
          (rw (normalize_err cache n x c e) (sym e), λ m cache' h. cc (normalize_err cache n x c e))
      by_normal (ok m') e =
          let (left, run, valid) = normalize_ok cache n m' c e in
          (
            rw (run) (sym e),
            λ m cache' h. subst IsCache (second m' m left cache' (sym run ∙ h)) valid,
          )
