-- ===== src/Loop/Map.antt =====
-- `std::map` with descriptors as keys: entries in the order of their keys.
use ctornado.Base.{
  ==_iff, All, Bool, Bool-cases, List, Option, [], ap, arith, false, if◌then◌else◌, inl, inr,
  length, ltb, none, not, refl, some, suc, sym, true, ℕ, ◌&&◌, ◌==◌, ◌||◌, ◌∙◌, ◌∷◌, ◌≡◌, ◌≤◌,
}

module _ {ℓ} {A : Type ℓ} where
  unfoldable pub find : ℕ → List (ℕ × A) → Option A
  find k [] = none
  find k ((k2, a) ∷ m) = let rest = find k m in if k2 == k then some a else rest

  -- is a key in the map?
  unfoldable pub has : ℕ → List (ℕ × A) → Bool
  has k [] = false
  has k ((k2, a) ∷ m) = k2 == k || has k m

  -- a new entry at its place
  insert_new : ℕ → A → List (ℕ × A) → List (ℕ × A)
  insert_new k a [] = (k, a) ∷ []
  insert_new k a ((k2, b) ∷ m) =
      let rest = insert_new k a m in if ltb k k2 then (k, a) ∷ (k2, b) ∷ m else (k2, b) ∷ rest

  -- `insert({ key, value })` keeps the value of a key that is there.
  unfoldable pub insert : ℕ → A → List (ℕ × A) → List (ℕ × A)
  unfolding has insert_new
  insert k a m = if has k m then m else insert_new k a m

  -- `erase(key)`
  unfoldable pub erase : ℕ → List (ℕ × A) → List (ℕ × A)
  erase k [] = []
  erase k ((k2, a) ∷ m) = let rest = erase k m in if k2 == k then rest else (k2, a) ∷ rest

  found-has : (k : ℕ) (a : A) (m : List (ℕ × A)) → find k m ≡ some a → has k m ≡ true
  unfolding find has
  found-has k a [] h = cc
  found-has k a ((k2, b) ∷ m) h = elim (Bool-cases (k2 == k)) [
    | inl here ↦ rw (here) refl
    | inr past ↦ rw (past) (found-has k a m (rw past at h))
  ]

  has-insert_new :
      (x k : ℕ) (a : A) (m : List (ℕ × A)) → has x (insert_new k a m) ≡ (k == x || has x m)
  unfolding has insert_new
  has-insert_new x k a [] = refl
  has-insert_new x k a ((k2, b) ∷ m) = ground (arith, has-insert_new x k a m)

  pub has-insert : (x k : ℕ) (a : A) (m : List (ℕ × A)) → has x (insert k a m) ≡ (k == x || has x m)
  unfolding insert
  has-insert x k a m = elim (Bool-cases (has k m)) [
    | inl there ↦ rw (there) (elim (Bool-cases (k == x)) [
      | inl same ↦ rw (same) (ap (λ y. has y m) (sym ((==_iff k x).0 same)) ∙ there)
      | inr differ ↦ rw (differ) refl
    ])
    | inr new ↦ rw (new) (has-insert_new x k a m)
  ]

  pub find-insert :
      (k : ℕ) (a b : A) (m : List (ℕ × A)) → find k m ≡ some b → find k (insert k a m) ≡ some b
  unfolding insert
  find-insert k a b m h = rw (found-has k b m h) h

  pub has-erase : (x k : ℕ) (m : List (ℕ × A)) → has x (erase k m) ≡ (not (k == x) && has x m)
  unfolding has erase
  has-erase x k [] = ground arith
  has-erase x k ((k2, a) ∷ m) = ground (arith, has-erase x k m)

  pub has-find : (k : ℕ) (m : List (ℕ × A)) → has k m ≡ true → (a : A) × (find k m ≡ some a)
  unfolding has find
  has-find k [] h = cc
  has-find k ((k2, a) ∷ m) h = elim (Bool-cases (k2 == k)) [
    | inl here ↦ (a, rw (here) refl)
    | inr past ↦ let (b, e) = has-find k m (rw past at h) in (b, rw (past) e)
  ]

  pub length-erase : (k : ℕ) (m : List (ℕ × A)) → length (erase k m) ≤ length m
  unfolding erase
  length-erase k [] = omega arith
  length-erase k ((k2, a) ∷ m) = ground (arith, length-erase k m)

  All-insert_new :
      (P : ℕ × A → Type 0) (k : ℕ) (a : A) (m : List (ℕ × A))
      → P (k, a)
      → All P m
      → All P (insert_new k a m)
  unfolding insert_new
  All-insert_new P k a [] h hs = (h, tt)
  All-insert_new P k a ((k2, b) ∷ m) h (x, hs) = elim (Bool-cases (ltb k k2)) [
    | inl before ↦ rw (before) (h, (x, hs))
    | inr behind ↦ rw (behind) (x, All-insert_new P k a m h hs)
  ]

  pub All-insert :
      (P : ℕ × A → Type 0) (k : ℕ) (a : A) (m : List (ℕ × A))
      → P (k, a)
      → All P m
      → All P (insert k a m)
  unfolding insert
  All-insert P k a m h hs = elim (Bool-cases (has k m)) [
    | inl there ↦ rw (there) hs
    | inr new ↦ rw (new) (All-insert_new P k a m h hs)
  ]

  length-insert_new :
      (k : ℕ) (a : A) (m : List (ℕ × A)) → length (insert_new k a m) ≤ suc (length m)
  unfolding insert_new
  length-insert_new k a [] = omega arith
  length-insert_new k a ((k2, b) ∷ m) = ground (arith, length-insert_new k a m)

  pub length-insert : (k : ℕ) (a : A) (m : List (ℕ × A)) → length (insert k a m) ≤ suc (length m)
  unfolding insert
  length-insert k a m = ground (arith, length-insert_new k a m)
