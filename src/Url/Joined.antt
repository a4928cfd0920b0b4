-- ===== src/Url/Joined.antt =====
-- `url_join`: the path that it makes of two.
use ctornado.Url.Join.{
  dot_last, drop_dots, join_paths, one_up, up_last, up_last_of, ups, without_last,
}
use ctornado.Str.{Str, bytes, eq_bytes, text}
use ctornado.Str.Split.{join, join-split}
use ctornado.Base.{
  All, All-append, Bool, Bool-cases, Bytes, Lacks, List, Option, Result, [], arith, codes, false,
  if◌then◌else◌, inl, inr, is_nil, length, map, none, not, ok, refl, some, suc, true, zero, ℕ, ◌&&◌,
  ◌++◌, ◌+◌, ◌<◌, ◌∷◌, ◌≡◌, ◌≤◌, ◌⊎◌,
}

-- Is `b` a step up behind a name?
abbrev pub is_up : Bytes → Bytes → Bool
is_up a b = eq_bytes b (codes "..") && (not (is_nil a) && not (eq_bytes a (codes "..")))

-- no step up behind a name
abbrev pub Tidy : List Bytes → Type 0
Tidy [] = Unit {0}
Tidy (a ∷ []) = Unit {0}
Tidy (a ∷ b ∷ segs) = (is_up a b ≡ false) × Tidy (b ∷ segs)

-- the same, where the last segment may be one
abbrev TidyFront : List Bytes → Type 0
TidyFront [] = Unit {0}
TidyFront (a ∷ []) = Unit {0}
TidyFront (a ∷ b ∷ []) = Unit {0}
TidyFront (a ∷ b ∷ c ∷ segs) = (is_up a b ≡ false) × TidyFront (b ∷ c ∷ segs)

-- What a round of the loop makes: no step up is left, or two segments are gone.
RoundOf : (Bytes → Type 0) → List Bytes → Option (List Bytes) → Type 0
RoundOf P segs none = TidyFront segs
RoundOf P segs (some rest) = (length rest + 2 ≡ length segs) × All P rest

one_up_lem : (P : Bytes → Type 0) (segs : List Bytes) → All P segs → RoundOf P segs (one_up segs)
unfolding one_up RoundOf
one_up_lem P [] h = tt
one_up_lem P (a ∷ []) h = tt
one_up_lem P (a ∷ b ∷ []) h = tt
one_up_lem P (a ∷ b ∷ c ∷ segs) (ha, (hb, hs)) =
    merged (one_up (b ∷ c ∷ segs)) (is_up a b) refl (one_up_lem P (b ∷ c ∷ segs) (hb, hs))
  where
    merged :
        (r : Option (List Bytes)) (up : Bool)
        → is_up a b ≡ up
        → RoundOf P (b ∷ c ∷ segs) r
        → RoundOf P (a ∷ b ∷ c ∷ segs) (elim r as (λ x. Option (List Bytes)) [
          | none ↦ if up then some (c ∷ segs) else none
          | some rest ↦ if up then some (c ∷ segs) else some (a ∷ rest)
        ])
    merged none true e t = (omega arith, hs)
    merged none false e t = (e, t)
    merged (some rest) true e (n, hr) = (omega arith, hs)
    merged (some rest) false e (n, hr) = (omega (arith, n), (ha, hr))

ups_lem :
    (P : Bytes → Type 0) (fuel : ℕ) (segs : List Bytes)
    → All P segs
    → length segs < fuel
    → (out : List Bytes) × (ups fuel segs ≡ ok out) × TidyFront out × All P out
unfolding ups RoundOf
ups_lem P zero segs h e = absurd (omega arith)
ups_lem P (suc fuel) segs h e =
    by_round (one_up segs) (one_up_lem P segs h) (λ rest hr n. ups_lem P fuel rest hr n)
  where
    by_round :
        (r : Option (List Bytes))
        → RoundOf P segs r
        → ((rest : List Bytes)
            → All P rest
            → length rest < fuel
            → (out : List Bytes) × (ups fuel rest ≡ ok out) × TidyFront out × All P out)
        → (out : List Bytes) × ((elim r as (λ x. Result (List Bytes)) [
          | none ↦ ok segs
          | some rest ↦ ups fuel rest
        ])
            ≡ ok out)
          × TidyFront out
          × All P out
    by_round none t again = (segs, refl, t, h)
    by_round (some rest) (n, hr) again = again rest hr (omega arith)

abbrev pub NotDot : Bytes → Type 0
NotDot s = eq_bytes s (codes ".") ≡ false

length-drop_dots : (segs : List Bytes) → length (drop_dots segs) ≤ length segs
unfolding drop_dots
length-drop_dots [] = omega arith
length-drop_dots (s ∷ segs) = ground (arith, length-drop_dots segs)

first_fails : {x : Bool} → x ≡ false → (y : Bool) → (x && y) ≡ false
first_fails e y = rw (e) refl

abbrev Name : (Bytes → Type 0) → Bytes → Type 0
Name Q s = NotDot s × Q s

-- what the steps keep of segments, the empty one included
module _ (Q : Bytes → Type 0) (q : Q []) where
  All-without_last : (xs ys : List Bytes) → All Q (xs ++ ys) → All Q (without_last xs ++ ys)
  unfolding without_last
  All-without_last [] ys h = h
  All-without_last (x ∷ []) ys (hx, h) = h
  All-without_last (x ∷ y ∷ xs) ys (hx, h) = (hx, All-without_last (y ∷ xs) ys h)

  All-dot_last : (segs : List Bytes) → All Q segs → All Q (dot_last segs)
  unfolding dot_last
  All-dot_last [] h = tt
  All-dot_last (s ∷ []) (hs, h) = (by_test (eq_bytes s (codes ".")), tt)
    where
      by_test : (b : Bool) → Q (if b then [] else s)
      by_test true = q
      by_test false = hs
  All-dot_last (s ∷ t ∷ segs) (hs, h) = (hs, All-dot_last (t ∷ segs) h)

  drop_dots_lem : (segs : List Bytes) → All Q segs → All (Name Q) (drop_dots segs)
  unfolding drop_dots
  drop_dots_lem [] h = tt
  drop_dots_lem (s ∷ segs) (hs, h) = elim (Bool-cases (eq_bytes s (codes "."))) [
    | inl dot ↦ rw (dot) (drop_dots_lem segs h)
    | inr name ↦ rw (name) ((name, hs), drop_dots_lem segs h)
  ]

  up_last_of_lem :
      (a b c : Bytes) (segs : List Bytes)
      → is_up a b ≡ false
      → TidyFront (b ∷ c ∷ segs)
      → All (Name Q) (b ∷ c ∷ segs)
      → Tidy (a ∷ up_last_of b c segs) × All (Name Q) (up_last_of b c segs)
  unfolding up_last_of eq_bytes
  up_last_of_lem a b c [] up t (hb, (hc, h)) = elim (Bool-cases (eq_bytes c (codes ".."))) [
    | inl back ↦ rw (back) ((refl, tt), ((refl, q), tt))
    | inr name ↦ rw (name) ((up, (first_fails name _, tt)), (hb, (hc, tt)))
  ]
  up_last_of_lem a b c (d ∷ segs) up (here, t) (hb, h) =
      let (tidy, names) = up_last_of_lem b c d segs here t h in ((up, tidy), (hb, names))

  up_last_lem :
      (segs : List Bytes)
      → TidyFront segs
      → All (Name Q) segs
      → Tidy (up_last segs) × All (Name Q) (up_last segs)
  unfolding up_last eq_bytes
  up_last_lem [] t h = (tt, tt)
  up_last_lem (a ∷ []) t h = (tt, h)
  up_last_lem (a ∷ b ∷ []) t (ha, (hb, h)) = elim (Bool-cases (eq_bytes b (codes ".."))) [
    | inl back ↦ elim (Bool-cases (is_nil a)) [
      | inl nothing ↦ rw (back, nothing) ((refl, tt), ((refl, q), ((refl, q), tt)))
      | inr name ↦ rw (back, name) (tt, ((refl, q), tt))
    ]
    | inr name ↦ rw (name) ((first_fails name _, tt), (ha, (hb, tt)))
  ]
  up_last_lem (a ∷ b ∷ c ∷ segs) (here, t) (ha, h) =
      let (tidy, names) = up_last_of_lem a b c segs here t h in (tidy, (ha, names))

-- The segment is one of the list.
abbrev pub IsIn : Bytes → List Bytes → Type 0
IsIn s [] = ⊥
IsIn s (t ∷ segs) = (s ≡ t) ⊎ IsIn s segs

-- A segment of the result is one of the two paths', or empty, and has no slash in it.
abbrev pub ComesFrom : List Bytes → Bytes → Type 0
ComesFrom given s = Lacks b'/' s × ((s ≡ []) ⊎ IsIn s given)

come :
    (segs given : List Bytes)
    → All (Lacks b'/') segs
    → ((s : Bytes) → IsIn s segs → IsIn s given)
    → All (ComesFrom given) segs
come [] given h f = tt
come (s ∷ segs) given (hs, h) f =
    ((hs, inr (f s (inl refl))), come segs given h (λ t i. f t (inr i)))

lacking :
    (strs : List Str) → All (λ p. Lacks b'/' (bytes p)) strs → All (Lacks b'/') (map bytes strs)
lacking [] h = tt
lacking (s ∷ strs) (hs, h) = (hs, lacking strs h)

all_names :
    (given segs : List Bytes)
    → All (Name (ComesFrom given)) segs
    → All NotDot segs × All (ComesFrom given) segs
all_names given [] h = (tt, tt)
all_names given (s ∷ segs) ((n, c), h) = let (ns, cs) = all_names given segs h in ((n, ns), (c, cs))

-- `url_join` of a base path and a path that is not absolute: the join of the paths always returns. Let
-- the two paths be cut at their slashes. The result is made of segments without a slash, each of them one
-- of theirs or empty; none is a single dot, and no step up stands behind a name.
pub join_paths_lem :
    (base path : Bytes)
    → (segs1 : List Str) × (segs2 : List Str) × (segs : List Bytes) × (join b'/' segs1 ≡ text base)
      × (join b'/' segs2 ≡ text path)
      × All (λ p. Lacks b'/' (bytes p)) (segs1 ++ segs2)
      × (join_paths base path ≡ ok (bytes (join b'/' (map text segs))))
      × All (ComesFrom (map bytes segs1 ++ map bytes segs2)) segs
      × All NotDot segs
      × Tidy segs
unfolding join_paths
join_paths_lem base path =
    let (segs1, run1, joins1, lack1, some1) = join-split base b'/' (omega arith) in
    let (segs2, run2, joins2, lack2, some2) = join-split path b'/' (omega arith) in
    let given = map bytes segs1 ++ map bytes segs2 in
    let come_all =
      come given given
        (All-append (Lacks b'/') (map bytes segs1) (map bytes segs2) (lacking segs1 lack1)
          (lacking segs2 lack2))
        (λ s i. i) in
    let all_segs = dot_last (without_last (map bytes segs1) ++ map bytes segs2) in
    let nothing : ComesFrom given [] = (tt, inl refl) in
    let kept =
      All-dot_last (ComesFrom given) nothing (without_last (map bytes segs1) ++ map bytes segs2)
        (All-without_last (ComesFrom given) nothing (map bytes segs1) (map bytes segs2) come_all) in
    let (out, ran, t, h) =
      ups_lem (Name (ComesFrom given)) (length all_segs + 1) (drop_dots all_segs)
        (drop_dots_lem (ComesFrom given) nothing all_segs kept)
        (omega (arith, length-drop_dots all_segs)) in
    let (tidy, names) = up_last_lem (ComesFrom given) nothing out t h in
    let (no_dots, from) = all_names given (up_last out) names in
    (
      segs1,
      segs2,
      up_last out,
      joins1,
      joins2,
      All-append (λ p. Lacks b'/' (bytes p)) segs1 segs2 lack1 lack2,
      rw (run1, run2, ran) refl,
      from,
      no_dots,
      tidy,
    )
