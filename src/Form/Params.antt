-- ===== src/Form/Params.antt =====
-- `_parse_header`: it returns for any text, and no parameter takes another's place.
use ctornado.Chars.{to_lower}
use ctornado.Form.{Params, add_param, insert_new, params_loop, parse_header, parse_param, unquoted}
use ctornado.Form.Quoted.{parse_param_ok, unquoted_ok}
use ctornado.Base.{
  Bool, Bool-cases, Bytes, Option, Result, [], arith, codes, drop, false, get_elem?, if◌then◌else◌,
  inl, inr, length, length-drop, le→leb, map, none, ok, refl, some, suc, take, true, zero, ℕ, ◌+◌,
  ◌-◌, ◌<◌, ◌==◌, ◌>>=◌, ◌∙◌, ◌∷◌, ◌≡◌, ◌≤◌,
}
use ctornado.Dict.{assign, lookup, lookup-assign}
use ctornado.Str.{Str, bytes, eq_bytes, remove_prefix, substr, text}
use ctornado.Str.View.{eq_bytes_sound, substr_rest, substr_text}
use ctornado.Str.Find.{memmem}
use ctornado.Str.Occurs.{memmem_room}
use ctornado.Str.Range.{find_str}
use ctornado.Str.Pieces.{}
use ctornado.Str.Counts.{}
use ctornado.Str.Transform.{drop_back, drop_front, keep, lower, strip, strips}

-- A name that is there keeps its value.
abbrev pub Keeps : Params → Params → Type 0
Keeps ps ps' = (n : Bytes) (v : Str) → lookup n ps ≡ some v → lookup n ps' ≡ some v

insert_new-Keeps : (name : Bytes) (value : Str) (ps : Params) → Keeps ps (insert_new name value ps)
unfolding insert_new
insert_new-Keeps name value ps n v h = by_name (lookup name ps) refl
  where
    by_name :
        (o : Option Str)
        → lookup name ps ≡ o
        → lookup n (elim o as (λ x. Params) [ none ↦ assign name value ps | some w ↦ ps ]) ≡ some v
    by_name none e = lookup-assign n name value ps ∙ other (eq_bytes name n) refl
      where
        other : (b : Bool) → eq_bytes name n ≡ b → (if b then some value else lookup n ps) ≡ some v
        other true same = cc (eq_bytes_sound name n same)
        other false k = h
    by_name (some w) e = h

add_param_ok :
    (ps : Params) (s : Bytes) → (ps' : Params) × (add_param ps (text s) ≡ ok ps') × Keeps ps ps'
unfolding add_param find_str strip lower
add_param_ok ps s = at (memmem s (codes "=")) (λ i e. memmem_room s (codes "=") i e)
  where
    at :
        (r : Option ℕ)
        → ((i : ℕ) → r ≡ some i → i + 1 ≤ length s)
        → (ps' : Params) × (elim r as (λ o. Result Params) [
          | none ↦ ok ps
          | some i ↦ substr (text s) 0 (some i) >>= λ front. strip none front >>= λ name.
              lower name >>= λ key. substr (text s) (i + 1) none >>= λ back.
              strip none back >>= λ value.
              unquoted value >>= λ plain. ok (insert_new (bytes key) plain ps)
        ]
            ≡ ok ps')
          × Keeps ps ps'
    at none room = (ps, refl, λ n v h. h)
    at (some i) room =
        let fits = room i refl in
        let front = substr_text s 0 i (omega arith) (omega arith) in
        let back = substr_rest s (i + 1) fits in
        let (plain, run) =
          unquoted_ok (drop_back (strips none) (drop_front (strips none) (drop (i + 1) s))) in
        let key : Bytes =
          map to_lower
            (drop_back (strips none) (drop_front (strips none) (take (i - 0) (drop 0 s)))) in
        (
          insert_new key (text plain) ps,
          rw (front, back, run),
          insert_new-Keeps key (text plain) ps,
        )

at_elem : (s : Bytes) (i : ℕ) (c : ℕ) → get_elem? s i ≡ some c → i < length s
at_elem [] i c h = cc
at_elem (x ∷ s) zero c h = omega arith
at_elem (x ∷ s) (suc i) c h = omega (arith, at_elem s i c h)

params_loop_ok :
    (fuel : ℕ) (ps : Params) (s : Bytes) (place : ℕ)
    → length s < fuel
    → (ps' : Params) × (params_loop fuel ps (text s) place ≡ ok ps') × Keeps ps ps'
unfolding params_loop remove_prefix
params_loop_ok zero ps s place h = absurd (omega arith)
params_loop_ok (suc fuel) ps s place h =
    by_byte (get_elem? s place) (λ c e. at_elem s place c e)
      (λ qs t l end. params_loop_ok fuel qs t end l)
  where
    more : Result Params
    more = remove_prefix (text s) (place + 1) >>= λ rest. parse_param rest >>= λ end.
        substr rest 0 (some end) >>= λ p. add_param ps p >>= λ ps'. params_loop fuel ps' rest end

    by_byte :
        (r : Option ℕ)
        → ((c : ℕ) → r ≡ some c → place < length s)
        → ((qs : Params) (t : Bytes)
            → length t < fuel
            → (end : ℕ)
            → (ps' : Params) × (params_loop fuel qs (text t) end ≡ ok ps') × Keeps qs ps')
        → (ps' : Params) × (elim r as (λ o. Result Params) [
          | none ↦ ok ps
          | some c ↦ if c == b';' then more else ok ps
        ]
            ≡ ok ps')
          × Keeps ps ps'
    by_byte none fits rest = (ps, refl, λ n v h. h)
    by_byte (some c) fits rest = elim (Bool-cases (c == b';')) [
      | inr other ↦ (ps, rw (other), λ n v h. h)
      | inl semicolon ↦
          let room = fits c refl in
          let t = drop (place + 1) s in
          let (e, param_end, small) = parse_param_ok t in
          let cut = substr_text t 0 e (omega arith) small in
          let (qs, added, keeps) = add_param_ok ps (take (e - 0) (drop 0 t)) in
          let (last, run, keep) = rest qs t (omega (arith, length-drop (place + 1) s)) e in
          (
            last,
            rw (semicolon, le→leb (place + 1) (length s) (omega arith), param_end, cut, added) run,
            λ n v h. keep n v (keeps n v h),
          )
    ]

-- `_parse_header` of any text returns, and a parameter that the dictionary has already, from a call
-- before, keeps its value.
pub parse_header_lem :
    (s : Bytes) (ps : Params)
    → (key : Str) × (ps' : Params) × (parse_header (text s) ps ≡ ok (key, ps'))
      × ((n : Bytes) (v : Str) → lookup n ps ≡ some v → lookup n ps' ≡ some v)
unfolding parse_header
parse_header_lem s ps =
    let (e, param_end, small) = parse_param_ok s in
    let cut = substr_text s 0 e (omega arith) small in
    let (ps', run, keeps) = params_loop_ok (length s + 1) ps s e (omega arith) in
    (text (take (e - 0) (drop 0 s)), ps', rw (param_end, cut, run), keeps)
