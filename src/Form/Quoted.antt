-- ===== src/Form/Quoted.antt =====
-- `_parse_param` and the quotes of a parameter: what `_parse_header` calls returns for any text.
use ctornado.Chars.{}
use ctornado.Form.{in_quotes, param_loop, parse_param, quote, unquoted}
use ctornado.Base.{
  Bool, Bool-cases, Bytes, Option, Result, [], arith, codes, drop, false, if◌then◌else◌, inl, inr,
  leb, leb→le, length, none, not, ok, refl, some, suc, take, true, zero, ℕ, ◌%◌, ◌&&◌, ◌+◌, ◌-◌,
  ◌<◌, ◌==◌, ◌>>=◌, ◌∷◌, ◌≡◌, ◌≤◌,
}
use ctornado.Dict.{}
use ctornado.Str.{substr, text}
use ctornado.Str.Cuts.{char_at_ok, last_char_ok}
use ctornado.Str.View.{substr_text}
use ctornado.Str.Find.{}
use ctornado.Str.Occurs.{}
use ctornado.Str.Range.{find_from, join_str, replace}
use ctornado.Str.Pieces.{join_str-split_str}
use ctornado.Str.Counts.{count_char_ok, count_str_ok, find_from_room}
use ctornado.Str.Transform.{}

in_quotes_ok : (s : Bytes) (end : ℕ) → (b : Bool) × (in_quotes (text s) end ≡ ok b)
unfolding in_quotes
in_quotes_ok s end =
    let (q, quotes) = count_char_ok s quote 0 end in
    let (e, escaped) = count_str_ok s (b'\\' ∷ quote ∷ []) 0 end (omega arith) in
    (not ((q - e) % 2 == 0), rw (quotes, escaped))

param_loop_ok :
    (fuel : ℕ) (s : Bytes) (end : ℕ)
    → end < length s
    → length s < fuel + end
    → (e : ℕ) × (param_loop fuel (text s) end ≡ ok e) × (e ≤ length s)
unfolding param_loop
param_loop_ok zero s end h f = absurd (omega arith)
param_loop_ok (suc fuel) s end h f =
    let (b, quoted) = in_quotes_ok s end in
    elim (Bool-cases (end == 0)) [
      | inl front ↦ (end, rw (front), omega arith)
      | inr back ↦
          let (e, run, small) =
            on b (find_from (text s) b';' (end + 1)) refl (λ t l. param_loop_ok fuel s t l) in
          (e, rw (back, quoted) run, small)
    ]
  where
    on :
        (b : Bool) (r : Option ℕ)
        → find_from (text s) b';' (end + 1) ≡ r
        → ((t : ℕ)
            → t < length s
            → length s < fuel + t
            → (e : ℕ) × (param_loop fuel (text s) t ≡ ok e) × (e ≤ length s))
        → (e : ℕ) × ((if b
              then elim r as (λ o. Result ℕ) [
                | none ↦ ok (length s)
                | some t ↦ param_loop fuel (text s) t
              ]
              else ok end)
            ≡ ok e)
          × (e ≤ length s)
    on false r e rest = (end, refl, omega arith)
    on true none e rest = (length s, refl, omega arith)
    on true (some t) e rest =
        let (low, high) = find_from_room s b';' (end + 1) t e in rest t high (omega arith)

pub parse_param_ok : (s : Bytes) → (e : ℕ) × (parse_param (text s) ≡ ok e) × (e ≤ length s)
unfolding parse_param
parse_param_ok s = first (find_from (text s) b';' 0) refl
  where
    first :
        (r : Option ℕ)
        → find_from (text s) b';' 0 ≡ r
        → (e : ℕ) × (elim r as (λ o. Result ℕ) [
          | none ↦ ok (length s)
          | some end ↦ param_loop (length s + 1) (text s) end
        ]
            ≡ ok e)
          × (e ≤ length s)
    first none e = (length s, refl, omega arith)
    first (some end) e =
        param_loop_ok (length s + 1) s end (find_from_room s b';' 0 end e).1 (omega arith)

replace_ok :
    (s old new : Bytes) → 0 < length old → (t : Bytes) × (replace (text s) old new ≡ ok (text t))
unfolding replace
replace_ok s old new h =
    let (parts, cut, joins, ne) = join_str-split_str s old h in (join_str new parts, rw (cut))

pub unquoted_ok : (s : Bytes) → (t : Bytes) × (unquoted (text s) ≡ ok (text t))
unfolding unquoted
unquoted_ok s = elim (Bool-cases (leb 2 (length s))) [
  | inr short ↦ (s, rw (short))
  | inl long ↦
      let (x, first) = char_at_ok s 0 (omega (arith, leb→le 2 (length s) long)) in
      let (y, last) = last_char_ok s (omega (arith, leb→le 2 (length s) long)) in
      let (t, run) = inner x y long in (t, rw (long, first, last) run)
]
  where
    inner :
        (x y : ℕ)
        → leb 2 (length s) ≡ true
        → (t : Bytes) × ((if x == quote && y == quote
              then (substr (text s) 1 (some (length s - 1)) >>= λ inner.
                  replace inner (codes "\\\\") (codes "\\") >>= λ single.
                  replace single (b'\\' ∷ quote ∷ []) (quote ∷ []))
              else ok (text s))
            ≡ ok (text t))
    inner x y long =
        let cut =
          substr_text s 1 (length s - 1) (omega (arith, leb→le 2 (length s) long)) (omega arith) in
        let (t, single) =
          replace_ok (take (length s - 1 - 1) (drop 1 s)) (codes "\\\\") (codes "\\")
            (omega arith) in
        let (u, plain) = replace_ok t (b'\\' ∷ quote ∷ []) (quote ∷ []) (omega arith) in
        elim (Bool-cases (x == quote && y == quote)) [
          | inl both ↦ (u, rw (both, cut, single) plain)
          | inr bare ↦ (s, rw (bare))
        ]
