-- ===== src/Str/Counts.antt =====
-- `count` and `find` in a part of a string.
use ctornado.Base.{
  Bytes, Option, Result, arith, drop, length, length-drop, length-take, none, ok, refl, some, suc,
  zero, ℕ, ◌+◌, ◌-◌, ◌<◌, ◌>>=◌, ◌≡◌, ◌≤◌,
}
use ctornado.Str.{text}
use ctornado.Str.Find.{Found, memmem, strnfind, strnfind_lem}
use ctornado.Str.Occurs.{memmem_room}
use ctornado.Str.Range.{count_char, count_char_loop, count_str, count_str_loop, find_from, range}

count_char_loop_ok :
    (fuel : ℕ) (s : Bytes) (c : ℕ) → length s < fuel → (n : ℕ) × (count_char_loop fuel s c ≡ ok n)
unfolding count_char_loop
count_char_loop_ok zero s c h = absurd (omega arith)
count_char_loop_ok (suc fuel) s c h =
    round (strnfind s c) (strnfind_lem s c) (λ t l. count_char_loop_ok fuel t c l)
  where
    round :
        (r : Option ℕ)
        → Found c s r
        → ((t : Bytes) → length t < fuel → (n : ℕ) × (count_char_loop fuel t c ≡ ok n))
        → (n : ℕ) × (elim r as (λ o. Result ℕ) [
          | none ↦ ok 0
          | some i ↦ count_char_loop fuel (drop (suc i) s) c >>= λ n. ok (suc n)
        ]
            ≡ ok n)
    round none f rest = (0, refl)
    round (some i) (f, e, l) rest =
        let (n, run) = rest (drop (suc i) s) (omega (arith, length-drop (suc i) s)) in
        (suc n, rw (run))

length-range : (s : Bytes) (start end : ℕ) → length (range s start end) ≤ length s
length-range s start end =
    omega (arith, length-take (end - start) (drop start s), length-drop start s)

pub count_char_ok :
    (s : Bytes) (c start end : ℕ) → (n : ℕ) × (count_char (text s) c start end ≡ ok n)
unfolding count_char
count_char_ok s c start end =
    count_char_loop_ok (length s + 1) (range s start end) c
      (omega (arith, length-range s start end))

count_str_loop_ok :
    (fuel : ℕ) (s t : Bytes)
    → length s < fuel
    → 0 < length t
    → (n : ℕ) × (count_str_loop fuel s t ≡ ok n)
unfolding count_str_loop
count_str_loop_ok zero s t h p = absurd (omega arith)
count_str_loop_ok (suc fuel) s t h p =
    round (memmem s t) refl (λ u l. count_str_loop_ok fuel u t l p)
  where
    round :
        (r : Option ℕ)
        → memmem s t ≡ r
        → ((u : Bytes) → length u < fuel → (n : ℕ) × (count_str_loop fuel u t ≡ ok n))
        → (n : ℕ) × (elim r as (λ o. Result ℕ) [
          | none ↦ ok 0
          | some i ↦ count_str_loop fuel (drop (i + length t) s) t >>= λ n. ok (suc n)
        ]
            ≡ ok n)
    round none e rest = (0, refl)
    round (some i) e rest =
        let room = memmem_room s t i e in
        let (n, run) = rest (drop (i + length t) s) (omega (arith, length-drop (i + length t) s)) in
        (suc n, rw (run))

pub count_str_ok :
    (s t : Bytes) (start end : ℕ) → 0 < length t → (n : ℕ) × (count_str (text s) t start end ≡ ok n)
unfolding count_str
count_str_ok s t start end p =
    count_str_loop_ok (length s + 1) (range s start end) t (omega (arith, length-range s start end))
      p

-- a byte that is found from a place on stands at that place or behind it
pub find_from_room :
    (s : Bytes) (c start e : ℕ) → find_from (text s) c start ≡ some e → (start ≤ e) × (e < length s)
unfolding find_from
find_from_room s c start e h = at (strnfind (drop start s) c) (strnfind_lem (drop start s) c) h
  where
    at :
        (r : Option ℕ)
        → Found c (drop start s) r
        → elim r as (λ o. Option ℕ) [ none ↦ none | some i ↦ some (start + i) ] ≡ some e
        → (start ≤ e) × (e < length s)
    at none f k = cc
    at (some i) (f, g, l) k = (ground arith, ground (arith, length-drop start s))
