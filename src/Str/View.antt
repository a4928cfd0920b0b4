-- ===== src/Str/View.antt =====
-- What a view made by `substr` holds.
use ctornado.Base.{
  Bytes, [], ap, arith, drop, length, length-drop, le→leb, none, ok, refl, some, sym, take,
  take_all, true, ℕ, ◌-◌, ◌<◌, ◌↔◌, ◌∙◌, ◌∷◌, ◌≡◌, ◌≤◌,
}
use ctornado.Str.{Str, bytes, eq_bytes, len, null, substr, text}

take_rest : (n : ℕ) (bs : Bytes) → take (length bs - n) (drop n bs) ≡ drop n bs
take_rest n bs = take_all _ _ (omega (arith, length-drop n bs))

pub substr_text :
    (bs : Bytes) (s e : ℕ)
    → s ≤ e
    → e ≤ length bs
    → substr (text bs) s (some e) ≡ ok (text (take (e - s) (drop s bs)))
unfolding substr
substr_text bs s e h k = rw (le→leb s e h, le→leb e (length bs) k)

pub substr_rest :
    (bs : Bytes) (s : ℕ) → s ≤ length bs → substr (text bs) s none ≡ ok (text (drop s bs))
unfolding substr
substr_rest bs s h =
    rw (le→leb s (length bs) h, le→leb (length bs) (length bs) (omega arith), take_rest s bs)

-- a view from inside a string to its end
pub substr_suffix : (c : Str) (n : ℕ) → n < len c → substr c n none ≡ ok (text (drop n (bytes c)))
substr_suffix null n h = elim h [ ]
substr_suffix (text bs) n h = substr_rest bs n (omega arith)

pub substr_prefix :
    (c : Str) (n : ℕ) → n < len c → substr c 0 (some n) ≡ ok (text (take n (bytes c)))
substr_prefix null n h = elim h [ ]
substr_prefix (text bs) n h =
    substr_text bs 0 n (omega arith) (omega arith) ∙ ap (λ k. ok (text (take k bs))) (omega arith)

pub eq_bytes_self : (a : Bytes) → eq_bytes a a ≡ true
unfolding eq_bytes
eq_bytes_self [] = refl
eq_bytes_self (x ∷ xs) = ground (arith, eq_bytes_self xs)

pub eq_bytes_sound : (a b : Bytes) → eq_bytes a b ≡ true → a ≡ b
unfolding eq_bytes
eq_bytes_sound [] [] h = refl
eq_bytes_sound [] (y ∷ ys) h = cc
eq_bytes_sound (x ∷ xs) [] h = cc
eq_bytes_sound (x ∷ xs) (y ∷ ys) h = ground (arith, eq_bytes_sound xs ys)

pub eq_bytes_iff : (a b : Bytes) → (eq_bytes a b ≡ true) ↔ (a ≡ b)
eq_bytes_iff a b = (eq_bytes_sound a b, λ e. ap (eq_bytes a) (sym e) ∙ eq_bytes_self a)
