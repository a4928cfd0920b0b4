-- ===== src/Cookie/Coded.antt =====
-- `_unquote` undoes `_quote` on values without a backslash.
use ctornado.Cookie.Quote.{
  is_legal_char, is_octal, is_translated, quote, quote_all, quote_char, quote_extra, quote_mark,
  unquote, unquote_loop,
}
use ctornado.Base.{
  ==_iff, All, Bool, Bool-cases, Bytes, [], ap, arith, false, if◌then◌else◌, inl, inr, length,
  length-append, ltb, not, ok, refl, some, suc, sym, true, ℕ, ◌%◌, ◌&&◌, ◌*◌, ◌++◌, ◌+◌, ◌-◌, ◌/◌,
  ◌<◌, ◌==◌, ◌>>=◌, ◌||◌, ◌∙◌, ◌∷◌, ◌≡◌, ◌≢◌,
}
use ctornado.Chars.{all}
use ctornado.Str.{bytes, char_at, last_char, substr, text}
use ctornado.Str.View.{}
use ctornado.Str.Cuts.{last_char_ok, middle_at}
use ctornado.Str.Exact.{sized_exact}
use ctornado.Str.Transform.{}

-- a byte that is no backslash
pub record IsPlain (c : ℕ) : Type 0 where
  pub byte : c < 256
  pub no_backslash : c ≢ b'\\'

unquote_plain : (c : ℕ) (s : Bytes) → c ≢ b'\\' → unquote_loop (c ∷ s) ≡ c ∷ unquote_loop s
unfolding unquote_loop
unquote_plain c [] n = ground arith
unquote_plain c (c1 ∷ []) n = ground arith
unquote_plain c (c1 ∷ c2 ∷ []) n = ground arith
unquote_plain c (c1 ∷ c2 ∷ c3 ∷ s) n = ground arith

unquote_mark : (s : Bytes) → unquote_loop (b'\\' ∷ quote_mark ∷ s) ≡ quote_mark ∷ unquote_loop s
unfolding unquote_loop is_octal
unquote_mark [] = refl
unquote_mark (c2 ∷ []) = unquote_plain quote_mark (c2 ∷ []) (omega arith)
unquote_mark (c2 ∷ c3 ∷ s) = unquote_plain quote_mark (c2 ∷ c3 ∷ s) (omega arith)

octal_lem :
    (c : ℕ)
    → c < 256
    → (is_octal (b'0' + c / 64 % 8) (b'0' + c / 8 % 8) (b'0' + c % 8) ≡ true)
      × ((b'0' + c / 64 % 8 - b'0') * 64 + (b'0' + c / 8 % 8 - b'0') * 8 + (b'0' + c % 8 - b'0')
          ≡ c)
unfolding is_octal
octal_lem c h = (ground arith, omega arith)

unquote_char :
    (c : ℕ) (s : Bytes) → IsPlain c → unquote_loop (quote_char c ++ s) ≡ c ∷ unquote_loop s
unfolding quote_char
unquote_char c s p = elim (Bool-cases (c == quote_mark || c == b'\\')) [
  | inl marked ↦ rw (marked) (
      ap (λ k. unquote_loop (b'\\' ∷ k ∷ s)) (mark marked p.no_backslash)
      ∙ unquote_mark s
      ∙ ap (λ k. k ∷ unquote_loop s) (sym (mark marked p.no_backslash)))
  | inr other ↦ elim (Bool-cases (is_translated c)) [
    | inr plain ↦ rw (other, plain) (unquote_plain c s p.no_backslash)
    | inl coded ↦
        let (octal, same) = octal_lem c p.byte in
        rw (other, coded) (unfold unquote_loop in rw (octal, same))
  ]
]
  where
    mark : (c == quote_mark || c == b'\\') ≡ true → c ≢ b'\\' → c ≡ quote_mark
    mark h n = ground arith

unquote-quote_all : (s : Bytes) → All IsPlain s → unquote_loop (quote_all s) ≡ s
unfolding quote_all
unquote-quote_all [] h = unfold unquote_loop in refl
unquote-quote_all (c ∷ s) (p, h) =
    unquote_char c (quote_all s) p ∙ ap (λ k. c ∷ k) (unquote-quote_all s h)

length-quote_all : (s : Bytes) → length (quote_all s) ≡ length s + quote_extra s
unfolding quote_all quote_char quote_extra
length-quote_all [] = refl
length-quote_all (c ∷ s) =
    length-append (quote_char c) (quote_all s)
    ∙ at (c == quote_mark || c == b'\\') (is_translated c) (length-quote_all s)
  where
    at :
        (a b : Bool)
        → length (quote_all s) ≡ length s + quote_extra s
        → length (
              if a
              then b'\\' ∷ c ∷ []
              else if b
              then b'\\' ∷ (b'0' + c / 64 % 8) ∷ (b'0' + c / 8 % 8) ∷ (b'0' + c % 8) ∷ []
              else c ∷ [])
            + length (quote_all s)
          ≡ suc (length s)
            + (if a then quote_extra s + 1 else if b then quote_extra s + 3 else quote_extra s)
    at true b h = omega (arith, h)
    at false true h = omega (arith, h)
    at false false h = omega (arith, h)

mark_illegal : is_legal_char quote_mark ≡ false
unfolding is_legal_char
mark_illegal = refl

-- a value that needs no marks
unquote_legal : (s : Bytes) → all is_legal_char s ≡ true → unquote (text s) ≡ ok (text s)
unfolding unquote all char_at
unquote_legal [] h = refl
unquote_legal (x ∷ []) h = refl
unquote_legal (x ∷ y ∷ s) h =
    let (c, last) = last_char_ok (x ∷ y ∷ s) (omega arith) in
    rw (enough (length s), last) (outside (x == quote_mark) (last_mark c) (legal x _ h))
  where
    enough : (k : ℕ) → ltb (suc (suc k)) 2 ≡ false
    enough k = ground arith

    last_mark : ℕ → Bool
    last_mark c = not (c == quote_mark)

    legal : (x : ℕ) (b : Bool) → (is_legal_char x && b) ≡ true → (x == quote_mark) ≡ false
    legal x b h = elim (Bool-cases (x == quote_mark)) [
      | inr other ↦ other
      | inl same ↦ cc (mark_illegal, (==_iff x quote_mark).0 same)
    ]

    outside :
        (a b : Bool)
        → a ≡ false
        → (if not a || b
            then ok (text (x ∷ y ∷ s))
            else (substr (text (x ∷ y ∷ s)) 1 (some (suc (suc (length s)) - 1)) >>= λ sub.
                ok (text (unquote_loop (bytes sub)))))
          ≡ ok (text (x ∷ y ∷ s))
    outside a b e = rw (e)

at_end : (s : Bytes) (y : ℕ) → char_at (text (s ++ y ∷ [])) (length s) ≡ ok y
unfolding char_at
at_end [] y = refl
at_end (x ∷ s) y = at_end s y

last_of : (s : Bytes) (y : ℕ) → last_char (text (s ++ y ∷ [])) ≡ ok y
unfolding last_char
last_of s y = rw (not_empty (length (s ++ y ∷ [])) (omega (arith, length-append s (y ∷ [])))) (
    ap (λ n. char_at (text (s ++ y ∷ [])) n) (omega (arith, length-append s (y ∷ []))) ∙ at_end s y)
  where
    not_empty : (n : ℕ) → 0 < n → (n == 0) ≡ false
    not_empty n h = ground arith

unquote_marked :
    (q : Bytes) → unquote (text (quote_mark ∷ (q ++ quote_mark ∷ []))) ≡ ok (text (unquote_loop q))
unfolding unquote char_at
unquote_marked q =
    let long : length (q ++ quote_mark ∷ []) ≡ length q + 1 = length-append q (quote_mark ∷ []) in
    let cut : substr (text (quote_mark ∷ (q ++ quote_mark ∷ []))) 1
          (some (suc (length (q ++ quote_mark ∷ [])) - 1))
        ≡ ok (text q) =
      middle_at (quote_mark ∷ []) q (quote_mark ∷ []) refl refl (omega (arith, long)) in
    rw (
      enough (length (q ++ quote_mark ∷ [])) (omega (arith, long)),
      last_of (quote_mark ∷ q) quote_mark,
      cut,
    )
  where
    enough : (n : ℕ) → 0 < n → ltb (suc n) 2 ≡ false
    enough n h = ground arith

-- `_unquote` undoes `_quote` on every value of bytes without a backslash: `_quote` returns, its buffer
-- filled exactly, and `_unquote` makes the value again.
pub unquote-quote :
    (s : Bytes)
    → All IsPlain s
    → (coded : Bytes) × (quote (text s) ≡ ok (text coded)) × (unquote (text coded) ≡ ok (text s))
unfolding quote
unquote-quote s h = elim (Bool-cases (all is_legal_char s)) [
  | inl legal ↦ (s, rw (legal), unquote_legal s legal)
  | inr marks ↦ (
    quote_mark ∷ (quote_all s ++ quote_mark ∷ []),
    rw (marks) (
        sized_exact (length s + quote_extra s + 2) (quote_mark ∷ (quote_all s ++ quote_mark ∷ []))
          (omega (arith, length-append (quote_all s) (quote_mark ∷ []), length-quote_all s))),
    unquote_marked (quote_all s) ∙ ap (λ k. ok (text k)) (unquote-quote_all s h),
  )
]
