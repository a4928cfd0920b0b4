-- ===== src/Examples/Texts.antt =====
-- Escaped texts and numbers at concrete inputs.
use ctornado.Base.{All, Bytes, [], arith, codes, ok, pos, refl, true, ◌≡◌}
use ctornado.Chars.{is_digit}
use ctornado.Cookie.Quote.{quote, unquote}
use ctornado.Cookie.Coded.{IsPlain, unquote-quote}
use ctornado.Str.{char_at, last_char, substr, text}
use ctornado.Str.Number.{escape, escape_all, of_int, toi}
use ctornado.Str.Exact.{IsShown, escape_lem}
use ctornado.Str.Digits.{toi-of_int}

escape_example :
    (escape (text (codes "a\n")) ≡ ok (text (escape_all (codes "a\n"))))
    × All IsShown (escape_all (codes "a\n"))
escape_example = escape_lem (codes "a\n")

toi-of_int_example :
    (s : Bytes) × (of_int (pos 307) 10 ≡ ok (text s))
    × All (λ c. is_digit c ≡ true) s
    × (toi (text s) ≡ pos 307)
toi-of_int_example = toi-of_int 307 (omega arith)

sample-IsPlain : All IsPlain (codes "a;\"")
sample-IsPlain = (
  record { byte = omega arith; no_backslash = omega arith },
  (
    record { byte = omega arith; no_backslash = omega arith },
    (record { byte = omega arith; no_backslash = omega arith }, tt),
  ),
)

unquote-quote_example :
    (coded : Bytes) × (quote (text (codes "a;\"")) ≡ ok (text coded))
    × (unquote (text coded) ≡ ok (text (codes "a;\"")))
unquote-quote_example = unquote-quote (codes "a;\"") sample-IsPlain

-- A backslash is lost.
backslash_lost : unquote (text (codes "\"\\\\\"")) ≡ ok (text [])
unfolding unquote char_at last_char substr
backslash_lost = refl
