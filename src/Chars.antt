-- ===== src/Chars.antt =====
-- The character tests and conversions of <ctype.h> that the code calls, in the C locale.
use ctornado.Base.{Bool, Bytes, [], if◌then◌else◌, leb, true, ℕ, ◌&&◌, ◌+◌, ◌-◌, ◌==◌, ◌||◌, ◌∷◌}

abbrev pub between : ℕ → ℕ → ℕ → Bool
between a b c = leb a c && leb c b

unfoldable pub is_digit : ℕ → Bool
is_digit c = between b'0' b'9' c

unfoldable pub is_space : ℕ → Bool
is_space c = c == b' ' || between 9 13 c

unfoldable pub is_alpha : ℕ → Bool
is_alpha c = between b'a' b'z' c || between b'A' b'Z' c

unfoldable pub is_print : ℕ → Bool
is_print c = between 32 126 c

unfoldable pub to_lower : ℕ → ℕ
to_lower c = if between b'A' b'Z' c then c + 32 else c

unfoldable pub to_upper : ℕ → ℕ
to_upper c = if between b'a' b'z' c then c - 32 else c

-- `Str::all(isfunc)`
unfoldable pub all : (ℕ → Bool) → Bytes → Bool
all f [] = true
all f (c ∷ cs) = f c && all f cs
