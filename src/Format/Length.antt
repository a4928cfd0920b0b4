-- ===== src/Format/Length.antt =====
-- Numbers in the two passes: `_sprintf_num` writes what `_sprintf_num_len` counts, as far as there is
-- room.
use ctornado.Base.{
  Bool, Bytes, [], ap, arith, false, if◌then◌else◌, length, length-append, length-replicate,
  length-take, max, min, negsuc, pos, refl, replicate, suc, take, true, zero, ℕ, ℤ, ◌%◌, ◌++◌, ◌+◌,
  ◌-◌, ◌/◌, ◌<◌, ◌==◌, ◌^◌, ◌∙◌, ◌∷◌, ◌≡◌,
}
use ctornado.Str.{}
use ctornado.Format.Number.{
  Double, Spec, count_rounds, digit_char, digits, emit, rounds, sprintf_num, sprintf_num_len,
}
use ctornado.Format.Spec.{double_parts}
use ctornado.Format.Convert.{
  double_front, double_len, double_tail, number_len, print_double, print_number,
}

length-emit :
    (fuel base letter n : ℕ) (temp : Bytes)
    → length (emit fuel base letter n temp) ≡ count_rounds fuel base n + length temp
unfolding emit count_rounds
length-emit zero base letter n temp = omega arith
length-emit (suc fuel) base letter n temp =
    ground (arith, length-emit fuel base letter (n / base) (digit_char letter (n % base) ∷ temp))

-- The counting pass counts the digits, whatever the case of its hexadecimal digits.
len-digits :
    (n h h' w : ℕ) → (h == 0) ≡ (h' == 0) → sprintf_num_len n h' w ≡ max (length (digits n h)) w
unfolding sprintf_num_len digits
len-digits n h h' w e = ground (
  arith,
  length-emit rounds 10 b'a' (n % 2 ^ 32) [],
  length-emit rounds 10 b'a' n [],
  length-emit rounds 16 b'a' n [],
  length-emit rounds 16 b'A' n [],
)

length-sprintf_num :
    (room n z h w : ℕ) → length (sprintf_num room n z h w) ≡ min room (max (length (digits n h)) w)
unfolding sprintf_num
length-sprintf_num room n z h w = omega (
  arith,
  length-append (replicate (min (w - length (digits n h)) room) z)
      (take (room - length (replicate (min (w - length (digits n h)) room) z)) (digits n h)),
  length-replicate (min (w - length (digits n h)) room) z,
  length-take (room - length (replicate (min (w - length (digits n h)) room) z)) (digits n h),
)

num_agree :
    (room n z h h' w : ℕ)
    → (h == 0) ≡ (h' == 0)
    → length (sprintf_num room n z h w) ≡ min room (sprintf_num_len n h' w)
num_agree room n z h h' w e = omega (arith, length-sprintf_num room n z h w, len-digits n h h' w e)

-- The variables of the two passes: all are the same but the case of the hexadecimal digits.
pub record Alike (sp sp' : Spec) : Type 0 where
  pub width_same : sp.width ≡ sp'.width
  pub sign_same : sp.sign ≡ sp'.sign
  pub frac_same : sp.frac_width ≡ sp'.frac_width
  pub slen_same : sp.slen ≡ sp'.slen
  pub hex_same : (sp.hex == 0) ≡ (sp'.hex == 0)

pub number_agree :
    (room : ℕ) (sp sp' : Spec) (i : ℤ)
    → 0 < room
    → Alike sp sp'
    → length (print_number room sp i) ≡ min room (number_len sp' i)
unfolding print_number number_len
number_agree room sp sp' (pos n) h a =
    num_agree room n sp.zero_char sp.hex sp'.hex sp.width a.hex_same
    ∙ ap (λ k. min room (sprintf_num_len n sp'.hex k)) a.width_same
number_agree room sp sp' (negsuc n) h a =
    let e =
      num_agree (room - 1) (suc n) sp.zero_char sp.hex sp'.hex sp.width a.hex_same
      ∙ ap (λ k. min (room - 1) (sprintf_num_len (suc n) sp'.hex k)) a.width_same in
    omega (arith, e)

front_agree :
    (room : ℕ) (sp sp' : Spec) (b : Bool) (whole : ℕ)
    → 0 < room
    → Alike sp sp'
    → length (double_front room sp b whole)
      ≡ min room ((if b then 1 else 0) + sprintf_num_len whole 0 sp'.width)
unfolding double_front
front_agree room sp sp' true whole h a =
    let e =
      num_agree (room - 1) whole sp.zero_char 0 0 sp.width refl
      ∙ ap (λ k. min (room - 1) (sprintf_num_len whole 0 k)) a.width_same in
    omega (arith, e)
front_agree room sp sp' false whole h a =
    let e =
      num_agree room whole sp.zero_char 0 0 sp.width refl
      ∙ ap (λ k. min room (sprintf_num_len whole 0 k)) a.width_same in
    omega (arith, e)

tail_agree :
    (room frac w : ℕ) → length (double_tail room frac w) ≡ min room (sprintf_num_len frac 0 w + 1)
unfolding double_tail
tail_agree zero frac w = omega (arith, num_agree 0 frac b'0' 0 0 w refl)
tail_agree (suc room) frac w = ground (arith, num_agree (suc room - 1) frac b'0' 0 0 w refl)

joined_agree :
    (b : Bool) (front tail : Bytes) (room m n : ℕ)
    → length front ≡ min room m
    → length tail ≡ min (room - length front) n
    → length (if b then front else front ++ tail) ≡ min room (if b then m else m + n)
joined_agree true front tail room m n h k = h
joined_agree false front tail room m n h k = omega (arith, length-append front tail)

pub double_agree :
    (room : ℕ) (sp sp' : Spec) (f : Double)
    → 0 < room
    → Alike sp sp'
    → length (print_double room sp f) ≡ min room (double_len sp' f)
unfolding print_double double_len
double_agree room sp sp' f h a =
    joined_agree (sp.frac_width == 0) _ _ room _ _
      (front_agree room sp sp' f.negative (double_parts sp.frac_width f).0 h a)
      (tail_agree (room - length (double_front room sp f.negative (double_parts sp.frac_width f).0))
        (double_parts sp.frac_width f).1 sp.frac_width)
    ∙ ap (λ k. min room (counted k)) a.frac_same
  where
    counted : ℕ → ℕ
    counted k =
        let (whole, frac) = double_parts k f in
        let front = (if f.negative then 1 else 0) + sprintf_num_len whole 0 sp'.width in
        if k == 0 then front else front + (sprintf_num_len frac 0 k + 1)
