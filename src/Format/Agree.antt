-- ===== src/Format/Agree.antt =====
-- Conversions in the two passes: `vslprintf` writes what `vslprintf_len` counts, and both take the same
-- arguments.
use mathlib.Core.Path.{subst}
use ctornado.Base.{
  Bool, Bytes, List, Option, Result, [], arith, err, false, if◌then◌else◌, length, length-take,
  le→leb, min, none, ok, pos, refl, some, take, true, ℕ, ◌%◌, ◌<◌, ◌==◌, ◌>>=◌, ◌∷◌, ◌≡◌, ◌≤◌,
}
use ctornado.Str.{bytes, len}
use ctornado.Format.Number.{
  Arg, Spec, char_ptr, character, double, pointer, signed_int, size, str_ptr, unsigned_int,
}
use ctornado.Format.Spec.{
  is_number, take_character, take_chars, take_double, take_number, take_pointer, take_str,
}
use ctornado.Format.Convert.{
  chars_len, convert, convert_len, double_len, number_len, pointer_spec, print_chars, print_double,
  print_number,
}
use ctornado.Format.Length.{Alike, double_agree, number_agree}

-- The areas that `%*s` reads are long enough: behind a length stands a pointer to as many bytes. `k` is
-- the length that was given last.
abbrev pub Ready : ℕ → List Arg → Type 0
Ready k [] = Unit
Ready k (size n ∷ args) = Ready n args
Ready k (char_ptr p ∷ args) = (k ≤ length p) × Ready 0 args
Ready k (_ ∷ args) = Ready 0 args

pub Ready-zero : (k : ℕ) (args : List Arg) → Ready k args → Ready 0 args
Ready-zero k [] r = tt
Ready-zero k (size n ∷ args) r = r
Ready-zero k (char_ptr p ∷ args) (h, r) = (omega arith, r)
Ready-zero k (signed_int i ∷ args) r = r
Ready-zero k (unsigned_int i ∷ args) r = r
Ready-zero k (str_ptr i ∷ args) r = r
Ready-zero k (double i ∷ args) r = r
Ready-zero k (pointer i ∷ args) r = r
Ready-zero k (character i ∷ args) r = r

-- the length that a directive has read by `*`, 0 if it has read none
abbrev pub pending : Option ℕ → ℕ
pending none = 0
pending (some n) = n

-- A conversion of the two passes: if the second counts, the first writes what was counted or fills the
-- room, and both leave the same arguments.
abbrev pub Conv : ℕ → Result (Bytes × List Arg) → Result (ℕ × List Arg) → Type 0
Conv room r (err e) = Unit
Conv room (err e) (ok c) = ⊥
Conv room (ok (out, args)) (ok (n, args')) =
    (length out ≡ min room n) × (args ≡ args') × Ready 0 args

Conv-if :
    (room : ℕ) (b : Bool) (x y : Result (Bytes × List Arg)) (x' y' : Result (ℕ × List Arg))
    → Conv room x x'
    → Conv room y y'
    → Conv room (if b then x else y) (if b then x' else y')
Conv-if room true x y x' y' h k = h
Conv-if room false x y x' y' h k = k

chars_agree :
    (room : ℕ) (slen : Option ℕ) (p : Bytes)
    → pending slen ≤ length p
    → (out : Bytes) × (print_chars room slen p ≡ ok out)
      × (length out ≡ min room (chars_len slen p))
unfolding print_chars chars_len
chars_agree room none p h = (take room p, refl, length-take room p)
chars_agree room (some n) p h = (
  take (min room n) p,
  rw (le→leb (min room n) (length p) (omega arith)),
  omega (arith, length-take (min room n) p),
)

-- an argument taken, with the other arguments ready
abbrev Took {ℓ} : {X : Type ℓ} → Result (X × List Arg) → Type 0
Took (ok (x, args)) = Ready 0 args
Took (err e) = Unit

Conv-take {ℓ} :
    {X : Type ℓ} (room : ℕ) (t : Result (X × List Arg)) (f : X → Bytes) (g : X → ℕ)
    → Took t
    → ((x : X) → length (f x) ≡ min room (g x))
    → Conv room (t >>= λ (x, more). ok (f x, more)) (t >>= λ (x, more). ok (g x, more))
Conv-take room (ok (x, more)) f g r h = (h x, refl, r)
Conv-take room (err e) f g r h = tt

Took-number : (b : Bool) (args : List Arg) → Ready 0 args → Took (take_number b args)
unfolding take_number
Took-number true [] r = tt
Took-number true (signed_int i ∷ args) r = r
Took-number true (unsigned_int i ∷ args) r = tt
Took-number true (size i ∷ args) r = tt
Took-number true (str_ptr i ∷ args) r = tt
Took-number true (char_ptr i ∷ args) r = tt
Took-number true (double i ∷ args) r = tt
Took-number true (pointer i ∷ args) r = tt
Took-number true (character i ∷ args) r = tt
Took-number false [] r = tt
Took-number false (signed_int i ∷ args) r = tt
Took-number false (unsigned_int i ∷ args) r = r
Took-number false (size n ∷ args) r = Ready-zero n args r
Took-number false (str_ptr i ∷ args) r = tt
Took-number false (char_ptr i ∷ args) r = tt
Took-number false (double i ∷ args) r = tt
Took-number false (pointer i ∷ args) r = tt
Took-number false (character i ∷ args) r = tt

Took-str : (args : List Arg) → Ready 0 args → Took (take_str args)
unfolding take_str
Took-str (str_ptr s ∷ args) r = r
Took-str _ r = tt

Took-double : (args : List Arg) → Ready 0 args → Took (take_double args)
unfolding take_double
Took-double (double s ∷ args) r = r
Took-double _ r = tt

Took-pointer : (args : List Arg) → Ready 0 args → Took (take_pointer args)
unfolding take_pointer
Took-pointer (pointer s ∷ args) r = r
Took-pointer _ r = tt

Took-character : (args : List Arg) → Ready 0 args → Took (take_character args)
unfolding take_character
Took-character (character s ∷ args) r = r
Took-character _ r = tt

chars-Conv :
    (room : ℕ) (slen : Option ℕ) (args : List Arg)
    → Ready (pending slen) args
    → Conv room
        (take_chars args >>= λ (p, more). print_chars room slen p >>= λ out. ok (out, more))
        (take_chars args >>= λ (p, more). ok (chars_len slen p, more))
unfolding take_chars
chars-Conv room slen (char_ptr p ∷ args) (h, r) =
    let (out, run, e) = chars_agree room slen p h in rw run (e, refl, r)
chars-Conv room slen _ r = tt

number-Conv :
    (room : ℕ) (b b' : Bool) (sp sp' : Spec) (args : List Arg)
    → b ≡ b'
    → 0 < room
    → Alike sp sp'
    → Ready 0 args
    → Conv room
        (take_number b args >>= λ (i, more). ok (print_number room sp i, more))
        (take_number b' args >>= λ (i, more). ok (number_len sp' i, more))
number-Conv room b b' sp sp' args e h a r =
    subst
      (λ k.
        Conv room (take_number b args >>= λ (i, more). ok (print_number room sp i, more))
          (take_number k args >>= λ (i, more). ok (number_len sp' i, more)))
      e
      (Conv-take room (take_number b args) (print_number room sp) (number_len sp')
        (Took-number b args r) (λ i. number_agree room sp sp' i h a))

slen-Conv :
    (room : ℕ) (s s' : Option ℕ) (args : List Arg)
    → s ≡ s'
    → Ready (pending s) args
    → Conv room
        (take_chars args >>= λ (p, more). print_chars room s p >>= λ out. ok (out, more))
        (take_chars args >>= λ (p, more). ok (chars_len s' p, more))
slen-Conv room s s' args e r =
    subst
      (λ k.
        Conv room (take_chars args >>= λ (p, more). print_chars room s p >>= λ out. ok (out, more))
          (take_chars args >>= λ (p, more). ok (chars_len k p, more)))
      e (chars-Conv room s args r)

pointer-Alike : {sp sp' : Spec} → Alike sp sp' → Alike (pointer_spec 2 sp) (pointer_spec 1 sp')
pointer-Alike a = record {
  width_same = refl;
  sign_same = a.sign_same;
  frac_same = a.frac_same;
  slen_same = a.slen_same;
  hex_same = refl;
}

-- the conversions that write one byte
byte-Conv :
    (room c : ℕ) (args : List Arg)
    → 0 < room
    → Ready 0 args
    → Conv room
        (if c == b'Z'
          then ok (0 ∷ [], args)
          else if c == b'N'
          then ok (b'\n' ∷ [], args)
          else ok (c ∷ [], args))
        (ok (1, args))
byte-Conv room c args h r =
    elim (c == b'Z')
      as (λ k.
        Conv room
          (if k
            then ok (0 ∷ [], args)
            else if c == b'N'
            then ok (b'\n' ∷ [], args)
            else ok (c ∷ [], args))
          (ok (1, args))) [
            | true ↦ (omega arith, refl, r)
            | false ↦
                elim (c == b'N')
                  as (λ k.
                    Conv room (if k then ok (b'\n' ∷ [], args) else ok (c ∷ [], args))
                      (ok (1, args))) [
                        | true ↦ (omega arith, refl, r)
                        | false ↦ (omega arith, refl, r)
                      ]
          ]

-- One conversion of the two passes agrees.
pub convert_agree :
    (room : ℕ) (sp sp' : Spec) (c : ℕ) (args : List Arg)
    → 0 < room
    → Alike sp sp'
    → Ready (pending sp.slen) args
    → Conv room (convert room sp c args) (convert_len sp' c args)
unfolding convert convert_len
convert_agree room sp sp' c args h a r =
    Conv-if room (c == b'S') _ _ _ _
      (Conv-take room (take_str args) (λ s. take room (bytes s)) len (Took-str args r0)
        (λ s. length-take room (bytes s)))
      (Conv-if room (c == b's') _ _ _ _ (slen-Conv room sp.slen sp'.slen args a.slen_same r) (
        Conv-if room (c == b'T') _ _ _ _ (number-Conv room true true sp sp' args refl h a r0) (
          Conv-if room (is_number c) _ _ _ _
            (number-Conv room sp.sign sp'.sign sp sp' args a.sign_same h a r0)
            (Conv-if room (c == b'f') _ _ _ _
              (Conv-take room (take_double args) (print_double room sp) (double_len sp')
                (Took-double args r0) (λ f. double_agree room sp sp' f h a))
              (Conv-if room (c == b'p') _ _ _ _
                (Conv-take room (take_pointer args)
                  (λ p. print_number room (pointer_spec 2 sp) (pos p))
                  (λ p. number_len (pointer_spec 1 sp') (pos p)) (Took-pointer args r0)
                  (λ p. number_agree room _ _ (pos p) h (pointer-Alike a)))
                (Conv-if room (c == b'c') _ _ _ _
                  (Conv-take room (take_character args) (λ d. (d % 256) ∷ []) (λ d. 1)
                    (Took-character args r0) (λ d. omega arith))
                  (byte-Conv room c args h r0)))))))
  where
    r0 : Ready 0 args
    r0 = Ready-zero (pending sp.slen) args r
