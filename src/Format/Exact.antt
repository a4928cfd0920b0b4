-- ===== src/Format/Exact.antt =====
-- The two passes agree: `vslprintf` writes as many bytes as `vslprintf_len` counts, as far as there is
-- room, and nothing behind the end; `sprintf` fills what it allocates.
use mathlib.Core.Path.{subst}
use ctornado.Base.{
  Bool, Bytes, List, Result, [], ap, append-nil, arith, err, false, if◌then◌else◌, length,
  length-append, min, ok, refl, some, suc, true, zero, ℕ, ◌++◌, ◌+◌, ◌-◌, ◌<◌, ◌==◌, ◌>>=◌, ◌∙◌,
  ◌∷◌, ◌≡◌,
}
use ctornado.Str.{text}
use ctornado.Format.Number.{Arg, Spec, size}
use ctornado.Format.Spec.{read_digits, read_flags, read_spec, start_spec, take_size, zero_flag}
use ctornado.Format.Convert.{}
use ctornado.Format.Length.{Alike}
use ctornado.Format.Agree.{Conv, Ready, convert_agree, pending}
use ctornado.Format.Passes.{
  count_loop, directive, directive_len, print_loop, sprintf, vslprintf, vslprintf_len,
}

-- The flags of a directive in the two passes.
abbrev Flags : Result (Spec × Bytes × List Arg) → Result (Spec × Bytes × List Arg) → Type 0
Flags r (err e) = Unit
Flags (err e) (ok s) = ⊥
Flags (ok (sp, fmt, args)) (ok (sp', fmt', args')) =
    Alike sp sp' × (fmt ≡ fmt') × (args ≡ args') × Ready (pending sp.slen) args

Flags-if :
    (b : Bool) (x y x' y' : Result (Spec × Bytes × List Arg))
    → Flags x x'
    → Flags y y'
    → Flags (if b then x else y) (if b then x' else y')
Flags-if true x y x' y' h k = h
Flags-if false x y x' y' h k = k

dot_agree :
    (fmt : Bytes) (sp sp' : Spec) (args : List Arg)
    → Alike sp sp'
    → Ready (pending sp.slen) args
    → Flags
        (let (k, fmt') = read_digits fmt sp.frac_width in
          ok (record sp { frac_width = k }, fmt', args))
        (let (k, fmt') = read_digits fmt sp'.frac_width in
          ok (record sp' { frac_width = k }, fmt', args))
dot_agree fmt sp sp' args a r = (
  record {
    width_same = a.width_same;
    sign_same = a.sign_same;
    frac_same = ap (λ k. (read_digits fmt k).0) a.frac_same;
    slen_same = a.slen_same;
    hex_same = a.hex_same;
  },
  ap (λ k. (read_digits fmt k).1) a.frac_same,
  refl,
  r,
)

star_agree :
    (k : ℕ) (args : List Arg) (f f' : ℕ × List Arg → Result (Spec × Bytes × List Arg))
    → Ready k args
    → ((n : ℕ) (more : List Arg) → Ready n more → Flags (f (n, more)) (f' (n, more)))
    → Flags (take_size args >>= f) (take_size args >>= f')
unfolding take_size
star_agree k (size n ∷ args) f f' r h = h n args r
star_agree k _ f f' r h = tt

Flags-agree :
    (fmt : Bytes) (sp sp' : Spec) (args : List Arg)
    → Alike sp sp'
    → Ready (pending sp.slen) args
    → Flags (read_flags 2 fmt sp args) (read_flags 1 fmt sp' args)
unfolding read_flags
Flags-agree [] sp sp' args a r = (a, refl, refl, r)
Flags-agree (c ∷ fmt) sp sp' args a r =
    Flags-if (c == b'u') _ _ _ _ (Flags-agree fmt _ _ args (unsigned a) r) (
      Flags-if (c == b'X') _ _ _ _ (Flags-agree fmt _ _ args (hexes a 2 1 refl) r) (
        Flags-if (c == b'x') _ _ _ _ (Flags-agree fmt _ _ args (hexes a 1 1 refl) r) (
          Flags-if (c == b'.') _ _ _ _ (dot_agree fmt sp sp' args a r) (
            Flags-if (c == b'*') _ _ _ _
              (star_agree (pending sp.slen) args _ _ r
                (λ n more q. Flags-agree fmt _ _ more (starred a n) q))
              (a, refl, refl, r)))))
  where
    unsigned :
        {s s' : Spec} → Alike s s' → Alike (record s { sign = false }) (record s' { sign = false })
    unsigned b = record {
      width_same = b.width_same;
      sign_same = refl;
      frac_same = b.frac_same;
      slen_same = b.slen_same;
      hex_same = b.hex_same;
    }

    hexes :
        {s s' : Spec}
        → Alike s s'
        → (h h' : ℕ) → (h == 0) ≡ (h' == 0)
        → Alike (record s { hex = h; sign = false }) (record s' { hex = h'; sign = false })
    hexes b h h' e = record {
      width_same = b.width_same;
      sign_same = refl;
      frac_same = b.frac_same;
      slen_same = b.slen_same;
      hex_same = e;
    }

    starred :
        {s s' : Spec}
        → Alike s s'
        → (n : ℕ) → Alike (record s { slen = some n }) (record s' { slen = some n })
    starred b n = record {
      width_same = b.width_same;
      sign_same = b.sign_same;
      frac_same = b.frac_same;
      slen_same = refl;
      hex_same = b.hex_same;
    }

spec_agree :
    (fmt : Bytes) (args : List Arg)
    → Ready 0 args
    → Flags (read_spec 2 fmt args) (read_spec 1 fmt args)
unfolding read_spec
spec_agree fmt args r =
    Flags-agree (read_digits fmt 0).1 (start_spec (zero_flag fmt) (read_digits fmt 0).0)
      (start_spec (zero_flag fmt) (read_digits fmt 0).0) args same r
  where
    same : {s : Spec} → Alike s s
    same = record {
      width_same = refl;
      sign_same = refl;
      frac_same = refl;
      slen_same = refl;
      hex_same = refl;
    }

-- What the printing pass has written, where the counting pass has counted: all, or as much as fits.
abbrev Written : ℕ → Result Bytes → Result ℕ → Type 0
Written room r (err e) = Unit
Written room (err e) (ok n) = ⊥
Written room (ok out) (ok n) = length out ≡ min room n

Written-more :
    (room : ℕ) (out : Bytes) (n : ℕ) (r : Result Bytes) (r' : Result ℕ)
    → length out ≡ min room n
    → Written (room - length out) r r'
    → Written room (r >>= λ rest. ok (out ++ rest)) (r' >>= λ rest. ok (n + rest))
Written-more room out n r (err e) h w = tt
Written-more room out n (err e) (ok m) h w = elim w [ ]
Written-more room out n (ok rest) (ok m) h w = omega (arith, length-append out rest)

Written-full : (r : Result ℕ) → Written 0 (ok []) r
Written-full (err e) = tt
Written-full (ok n) = omega arith

Conv-next :
    (room : ℕ) (x : Result (Bytes × List Arg)) (y : Result (ℕ × List Arg))
    (f : Bytes × List Arg → Result Bytes) (g : ℕ × List Arg → Result ℕ)
    → Conv room x y
    → ((out : Bytes) (n : ℕ) (args : List Arg)
        → length out ≡ min room n
        → Ready 0 args
        → Written room (f (out, args)) (g (n, args)))
    → Written room (x >>= f) (y >>= g)
Conv-next room x (err e) f g c h = tt
Conv-next room (err e) (ok y) f g c h = elim c [ ]
Conv-next room (ok (out, args)) (ok (n, args')) f g (e, s, r) h =
    subst (λ k. Written room (f (out, args)) (g (n, k))) s (h out n args e r)

spec_next :
    (room : ℕ) (x y : Result (Spec × Bytes × List Arg)) (f : Spec × Bytes × List Arg → Result Bytes)
    (g : Spec × Bytes × List Arg → Result ℕ)
    → Flags x y
    → ((sp sp' : Spec) (fmt : Bytes) (args : List Arg)
        → Alike sp sp'
        → Ready (pending sp.slen) args
        → Written room (f (sp, fmt, args)) (g (sp', fmt, args)))
    → Written room (x >>= f) (y >>= g)
spec_next room x (err e) f g c h = tt
spec_next room (err e) (ok y) f g c h = elim c [ ]
spec_next room (ok (sp, fmt, args)) (ok (sp', fmt', args')) f g (a, e, s, r) h =
    subst (λ k. Written room (f (sp, fmt, args)) (g (sp', k, args'))) e
      (subst (λ k. Written room (f (sp, fmt, args)) (g (sp', fmt, k))) s (h sp sp' fmt args a r))

Written-if :
    (room : ℕ) (b : Bool) (x y : Result Bytes) (x' y' : Result ℕ)
    → Written room x x'
    → Written room y y'
    → Written room (if b then x else y) (if b then x' else y')
Written-if room true x y x' y' h k = h
Written-if room false x y x' y' h k = k

-- the rest of the format, behind one directive or byte
abbrev Rest :
    ℕ → (Bytes × List Arg → Bytes → Result Bytes) → (ℕ × List Arg → Bytes → Result ℕ) → Type 0
Rest room f g =
    (fmt out : Bytes) (n : ℕ) (args : List Arg)
    → length out ≡ min room n
    → Ready 0 args
    → Written room (f (out, args) fmt) (g (n, args) fmt)

directive_agree :
    (room : ℕ) (f : Bytes × List Arg → Bytes → Result Bytes) (g : ℕ × List Arg → Bytes → Result ℕ)
    (sp sp' : Spec) (fmt : Bytes) (args : List Arg)
    → 0 < room
    → Alike sp sp'
    → Ready (pending sp.slen) args
    → Rest room f g
    → Written room (directive room f (sp, fmt, args)) (directive_len g (sp', fmt, args))
unfolding directive directive_len
directive_agree room f g sp sp' [] args h a r rest = tt
directive_agree room f g sp sp' (c ∷ fmt) args h a r rest =
    Conv-next room _ _ _ _ (convert_agree room sp sp' c args h a r)
      (λ out n more e q. rest fmt out n more e q)

not_zero : (n : ℕ) → (suc n == 0) ≡ false
not_zero n = ground arith

loop_agree :
    (fuel : ℕ) (fmt : Bytes) (room : ℕ) (args : List Arg)
    → Ready 0 args
    → Written room (print_loop fuel fmt room args) (count_loop fuel fmt args)
unfolding print_loop count_loop
loop_agree zero fmt room args r = tt
loop_agree (suc fuel) [] room args r = omega arith
loop_agree (suc fuel) (c ∷ fmt) zero args r = Written-full _
loop_agree (suc fuel) (c ∷ fmt) (suc room) args r = rw (not_zero room) (
    Written-if (suc room) (c == b'%') _ _ _ _
      (spec_next (suc room) _ _ _ _ (spec_agree fmt args r) (λ sp sp' fmt' more a q.
        directive_agree (suc room) _ _ sp sp' fmt' more (omega arith) a q (λ fmt'' out n more' e q'.
          Written-more (suc room) out n _ _ e
            (loop_agree fuel fmt'' (suc room - length out) more' q'))))
      (Written-more (suc room) (c ∷ []) 1 _ _ (omega arith)
        (loop_agree fuel fmt (suc room - 1) args r)))

-- Where the counting pass counts `n`, the printing pass returns; it writes `n` bytes, or fills the room
-- if that is less, and so it never writes behind the end.
-- The lengths that the format takes by `*` must be lengths of areas that are there.
length-vslprintf :
    (room n : ℕ) (fmt : Bytes) (args : List Arg)
    → Ready 0 args
    → vslprintf_len fmt args ≡ ok n
    → (out : Bytes) × (vslprintf room fmt args ≡ ok out) × (length out ≡ min room n)
unfolding vslprintf vslprintf_len
length-vslprintf room n fmt args r h =
    written room n _ _ (loop_agree (length fmt + 1) fmt room args r) h
  where
    written :
        (room n : ℕ) (x : Result Bytes) (y : Result ℕ)
        → Written room x y
        → y ≡ ok n
        → (out : Bytes) × (x ≡ ok out) × (length out ≡ min room n)
    written room n x (err e) w h = cc
    written room n (err e) (ok m) w h = elim w [ ]
    written room n (ok out) (ok m) w h = (out, refl, w ∙ ap (λ k. min room (value k)) h)
      where
        value : Result ℕ → ℕ
        value (ok k) = k
        value (err e) = 0

filled :
    (garbage n : ℕ) (fmt : Bytes) (args : List Arg) (out : Bytes)
    → vslprintf_len fmt args ≡ ok n
    → vslprintf n fmt args ≡ ok out
    → n - length out ≡ 0
    → sprintf garbage fmt args ≡ ok (text out)
unfolding sprintf
filled garbage n fmt args out h run e = rw (h, run, e) (ap (λ k. ok (text k)) (append-nil out))

-- `Str::sprintf` fills its buffer exactly: the printing pass writes as many bytes as were allocated,
-- and the string is those bytes, with nothing in it that was not written.
pub sprintf_exact :
    (garbage n : ℕ) (fmt : Bytes) (args : List Arg)
    → Ready 0 args
    → vslprintf_len fmt args ≡ ok n
    → (out : Bytes) × (vslprintf n fmt args ≡ ok out)
      × (length out ≡ n)
      × (sprintf garbage fmt args ≡ ok (text out))
sprintf_exact garbage n fmt args r h =
    let (out, run, e) = length-vslprintf n n fmt args r h in
    let exact : length out ≡ n = omega (arith, e) in
    (out, run, exact, filled garbage n fmt args out h run (omega (arith, e)))
