-- ===== src/Format/Passes.antt =====
-- The loops of `vslprintf` and `vslprintf_len`, and `Str::sprintf`.
use ctornado.Base.{
  Bytes, List, Result, [], err, fault, if◌then◌else◌, length, no_fuel, ok, replicate, suc, zero, ℕ,
  ◌++◌, ◌+◌, ◌-◌, ◌==◌, ◌>>=◌, ◌∷◌,
}
use ctornado.Str.{Str, text}
use ctornado.Format.Number.{Arg, Spec}
use ctornado.Format.Spec.{read_spec}
use ctornado.Format.Convert.{convert, convert_len}

-- A directive that the NUL ends: `*fmt++` leaves the format behind, and the next read is outside it.
unfoldable pub directive :
    ℕ → (Bytes × List Arg → Bytes → Result Bytes) → Spec × Bytes × List Arg → Result Bytes
unfolding convert
directive room next (sp, [], args) = err fault
directive room next (sp, c ∷ fmt, args) = convert room sp c args >>= λ out. next out fmt

-- `while (*fmt && buf < end)`: every round reads a byte of the format, so one more round than it has
-- bytes is enough fuel.
unfoldable pub print_loop : ℕ → Bytes → ℕ → List Arg → Result Bytes
unfolding read_spec directive
print_loop zero fmt room args = err no_fuel
print_loop (suc fuel) [] room args = ok []
print_loop (suc fuel) (c ∷ fmt) room args =
    let on_directive : Result Bytes =
      read_spec 2 fmt args
      >>= directive room (λ (out, more) fmt'.
        print_loop fuel fmt' (room - length out) more >>= λ rest. ok (out ++ rest)) in
    let plain : Result Bytes = print_loop fuel fmt (room - 1) args >>= λ rest. ok (c ∷ rest) in
    if room == 0 then ok [] else if c == b'%' then on_directive else plain

-- `vslprintf(buf, end, fmt, args)` with `room` bytes between `buf` and `end`: the bytes written.
unfoldable pub vslprintf : ℕ → Bytes → List Arg → Result Bytes
unfolding print_loop
vslprintf room fmt args = print_loop (length fmt + 1) fmt room args

unfoldable pub directive_len :
    (ℕ × List Arg → Bytes → Result ℕ) → Spec × Bytes × List Arg → Result ℕ
unfolding convert_len
directive_len next (sp, [], args) = err fault
directive_len next (sp, c ∷ fmt, args) = convert_len sp c args >>= λ out. next out fmt

unfoldable pub count_loop : ℕ → Bytes → List Arg → Result ℕ
unfolding read_spec directive_len
count_loop zero fmt args = err no_fuel
count_loop (suc fuel) [] args = ok 0
count_loop (suc fuel) (c ∷ fmt) args =
    let on_directive : Result ℕ =
      read_spec 1 fmt args
      >>= directive_len (λ (n, more) fmt'. count_loop fuel fmt' more >>= λ rest. ok (n + rest)) in
    let plain : Result ℕ = count_loop fuel fmt args >>= λ rest. ok (1 + rest) in
    if c == b'%' then on_directive else plain

-- `vslprintf_len(fmt, args)`
unfoldable pub vslprintf_len : Bytes → List Arg → Result ℕ
unfolding count_loop
vslprintf_len fmt args = count_loop (length fmt + 1) fmt args

-- `Str::sprintf`: counts, allocates, prints into what was allocated; the string has the counted length.
-- A byte that is not written keeps what `malloc` left there, `garbage` here.
unfoldable pub sprintf : ℕ → Bytes → List Arg → Result Str
sprintf garbage fmt args = do
  n ← vslprintf_len fmt args
  out ← vslprintf n fmt args
  ok (text (out ++ replicate (n - length out) garbage))
