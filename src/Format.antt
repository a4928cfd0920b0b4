-- ===== src/Format.antt =====
-- `vslprintf`, `vslprintf_len` and `Str::sprintf` of src/lib/string.cc: the pass that prints and the
-- pass that counts. A format is its bytes in front of the NUL; the arguments are what `va_arg` takes, in
-- order.
pub mod Number
pub mod Spec
pub mod Convert
pub mod Passes
pub mod Length
pub mod Agree
pub mod Exact
pub mod Fuel
