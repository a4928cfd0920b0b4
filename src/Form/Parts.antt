-- ===== src/Form/Parts.antt =====
-- `parse_multipart_form_data`: a part that ends behind its headers.
use ctornado.Form.{Params, Parsed, parse_header, read_part, read_parts}
use ctornado.Base.{
  Bool, Bytes, List, [], ap, append_assoc, arith, codes, drop, err, false, fault, length,
  length-append, le→leb, ok, refl, some, sym, true, ℕ, ◌++◌, ◌+◌, ◌-◌, ◌<◌, ◌==◌, ◌∙◌, ◌∷◌, ◌≡◌,
}
use ctornado.Dict.{lookup}
use ctornado.Headers.{Cache, Headers, get, parse}
use ctornado.Str.{Str, ends_with, eq, eq_bytes, substr, text}
use ctornado.Str.Cuts.{drop_self, front_of}
use ctornado.Str.View.{eq_bytes_self}
use ctornado.Str.Find.{memmem}
use ctornado.Str.Range.{find_str}
use ctornado.Str.Split.{}

ends_with-append : (a t : Bytes) → ends_with (text (a ++ t)) (text t) ≡ true
unfolding ends_with
ends_with-append a t =
    let place : length (a ++ t) - length t ≡ length a = omega (arith, length-append a t) in
    let rest : drop (length (a ++ t) - length t) (a ++ t) ≡ t =
      ap (λ n. drop n (a ++ t)) place ∙ drop_self a t in
    rw (le→leb (length t) (length (a ++ t)) (omega (arith, length-append a t)), rest)
      (eq_bytes_self t)

no_room :
    (s : Bytes) (n : ℕ)
    → length s ≡ n + 4
    → substr (text s) (n + 4) (some (length s - 2)) ≡ err fault
unfolding substr
no_room s n e = ground arith

not_empty : (n : ℕ) → 0 < n → (n == 0) ≡ false
not_empty n h = ground arith

abbrev pub empty_line : Bytes
empty_line = codes "\r\n\r\n"

module _ (matches : Bytes → Bool) where
  -- A part of a form that has headers and, behind their empty line, not even the line break in front of
  -- the next boundary: where its headers name it as form data with a name, the loop takes a string whose
  -- end is in front of its start.
  pub read_parts-without_body :
      (head : Bytes) (parts : List Str) (st : Parsed) (h : Headers) (cache cache' : Cache)
      (disposition name : Str) (ps : Params)
      → memmem (head ++ empty_line) empty_line ≡ some (length head)
      → parse matches st.cache (text head) ≡ ok (h, cache)
      → get matches cache h (codes "Content-Disposition") (text []) ≡ ok (disposition, cache')
      → parse_header disposition st.params ≡ ok (text (codes "form-data"), ps)
      → lookup (codes "name") ps ≡ some name
      → read_parts matches (text (head ++ empty_line) ∷ parts) st ≡ err fault
  unfolding read_parts read_part find_str eq eq_bytes
  read_parts-without_body head parts st h cache cache' disposition name ps found fields got params
        named =
      let long : length (head ++ empty_line) ≡ length head + 4 = length-append head empty_line in
      let front : substr (text (head ++ empty_line)) 0 (some (length head)) ≡ ok (text head) =
        front_of head empty_line in
      let ends : ends_with (text (head ++ empty_line)) (text (codes "\r\n")) ≡ true =
        ap (λ k. ends_with (text k) (text (codes "\r\n")))
          (sym (append_assoc head (codes "\r\n") (codes "\r\n")))
        ∙ ends_with-append (head ++ codes "\r\n") (codes "\r\n") in
      let outside : substr (text (head ++ empty_line)) (length head + 4)
            (some (length (head ++ empty_line) - 2))
          ≡ err fault =
        no_room (head ++ empty_line) (length head) long in
      let some_bytes : (length (head ++ empty_line) == 0) ≡ false =
        not_empty (length (head ++ empty_line)) (omega (arith, long)) in
      rw (some_bytes, found, front, fields, got, params, ends, named, outside) refl
