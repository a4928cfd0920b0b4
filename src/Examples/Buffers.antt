-- ===== src/Examples/Buffers.antt =====
-- Buffers and formats at concrete inputs.
use ctornado.Buffer.{Buffer}
use ctornado.Buffer
use ctornado.Buffer.Content.{IsValid, contents}
use ctornado.Buffer.Prefix.{merge_prefix_lem}
use ctornado.Format.Number.{
  Arg, count_rounds, digits, emit, signed_int, sprintf_num, sprintf_num_len, str_ptr,
}
use ctornado.Format.Spec.{is_number, take_number, take_str}
use ctornado.Format.Convert.{convert, convert_len, number_len, print_number}
use ctornado.Format.Passes.{sprintf, vslprintf, vslprintf_len}
use ctornado.Format.Agree.{}
use ctornado.Format.Exact.{sprintf_exact}
use ctornado.Format.Fuel.{}
use ctornado.Base.{Bytes, List, [], arith, codes, length, negsuc, ok, refl, ◌∷◌, ◌≡◌}
use ctornado.Str.{Str, bytes, text}

-- "ab" and "cde"
abbrev two : Buffer
two = record { chunk_dq = text (codes "ab") ∷ text (codes "cde") ∷ []; size = 5 }

two-IsValid : IsValid two
two-IsValid = omega arith

merge_prefix_example :
    (b' : Buffer) × (c : Str) × (Buffer.merge_prefix two 3 ≡ ok b')
    × (Buffer.top b' ≡ ok c)
    × (bytes c ≡ codes "abc")
    × (contents b' ≡ codes "abcde")
    × IsValid b'
merge_prefix_example = merge_prefix_lem two 3 two-IsValid (omega arith)

first_chunk : Buffer.top two ≡ ok (text (codes "ab"))
unfolding Buffer.top
first_chunk = refl

-- "%S=%05d" with a string and -42
abbrev assignment : List Arg
assignment = str_ptr (text (codes "k")) ∷ signed_int (negsuc 41) ∷ []

counted_example : vslprintf_len (codes "%S=%05d") assignment ≡ ok 8
unfolding vslprintf_len convert_len number_len sprintf_num_len count_rounds take_str take_number
    is_number
counted_example = refl

printed : vslprintf 8 (codes "%S=%05d") assignment ≡ ok (codes "k=-00042")
unfolding vslprintf convert print_number sprintf_num digits emit take_str take_number is_number
printed = refl

sprintf_example :
    (out : Bytes) × (vslprintf 8 (codes "%S=%05d") assignment ≡ ok out)
    × (length out ≡ 8)
    × (sprintf 0 (codes "%S=%05d") assignment ≡ ok (text out))
sprintf_example = sprintf_exact 0 8 (codes "%S=%05d") assignment tt counted_example
