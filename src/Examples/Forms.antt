-- ===== src/Examples/Forms.antt =====
-- Forms and request bodies at concrete inputs.
use ctornado.Examples.Fields.{never}
use ctornado.Examples.Requests.{connection, got}
use ctornado.Http.State.{Connection, Request, gives}
use ctornado.Http.Connection.{}
use ctornado.Http.Request.{on_request_body}
use ctornado.Http.Body.{begins, content_type_of, extended, on_request_body-serves}
use ctornado.Base.{
  Bytes, [], arith, codes, err, false, fault, length, ok, refl, some, ◌++◌, ◌∷◌, ◌≡◌,
}
use ctornado.Dict.{assign, lookup}
use ctornado.Chars.{is_alpha, is_space, to_lower, to_upper}
use ctornado.Form.{Params, Parsed, parse_header, parse_param, read_parts, unquoted}
use ctornado.Form.Params.{parse_header_lem}
use ctornado.Form.Parts.{empty_line, read_parts-without_body}
use ctornado.Headers.{Cache, Headers, get, joined, parse}
use ctornado.Headers.Cached.{IsCache, IsCache-nil}
use ctornado.Headers.Fields.{Field, add_all}
use ctornado.Query.{encode}
use ctornado.Query.RoundTrip.{IsArgument, query_of}
use ctornado.Str.{Str, bytes, eq_bytes, is_null, remove_prefix, substr, text}
use ctornado.Str.Find.{memmem, strnfind}
use ctornado.Str.Split.{split_pair}
use ctornado.Str.Range.{count_char, count_str, find_from, find_str}
use ctornado.Str.Pieces.{}
use ctornado.Str.Lines.{split_lines}
use ctornado.Str.Transform.{capitalize_each, lower, strip, strips}

parse_header_example :
    (key : Str) × (ps' : Params) × (parse_header
        (text (codes "form-data; name=b"))
        ((codes "name", text (codes "a")) ∷ [])
      ≡ ok (key, ps'))
    × ((n : Bytes) (v : Str)
        → lookup n ((codes "name", text (codes "a")) ∷ []) ≡ some v
        → lookup n ps' ≡ some v)
parse_header_example =
    parse_header_lem (codes "form-data; name=b") ((codes "name", text (codes "a")) ∷ [])

abbrev head : Bytes
head = codes "content-disposition: form-data; name=a"

abbrev nothing_yet : Parsed
nothing_yet = record { cache = []; params = []; arguments = []; files = [] }

abbrev disposition_cache : Cache
disposition_cache = (codes "content-disposition", codes "Content-Disposition") ∷ []

abbrev disposition_headers : Headers
disposition_headers = (codes "Content-Disposition", text (codes "form-data; name=a")) ∷ []

abbrev both_cached : Cache
both_cached = (codes "Content-Disposition", codes "Content-Disposition") ∷ disposition_cache

abbrev name_param : Params
name_param = (codes "name", text (codes "a")) ∷ []

head_ends : memmem (head ++ empty_line) empty_line ≡ some (length head)
unfolding memmem
head_ends = refl

head_parsed : parse never [] (text head) ≡ ok (disposition_headers, disposition_cache)
unfolding parse split_lines split_pair is_null strnfind strip lookup capitalize_each is_alpha
    to_lower to_upper assign strips is_space
head_parsed = refl

disposition_got :
    get never disposition_cache disposition_headers (codes "Content-Disposition") (text [])
    ≡ ok (text (codes "form-data; name=a"), both_cached)
unfolding get lookup eq_bytes capitalize_each strnfind is_alpha to_lower to_upper assign
disposition_got = refl

params_got :
    parse_header (text (codes "form-data; name=a")) [] ≡ ok (text (codes "form-data"), name_param)
unfolding parse_header parse_param find_from strnfind remove_prefix find_str memmem eq_bytes strip
    strips is_space lower to_lower unquoted lookup assign count_char count_str substr
params_got = refl

name_there : lookup (codes "name") name_param ≡ some (text (codes "a"))
unfolding lookup eq_bytes
name_there = refl

read_parts-without_body_example :
    read_parts never (text (head ++ empty_line) ∷ []) nothing_yet ≡ err fault
read_parts-without_body_example =
    read_parts-without_body never head [] nothing_yet disposition_headers disposition_cache
      both_cached (text (codes "form-data; name=a")) (text (codes "a")) name_param head_ends
      head_parsed disposition_got params_got name_there

abbrev type_field : Field
type_field = record {
  name = codes "Content-Type";
  value = codes "application/x-www-form-urlencoded";
  key = codes "Content-Type";
}

abbrev posted : Request
posted = record (got (codes "HTTP/1.1")) {
  method = text (codes "POST");
  headers = add_all [] (type_field ∷ []);
}

abbrev receiving : Connection
receiving = record connection { request = some posted }

one_piece : begins (bytes (content_type_of (type_field ∷ []))) (codes "multipart/form-data") ≡ false
unfolding joined eq_bytes
one_piece = refl

argument : IsArgument (codes "a", codes "1")
argument = record {
  name_no_equals = (omega arith, tt);
  name_no_and = (omega arith, tt);
  value_no_and = (omega arith, tt);
  has_value = omega arith;
}

on_request_body-serves_example :
    (r' : Request) × (last : Cache) × (on_request_body never
        (encode (query_of ((codes "a", codes "1") ∷ [])))
        receiving
      ≡ gives tt (record receiving { cache = last; request = some r'; served = r' ∷ [] }))
    × (r' ≡ record posted {
      body = encode (query_of ((codes "a", codes "1") ∷ []));
      arguments = extended (type_field ∷ []) posted ((codes "a", codes "1") ∷ []);
    })
    × IsCache never last
on_request_body-serves_example =
    on_request_body-serves never (type_field ∷ []) posted ((codes "a", codes "1") ∷ []) receiving
      refl refl (IsCache-nil never) one_piece (argument, tt) (tt, tt) (tt, tt)

-- The body is one that is read.
one_argument :
    extended (type_field ∷ []) posted ((codes "a", codes "1") ∷ [])
    ≡ (codes "a", text (codes "1")) ∷ []
unfolding joined eq_bytes
one_argument = refl
