-- ===== src/Examples/Queries.antt =====
-- The arguments of URLs and requests at concrete inputs.
use ctornado.Str.Split.{join, split, split_loop, split_pair}
use ctornado.Examples.Fields.{host_field, never}
use ctornado.Query.{add_part, add_parts, encode, parse, parse_extend}
use ctornado.Query.RoundTrip.{IsArgument, query_of}
use ctornado.Headers.{joined}
use ctornado.Http.State.{Request}
use ctornado.Http.Made.{Describes, value_of}
use ctornado.Http.Arguments.{arguments-url_concat}
use ctornado.Headers.Fields.{add_all}
use ctornado.Url.Join.{url_concat}
use ctornado.Http.FullUrl.{split-full_url}
use ctornado.Http.Request.{full_url}
use ctornado.Url.{Url, rooted}
use ctornado.Url
use ctornado.Url.RoundTrip.{IsHttp}
use ctornado.Dict.{insert}
use ctornado.Str.{bytes, char_at, eq_bytes, last_char, null, text}
use ctornado.Str.Find.{strnfind}
use ctornado.Base.{Bytes, List, [], arith, codes, false, ok, refl, some, true, ◌∷◌, ◌≡◌, ◌≢◌}

abbrev one_argument : List (Bytes × Bytes)
one_argument = (codes "x", codes "1") ∷ []

x-IsArgument : IsArgument (codes "x", codes "1")
x-IsArgument = record {
  name_no_equals = omega arith;
  name_no_and = omega arith;
  value_no_and = omega arith;
  has_value = omega arith;
}

abbrev asked : Request
asked = record {
  method = text (codes "GET");
  uri = text (codes "/?x=1");
  version = text (codes "HTTP/1.1");
  headers = add_all [] (host_field ∷ []);
  remote_ip = text (codes "10.0.0.1");
  protocol = text (codes "http");
  host = value_of (host_field ∷ []) (codes "Host") (text (codes "127.0.0.1"));
  body = null;
  path = text (codes "/");
  query = text (codes "x=1");
  arguments = query_of one_argument;
  files = [];
}

asked-Describes :
    Describes never never
      (codes "GET")
      (codes "/?x=1")
      (codes "HTTP/1.1")
      (host_field ∷ [])
      (text (codes "10.0.0.1"))
      false
      asked
unfolding parse parse_extend add_parts add_part split split_loop strnfind split_pair insert
asked-Describes = record {
  same_method = refl;
  same_uri = refl;
  same_version = refl;
  same_headers = refl;
  empty_body = refl;
  no_files = refl;
  host_named = refl;
  ip_seen = refl;
  protocol_seen = refl;
  uri_cut = (refl, omega arith);
  query_read = refl;
}

made_url : url_concat (text (codes "/")) (some (query_of one_argument)) ≡ ok (text (codes "/?x=1"))
unfolding url_concat last_char char_at encode join strnfind
made_url = refl

slash_last : last_char (text (codes "/")) ≡ ok b'/'
unfolding last_char char_at
slash_last = refl

arguments-url_concat_example :
    (asked.arguments ≡ query_of one_argument) × (bytes asked.path ≡ codes "/")
arguments-url_concat_example =
    arguments-url_concat never never (codes "GET") (codes "/?x=1") (codes "HTTP/1.1") (codes "/")
      b'/' (host_field ∷ []) (text (codes "10.0.0.1")) false asked one_argument slash_last
      (omega arith) (omega arith) (omega arith) (x-IsArgument, tt) (tt, tt) made_url asked-Describes

abbrev asked_url : Url
asked_url = record {
  scheme = codes "http";
  netloc = codes "b";
  path = codes "/";
  query = codes "x=1";
  fragment = [];
}

asked-IsHttp : IsHttp asked_url
unfolding rooted
asked-IsHttp = record {
  http = refl;
  location = record { no_slash = omega arith; no_question = omega arith; no_hash = omega arith };
  some_location = some_host;
  is_rooted = refl;
  path_question = omega arith;
  path_hash = omega arith;
  query_hash = omega arith;
}
  where
    some_host : asked_url.netloc ≢ []
    some_host e = cc

host_asked : value_of (host_field ∷ []) (codes "Host") (text (codes "127.0.0.1")) ≡ text (codes "b")
unfolding eq_bytes joined
host_asked = refl

split-full_url_example : Url.split true (bytes (full_url asked)) ≡ asked_url
split-full_url_example =
    split-full_url never never (codes "GET") (codes "/?x=1") (codes "HTTP/1.1") (host_field ∷ [])
      (text (codes "10.0.0.1")) asked asked_url asked-Describes asked-IsHttp refl host_asked refl
