-- ===== src/Examples/Urls.antt =====
-- URLs at concrete inputs.
use ctornado.Url.Netloc.{get_uphp, get_uphp-netloc_text, netloc_text}
use ctornado.Str.{eq_bytes, text}
use ctornado.Str.Number.{of_int}
use ctornado.Url.{Url, rooted, split, unsplit}
use ctornado.Url.RoundTrip.{IsHttp}
use ctornado.Str.Find.{strnfind}
use ctornado.Chars.{}
use ctornado.Str.{}
use ctornado.Base.{Bytes, [], arith, codes, ok, pos, refl, true, ◌≡◌, ◌≢◌}

abbrev page : Url
page = record {
  scheme = codes "http";
  netloc = codes "a.b:80";
  path = codes "/c";
  query = codes "x=1";
  fragment = codes "f";
}

page-IsHttp : IsHttp page
unfolding rooted
page-IsHttp = record {
  http = refl;
  location = record { no_slash = omega arith; no_question = omega arith; no_hash = omega arith };
  some_location = λ e. no_cons e;
  is_rooted = refl;
  path_question = omega arith;
  path_hash = omega arith;
  query_hash = omega arith;
}
  where
    no_cons : page.netloc ≢ []
    no_cons e = cc

printed_page : unsplit page ≡ codes "http://a.b:80/c?x=1#f"
unfolding unsplit
printed_page = refl

-- Digits behind a colon are a port, and the name in front of it is no scheme.
with_port :
    split true (codes "host:80")
    ≡ record { scheme = []; netloc = []; path = codes "host:80"; query = []; fragment = [] }
unfolding split strnfind eq_bytes
with_port = refl

get_uphp_example :
    (ds : Bytes) × (of_int (pos 80) 10 ≡ ok (text ds))
    × (get_uphp (text (netloc_text (codes "me") (codes "x:@") (codes "b") ds))
        ≡ ok (record {
          username = text (codes "me");
          password = text (codes "x:@");
          host = text (codes "b");
          port = pos 80;
        }))
get_uphp_example =
    get_uphp-netloc_text (codes "me") (codes "x:@") (codes "b") 80 (omega arith) (omega arith)
      (omega arith) (omega arith) (omega arith) (omega arith)
