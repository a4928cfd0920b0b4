-- ===== src/Http/FullUrl.antt =====
-- The URL of a request.
use ctornado.Http.State.{Request}
use ctornado.Http.Request.{full_url}
use ctornado.Http.Made.{Describes, value_of}
use ctornado.Headers.Fields.{Field}
use ctornado.Url.{Url, split}
use ctornado.Url.RoundTrip.{IsHttp, mark, split-unsplit, tail_of, unsplit_http}
use ctornado.Str.{Str, bytes, text}
use ctornado.Base.{
  Bool, Bytes, List, [], ap, append-nil, codes, false, sym, true, ◌++◌, ◌∙◌, ◌∷◌, ◌≡◌,
}

-- `full_url` of a request without proxy headers, whose Host and whose URI are those of an http URL
-- without a fragment: split, it gives this URL again.
pub split-full_url :
    (matches valid_ip : Bytes → Bool) (m uri w : Bytes) (fs : List Field) (address : Str)
    (r : Request) (u : Url)
    → Describes matches valid_ip m uri w fs address false r
    → IsHttp u
    → u.fragment ≡ []
    → value_of fs (codes "Host") (text (codes "127.0.0.1")) ≡ text u.netloc
    → uri ≡ u.path ++ mark b'?' u.query
    → split true (bytes (full_url r)) ≡ u
unfolding full_url
split-full_url matches valid_ip m uri w fs address r u d h whole host same =
    ap (split true) (written ∙ sym (unsplit_http u h)) ∙ split-unsplit u h
  where
    written : bytes (full_url r) ≡ codes "http:" ++ b'/' ∷ b'/' ∷ (u.netloc ++ tail_of u)
    written =
        rw (d.protocol_seen, d.host_named, host, d.same_uri, same, whole)
          (ap (λ k. codes "http://" ++ (u.netloc ++ k))
            (sym (append-nil (u.path ++ mark b'?' u.query))))
