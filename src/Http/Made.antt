-- ===== src/Http/Made.antt =====
-- `on_headers` on a request whose headers are well formed, behind the tests of its first line: the
-- constructor of HTTPRequest.
use Prim.Native.String.{String}
use ctornado.Http.State.{Connection, Request, gives, on_cache_ok, return, ◌>>=◌}
use ctornado.Http.Connection.{get_header}
use ctornado.Http.Request.{make_request, proxied}
use ctornado.Base.{
  Bool, Bool-cases, Bytes, List, [], arith, codes, false, if◌then◌else◌, inl, inr, none, ok, refl,
  some, true, ◌||◌, ◌≡◌,
}
use ctornado.Headers.{Cache, get, normal}
use ctornado.Headers.Cached.{IsCache}
use ctornado.Headers.Fields.{Field, add_all, get_field, values_at}
use ctornado.Str.{Str, bytes, eq, is_null, null, text}
use ctornado.Str.Split.{PairOf, split_pair, split_pair_lem}
use ctornado.Str.Transform.{capitalize_each}
use ctornado.Query.Total.{PairOf-ok, parse-total}
use ctornado.Query
use ctornado.Chars.{is_alpha, to_lower, to_upper}
use ctornado.Str.Find.{strnfind}

-- what `get` finds among the fields
abbrev pub value_of : List Field → Bytes → Str → Str
value_of fs name default = elim (values_at name none fs) [ none ↦ default | some v ↦ v ]

module _ (matches : Bytes → Bool) where
  -- a name that already has its normal form
  pub normal_itself :
      (name : Bytes)
      → capitalize_each (text name) b'-' ≡ ok (text name)
      → normal matches name ≡ ok name
  unfolding normal
  normal_itself name e = elim (Bool-cases (matches name)) [
    | inl already ↦ rw (already)
    | inr other ↦ rw (other, e)
  ]

  pub get_header_ok :
      (fs : List Field) (name : String) (default : Str) (c : Connection)
      → capitalize_each (text (codes name)) b'-' ≡ ok (text (codes name))
      → IsCache matches c.cache
      → (last : Cache) × (get_header matches (add_all [] fs) name default c
          ≡ gives (value_of fs (codes name) default) (record c { cache = last }))
        × IsCache matches last
  unfolding get_header
  get_header_ok fs name default c e v =
      let (last, run, w) =
        get_field matches c.cache fs (codes name) (codes name) default v
          (normal_itself (codes name) e) in
      (last, on_cache_ok (λ cache. get matches cache (add_all [] fs) (codes name) default) c run, w)

module _ (matches valid_ip : Bytes → Bool) where
  -- the address and the protocol that the fields of a proxy name
  abbrev pub seen_ip : List Field → Str → Str
  seen_ip fs ip =
      let named = value_of fs (codes "X-Real-Ip") (value_of fs (codes "X-Forwarded-For") ip) in
      if valid_ip (bytes named) then named else ip

  abbrev pub seen_protocol : List Field → Str
  seen_protocol fs =
      let named = value_of fs (codes "X-Scheme") (value_of fs (codes "X-Forwarded-Proto") null) in
      if eq named (text (codes "http")) || eq named (text (codes "https"))
      then named
      else text (codes "http")

  proxied_lem :
      (fs : List Field) (ip : Str) (c : Connection)
      → IsCache matches c.cache
      → (last : Cache) × (proxied matches valid_ip (add_all [] fs) ip null c
          ≡ gives (seen_ip fs ip, seen_protocol fs) (record c { cache = last }))
        × IsCache matches last
  unfolding proxied capitalize_each strnfind is_alpha to_lower to_upper
  proxied_lem fs ip c v =
      let (l1, e1, v1) = get_header_ok matches fs "X-Forwarded-For" ip c refl v in
      let (l2, e2, v2) =
        get_header_ok matches fs "X-Real-Ip" (value_of fs (codes "X-Forwarded-For") ip)
          (record c { cache = l1 }) refl v1 in
      let (l3, e3, v3) =
        get_header_ok matches fs "X-Forwarded-Proto" null (record c { cache = l2 }) refl v2 in
      let (l4, e4, v4) =
        get_header_ok matches fs "X-Scheme" (value_of fs (codes "X-Forwarded-Proto") null)
          (record c { cache = l3 }) refl v3 in
      (l4, rw (e1, e2, e3, e4, ◌>>=◌) refl, v4)

  -- What a request holds that is made from a request line and fields: `arguments` are those of the query
  -- behind the first `?`.
  pub record Describes (m u w : Bytes) (fs : List Field) (address : Str) (xheaders : Bool)
      (r : Request) : Type 0 where
    pub same_method : r.method ≡ text m
    pub same_uri : r.uri ≡ text u
    pub same_version : r.version ≡ text w
    pub same_headers : r.headers ≡ add_all [] fs
    pub empty_body : r.body ≡ null
    pub no_files : r.files ≡ []
    pub host_named : r.host ≡ value_of fs (codes "Host") (text (codes "127.0.0.1"))
    pub ip_seen : r.remote_ip ≡ (if xheaders then seen_ip fs address else address)
    pub protocol_seen : r.protocol ≡ (if xheaders then seen_protocol fs else text (codes "http"))
    pub uri_cut : PairOf b'?' u (ok (r.path, r.query))
    pub query_read : Query.parse r.query ≡ ok r.arguments

  -- the address and the protocol of a request
  abbrev origin_of : Bool → List Field → Str → Str × Str
  origin_of xheaders fs ip = (
    if xheaders then seen_ip fs ip else ip,
    if xheaders then seen_protocol fs else text (codes "http"),
  )

  origin_ok :
      (xheaders : Bool) (fs : List Field) (ip : Str) (c : Connection)
      → IsCache matches c.cache
      → (last : Cache) × ((if xheaders
              then proxied matches valid_ip (add_all [] fs) ip null
              else return (ip, text (codes "http")))
            c
          ≡ gives (origin_of xheaders fs ip) (record c { cache = last }))
        × IsCache matches last
  origin_ok true fs ip c v = proxied_lem fs ip c v
  origin_ok false fs ip c v = (c.cache, refl, v)

  pub make_request_ok :
      (m u w : Bytes) (fs : List Field) (ip : Str) (c : Connection)
      → IsCache matches c.cache
      → (last : Cache) × (r : Request) × (make_request matches valid_ip
            (text m)
            (text u)
            (text w)
            (add_all [] fs)
            ip
            null
            null
            null
            c
          ≡ gives r (record c { cache = last }))
        × IsCache matches last
        × Describes m u w fs ip c.xheaders r
  unfolding make_request capitalize_each strnfind is_alpha to_lower to_upper is_null
  make_request_ok m u w fs ip c v =
      let (l1, e1, v1) = get_header_ok matches fs "Host" (text (codes "127.0.0.1")) c refl v in
      let (l2, e2, v2) = origin_ok c.xheaders fs ip (record c { cache = l1 }) v1 in
      let (k, q, e3, h) =
        PairOf-ok b'?' u (split_pair (text u) b'?') (split_pair_lem b'?' u (omega arith)) in
      let (args, e4) = parse-total q in
      (
        l2,
        record {
          method = text m;
          uri = text u;
          version = text w;
          headers = add_all [] fs;
          remote_ip = (origin_of c.xheaders fs ip).0;
          protocol = (origin_of c.xheaders fs ip).1;
          host = value_of fs (codes "Host") (text (codes "127.0.0.1"));
          body = null;
          path = k;
          query = q;
          arguments = args;
          files = [];
        },
        rw (e1, e2, e3, e4, ◌>>=◌) refl,
        v2,
        record {
          same_method = refl;
          same_uri = refl;
          same_version = refl;
          same_headers = refl;
          empty_body = refl;
          no_files = refl;
          host_named = refl;
          ip_seen = refl;
          protocol_seen = refl;
          uri_cut = h;
          query_read = e4;
        },
      )
