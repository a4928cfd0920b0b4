-- ===== src/Examples/Fields.antt =====
-- Header fields at concrete inputs.
use ctornado.Base.{Bool, Bytes, [], arith, codes, false, ok, refl, ◌>>=◌, ◌≡◌}
use ctornado.Headers.{Cache, Headers, normal, normalize_name}
use ctornado.Headers.Cached.{IsCache, IsCache-nil, normalize_name_lem}
use ctornado.Headers.Fields.{Field, IsField}
use ctornado.Chars.{is_alpha, is_space, to_lower, to_upper}
use ctornado.Str.{Str}
use ctornado.Str.Find.{strnfind}
use ctornado.Str.Transform.{capitalize_each, strip, strips}

-- no name is in its normal form already, and no address is one
abbrev pub never : Bytes → Bool
never s = false

abbrev pub host_field : Field
host_field = record { name = codes "hOST"; value = codes "b"; key = codes "Host" }

pub host_field-IsField : IsField never host_field
unfolding normal capitalize_each strnfind is_alpha to_lower to_upper strip strips is_space
host_field-IsField = record {
  starts = refl;
  no_colon = omega arith;
  name_line = (refl, (refl, (refl, (refl, tt))));
  value_line = (refl, tt);
  stripped = refl;
  normal_key = refl;
}

abbrev pub length_field : Field
length_field = record {
  name = codes "Content-Length";
  value = codes "101";
  key = codes "Content-Length";
}

pub length_field-IsField : IsField never length_field
unfolding normal capitalize_each strnfind is_alpha to_lower to_upper strip strips is_space
length_field-IsField = record {
  starts = refl;
  no_colon = omega arith;
  name_line = (
    refl,
    (
      refl,
      (
        refl,
        (refl, (refl, (refl, (refl, (refl, (refl, (refl, (refl, (refl, (refl, (refl, tt))))))))))),
      ),
    ),
  );
  value_line = (refl, (refl, (refl, tt)));
  stripped = refl;
  normal_key = refl;
}

normalize_name_example :
    ((normalize_name never [] (codes "hOST") >>= λ r. ok r.0) ≡ normal never (codes "hOST"))
    × ((m : Bytes) (cache' : Cache)
        → normalize_name never [] (codes "hOST") ≡ ok (m, cache')
        → IsCache never cache')
normalize_name_example = normalize_name_lem never [] (codes "hOST") (IsCache-nil never)
