-- ===== src/Examples/Joins.antt =====
-- `url_join` at concrete inputs.
use ctornado.Url.Join.{join_paths, url_join}
use ctornado.Url.Joined.{ComesFrom, NotDot, Tidy, join_paths_lem}
use ctornado.Base.{
  All, Bytes, Lacks, List, codes, err, map, ok, out_of_range, refl, true, ◌++◌, ◌≡◌,
}
use ctornado.Chars.{all, is_alpha, is_digit, to_lower}
use ctornado.Str.{Str, bytes, eq_bytes, text}
use ctornado.Str.Find.{strnfind}
use ctornado.Str.Split.{join, split}
use ctornado.Url

up_one : url_join (codes "http://a/b/c") (codes "../d") true ≡ ok (codes "http://a/d")
unfolding url_join Url.split strnfind eq_bytes is_digit is_alpha to_lower all split join Url.unsplit
up_one = refl

-- A reference that is a query only is read at its first byte of a path.
query_only : url_join (codes "http://a/b") (codes "?x=1") true ≡ err out_of_range
unfolding url_join Url.split strnfind eq_bytes is_digit is_alpha to_lower all Url.is_uses_netloc
query_only = refl

join_paths_example :
    (segs1 : List Str) × (segs2 : List Str) × (segs : List Bytes) × (join b'/' segs1
      ≡ text (codes "/a/b"))
    × (join b'/' segs2 ≡ text (codes "../c"))
    × All (λ p. Lacks b'/' (bytes p)) (segs1 ++ segs2)
    × (join_paths (codes "/a/b") (codes "../c") ≡ ok (bytes (join b'/' (map text segs))))
    × All (ComesFrom (map bytes segs1 ++ map bytes segs2)) segs
    × All NotDot segs
    × Tidy segs
join_paths_example = join_paths_lem (codes "/a/b") (codes "../c")
