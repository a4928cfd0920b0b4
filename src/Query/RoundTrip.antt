-- ===== src/Query/RoundTrip.antt =====
-- `encode` and `parse` of the class Query.
use ctornado.Query.{Query, add_part, add_parts, encode, parse, parse_extend}
use ctornado.Dict.{insert, less}
use ctornado.Str.{Str, bytes, text}
use ctornado.Str.Split.{join, split, split-join, split_pair_at}
use ctornado.Base.{
  All, All-append, Bytes, Lacks, List, [], ap, append-nil, append_assoc, arith, false, length, map,
  ok, refl, sym, ◌++◌, ◌<◌, ◌==◌, ◌∙◌, ◌∷◌, ◌≡◌, ◌≢◌,
}

-- an argument, with a value that is not empty, and no byte in it that stands for more than itself
pub record IsArgument (p : Bytes × Bytes) : Type 0 where
  pub name_no_equals : Lacks b'=' p.0
  pub name_no_and : Lacks b'&' p.0
  pub value_no_and : Lacks b'&' p.1
  pub has_value : 0 < length p.1

-- arguments as a query
abbrev pub query_of : List (Bytes × Bytes) → Query
query_of = map (λ p. (p.0, text p.1))

-- No name comes before one that stands in front of it.
abbrev pub Ordered : List (Bytes × Bytes) → Type 0
Ordered [] = Unit {0}
Ordered (p ∷ ps) = All (λ q. less q.0 p.0 ≡ false) ps × Ordered ps

abbrev part : Bytes × Bytes → Bytes
part p = p.0 ++ b'=' ∷ p.1

insert_last :
    (k : Bytes) (v : Str) (m : Query)
    → All (λ e. less k e.0 ≡ false) m
    → insert k v m ≡ m ++ (k, v) ∷ []
unfolding insert
insert_last k v [] a = refl
insert_last k v ((j, w) ∷ m) (x, a) = rw (x) (ap (λ r. (j, w) ∷ r) (insert_last k v m a))

add_part_lem :
    (q : Query) (p : Bytes × Bytes)
    → IsArgument p
    → All (λ e. less p.0 e.0 ≡ false) q
    → add_part q (text (part p)) ≡ ok (q ++ (p.0, text p.1) ∷ [])
unfolding add_part
add_part_lem q p i a =
    rw (split_pair_at p.0 p.1 b'=' refl i.name_no_equals, not_empty p.1 i.has_value)
      (ap ok (insert_last p.0 (text p.1) q a))
  where
    not_empty : (v : Bytes) → 0 < length v → (length v == 0) ≡ false
    not_empty v h = ground arith

-- No name of some arguments comes before one of a query.
abbrev pub Behind : Query → List (Bytes × Bytes) → Type 0
Behind q = All (λ p. All (λ e. less p.0 e.0 ≡ false) q)

Behind-more :
    (q : Query) (p : Bytes × Bytes) (ps : List (Bytes × Bytes))
    → Behind q ps
    → All (λ r. less r.0 p.0 ≡ false) ps
    → Behind (q ++ (p.0, text p.1) ∷ []) ps
Behind-more q p [] b o = tt
Behind-more q p (r ∷ ps) (x, b) (y, o) = (
  All-append (λ e. less r.0 e.0 ≡ false) q ((p.0, text p.1) ∷ []) x (y, tt),
  Behind-more q p ps b o,
)

add_parts_lem :
    (q : Query) (ps : List (Bytes × Bytes))
    → All IsArgument ps
    → Ordered ps
    → Behind q ps
    → add_parts q (map text (map part ps)) ≡ ok (q ++ query_of ps)
unfolding add_parts
add_parts_lem q [] i o b = ap ok (sym (append-nil q))
add_parts_lem q (p ∷ ps) (i, is) (o, os) (x, b) = rw (add_part_lem q p i x) (
    add_parts_lem (q ++ (p.0, text p.1) ∷ []) ps is os (Behind-more q p ps b o)
    ∙ ap ok (append_assoc q ((p.0, text p.1) ∷ []) (query_of ps)))

parts_lack : (ps : List (Bytes × Bytes)) → All IsArgument ps → All (Lacks b'&') (map part ps)
parts_lack [] i = tt
parts_lack (p ∷ ps) (i, is) = (
  All-append (λ c. c ≢ b'&') p.0 (b'=' ∷ p.1) i.name_no_and (omega arith, i.value_no_and),
  parts_lack ps is,
)

parts_of :
    (ps : List (Bytes × Bytes))
    → map (λ e. text (e.0 ++ b'=' ∷ bytes e.1)) (query_of ps) ≡ map text (map part ps)
parts_of [] = refl
parts_of (p ∷ ps) = ap (λ r. text (part p) ∷ r) (parts_of ps)

start-Behind : (ps : List (Bytes × Bytes)) → Behind [] ps
start-Behind [] = tt
start-Behind (p ∷ ps) = (tt, start-Behind ps)

extend_joined :
    (q : Query) (p : Bytes) (ps : List Bytes) {q' : Query}
    → split (join b'&' (map text (p ∷ ps))) b'&' ≡ ok (map text (p ∷ ps))
    → add_parts q (map text (p ∷ ps)) ≡ ok q'
    → parse_extend q (join b'&' (map text (p ∷ ps))) ≡ ok q'
unfolding parse_extend join
extend_joined q p ps e f = rw (e) f

-- `parse_extend` with what `encode` makes of such arguments, none of whose names comes before one of the
-- query: it has them behind its own.
pub parse_extend-encode :
    (q : Query) (ps : List (Bytes × Bytes))
    → All IsArgument ps
    → Ordered ps
    → Behind q ps
    → parse_extend q (encode (query_of ps)) ≡ ok (q ++ query_of ps)
unfolding parse_extend encode
parse_extend-encode q [] i o b = ap ok (sym (append-nil q))
parse_extend-encode q (p ∷ ps) i o b =
    ap (λ s. parse_extend q s) (ap (join b'&') (parts_of (p ∷ ps)))
    ∙ extend_joined q (part p) (map part ps)
        (split-join b'&' (part p) (map part ps) (omega arith) (parts_lack (p ∷ ps) i))
        (add_parts_lem q (p ∷ ps) i o b)

-- `parse` undoes `encode` on a query whose names are in the order of the map, none of them with `=` or
-- `&` in it, and whose values are not empty and have no `&`. The empty query is encoded as a null string.
pub parse-encode :
    (ps : List (Bytes × Bytes))
    → All IsArgument ps
    → Ordered ps
    → parse (encode (query_of ps)) ≡ ok (query_of ps)
unfolding parse
parse-encode ps i o = parse_extend-encode [] ps i o (start-Behind ps)
