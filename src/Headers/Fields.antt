-- ===== src/Headers/Fields.antt =====
-- `HTTPHeaders::parse`: what it makes of a block of fields.
use ctornado.Headers.{
  Cache, Headers, add, add_line, continued, get, has, joined, normal, parse, parse_lines,
}
use ctornado.Headers.Cached.{IsCache, normalize_ok}
use ctornado.Base.{
  All, All-append, Bool, Bytes, Lacks, List, Option, [], ap, arith, false, if◌then◌else◌, is_nil,
  length, none, ok, refl, some, suc, true, zero, ℕ, ◌++◌, ◌+◌, ◌<◌, ◌∙◌, ◌∷◌, ◌≡◌,
}
use ctornado.Chars.{is_space}
use ctornado.Dict.{assign, lookup, lookup-assign}
use ctornado.Str.View.{eq_bytes_iff}
use ctornado.Str.Find.{}
use ctornado.Str.Split.{split_pair_at}
use ctornado.Str.Lines.{IsLine, block, is_break, split_lines-block}
use ctornado.Str.Transform.{strip}
use ctornado.Str.{Str, eq_bytes, is_null, text}

-- a field, with the name's normal form
pub record Field : Type 0 where
  pub name : Bytes
  pub value : Bytes
  pub key : Bytes

-- the line of a field
abbrev pub line_of : Field → Bytes
line_of f = f.name ++ b':' ∷ b' ' ∷ f.value

-- the lines behind the first line of a request: it ends, the fields follow, and an empty line
abbrev pub field_lines : List Field → List Bytes
field_lines [] = [] ∷ []
field_lines (f ∷ fs) = line_of f ∷ field_lines fs

abbrev pub StartsField : Bytes → Type 0
StartsField [] = ⊥
StartsField (c ∷ s) = is_space c ≡ false

-- what `get` finds under a key behind the fields: their values, with commas, behind `old`
abbrev pub values_at : Bytes → Option Str → List Field → Option Str
values_at k old [] = old
values_at k old (f ∷ fs) =
    values_at k (if eq_bytes f.key k then some (joined old (text f.value)) else old) fs

pub add_all : Headers → List Field → Headers
add_all h [] = h
add_all h (f ∷ fs) = add_all (assign f.key (joined (lookup f.key h) (text f.value)) h) fs

lookup-add_all :
    (k : Bytes) (h : Headers) (fs : List Field)
    → lookup k (add_all h fs) ≡ values_at k (lookup k h) fs
unfolding add_all
lookup-add_all k h [] = refl
lookup-add_all k h (f ∷ fs) =
    lookup-add_all k (assign f.key (joined (lookup f.key h) (text f.value)) h) fs
    ∙ ap (λ o. values_at k o fs)
        (lookup-assign k f.key (joined (lookup f.key h) (text f.value)) h ∙ same)
  where
    same :
        (if eq_bytes f.key k then some (joined (lookup f.key h) (text f.value)) else lookup k h)
        ≡ (if eq_bytes f.key k then some (joined (lookup k h) (text f.value)) else lookup k h)
    same = ground (arith, eq_bytes_iff f.key k)

module _ (matches : Bytes → Bool) where
  -- A field that stands in one line: the name has a byte, is not indented and has no colon, and the
  -- value is what `strip` leaves of it.
  pub record IsField (f : Field) : Type 0 where
    pub starts : StartsField f.name
    pub no_colon : Lacks b':' f.name
    pub name_line : IsLine f.name
    pub value_line : IsLine f.value
    pub stripped : strip none (text (b' ' ∷ f.value)) ≡ ok (text f.value)
    pub normal_key : normal matches f.name ≡ ok f.key

  add_line_lem :
      (cache : Cache) (h : Headers) (f : Field)
      → IsCache matches cache
      → IsField f
      → (cache' : Cache) × (add_line matches cache h (line_of f)
          ≡ ok (assign f.key (joined (lookup f.key h) (text f.value)) h, cache'))
        × IsCache matches cache'
  unfolding add_line add is_null
  add_line_lem cache h f c i =
      let (cache', run, valid) = normalize_ok matches cache f.name f.key c i.normal_key in
      (
        cache',
        rw (split_pair_at f.name (b' ' ∷ f.value) b':' refl i.no_colon, i.stripped, run),
        valid,
      )

  -- The next line does not go on with a field.
  continued_lem :
      (line : Bytes) (fs : List Field)
      → All IsField fs
      → continued line (field_lines fs) ≡ (line, field_lines fs)
  unfolding continued
  continued_lem line [] h = refl
  continued_lem line (f ∷ fs) (i, h) = starts f.name i.starts (b':' ∷ b' ' ∷ f.value)
    where
      starts :
          (n : Bytes)
          → StartsField n
          → (s : Bytes)
          → continued line ((n ++ s) ∷ field_lines fs) ≡ (line, (n ++ s) ∷ field_lines fs)
      starts [] e s = elim e [ ]
      starts (c ∷ n) e s = rw (e)

  not_nil : (n s : Bytes) → StartsField n → is_nil (n ++ s) ≡ false
  not_nil [] s e = elim e [ ]
  not_nil (c ∷ n) s e = refl

  parse_lines_lem :
      (fuel : ℕ) (cache : Cache) (h : Headers) (fs : List Field)
      → IsCache matches cache
      → All IsField fs
      → length fs + 1 < fuel
      → (cache' : Cache) × (parse_lines matches fuel cache h (field_lines fs)
          ≡ ok (add_all h fs, cache'))
        × IsCache matches cache'
  unfolding parse_lines add_all
  parse_lines_lem zero cache h fs c i e = absurd (omega arith)
  parse_lines_lem (suc zero) cache h fs c i e = absurd (omega arith)
  parse_lines_lem (suc (suc fuel)) cache h [] c i e = (cache, refl, c)
  parse_lines_lem (suc (suc fuel)) cache h (f ∷ fs) c (i, is) e =
      let (cache', run, valid) = add_line_lem cache h f c i in
      let (last, more, w) =
        parse_lines_lem (suc fuel) cache' (assign f.key (joined (lookup f.key h) (text f.value)) h)
          fs valid is (omega arith) in
      (
        last,
        rw (not_nil f.name (b':' ∷ b' ' ∷ f.value) i.starts, continued_lem (line_of f) fs is, run)
            more,
        w,
      )

  pub lines-All : (fs : List Field) → All IsField fs → All IsLine (field_lines fs)
  lines-All [] h = (tt, tt)
  lines-All (f ∷ fs) (i, h) = (
    All-append (λ c. is_break c ≡ false) f.name (b':' ∷ b' ' ∷ f.value) i.name_line
        (refl, (refl, i.value_line)),
    lines-All fs h,
  )

  length-field_lines : (fs : List Field) → length (field_lines fs) ≡ length fs + 1
  length-field_lines [] = refl
  length-field_lines (f ∷ fs) = omega (arith, length-field_lines fs)

  pub parse_at :
      (cache : Cache) (fs : List Field)
      → IsCache matches cache
      → All IsField fs
      → (cache' : Cache) × (parse matches cache (text (block ([] ∷ field_lines fs)))
          ≡ ok (add_all [] fs, cache'))
        × IsCache matches cache'
  unfolding parse
  parse_at cache fs c h =
      let (cache', run, valid) =
        parse_lines_lem (length (field_lines fs) + 1) cache [] fs c h
          (omega (arith, length-field_lines fs)) in
      (
        cache',
        rw
            (
              split_lines-block ([] ∷ field_lines fs) (tt, lines-All fs h),
              one_more (length (field_lines fs)),
            )
            run,
        valid,
      )
    where
      one_more : (n : ℕ) → suc n + 1 ≡ suc (n + 1)
      one_more n = omega arith

  -- `get` on the map that the fields make
  pub get_field :
      (cache : Cache) (fs : List Field) (name key : Bytes) (default : Str)
      → IsCache matches cache
      → normal matches name ≡ ok key
      → (last : Cache) × (get matches cache (add_all [] fs) name default
          ≡ ok (elim (values_at key none fs) [ none ↦ default | some v ↦ v ], last))
        × IsCache matches last
  unfolding get
  get_field cache fs name key default c e =
      let (last, run, valid) = normalize_ok matches cache name key c e in
      let found : lookup key (add_all [] fs) ≡ values_at key none fs =
        unfold lookup in lookup-add_all key [] fs in
      (last, rw (run, found, get) refl, valid)

  -- `has` on the map that the fields make
  pub has_field :
      (cache : Cache) (fs : List Field) (name key : Bytes)
      → IsCache matches cache
      → normal matches name ≡ ok key
      → (last : Cache) × (has matches cache (add_all [] fs) name
          ≡ ok (elim (values_at key none fs) [ none ↦ false | some v ↦ true ], last))
        × IsCache matches last
  unfolding has
  has_field cache fs name key c e =
      let (last, run, valid) = normalize_ok matches cache name key c e in
      let found : lookup key (add_all [] fs) ≡ values_at key none fs =
        unfold lookup in lookup-add_all key [] fs in
      (last, rw (run, found, has) refl, valid)
