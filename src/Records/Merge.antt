-- ===== src/Records/Merge.antt =====
-- About `reduce` (app/lib/indexer.ts), field by field.
use duniter.Base.{
  ◌≡◌, refl, ◌∙◌, sym, false, String, List, [], ◌∷◌, ◌++◌, arith, str_eq, str_eq_iff, if◌then◌else◌,
  includes,
}
use duniter.Records.{
  Field, undefined, null, value, Row, get, put, assign, assign_all, keys, reduce_from, reduce,
}

abbrev pub merge : Field → Field → Field
merge old (value v) = value v
merge undefined null = null
merge old null = old
merge old undefined = old

-- What a list of rows says about a key.
abbrev pub merged : String → List Row → Field
merged k [] = undefined
merged k (r ∷ rs) = merge (get k r) (merged k rs)

pub merge_assoc : (f g h : Field) → merge (merge f g) h ≡ merge f (merge g h)
merge_assoc f g h = ground arith

pub undefined-merge : (f : Field) → merge undefined f ≡ f
undefined-merge f = ground arith

pub merge-undefined : (f : Field) → merge f undefined ≡ f
merge-undefined f = ground arith

get-put :
    (k j : String) (f : Field) (r : Row) → get j (put k f r) ≡ (if str_eq k j then f else get j r)
unfolding get put
get-put k j f [] = refl
get-put k j f ((i, g) ∷ r) =
    ground (arith, str_eq_iff k j, str_eq_iff i k, str_eq_iff i j, get-put k j f r)

get-assign :
    (k j : String) (f : Field) (r : Row)
    → get j (assign k f r) ≡ (if str_eq k j then merge (get j r) f else get j r)
unfolding assign
get-assign k j undefined r = ground (arith, str_eq_iff k j)
get-assign k j null r = ground (arith, str_eq_iff k j, get-put k j null r)
get-assign k j (value v) r = ground (arith, str_eq_iff k j, get-put k j (value v) r)

merge_idem : (f g : Field) → merge (merge f g) g ≡ merge f g
merge_idem f g = ground arith

get-assign_all :
    (record' : Row) (ks : List String) (j : String) (obj : Row)
    → get j (assign_all record' ks obj)
      ≡ (if includes j ks then merge (get j obj) (get j record') else get j obj)
unfolding assign_all
get-assign_all record' [] j obj = refl
get-assign_all record' (k ∷ ks) j obj = ground (
  arith,
  str_eq_iff k j,
  get-assign_all record' ks j (assign k (get k record') obj),
  get-assign k j (get k record') obj,
  merge_idem (get j obj) (get j record'),
)

get-absent : (j : String) (r : Row) → includes j (keys r) ≡ false → get j r ≡ undefined
unfolding get
get-absent j [] h = refl
get-absent j ((k, f) ∷ r) h = ground (arith, get-absent j r)

get-assign_row :
    (r : Row) (j : String) (obj : Row)
    → get j (assign_all r (keys r) obj) ≡ merge (get j obj) (get j r)
get-assign_row r j obj =
    ground (arith, get-assign_all r (keys r) j obj, get-absent j r, merge-undefined (get j obj))

get-reduce_from :
    (j : String) (obj : Row) (rs : List Row)
    → get j (reduce_from obj rs) ≡ merge (get j obj) (merged j rs)
unfolding reduce_from
get-reduce_from j obj [] = sym (merge-undefined _)
get-reduce_from j obj (r ∷ rs) =
    get-reduce_from j (assign_all r (keys r) obj) rs
    ∙ (rw (get-assign_row r j obj) (merge_assoc (get j obj) (get j r) (merged j rs)))

-- `reduce` keeps, for every key, the last value that is not null among the rows; null if there is
-- none but some row has null; undefined otherwise.
pub get-reduce : (k : String) (rs : List Row) → get k (reduce rs) ≡ merged k rs
unfolding reduce get
get-reduce k rs = get-reduce_from k [] rs ∙ undefined-merge (merged k rs)

pub merged-append :
    (k : String) (xs ys : List Row) → merged k (xs ++ ys) ≡ merge (merged k xs) (merged k ys)
merged-append k [] ys = sym (undefined-merge _)
merged-append k (x ∷ xs) ys = rw (merged-append k xs ys) (sym (merge_assoc (get k x) _ _))
