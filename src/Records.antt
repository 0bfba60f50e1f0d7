-- ===== src/Records.antt =====
-- app/lib/indexer.ts, `reduce`, `reduceOrNull`, `reduceForDBTrimming` and `reduceBy`: the rows of an
-- index are JavaScript objects, folded into one view of what they say about a key.
pub mod Merge
pub mod Trimming
pub mod Groups
use duniter.Base.{
  ℕ, ◌<◌, Bool, true, false, String, Option, none, some, List, [], ◌∷◌, ◌++◌, map, foldl, length,
  ltb, leb, str_eq, if◌then◌else◌, filter_by,
}
use duniter.Base.Outcome.{Outcome, done, throw}

-- A value that is neither null nor undefined.
pub data Value : Type 0 where
  number : ℕ → Value
  text : String → Value
  boolean : Bool → Value

-- What `record[k]` may give.
pub data Field : Type 0 where
  undefined null : Field
  value : Value → Field

-- An object: its own keys, in order.
abbrev pub Row : Type 0
Row = List (String × Field)

unfoldable pub get : String → Row → Field
get k [] = undefined
get k ((j, f) ∷ r) = if str_eq j k then f else get k r

-- `obj[k] = f`
unfoldable pub put : String → Field → Row → Row
put k f [] = (k, f) ∷ []
put k f ((j, g) ∷ r) = if str_eq j k then (j, f) ∷ r else (j, g) ∷ put k f r

abbrev pub is_undefined : Field → Bool
is_undefined undefined = true
is_undefined _ = false

-- The body of the loop over the keys, with `record[k]` at hand.
unfoldable pub assign : String → Field → Row → Row
assign k (value v) obj = put k (value v) obj
assign k null obj = if is_undefined (get k obj) then put k null obj else obj
assign k undefined obj = obj

-- The loop over the keys of `record`.
unfoldable pub assign_all : Row → List String → Row → Row
assign_all record' [] obj = obj
assign_all record' (k ∷ ks) obj = assign_all record' ks (assign k (get k record') obj)

abbrev pub keys : Row → List String
keys = map (λ e. e.0)

unfoldable pub reduce_from : Row → List Row → Row
reduce_from obj [] = obj
reduce_from obj (r ∷ rs) = reduce_from (assign_all r (keys r) obj) rs

unfoldable pub reduce : List Row → Row
unfolding reduce_from
reduce rs = reduce_from [] rs

unfoldable pub reduce_or_null : List Row → Option Row
reduce_or_null [] = none
reduce_or_null (r ∷ rs) = some (reduce (r ∷ rs))

-- `r.writtenOn`; a comparison with what is not a number is false.
unfoldable pub written_on : Row → Option ℕ
written_on r = elim (get "writtenOn" r) [
  | value v ↦ elim v [ number n ↦ some n | _ ↦ none ]
  | _ ↦ none
]

unfoldable pub is_below : ℕ → Row → Bool
is_below bound r = elim (written_on r) [ none ↦ false | some n ↦ ltb n bound ]

unfoldable pub is_from : ℕ → Row → Bool
is_from bound r = elim (written_on r) [ none ↦ false | some n ↦ leb bound n ]

unfoldable pub reduce_for_db_trimming : List Row → ℕ → Outcome (List Row)
reduce_for_db_trimming [] bound = throw "INVALID_TRIMMABLE_DATA"
reduce_for_db_trimming (r ∷ rs) bound =
    done (reduce (filter_by (is_below bound) (r ∷ rs)) ∷ filter_by (is_from bound) (r ∷ rs))

-- `map[id] = map[id] || []; map[id].push(entry)`. The groups stay in the order of their first row: an
-- engine would list first the identifiers that read as whole numbers, which those of the callers (a
-- public key, or several fields joined by "-") are not.
unfoldable pub push_to_group : String → Row → List (String × List Row) → List (String × List Row)
push_to_group k r [] = (k, r ∷ []) ∷ []
push_to_group k r ((j, g) ∷ m) =
    if str_eq j k then (j, g ++ r ∷ []) ∷ m else (j, g) ∷ push_to_group k r m

-- How the engine turns the fields into texts and joins them by "-" is a parameter.
module _ (join_fields : List Field → String) (properties : List String) where
  unfoldable pub id_of : Row → String
  id_of r = join_fields (map (λ k. get k r) properties)

  unfoldable pub groups_from : List (String × List Row) → List Row → List (String × List Row)
  groups_from m [] = m
  groups_from m (r ∷ rs) = groups_from (push_to_group (id_of r) r m) rs

  unfoldable pub reduce_by : List Row → List Row
  reduce_by rs = map (λ g. reduce g.1) (groups_from [] rs)
