-- ===== src/Tests/Objects.antt =====
-- Rows as objects: a life of an identity, reduced, trimmed and grouped.
use duniter.Base.{
  arith, true, false, suc, ◌≡◌, refl, String, List, [], ◌∷◌, map, length, filter_by, uniq,
}
use duniter.Base.Outcome.{done}
use duniter.Records.{
  Field, null, value, number, text, boolean, Row, get, put, assign, assign_all, reduce_from, reduce,
  is_from, id_of, written_on, reduce_by, reduce_for_db_trimming,
}
use duniter.Records.Merge.{merged, get-reduce}
use duniter.Records.Trimming.{IsChronological, reduce_for_db_trimming-reduce}
use duniter.Records.Groups.{members, reduce_by-members}

abbrev created_row : Row
created_row =
    ("writtenOn", value (number 3))
    ∷ ("pub", value (text "alice"))
    ∷ ("member", value (boolean true))
    ∷ ("kick", null)
    ∷ []

abbrev kicked_row : Row
kicked_row =
    ("writtenOn", value (number 5))
    ∷ ("pub", value (text "alice"))
    ∷ ("member", null)
    ∷ ("kick", value (boolean true))
    ∷ []

abbrev excluded_row : Row
excluded_row =
    ("writtenOn", value (number 9))
    ∷ ("pub", value (text "alice"))
    ∷ ("member", value (boolean false))
    ∷ []

abbrev life : List Row
life = created_row ∷ kicked_row ∷ excluded_row ∷ []

-- The text of a public key, and nothing for what is no text.
abbrev join_texts : List Field → String
join_texts [] = ""
join_texts (value (text s) ∷ fs) = s
join_texts (_ ∷ fs) = ""

reduce-life :
    (get "member" (reduce life) ≡ value (boolean false))
    × (get "kick" (reduce life) ≡ value (boolean true))
unfolding reduce reduce_from assign_all assign get put
reduce-life = (refl, refl)

get-reduce_example : get "member" (reduce life) ≡ merged "member" life
get-reduce_example = get-reduce "member" life

life-IsChronological : IsChronological 0 life
unfolding written_on get
life-IsChronological = (3, refl, omega arith, (5, refl, omega arith, (9, refl, omega arith, tt)))

reduce_for_db_trimming-reduce_example :
    (trimmed : List Row) × (reduce_for_db_trimming life 6 ≡ done trimmed)
    × (length trimmed ≡ suc (length (filter_by (is_from 6) life)))
    × ((k : String) → get k (reduce trimmed) ≡ get k (reduce life))
reduce_for_db_trimming-reduce_example =
    reduce_for_db_trimming-reduce 0 6 created_row (kicked_row ∷ excluded_row ∷ [])
      life-IsChronological

reduce_by-members_example :
    reduce_by join_texts ("pub" ∷ []) life
    ≡ map
        (λ i. reduce (members (id_of join_texts ("pub" ∷ [])) life i))
        (uniq (map (id_of join_texts ("pub" ∷ [])) life))
reduce_by-members_example = reduce_by-members join_texts ("pub" ∷ []) life
