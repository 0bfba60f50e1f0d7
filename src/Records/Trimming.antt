-- ===== src/Records/Trimming.antt =====
-- About `reduceForDBTrimming` (app/lib/indexer.ts): the history of a key before and after.
use native.Mathlib.Decide.{dec_le}
use duniter.Base.{
  ℕ, suc, ◌≤◌, ◌<◌, ◌≡◌, refl, ap, ◌∙◌, sym, true, false, String, some, List, [], ◌∷◌, ◌++◌, arith,
  filter_by, length,
}
use duniter.Base.Outcome.{done}
use duniter.Records.{Row, get, reduce, written_on, is_below, is_from, reduce_for_db_trimming}
use duniter.Records.Merge.{merge, merged, get-reduce, merged-append}

-- The rows carry block numbers, from `n` upwards, and none comes before an older one.
abbrev pub IsChronological : ℕ → List Row → Type 0
IsChronological n [] = Unit
IsChronological n (r ∷ rs) = (m : ℕ) × (written_on r ≡ some m) × (n ≤ m) × IsChronological m rs

none_below :
    (bound n : ℕ) (rs : List Row)
    → IsChronological n rs
    → bound ≤ n
    → (filter_by (is_below bound) rs ≡ []) × (filter_by (is_from bound) rs ≡ rs)
unfolding is_below is_from
none_below bound n [] h le = (refl, refl)
none_below bound n (r ∷ rs) (m, e, nm, h) le = ground (arith, none_below bound m rs h)

test_old :
    (bound m : ℕ) (r : Row)
    → written_on r ≡ some m
    → m < bound
    → (is_below bound r ≡ true) × (is_from bound r ≡ false)
unfolding is_below is_from
test_old bound m r e h = ground arith

test_new :
    (bound m : ℕ) (r : Row)
    → written_on r ≡ some m
    → bound ≤ m
    → (is_below bound r ≡ false) × (is_from bound r ≡ true)
unfolding is_below is_from
test_new bound m r e h = ground arith

split_at_bound :
    (bound n : ℕ) (rs : List Row)
    → IsChronological n rs
    → filter_by (is_below bound) rs ++ filter_by (is_from bound) rs ≡ rs
split_at_bound bound n [] h = refl
split_at_bound bound n (r ∷ rs) (m, e, nm, h) = elim (dec_le bound m) [
  | yes new ↦
      let (a, b) = test_new bound m r e new in
      let (c, d) = none_below bound m rs h new in rw (a, b, c, d) refl
  | no old ↦
      let (a, b) = test_old bound m r e (omega arith) in
      rw (a, b) (ap (λ xs. r ∷ xs) (split_at_bound bound m rs h))
]

-- Trimming a chronological history that is not empty succeeds, leaves one reduced row before the
-- rows from the given block on, and reduces to the same value at every key.
pub reduce_for_db_trimming-reduce :
    (n bound : ℕ) (r : Row) (rs : List Row)
    → IsChronological n (r ∷ rs)
    → (trimmed : List Row) × (reduce_for_db_trimming (r ∷ rs) bound ≡ done trimmed)
      × (length trimmed ≡ suc (length (filter_by (is_from bound) (r ∷ rs))))
      × ((k : String) → get k (reduce trimmed) ≡ get k (reduce (r ∷ rs)))
unfolding reduce_for_db_trimming
reduce_for_db_trimming-reduce n bound r rs h =
    let old = filter_by (is_below bound) (r ∷ rs) in
    let new = filter_by (is_from bound) (r ∷ rs) in
    (
      reduce old ∷ new,
      refl,
      refl,
      λ k.
          get-reduce k (reduce old ∷ new)
          ∙ ap (λ f. merge f (merged k new)) (get-reduce k old)
          ∙ sym (merged-append k old new)
          ∙ ap (merged k) (split_at_bound bound n (r ∷ rs) h)
          ∙ sym (get-reduce k (r ∷ rs)),
    )
