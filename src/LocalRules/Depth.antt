-- ===== src/LocalRules/Depth.antt =====
-- About `checkMaxTransactionChainingDepth` (app/lib/rules/local_rules.ts): the chains of transactions
-- that the computed depth measures.
use duniter.Base.{
  ℕ, zero, suc, ◌+◌, ◌-◌, ◌≤◌, ◌<◌, max, ◌≡◌, sym, subst, ◌↔◌, ◌⊎◌, inl, inr, true, String, Option,
  none, some, List, [], ◌∷◌, arith, leb,
}
use duniter.Base.Outcome.{Succeeds, Succeeds-require, require}
use duniter.Block.{BlockDto}
use duniter.Index.{SindexEntry, IndexEntry, sindex}
use duniter.LocalRules.Chaining.{
  consumed_output, inputs_of_tx, deepen, deepen_all, get_transaction_depth, max_depth_over,
  get_max_transaction_depth, allowed_depth, check_max_transaction_chaining_depth,
}

-- A property of the transaction that made an output, if there is one.
abbrev AtOutput : (Option String → Type 0) → Option SindexEntry → Type 0
AtOutput P none = ⊥
AtOutput P (some output) = P output.tx

regroup : {A B X Y Z : Type 0} → A ↔ (B ⊎ Z) → B ↔ (X ⊎ Y) → A ↔ (X ⊎ (Y ⊎ Z))
regroup (f, g) (h, k) = (
  λ a. elim (f a) [
    | inl b ↦ elim (h b) [ inl x ↦ inl x | inr y ↦ inr (inl y) ]
    | inr z ↦ inr (inr z)
  ],
  λ s. elim s [
    | inl x ↦ g (inl (k (inl x)))
    | inr r ↦ elim r [ inl y ↦ g (inl (k (inr y))) | inr z ↦ g (inr z) ]
  ],
)

not_first : {A X Y : Type 0} → ¬ X → A ↔ (X ⊎ Y) → A ↔ Y
not_first never (f, g) = (λ a. elim (f a) [ inl x ↦ absurd (never x) | inr y ↦ y ], λ y. g (inr y))

either_over : {X : Type 0} (d m : ℕ) → (5 < m) ↔ X → (5 < max d m) ↔ ((5 < d) ⊎ X)
either_over d m h = ground (arith, h)

last_grows :
    (d : ℕ) (o : Option SindexEntry) → 5 ≤ d → 5 ≤ (elim o [ none ↦ d | some output ↦ d + 1 ])
last_grows d none h = h
last_grows d (some output) h = omega arith

not_over : (m : ℕ) → leb m 5 ≡ true → ¬ (5 < m)
not_over m h = ground arith

within_five : (m : ℕ) → ¬ (5 < m) → leb m 5 ≡ true
within_five m h = ground arith

module _ (rows : List SindexEntry) where
  -- Some input consumes an output of the block whose transaction has the property.
  abbrev pub SomeInput : (Option String → Type 0) → List SindexEntry → Type 0
  SomeInput P [] = ⊥
  SomeInput P (i ∷ inputs) = AtOutput P (consumed_output rows i) ⊎ SomeInput P inputs

  -- The transaction begins a chain of `n` links, each from an input to the transaction of the block
  -- that made the consumed output.
  abbrev pub Links : ℕ → Option String → Type 0
  Links zero tx = Unit
  Links (suc n) tx = SomeInput (Links n) (inputs_of_tx rows tx)

  -- The transaction of some row begins a chain of six links.
  abbrev pub SomeLongChain : List SindexEntry → Type 0
  SomeLongChain [] = ⊥
  SomeLongChain (e ∷ es) = Links 6 e.tx ⊎ SomeLongChain es

  -- One round above the bottom.
  round_over :
      (P : Option String → Type 0) (g : Option String → ℕ)
      → ((t : Option String) → (5 < g t) ↔ P t)
      → (d : ℕ) (o : Option SindexEntry)
      → (5 < (elim o [ none ↦ d | some output ↦ max d (g output.tx) ])) ↔ ((5 < d) ⊎ AtOutput P o)
  round_over P g h d none = ground arith
  round_over P g h d (some output) = ground (arith, h output.tx)

  -- One round at the bottom, where the depth is at least 5.
  round_last :
      (d : ℕ) (o : Option SindexEntry)
      → 5 ≤ d
      → (5 < (elim o [ none ↦ d | some output ↦ d + 1 ])) ↔ ((5 < d) ⊎ AtOutput (λ t. Unit) o)
  round_last d none h = ground arith
  round_last d (some output) h = ground arith

  deepen_all_over :
      (P : Option String → Type 0) (g : Option String → ℕ)
      → ((t : Option String) → (5 < g t) ↔ P t)
      → (d : ℕ) (inputs : List SindexEntry)
      → (5 < deepen_all rows (some g) d inputs) ↔ ((5 < d) ⊎ SomeInput P inputs)
  unfolding deepen_all deepen
  deepen_all_over P g h d [] = ground arith
  deepen_all_over P g h d (i ∷ inputs) =
      regroup (deepen_all_over P g h (deepen rows (some g) d i) inputs)
        (round_over P g h d (consumed_output rows i))

  deepen_all_last :
      (d : ℕ) (inputs : List SindexEntry)
      → 5 ≤ d
      → (5 < deepen_all rows none d inputs) ↔ ((5 < d) ⊎ SomeInput (λ t. Unit) inputs)
  unfolding deepen_all deepen
  deepen_all_last d [] h = ground arith
  deepen_all_last d (i ∷ inputs) h =
      regroup
        (deepen_all_last (deepen rows none d i) inputs (last_grows d (consumed_output rows i) h))
        (round_last d (consumed_output rows i) h)

  -- With some levels left, the depth exceeds 5 exactly when the transaction begins a chain of one
  -- link more than the levels.
  depth-Links :
      (left : ℕ) (tx : Option String)
      → (5 < get_transaction_depth rows left tx) ↔ Links (suc left) tx
  unfolding get_transaction_depth
  depth-Links zero tx =
      not_first (omega arith) (deepen_all_last 5 (inputs_of_tx rows tx) (omega arith))
  depth-Links (suc left) tx = not_first (omega arith) (
      deepen_all_over (Links (suc left)) (get_transaction_depth rows left) (depth-Links left)
        (5 - suc left) (inputs_of_tx rows tx))

  max_depth-SomeLongChain :
      (d : ℕ) (es : List SindexEntry)
      → (5 < max_depth_over rows d es) ↔ ((5 < d) ⊎ SomeLongChain es)
  unfolding max_depth_over
  max_depth-SomeLongChain d [] = ground arith
  max_depth-SomeLongChain d (e ∷ es) =
      regroup (max_depth-SomeLongChain (max d (get_transaction_depth rows 5 e.tx)) es)
        (either_over d (get_transaction_depth rows 5 e.tx) (depth-Links 5 e.tx))

at_most_five : {X : Type 0} (m : ℕ) → (5 < m) ↔ X → (leb m 5 ≡ true) ↔ ¬ X
at_most_five m (to, from) =
    (λ h x. absurd (not_over m h (from x)), λ never. within_five m (λ h. never (to h)))

allowed_five : (block : BlockDto) → 1519862400 < block.median_time → allowed_depth block ≡ 5
allowed_five block h = ground arith

-- Once chaining is active, a block passes the rule exactly when no transaction of its rows begins a
-- chain of six links.
pub check_max_transaction_chaining_depth_iff :
    (block : BlockDto) (index : List IndexEntry)
    → 1519862400 < block.median_time
    → Succeeds (check_max_transaction_chaining_depth block index)
      ↔ ¬ SomeLongChain (sindex index) (sindex index)
unfolding check_max_transaction_chaining_depth get_max_transaction_depth
check_max_transaction_chaining_depth_iff block index active =
    let rows = sindex index in
    let depth = get_max_transaction_depth rows in
    let (to, from) =
      at_most_five depth (not_first (omega arith) (max_depth-SomeLongChain rows 0 rows)) in
    subst
      (λ n.
        Succeeds (require (leb depth n) "The maximum transaction chaining length per block is 5")
        ↔ ¬ SomeLongChain rows rows)
      (sym (allowed_five block active))
      (let (need, give) =
          Succeeds-require (leb depth 5) "The maximum transaction chaining length per block is 5" in
        (λ h. to (need h), λ never. give (from never)))
