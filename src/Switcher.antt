-- ===== src/Switcher.antt =====
-- app/lib/blockchain/Switcher.ts: finding a longer chain among the known blocks and switching to it.
-- The data access object is an interface of the source, taken as a record of its functions; a call
-- that may throw gives its outcome and the state that it leaves.
pub mod Suites
pub mod Trials
pub mod Restored
pub mod Rooted
pub mod Adopted
pub mod Longest
use duniter.Base.{
  ℕ, ◌+◌, ◌≤◌, Bool, true, false, String, Option, none, some, List, [], ◌∷◌, ◌++◌, map, last?, ltb,
  leb, ◌&&◌, reverse, if◌then◌else◌,
}
use duniter.Base.Int.{ℤ, pos, ◌-ℤ◌}
use duniter.Base.Outcome.{Outcome, done, throw}

pub record SwitchBlock : Type 0 where
  pub number : ℕ
  pub hash : String
  pub previous_hash : String
  pub median_time : ℕ

pub record SwitcherDao (S : Type 0) : Type 0 where
  pub get_current : S → Option SwitchBlock
  pub get_potentials : S → ℕ → ℕ → ℕ → List SwitchBlock
  pub get_blockchain_block : S → ℤ → String → Option SwitchBlock
  pub get_absolute_block : S → ℤ → String → Option SwitchBlock
  pub revert_to : S → ℤ → Outcome (List SwitchBlock) × S
  pub add_block : S → SwitchBlock → Outcome SwitchBlock × S

-- `[number, hash].join("-")`
abbrev pub Stamp : Type 0
Stamp = ℤ × String

abbrev pub stamp : SwitchBlock → Stamp
stamp b = (pos b.number, b.hash)

-- What comes after a call that may throw.
abbrev pub after : {S A B : Type 0} → Outcome A × S → (A → S → Outcome B × S) → Outcome B × S
after (done a, s) k = k a s
after (throw e, s) k = (throw e, s)

-- The number of the block before.
abbrev pub fork_point : SwitchBlock → ℤ
fork_point b = pos b.number -ℤ pos 1

-- The longest chain after a trial: the one with the highest head.
unfoldable pub longer : Option (List SwitchBlock) → List SwitchBlock → Option (List SwitchBlock)
longer longest added = elim (last? added) [
  | none ↦ longest
  | some head ↦ elim longest [
    | none ↦ some added
    | some chain ↦ elim (last? chain) [
      | none ↦ some added
      | some top ↦ if ltb top.number head.number then some added else some chain
    ]
  ]
]

module _ {S : Type 0} (dao : SwitcherDao S) where
  -- `for (const b of chain) await this.dao.addBlock(b)`
  unfoldable pub add_all : List SwitchBlock → S → Outcome (Unit {0}) × S
  add_all [] s = (done tt, s)
  add_all (b ∷ bs) s = after (dao.add_block s b) (λ _ t. add_all bs t)

  -- The loop that adds the blocks of a suite until one is refused: the blocks that were added, the
  -- one that was refused, and the state.
  unfoldable pub try_chain : List SwitchBlock → S → List SwitchBlock × List Stamp × S
  try_chain [] s = ([], [], s)
  try_chain (b ∷ bs) s =
      let (o, t) = dao.add_block s b in
      let (added, refused, u) = try_chain bs t in
      elim o [ done _ ↦ (b ∷ added, refused, u) | throw e ↦ ([], stamp b ∷ [], t) ]

  -- The blocks that were added are popped, if there are any.
  unfoldable pub roll_back : ℤ → List SwitchBlock → S → Outcome (List SwitchBlock) × S
  roll_back n [] s = (done [], s)
  roll_back n (b ∷ bs) s = dao.revert_to s n

  -- One round of `findLongestChain`, on a suite in the order of its numbers.
  unfoldable pub trial :
      Option (List SwitchBlock)
      → List SwitchBlock
      → S
      → List Stamp
      → (Outcome (Option (List SwitchBlock)) × S) × List Stamp
  unfolding try_chain roll_back add_all
  trial longest [] s forks = ((throw "Cannot read property 'number' of undefined", s), forks)
  trial longest (b ∷ bs) s forks =
      let (o, t) = dao.revert_to s (fork_point b) in
      elim o [
        | throw e ↦ ((throw e, t), forks)
        | done reverted ↦
            let (added, refused, u) = try_chain (b ∷ bs) t in
            (
              after (roll_back (fork_point b) added u) (λ _ v.
                  after (add_all (reverse reverted) v) (λ _ w. (done (longer longest added), w))),
              forks ++ refused ++ map stamp added,
            )
      ]

  unfoldable pub find_longest_chain :
      Option (List SwitchBlock)
      → List (List SwitchBlock)
      → S
      → List Stamp
      → (Outcome (Option (List SwitchBlock)) × S) × List Stamp
  find_longest_chain longest [] s forks = ((done longest, s), forks)
  find_longest_chain longest (suite ∷ suites) s forks =
      let ((o, t), more) = trial longest (reverse suite) s forks in
      elim o [
        | throw e ↦ ((throw e, t), more)
        | done better ↦ find_longest_chain better suites t more
      ]

  unfoldable pub switch_on_chain : List SwitchBlock → S → Outcome (Unit {0}) × S
  switch_on_chain [] s = (throw "Cannot read property 'number' of undefined", s)
  switch_on_chain (b ∷ bs) s = after (dao.revert_to s (fork_point b)) (λ _ t. add_all (b ∷ bs) t)
