-- ===== src/Switcher/Suites.antt =====
-- app/lib/blockchain/Switcher.ts, `findPotentialSuites` and `tryToFork`.
use duniter.Base.{
  ℕ, zero, suc, ◌+◌, ◌*◌, Bool, String, Option, none, some, List, [], ◌∷◌, ◌++◌, map, last?, ltb,
  leb, ◌&&◌, ◌||◌, ◌==◌, str_eq, some_of, includes, if◌then◌else◌,
}
use duniter.Base.Int.{eqb_ℤ}
use duniter.Base.Outcome.{Outcome, done, throw}
use duniter.Switcher.{
  SwitchBlock, SwitcherDao, Stamp, stamp, after, fork_point, find_longest_chain, switch_on_chain,
}

-- How the walk down from a candidate ends: at a block of the blockchain, at a block that is not
-- known or known as invalid, or out of the fork window.
pub data Ending : Type 0 where
  rooted missing too_long : Ending

abbrev pub has_stamp : Stamp → List Stamp → Bool
has_stamp (n, h) = some_of (λ t. eqb_ℤ n t.0 && str_eq h t.1)

unfoldable pub suites_contains : List (List SwitchBlock) → SwitchBlock → Bool
suites_contains suites block =
    some_of (some_of (λ (b : SwitchBlock). b.number == block.number && str_eq b.hash block.hash))
      suites

-- `Underscore.sortBy(…, (element) => -element.number)`, which keeps the order of equal numbers.
insert_high : SwitchBlock → List SwitchBlock → List SwitchBlock
insert_high b [] = b ∷ []
insert_high b (x ∷ xs) = if leb x.number b.number then b ∷ x ∷ xs else x ∷ insert_high b xs

unfoldable pub sort_high : List SwitchBlock → List SwitchBlock
unfolding insert_high
sort_high [] = []
sort_high (b ∷ bs) = insert_high b (sort_high bs)

-- `avgGenTime`, `forkWindowSize` and `switchOnHeadAdvance` of the constructor.
module _ {S : Type 0} (dao : SwitcherDao S)
    (avg_gen_time fork_window_size switch_on_head_advance : ℕ) where
  -- A block of the sandbox, if it is not known as invalid.
  abbrev pub unless_invalid : List Stamp → Option SwitchBlock → Option SwitchBlock
  unless_invalid forks none = none
  unless_invalid forks (some p) = if has_stamp (stamp p) forks then none else some p

  abbrev pub now_known : List Stamp → Option SwitchBlock → List Stamp
  now_known known none = known
  now_known known (some p) = stamp p ∷ known

  -- The loop that follows the previous blocks of a candidate, with the rounds that are left. One
  -- round for each number of the window is enough.
  unfoldable pub walk :
      S
      → List Stamp
      → SwitchBlock
      → ℕ
      → SwitchBlock
      → List SwitchBlock
      → List Stamp
      → Ending × List SwitchBlock × List Stamp
  walk s forks candidate zero previous suite known = (too_long, suite, known)
  walk s forks candidate (suc rounds) previous suite known =
      let longer_suite = suite ++ previous ∷ [] in
      let number = fork_point previous in
      let hash = previous.previous_hash in
      let root =
        if has_stamp (number, hash) known then none else dao.get_blockchain_block s number hash in
      let stored = dao.get_absolute_block s number hash in
      if ltb candidate.number (previous.number + fork_window_size)
      then elim root [
        | some _ ↦ (rooted, longer_suite, known)
        | none ↦ elim (unless_invalid forks stored) [
          | none ↦ (missing, longer_suite, now_known known stored)
          | some p ↦ walk s forks candidate rounds p longer_suite (now_known known stored)
        ]
      ]
      else (too_long, suite, known)

  -- The loop over the candidates, with the suites, the known fork blocks and the hashes of the
  -- invalid blocks so far.
  unfoldable pub scan :
      S
      → List Stamp
      → List SwitchBlock
      → List (List SwitchBlock)
      → List Stamp
      → List String
      → List (List SwitchBlock)
  unfolding walk suites_contains
  scan s forks [] suites known invalids = suites
  scan s forks (candidate ∷ cs) suites known invalids =
      let (ending, suite, more) = walk s forks candidate fork_window_size candidate [] known in
      if includes candidate.hash invalids || suites_contains suites candidate
      then scan s forks cs suites known invalids
      else elim ending [
        | rooted ↦ scan s forks cs (suites ++ suite ∷ []) more invalids
        | missing ↦ scan s forks cs suites more (map (λ b. b.hash) suite ++ invalids)
        | too_long ↦ scan s forks cs suites more invalids
      ]

  unfoldable pub find_potential_suites : S → List Stamp → ℕ → ℕ → List (List SwitchBlock)
  unfolding scan sort_high
  find_potential_suites s forks number_start time_start =
      let potentials =
        sort_high
          (dao.get_potentials s number_start time_start (number_start + fork_window_size)) in
      scan s forks potentials [] (map stamp potentials) []

  -- The 3-3 rule, on the longest chain.
  unfoldable pub conclude : ℕ → ℕ → Option (List SwitchBlock) → S → Outcome (Option SwitchBlock) × S
  conclude number_start time_start none t = (done none, t)
  conclude number_start time_start (some chain) t = elim (last? chain) [
    | none ↦ (throw "Cannot read property 'number' of undefined", t)
    | some head ↦
        if leb number_start head.number && leb time_start head.median_time
        then after (switch_on_chain dao chain t) (λ _ u. (done (dao.get_current u), u))
        else (done none, t)
  ]

  unfoldable pub try_to_fork : S → List Stamp → (Outcome (Option SwitchBlock) × S) × List Stamp
  unfolding find_potential_suites conclude
  try_to_fork s forks = elim (dao.get_current s) [
    | none ↦ ((done none, s), forks)
    | some current ↦
        let number_start = current.number + switch_on_head_advance in
        let time_start = current.median_time + switch_on_head_advance * avg_gen_time in
        let suites = find_potential_suites s forks number_start time_start in
        let ((longest, t), more) = find_longest_chain dao none suites s forks in
        elim longest [
          | throw e ↦ ((throw e, t), more)
          | done chain ↦ (conclude number_start time_start chain t, more)
        ]
  ]
