-- ===== src/Switcher/Longest.antt =====
-- About `findLongestChain` and `findPotentialSuites` (app/lib/blockchain/Switcher.ts): the height of
-- the retained chain, and the rounds of the walk.
use duniter.Base.{
  ℕ, zero, suc, ◌+◌, ◌≤◌, ◌≡◌, refl, Bool, true, false, String, Option, none, some, List, [], ◌∷◌,
  ◌++◌, last?, reverse, arith, ltb, if◌then◌else◌,
}
use duniter.Base.Int.{ℤ, pos, ◌-ℤ◌}
use duniter.Switcher.{SwitchBlock, SwitcherDao, Stamp, fork_point, longer}
use duniter.Switcher.Suites.{
  Ending, rooted, missing, too_long, has_stamp, walk, unless_invalid, now_known,
}
use duniter.Switcher.Trials.{Chain}
use duniter.Switcher.Restored.{from_fork, best}

abbrev HeadReaches : ℕ → Option SwitchBlock → Type 0
HeadReaches n none = ⊥
HeadReaches n (some top) = n ≤ top.number

-- The chain has a head with at least the number.
abbrev pub Reaches : ℕ → Option (List SwitchBlock) → Type 0
Reaches n none = ⊥
Reaches n (some l) = HeadReaches n (last? l)

longer_keeps :
    (n : ℕ) (longest : Option (List SwitchBlock)) (a : List SwitchBlock)
    → Reaches n longest
    → Reaches n (longer longest a)
unfolding longer
longer_keeps n none a h = absurd h
longer_keeps n (some l) a h = ground arith

longer_takes :
    (n : ℕ) (longest : Option (List SwitchBlock)) (a : List SwitchBlock)
    → Reaches n (some a)
    → Reaches n (longer longest a)
unfolding longer
longer_takes n none a h = ground arith
longer_takes n (some l) a h = ground arith

if_false : {A : Type 0} (b : Bool) (x y : A) → b ≡ false → (if b then x else y) ≡ y
if_false b x y h = ground arith

before_is_next : (p q : SwitchBlock) → pos q.number ≡ fork_point p → p.number ≡ q.number + 1
unfolding ◌-ℤ◌
before_is_next p q h = ground arith

-- A walk and what it ends with.
abbrev Walk : Type 0
Walk = Ending × List SwitchBlock × List Stamp

-- Two rounds agree if what they go on with agrees.
round_agrees :
    (in_window : Bool) (root next : Option SwitchBlock) (at_root lost out : Walk)
    (f g : SwitchBlock → Walk)
    → ((q : SwitchBlock) → next ≡ some q → f q ≡ g q)
    → (if in_window
        then elim root [ some _ ↦ at_root | none ↦ elim next [ none ↦ lost | some q ↦ f q ] ]
        else out)
      ≡ (if in_window
          then elim root [ some _ ↦ at_root | none ↦ elim next [ none ↦ lost | some q ↦ g q ] ]
          else out)
round_agrees true none none a l o f g h = refl
round_agrees true none (some q) a l o f g h = h q refl
round_agrees true (some r) next a l o f g h = refl
round_agrees false root next a l o f g h = refl

not_below : (m n : ℕ) → n ≤ m → ltb m n ≡ false
not_below m n h = ground arith

module _ (accepts : Chain → SwitchBlock → Bool) (c : Chain) where
  best_keeps :
      (n : ℕ) (longest : Option (List SwitchBlock)) (suites : List (List SwitchBlock))
      → Reaches n longest
      → Reaches n (best accepts c longest suites)
  best_keeps n longest [] h = h
  best_keeps n longest (suite ∷ suites) h =
      best_keeps n (longer longest (from_fork accepts c (reverse suite))) suites
        (longer_keeps n longest (from_fork accepts c (reverse suite)) h)

  -- Whatever number the blocks that the blockchain accepts of one of the suites reach, the head of
  -- the retained chain reaches.
  pub best_highest :
      (n : ℕ) (before : List (List SwitchBlock)) (suite : List SwitchBlock)
      (suites : List (List SwitchBlock)) (longest : Option (List SwitchBlock))
      → Reaches n (some (from_fork accepts c (reverse suite)))
      → Reaches n (best accepts c longest (before ++ suite ∷ suites))
  best_highest n [] suite suites longest h =
      best_keeps n (longer longest (from_fork accepts c (reverse suite))) suites
        (longer_takes n longest (from_fork accepts c (reverse suite)) h)
  best_highest n (x ∷ before) suite suites longest h =
      best_highest n before suite suites (longer longest (from_fork accepts c (reverse x))) h

module _ {S : Type 0} (dao : SwitcherDao S)
    (avg_gen_time fork_window_size switch_on_head_advance : ℕ)
    (numbered : (s : S) (n : ℤ) (h : String) (b : SwitchBlock)
      → dao.get_absolute_block s n h ≡ some b
      → pos b.number ≡ n) where
  was_valid :
      (forks : List Stamp) (o : Option SwitchBlock) (q : SwitchBlock)
      → unless_invalid dao avg_gen_time fork_window_size switch_on_head_advance forks o ≡ some q
      → o ≡ some q
  was_valid forks none q e = e
  was_valid forks (some p) q e = ground arith

  abbrev walked :
      S → List Stamp → SwitchBlock → ℕ → SwitchBlock → List SwitchBlock → List Stamp → Walk
  walked = walk dao avg_gen_time fork_window_size switch_on_head_advance

  out_of_window :
      (s : S) (forks : List Stamp) (candidate : SwitchBlock) (k : ℕ) (p : SwitchBlock)
      (suite : List SwitchBlock) (known : List Stamp)
      → p.number + fork_window_size ≤ candidate.number
      → walked s forks candidate k p suite known ≡ (too_long, suite, known)
  unfolding walk
  out_of_window s forks candidate zero p suite known h = refl
  out_of_window s forks candidate (suc k) p suite known h =
      if_false _ _ _ (not_below candidate.number (p.number + fork_window_size) h)

  -- The block that a round goes on with has the number before.
  next_number :
      (s : S) (forks : List Stamp) (p q : SwitchBlock)
      → unless_invalid dao avg_gen_time fork_window_size switch_on_head_advance forks
          (dao.get_absolute_block s (fork_point p) p.previous_hash)
        ≡ some q
      → p.number ≡ q.number + 1
  next_number s forks p q e = before_is_next p q (
      numbered s (fork_point p) p.previous_hash q
        (was_valid forks (dao.get_absolute_block s (fork_point p) p.previous_hash) q e))

  -- If the data access object gives the block of the number that it is asked for, rounds beyond the numbers that are left in the fork window change nothing.
  pub walk_enough :
      (s : S) (forks : List Stamp) (candidate : SwitchBlock) (r m : ℕ) (p : SwitchBlock)
      (suite : List SwitchBlock) (known : List Stamp)
      → r ≤ m
      → p.number + fork_window_size ≤ candidate.number + r
      → walked s forks candidate m p suite known ≡ walked s forks candidate r p suite known
  unfolding walk
  walk_enough s forks candidate zero m p suite known le h =
      out_of_window s forks candidate m p suite known (omega arith)
  walk_enough s forks candidate (suc r) zero p suite known le h = absurd (omega arith)
  walk_enough s forks candidate (suc r) (suc m) p suite known le h =
      let stored = dao.get_absolute_block s (fork_point p) p.previous_hash in
      let longer_suite = suite ++ p ∷ [] in
      let more = now_known dao avg_gen_time fork_window_size switch_on_head_advance known stored in
      round_agrees (ltb candidate.number (p.number + fork_window_size))
        (if has_stamp (fork_point p, p.previous_hash) known
          then none
          else dao.get_blockchain_block s (fork_point p) p.previous_hash)
        (unless_invalid dao avg_gen_time fork_window_size switch_on_head_advance forks stored)
        (rooted, longer_suite, known) (missing, longer_suite, more) (too_long, suite, known)
        (λ q. walked s forks candidate m q longer_suite more)
        (λ q. walked s forks candidate r q longer_suite more)
        (λ q e.
          walk_enough s forks candidate r m q longer_suite more (omega arith)
            (omega (arith, next_number s forks p q e)))
