-- ===== src/Switcher/Rooted.antt =====
-- About `findPotentialSuites` (app/lib/blockchain/Switcher.ts): where the suites start.
use duniter.Base.{
  ℕ, zero, suc, ◌+◌, ◌≡◌, refl, sym, subst, Bool, true, false, String, Option, none, some, List, [],
  ◌∷◌, ◌++◌, map, reverse, reverse_aux, All, arith, if◌then◌else◌,
}
use duniter.Switcher.{SwitchBlock, SwitcherDao, Stamp, stamp, fork_point}
use duniter.Switcher.Suites.{
  Ending, rooted, missing, too_long, has_stamp, now_known, walk, scan, find_potential_suites,
  sort_high,
}
use duniter.Switcher.Trials.{Chain, IsReached, IsBlockchain}
use duniter.Switcher.Restored.{IsFork}

reverse_snoc :
    (xs q : List SwitchBlock) (x : SwitchBlock)
    → reverse_aux (xs ++ x ∷ []) q ≡ x ∷ reverse_aux xs q
reverse_snoc [] q x = refl
reverse_snoc (y ∷ xs) q x = reverse_snoc xs (y ∷ q) x

All-snoc :
    (P : List SwitchBlock → Type 0) (xs : List (List SwitchBlock)) (x : List SwitchBlock)
    → All P xs
    → P x
    → All P (xs ++ x ∷ [])
All-snoc P [] x h p = (p, tt)
All-snoc P (y ∷ xs) x h p = (h.0, All-snoc P xs x h.1 p)

-- A walk and what it ends with.
abbrev Walk : Type 0
Walk = Ending × List SwitchBlock × List Stamp

-- A property of the four ways in which a round of the walk ends.
round_cases :
    (P : Walk → Type 0) (in_window : Bool) (root next : Option SwitchBlock)
    (at_root lost out : Walk) (onward : SwitchBlock → Walk)
    → ((r : SwitchBlock) → root ≡ some r → P at_root)
    → P lost
    → P out
    → ((p : SwitchBlock) → P (onward p))
    → P (
        if in_window
        then elim root [ some _ ↦ at_root | none ↦ elim next [ none ↦ lost | some p ↦ onward p ] ]
        else out)
round_cases P true none none at_root lost out onward a l o w = l
round_cases P true none (some p) at_root lost out onward a l o w = w p
round_cases P true (some r) next at_root lost out onward a l o w = a r refl
round_cases P false root next at_root lost out onward a l o w = o

module _ {S : Type 0} (dao : SwitcherDao S) (chain : S → Chain)
    (accepts : Chain → SwitchBlock → Bool) (laws : IsBlockchain dao chain accepts)
    (avg_gen_time fork_window_size switch_on_head_advance : ℕ) where
  -- A suite that ends at a block of the blockchain.
  abbrev IsRooted : Chain → Ending × List SwitchBlock × List Stamp → Type 0
  IsRooted c w = w.0 ≡ rooted → IsFork c (reverse w.1)

  found_root :
      (s : S) (b : SwitchBlock) (known : List Stamp) (r : SwitchBlock)
      → (if has_stamp (fork_point b, b.previous_hash) known
          then none
          else dao.get_blockchain_block s (fork_point b) b.previous_hash)
        ≡ some r
      → IsReached (fork_point b) (chain s)
  found_root s b known r e = laws.finds s (fork_point b) b.previous_hash r (ground arith)

  walk-IsRooted :
      (s : S) (forks : List Stamp) (candidate : SwitchBlock) (rounds : ℕ) (previous : SwitchBlock)
      (suite : List SwitchBlock) (known : List Stamp)
      → IsRooted (chain s) (
          walk dao avg_gen_time fork_window_size switch_on_head_advance s forks candidate rounds
            previous suite known)
  unfolding walk
  walk-IsRooted s forks candidate zero previous suite known = λ h. cc (h)
  walk-IsRooted s forks candidate (suc rounds) previous suite known =
      let longer_suite = suite ++ previous ∷ [] in
      let stored = dao.get_absolute_block s (fork_point previous) previous.previous_hash in
      let more = now_known dao avg_gen_time fork_window_size switch_on_head_advance known stored in
      round_cases (IsRooted (chain s)) _ _ _ (rooted, longer_suite, known)
        (missing, longer_suite, more) (too_long, suite, known)
        (λ p.
          walk dao avg_gen_time fork_window_size switch_on_head_advance s forks candidate rounds p
            longer_suite more)
        (λ r e _.
          subst (IsFork (chain s)) (sym (reverse_snoc suite [] previous))
            (found_root s previous known r e))
        (λ h. cc (h)) (λ h. cc (h))
        (λ p. walk-IsRooted s forks candidate rounds p longer_suite more)

  -- A property of the suites after a candidate, whichever way the candidate's walk ends.
  scan_cases :
      (P : List (List SwitchBlock) → Type 0) (skipped : Bool) (ending : Ending)
      (same more lost far : List (List SwitchBlock))
      → P same
      → (ending ≡ rooted → P more)
      → P lost
      → P far
      → P (
          if skipped then same else elim ending [ rooted ↦ more | missing ↦ lost | too_long ↦ far ])
  scan_cases P true ending same more lost far s m l f = s
  scan_cases P false rooted same more lost far s m l f = m refl
  scan_cases P false missing same more lost far s m l f = l
  scan_cases P false too_long same more lost far s m l f = f

  scan-IsFork :
      (s : S) (forks : List Stamp) (cs : List SwitchBlock) (suites : List (List SwitchBlock))
      (known : List Stamp) (invalids : List String)
      → All (λ suite. IsFork (chain s) (reverse suite)) suites
      → All
          (λ suite. IsFork (chain s) (reverse suite))
          (scan dao avg_gen_time fork_window_size switch_on_head_advance s forks cs suites known
            invalids)
  unfolding scan
  scan-IsFork s forks [] suites known invalids h = h
  scan-IsFork s forks (candidate ∷ cs) suites known invalids h =
      let (ending, suite, more) =
        walk dao avg_gen_time fork_window_size switch_on_head_advance s forks candidate
          fork_window_size candidate [] known in
      scan_cases (All (λ suite. IsFork (chain s) (reverse suite))) _ ending _ _ _ _
        (scan-IsFork s forks cs suites known invalids h)
        (λ e. scan-IsFork s forks cs (suites ++ suite ∷ []) more invalids (
          All-snoc (λ suite. IsFork (chain s) (reverse suite)) suites suite h
            (walk-IsRooted s forks candidate fork_window_size candidate [] known e)))
        (scan-IsFork s forks cs suites more (map (λ b. b.hash) suite ++ invalids) h)
        (scan-IsFork s forks cs suites more invalids h)

  -- If the data access object keeps a blockchain, every suite that is found forks from a block that the head has reached.
  pub find_potential_suites-IsFork :
      (s : S) (forks : List Stamp) (number_start time_start : ℕ)
      → All
          (λ suite. IsFork (chain s) (reverse suite))
          (find_potential_suites dao avg_gen_time fork_window_size switch_on_head_advance s forks
            number_start time_start)
  unfolding find_potential_suites
  find_potential_suites-IsFork s forks number_start time_start =
      let potentials =
        sort_high
          (dao.get_potentials s number_start time_start (number_start + fork_window_size)) in
      scan-IsFork s forks potentials [] (map stamp potentials) [] tt
