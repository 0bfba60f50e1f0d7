-- ===== src/Switcher/Restored.antt =====
-- About `findLongestChain` (app/lib/blockchain/Switcher.ts): the blockchain after the trials.
use duniter.Base.{
  ◌≡◌, refl, ap, sym, ◌∙◌, subst, Bool, true, false, Option, List, [], ◌∷◌, ◌++◌, map, reverse,
  reverse_aux, All, arith, if◌then◌else◌, Bool-cases, inl, inr,
}
use duniter.Base.Int.{ℤ, pos, ◌-ℤ◌, ◌≤ℤ◌, ltb_ℤ}
use duniter.Base.Outcome.{Outcome, done, throw}
use duniter.Switcher.{
  SwitchBlock, SwitcherDao, Stamp, stamp, after, fork_point, longer, add_all, try_chain, roll_back,
  trial, find_longest_chain,
}
use duniter.Switcher.Trials.{
  Chain, above, upto, IsValid, IsReached, IsBlockchain, accepted, add_all-accepted,
  try_chain-accepted,
}

above-upto : (n : ℤ) (c : Chain) → above n c ++ upto n c ≡ c
above-upto n [] = refl
above-upto n (b ∷ c) = ground (arith, above-upto n c)

upto-upto : (n : ℤ) (c : Chain) → upto n (upto n c) ≡ upto n c
upto-upto n [] = refl
upto-upto n (b ∷ c) = ground (arith, upto-upto n c)

reverse_twice : (p q c : Chain) → reverse_aux (reverse_aux p q) c ≡ reverse_aux q (p ++ c)
reverse_twice [] q c = refl
reverse_twice (x ∷ p) q c = reverse_twice p (x ∷ q) c

-- A block whose number is above another.
abbrev IsAbove : ℤ → SwitchBlock → Type 0
IsAbove n b = ltb_ℤ n (pos b.number) ≡ true

upto_new : (n : ℤ) (a c : Chain) → All (IsAbove n) a → upto n (reverse_aux a c) ≡ upto n c
upto_new n [] c h = refl
upto_new n (x ∷ a) c h = upto_new n a (x ∷ c) h.1 ∙ ground (arith, h.0)

above→reached : (n : ℤ) (b : SwitchBlock) → IsAbove n b → n ≤ℤ pos b.number
above→reached n b h = ground arith

IsReached-new :
    (n : ℤ) (a c : Chain) → IsReached n c → All (IsAbove n) a → IsReached n (reverse_aux a c)
IsReached-new n [] c r h = r
IsReached-new n (x ∷ a) c r h = IsReached-new n a (x ∷ c) (above→reached n x h.0) h.1

own-IsAbove : (b : SwitchBlock) → IsAbove (fork_point b) b
unfolding ◌-ℤ◌
own-IsAbove b = ground arith

nothing_above :
    (n : ℤ) (b : SwitchBlock) (c : Chain) → above n (b ∷ c) ≡ [] → ltb_ℤ n (pos b.number) ≡ false
nothing_above n b c h = ground arith

IsAbove-fork_point :
    (n : ℤ) (b x : SwitchBlock)
    → IsAbove n b
    → ltb_ℤ (fork_point x) (pos b.number) ≡ false
    → IsAbove n x
unfolding ◌-ℤ◌
IsAbove-fork_point n b x h k = ground arith

module _ (accepts : Chain → SwitchBlock → Bool) where
  -- The blocks of a valid chain are accepted again on what is below them.
  accepted_again :
      (p q c : Chain)
      → IsValid accepts (p ++ c)
      → accepted accepts (p ++ c) q ≡ q
      → accepted accepts c (reverse_aux p q) ≡ reverse_aux p q
  accepted_again [] q c v h = h
  accepted_again (x ∷ p) q c v h = accepted_again p (x ∷ q) c v.1 (
      subst (λ y. (if y then x ∷ accepted accepts (x ∷ (p ++ c)) q else []) ≡ x ∷ q) (sym v.0)
        (ap (λ r. x ∷ r) h))

module _ {S : Type 0} (dao : SwitcherDao S) (chain : S → Chain)
    (accepts : Chain → SwitchBlock → Bool) (laws : IsBlockchain dao chain accepts) where
  IsAbove-next :
      (n : ℤ) (b x : SwitchBlock) (c : Chain) → IsAbove n b → accepts (b ∷ c) x ≡ true → IsAbove n x
  IsAbove-next n b x c h e =
      IsAbove-fork_point n b x h (nothing_above (fork_point x) b c (laws.grows (b ∷ c) x e))

  accepted-IsAbove :
      (n : ℤ) (b : SwitchBlock) (bs : List SwitchBlock) (c : Chain)
      → IsAbove n b
      → All (IsAbove n) (accepted accepts (b ∷ c) bs)
  accepted-IsAbove n b [] c h = tt
  accepted-IsAbove n b (x ∷ bs) c h = elim (Bool-cases (accepts (b ∷ c) x)) [
    | inl e ↦
        subst (λ y. All (IsAbove n) (if y then x ∷ accepted accepts (x ∷ b ∷ c) bs else [])) (sym e)
          (IsAbove-next n b x c h e, accepted-IsAbove n x bs (b ∷ c) (IsAbove-next n b x c h e))
    | inr e ↦
        subst (λ y. All (IsAbove n) (if y then x ∷ accepted accepts (x ∷ b ∷ c) bs else [])) (sym e)
          tt
  ]

  -- The blocks of a suite that are accepted have numbers above its fork point.
  suite-IsAbove :
      (b : SwitchBlock) (bs : List SwitchBlock) (c : Chain)
      → All (IsAbove (fork_point b)) (accepted accepts c (b ∷ bs))
  suite-IsAbove b bs c = elim (Bool-cases (accepts c b)) [
    | inl e ↦
        subst
          (λ y. All (IsAbove (fork_point b)) (if y then b ∷ accepted accepts (b ∷ c) bs else []))
          (sym e) (own-IsAbove b, accepted-IsAbove (fork_point b) b bs c (own-IsAbove b))
    | inr e ↦
        subst
          (λ y. All (IsAbove (fork_point b)) (if y then b ∷ accepted accepts (b ∷ c) bs else []))
          (sym e) tt
  ]

  -- Popping the blocks that a trial added gives the chain at the fork point again.
  roll_back_restores :
      (n : ℤ) (a c : Chain) (s : S)
      → chain s ≡ reverse_aux a (upto n c)
      → All (IsAbove n) a
      → (bs : List SwitchBlock) × (t : S) × (roll_back dao n a s ≡ (done bs, t))
        × (chain t ≡ upto n c)
  unfolding roll_back
  roll_back_restores n [] c s e h = ([], s, refl, e)
  roll_back_restores n (x ∷ a) c s e h =
      let top = IsReached-new n a (x ∷ upto n c) (above→reached n x h.0) h.1 in
      let (t, call, left) = laws.reverts s n (subst (IsReached n) (sym e) top) in
      (
        above n (chain s),
        t,
        call,
        left ∙ ap (upto n) e ∙ upto_new n (x ∷ a) (upto n c) h ∙ upto-upto n c,
      )

  -- The popped blocks are accepted again, in their order, and give the chain back.
  popped_again :
      (n : ℤ) (s : S)
      → accepted accepts (upto n (chain s)) (reverse (above n (chain s)))
        ≡ reverse (above n (chain s))
  popped_again n s =
      accepted_again accepts (above n (chain s)) [] (upto n (chain s))
        (subst (IsValid accepts) (sym (above-upto n (chain s))) (laws.valid s)) refl

  popped_give_back : (n : ℤ) (c : Chain) → reverse_aux (reverse (above n c)) (upto n c) ≡ c
  popped_give_back n c = reverse_twice (above n c) [] (upto n c) ∙ above-upto n c

  -- What `trial` makes of the outcome of its first call.
  abbrev tried_suite :
      Option (List SwitchBlock)
      → SwitchBlock
      → List SwitchBlock
      → List Stamp
      → Outcome (List SwitchBlock) × S
      → (Outcome (Option (List SwitchBlock)) × S) × List Stamp
  tried_suite longest b bs forks r = elim r.0 [
    | throw e ↦ ((throw e, r.1), forks)
    | done reverted ↦ (
      after
          (roll_back dao (fork_point b) (try_chain dao (b ∷ bs) r.1).0
            (try_chain dao (b ∷ bs) r.1).2)
          (λ _ v.
            after (add_all dao (reverse reverted) v)
              (λ _ w. (done (longer longest (try_chain dao (b ∷ bs) r.1).0), w))),
      forks ++ (try_chain dao (b ∷ bs) r.1).1 ++ map stamp (try_chain dao (b ∷ bs) r.1).0,
    )
  ]

  -- Trying a suite whose fork point the head has reached finds the blocks that are accepted from
  -- there, and gives the chain back.
  pub trial_restores :
      (longest : Option (List SwitchBlock)) (b : SwitchBlock) (bs : List SwitchBlock) (s : S)
      (forks : List Stamp)
      → IsReached (fork_point b) (chain s)
      → (t : S) × ((trial dao longest (b ∷ bs) s forks).0
          ≡ (done (longer longest (accepted accepts (upto (fork_point b) (chain s)) (b ∷ bs))), t))
        × (chain t ≡ chain s)
  unfolding trial
  trial_restores longest b bs s forks reached =
      let n = fork_point b in
      let c = chain s in
      let (t, call, cut) = laws.reverts s n reached in
      let (found, grown) = try_chain-accepted dao chain accepts laws (b ∷ bs) (upto n c) t cut in
      let a = accepted accepts (upto n c) (b ∷ bs) in
      let (xs, v, rolled, back) =
        roll_back_restores n a c (try_chain dao (b ∷ bs) t).2 grown
          (suite-IsAbove b bs (upto n c)) in
      let (w, added, whole) =
        add_all-accepted dao chain accepts laws (reverse (above n c)) (upto n c) v back
          (popped_again n s) in
      (
        w,
        ap (λ r. (tried_suite longest b bs forks r).0) call
            ∙ ap
                (λ x. after (roll_back dao n x (try_chain dao (b ∷ bs) t).2) (λ _ v.
                  after (add_all dao (reverse (above n c)) v)
                    (λ _ w. (done (longer longest x), w))))
                found
            ∙ ap
                (λ r. after r (λ _ v.
                  after (add_all dao (reverse (above n c)) v)
                    (λ _ w. (done (longer longest a), w))))
                rolled
            ∙ ap (λ r. after r (λ _ w. (done (longer longest a), w))) added,
        whole ∙ popped_give_back n c,
      )

-- The blocks of a suite that the blockchain accepts from the suite's fork point.
abbrev pub from_fork : (Chain → SwitchBlock → Bool) → Chain → List SwitchBlock → List SwitchBlock
from_fork accepts c [] = []
from_fork accepts c (b ∷ bs) = accepted accepts (upto (fork_point b) c) (b ∷ bs)

-- The longest of them over the suites, which are listed from their heads down.
abbrev pub best :
    (Chain → SwitchBlock → Bool)
    → Chain
    → Option (List SwitchBlock)
    → List (List SwitchBlock)
    → Option (List SwitchBlock)
best accepts c longest [] = longest
best accepts c longest (suite ∷ suites) =
    best accepts c (longer longest (from_fork accepts c (reverse suite))) suites

-- A suite in the order of its numbers starts above a block that the head has reached.
abbrev pub IsFork : Chain → List SwitchBlock → Type 0
IsFork c [] = ⊥
IsFork c (b ∷ bs) = IsReached (fork_point b) c

module _ {S : Type 0} (dao : SwitcherDao S) (chain : S → Chain)
    (accepts : Chain → SwitchBlock → Bool) (laws : IsBlockchain dao chain accepts) where
  trial_on_fork :
      (longest : Option (List SwitchBlock)) (suite : List SwitchBlock) (s : S) (forks : List Stamp)
      → IsFork (chain s) suite
      → (t : S) × ((trial dao longest suite s forks).0
          ≡ (done (longer longest (from_fork accepts (chain s) suite)), t))
        × (chain t ≡ chain s)
  trial_on_fork longest [] s forks h = absurd h
  trial_on_fork longest (b ∷ bs) s forks h =
      trial_restores dao chain accepts laws longest b bs s forks h

  -- What `find_longest_chain` makes of the outcome of a trial.
  abbrev onward :
      List (List SwitchBlock)
      → List Stamp
      → Outcome (Option (List SwitchBlock)) × S
      → (Outcome (Option (List SwitchBlock)) × S) × List Stamp
  onward suites more r = elim r.0 [
    | throw e ↦ ((throw e, r.1), more)
    | done better ↦ find_longest_chain dao better suites r.1 more
  ]

  -- If the data access object keeps a blockchain, and every suite forks from a block that its head
  -- has reached, then trying all suites ends without an error, finds the longest chain that the
  -- blockchain accepts, and gives the blockchain back as it was.
  pub find_longest_chain_restores :
      (longest : Option (List SwitchBlock)) (suites : List (List SwitchBlock)) (s : S)
      (forks : List Stamp)
      → All (λ suite. IsFork (chain s) (reverse suite)) suites
      → (t : S) × ((find_longest_chain dao longest suites s forks).0
          ≡ (done (best accepts (chain s) longest suites), t))
        × (chain t ≡ chain s)
  unfolding find_longest_chain
  find_longest_chain_restores longest [] s forks h = (s, refl, refl)
  find_longest_chain_restores longest (suite ∷ suites) s forks h =
      let (t, found, back) = trial_on_fork longest (reverse suite) s forks h.0 in
      let more = (trial dao longest (reverse suite) s forks).1 in
      let better = longer longest (from_fork accepts (chain s) (reverse suite)) in
      let (u, rest, same) =
        find_longest_chain_restores better suites t more
          (subst (λ c. All (λ suite. IsFork c (reverse suite)) suites) (sym back) h.1) in
      (
        u,
        ap (λ r. (onward suites more r).0) found
            ∙ rest
            ∙ ap (λ c. (done (best accepts c better suites), u)) back,
        same ∙ back,
      )
