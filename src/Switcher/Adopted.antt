-- ===== src/Switcher/Adopted.antt =====
-- About `tryToFork` (app/lib/blockchain/Switcher.ts): how it ends.
use duniter.Base.{
  ℕ, ◌+◌, ◌*◌, ◌≤◌, ◌≡◌, refl, ap, sym, ◌∙◌, subst, Bool, true, false, Option, none, some, List, [],
  ◌∷◌, last?, reverse, reverse_aux, All, arith, leb, leb→le, ◌&&◌, &&_iff, if◌then◌else◌,
  Bool-cases, Option-cases, inl, inr, ◌⊎◌,
}
use duniter.Base.Outcome.{Outcome, done, throw}
use duniter.Switcher.{
  SwitchBlock, SwitcherDao, Stamp, after, fork_point, longer, add_all, find_longest_chain,
  switch_on_chain,
}
use duniter.Switcher.Suites.{find_potential_suites, conclude, try_to_fork}
use duniter.Switcher.Trials.{
  Chain, upto, head?, IsReached, IsBlockchain, accepted, add_all-accepted,
}
use duniter.Switcher.Restored.{from_fork, best, IsFork, find_longest_chain_restores}
use duniter.Switcher.Rooted.{find_potential_suites-IsFork}

longer_either :
    (longest : Option (List SwitchBlock)) (a : List SwitchBlock)
    → (longer longest a ≡ longest) ⊎ (longer longest a ≡ some a)
unfolding longer
longer_either none a = ground arith
longer_either (some l) a = ground arith

-- A chain put in the place of what is above its fork point.
abbrev pub switched : Chain → List SwitchBlock → Chain
switched c [] = c
switched c (b ∷ bs) = reverse_aux (b ∷ bs) (upto (fork_point b) c)

head-reverse : (x : SwitchBlock) (xs c : Chain) → head? (reverse_aux (x ∷ xs) c) ≡ last? (x ∷ xs)
head-reverse x [] c = refl
head-reverse x (y ∷ ys) c = head-reverse y ys (x ∷ c)

last_of :
    (x : SwitchBlock) (xs : List SwitchBlock) → (top : SwitchBlock) × (last? (x ∷ xs) ≡ some top)
last_of x [] = (x, refl)
last_of x (y ∷ ys) = last_of y ys

module _ (accepts : Chain → SwitchBlock → Bool) where
  -- The blockchain has the fork point of the chain, and accepts all its blocks from there.
  abbrev pub Fits : Chain → List SwitchBlock → Type 0
  Fits c [] = ⊥
  Fits c (b ∷ bs) =
      IsReached (fork_point b) c × (accepted accepts (upto (fork_point b) c) (b ∷ bs) ≡ b ∷ bs)

  abbrev pub FitsIfAny : Chain → Option (List SwitchBlock) → Type 0
  FitsIfAny c none = Unit
  FitsIfAny c (some l) = Fits c l

  kept_again :
      (c : Chain) (b : SwitchBlock) (r : List SwitchBlock) (y : Bool)
      → accepts c b ≡ y
      → accepted accepts (b ∷ c) r ≡ r
      → accepted accepts c (if y then b ∷ r else []) ≡ (if y then b ∷ r else [])
  kept_again c b r false e h = refl
  kept_again c b r true e h =
      subst (λ y. (if y then b ∷ accepted accepts (b ∷ c) r else []) ≡ b ∷ r) (sym e)
        (ap (λ r. b ∷ r) h)

  accepted_twice :
      (bs : List SwitchBlock) (c : Chain)
      → accepted accepts c (accepted accepts c bs) ≡ accepted accepts c bs
  accepted_twice [] c = refl
  accepted_twice (b ∷ bs) c =
      kept_again c b (accepted accepts (b ∷ c) bs) (accepts c b) refl (accepted_twice bs (b ∷ c))

  empty_or_Fits :
      (c : Chain) (b : SwitchBlock) (r : List SwitchBlock) (y : Bool)
      → IsReached (fork_point b) c
      → accepted accepts (upto (fork_point b) c) (if y then b ∷ r else [])
        ≡ (if y then b ∷ r else [])
      → ((if y then b ∷ r else []) ≡ []) ⊎ Fits c (if y then b ∷ r else [])
  empty_or_Fits c b r false h e = inl refl
  empty_or_Fits c b r true h e = inr (h, e)

  from_fork-Fits :
      (c : Chain) (suite : List SwitchBlock)
      → IsFork c suite
      → (from_fork accepts c suite ≡ []) ⊎ Fits c (from_fork accepts c suite)
  from_fork-Fits c [] h = absurd h
  from_fork-Fits c (b ∷ bs) h =
      empty_or_Fits c b (accepted accepts (b ∷ upto (fork_point b) c) bs)
        (accepts (upto (fork_point b) c) b) h (accepted_twice (b ∷ bs) (upto (fork_point b) c))

  longer-nothing : (longest : Option (List SwitchBlock)) → longer longest [] ≡ longest
  unfolding longer
  longer-nothing longest = refl

  longer-FitsIfAny :
      (c : Chain) (longest : Option (List SwitchBlock)) (a : List SwitchBlock)
      → FitsIfAny c longest
      → (a ≡ []) ⊎ Fits c a
      → FitsIfAny c (longer longest a)
  longer-FitsIfAny c longest a h (inl e) =
      subst (λ a. FitsIfAny c (longer longest a)) (sym e)
        (subst (FitsIfAny c) (sym (longer-nothing longest)) h)
  longer-FitsIfAny c longest a h (inr f) = elim (longer_either longest a) [
    | inl e ↦ subst (FitsIfAny c) (sym e) h
    | inr e ↦ subst (FitsIfAny c) (sym e) f
  ]

  best-FitsIfAny :
      (c : Chain) (longest : Option (List SwitchBlock)) (suites : List (List SwitchBlock))
      → FitsIfAny c longest
      → All (λ suite. IsFork c (reverse suite)) suites
      → FitsIfAny c (best accepts c longest suites)
  best-FitsIfAny c longest [] f h = f
  best-FitsIfAny c longest (suite ∷ suites) f h =
      best-FitsIfAny c (longer longest (from_fork accepts c (reverse suite))) suites
        (longer-FitsIfAny c longest (from_fork accepts c (reverse suite)) f
          (from_fork-Fits c (reverse suite) h.0))
        h.1

module _ {S : Type 0} (dao : SwitcherDao S) (chain : S → Chain)
    (accepts : Chain → SwitchBlock → Bool) (laws : IsBlockchain dao chain accepts) where
  -- Switching to a chain that fits succeeds, and the last block of the chain becomes the head.
  pub switch_on_chain_succeeds :
      (l : List SwitchBlock) (s : S)
      → Fits accepts (chain s) l
      → (t : S) × (switch_on_chain dao l s ≡ (done tt, t))
        × (chain t ≡ switched (chain s) l)
        × (dao.get_current t ≡ last? l)
  unfolding switch_on_chain
  switch_on_chain_succeeds [] s h = absurd h
  switch_on_chain_succeeds (b ∷ bs) s (reached, fit) =
      let c = upto (fork_point b) (chain s) in
      let (t, call, cut) = laws.reverts s (fork_point b) reached in
      let (u, added, grown) = add_all-accepted dao chain accepts laws (b ∷ bs) c t cut fit in
      (
        u,
        ap (λ r. after r (λ _ t. add_all dao (b ∷ bs) t)) call ∙ added,
        grown,
        laws.heads u ∙ ap head? grown ∙ head-reverse b bs c,
      )

  -- The blockchain is left as it was.
  abbrev pub Stays : Chain → Outcome (Option SwitchBlock) × S → Type 0
  Stays c r = (t : S) × (r ≡ (done none, t)) × (chain t ≡ c)

  -- The blockchain is switched to a chain that fits and whose head reaches a number and a time.
  abbrev pub Adopts : Chain → ℕ → ℕ → List SwitchBlock → Outcome (Option SwitchBlock) × S → Type 0
  Adopts c number_start time_start l r =
      (top : SwitchBlock) × (t : S) × (last? l ≡ some top)
      × (number_start ≤ top.number)
      × (time_start ≤ top.median_time)
      × Fits accepts c l
      × (r ≡ (done (some top), t))
      × (chain t ≡ switched c l)

  module _ (avg_gen_time fork_window_size switch_on_head_advance : ℕ) where
    -- What `conclude` makes of the head of the longest chain.
    abbrev concluded :
        ℕ → ℕ → List SwitchBlock → S → Option SwitchBlock → Outcome (Option SwitchBlock) × S
    concluded number_start time_start l t o = elim o [
      | none ↦ (throw "Cannot read property 'number' of undefined", t)
      | some top ↦
          if leb number_start top.number && leb time_start top.median_time
          then after (switch_on_chain dao l t) (λ _ u. (done (dao.get_current u), u))
          else (done none, t)
    ]

    conclude-Fits :
        (number_start time_start : ℕ) (l : List SwitchBlock) (t : S) (top : SwitchBlock)
        → last? l ≡ some top
        → Fits accepts (chain t) l
        → Stays (chain t) (concluded number_start time_start l t (some top))
          ⊎ Adopts
              (chain t)
              number_start
              time_start
              l
              (concluded number_start time_start l t (some top))
    conclude-Fits number_start time_start l t top e fit =
        let (u, switch, grown, now) = switch_on_chain_succeeds l t fit in
        elim (Bool-cases (leb number_start top.number && leb time_start top.median_time)) [
          | inl h ↦
              let (n, m) = (&&_iff _ _).0 h in
              inr (
                top,
                u,
                e,
                leb→le _ _ n,
                leb→le _ _ m,
                fit,
                ap
                      (λ y.
                        if y
                        then after (switch_on_chain dao l t) (λ _ u. (done (dao.get_current u), u))
                        else (done none, t))
                      h
                    ∙ ap (λ r. after r (λ _ u. (done (dao.get_current u), u))) switch
                    ∙ ap (λ o. (done o, u)) (now ∙ e),
                grown,
              )
          | inr h ↦ inl (
            t,
            ap
                (λ y.
                  if y
                  then after (switch_on_chain dao l t) (λ _ u. (done (dao.get_current u), u))
                  else (done none, t))
                h,
            refl,
          )
        ]

    conclude_either :
        (number_start time_start : ℕ) (longest : Option (List SwitchBlock)) (t : S)
        → FitsIfAny accepts (chain t) longest
        → let r =
            conclude dao avg_gen_time fork_window_size switch_on_head_advance number_start
              time_start longest t in
          Stays (chain t) r
          ⊎ ((l : List SwitchBlock) × (longest ≡ some l)
              × Adopts (chain t) number_start time_start l r)
    unfolding conclude
    conclude_either number_start time_start none t h = inl (t, refl, refl)
    conclude_either number_start time_start (some []) t h = absurd h
    conclude_either number_start time_start (some (b ∷ bs)) t h =
        let (top, e) = last_of b bs in
        subst
          (λ o.
            Stays (chain t) (concluded number_start time_start (b ∷ bs) t o)
            ⊎ ((l : List SwitchBlock) × (some (b ∷ bs) ≡ some l)
                × Adopts (chain t) number_start time_start l
                    (concluded number_start time_start (b ∷ bs) t o)))
          (sym e)
          (elim (conclude-Fits number_start time_start (b ∷ bs) t top e h) [
            | inl x ↦ inl x
            | inr x ↦ inr (b ∷ bs, refl, x)
          ])

    -- What `try_to_fork` makes of the outcome of the trials, and of the head of the blockchain.
    abbrev forked :
        ℕ
        → ℕ
        → List Stamp
        → Outcome (Option (List SwitchBlock)) × S
        → (Outcome (Option SwitchBlock) × S) × List Stamp
    forked number_start time_start more r = elim r.0 [
      | throw e ↦ ((throw e, r.1), more)
      | done longest ↦ (
        conclude dao avg_gen_time fork_window_size switch_on_head_advance number_start time_start
            longest r.1,
        more,
      )
    ]

    abbrev suites_from : S → List Stamp → SwitchBlock → List (List SwitchBlock)
    suites_from s forks current =
        find_potential_suites dao avg_gen_time fork_window_size switch_on_head_advance s forks
          (current.number + switch_on_head_advance)
          (current.median_time + switch_on_head_advance * avg_gen_time)

    abbrev tried_from :
        S → List Stamp → Option SwitchBlock → (Outcome (Option SwitchBlock) × S) × List Stamp
    tried_from s forks o = elim o [
      | none ↦ ((done none, s), forks)
      | some current ↦
          let r = find_longest_chain dao none (suites_from s forks current) s forks in
          forked (current.number + switch_on_head_advance)
            (current.median_time + switch_on_head_advance * avg_gen_time) r.1 r.0
    ]

    -- The longest chain that is accepted, among the suites that are found, is adopted.
    abbrev pub AdoptsLongest : S → List Stamp → Outcome (Option SwitchBlock) × S → Type 0
    AdoptsLongest s forks r =
        (current : SwitchBlock) × (l : List SwitchBlock) × (dao.get_current s ≡ some current)
        × (best accepts (chain s) none (suites_from s forks current) ≡ some l)
        × Adopts (chain s) (current.number + switch_on_head_advance)
            (current.median_time + switch_on_head_advance * avg_gen_time) l r

    fork_from :
        (s : S) (forks : List Stamp) (current : SwitchBlock)
        → dao.get_current s ≡ some current
        → let r = (tried_from s forks (some current)).0 in
          Stays (chain s) r ⊎ AdoptsLongest s forks r
    fork_from s forks current e =
        let number_start = current.number + switch_on_head_advance in
        let time_start = current.median_time + switch_on_head_advance * avg_gen_time in
        let suites = suites_from s forks current in
        let ready =
          find_potential_suites-IsFork dao chain accepts laws avg_gen_time fork_window_size
            switch_on_head_advance s forks number_start time_start in
        let (t, found, back) =
          find_longest_chain_restores dao chain accepts laws none suites s forks ready in
        let more = (find_longest_chain dao none suites s forks).1 in
        let longest = best accepts (chain s) none suites in
        let fits = best-FitsIfAny accepts (chain s) none suites tt ready in
        subst
          (λ r.
            Stays (chain s) (forked number_start time_start more r).0
            ⊎ AdoptsLongest s forks (forked number_start time_start more r).0)
          (sym found)
          (elim (conclude_either number_start time_start longest t
            (subst (λ c. FitsIfAny accepts c longest) (sym back) fits)) [
              | inl (u, r, same) ↦ inl (u, r, same ∙ back)
              | inr (l, is, adopted) ↦ inr (
                current,
                l,
                e,
                is,
                subst
                    (λ c. Adopts c number_start time_start l (
                      conclude dao avg_gen_time fork_window_size switch_on_head_advance number_start
                        time_start longest t))
                    back adopted,
              )
            ])

    -- If the data access object keeps a blockchain, `tryToFork` ends without an error. Either it returns null and the blockchain is as
    -- before, or it switches to the longest chain that is accepted among the suites found, returns
    -- the head of that chain, and this head is ahead by the required blocks and median time.
    pub try_to_fork-Stays_or_adopts :
        (s : S) (forks : List Stamp)
        → let r =
            (try_to_fork dao avg_gen_time fork_window_size switch_on_head_advance s forks).0 in
          Stays (chain s) r ⊎ AdoptsLongest s forks r
    unfolding try_to_fork
    try_to_fork-Stays_or_adopts s forks = elim (Option-cases (dao.get_current s)) [
      | inl e ↦
          subst
            (λ o.
              Stays (chain s) (tried_from s forks o).0
              ⊎ AdoptsLongest s forks (tried_from s forks o).0)
            (sym e) (inl (s, refl, refl))
      | inr (current, e) ↦
          subst
            (λ o.
              Stays (chain s) (tried_from s forks o).0
              ⊎ AdoptsLongest s forks (tried_from s forks o).0)
            (sym e) (fork_from s forks current e)
    ]
