-- ===== src/Switcher/Trials.antt =====
-- About `findLongestChain` (app/lib/blockchain/Switcher.ts): what the data access object promises,
-- and the loop that adds the blocks of a suite.
use duniter.Base.{
  ◌≡◌, refl, ap, sym, ◌∙◌, Bool, true, false, String, Option, none, some, List, [], ◌∷◌,
  reverse_aux, arith, if◌then◌else◌, Bool-cases, inl, inr,
}
use duniter.Base.Int.{ℤ, pos, ◌≤ℤ◌, ltb_ℤ}
use duniter.Base.Outcome.{Outcome, done, throw}
use duniter.Switcher.{SwitchBlock, SwitcherDao, Stamp, stamp, after, fork_point, add_all, try_chain}

-- A blockchain is listed from its head down.
abbrev pub Chain : Type 0
Chain = List SwitchBlock

-- The blocks above a number, and those up to it.
abbrev pub above : ℤ → Chain → Chain
above n [] = []
above n (b ∷ c) = if ltb_ℤ n (pos b.number) then b ∷ above n c else []

abbrev pub upto : ℤ → Chain → Chain
upto n [] = []
upto n (b ∷ c) = if ltb_ℤ n (pos b.number) then upto n c else b ∷ c

-- Every block was accepted on the ones below it.
abbrev pub IsValid : (Chain → SwitchBlock → Bool) → Chain → Type 0
IsValid accepts [] = Unit
IsValid accepts (b ∷ c) = (accepts c b ≡ true) × IsValid accepts c

-- The number is at most the one of the head.
abbrev pub IsReached : ℤ → Chain → Type 0
IsReached n [] = ⊥
IsReached n (b ∷ c) = n ≤ℤ pos b.number

abbrev pub head? : Chain → Option SwitchBlock
head? [] = none
head? (b ∷ c) = some b

-- What the data access object promises about the blockchain of its state: a block is added exactly
-- when the chain accepts it, a refused block changes nothing, and a revert gives back the blocks
-- above a number that the head has reached; a block that it finds in the blockchain is one that the
-- head has reached. A chain only accepts a block above its own.
pub record IsBlockchain {S : Type 0} (dao : SwitcherDao S) (chain : S → Chain)
    (accepts : Chain → SwitchBlock → Bool) : Type 0 where
  pub valid : (s : S) → IsValid accepts (chain s)
  pub grows : (c : Chain) (b : SwitchBlock) → accepts c b ≡ true → above (fork_point b) c ≡ []
  pub heads : (s : S) → dao.get_current s ≡ head? (chain s)
  pub finds :
      (s : S) (n : ℤ) (h : String) (b : SwitchBlock)
      → dao.get_blockchain_block s n h ≡ some b
      → IsReached n (chain s)
  pub adds :
      (s : S) (b : SwitchBlock)
      → accepts (chain s) b ≡ true
      → (t : S) × (dao.add_block s b ≡ (done b, t)) × (chain t ≡ b ∷ chain s)
  pub refuses :
      (s : S) (b : SwitchBlock)
      → accepts (chain s) b ≡ false
      → (e : String) × (t : S) × (dao.add_block s b ≡ (throw e, t)) × (chain t ≡ chain s)
  pub reverts :
      (s : S) (n : ℤ)
      → IsReached n (chain s)
      → (t : S) × (dao.revert_to s n ≡ (done (above n (chain s)), t)) × (chain t ≡ upto n (chain s))

-- The blocks of a suite that a chain accepts one after the other.
abbrev pub accepted : (Chain → SwitchBlock → Bool) → Chain → List SwitchBlock → List SwitchBlock
accepted accepts c [] = []
accepted accepts c (b ∷ bs) =
    let rest = accepted accepts (b ∷ c) bs in if accepts c b then b ∷ rest else []

module _ (accepts : Chain → SwitchBlock → Bool) where
  accepted_yes :
      (c : Chain) (b : SwitchBlock) (bs : List SwitchBlock)
      → accepts c b ≡ true
      → accepted accepts c (b ∷ bs) ≡ b ∷ accepted accepts (b ∷ c) bs
  accepted_yes c b bs h = ground arith

  accepted_no :
      (c : Chain) (b : SwitchBlock) (bs : List SwitchBlock)
      → accepts c b ≡ false
      → accepted accepts c (b ∷ bs) ≡ []
  accepted_no c b bs h = ground arith

  accepted_head :
      (c : Chain) (b : SwitchBlock) (bs : List SwitchBlock)
      → accepted accepts c (b ∷ bs) ≡ b ∷ bs
      → (accepts c b ≡ true) × (accepted accepts (b ∷ c) bs ≡ bs)
  accepted_head c b bs h = ground arith

module _ {S : Type 0} (dao : SwitcherDao S) (chain : S → Chain)
    (accepts : Chain → SwitchBlock → Bool) (laws : IsBlockchain dao chain accepts) where
  add_all_step :
      (b : SwitchBlock) (bs : List SwitchBlock) (s : S)
      → accepts (chain s) b ≡ true
      → (t : S) × (add_all dao (b ∷ bs) s ≡ add_all dao bs t) × (chain t ≡ b ∷ chain s)
  unfolding add_all
  add_all_step b bs s h =
      let (t, e, c) = laws.adds s b h in (t, ap (λ r. after r (λ _ t. add_all dao bs t)) e, c)

  -- Adding blocks that are accepted one after the other succeeds.
  pub add_all-accepted :
      (bs : List SwitchBlock) (c : Chain) (s : S)
      → chain s ≡ c
      → accepted accepts c bs ≡ bs
      → (t : S) × (add_all dao bs s ≡ (done tt, t)) × (chain t ≡ reverse_aux bs c)
  unfolding add_all
  add_all-accepted [] c s e h = (s, refl, e)
  add_all-accepted (b ∷ bs) c s e h =
      let yes = accepted_head accepts c b bs h in
      let (t, step, grown) = add_all_step b bs s (ap (λ d. accepts d b) e ∙ yes.0) in
      let (u, rest, last) = add_all-accepted bs (b ∷ c) t (grown ∙ ap (λ d. b ∷ d) e) yes.1 in
      (u, step ∙ rest, last)

  -- What `try_chain` makes of the outcome of its first call.
  abbrev tried :
      SwitchBlock → List SwitchBlock → Outcome SwitchBlock × S → List SwitchBlock × List Stamp × S
  tried b bs r = elim r.0 [
    | done _ ↦ (b ∷ (try_chain dao bs r.1).0, (try_chain dao bs r.1).1, (try_chain dao bs r.1).2)
    | throw e ↦ ([], stamp b ∷ [], r.1)
  ]

  try_chain_yes :
      (b : SwitchBlock) (bs : List SwitchBlock) (s : S)
      → accepts (chain s) b ≡ true
      → (t : S) × ((try_chain dao (b ∷ bs) s).0 ≡ b ∷ (try_chain dao bs t).0)
        × ((try_chain dao (b ∷ bs) s).2 ≡ (try_chain dao bs t).2)
        × (chain t ≡ b ∷ chain s)
  unfolding try_chain
  try_chain_yes b bs s h =
      let (t, e, c) = laws.adds s b h in
      (t, ap (λ r. (tried b bs r).0) e, ap (λ r. (tried b bs r).2) e, c)

  try_chain_no :
      (b : SwitchBlock) (bs : List SwitchBlock) (s : S)
      → accepts (chain s) b ≡ false
      → ((try_chain dao (b ∷ bs) s).0 ≡ []) × (chain (try_chain dao (b ∷ bs) s).2 ≡ chain s)
  unfolding try_chain
  try_chain_no b bs s h =
      let (e, t, q, c) = laws.refuses s b h in
      (ap (λ r. (tried b bs r).0) q, ap (λ r. chain (tried b bs r).2) q ∙ c)

  -- The blocks that a trial adds are those that the chain accepts.
  pub try_chain-accepted :
      (bs : List SwitchBlock) (c : Chain) (s : S)
      → chain s ≡ c
      → ((try_chain dao bs s).0 ≡ accepted accepts c bs)
        × (chain (try_chain dao bs s).2 ≡ reverse_aux (accepted accepts c bs) c)
  unfolding try_chain
  try_chain-accepted [] c s e = (refl, e)
  try_chain-accepted (b ∷ bs) c s e = elim (Bool-cases (accepts c b)) [
    | inl h ↦
        let (t, added, left, grown) = try_chain_yes b bs s (ap (λ d. accepts d b) e ∙ h) in
        let rest = try_chain-accepted bs (b ∷ c) t (grown ∙ ap (λ d. b ∷ d) e) in
        let all = accepted_yes accepts c b bs h in
        (
          added ∙ ap (λ d. b ∷ d) rest.0 ∙ sym all,
          ap chain left ∙ rest.1 ∙ sym (ap (λ d. reverse_aux d c) all),
        )
    | inr h ↦
        let (added, left) = try_chain_no b bs s (ap (λ d. accepts d b) e ∙ h) in
        let none' = accepted_no accepts c b bs h in
        (added ∙ sym none', left ∙ e ∙ sym (ap (λ d. reverse_aux d c) none'))
  ]
