-- ===== src/Tests/Forks.antt =====
-- Fork resolution on a blockchain that is a list of blocks, each accepted on the one before.
use duniter.Base.{
  ℕ, ◌+◌, ◌≡◌, refl, ◌⊎◌, Bool, true, false, String, Option, none, some, List, [], ◌∷◌, reverse,
  All, arith, leb, ◌==◌, ◌&&◌, str_eq, filter_by, if◌then◌else◌,
}
use duniter.Base.Int.{ℤ, pos, ◌-ℤ◌, eqb_ℤ, leb_ℤ}
use duniter.Base.Outcome.{Outcome, done, throw}
use duniter.Switcher.{
  SwitchBlock, SwitcherDao, fork_point, longer, trial, switch_on_chain, find_longest_chain,
}
use duniter.Switcher.Suites.{find_potential_suites, try_to_fork, walk}
use duniter.Switcher.Trials.{Chain, above, upto, head?, IsValid, IsReached, IsBlockchain}
use duniter.Switcher.Restored.{from_fork, best, IsFork, find_longest_chain_restores}
use duniter.Switcher.Rooted.{find_potential_suites-IsFork}
use duniter.Switcher.Adopted.{Stays, AdoptsLongest, try_to_fork-Stays_or_adopts}
use duniter.Switcher.Longest.{Reaches, best_highest, walk_enough}

abbrev block : ℕ → String → String → SwitchBlock
block n h p = record { number = n; hash = h; previous_hash = p; median_time = n + n }

-- A block is accepted on its predecessor; the root is accepted first.
abbrev linked : Chain → SwitchBlock → Bool
linked [] b = b.number == 0
linked (x ∷ c) b = b.number == x.number + 1 && str_eq b.previous_hash x.hash

abbrev Store : Type 0
Store = (c : Chain) × IsValid linked c

abbrev chain_of : Store → Chain
chain_of s = s.0

abbrev add_if :
    (c : Chain)
    → IsValid linked c
    → (b : SwitchBlock) (y : Bool) → linked c b ≡ y
    → Outcome SwitchBlock × Store
add_if c v b true e = (done b, (b ∷ c, (e, v)))
add_if c v b false e = (throw "refused", (c, v))

upto-IsValid : (n : ℤ) (c : Chain) → IsValid linked c → IsValid linked (upto n c)
upto-IsValid n [] v = tt
upto-IsValid n (b ∷ c) v = ground (arith, upto-IsValid n c v.1)

-- The first block of a list with a number and a hash.
abbrev find_block : ℤ → String → List SwitchBlock → Option SwitchBlock
find_block n h [] = none
find_block n h (b ∷ bs) =
    if eqb_ℤ (pos b.number) n && str_eq b.hash h then some b else find_block n h bs

abbrev find_on_chain : ℤ → String → Chain → Option SwitchBlock
find_on_chain n h [] = none
find_on_chain n h (b ∷ c) = if leb_ℤ n (pos b.number) then find_block n h (b ∷ c) else none

-- The blocks of a fork, which are not on the chain.
abbrev sandbox : List SwitchBlock
sandbox = block 1 "f1" "g0" ∷ block 3 "f3" "f2" ∷ block 4 "f4" "f3" ∷ block 2 "f2" "f1" ∷ []

abbrev list_dao : SwitcherDao Store
list_dao = record {
  get_current = λ s. head? s.0;
  get_potentials = λ s number_start time_start max_number.
      filter_by
        (λ (b : SwitchBlock).
          leb number_start b.number && leb b.number max_number && leb time_start b.median_time)
        sandbox;
  get_blockchain_block = λ s n h. find_on_chain n h s.0;
  get_absolute_block = λ s n h. find_block n h sandbox;
  revert_to = λ s n. (done (above n s.0), (upto n s.0, upto-IsValid n s.0 s.1));
  add_block = λ s b. add_if s.0 s.1 b (linked s.0 b) refl;
}

linked_grows : (c : Chain) (b : SwitchBlock) → linked c b ≡ true → above (fork_point b) c ≡ []
unfolding ◌-ℤ◌
linked_grows [] b h = refl
linked_grows (x ∷ c) b h = ground arith

find_on_chain-IsReached :
    (c : Chain) (n : ℤ) (h : String) (b : SwitchBlock)
    → find_on_chain n h c ≡ some b
    → IsReached n c
find_on_chain-IsReached [] n h b e = cc (e)
find_on_chain-IsReached (x ∷ c) n h b e = ground arith

find_block_number :
    (bs : List SwitchBlock) (n : ℤ) (h : String) (b : SwitchBlock)
    → find_block n h bs ≡ some b
    → pos b.number ≡ n
find_block_number [] n h b e = cc (e)
find_block_number (x ∷ bs) n h b e = ground (arith, find_block_number bs n h b)

add_if-linked :
    (c : Chain) (v : IsValid linked c) (b : SwitchBlock) (y : Bool) (e : linked c b ≡ y)
    → y ≡ true
    → (t : Store) × (add_if c v b y e ≡ (done b, t)) × (t.0 ≡ b ∷ c)
add_if-linked c v b true e h = ((b ∷ c, (e, v)), refl, refl)
add_if-linked c v b false e h = cc (h)

add_if_not_linked :
    (c : Chain) (v : IsValid linked c) (b : SwitchBlock) (y : Bool) (e : linked c b ≡ y)
    → y ≡ false
    → (m : String) × (t : Store) × (add_if c v b y e ≡ (throw m, t)) × (t.0 ≡ c)
add_if_not_linked c v b true e h = cc (h)
add_if_not_linked c v b false e h = ("refused", (c, v), refl, refl)

list_dao-IsBlockchain : IsBlockchain list_dao chain_of linked
list_dao-IsBlockchain = record {
  valid = λ s. s.1;
  grows = linked_grows;
  heads = λ s. refl;
  finds = λ s n h b e. find_on_chain-IsReached s.0 n h b e;
  adds = λ s b h. add_if-linked s.0 s.1 b (linked s.0 b) refl h;
  refuses = λ s b h. add_if_not_linked s.0 s.1 b (linked s.0 b) refl h;
  reverts = λ s n h. ((upto n s.0, upto-IsValid n s.0 s.1), refl, refl);
}

-- A chain of two blocks, and a fork of four from the first.
abbrev store : Store
store = (block 1 "g1" "g0" ∷ block 0 "g0" "" ∷ [], (refl, (refl, tt)))

abbrev suites : List (List SwitchBlock)
suites = find_potential_suites list_dao 1 10 3 store [] 4 5

-- The fork is found once, from its head.
suites_found :
    suites
    ≡ (block 4 "f4" "f3" ∷ block 3 "f3" "f2" ∷ block 2 "f2" "f1" ∷ block 1 "f1" "g0" ∷ []) ∷ []
unfolding find_potential_suites ◌-ℤ◌
suites_found = refl

-- The switch makes the head of the fork the head of the blockchain.
forked_chain :
    let r = (try_to_fork list_dao 1 10 3 store []).0 in
    (r.0 ≡ done (some (block 4 "f4" "f3")))
    × (r.1.0
        ≡ block 4 "f4" "f3"
          ∷ block 3 "f3" "f2"
          ∷ block 2 "f2" "f1"
          ∷ block 1 "f1" "g0"
          ∷ block 0 "g0" ""
          ∷ [])
unfolding try_to_fork find_longest_chain trial switch_on_chain longer ◌-ℤ◌
forked_chain = (refl, refl)

try_to_fork-Stays_or_adopts_example :
    let r = (try_to_fork list_dao 1 10 3 store []).0 in
    Stays list_dao chain_of linked list_dao-IsBlockchain (chain_of store) r
    ⊎ AdoptsLongest list_dao chain_of linked list_dao-IsBlockchain 1 10 3 store [] r
try_to_fork-Stays_or_adopts_example =
    try_to_fork-Stays_or_adopts list_dao chain_of linked list_dao-IsBlockchain 1 10 3 store []

find_potential_suites-IsFork_example :
    All
      (λ suite. IsFork (chain_of store) (reverse suite))
      (find_potential_suites list_dao 1 10 3 store [] 4 5)
find_potential_suites-IsFork_example =
    find_potential_suites-IsFork list_dao chain_of linked list_dao-IsBlockchain 1 10 3 store [] 4 5

find_longest_chain_restores_example :
    (t : Store) × ((find_longest_chain list_dao none suites store []).0
      ≡ (done (best linked (chain_of store) none suites), t))
    × (chain_of t ≡ chain_of store)
find_longest_chain_restores_example =
    find_longest_chain_restores list_dao chain_of linked list_dao-IsBlockchain none suites store []
      (find_potential_suites-IsFork list_dao chain_of linked list_dao-IsBlockchain 1 10 3 store [] 4
        5)

abbrev fork : List SwitchBlock
fork = block 2 "f2" "f1" ∷ block 1 "f1" "g0" ∷ []

fork-Reaches : Reaches 2 (some (from_fork linked (chain_of store) (reverse fork)))
unfolding ◌-ℤ◌
fork-Reaches = omega arith

best_highest_example : Reaches 2 (
    best linked
      (chain_of store)
      none
      ((block 1 "e1" "g0" ∷ []) ∷ fork ∷ (block 1 "d1" "g0" ∷ []) ∷ []))
best_highest_example =
    best_highest linked (chain_of store) 2 ((block 1 "e1" "g0" ∷ []) ∷ []) fork
      ((block 1 "d1" "g0" ∷ []) ∷ []) none fork-Reaches

walk_enough_example :
    walk list_dao 1 10 3 store [] (block 4 "f4" "f3") 50 (block 4 "f4" "f3") [] []
    ≡ walk list_dao 1 10 3 store [] (block 4 "f4" "f3") 10 (block 4 "f4" "f3") [] []
walk_enough_example =
    walk_enough list_dao 1 10 3 (λ s n h b e. find_block_number sandbox n h b e) store []
      (block 4 "f4" "f3") 10 50 (block 4 "f4" "f3") [] [] (omega arith) (omega arith)
