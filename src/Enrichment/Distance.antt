-- ===== src/Enrichment/Distance.antt =====
-- app/lib/indexer.ts, BR_G24: `checkPeopleAreNotOudistanced` and `getNodeIDfromPubkey`. The web of
-- trust is a native library: its operations are a parameter, with `conf.stepMax`, `conf.xpercent` and
-- `Math.ceil(Math.pow(membersCount, 1 / conf.stepMax))` put in.
use duniter.Base.{
  ℕ, ◌+◌, Bool, true, false, not, String, Option, none, some, List, [], ◌∷◌, ◌++◌, str_eq,
  if◌then◌else◌, length, filter_by, map, foldl, uniq,
}
use duniter.Base.Outcome.{Outcome, done, ◌>>=◌}
use duniter.Index.{IindexEntry, MindexEntry, CindexEntry, is_create}
use duniter.Enrichment.{IndexDal, Scope, is_given}

pub record Wotb (W : Type 0) : Type 0 where
  pub add_node : W → ℕ × W
  pub set_enabled : Bool → ℕ → W → W
  pub set_max_cert : ℕ → W → W
  pub add_link : ℕ → ℕ → W → W
  pub is_outdistanced : W → ℕ → ℕ → Bool
  pub d_sen : ℕ → ℕ

-- A node of the cache; what the source adds to it later is what the store answers again.
abbrev pub NodesCache : Type 0
NodesCache = List (String × ℕ)

abbrev pub cached : String → NodesCache → Option ℕ
cached key [] = none
cached key ((k, n) ∷ ns) = if str_eq k key then some n else cached key ns

unfoldable pub get_node_id_from_pubkey : NodesCache → String → IndexDal → Outcome ℕ
get_node_id_from_pubkey cache key dal = elim (cached key cache) [
  | none ↦ dal.get_wotb_id key
  | some n ↦ done n
]

module _ {W : Type 0} (w : Wotb W) where
  -- A newcomer gets a node that is not enabled; a later one of the same key hides it.
  unfoldable pub add_newcomers : List String → NodesCache → W → NodesCache × W
  add_newcomers [] cache wot = (cache, wot)
  add_newcomers (key ∷ keys) cache wot =
      let (node, grown) = w.add_node wot in
      add_newcomers keys ((key, node) ∷ cache) (w.set_enabled false node grown)

  -- The links of the block, grouped by receiver.
  unfoldable pub links_to : NodesCache → IndexDal → ℕ → List String → Outcome (List (ℕ × ℕ))
  unfolding get_node_id_from_pubkey
  links_to cache dal to [] = done []
  links_to cache dal to (key ∷ keys) =
      let rest = links_to cache dal to keys in
      get_node_id_from_pubkey cache key dal >>= λ from. rest >>= λ links. done ((from, to) ∷ links)

  abbrev pub issuers_to : List CindexEntry → String → List String
  issuers_to cindex key =
      map (λ (c : CindexEntry). c.issuer)
        (filter_by (λ (c : CindexEntry). str_eq c.receiver key) cindex)

  unfoldable pub temp_links :
      NodesCache → IndexDal → List CindexEntry → List String → Outcome (List (ℕ × ℕ))
  unfolding get_node_id_from_pubkey links_to
  temp_links cache dal cindex [] = done []
  temp_links cache dal cindex (key ∷ keys) =
      let rest = temp_links cache dal cindex keys in
      do
        to ← get_node_id_from_pubkey cache key dal
        links ← links_to cache dal to (issuers_to cindex key)
        more ← rest
        done (links ++ more)

  -- The loop over the members to check, which ends at the first that is too far.
  unfoldable pub one_outdistanced : NodesCache → IndexDal → ℕ → W → List String → Outcome Bool
  unfolding get_node_id_from_pubkey
  one_outdistanced cache dal d_sen wot [] = done false
  one_outdistanced cache dal d_sen wot (key ∷ keys) =
      let rest = one_outdistanced cache dal d_sen wot keys in
      get_node_id_from_pubkey cache key dal >>= λ node.
      if w.is_outdistanced wot node d_sen then done true else rest

  unfoldable pub check_people_are_not_oudistanced :
      W → IndexDal → ℕ → List String → List CindexEntry → List String → Outcome Bool
  unfolding add_newcomers temp_links one_outdistanced
  check_people_are_not_oudistanced wot dal sig_stock pubkeys cindex newcomers =
      let members_count : ℕ = elim dal.get_current_block [ none ↦ 0 | some b ↦ b.members_count ] in
      let (cache, grown) = add_newcomers newcomers [] wot in
      temp_links cache dal cindex (uniq (map (λ (c : CindexEntry). c.receiver) cindex)) >>= λ links.
      let sized = w.set_max_cert (sig_stock + length links) grown in
      let linked = foldl (λ g (l : ℕ × ℕ). w.add_link l.0 l.1 g) sized links in
      one_outdistanced cache dal (w.d_sen members_count) linked pubkeys

  -- BR_G24 on the rows of a block.
  unfoldable pub one_is_outdistanced :
      W → IndexDal → Scope → List IindexEntry → List MindexEntry → List CindexEntry → Outcome Bool
  unfolding check_people_are_not_oudistanced
  one_is_outdistanced wot dal s iindex mindex cindex =
      check_people_are_not_oudistanced wot dal s.conf.sig_stock
        (map (λ (e : MindexEntry). e.pub_key)
          (filter_by (λ (e : MindexEntry). not (is_given e.revoked_on)) mindex))
        cindex
        (map (λ (e : IindexEntry). e.pub_key)
          (filter_by (λ (e : IindexEntry). is_create e.op) iindex))
