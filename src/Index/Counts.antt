-- ===== src/Index/Counts.antt =====
-- About `localIndex` (app/lib/indexer.ts): its rows against the documents of the block.
use mathlib.Core.List.{append-nil, append_assoc, map-append, map-map}
use duniter.Base.{
  ◌≡◌, refl, ap, sym, ◌∙◌, inl, inr, String, List, [], ◌∷◌, ◌++◌, map, filter_by, filter_by-append,
  some_of, Bool-cases,
}
use duniter.Block.{BlockDto, IdentityDto, MembershipDto}
use duniter.Head.{ConfDto}
use duniter.Transactions.{TransactionDto}
use duniter.Index.{
  is_create, IindexEntry, MindexEntry, CindexEntry, SindexEntry, IndexEntry, i_index, m_index,
  c_index, s_index, iindex, mindex, cindex,
}
use duniter.Index.Local.{
  is_iindex_of, joiner_rows, push_joiners, identity_row, active_row, leaver_row, revoked_row,
  excluded_row, local_index,
}

pub iindex-append : (xs ys : List IndexEntry) → iindex (xs ++ ys) ≡ iindex xs ++ iindex ys
unfolding iindex
iindex-append [] ys = refl
iindex-append (i_index e ∷ xs) ys = ap (λ l. e ∷ l) (iindex-append xs ys)
iindex-append (m_index e ∷ xs) ys = iindex-append xs ys
iindex-append (c_index e ∷ xs) ys = iindex-append xs ys
iindex-append (s_index e ∷ xs) ys = iindex-append xs ys

pub mindex-append : (xs ys : List IndexEntry) → mindex (xs ++ ys) ≡ mindex xs ++ mindex ys
unfolding mindex
mindex-append [] ys = refl
mindex-append (i_index e ∷ xs) ys = mindex-append xs ys
mindex-append (m_index e ∷ xs) ys = ap (λ l. e ∷ l) (mindex-append xs ys)
mindex-append (c_index e ∷ xs) ys = mindex-append xs ys
mindex-append (s_index e ∷ xs) ys = mindex-append xs ys

pub cindex-append : (xs ys : List IndexEntry) → cindex (xs ++ ys) ≡ cindex xs ++ cindex ys
unfolding cindex
cindex-append [] ys = refl
cindex-append (i_index e ∷ xs) ys = cindex-append xs ys
cindex-append (m_index e ∷ xs) ys = cindex-append xs ys
cindex-append (c_index e ∷ xs) ys = ap (λ l. e ∷ l) (cindex-append xs ys)
cindex-append (s_index e ∷ xs) ys = cindex-append xs ys

module _ {A : Type 0} where
  iindex-map_i :
      (g : A → IindexEntry) (xs : List A) → iindex (map (λ x. i_index (g x)) xs) ≡ map g xs
  unfolding iindex
  iindex-map_i g [] = refl
  iindex-map_i g (x ∷ xs) = ap (λ l. g x ∷ l) (iindex-map_i g xs)

  iindex-map_m : (g : A → MindexEntry) (xs : List A) → iindex (map (λ x. m_index (g x)) xs) ≡ []
  unfolding iindex
  iindex-map_m g [] = refl
  iindex-map_m g (x ∷ xs) = iindex-map_m g xs

  iindex-map_c : (g : A → CindexEntry) (xs : List A) → iindex (map (λ x. c_index (g x)) xs) ≡ []
  unfolding iindex
  iindex-map_c g [] = refl
  iindex-map_c g (x ∷ xs) = iindex-map_c g xs

  mindex-map_i : (g : A → IindexEntry) (xs : List A) → mindex (map (λ x. i_index (g x)) xs) ≡ []
  unfolding mindex
  mindex-map_i g [] = refl
  mindex-map_i g (x ∷ xs) = mindex-map_i g xs

  mindex-map_m :
      (g : A → MindexEntry) (xs : List A) → mindex (map (λ x. m_index (g x)) xs) ≡ map g xs
  unfolding mindex
  mindex-map_m g [] = refl
  mindex-map_m g (x ∷ xs) = ap (λ l. g x ∷ l) (mindex-map_m g xs)

  mindex-map_c : (g : A → CindexEntry) (xs : List A) → mindex (map (λ x. c_index (g x)) xs) ≡ []
  unfolding mindex
  mindex-map_c g [] = refl
  mindex-map_c g (x ∷ xs) = mindex-map_c g xs

iindex-map_s : (xs : List SindexEntry) → iindex (map s_index xs) ≡ []
unfolding iindex
iindex-map_s [] = refl
iindex-map_s (x ∷ xs) = iindex-map_s xs

mindex-map_s : (xs : List SindexEntry) → mindex (map s_index xs) ≡ []
unfolding mindex
mindex-map_s [] = refl
mindex-map_s (x ∷ xs) = mindex-map_s xs

abbrev pub keys_of : List MindexEntry → List String
keys_of = map (λ e. e.pub_key)

abbrev pub created_keys : List IindexEntry → List String
created_keys rows = map (λ e. e.pub_key) (filter_by (λ e. is_create e.op) rows)

keys_of-joiner_rows :
    (block : BlockDto) (conf : ConfDto) (index : List IndexEntry) (ms : MembershipDto)
    → (keys_of (mindex (joiner_rows block conf index ms)) ≡ ms.issuer ∷ [])
      × (created_keys (iindex (joiner_rows block conf index ms)) ≡ [])
unfolding joiner_rows mindex iindex
keys_of-joiner_rows block conf index ms =
    elim (Bool-cases (some_of (is_iindex_of ms.issuer) index)) [
      | inl old ↦ rw old (refl, refl)
      | inr new ↦ rw new (refl, refl)
    ]

keys_of-push_joiners :
    (block : BlockDto) (conf : ConfDto) (index : List IndexEntry) (mss : List MembershipDto)
    → keys_of (mindex (push_joiners block conf index mss))
      ≡ keys_of (mindex index) ++ map (λ ms. ms.issuer) mss
unfolding push_joiners
keys_of-push_joiners block conf index [] = sym (append-nil _)
keys_of-push_joiners block conf index (ms ∷ mss) =
    let rows = joiner_rows block conf index ms in
    keys_of-push_joiners block conf (index ++ rows) mss
    ∙ ap (λ l. l ++ map (λ m. m.issuer) mss)
        (ap keys_of (mindex-append index rows)
          ∙ map-append (λ e. e.pub_key) (mindex index) (mindex rows)
          ∙ ap (λ l. keys_of (mindex index) ++ l) (keys_of-joiner_rows block conf index ms).0)
    ∙ append_assoc (keys_of (mindex index)) (ms.issuer ∷ []) (map (λ m. m.issuer) mss)

created_keys-append :
    (xs ys : List IindexEntry) → created_keys (xs ++ ys) ≡ created_keys xs ++ created_keys ys
created_keys-append xs ys =
    ap (map (λ e. e.pub_key)) (filter_by-append (λ e. is_create e.op) xs ys)
    ∙ map-append (λ e. e.pub_key) (filter_by (λ e. is_create e.op) xs) _

created_keys-push_joiners :
    (block : BlockDto) (conf : ConfDto) (index : List IndexEntry) (mss : List MembershipDto)
    → created_keys (iindex (push_joiners block conf index mss)) ≡ created_keys (iindex index)
unfolding push_joiners
created_keys-push_joiners block conf index [] = refl
created_keys-push_joiners block conf index (ms ∷ mss) =
    let rows = joiner_rows block conf index ms in
    created_keys-push_joiners block conf (index ++ rows) mss
    ∙ ap created_keys (iindex-append index rows)
    ∙ created_keys-append (iindex index) (iindex rows)
    ∙ ap (λ l. created_keys (iindex index) ++ l) (keys_of-joiner_rows block conf index ms).1
    ∙ append-nil _

created_keys-identities :
    (hash_of_identity : IdentityDto → String) (block : BlockDto) (is : List IdentityDto)
    → created_keys (map (identity_row hash_of_identity block) is) ≡ map (λ i. i.pubkey) is
unfolding identity_row
created_keys-identities h block [] = refl
created_keys-identities h block (i ∷ is) =
    ap (λ l. i.pubkey ∷ l) (created_keys-identities h block is)

created_keys-excluded :
    (block : BlockDto) (keys : List String) → created_keys (map (excluded_row block) keys) ≡ []
unfolding excluded_row
created_keys-excluded block [] = refl
created_keys-excluded block (k ∷ keys) = created_keys-excluded block keys

module _ (hash_of_identity : IdentityDto → String) (hash_of_tx : TransactionDto → String)
    (block : BlockDto) (conf : ConfDto) where
  -- Every joiner, active, leaver and revocation of the block gives exactly one membership row, of
  -- its public key and in this order, and nothing else does.
  pub keys_of-mindex-local_index :
      keys_of (mindex (local_index hash_of_identity hash_of_tx block conf))
      ≡ map (λ ms. ms.issuer) block.joiners
        ++ (map (λ ms. ms.issuer) block.actives
            ++ (map (λ ms. ms.issuer) block.leavers ++ map (λ r. r.pubkey) block.revoked))
  unfolding local_index active_row leaver_row revoked_row mindex
  keys_of-mindex-local_index = simp (
    mindex-append, mindex-map_i, mindex-map_m, mindex-map_c, mindex-map_s, map-append, map-map,
    keys_of-push_joiners, append-nil,
  )

  -- The identity rows of a block create its identities, in order, and no other.
  pub created_keys-iindex-local_index :
      created_keys (iindex (local_index hash_of_identity hash_of_tx block conf))
      ≡ map (λ i. i.pubkey) block.identities
  unfolding local_index
  created_keys-iindex-local_index = simp (
    iindex-append, iindex-map_i, iindex-map_m, iindex-map_c, iindex-map_s, created_keys-append,
    created_keys-push_joiners, created_keys-identities, created_keys-excluded, append-nil,
  )
