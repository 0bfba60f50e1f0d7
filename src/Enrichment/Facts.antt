-- ===== src/Enrichment/Facts.antt =====
-- About the completed rows of a block (app/lib/indexer.ts, `completeGlobalScope`): what a completed
-- row that passes its rules says of the row that the block gave.
use duniter.Base.{
  ℕ, ◌<◌, ◌≤◌, ◌≡◌, refl, ap, sym, ◌∙◌, Bool, true, false, not, String, some, List, [], ◌∷◌, ◌++◌,
  map, arith, filter_by, leb→le, if◌then◌else◌, All, length, Option-cases, inl, inr,
}
use duniter.Base.Floats.{Floats}
use duniter.Base.Outcome.{Outcome, done, throw, ◌>>=◌, Succeeds, >>=-eq-done}
use duniter.Index.{
  IndexEntry, IindexEntry, MindexEntry, CindexEntry, SindexEntry, i_index, m_index, c_index,
  s_index, iindex, mindex, cindex, sindex, is_create, is_update,
}
use duniter.Enrichment.{IndexDal, Scope, is_stored_member, is_given}
use duniter.Enrichment.Identities.{complete_identity}
use duniter.Enrichment.Memberships.{certifiers_of, is_join_or_active, complete_membership}
use duniter.Enrichment.Certifications.{complete_certification, check_certification_is_valid}
use duniter.Enrichment.Sources.{
  FoundSource, get_input, unlock_source, conditions_of, written_time_of, tx_source_unlock,
  complete_source, complete_row,
}
use duniter.Enrichment.Complete.{Outside}

-- The four lists of an index.
abbrev pub IsSplit :
    List IndexEntry
    → List IindexEntry
    → List MindexEntry
    → List CindexEntry
    → List SindexEntry
    → Type 0
IsSplit index is ms cs ss =
    (iindex index ≡ is) × (mindex index ≡ ms) × (cindex index ≡ cs) × (sindex index ≡ ss)

IsSplit-s : (ss : List SindexEntry) → IsSplit (map s_index ss) [] [] [] ss
unfolding iindex mindex cindex sindex
IsSplit-s [] = (refl, refl, refl, refl)
IsSplit-s (e ∷ ss) = let r = IsSplit-s ss in (r.0, r.1, r.2, ap (λ l. e ∷ l) r.3)

IsSplit-c :
    (cs : List CindexEntry) (ss : List SindexEntry)
    → IsSplit (map c_index cs ++ map s_index ss) [] [] cs ss
unfolding iindex mindex cindex sindex
IsSplit-c [] ss = IsSplit-s ss
IsSplit-c (e ∷ cs) ss = let r = IsSplit-c cs ss in (r.0, r.1, ap (λ l. e ∷ l) r.2, r.3)

IsSplit-m :
    (ms : List MindexEntry) (cs : List CindexEntry) (ss : List SindexEntry)
    → IsSplit (map m_index ms ++ (map c_index cs ++ map s_index ss)) [] ms cs ss
unfolding iindex mindex cindex sindex
IsSplit-m [] cs ss = IsSplit-c cs ss
IsSplit-m (e ∷ ms) cs ss = let r = IsSplit-m ms cs ss in (r.0, ap (λ l. e ∷ l) r.1, r.2, r.3)

pub IsSplit-i :
    (is : List IindexEntry) (ms : List MindexEntry) (cs : List CindexEntry) (ss : List SindexEntry)
    → IsSplit (map i_index is ++ (map m_index ms ++ (map c_index cs ++ map s_index ss))) is ms cs ss
unfolding iindex mindex cindex sindex
IsSplit-i [] ms cs ss = IsSplit-m ms cs ss
IsSplit-i (e ∷ is) ms cs ss = let r = IsSplit-i is ms cs ss in (ap (λ l. e ∷ l) r.0, r.1, r.2, r.3)

pub All-map :
    {A B : Type 0} (P : B → Type 0) (f : A → B) (xs : List A)
    → All P (map f xs)
    → All (λ x. P (f x)) xs
All-map P f [] h = tt
All-map P f (x ∷ xs) h = (h.0, All-map P f xs h.1)

pub All-imp :
    {A : Type 0} (P Q : A → Type 0) (xs : List A) → ((x : A) → P x → Q x) → All P xs → All Q xs
All-imp P Q [] f h = tt
All-imp P Q (x ∷ xs) f h = (f x h.0, All-imp P Q xs f h.1)

pub All-both :
    {A : Type 0} (P Q R : A → Type 0) (xs : List A)
    → ((x : A) → P x → Q x → R x)
    → All P xs
    → All Q xs
    → All R xs
All-both P Q R [] f h k = tt
All-both P Q R (x ∷ xs) f h k = (f x h.0 k.0, All-both P Q R xs f h.1 k.1)

pub bind_parts :
    {A B : Type 0} (m : Outcome A) (k : A → Outcome B)
    → Succeeds (m >>= k)
    → (a : A) × (m ≡ done a) × Succeeds (k a)
bind_parts (done a) k h = (a, refl, h)
bind_parts (throw e) k h = absurd h

pub All-filtered :
    {A : Type 0} (P : A → Type 0) (p : A → Bool) (xs : List A)
    → All P (filter_by p xs)
    → All (λ x. p x ≡ true → P x) xs
All-filtered P p [] h = tt
All-filtered P p (x ∷ xs) h =
    elim (p x)
        as (λ b.
          All P (if b then x ∷ filter_by p xs else filter_by p xs)
          → (b ≡ true → P x) × All (λ y. p y ≡ true → P y) xs) [
            | true ↦ λ k. (λ _. k.0, All-filtered P p xs k.1)
            | false ↦ λ k. (λ e. absurd (cc), All-filtered P p xs k)
          ]
      h

not-true : (b : Bool) → not b ≡ true → b ≡ false
not-true true h = absurd (cc)
not-true false h = refl

not-not : (b : Bool) → not (not b) ≡ true → b ≡ true
not-not true h = refl
not-not false h = absurd (cc)

-- A test under a condition that holds.
pub enough : (c b : Bool) → c ≡ true → (if c then b else true) ≡ true → b ≡ true
enough true b h k = k
enough false b h k = absurd (cc)

module _ {f : Floats} {W : Type 0} (x : Outside f W) (dal : IndexDal) (s : Scope) where
  pub cert_fact :
      (is : List IindexEntry) (e row : CindexEntry)
      → complete_certification x.certification_signed dal s is e ≡ done row
      → (row.sig_ok ≡ true
          → check_certification_is_valid x.certification_signed dal s e ≡ done true)
        × (row.from_member ≡ is_stored_member dal e.issuer)
  unfolding complete_certification
  cert_fact is e row h =
      let checked = >>=-eq-done (check_certification_is_valid x.certification_signed dal s e) _ h in
      (λ ok. checked.1 ∙ cc (checked.2), cc (checked.2))

  empty_stays_locked :
      (e : SindexEntry) (t : ℕ) → unlock_source x.source_engine s e "" t ≡ done false
  unfolding unlock_source
  empty_stays_locked e t = refl

  -- A source that unlocks has conditions, so it was found.
  unlocked_is_found :
      (e : SindexEntry) (source : FoundSource)
      → tx_source_unlock x.source_engine s e source ≡ done true
      → is_given source.conditions ≡ true
  unfolding tx_source_unlock
  unlocked_is_found e source h = elim (Option-cases source.conditions) [
    | inl none_found ↦
        let empty : conditions_of x.source_engine source ≡ "" = rw none_found refl in
        let k = rw empty at h in
        let no : ◌≡◌ {A = Outcome Bool} (done false) (done true) =
          sym (empty_stays_locked e (written_time_of x.source_engine source)) ∙ k in
        absurd (cc)
    | inr (c, e) ↦ rw e refl
  ]

  source_op :
      (all : List SindexEntry) (e row : SindexEntry)
      → complete_source x.source_engine dal s all e ≡ done row
      → row.op ≡ e.op
  unfolding complete_source
  source_op all e row h =
      let unlocked = >>=-eq-done (tx_source_unlock x.source_engine s e (get_input dal all e)) _ h in
      cc (unlocked.2)

  source_fact :
      (all : List SindexEntry) (e row : SindexEntry)
      → complete_source x.source_engine dal s all e ≡ done row
      → row.available ≡ true
      → not row.is_locked ≡ true
      → ((get_input dal all e).consumed ≡ false)
        × (tx_source_unlock x.source_engine s e (get_input dal all e) ≡ done true)
  unfolding complete_source
  source_fact all e row h a l =
      let unlocked = >>=-eq-done (tx_source_unlock x.source_engine s e (get_input dal all e)) _ h in
      let free : not (get_input dal all e).consumed ≡ row.available = cc (unlocked.2) in
      let locked : not unlocked.0 ≡ row.is_locked = cc (unlocked.2) in
      (
        not-true (get_input dal all e).consumed (free ∙ a),
        unlocked.1 ∙ ap done (not-not unlocked.0 (ap not locked ∙ l)),
      )

  pub uid_fact :
      (ms : List MindexEntry) (e : IindexEntry)
      → (complete_identity dal s ms e).uid_unique ≡ true
      → is_create e.op ≡ true
      → (uid : String) → e.uid ≡ some uid
      → length (dal.find_by_uid uid) ≡ 0
  unfolding complete_identity
  uid_fact ms e h c uid u = ground arith

  pub key_fact :
      (ms : List MindexEntry) (e : IindexEntry)
      → (complete_identity dal s ms e).pub_unique ≡ true
      → is_create e.op ≡ true
      → length (dal.find_by_pub e.pub_key) ≡ 0
  unfolding complete_identity
  key_fact ms e h c = ground arith

  pub certs_fact :
      (far : Bool) (cs : List CindexEntry) (e : MindexEntry)
      → (complete_membership x.revocation_signed dal s far cs e).enough_certs ≡ true
      → is_join_or_active e.ms_type ≡ true
      → s.conf.sig_qty ≤ length (certifiers_of dal cs e.pub_key)
  unfolding complete_membership
  certs_fact far cs e h j =
      leb→le s.conf.sig_qty (length (certifiers_of dal cs e.pub_key))
        (enough (is_join_or_active e.ms_type) _ j h)

  abbrev pub IsUsable : SindexEntry → Type 0
  IsUsable row = is_update row.op ≡ true → (row.available ≡ true) × (not row.is_locked ≡ true)

  pub row_fact :
      (all : List SindexEntry) (e : SindexEntry)
      → (row : SindexEntry) × (complete_row x.source_engine dal s all e ≡ done row) × IsUsable row
      → is_update e.op ≡ true
      → ((get_input dal all e).consumed ≡ false)
        × (tx_source_unlock x.source_engine s e (get_input dal all e) ≡ done true)
        × (is_given (get_input dal all e).conditions ≡ true)
  unfolding complete_row
  row_fact all e r u =
      let h : complete_source x.source_engine dal s all e ≡ done r.0 = rw u at r.1 in
      let usable = r.2 (ap is_update (source_op all e r.0 h) ∙ u) in
      let fact = source_fact all e r.0 h usable.0 usable.1 in
      (fact.0, fact.1, unlocked_is_found e (get_input dal all e) fact.1)

  -- What an accepted block's rows, as the block gives them, are known to satisfy.
  pub record IsSound (index : List IndexEntry) : Type 0 where
    pub new_uids :
        All
          (λ (e : IindexEntry).
            is_create e.op ≡ true
            → (uid : String) → e.uid ≡ some uid
            → length (dal.find_by_uid uid) ≡ 0)
          (iindex index)
    pub new_keys :
        All
          (λ (e : IindexEntry). is_create e.op ≡ true → length (dal.find_by_pub e.pub_key) ≡ 0)
          (iindex index)
    pub enough_certs :
        All
          (λ (e : MindexEntry).
            is_join_or_active e.ms_type ≡ true
            → s.conf.sig_qty ≤ length (certifiers_of dal (cindex index) e.pub_key))
          (mindex index)
    pub valid_certs :
        All
          (λ (e : CindexEntry).
            check_certification_is_valid x.certification_signed dal s e ≡ done true)
          (cindex index)
    pub certifiers_are_members :
        0 < s.head.number
        → All (λ (e : CindexEntry). is_stored_member dal e.issuer ≡ true) (cindex index)
    pub spent :
        All
          (λ (e : SindexEntry).
            is_update e.op ≡ true
            → ((get_input dal (sindex index) e).consumed ≡ false)
              × (tx_source_unlock x.source_engine s e (get_input dal (sindex index) e) ≡ done true)
              × (is_given (get_input dal (sindex index) e).conditions ≡ true))
          (sindex index)
