-- ===== src/GlobalRules/Accepted.antt =====
-- What an accepted block is known to satisfy.
use duniter.Base.{
  ℕ, ◌-◌, ◌<◌, ◌≡◌, refl, Bool, true, false, not, ◌||◌, String, Option, none, some, ◌==◌, All,
  ==_iff, &&_iff, ◌+◌, ap, ◌&&◌, ◌⊎◌, inl, inr, arith, ltb, str_eq, str_eq_iff, some_of, Bool-cases,
}
use duniter.Base.Int.{ℤ, pos, eqb_ℤ, eq_of_parts}
use duniter.Base.Floats.{Floats}
use duniter.Base.Outcome.{require, Succeeds, Succeeds-require, Succeeds->>}
use duniter.Head.{DbHead, ConfDto}
use duniter.GlobalRules.Context.{
  same_text, same_amount, is_missing, get_max_block_size, rule_version,
}
use duniter.GlobalRules.ProofOfWork.{rule_proof_of_work, rule_proof_of_work_iff, BeginsWith, codes}
use duniter.GlobalRules.Check.{
  run_rules, Checked, context_rules, row_rules, check_issuer, check_block,
}
use duniter.GlobalRules.Passed.{Passes, run_rules_iff, rule_at, after_root}
use duniter.GlobalRules.ValidRows.{HasValidRows, HasValidRows-row_rules}

-- The version of the previous HEAD, if there is one, or the next version.
abbrev pub FollowsVersion : DbHead → Option DbHead → Type 0
FollowsVersion head none = Unit
FollowsVersion head (some h) =
    (head.number ≡ 0) ⊎ ((head.version ≡ h.version) ⊎ (head.version ≡ h.version + 1))

-- Two texts that are the same, or that are both missing.
abbrev pub SameText : Option String → Option String → Type 0
SameText s t = (s ≡ t) ⊎ ((is_missing s ≡ true) × (is_missing t ≡ true))

-- The issuer is a stored member, or at the root one of the joiners.
abbrev pub IsKnown : Checked → Type 0
IsKnown c =
    (c.issuer_is_stored_member ≡ true)
    ⊎ ((c.block.number ≡ 0)
        × (some_of (λ ms. str_eq ms.issuer c.block.issuer) c.block.joiners ≡ true))

-- What the block announces is what its HEAD holds, and its hash has the required work.
pub record AgreesWithHead (f : Floats) (margin : f.Number) (conf : ConfDto) (c : Checked)
    (leading remainder : ℕ) : Type 0 where
  pub version : FollowsVersion c.head c.head_1
  pub size : (c.head.number ≡ 0) ⊎ (c.head.bsize < get_max_block_size f margin c.head)
  pub currency : (c.head.number ≡ 0) ⊎ (some c.block.currency ≡ c.head.currency)
  pub number : c.block.number ≡ c.head.number
  pub previous_hash : SameText c.block.previous_hash c.head.previous_hash
  pub previous_issuer : SameText c.block.previous_issuer c.head.previous_issuer
  pub member : c.head.issuer_is_member ≡ true
  pub issuers_count : c.block.issuers_count ≡ c.head.issuers_count
  pub issuers_frame : c.block.issuers_frame ≡ c.head.issuers_frame
  pub issuers_frame_var : c.block.issuers_frame_var ≡ c.head.issuers_frame_var
  pub median_time : c.block.median_time ≡ c.head.median_time
  pub dividend : c.block.dividend ≡ c.head.new_dividend
  pub unit_base : c.block.unitbase ≡ c.head.unit_base
  pub members_count : c.block.members_count ≡ c.head.members_count
  pub pow_min : (c.head.number ≡ 0) ⊎ (c.block.pow_min ≡ c.head.pow_min)
  pub issuer : IsKnown c
  pub work : BeginsWith leading (15 - remainder) (codes c.head.hash)

-- The facts that a block accepted with its proof of work, by a known issuer, has.
pub record IsAccepted (f : Floats) (margin : f.Number) (conf : ConfDto) (c : Checked)
    (leading remainder : ℕ) : Type 0 where
  pub context : AgreesWithHead f margin conf c leading remainder
  pub rows : HasValidRows conf c

eqb_ℤ→eq : (x y : ℤ) → eqb_ℤ x y ≡ true → x ≡ y
eqb_ℤ→eq x y h = eq_of_parts x y ((==_iff _ _).0 h)

same_amount→eq : (x y : Option ℤ) → same_amount x y ≡ true → x ≡ y
same_amount→eq none none h = refl
same_amount→eq none (some y) h = cc
same_amount→eq (some x) none h = cc
same_amount→eq (some x) (some y) h = cc (eqb_ℤ→eq x y h)

same_text→eq : (s t : Option String) → same_text s t ≡ true → s ≡ t
same_text→eq none none h = refl
same_text→eq none (some t) h = cc
same_text→eq (some s) none h = cc
same_text→eq (some s) (some t) h = ap some ((str_eq_iff s t).0 h)

ltb_lt : (m n : ℕ) → ltb m n ≡ true → m < n
ltb_lt m n h = ground arith

or_cases : (a b : Bool) → (a || b) ≡ true → (a ≡ true) ⊎ (b ≡ true)
or_cases a b h = ground arith

same_text-SameText :
    (s t : Option String) → (same_text s t || (is_missing s && is_missing t)) ≡ true → SameText s t
same_text-SameText s t h = elim (or_cases (same_text s t) (is_missing s && is_missing t) h) [
  | inl same ↦ inl (same_text→eq s t same)
  | inr both ↦ inr ((&&_iff _ _).0 both)
]

version_rule-FollowsVersion :
    (head : DbHead) (head_1 : Option DbHead)
    → (elim head_1 [ none ↦ true | some h ↦ rule_version head h ]) ≡ true
    → FollowsVersion head head_1
unfolding rule_version
version_rule-FollowsVersion head none r = tt
version_rule-FollowsVersion head (some h) r = ground arith

check_issuer-IsKnown :
    (f : Floats) (margin : f.Number) (conf : ConfDto) (c : Checked)
    → Succeeds (check_issuer f margin conf c false)
    → IsKnown c
unfolding check_issuer
check_issuer-IsKnown f margin conf c h = elim (Bool-cases c.issuer_is_stored_member) [
  | inl stored ↦ inl stored
  | inr unknown ↦ elim (Bool-cases (c.block.number == 0)) [
    | inl root ↦
        let joins = some_of (λ ms. str_eq ms.issuer c.block.issuer) c.block.joiners in
        inr ((==_iff _ _).0 root, (Succeeds-require joins _).0 (rw (unknown, root) at h))
    | inr later ↦ absurd (rw (unknown, later) at h)
  ]
]

module _ (f : Floats) (margin : f.Number) (conf : ConfDto) where
  -- A block that passes has passed each rule on its rows.
  pub check_block-row_rules :
      (c : Checked) (with_pow ignore_issuer : Bool)
      → Succeeds (check_block f margin conf c with_pow ignore_issuer)
      → All Passes (row_rules f margin conf c)
  unfolding check_block
  check_block-row_rules c with_pow ignore_issuer h =
      let (first, rest) =
        (Succeeds->> (run_rules (context_rules f margin conf c ignore_issuer)) _).0 h in
      let (work, later) =
        (Succeeds->> (require (not with_pow || rule_proof_of_work c.head) "ruleProofOfWork") _).0
          rest in
      let (second, issuer) = (Succeeds->> (run_rules (row_rules f margin conf c)) _).0 later in
      (run_rules_iff (row_rules f margin conf c)).0 second

  AgreesWithHead-context_rules :
      (c : Checked) (leading remainder : ℕ)
      → All Passes (context_rules f margin conf c false)
      → IsKnown c
      → BeginsWith leading (15 - remainder) (codes c.head.hash)
      → AgreesWithHead f margin conf c leading remainder
  unfolding context_rules
  AgreesWithHead-context_rules c leading remainder context issuer work =
      let cs = context_rules f margin conf c false in
      record {
        version = version_rule-FollowsVersion c.head c.head_1 (rule_at cs 0 context);
        size = elim (after_root c.head.number _ (rule_at cs 1 context)) [
          | inl root ↦ inl root
          | inr small ↦ inr (ltb_lt _ _ small)
        ];
        currency = elim (after_root c.head.number _ (rule_at cs 2 context)) [
          | inl root ↦ inl root
          | inr same ↦ inr (same_text→eq _ _ same)
        ];
        number = (==_iff _ _).0 (rule_at cs 3 context);
        previous_hash = same_text-SameText _ _ (rule_at cs 4 context);
        previous_issuer = same_text-SameText _ _ (rule_at cs 5 context);
        member = rule_at cs 6 context;
        issuers_count = (==_iff _ _).0 (rule_at cs 7 context);
        issuers_frame = eqb_ℤ→eq _ _ (rule_at cs 8 context);
        issuers_frame_var = eqb_ℤ→eq _ _ (rule_at cs 9 context);
        median_time = (==_iff _ _).0 (rule_at cs 10 context);
        dividend = same_amount→eq _ _ (rule_at cs 11 context);
        unit_base = (==_iff _ _).0 (rule_at cs 12 context);
        members_count = eqb_ℤ→eq _ _ (rule_at cs 13 context);
        pow_min = elim (after_root c.head.number _ (rule_at cs 14 context)) [
          | inl root ↦ inl root
          | inr same ↦ inr ((==_iff _ _).0 same)
        ];
        issuer = issuer;
        work = work;
      }

  -- Where the zeros of the HEAD are a number and its remainder is one below 15, a block that passes
  -- with its proof of work, its issuer not ignored, agrees with its HEAD: it announces the number, the
  -- previous hash and issuer (or both lack them), the issuers with their frame, the median time, the
  -- dividend, the unit base and the members of the HEAD; after the root also its currency and its
  -- common difficulty, its version follows the previous one, and its size is below the limit. The
  -- issuer is a member, and known; the hash has the required work. Its rows are valid: each test on
  -- ages, periods, stocks, certifications, identities, memberships, keys to be kicked, inputs and
  -- outputs holds of every row, the one on the issuers of certifications after the root, and the one
  -- on distances outside of the currency gtest.
  pub check_block-IsAccepted :
      (c : Checked) (leading remainder : ℕ)
      → c.head.pow_zeros ≡ pos leading
      → c.head.pow_remainder ≡ pos remainder
      → remainder < 15
      → Succeeds (check_block f margin conf c true false)
      → IsAccepted f margin conf c leading remainder
  unfolding check_block
  check_block-IsAccepted c leading remainder z r low h =
      let (first, rest) = (Succeeds->> (run_rules (context_rules f margin conf c false)) _).0 h in
      let (work, later) =
        (Succeeds->> (require (rule_proof_of_work c.head) "ruleProofOfWork") _).0 rest in
      let (second, issuer) = (Succeeds->> (run_rules (row_rules f margin conf c)) _).0 later in
      record {
        context =
            AgreesWithHead-context_rules c leading remainder
              ((run_rules_iff (context_rules f margin conf c false)).0 first)
              (check_issuer-IsKnown f margin conf c issuer)
              ((rule_proof_of_work_iff c.head leading remainder z r low).0
                ((Succeeds-require _ _).0 work));
        rows =
            HasValidRows-row_rules f margin conf c
              ((run_rules_iff (row_rules f margin conf c)).0 second);
      }
