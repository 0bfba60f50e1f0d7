-- ===== src/Storing/Tracking.antt =====
-- About the unit base and the mass of stored blocks, against the HEADs.
use duniter.Base.{
  ℕ, ◌+◌, ◌^◌, ◌≤◌, ◌<◌, ◌≡◌, refl, sym, ◌∙◌, ap, ◌⊎◌, inl, inr, Bool, true, false, not, ◌&&◌,
  Option, none, some, arith, ◌==◌, if◌then◌else◌, Bool-cases, ==_iff,
}
use duniter.Base.Int.{ℤ, pos, ◌+ℤ◌, ◌*ℤ◌, ◌≤ℤ◌, eqb_ℤ, eq_of_parts}
use duniter.Base.Floats.{Floats}
use duniter.Block.{BlockDto}
use duniter.Head.{DbHead, ConfDto}
use duniter.Head.Dividend.{prepare_money}
use duniter.Head.Money.{
  IsDue, raw_dividend, is_paid, is_long, a_tenth, after_root, mass_follows_dividend,
}
use duniter.GlobalRules.Context.{rule_dividend, rule_unit_base, rule_members_count, same_amount}
use duniter.Storing.{
  CurrentVars, BlockVars, is_announced, dividend_or_zero, computed_unitbase,
  update_blocks_computed_vars,
}

-- A stored block that has the unit base and the mass of its HEAD.
pub record Tracks (c : CurrentVars) (h : DbHead) : Type 0 where
  pub same_base : c.unitbase ≡ h.unit_base
  pub same_mass : c.monetary_mass ≡ h.mass

abbrev pub vars_of : BlockDto → ℤ → BlockVars
vars_of block mass = record {
  number = block.number;
  unitbase = block.unitbase;
  dividend = block.dividend;
  members_count = block.members_count;
  monetary_mass = mass;
}

abbrev pub stored_vars : BlockVars → CurrentVars
stored_vars b = record { unitbase = b.unitbase; monetary_mass = b.monetary_mass }

eqb_ℤ_eq : (x y : ℤ) → eqb_ℤ x y ≡ true → x ≡ y
eqb_ℤ_eq x y h = eq_of_parts x y (ground arith)

same_amount_eq : (x y : Option ℤ) → same_amount x y ≡ true → x ≡ y
same_amount_eq none none h = refl
same_amount_eq none (some y) h = absurd (ground arith)
same_amount_eq (some x) none h = absurd (ground arith)
same_amount_eq (some x) (some y) h = ap some (eqb_ℤ_eq x y h)

zero_times : (x : ℤ) → pos 0 *ℤ x ≡ pos 0
unfolding ◌*ℤ◌
zero_times x = ground arith

base_of :
    (root due big : Bool) (d tenth : ℤ) (base : ℕ)
    → root ≡ false
    → let inherited : ℕ = if root then 0 else base in
      let final : ℕ = if big then inherited + 1 else inherited in
      (base ≤ final)
      × ((if big then some tenth else if root then none else if due then some d else none) ≡ none
          → final ≡ base)
base_of root due big d tenth base r = ground arith

computed_base :
    (d : Option ℤ) (u c : ℕ)
    → c ≤ u
    → (d ≡ none → u ≡ c)
    → ¬ (d ≡ some (pos 0))
    → (if is_announced d && not (u == 0) then u else c) ≡ u
computed_base none u c le kept nonzero = sym (kept refl)
computed_base (some d) u c le kept nonzero = elim (Bool-cases (eqb_ℤ d (pos 0))) [
  | inl zero_dividend ↦ absurd (nonzero (ap some (eqb_ℤ_eq d (pos 0) zero_dividend)))
  | inr other ↦ rw other (ground arith)
]

created :
    (d : Option ℤ) (scale members : ℤ)
    → dividend_or_zero d *ℤ scale *ℤ members
      ≡ elim d [ none ↦ pos 0 | some x ↦ x *ℤ scale *ℤ members ]
created none scale members = ap (λ z. z *ℤ members) (zero_times scale) ∙ zero_times members
created (some d) scale members = refl

module _ (f : Floats) (c : f.Number) (head head_1 : DbHead) (conf : ConfDto) where
  abbrev new_head : DbHead
  new_head = prepare_money f c head head_1 conf

  base_moves :
      0 < head.number
      → (head_1.unit_base ≤ new_head.unit_base)
        × (new_head.new_dividend ≡ none → new_head.unit_base ≡ head_1.unit_base)
  unfolding prepare_money
  base_moves n =
      base_of (head.number == 0) (is_paid f c head head_1 conf) (is_long f c head head_1 conf)
        (raw_dividend f c head head_1 conf) (a_tenth f c head head_1 conf) head_1.unit_base
        (after_root n)

  -- After the root, with a dividend period that is not 0: when the block announces the dividend,
  -- the unit base and the number of members of its HEAD, the dividend is not 0, and is due or has at
  -- most four digits before the change of base, then a block stored on one that has the unit base
  -- and the mass of its HEAD has the unit base and the mass of the new HEAD.
  pub update_blocks_computed_vars-Tracks :
      (block : BlockDto) (current : CurrentVars) (announced_mass : ℤ)
      → Tracks current head_1
      → 0 < head.number
      → 0 < conf.dt
      → IsDue head head_1 ⊎ ¬ (pos (10 ^ 4) ≤ℤ raw_dividend f c head head_1 conf)
      → rule_dividend block new_head ≡ true
      → rule_unit_base block new_head ≡ true
      → rule_members_count block new_head ≡ true
      → ¬ (new_head.new_dividend ≡ some (pos 0))
      → Tracks
          (stored_vars (update_blocks_computed_vars (some current) (vars_of block announced_mass)))
          new_head
  unfolding update_blocks_computed_vars computed_unitbase rule_dividend rule_unit_base
      rule_members_count
  update_blocks_computed_vars-Tracks block current announced_mass t n dt due d u m nonzero =
      let moves = base_moves n in
      let same_dividend = same_amount_eq block.dividend new_head.new_dividend d in
      let same_unit = (==_iff block.unitbase new_head.unit_base).0 u in
      let same_members = eqb_ℤ_eq block.members_count new_head.members_count m in
      let base = computed_unitbase (some current) (vars_of block announced_mass) in
      let base_eq : base ≡ new_head.unit_base = rw same_dividend (
        rw same_unit (
          rw t.same_base (
            computed_base new_head.new_dividend new_head.unit_base head_1.unit_base moves.0 moves.1
              nonzero))) in
      record {
        same_base = base_eq;
        same_mass = rw base_eq (
            rw same_dividend (
              rw same_members (
                rw t.same_mass (
                  ap (λ z. head_1.mass +ℤ z)
                    (created new_head.new_dividend (pos (10 ^ new_head.unit_base))
                      new_head.members_count)
                  ∙ sym (mass_follows_dividend f c head head_1 conf n dt due)))));
      }
