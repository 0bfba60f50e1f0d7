-- ===== src/GlobalRules/Passed.antt =====
-- About a list of rules that all pass.
use duniter.Base.{
  ℕ, zero, suc, get_elem?, ◌≡◌, refl, ◌↔◌, Bool, true, false, Option, none, some, List, [], ◌∷◌,
  All, ◌⊎◌, arith, if◌then◌else◌, ltb,
}
use duniter.Base.Outcome.{Succeeds}
use duniter.GlobalRules.Check.{Rule, run_rules}

abbrev pub Passes : Rule → Type 0
Passes (name, ok) = ok ≡ true

pub run_rules_iff : (rules : List Rule) → Succeeds (run_rules rules) ↔ All Passes rules
unfolding run_rules
run_rules_iff [] = (λ _. tt, λ _. tt)
run_rules_iff ((name, true) ∷ rules) =
    (λ h. (refl, (run_rules_iff rules).0 h), λ h. (run_rules_iff rules).1 h.1)
run_rules_iff ((name, false) ∷ rules) = (λ h. absurd h, λ h. cc (h.0))

abbrev pub PassesAt : Option Rule → Type 0
PassesAt none = Unit
PassesAt (some r) = Passes r

-- The rule at a position of a list that passes.
pub rule_at : (rules : List Rule) (k : ℕ) → All Passes rules → PassesAt (get_elem? rules k)
rule_at [] k h = tt
rule_at (r ∷ rules) zero h = h.0
rule_at (r ∷ rules) (suc k) h = rule_at rules k h.1

-- A rule that holds at the root, or by its test.
pub after_root : (n : ℕ) (b : Bool) → (if ltb 0 n then b else true) ≡ true → (n ≡ 0) ⊎ (b ≡ true)
after_root n b h = ground arith
