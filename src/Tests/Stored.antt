-- ===== src/Tests/Stored.antt =====
-- A block that pays a dividend, stored on one that has the mass of its HEAD.
use duniter.Base.{◌≡◌, ◌≢◌, refl, sym, ◌∙◌, true, inl, arith, some}
use duniter.Base.Int.{pos}
use duniter.Block.{BlockDto}
use duniter.Head.{DbHead}
use duniter.Head.Dividend.{prepare_money}
use duniter.GlobalRules.Context.{rule_dividend, rule_unit_base, rule_members_count}
use duniter.Storing.{CurrentVars, update_blocks_computed_vars}
use duniter.Storing.Tracking.{Tracks, vars_of, stored_vars, update_blocks_computed_vars-Tracks}
use duniter.Tests.Sample.{conf, root_block, some_head, whole_numbers}
use duniter.Tests.Heads.{due_head}

abbrev due_money : DbHead
due_money = prepare_money whole_numbers (pos 1) due_head some_head conf

abbrev due_block : BlockDto
due_block = record root_block {
  number = 1;
  dividend = some (some_head.dividend);
  unitbase = some_head.unit_base;
  members_count = some_head.members_count;
}

abbrev stored_root : CurrentVars
stored_root = record { unitbase = some_head.unit_base; monetary_mass = some_head.mass }

pays : rule_dividend due_block due_money ≡ true
unfolding rule_dividend prepare_money
pays = refl

has_its_base : rule_unit_base due_block due_money ≡ true
unfolding rule_unit_base prepare_money
has_its_base = refl

has_its_members : rule_members_count due_block due_money ≡ true
unfolding rule_members_count prepare_money
has_its_members = refl

differs : some some_head.dividend ≢ some (pos 0)
differs h = ground arith

announces : due_money.new_dividend ≡ some some_head.dividend
unfolding prepare_money
announces = refl

pays_something : ¬ (due_money.new_dividend ≡ some (pos 0))
pays_something h = differs (sym announces ∙ h)

update_blocks_computed_vars-Tracks_example :
    Tracks
      (stored_vars (update_blocks_computed_vars (some stored_root) (vars_of due_block (pos 0))))
      due_money
update_blocks_computed_vars-Tracks_example =
    update_blocks_computed_vars-Tracks whole_numbers (pos 1) due_head some_head conf due_block
      stored_root (pos 0) (record { same_base = refl; same_mass = refl }) (omega arith)
      (omega arith) (inl (omega arith)) pays has_its_base has_its_members pays_something
