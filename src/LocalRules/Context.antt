-- ===== src/LocalRules/Context.antt =====
-- The rules on the fields of the block (app/lib/rules/local_rules.ts, rules/helpers.ts). What
-- `verify` and `hashf` answer comes from the native module and is a parameter.
use duniter.Base.{
  ℕ, zero, suc, ◌+◌, ◌-◌, ◌/◌, ◌%◌, Bool, true, false, not, ◌&&◌, ◌||◌, String, List, [], ◌∷◌, ltb,
  leb, ◌==◌, str_eq, if◌then◌else◌,
}
use duniter.Base.Int.{pos, pos_part}
use duniter.Base.Floats.{Floats}
use duniter.Base.Outcome.{Outcome, done, throw, require}
use duniter.Block.{BlockDto}
use duniter.Head.{ConfDto}
use duniter.GlobalRules.Context.{is_missing}
use duniter.GlobalRules.ProofOfWork.{codes}

-- `if (number == 0 && given) throw … else if (number > 0 && !given) throw …`
abbrev pub only_after_root : BlockDto → Bool → String → String → Outcome (Unit {0})
only_after_root block given at_root after_root =
    if block.number == 0 && given
    then throw at_root
    else if ltb 0 block.number && not given
    then throw after_root
    else done tt

unfoldable pub check_parameters : BlockDto → Outcome (Unit {0})
check_parameters block =
    if block.number == 0 && is_missing block.parameters
    then throw "Parameters must be provided for root block"
    else if ltb 0 block.number && not (is_missing block.parameters)
    then throw "Parameters must not be provided for non-root block"
    else done tt

-- `^0{n}`
unfoldable pub starts_with_zeros : ℕ → List ℕ → Bool
starts_with_zeros zero cs = true
starts_with_zeros (suc n) [] = false
starts_with_zeros (suc n) (c ∷ cs) = c == b'0' && starts_with_zeros n cs

unfoldable pub is_proof_of_work_correct : BlockDto → Bool
unfolding starts_with_zeros
is_proof_of_work_correct block =
    let remainder = block.pow_min % 16 in
    starts_with_zeros ((block.pow_min - remainder) / 16) (codes block.hash)

unfoldable pub check_proof_of_work : BlockDto → Outcome (Unit {0})
unfolding is_proof_of_work_correct
check_proof_of_work block = require (is_proof_of_work_correct block) "Not a proof-of-work"

unfoldable pub check_inner_hash : (BlockDto → String) → BlockDto → Outcome (Unit {0})
check_inner_hash inner_hash_of block =
    require (str_eq block.inner_hash (inner_hash_of block)) "Wrong inner hash"

unfoldable pub check_previous_hash : BlockDto → Outcome (Unit {0})
check_previous_hash block =
    only_after_root block (not (is_missing block.previous_hash))
      "PreviousHash must not be provided for root block"
      "PreviousHash must be provided for non-root block"

unfoldable pub check_previous_issuer : BlockDto → Outcome (Unit {0})
check_previous_issuer block =
    only_after_root block (not (is_missing block.previous_issuer))
      "PreviousIssuer must not be provided for root block"
      "PreviousIssuer must be provided for non-root block"

unfoldable pub check_unit_base : BlockDto → Outcome (Unit {0})
check_unit_base block =
    if block.number == 0 && not (block.unitbase == 0)
    then throw "UnitBase must equal 0 for root block"
    else done tt

-- `Set.has`
abbrev has : List ℕ → ℕ → Bool
has [] n = false
has (m ∷ ms) n = m == n || has ms n

abbrev pub invalid_g1_blocks : List ℕ
invalid_g1_blocks =
    15144 ∷ 31202 ∷ 85448 ∷ 87566 ∷ 90830 ∷ 109327 ∷ 189835 ∷ 199172 ∷ 221274 ∷ 253582 ∷ []

abbrev pub invalid_gt_blocks : List ℕ
invalid_gt_blocks =
    24316 ∷ 62067 ∷ 62551 ∷ 93288 ∷ 173118 ∷ 183706 ∷ 196196 ∷ 246027 ∷ 247211 ∷ 263207 ∷ 307038
    ∷ 328741 ∷ 335914 ∷ 377316 ∷ 395714 ∷ 396024 ∷ 407913 ∷ 422366 ∷ 496751 ∷ []

-- `verified` is whether the signature of the block matches.
unfoldable pub check_block_signature : (BlockDto → Bool) → BlockDto → Outcome (Unit {0})
check_block_signature verified block =
    if verified block
    then done tt
    else if leb 12 block.version
    then throw "Block's signature must match"
    else if str_eq block.currency "g1"
    then require (has invalid_g1_blocks block.number) "Block's signature must match"
    else if str_eq block.currency "g1-test"
    then require (has invalid_gt_blocks block.number) "Block's signature must match"
    else throw "Block's signature must match"

-- `maxAcceleration`; `growth` is POW_DIFFICULTY_RANGE_RATIO.
unfoldable pub max_acceleration : (f : Floats) → f.Number → ConfDto → ℕ
max_acceleration f growth conf =
    let max_gen_time = f.ceil (f.mul (f.of_int (pos conf.avg_gen_time)) growth) in
    pos_part (f.ceil (f.mul (f.of_int max_gen_time) (f.of_int (pos conf.median_time_blocks))))

unfoldable pub check_block_times : (f : Floats) → f.Number → BlockDto → ConfDto → Outcome (Unit {0})
check_block_times f growth block conf =
    if ltb 0 block.number
      && (ltb block.time block.median_time
          || ltb (block.median_time + max_acceleration f growth conf) block.time)
    then throw "A block must have its Time between MedianTime and MedianTime + maxAcceleration"
    else if block.number == 0 && not (block.time == block.median_time)
    then throw "Root block must have Time equal MedianTime"
    else done tt
