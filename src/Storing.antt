-- ===== src/Storing.antt =====
-- app/lib/blockchain/DuniterBlockchain.ts: what `saveBlockData` computes of a block before it
-- stores it (`updateBlocksComputedVars`), and the number of HEADs that `trimIndexes` keeps.
pub mod Tracking
use duniter.Base.{
  ℕ, ◌+◌, ◌-◌, ◌^◌, ◌==◌, ltb, not, ◌&&◌, Bool, true, false, Option, none, some, max, if◌then◌else◌,
}
use duniter.Base.Int.{ℤ, pos, ◌+ℤ◌, ◌-ℤ◌, ◌*ℤ◌, eqb_ℤ, negsuc}

-- The stored block that the new one follows.
pub record CurrentVars : Type 0 where
  pub unitbase : ℕ
  pub monetary_mass : ℤ

pub record BlockVars : Type 0 where
  pub number : ℕ
  pub unitbase : ℕ
  pub dividend : Option ℤ
  pub members_count : ℤ
  pub monetary_mass : ℤ

-- A dividend of 0 is as good as none.
abbrev pub is_announced : Option ℤ → Bool
is_announced none = false
is_announced (some d) = not (eqb_ℤ d (pos 0))

abbrev pub dividend_or_zero : Option ℤ → ℤ
dividend_or_zero none = pos 0
dividend_or_zero (some d) = d

unfoldable pub computed_unitbase : Option CurrentVars → BlockVars → ℕ
computed_unitbase current block =
    let inherited : ℕ = elim current [ none ↦ 0 | some c ↦ c.unitbase ] in
    if is_announced block.dividend && not (block.unitbase == 0) then block.unitbase else inherited

unfoldable pub update_blocks_computed_vars : Option CurrentVars → BlockVars → BlockVars
unfolding computed_unitbase
update_blocks_computed_vars current block =
    let base = computed_unitbase current block in
    record block {
      unitbase = base;
      monetary_mass = elim current [
        | none ↦ pos 0
        | some c ↦
            c.monetary_mass
            +ℤ dividend_or_zero block.dividend *ℤ pos (10 ^ base) *ℤ block.members_count
      ];
      dividend =
          if block.number == 0
          then none
          else if is_announced block.dividend
          then block.dividend
          else none;
    }

-- `requiredBindexSizeForTail`; the frame of issuers may be below zero.
unfoldable pub required_bindex_size_for_tail : ℕ → ℤ → ℕ → ℕ → ℕ → ℕ
required_bindex_size_for_tail issuers_count issuers_frame median_time_blocks dt_diff_eval forksize =
    let frame : ℕ = elim issuers_frame [ pos n ↦ n | negsuc n ↦ 0 ] in
    forksize + max (max (max issuers_count frame) median_time_blocks) dt_diff_eval

-- The number below which `trimIndexes` drops rows, where it drops any.
unfoldable pub trim_below : ℕ → ℕ → ℕ → Option ℕ
trim_below head_number tail_number max_bindex_size =
    if ltb max_bindex_size (head_number - tail_number + 1)
    then some (head_number - max_bindex_size)
    else none
