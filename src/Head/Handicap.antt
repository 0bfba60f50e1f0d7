-- ===== src/Head/Handicap.antt =====
-- The personalized difficulty (BR_G18 of app/lib/indexer.ts), from what the engine's numbers promise.
use duniter.Base.{
  ℕ, ◌+◌, ◌*◌, ◌^◌, ◌%◌, ◌/◌, ◌-◌, ◌≤◌, ◌<◌, ◌≡◌, refl, ap, true, false, inl, inr, arith, ◌==◌, ◌⊎◌,
  leb, str_eq, if◌then◌else◌, Bool-cases, length, filter_by, length-filter_by-le,
}
use duniter.Base.Int.{ℤ, pos, negsuc, ◌+ℤ◌, ◌*ℤ◌, ◌≤ℤ◌, eqb_ℤ, int_laws}
use duniter.Base.Floats.{Floats}
use duniter.Head.{DbHead}
use duniter.Head.Issuers.{Ranger}
use duniter.Head.Difficulty.{
  FrameStats, frame_stats, personal_handicap, personal_factor, personalize, remainder_16,
  quotient_16, max_ℤ,
}

module _ (f : Floats) where
  abbrev pub whole : ℕ → f.Number
  whole n = f.of_int (pos n)

  -- `a >= b`, false as soon as one of them is not a number.
  abbrev pub IsAtLeast : f.Number → f.Number → Type 0
  IsAtLeast a b = f.ge a b ≡ true

  -- What the engine documents of its numbers, as far as the handicap relies on it; `IsFinite` is
  -- `Number.isFinite`. The last two say that the growth factor, 1.189, has a logarithm above 0.
  pub record EngineLaws (growth : f.Number) : Type 1 where
    pub IsFinite : f.Number → Type 0
    pub whole_finite : (n : ℕ) → n < 2 ^ 53 → IsFinite (whole n)
    pub half_large : (n : ℕ) → 2 ≤ n → IsAtLeast (f.div (whole n) (whole 2)) (whole 1)
    pub quotient_finite :
        (a b : f.Number) → IsFinite a → IsAtLeast b (whole 1) → IsFinite (f.div a b)
    pub less_one_finite : (a : f.Number) → IsFinite a → IsFinite (f.sub a (whole 1))
    pub max_finite : (a b : f.Number) → IsFinite a → IsFinite b → IsFinite (f.max_of a b)
    pub max_large : (a b : f.Number) → IsFinite a → IsFinite b → IsAtLeast (f.max_of a b) a
    pub log_finite :
        (a : f.Number) → IsFinite a → IsAtLeast a (whole 0) → IsFinite (f.log (f.add (whole 1) a))
    pub log_large :
        (a : f.Number)
        → IsFinite a
        → IsAtLeast a (whole 0)
        → IsAtLeast (f.log (f.add (whole 1) a)) (whole 0)
    pub quotient_large :
        (a b : f.Number)
        → IsFinite a
        → IsAtLeast a (whole 0)
        → IsAtLeast b (whole 0)
        → f.ge (whole 0) b ≡ false
        → IsAtLeast (f.div a b) (whole 0)
    pub floor_large : (a : f.Number) → IsAtLeast a (whole 0) → pos 0 ≤ℤ f.floor a
    pub growth_large : IsAtLeast (f.log growth) (whole 0)
    pub growth_above : f.ge (whole 0) (f.log growth) ≡ false

sum_whole : (m n : ℕ) → pos m +ℤ pos n ≡ pos (m + n)
sum_whole m n = omega int_laws

-- A sum with what is not negative does not fall below its first part.
sum_large : (c : ℕ) (y h : ℤ) → pos c ≤ℤ y → pos 0 ≤ℤ h → (n : ℕ) × (c ≤ n) × (y +ℤ h ≡ pos n)
sum_large c (pos a) (pos b) y h = (a + b, omega arith, sum_whole a b)
sum_large c (negsuc a) h y e = absurd (omega arith)
sum_large c (pos a) (negsuc b) y h = absurd (omega arith)

max_ℤ-large : (x y : ℤ) → x ≤ℤ max_ℤ x y
max_ℤ-large x y = ground arith

-- The personalized difficulty of a HEAD is a number of zeros and a remainder below 15 which make a
-- level that is at least the common one.
abbrev pub IsPersonal : ℕ → DbHead → Type 0
IsPersonal common h =
    (zeros : ℕ) × (remainder : ℕ) × (h.pow_zeros ≡ pos zeros)
    × (h.pow_remainder ≡ pos remainder)
    × (h.issuer_diff ≡ pos (zeros * 16 + remainder))
    × (common ≤ zeros * 16 + remainder)
    × (remainder < 15)

-- The level, or the next one where its remainder would be 15.
abbrev skip_15 : ℤ → ℤ
skip_15 level = if eqb_ℤ (remainder_16 (level +ℤ pos 1)) (pos 0) then level +ℤ pos 1 else level

abbrev IsSplit : ℕ → ℤ → Type 0
IsSplit common diff =
    (zeros : ℕ) × (remainder : ℕ) × (quotient_16 diff ≡ pos zeros)
    × (remainder_16 diff ≡ pos remainder)
    × (diff ≡ pos (zeros * 16 + remainder))
    × (common ≤ zeros * 16 + remainder)
    × (remainder < 15)

whole-IsSplit : (common n : ℕ) → common ≤ n → n % 16 < 15 → IsSplit common (pos n)
whole-IsSplit common n le r =
    ((n - n % 16) / 16, n % 16, refl, refl, ap pos (omega arith), omega arith, r)

skip_15-IsSplit : (common n : ℕ) → common ≤ n → IsSplit common (skip_15 (pos n))
skip_15-IsSplit common n le =
    rw (sum_whole n 1) (elim (Bool-cases (eqb_ℤ (pos ((n + 1) % 16)) (pos 0))) [
      | inl full ↦ rw full (whole-IsSplit common (n + 1) (omega arith) (ground arith))
      | inr rest ↦ rw rest (whole-IsSplit common n le (ground arith))
    ])

module _ (f : Floats) (growth percent_rot : f.Number) (laws : EngineLaws f growth) where
  personal_handicap-large :
      (s : FrameStats)
      → s.personal_blocks + 1 < 2 ^ 53
      → 2 ≤ s.twice_median_blocks
      → pos 0 ≤ℤ personal_handicap f growth percent_rot s
  unfolding personal_handicap
  personal_handicap-large s small median =
      let half = f.div (whole f s.twice_median_blocks) (whole f 2) in
      let share = f.div (whole f (s.personal_blocks + 1)) half in
      let share_finite = laws.less_one_finite share (
        laws.quotient_finite (whole f (s.personal_blocks + 1)) half
          (laws.whole_finite (s.personal_blocks + 1) small)
          (laws.half_large s.twice_median_blocks median)) in
      let zero_finite = laws.whole_finite 0 (omega arith) in
      let excess = f.max_of (whole f 0) (f.sub share (whole f 1)) in
      let finite = laws.max_finite (whole f 0) (f.sub share (whole f 1)) zero_finite share_finite in
      let large = laws.max_large (whole f 0) (f.sub share (whole f 1)) zero_finite share_finite in
      laws.floor_large _ (
        laws.quotient_large (f.log (f.add (whole f 1) excess)) (f.log growth)
          (laws.log_finite excess finite large) (laws.log_large excess finite large)
          laws.growth_large laws.growth_above)

  -- On an engine whose numbers keep the EngineLaws, with fewer than 2^53 - 1 blocks of the issuer in the
  -- frame and a median of at least one block per issuer, the personalized difficulty is a number that
  -- is at least the common one, is split into its zeros and its remainder, and the remainder is never
  -- 15.
  pub personalize_levels :
      (s : FrameStats) (head : DbHead)
      → s.personal_blocks + 1 < 2 ^ 53
      → 2 ≤ s.twice_median_blocks
      → IsPersonal head.pow_min (personalize f growth percent_rot s head)
  unfolding personalize
  personalize_levels s head small median =
      let common = pos head.pow_min in
      let factored = common *ℤ personal_factor f growth percent_rot s in
      let (n, above, same) =
        sum_large head.pow_min (max_ℤ common factored) (personal_handicap f growth percent_rot s)
          (max_ℤ-large common factored) (personal_handicap-large s small median) in
      rw same (skip_15-IsSplit head.pow_min n above)

-- The statistics of a frame that is an array.
pub frame_stats-IsSmall :
    (head head_1 : DbHead) (range : Ranger)
    → (head.number ≡ 0) ⊎ (length (range (pos 1) head_1.issuers_frame) < 2 ^ 32)
    → let s = frame_stats head head_1 range in
      (s.personal_blocks + 1 < 2 ^ 53) × (2 ≤ s.twice_median_blocks)
unfolding frame_stats
frame_stats-IsSmall head head_1 range h = elim (Bool-cases (head.number == 0)) [
  | inl root ↦ rw root (omega arith, omega arith)
  | inr later ↦
      let blocks = range (pos 1) head_1.issuers_frame in
      let in_frame = filter_by (λ (b : DbHead). leb b.number head_1.number) blocks in
      let few = length-filter_by-le (λ (b : DbHead). leb b.number head_1.number) blocks in
      let fewer = length-filter_by-le (λ (b : DbHead). str_eq b.issuer head.issuer) in_frame in
      let short : length blocks < 2 ^ 32 = ground arith in
      rw later (omega (arith, few, fewer, short), omega arith)
]
