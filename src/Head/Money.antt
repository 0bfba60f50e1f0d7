-- ===== src/Head/Money.antt =====
-- The monetary mass against the dividends that the blocks announce.
use duniter.Base.{
  ℕ, ◌+◌, ◌^◌, ◌≤◌, ◌<◌, ◌≡◌, ◌⊎◌, inl, inr, Bool, true, false, not, Option, none, some, arith,
  ◌==◌, if◌then◌else◌,
}
use duniter.Base.Int.{ℤ, pos, ◌+ℤ◌, ◌*ℤ◌, ◌≤ℤ◌, leb_ℤ, int_laws}
use duniter.Base.Floats.{Floats}
use duniter.Head.{DbHead, ConfDto}
use duniter.Head.Dividend.{prepare_ud_time, inherit_unit_base, prepare_dividend, prepare_money}

-- What a HEAD pays: its new dividend, in units of its base, to each member.
abbrev pub money_created : DbHead → ℤ
money_created h = elim h.new_dividend [
  | none ↦ pos 0
  | some d ↦ d *ℤ pos (10 ^ h.unit_base) *ℤ h.members_count
]

-- A dividend is due when the median time has reached its time.
abbrev pub IsDue : DbHead → DbHead → Type 0
IsDue head head_1 = head_1.ud_time ≤ head.median_time

-- The HEAD once its dividend is computed, before the change of base.
abbrev pub paid_head : (f : Floats) → f.Number → DbHead → DbHead → ConfDto → DbHead
paid_head f c head head_1 conf =
    prepare_dividend f c (inherit_unit_base (prepare_ud_time head head_1 conf) head_1) head_1 conf

-- The dividend before the change of base: re-evaluated if its time has come.
abbrev pub raw_dividend : (f : Floats) → f.Number → DbHead → DbHead → ConfDto → ℤ
raw_dividend f c head head_1 conf = (paid_head f c head head_1 conf).dividend

add_nothing : (x : ℤ) → x ≡ x +ℤ pos 0
add_nothing x = omega int_laws

module _ (root due big : Bool) (d tenth members mass : ℤ) (base : ℕ) where
  abbrev paid : Option ℤ
  paid = if big then some tenth else if root then none else if due then some d else none

  abbrev final_base : ℕ
  final_base = if big then base + 1 else base

  abbrev final_mass : ℤ
  final_mass =
      if root
      then pos 0
      else if due
      then mass +ℤ (if big then tenth else d) *ℤ pos (10 ^ final_base) *ℤ members
      else mass

  mass_adds :
      root ≡ false
      → (due ≡ true) ⊎ (big ≡ false)
      → final_mass
        ≡ mass +ℤ (elim paid [ none ↦ pos 0 | some x ↦ x *ℤ pos (10 ^ final_base) *ℤ members ])
  mass_adds r h = ground (arith, add_nothing mass)

  mass_stays : root ≡ false → due ≡ false → big ≡ true → (final_mass ≡ mass) × (paid ≡ some tenth)
  mass_stays r h b = ground arith

pub after_root : {n : ℕ} → 0 < n → (n == 0) ≡ false
after_root n = ground arith

module _ (f : Floats) (c : f.Number) (head head_1 : DbHead) (conf : ConfDto) where
  abbrev pub is_paid : Bool
  is_paid = not ((prepare_ud_time head head_1 conf).ud_time == head_1.ud_time)

  abbrev pub is_long : Bool
  is_long = leb_ℤ (pos (10 ^ 4)) (raw_dividend f c head head_1 conf)

  abbrev pub a_tenth : ℤ
  a_tenth = f.ceil (f.div (f.of_int (raw_dividend f c head head_1 conf)) (f.of_int (pos 10)))

  abbrev old_base : ℕ
  old_base = (paid_head f c head head_1 conf).unit_base

  not_long : (d : ℤ) → ¬ (pos (10 ^ 4) ≤ℤ d) → leb_ℤ (pos (10 ^ 4)) d ≡ false
  not_long d h = ground arith

  -- After the root, with a dividend period that is not 0, where a dividend is due, or where none is and the dividend has at most four
  -- digits, the mass grows by exactly the dividend that the HEAD announces to its members.
  pub mass_follows_dividend :
      0 < head.number
      → 0 < conf.dt
      → IsDue head head_1 ⊎ ¬ (pos (10 ^ 4) ≤ℤ raw_dividend f c head head_1 conf)
      → (prepare_money f c head head_1 conf).mass
        ≡ head_1.mass +ℤ money_created (prepare_money f c head head_1 conf)
  unfolding prepare_money
  mass_follows_dividend n dt h =
      mass_adds (head.number == 0) is_paid is_long (raw_dividend f c head head_1 conf) a_tenth
        head.members_count head_1.mass old_base (after_root n)
        (elim h [ inl due ↦ inl (ground arith) | inr small ↦ inr (not_long _ small) ])

  -- After the root, where no dividend is due but a re-evaluation brings the dividend to more than
  -- four digits, the HEAD announces a dividend that the mass does not count.
  pub unrecorded_dividend :
      0 < head.number
      → ¬ IsDue head head_1
      → pos (10 ^ 4) ≤ℤ raw_dividend f c head head_1 conf
      → ((prepare_money f c head head_1 conf).mass ≡ head_1.mass)
        × ((prepare_money f c head head_1 conf).new_dividend ≡ some a_tenth)
  unfolding prepare_money
  unrecorded_dividend n early long =
      mass_stays (head.number == 0) is_paid is_long (raw_dividend f c head head_1 conf) a_tenth
        head.members_count head_1.mass old_base (after_root n) (ground arith) (ground arith)
