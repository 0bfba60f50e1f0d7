-- ===== src/GlobalRules/ProofOfWork.antt =====
-- BR_G62 (app/lib/indexer.ts) with the table `PROOF_OF_WORK.UPPER_BOUND` of
-- app/lib/common-libs/constants.ts: the hash begins with the required zeros and one digit in a range.
use Prim.Native.Char.{code}
use duniter.Base.{
  ℕ, zero, suc, ◌+◌, ◌-◌, ◌<◌, ◌≡◌, refl, sym, ◌∙◌, ap₂, subst, &&_iff, ==_iff, ◌↔◌, Bool, true,
  false, ◌&&◌, ◌||◌, String, Option, none, some, List, [], ◌∷◌, arith, leb, ◌==◌, if◌then◌else◌,
  get_elem?,
}
use duniter.Base.Int.{ℤ, pos, negsuc}
use duniter.Head.{DbHead}

-- The code points of a text.
abbrev pub codes : String → List ℕ
codes String.[] = []
codes (String.◌∷◌ c s) = code c ∷ codes s

-- A class "[0-d]" or "[0-9A-l]": its last decimal digit, and its last letter if it has letters.
abbrev UpperBound : Type 0
UpperBound = ℕ × Option ℕ

abbrev upper_bounds : List UpperBound
upper_bounds =
    (b'9', some b'F')
    ∷ (b'9', some b'E')
    ∷ (b'9', some b'D')
    ∷ (b'9', some b'C')
    ∷ (b'9', some b'B')
    ∷ (b'9', some b'A')
    ∷ (b'9', none)
    ∷ (b'8', none)
    ∷ (b'7', none)
    ∷ (b'6', none)
    ∷ (b'5', none)
    ∷ (b'4', none)
    ∷ (b'3', none)
    ∷ (b'2', none)
    ∷ (b'1', none)
    ∷ (b'1', none)
    ∷ []

in_class : UpperBound → ℕ → Bool
in_class (digit, letter) c =
    (leb b'0' c && leb c digit) || elim letter [ none ↦ false | some l ↦ leb b'A' c && leb c l ]

-- `[0-highMark]` for a remainder; past the table it reads `[0-undefined]`, from 0 to the letter u.
mark_matches : ℕ → ℕ → Bool
unfolding in_class
mark_matches remainder c = elim (get_elem? upper_bounds remainder) [
  | none ↦ leb b'0' c && leb c b'u'
  | some bound ↦ in_class bound c
]

-- `^0{n}[0-highMark]` on the code points of the hash.
unfoldable pub pow_matches : ℕ → ℕ → List ℕ → Bool
unfolding mark_matches
pow_matches n remainder [] = false
pow_matches zero remainder (c ∷ cs) = mark_matches remainder c
pow_matches (suc n) remainder (c ∷ cs) = c == b'0' && pow_matches n remainder cs

-- A remainder below zero is not in the table either.
abbrev pub place_of : ℤ → ℕ
place_of (pos r) = r
place_of (negsuc r) = 16

-- BR_G62. With a negative number of zeros the pattern asks for the text of a brace, which no hash has.
unfoldable pub rule_proof_of_work : DbHead → Bool
unfolding pow_matches
rule_proof_of_work head = elim head.pow_zeros [
  | pos n ↦ pow_matches n (place_of head.pow_remainder) (codes head.hash)
  | negsuc n ↦ false
]

-- The value of an upper-case hexadecimal digit.
abbrev pub hex_value : ℕ → Option ℕ
hex_value c =
    if leb b'0' c && leb c b'9'
    then some (c - b'0')
    else if leb b'A' c && leb c b'F'
    then some (c - b'A' + 10)
    else none

abbrev pub digit_at_most : ℕ → ℕ → Bool
digit_at_most n c = elim (hex_value c) [ none ↦ false | some v ↦ leb v n ]

mark_matches-digit : (r c : ℕ) → r < 15 → mark_matches r c ≡ digit_at_most (15 - r) c
unfolding mark_matches
mark_matches-digit zero c h = ground arith
mark_matches-digit (suc zero) c h = ground arith
mark_matches-digit (suc (suc zero)) c h = ground arith
mark_matches-digit (suc (suc (suc zero))) c h = ground arith
mark_matches-digit (suc (suc (suc (suc zero)))) c h = ground arith
mark_matches-digit (suc (suc (suc (suc (suc zero))))) c h = ground arith
mark_matches-digit (suc (suc (suc (suc (suc (suc zero)))))) c h = ground arith
mark_matches-digit (suc (suc (suc (suc (suc (suc (suc zero))))))) c h = ground arith
mark_matches-digit (suc (suc (suc (suc (suc (suc (suc (suc zero)))))))) c h = ground arith
mark_matches-digit (suc (suc (suc (suc (suc (suc (suc (suc (suc zero))))))))) c h = ground arith
mark_matches-digit (suc (suc (suc (suc (suc (suc (suc (suc (suc (suc zero)))))))))) c h =
    ground arith
mark_matches-digit (suc (suc (suc (suc (suc (suc (suc (suc (suc (suc (suc zero))))))))))) c h =
    ground arith
mark_matches-digit (suc (suc (suc (suc (suc (suc (suc (suc (suc (suc (suc (suc zero)))))))))))) c
      h =
    ground arith
mark_matches-digit
      (suc (suc (suc (suc (suc (suc (suc (suc (suc (suc (suc (suc (suc zero))))))))))))) c h =
    ground arith
mark_matches-digit
      (suc (suc (suc (suc (suc (suc (suc (suc (suc (suc (suc (suc (suc (suc zero)))))))))))))) c h =
    ground arith
mark_matches-digit
      (suc (suc (suc (suc (suc (suc (suc (suc (suc (suc (suc (suc (suc (suc (suc r))))))))))))))) c
      h =
    absurd (omega arith)

abbrev pub zero_digits : ℕ → List ℕ → List ℕ
zero_digits zero cs = cs
zero_digits (suc n) cs = b'0' ∷ zero_digits n cs

-- A hash begins with zeros and then a digit of the given range.
abbrev pub BeginsWith : ℕ → ℕ → List ℕ → Type 0
BeginsWith n top cs =
    (d : ℕ) × (rest : List ℕ) × (cs ≡ zero_digits n (d ∷ rest)) × (digit_at_most top d ≡ true)

pow_matches_sound :
    (n r : ℕ) (cs : List ℕ) → r < 15 → pow_matches n r cs ≡ true → BeginsWith n (15 - r) cs
unfolding pow_matches
pow_matches_sound zero r [] h e = cc
pow_matches_sound (suc n) r [] h e = cc
pow_matches_sound zero r (c ∷ cs) h e = (c, cs, refl, sym (mark_matches-digit r c h) ∙ e)
pow_matches_sound (suc n) r (c ∷ cs) h e =
    let (first, later) = (&&_iff _ _).0 e in
    let (d, rest, same, top) = pow_matches_sound n r cs h later in
    (d, rest, ap₂ ◌∷◌ ((==_iff c b'0').0 first) same, top)

pow_matches_complete :
    (n r : ℕ) (d : ℕ) (rest : List ℕ)
    → r < 15
    → digit_at_most (15 - r) d ≡ true
    → pow_matches n r (zero_digits n (d ∷ rest)) ≡ true
unfolding pow_matches
pow_matches_complete zero r d rest h e = mark_matches-digit r d h ∙ e
pow_matches_complete (suc n) r d rest h e = pow_matches_complete n r d rest h e

-- Where the zeros of the HEAD are a number and its remainder is one below 15, the proof of work is
-- accepted exactly when the hash begins with that many zeros and then a hexadecimal digit of at most
-- 15 minus the remainder.
pub rule_proof_of_work_iff :
    (head : DbHead) (leading remainder : ℕ)
    → head.pow_zeros ≡ pos leading
    → head.pow_remainder ≡ pos remainder
    → remainder < 15
    → (rule_proof_of_work head ≡ true) ↔ BeginsWith leading (15 - remainder) (codes head.hash)
unfolding rule_proof_of_work
rule_proof_of_work_iff head leading remainder z r h = rw z (
    rw r (
      pow_matches_sound leading remainder (codes head.hash) h,
      λ (d, rest, same, top).
          subst (λ cs. pow_matches leading remainder cs ≡ true) (sym same)
            (pow_matches_complete leading remainder d rest h top),
    ))
