-- ===== src/Enrichment/Sources.antt =====
-- app/lib/indexer.ts, the rules that complete the sindex: BR_G102, BR_G46 to BR_G48, with
-- `getInputLocalFirstOrFallbackGlobally` and `txSourceUnlock`; and `unlock2params` and
-- `getTransactionSigResult` of app/lib/dto/TransactionDTO.ts.
use Prim.Native.Char.{code}
use duniter.Base.{
  ℕ, ◌+◌, ◌-◌, ◌*◌, Bool, true, false, not, ◌&&◌, String, Option, none, some, List, [], ◌∷◌, ◌==◌,
  str_eq, leb, if◌then◌else◌, filter_by,
}
use duniter.Base.Int.{ℤ, pos, ◌-ℤ◌, ltb_ℤ}
use duniter.Base.Outcome.{Outcome, done, throw, ◌>>=◌, map_all}
use duniter.Transactions.{TransactionDto, SourceType}
use duniter.Index.{SindexEntry, is_create, is_update}
use duniter.GlobalRules.ProofOfWork.{codes}
use duniter.LocalRules.Txs.{contains}
use duniter.Unlock.{UnlockEngine, UnlockMetadata, TxSignatureResult, JsValue, is_true, unlock}
use duniter.Enrichment.{IndexDal, Scope, SimpleTxInput, time_1}

-- What a rule reads of a source; `conditions` and `written_time` are undefined for one not found.
pub record FoundSource : Type 0 where
  pub conditions : Option String
  pub consumed : Bool
  pub written_time : Option ℕ

abbrev is_dividend : SourceType → Bool
is_dividend SourceType.transaction = false
is_dividend SourceType.dividend = true

-- Whether the row creates the source that the other spends, inside the block.
abbrev pub creates_source : SindexEntry → SindexEntry → Bool
creates_source e src =
    str_eq src.identifier e.identifier
    && src.pos == e.pos
    && not (str_eq src.conditions "")
    && is_create src.op

abbrev first_of : List SindexEntry → Option SindexEntry
first_of [] = none
first_of (e ∷ es) = some e

-- `reduce` of the rows, each of which gives every field.
abbrev last_of : List SimpleTxInput → Option SimpleTxInput
last_of [] = none
last_of (r ∷ rs) = let later = last_of rs in elim later [ none ↦ some r | some x ↦ some x ]

unfoldable pub get_input : IndexDal → List SindexEntry → SindexEntry → FoundSource
get_input dal sindex e = elim (first_of (filter_by (creates_source e) sindex)) [
  | some src ↦ record {
    conditions = some src.conditions;
    consumed = src.consumed;
    written_time = some src.written_time;
  }
  | none ↦
      let rows =
        dal.find_by_identifier_pos_amount_base e.identifier e.pos e.amount e.base
          (is_dividend e.src_type) in
      elim (last_of rows) [
        | none ↦ record { conditions = none; consumed = false; written_time = none }
        | some r ↦ record {
          conditions = some r.conditions;
          consumed = r.consumed;
          written_time = some r.written_time;
        }
      ]
]

-- `/^\d+:(.*)$/`: what follows the digits and the colon.
abbrev pub is_digit : ℕ → Bool
is_digit c = leb b'0' c && leb c b'9'

unfoldable pub after_digits : Bool → String → Option String
after_digits some_digit String.[] = none
after_digits some_digit (String.◌∷◌ c s) =
    let rest = after_digits true s in
    if is_digit (code c) then rest else if some_digit && code c == b':' then some s else none

-- `split(" ")`
unfoldable pub split_spaces : String → List String
split_spaces String.[] = "" ∷ []
split_spaces (String.◌∷◌ c s) =
    let rest = split_spaces s in
    if code c == b' '
    then "" ∷ rest
    else elim rest [ [] ↦ [] | word ∷ words ↦ String.◌∷◌ c word ∷ words ]

unfoldable pub unlock2params : String → List String
unfolding after_digits split_spaces
unlock2params unlock_text = elim (after_digits false unlock_text) [
  | none ↦ []
  | some ps ↦ split_spaces ps
]

abbrev or_empty : Option String → String
or_empty none = ""
or_empty (some t) = t

-- What lies outside the repository: the unlocking engine, the verification of a signature of a
-- transaction, the native `sourceIsUnlockable` (time, issuers, unlock, time of the source, conditions),
-- and the text of a blockstamp.
pub record SourceEngine : Type 0 where
  pub engine : UnlockEngine
  pub verify : TransactionDto → String → String → Bool
  pub source_is_unlockable : ℕ → List String → String → ℕ → String → Bool
  pub stamp_text : ℕ → String → String

module _ (x : SourceEngine) where
  -- BR_G102
  unfoldable pub prepare_source_age : IndexDal → Scope → SindexEntry → SindexEntry
  prepare_source_age dal s e =
      let stamp = or_empty e.created_on in
      let late : ℤ = pos (3600 * 24 * 7 + 1) in
      record e {
        age =
            if s.head.number == 0
              && str_eq stamp "0-E3B0C44298FC1C149AFBF4C8996FB92427AE41E4649B934CA495991B7852B855"
            then pos 0
            else elim (dal.get_block_by_text stamp) [
              | none ↦ late
              | some r ↦
                  if str_eq (x.stamp_text r.number r.hash) stamp
                  then pos (time_1 s) -ℤ pos r.median_time
                  else late
            ];
      }

  -- The issuers with the results of their signatures, up to the first that does not match; a
  -- signature without an issuer is an error.
  unfoldable pub signature_results :
      TransactionDto → List String → List String → Bool → Outcome TxSignatureResult
  signature_results tx [] [] matching = done []
  signature_results tx [] (sig ∷ sigs) matching =
      if matching then throw "Cannot set property 'ok' of undefined" else done []
  signature_results tx (key ∷ keys) [] matching =
      signature_results tx keys [] matching >>= λ rest. done ((key, false) ∷ rest)
  signature_results tx (key ∷ keys) (sig ∷ sigs) matching =
      let ok = matching && x.verify tx sig key in
      signature_results tx keys sigs ok >>= λ rest. done ((key, ok) ∷ rest)

  unfoldable pub get_transaction_sig_result : TransactionDto → Outcome TxSignatureResult
  unfolding signature_results
  get_transaction_sig_result tx = signature_results tx tx.issuers tx.signatures true

  -- The time that has passed is 0 where the source is later, which a condition reads alike.
  unfoldable pub metadata_of : String → ℕ → ℕ → UnlockMetadata
  metadata_of conditions now written_time = record {
    current_time = if contains (codes "CLTV") (codes conditions) then some now else none;
    elapsed_time =
        if contains (codes "CSV") (codes conditions) then some (now - written_time) else none;
  }

  abbrev unlocks : Option JsValue → Bool
  unlocks none = false
  unlocks (some v) = is_true v

  -- Conditions that are undefined or empty do not unlock.
  unfoldable pub unlock_source : Scope → SindexEntry → String → ℕ → Outcome Bool
  unfolding unlock2params get_transaction_sig_result metadata_of
  unlock_source s e conditions written_time =
      if str_eq conditions ""
      then done false
      else if leb 13 s.head.version
      then done (
          x.source_is_unlockable s.head.median_time (e.tx_obj).issuers (or_empty e.unlock)
            written_time conditions)
      else get_transaction_sig_result e.tx_obj >>= λ sigs.
          unlock x.engine conditions (unlock2params (or_empty e.unlock)) sigs
            (metadata_of conditions s.head.median_time written_time)
          >>= λ r. done (unlocks r)

  abbrev pub conditions_of : FoundSource → String
  conditions_of source = or_empty source.conditions

  abbrev pub written_time_of : FoundSource → ℕ
  written_time_of source = elim source.written_time [ none ↦ 0 | some t ↦ t ]

  unfoldable pub tx_source_unlock : Scope → SindexEntry → FoundSource → Outcome Bool
  unfolding unlock_source
  tx_source_unlock s e source = unlock_source s e (conditions_of source) (written_time_of source)

  -- BR_G48; a comparison with an undefined time is false.
  abbrev is_too_early : SindexEntry → Option ℕ → Bool
  is_too_early e none = false
  is_too_early e (some t) = ltb_ℤ (pos e.written_time -ℤ pos t) (pos e.locktime)

  -- The rules in their order, on one row that spends a source.
  unfoldable pub complete_source :
      IndexDal → Scope → List SindexEntry → SindexEntry → Outcome SindexEntry
  unfolding prepare_source_age get_input tx_source_unlock
  complete_source dal s sindex e =
      let source = get_input dal sindex e in
      let e₁ = record (prepare_source_age dal s e) {
        conditions = conditions_of source;
        available = not source.consumed;
      } in
      tx_source_unlock s e₁ source >>= λ unlocked.
      done (record e₁ {
        is_locked = not unlocked;
        is_time_locked = is_too_early e₁ source.written_time;
      })

  -- Rows that create sources are left as they are.
  unfoldable pub complete_row :
      IndexDal → Scope → List SindexEntry → SindexEntry → Outcome SindexEntry
  unfolding complete_source
  complete_row dal s sindex e = if is_update e.op then complete_source dal s sindex e else done e

  unfoldable pub complete_sindex : IndexDal → Scope → List SindexEntry → Outcome (List SindexEntry)
  unfolding complete_row
  complete_sindex dal s sindex = map_all (complete_row dal s sindex) sindex
