-- ===== src/Unlock.antt =====
-- app/lib/common-libs/txunlock.ts and `evalParams` of app/lib/rules/global_rules.ts: whether the
-- parameters of a transaction unlock the conditions of a source. The parser that jison generates
-- from the grammar gives a tree; it, the regular expressions on a parameter, `parseInt` and the hash
-- are parameters.
pub mod Locks
pub mod Refused
use Prim.Native.String.{◌++◌ as text_append}
use duniter.Base.{
  ℕ, suc, ◌+◌, ◌<◌, ◌++◌, not, Bool, true, false, ◌&&◌, String, Option, none, some, List, [], ◌∷◌,
  leb, ltb, ◌==◌, str_eq, if◌then◌else◌, get_elem?, length, some_of, every, map,
}
use duniter.Base.Outcome.{Outcome, done, throw, ◌>>=◌}
use duniter.GlobalRules.ProofOfWork.{codes}
use duniter.LocalRules.Txs.{contains}

-- The expressions of the grammar.
pub data Condition : Type 0 where
  both either : Condition → Condition → Condition
  sig xhx cltv csv : Condition → Condition
  param : String → Condition

-- What an expression evaluates to; a time that is the number 0 is given back as it is.
pub data JsValue : Type 0 where
  text : String → JsValue
  flag : Bool → JsValue
  undefined nought : JsValue

abbrev pub is_true : JsValue → Bool
is_true (text s) = if str_eq s "" then false else true
is_true (flag b) = b
is_true undefined = false
is_true nought = false

-- A parameter as the regular expressions read it: `SIG(…)` with the number that `parseInt` gives,
-- `XHX(…)`, another text, or one that begins like these and has no parentheses.
pub data Func : Type 0 where
  sig_of : Option ℕ → Func
  xhx_of : String → Func
  unknown malformed : Func

pub record UnlockEngine : Type 0 where
  pub func_of : String → Func
  pub parse_int : String → Option ℕ
  pub hashf : String → String
  pub parse : String → Option Condition

-- ParamEval: the name of the function is the constructor.
pub data ParamEval : Type 0 where
  sig_param xhx_param : Bool → String → ParamEval

abbrev pub successful : ParamEval → Bool
successful (sig_param ok k) = ok
successful (xhx_param ok k) = ok

-- `sigs` of a TxSignatureResult: each issuer, and whether its signature matches.
abbrev pub TxSignatureResult : Type 0
TxSignatureResult = List (String × Bool)

pub record UnlockMetadata : Type 0 where
  pub current_time : Option ℕ
  pub elapsed_time : Option ℕ

abbrev pub nobody : String × Bool
nobody = ("", false)

-- `sigResult.sigs[index]` if the index is a number below their count, else nobody.
abbrev pub signatory_at : Option ℕ → TxSignatureResult → String × Bool
signatory_at none sigs = nobody
signatory_at (some index) sigs = elim (get_elem? sigs index) [ none ↦ nobody | some s ↦ s ]

-- The functions that the parser calls.
unfoldable pub nb_functions : Condition → ℕ
nb_functions (both c d) = nb_functions c + nb_functions d
nb_functions (either c d) = nb_functions c + nb_functions d
nb_functions (sig c) = suc (nb_functions c)
nb_functions (xhx c) = suc (nb_functions c)
nb_functions (cltv c) = suc (nb_functions c)
nb_functions (csv c) = suc (nb_functions c)
nb_functions (param s) = 0

module _ (engine : UnlockEngine) where
  abbrev pub is_sig : ParamEval → String → Bool
  is_sig (sig_param ok k) pubkey = ok && str_eq k pubkey
  is_sig (xhx_param ok k) pubkey = false

  abbrev pub is_xhx : ParamEval → String → Bool
  is_xhx (sig_param ok k) hash = false
  is_xhx (xhx_param ok password) hash = ok && str_eq (engine.hashf password) hash

  unfoldable pub eval_param : Func → String → TxSignatureResult → Outcome (List ParamEval)
  eval_param (sig_of index) conditions sigs =
      let signatory = signatory_at index sigs in done (sig_param signatory.1 signatory.0 ∷ [])
  eval_param (xhx_of password) conditions sigs =
      let lock = text_append (text_append "XHX(" (engine.hashf password)) ")" in
      done (xhx_param (contains (codes lock) (codes conditions)) password ∷ [])
  eval_param unknown conditions sigs = done []
  eval_param malformed conditions sigs = throw "TypeError"

  unfoldable pub eval_params : List String → String → TxSignatureResult → Outcome (List ParamEval)
  eval_params [] conditions sigs = done []
  eval_params (p ∷ ps) conditions sigs =
      let rest = eval_params ps conditions sigs in
      eval_param (engine.func_of p) conditions sigs >>= λ r. rest >>= λ rs. done (r ++ rs)

  -- `yy.sig`, `yy.xHx`, `yy.cltv`, `yy.csv` on the value of their argument.
  unfoldable pub opens_sig : List ParamEval → JsValue → Bool
  opens_sig params (text pubkey) = some_of (λ p. is_sig p pubkey) params
  opens_sig params (flag b) = false
  opens_sig params undefined = false
  opens_sig params nought = false

  unfoldable pub opens_xhx : List ParamEval → JsValue → Bool
  opens_xhx params (text hash) = some_of (λ p. is_xhx p hash) params
  opens_xhx params (flag b) = false
  opens_xhx params undefined = false
  opens_xhx params nought = false

  -- `time && time >= parseInt(bound)`; `parseInt` reads the number 0, but no flag and not undefined.
  unfoldable pub reached : Option ℕ → JsValue → JsValue
  reached none bound = undefined
  reached (some time) (text bound) =
      if time == 0
      then nought
      else flag (elim (engine.parse_int bound) [ none ↦ false | some n ↦ leb n time ])
  reached (some time) (flag b) = if time == 0 then nought else flag false
  reached (some time) undefined = if time == 0 then nought else flag false
  reached (some time) nought = if time == 0 then nought else flag true

  -- The actions of the grammar; the parser runs them for both sides of an operator.
  unfoldable pub evaluate : List ParamEval → UnlockMetadata → Condition → JsValue
  unfolding opens_sig opens_xhx reached
  evaluate params metadata (both c d) =
      let left = evaluate params metadata c in
      let right = evaluate params metadata d in if is_true left then right else left
  evaluate params metadata (either c d) =
      let left = evaluate params metadata c in
      let right = evaluate params metadata d in if is_true left then left else right
  evaluate params metadata (sig c) = flag (opens_sig params (evaluate params metadata c))
  evaluate params metadata (xhx c) = flag (opens_xhx params (evaluate params metadata c))
  evaluate params metadata (cltv c) = reached metadata.current_time (evaluate params metadata c)
  evaluate params metadata (csv c) = reached metadata.elapsed_time (evaluate params metadata c)
  evaluate params metadata (param s) = text s

  -- `null` is none.
  unfoldable pub unlock :
      String → List String → TxSignatureResult → UnlockMetadata → Outcome (Option JsValue)
  unfolding eval_params evaluate nb_functions
  unlock conditions unlock_params sigs metadata =
      eval_params unlock_params conditions sigs >>= λ params. done (
        if not (every successful params) then none else elim (engine.parse conditions) [
          | none ↦ none
          | some c ↦
              if ltb (nb_functions c) (length unlock_params)
              then none
              else some (evaluate params metadata c)
        ])
