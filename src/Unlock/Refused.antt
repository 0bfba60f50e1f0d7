-- ===== src/Unlock/Refused.antt =====
-- About `unlock` (app/lib/common-libs/txunlock.ts): parameters that it cannot read are an error, which
-- its `try` does not catch, while conditions that they do not meet are none.
use duniter.Base.{◌≡◌, false, String, none, some, List, every, length, ◌<◌, ◌⊎◌}
use duniter.Base.Outcome.{Outcome}
use duniter.Unlock.{
  Condition, Func, sig_of, xhx_of, unknown, malformed, UnlockEngine, ParamEval, successful,
  nb_functions,
}

-- The text of the parameter has the parentheses that its first letters ask for.
abbrev pub IsReadable : Func → Type 0
IsReadable (sig_of index) = Unit
IsReadable (xhx_of password) = Unit
IsReadable unknown = Unit
IsReadable malformed = ⊥

module _ (engine : UnlockEngine) where
  -- What makes parameters that can be read fail: one of them does not succeed, the conditions do not
  -- parse, or there are more parameters than functions.
  abbrev pub IsRefused : List ParamEval → String → List String → Type 0
  IsRefused params conditions ps =
      (every successful params ≡ false)
      ⊎ ((engine.parse conditions ≡ none)
          ⊎ ((c : Condition) × (engine.parse conditions ≡ some c) × (nb_functions c < length ps)))
