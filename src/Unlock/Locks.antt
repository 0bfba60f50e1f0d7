-- ===== src/Unlock/Locks.antt =====
-- About `unlock` (app/lib/common-libs/txunlock.ts): what parameters that unlock conditions must bring.
use duniter.Base.{
  ℕ, ◌≤◌, ◌≡◌, Bool, true, false, ◌&&◌, ◌||◌, String, Option, none, some, List, str_eq, some_of,
}
use duniter.Unlock.{
  Condition, both, either, sig, xhx, cltv, csv, param, Func, sig_of, xhx_of, unknown, malformed,
  UnlockEngine, ParamEval, TxSignatureResult, UnlockMetadata, is_sig, is_xhx,
}

-- What a condition may ask for.
pub data Lock : Type 0 where
  signature_of password_of wait_until wait_for : String → Lock

abbrev same_lock : Lock → Lock → Bool
same_lock (signature_of s) (signature_of t) = str_eq s t
same_lock (password_of s) (password_of t) = str_eq s t
same_lock (wait_until s) (wait_until t) = str_eq s t
same_lock (wait_for s) (wait_for t) = str_eq s t
same_lock _ _ = false

abbrev text_of : Condition → Option String
text_of (param s) = some s
text_of (both c d) = none
text_of (either c d) = none
text_of (sig c) = none
text_of (xhx c) = none
text_of (cltv c) = none
text_of (csv c) = none

-- A lock on the text that an expression is.
abbrev on_text : Lock → (String → Lock) → Condition → Bool
on_text l lock c = elim (text_of c) [ none ↦ false | some s ↦ same_lock l (lock s) ]

-- Every way to meet the condition opens the lock.
abbrev pub needs : Lock → Condition → Bool
needs l (both c d) = needs l c || needs l d
needs l (either c d) = needs l c && needs l d
needs l (sig c) = on_text l signature_of c
needs l (xhx c) = on_text l password_of c
needs l (cltv c) = on_text l wait_until c
needs l (csv c) = on_text l wait_for c
needs l (param s) = false

module _ (engine : UnlockEngine) where
  -- The time is known and has reached the number that the text gives.
  abbrev pub HasReached : Option ℕ → String → Type 0
  HasReached time t = (m n : ℕ) × (time ≡ some m) × (engine.parse_int t ≡ some n) × (n ≤ m)

  abbrev OpenedBy : List ParamEval → UnlockMetadata → Lock → Type 0
  OpenedBy params metadata (signature_of k) = some_of (λ p. is_sig engine p k) params ≡ true
  OpenedBy params metadata (password_of h) = some_of (λ p. is_xhx engine p h) params ≡ true
  OpenedBy params metadata (wait_until t) = HasReached metadata.current_time t
  OpenedBy params metadata (wait_for t) = HasReached metadata.elapsed_time t

  -- The issuers hold one with the key whose signature matches.
  abbrev pub IsSigned : String → TxSignatureResult → Type 0
  IsSigned k sigs = some_of (λ (s : String × Bool). s.1 && str_eq s.0 k) sigs ≡ true

  abbrev pub is_xhx_of : String → Func → Bool
  is_xhx_of h (sig_of index) = false
  is_xhx_of h (xhx_of password) = str_eq (engine.hashf password) h
  is_xhx_of h unknown = false
  is_xhx_of h malformed = false

  -- The parameter is a password with the hash.
  abbrev pub is_password : String → String → Bool
  is_password h p = is_xhx_of h (engine.func_of p)

  abbrev pub IsOpen : List String → TxSignatureResult → UnlockMetadata → Lock → Type 0
  IsOpen unlock_params sigs metadata (signature_of k) = IsSigned k sigs
  IsOpen unlock_params sigs metadata (password_of h) = some_of (is_password h) unlock_params ≡ true
  IsOpen unlock_params sigs metadata (wait_until t) = HasReached metadata.current_time t
  IsOpen unlock_params sigs metadata (wait_for t) = HasReached metadata.elapsed_time t
