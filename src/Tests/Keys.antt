-- ===== src/Tests/Keys.antt =====
-- Conditions on a key and a delay, and the parameters that unlock them.
use duniter.Base.{true, some, [], ◌∷◌}
use duniter.Unlock.{
  UnlockEngine, TxSignatureResult, UnlockMetadata, Condition, both, either, sig, csv, param, sig_of,
}

-- SIG(alice) && (CSV(100) || SIG(bob))
abbrev delayed : Condition
delayed = both (sig (param "alice")) (either (csv (param "100")) (sig (param "bob")))

abbrev engine : UnlockEngine
engine = record {
  func_of = λ p. sig_of (some 0);
  parse_int = λ s. some 100;
  hashf = λ s. s;
  parse = λ s. some delayed;
}

abbrev by_alice : TxSignatureResult
by_alice = ("alice", true) ∷ []

abbrev later : UnlockMetadata
later = record { current_time = some 1000; elapsed_time = some 150 }
