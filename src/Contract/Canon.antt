-- ===== src/Contract/Canon.antt =====
-- What the contract code takes from the standard library: pathlib's is_absolute, and the canonical
-- JSON of a value with its SHA-256.
use subagent_governance.Base.{ℕ, Text, Option, Bool}
use subagent_governance.Json.{Value}

-- `canonical_size v` is `len(_canonical_bytes(v))`, and none where the text cannot be encoded;
-- `digest v` is `_digest(v)`.
pub record Canon : Type 0 where
  pub is_absolute : Text → Bool
  pub canonical_size : Value → Option ℕ
  pub digest : Value → Text
