-- ===== src/Hashing.antt =====
-- `canonical_sha256` of sdk/liminal_post_sandbox_contracts: SHA-256 of the canonical JSON text.
-- The text comes from Python's `json.dumps` and the digest from `hashlib`, so the composition is a
-- parameter: a record that a section takes as an instance.
pub mod Toy
use liminal_osai.Prelude.{String}
use liminal_osai.Json.{Value}

pub record Hashing : Type 0 where
  pub digest : Value → String

abbrev pub canonical_sha256 : ⦃h : Hashing⦄ → Value → String
canonical_sha256 ⦃h⦄ v = h.digest v

-- `"0" * 64`
abbrev pub zero_sha256 : String
zero_sha256 = "0000000000000000000000000000000000000000000000000000000000000000"
