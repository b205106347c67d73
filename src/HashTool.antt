-- ===== src/HashTool.antt =====
-- The conversion of hashes, hash-tool/src/main.rs: a hexadecimal hash to its Base58 text, and back.
-- hex and bs58 are arguments.
pub mod Convert
mod Tests
use openmina_poc.Base.{
  ℕ, ◌-◌, List, [], ◌∷◌, ◌++◌, Option, none, some, Exec, done, panic, ◌>>=◌, ltb, if◌then◌else◌,
  length, take,
}
use openmina_poc.Ledger.{unwrap}
use mathlib.Core.List.{reverse}

pub data Arg : Type 0 where
  ledger state pending_coinbase : List ℕ → Arg

-- `hex` and `bs58` with a check and a version: what is decoded has the version in front.
pub record Codec : Type 0 where
  pub hex_encode : List ℕ → List ℕ
  pub hex_decode : List ℕ → Option (List ℕ)
  pub base58_encode : ℕ → List ℕ → List ℕ
  pub base58_decode : ℕ → List ℕ → Option (List ℕ)

abbrev pub version_of : Arg → ℕ
version_of (ledger hash) = 5
version_of (state hash) = 16
version_of (pending_coinbase hash) = 12

abbrev pub hash_of : Arg → List ℕ
hash_of (ledger hash) = hash
hash_of (state hash) = hash
hash_of (pending_coinbase hash) = hash

module _ (codec : Codec) where
  -- The slice without the last two aborts where there are fewer.
  abbrev pub to_hex : List ℕ → Exec (List ℕ)
  to_hex bytes =
      if ltb (length bytes) 2
      then panic
      else done (codec.hex_encode (take (length bytes - 2) bytes))

  abbrev pub converted : ℕ → List ℕ → Option (List ℕ) → Exec (List ℕ)
  converted version hash (some bytes) = done (codec.base58_encode version (reverse bytes))
  converted version hash none =
      unwrap (codec.base58_decode version hash) >>= λ bytes. to_hex (reverse bytes)

  -- What `main` prints.
  unfoldable pub convert : Arg → Exec (List ℕ)
  convert arg =
      converted (version_of arg) (hash_of arg)
        (codec.hex_decode (hash_of arg ++ (b'0' ∷ b'1' ∷ [])))
