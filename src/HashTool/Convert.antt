-- ===== src/HashTool/Convert.antt =====
-- The two directions of the conversion of hash-tool/src/main.rs.
use openmina_poc.Base.{
  ℕ, ◌+◌, ◌-◌, ◌≡◌, refl, ap, ◌∙◌, arith, List, [], ◌∷◌, ◌++◌, none, some, done, false, ltb, length,
  length-append, take-append_eq, le→ltb_false, append_assoc,
}
use openmina_poc.HashTool.{
  Arg, ledger, state, pending_coinbase, Codec, version_of, hash_of, to_hex, convert,
}
use mathlib.Core.List.{reverse, reverse-cons, reverse-reverse}

-- What hex and bs58 document: what is encoded is decoded, "01" after a hexadecimal text is the byte 1
-- after its bytes, and a decoded Base58 text has its version in front.
pub record Lawful (codec : Codec) : Type 0 where
  pub hex_one :
      (bytes : List ℕ)
      → codec.hex_decode (codec.hex_encode bytes ++ (b'0' ∷ b'1' ∷ [])) ≡ some (bytes ++ 1 ∷ [])
  pub base58 :
      (version : ℕ) (bytes : List ℕ)
      → codec.base58_decode version (codec.base58_encode version bytes) ≡ some (version ∷ bytes)

-- An argument of the same kind with another hash.
abbrev pub with_hash : Arg → List ℕ → Arg
with_hash (ledger hash) other = ledger other
with_hash (state hash) other = state other
with_hash (pending_coinbase hash) other = pending_coinbase other

version_of-with_hash :
    (arg : Arg) (other : List ℕ) → version_of (with_hash arg other) ≡ version_of arg
version_of-with_hash (ledger hash) other = refl
version_of-with_hash (state hash) other = refl
version_of-with_hash (pending_coinbase hash) other = refl

hash_of-with_hash : (arg : Arg) (other : List ℕ) → hash_of (with_hash arg other) ≡ other
hash_of-with_hash (ledger hash) other = refl
hash_of-with_hash (state hash) other = refl
hash_of-with_hash (pending_coinbase hash) other = refl

module _ (codec : Codec) (laws : Lawful codec) where
  -- The Base58 text of bytes, as the tool prints it.
  abbrev pub text_of : Arg → List ℕ → List ℕ
  text_of arg bytes = codec.base58_encode (version_of arg) (reverse (bytes ++ 1 ∷ []))

  to_hex-reversed :
      (version : ℕ) (bytes : List ℕ)
      → to_hex codec (reverse (version ∷ reverse (bytes ++ 1 ∷ []))) ≡ done (codec.hex_encode bytes)
  to_hex-reversed version bytes =
      let back : reverse (version ∷ reverse (bytes ++ 1 ∷ [])) ≡ bytes ++ (1 ∷ version ∷ []) =
        reverse-cons version (reverse (bytes ++ 1 ∷ []))
        ∙ ap (λ (l : List ℕ). l ++ version ∷ []) (reverse-reverse (bytes ++ 1 ∷ []))
        ∙ append_assoc bytes (1 ∷ []) (version ∷ []) in
      let long : length (bytes ++ (1 ∷ version ∷ [])) ≡ length bytes + 2 =
        length-append bytes (1 ∷ version ∷ []) in
      let enough : ltb (length bytes + 2) 2 ≡ false =
        le→ltb_false (length bytes + 2) 2 (omega arith) in
      let less : length bytes + 2 - 2 ≡ length bytes = omega arith in
      rw (back, long, enough, less, take-append_eq (length bytes) bytes (1 ∷ version ∷ []) refl)

  -- For each kind of hash: a hexadecimal text is converted to the Base58 text of its bytes, and that
  -- text, where it is not itself the front of a hexadecimal one, is converted back to the same
  -- hexadecimal text.
  pub convert-convert :
      (arg : Arg) (bytes : List ℕ)
      → codec.hex_decode (text_of arg bytes ++ (b'0' ∷ b'1' ∷ [])) ≡ none
      → (convert codec (with_hash arg (codec.hex_encode bytes)) ≡ done (text_of arg bytes))
        × (convert codec (with_hash arg (text_of arg bytes)) ≡ done (codec.hex_encode bytes))
  unfolding convert
  convert-convert arg bytes apart =
      let hex = codec.hex_encode bytes in
      let text = text_of arg bytes in
      (
        rw (version_of-with_hash arg hex, hash_of-with_hash arg hex, laws.hex_one bytes),
        rw
            (
              version_of-with_hash arg text,
              hash_of-with_hash arg text,
              apart,
              laws.base58 (version_of arg) (reverse (bytes ++ 1 ∷ [])),
            )
            (to_hex-reversed (version_of arg) bytes),
      )
