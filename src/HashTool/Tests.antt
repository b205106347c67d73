-- ===== src/HashTool/Tests.antt =====
-- The theorem on the conversion of hashes (hash-tool/src/main.rs) at a concrete codec, in which the
-- first byte of a text tells the two kinds apart.
use openmina_poc.Base.{
  ℕ, zero, suc, ◌-◌, ◌≡◌, refl, ap, arith, List, [], ◌∷◌, ◌++◌, Option, none, some, done, length,
  take, length-append, take-append_eq,
}
use openmina_poc.HashTool.{ledger, Codec, convert}
use openmina_poc.HashTool.Convert.{Lawful, convert-convert}

abbrev hex_decode : List ℕ → Option (List ℕ)
hex_decode [] = none
hex_decode (zero ∷ rest) = some (take (length rest - 2) rest ++ 1 ∷ [])
hex_decode (suc n ∷ rest) = none

abbrev base58_decode : ℕ → List ℕ → Option (List ℕ)
base58_decode version [] = none
base58_decode version (b ∷ bytes) = some (version ∷ bytes)

abbrev codec : Codec
codec = record {
  hex_encode = λ bytes. 0 ∷ bytes;
  hex_decode = hex_decode;
  base58_encode = λ version bytes. 1 ∷ bytes;
  base58_decode = base58_decode;
}

hex_one : (bytes : List ℕ) → hex_decode (0 ∷ (bytes ++ (b'0' ∷ b'1' ∷ []))) ≡ some (bytes ++ 1 ∷ [])
hex_one bytes =
    let less : length bytes ≡ length (bytes ++ (b'0' ∷ b'1' ∷ [])) - 2 =
      omega (arith, length-append bytes (b'0' ∷ b'1' ∷ [])) in
    ap (λ (l : List ℕ). some (l ++ 1 ∷ []))
      (take-append_eq (length (bytes ++ (b'0' ∷ b'1' ∷ [])) - 2) bytes (b'0' ∷ b'1' ∷ []) less)

lawful : Lawful codec
lawful = record { hex_one = hex_one; base58 = λ version bytes. refl }

convert-convert_example :
    (convert codec (ledger (0 ∷ 8 ∷ 9 ∷ [])) ≡ done (1 ∷ 1 ∷ 9 ∷ 8 ∷ []))
    × (convert codec (ledger (1 ∷ 1 ∷ 9 ∷ 8 ∷ [])) ≡ done (0 ∷ 8 ∷ 9 ∷ []))
convert-convert_example = convert-convert codec lawful (ledger []) (8 ∷ 9 ∷ []) refl
