-- ===== src/Tests/Toy.antt =====
-- A stand-in for the cryptography: a function from bytes to 32 bytes that can be followed by hand.
use clementine_citeria.Common.{ℕ, ◌+◌, ◌*◌, [], ◌∷◌, some, refl}
use clementine_citeria.Common.Bytes.{Bytes, IsHash}
use clementine_citeria.Common.Words.{
  to_le_bytes, from_le_bytes, length-to_le_bytes, to_le_bytes-IsByte,
}
use clementine_citeria.Hash.{Crypto, double_sha256_hash}
use clementine_citeria.Bitcoin.{BitcoinCrate, encode_header, encode_transaction}

unfoldable pub toy_sha256 : Bytes → Bytes
unfolding to_le_bytes from_le_bytes
toy_sha256 m = to_le_bytes 32 (from_le_bytes m * 31 + 7)

pub toy_sha256-IsHash : (m : Bytes) → IsHash (toy_sha256 m)
unfolding toy_sha256
toy_sha256-IsHash m = (
  length-to_le_bytes 32 (from_le_bytes m * 31 + 7),
  to_le_bytes-IsByte 32 (from_le_bytes m * 31 + 7),
)

instance abbrev pub toy : Crypto
toy = record {
  sha256 = toy_sha256;
  sha256-IsHash = toy_sha256-IsHash;
  tweak_add = λ key tweak. some (2 ∷ tweak);
}

-- `[b; 32]`
abbrev pub hash_of : ℕ → Bytes
hash_of b =
    b ∷ b ∷ b ∷ b ∷ b ∷ b ∷ b ∷ b ∷ b ∷ b ∷ b ∷ b ∷ b ∷ b ∷ b ∷ b ∷ b ∷ b ∷ b ∷ b ∷ b ∷ b ∷ b ∷ b
    ∷ b ∷ b ∷ b ∷ b ∷ b ∷ b ∷ b ∷ b ∷ []

instance abbrev pub toy_bitcoin : BitcoinCrate
toy_bitcoin = record {
  block_hash = λ h. double_sha256_hash (encode_header h);
  block_hash_encoding = λ h. refl;
  txid = λ t. double_sha256_hash (encode_transaction t);
  txid_encoding = λ t. refl;
}
