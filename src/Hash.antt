-- ===== src/Hash.antt =====
-- circuits/src/hashes.rs over the crates `sha2` and `k256`, which are parameters. SHA-256 is a
-- function from bytes to 32 bytes; a hasher that is updated in pieces is the bytes it was given.
use clementine_citeria.Common.{◌++◌, Option}
use clementine_citeria.Common.Bytes.{Bytes, IsHash}

pub record Crypto : Type 0 where
  pub sha256 : Bytes → Bytes
  -- `expect("SHA256 should produce a 32-byte output")`
  pub sha256-IsHash : (m : Bytes) → IsHash (sha256 m)
  -- the compressed point `P + t * G` of a SEC1 public key and a scalar; `none` where either is refused
  pub tweak_add : Bytes → Bytes → Option Bytes

module _ ⦃c : Crypto⦄ where
  -- `sha256_hash!(m)`, with the pieces joined
  abbrev pub sha256_hash : Bytes → Bytes
  sha256_hash m = c.sha256 m

  -- `double_sha256_hash!(m)`
  unfoldable pub double_sha256_hash : Bytes → Bytes
  double_sha256_hash m = c.sha256 (c.sha256 m)

  -- `sha256_hash!(left, right)`
  unfoldable pub hash_pair : Bytes → Bytes → Bytes
  hash_pair left right = sha256_hash (left ++ right)

  pub hash_pair-IsHash : (left right : Bytes) → IsHash (hash_pair left right)
  unfolding hash_pair
  hash_pair-IsHash left right = c.sha256-IsHash (left ++ right)

  pub double_sha256_hash-IsHash : (m : Bytes) → IsHash (double_sha256_hash m)
  unfolding double_sha256_hash
  double_sha256_hash-IsHash m = c.sha256-IsHash (c.sha256 m)
