-- ===== src/Writer/Chain.antt =====
-- The specification of a header chain.
use clementine_citeria.Common.{ℕ, suc, ◌≡◌, List, [], ◌∷◌, Option, some, ◌>>=◌, length, refl, ap}
use clementine_citeria.Common.Bytes.{Bytes}
use clementine_citeria.Common.Words.{to_le_bytes}
use clementine_citeria.Hash.{Crypto}
use clementine_citeria.Bitcoin.{Header, BitcoinCrate}
use clementine_citeria.Circuit.Work.{validate_threshold_and_add_work}
use clementine_citeria.Circuit.Blocks.{HeaderWithoutPrevBlockHash, calculate_next_block_hash}

-- What the circuit keeps of a header.
abbrev pub without_prev : Header → HeaderWithoutPrevBlockHash
without_prev h = record {
  version = h.version;
  merkle_root = h.merkle_root;
  time = h.time;
  bits = h.bits;
  nonce = h.nonce;
}

module _ ⦃c : Crypto⦄ ⦃b : BitcoinCrate⦄ where
  -- Each header names the block before it.
  abbrev pub Linked : Bytes → List Header → Type 0
  Linked prev [] = Unit {0}
  Linked prev (h ∷ hs) = (h.prev_blockhash ≡ prev) × Linked (b.block_hash h) hs

  -- The hash of the last block, or of the one before the headers.
  unfoldable pub last_hash : Bytes → List Header → Bytes
  last_hash prev [] = prev
  last_hash prev (h ∷ hs) = last_hash (b.block_hash h) hs

  -- The work of the headers on top of a work; `none` where a header's proof of work is not valid.
  unfoldable pub chain_work : List Header → ℕ → Option ℕ
  chain_work [] work = some work
  chain_work (h ∷ hs) work =
      validate_threshold_and_add_work (to_le_bytes 4 h.bits) (b.block_hash h) work >>= λ work'.
      chain_work hs work'

  pub next_block_hash-linked :
      (prev : Bytes) (h : Header)
      → h.prev_blockhash ≡ prev
      → calculate_next_block_hash prev (without_prev h) ≡ b.block_hash h
  unfolding calculate_next_block_hash
  next_block_hash-linked prev h e = rw (b.block_hash_encoding h, e)

  unfoldable pub block_hashes : List Header → List Bytes
  block_hashes [] = []
  block_hashes (h ∷ hs) = b.block_hash h ∷ block_hashes hs

  pub length-block_hashes : (hs : List Header) → length (block_hashes hs) ≡ length hs
  unfolding block_hashes
  length-block_hashes [] = refl
  length-block_hashes (h ∷ hs) = ap suc (length-block_hashes hs)
