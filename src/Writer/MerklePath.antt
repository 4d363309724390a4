-- ===== src/Writer/MerklePath.antt =====
-- `get_merkle_path_from_merkle_block` and `write_bitcoin_merkle_path` of core/src/env_writer.rs. The
-- `MerkleBlock` of the crate `bitcoin` is a parameter: what the code reads of it.
pub mod Order
pub mod Filled
pub mod Wire
pub mod Witness
use clementine_citeria.Common.{
  ℕ, zero, suc, ◌+◌, ◌-◌, ◌*◌, ◌/◌, ◌%◌, ◌^◌, List, [], ◌∷◌, ◌++◌, map, Option, none, some, length,
  leb, ltb, ◌==◌, if◌then◌else◌, get_elem?, take, drop, replicate, ◌>>=◌, ◌⊎◌, inl, inr,
}
use clementine_citeria.Common.Bytes.{Bytes}
use clementine_citeria.Hash.{Crypto, double_sha256_hash}

-- `extract_matches`, whose error is passed on, and `num_transactions` and `hashes` of its tree.
pub record MerkleBlock : Type 0 where
  pub extract_matches : Option (List Bytes × List ℕ)
  pub num_transactions : ℕ
  pub hashes : List Bytes

pub data PathError : Type 0 where
  extract_error merkle_proof_error : PathError

-- `u32::ilog(2)`, which panics at zero.
unfoldable pub log2_within : ℕ → ℕ → ℕ
log2_within zero n = 0
log2_within (suc bits) n = let rest = log2_within bits (n / 2) in if leb n 1 then 0 else suc rest

abbrev pub ilog2 : ℕ → Option ℕ
ilog2 n = if n == 0 then none else some (log2_within 32 n)

-- `Vec::reverse`
unfoldable pub reverse : {A : Type 0} → List A → List A
reverse [] = []
reverse (x ∷ xs) = reverse xs ++ x ∷ []

-- `remove(0)` and `remove(len - 1)`, with the value that is removed.
unfoldable pub remove_first : {A : Type 0} → List A → Option (A × List A)
remove_first [] = none
remove_first (x ∷ xs) = some (x, xs)

unfoldable pub remove_last : {A : Type 0} → List A → Option (A × List A)
remove_last [] = none
remove_last (x ∷ xs) =
    let rest = remove_last xs in elim rest [ none ↦ some (x, []) | some r ↦ some (r.0, x ∷ r.1) ]

-- The loop over the bits of the index, with `n` left, the highest first.
unfoldable pub take_path : {A : Type 0} → ℕ → ℕ → List A → Option (List A)
take_path zero index merkle_hashes = some []
take_path (suc n) index merkle_hashes = do
  (hash, rest) ←
      if index / 2 ^ n % 2 == 1 then remove_first merkle_hashes else remove_last merkle_hashes
  path ← take_path n index rest
  some (hash ∷ path)

-- The loop over `merkle_path`: `path_indicator` and `merkle_path_to_be_sent`.
unfoldable pub collect : List (Option Bytes) → ℕ → ℕ × List Bytes
collect [] path_indicator = (path_indicator, [])
collect (some node ∷ rest) path_indicator =
    let out = collect rest (path_indicator * 2 % 2 ^ 32) in (out.0, node ∷ out.1)
collect (none ∷ rest) path_indicator = collect rest (path_indicator * 2 % 2 ^ 32 + 1)

-- `Vec::insert`, which panics beyond the end.
unfoldable pub insert? : {A : Type 0} → List A → ℕ → A → Option (List A)
insert? xs i a = if leb i (length xs) then some (take i xs ++ a ∷ drop i xs) else none

module _ ⦃c : Crypto⦄ where
  -- The node of one round, and the path with it.
  unfoldable pub next_node : ℕ → Bytes → ℕ → List Bytes → Option (Bytes × List Bytes)
  next_node path_indicator hash reader_pointer path =
      if path_indicator % 2 == 1
      then (insert? path reader_pointer hash >>= λ path'. some (hash, path'))
      else (get_elem? path reader_pointer >>= λ node. some (node, path))

  -- `for _ in 0..depth`, with `n` rounds left.
  unfoldable pub fill_path : ℕ → ℕ → ℕ → Bytes → ℕ → List Bytes → Option (List Bytes)
  fill_path zero path_indicator current_index hash reader_pointer path = some path
  fill_path (suc n) path_indicator current_index hash reader_pointer path = do
    (node, path') ← next_node path_indicator hash reader_pointer path
    fill_path n (path_indicator / 2) (current_index / 2)
        (if current_index % 2 == 0
          then double_sha256_hash (hash ++ node)
          else double_sha256_hash (node ++ hash))
        (suc reader_pointer) path'

  -- From `let length = ...` on. The loop that pushes `None` ends at `depth + 1` hashes.
  unfoldable pub path_of : ℕ → List Bytes → Bytes → ℕ → Option (List Bytes)
  path_of length_txs hashes txid index = do
    log ← ilog2 ((length_txs + 2 ^ 32 - 1) % 2 ^ 32)
    let depth = log + 1
    let merkle_hashes = map some hashes ++ replicate (depth + 1 - length hashes) none
    merkle_path ← take_path (length merkle_hashes - 1) index merkle_hashes
    let collected = collect merkle_path 0
    fill_path depth collected.0 index txid 0 (reverse collected.1)

  -- The result's left is an `Err`.
  unfoldable pub get_merkle_path_from_merkle_block :
      MerkleBlock → Option (PathError ⊎ (List Bytes × ℕ))
  get_merkle_path_from_merkle_block mb = elim mb.extract_matches [
    | none ↦ some (inl extract_error)
    | some (txid ∷ [], index ∷ []) ↦
        (path_of mb.num_transactions mb.hashes txid index >>= λ path. some (inr (path, index)))
    | some _ ↦ some (inl merkle_proof_error)
  ]
