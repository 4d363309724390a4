-- ===== src/Tests/Blocks.antt =====
-- Two linked headers through the mock environment.
use clementine_citeria.Common.{◌≡◌, refl, arith, List, [], ◌∷◌, some}
use clementine_citeria.Common.Words.{to_le_bytes, from_le_bytes}
use clementine_citeria.Hash.{double_sha256_hash, double_sha256_hash-IsHash}
use clementine_citeria.Env.{◌>>=◌}
use clementine_citeria.Env.Tape.{u32, items_all}
use clementine_citeria.Env.Mock.{MockData, mock_environment}
use clementine_citeria.Env.Mock.Laws.{mock_tape}
use clementine_citeria.Bitcoin.{Header, IsHeader, encode_header}
use clementine_citeria.Merkle.Incremental
use clementine_citeria.Merkle.Tree
use clementine_citeria.Merkle.Tree.{MerkleTree}
use clementine_citeria.Merkle.Tree.Build
use clementine_citeria.Circuit.Work.{
  validate_threshold_and_add_work, decode_compact_target, place_large, check_from, check_hash_valid,
  calculate_work,
}
use clementine_citeria.Circuit.Blocks.{
  ChainWithTree, read_header_except_root_and_calculate_blockhash, read_blocks_and_calculate_work,
  read_blocks_and_add_to_merkle_tree,
}
use clementine_citeria.Writer.{
  write_block_header_without_mt_root, write_blocks, write_blocks_and_add_to_merkle_tree,
}
use clementine_citeria.Writer.Chain.{chain_work}
use clementine_citeria.Writer.Headers.{
  header_items, header_without_root_items, read_header-write_header, read_blocks-write_blocks,
}
use clementine_citeria.Writer.Headers.Trees.{SamePeriod, read_blocks-write_blocks_and_add}
use clementine_citeria.Tests.Toy.{toy, toy_sha256, toy_bitcoin, hash_of}

-- The bits 0x20ffffff.
abbrev first : Header
first = record {
  version = 1;
  prev_blockhash = hash_of 0;
  merkle_root = hash_of 1;
  time = 3;
  bits = 553648127;
  nonce = 4;
}

abbrev second : Header
second = record {
  version = 1;
  prev_blockhash = toy_bitcoin.block_hash first;
  merkle_root = hash_of 2;
  time = 5;
  bits = 553648127;
  nonce = 6;
}

abbrev headers : List Header
headers = first ∷ second ∷ []

first-IsHeader : IsHeader first
first-IsHeader = record {
  version_i32 = omega arith;
  prev_blockhash_hash = omega arith;
  merkle_root_hash = omega arith;
  time_u32 = omega arith;
  bits_u32 = omega arith;
  nonce_u32 = omega arith;
}

second-IsHeader : IsHeader second
second-IsHeader = record {
  version_i32 = omega arith;
  prev_blockhash_hash = double_sha256_hash-IsHash (encode_header first);
  merkle_root_hash = omega arith;
  time_u32 = omega arith;
  bits_u32 = omega arith;
  nonce_u32 = omega arith;
}

headers_work : chain_work headers 0 ≡ some 2
unfolding chain_work validate_threshold_and_add_work decode_compact_target place_large
    check_hash_valid check_from calculate_work from_le_bytes to_le_bytes double_sha256_hash
    toy_sha256
headers_work = refl

read_header-write_header_example :
    (write_block_header_without_mt_root first >>= λ _.
    read_header_except_root_and_calculate_blockhash (hash_of 1))
      (mock_tape.tape [] [])
    ≡ some (toy_bitcoin.block_hash first, mock_tape.tape (header_without_root_items first) [])
read_header-write_header_example = read_header-write_header first [] first-IsHeader

read_blocks-write_blocks_example :
    (write_blocks headers >>= λ _. read_blocks_and_calculate_work (hash_of 0))
      (mock_tape.tape [] [])
    ≡ some (2, mock_tape.tape (u32 2 ∷ items_all header_items headers) [])
read_blocks-write_blocks_example =
    read_blocks-write_blocks headers (hash_of 0) 2 [] (first-IsHeader, (second-IsHeader, tt))
      (omega arith) (refl, (refl, tt)) headers_work

read_blocks-write_blocks_and_add_example :
    (mt' : MerkleTree) × (r : ChainWithTree) × (s : MockData) × (s' : MockData)
    × (write_blocks_and_add_to_merkle_tree headers (Tree.new 4) (mock_tape.tape [] [])
        ≡ some (mt', s))
    × (read_blocks_and_add_to_merkle_tree (hash_of 0) (Incremental.new 4) 1 s ≡ some (r, s'))
    × SamePeriod 4 1 [] headers (hash_of 0) 2 mt' r
read_blocks-write_blocks_and_add_example =
    read_blocks-write_blocks_and_add 4 1 [] headers (hash_of 0) 2 (Tree.new 4) (Incremental.new 4)
      [] (Build.Built-new 4) (Incremental.Holds-new 4) (omega arith) (omega arith) (omega arith)
      (first-IsHeader, (second-IsHeader, tt)) (refl, (refl, tt)) headers_work (omega arith)
      (omega arith)
