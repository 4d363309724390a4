-- ===== src/Tests/Proving.antt =====
-- Two periods of `prove`, the first with one withdrawal.
use clementine_citeria.Common.{
  ℕ, ◌≡◌, refl, arith, List, [], ◌∷◌, ◌++◌, some, true, ◌||◌, inl, replicate,
}
use clementine_citeria.Common.Bytes.{Bytes, bytes_eq}
use clementine_citeria.Common.Words.{to_le_bytes, from_le_bytes}
use clementine_citeria.Hash.{double_sha256_hash}
use clementine_citeria.Bitcoin.{Header, IsHeader, IsTransaction}
use clementine_citeria.Env.Mock.{MockData, mock_environment}
use clementine_citeria.Env.Mock.Laws.{mock_tape}
use clementine_citeria.Merkle.Incremental
use clementine_citeria.Merkle.Tree
use clementine_citeria.Merkle.Tree.{root}
use clementine_citeria.Merkle.Tree.Build
use clementine_citeria.Merkle.Tree.Paths.{here}
use clementine_citeria.Circuit.Work.{
  validate_threshold_and_add_work, decode_compact_target, place_large, check_from, check_hash_valid,
  calculate_work,
}
use clementine_citeria.Circuit.Transaction.{meets_output, is_none}
use clementine_citeria.Circuit.MerkleProof.Wire.{climb_double}
use clementine_citeria.Circuit.Bridge.{Periods, read_periods}
use clementine_citeria.Database
use clementine_citeria.Database.{
  DatabaseContent, empty_content, content_of, get_withdrawals_payment_for_period, WithdrawalPayment,
}
use clementine_citeria.Errors.{ok, collect_map}
use clementine_citeria.Errors.Binds.{pure, ◌>>=◌}
use clementine_citeria.Rpc.{
  Client, get_block_hash, get_block_header, get_raw_transaction, get_transaction,
}
use clementine_citeria.Writer.{is_taproot}
use clementine_citeria.Writer.Chain.{Linked, chain_work, block_hashes, last_hash}
use clementine_citeria.Writer.MerklePath.{
  log2_within, reverse, remove_first, remove_last, take_path, collect, next_node, fill_path,
  path_of,
}
use clementine_citeria.Writer.Transactions.Outputs.{some_output, pays}
use clementine_citeria.Operator.State.{World, query, from_outcome}
use clementine_citeria.Operator.Proving.{
  MerkleBlocks, run, block_of, header_at, headers_between, range,
}
use clementine_citeria.Operator.Proving.Withdrawals.{Paid, payout}
use clementine_citeria.Operator.Proving.Mined.{Mined}
use clementine_citeria.Operator.Proving.Prove.{Proved, period_start, prove_periods}
use clementine_citeria.Operator.Proving.Periods.{Accounted, InStep}
use clementine_citeria.Operator.Proving.Loop.{Accounts, tip_of, end_of, read_periods-prove_periods}
use clementine_citeria.Tests.Toy.{hash_of}
use clementine_citeria.Tests.Database.{memory}
use clementine_citeria.Tests.Host.{flat, flat_bitcoin, some_tx, some_header}
use clementine_citeria.Tests.Host

-- A header with the bits 0x20ffffff.
abbrev easy : Header
easy = record some_header { bits = 553648127 }

-- A node whose blocks have easy headers, and whose transactions are in one of them.
instance abbrev easy_node : Client
easy_node = record Host.one_deposit {
  block_header = λ n hash. some easy;
  wallet_transaction = λ n txid. some (record { blockhash = some (hash_of 7); details = 0 ∷ [] });
}

-- Every transaction is the first of two.
instance abbrev first_of_two : MerkleBlocks
first_of_two = record {
  from_block = λ block txid. record {
    extract_matches = some (txid ∷ [], 0 ∷ []);
    num_transactions = 2;
    hashes = txid ∷ hash_of 12 ∷ [];
  };
}

-- The key of the output of every transaction.
abbrev key : Bytes
key =
    0x93 ∷ 0xc7 ∷ 0x37 ∷ 0x8d ∷ 0x96 ∷ 0x51 ∷ 0x8a ∷ 0x75 ∷ 0x44 ∷ 0x88 ∷ 0x21 ∷ 0xc4 ∷ 0xf7 ∷ 0xc8
    ∷ 0xf4 ∷ 0xba ∷ 0xe7 ∷ 0xce ∷ 0x60 ∷ 0xf8 ∷ 0x04 ∷ 0xd0 ∷ 0x3d ∷ 0x1f ∷ 0x06 ∷ 0x28 ∷ 0xdd
    ∷ 0x5d ∷ 0xd0 ∷ 0xf5 ∷ 0xde ∷ 0x51 ∷ []

abbrev withdrawal : WithdrawalPayment
withdrawal = (hash_of 7, key)

abbrev content : DatabaseContent
content = record empty_content { withdrawals_payment_txids = (withdrawal ∷ []) ∷ [] ∷ [] }

abbrev heights : List ℕ
heights = 4 ∷ 8 ∷ []

abbrev world : World
world = record {
  disk = inl content;
  deposit_take_sigs = [];
  connector_tree_preimages = [];
  node = 110;
}

abbrev four : List Header
four = easy ∷ easy ∷ easy ∷ easy ∷ []

easy-IsHeader : IsHeader easy
easy-IsHeader = record {
  version_i32 = omega arith;
  prev_blockhash_hash = omega arith;
  merkle_root_hash = omega arith;
  time_u32 = omega arith;
  bits_u32 = omega arith;
  nonce_u32 = omega arith;
}

some_header-IsHeader : IsHeader some_header
some_header-IsHeader = record {
  version_i32 = omega arith;
  prev_blockhash_hash = omega arith;
  merkle_root_hash = omega arith;
  time_u32 = omega arith;
  bits_u32 = omega arith;
  nonce_u32 = omega arith;
}

four_work : chain_work four 0 ≡ some 4
unfolding chain_work validate_threshold_and_add_work decode_compact_target place_large
    check_hash_valid check_from calculate_work from_le_bytes to_le_bytes double_sha256_hash
four_work = refl

four-Linked : Linked (hash_of 7) four
unfolding double_sha256_hash
four-Linked = (refl, (refl, (refl, (refl, tt))))

first_four : headers_between 110 100 104 ≡ ok four
unfolding headers_between header_at range collect_map get_block_hash get_block_header
first_four = refl

next_four : headers_between 110 104 108 ≡ ok four
unfolding headers_between header_at range collect_map get_block_hash get_block_header
next_four = refl

payments_of_0 : query (get_withdrawals_payment_for_period 0) world.disk ≡ ok (withdrawal ∷ [])
unfolding query get_withdrawals_payment_for_period from_outcome content_of Database.◌>>=◌
    Database.read
payments_of_0 = refl

payments_of_1 : query (get_withdrawals_payment_for_period 1) world.disk ≡ ok []
unfolding query get_withdrawals_payment_for_period from_outcome content_of Database.◌>>=◌
    Database.read
payments_of_1 = refl

path_of_first : path_of 2 (hash_of 7 ∷ hash_of 12 ∷ []) (hash_of 7) 0 ≡ some (hash_of 12 ∷ [])
unfolding path_of log2_within take_path remove_first remove_last collect fill_path next_node reverse
path_of_first = refl

withdrawal-Mined : Mined 110 (hash_of 7) ([] ++ block_hashes four) (hash_of 7)
unfolding block_of block_hashes double_sha256_hash climb_double
withdrawal-Mined = record {
  block = record { header = some_header; txdata = []; wtxids = [] };
  found = refl;
  header = some_header-IsHeader;
  hash = refl;
  index = 0;
  index_u32 = omega arith;
  path = hash_of 12 ∷ [];
  one = refl;
  path_found = path_of_first;
  path_hashes = omega arith;
  path_len = omega arith;
  merkle_root = refl;
  position = 0;
  first = here;
  position_u32 = omega arith;
}

withdrawal-pays : (is_none (payout key) || some_output (payout key) some_tx.output) ≡ true
unfolding some_output pays is_taproot meets_output bytes_eq
withdrawal-pays = refl

some_tx-IsTransaction : IsTransaction some_tx
some_tx-IsTransaction = record {
  version_i32 = omega arith;
  lock_time_u32 = omega arith;
  input_len = omega arith;
  output_len = omega arith;
  inputs = tt;
  outputs = (
    record {
      value_u64 = omega arith;
      script_pubkey_bytes = omega arith;
      script_pubkey_len = omega arith;
    },
    tt,
  );
}

withdrawal-Paid : Paid 110 ([] ++ block_hashes four) withdrawal
unfolding get_raw_transaction get_transaction double_sha256_hash
withdrawal-Paid = record {
  tx = some_tx;
  tx_found = refl;
  is_tx = some_tx-IsTransaction;
  scripts = (record { bounds = some_tx-IsTransaction.outputs.0; some_script = omega arith }, tt);
  pays = withdrawal-pays;
  same_txid = refl;
  address_hash = omega arith;
  info = record { blockhash = some (hash_of 7); details = 0 ∷ [] };
  info_found = refl;
  blockhash = hash_of 7;
  in_block = refl;
  mined = withdrawal-Mined;
}

first_period : Accounted world 100 heights 0 (hash_of 7) [] []
unfolding period_start
first_period = record {
  first = 100;
  height = 4;
  work = 4;
  headers = four;
  payments = withdrawal ∷ [];
  first_is = refl;
  height_is = refl;
  headers_are = first_four;
  payments_are = payments_of_0;
  are_headers = (easy-IsHeader, (easy-IsHeader, (easy-IsHeader, (easy-IsHeader, tt))));
  linked = four-Linked;
  valid = four_work;
  enough = omega arith;
  room = omega arith;
  withdrawals_room = omega arith;
  paid = (withdrawal-Paid, tt);
}

second-Accounted :
    Accounted world 100 heights 1 (last_hash (hash_of 7) four) ([] ++ block_hashes four) (key ∷ [])
unfolding period_start last_hash double_sha256_hash block_hashes
second-Accounted = record {
  first = 104;
  height = 8;
  work = 4;
  headers = four;
  payments = [];
  first_is = refl;
  height_is = refl;
  headers_are = next_four;
  payments_are = payments_of_1;
  are_headers = (easy-IsHeader, (easy-IsHeader, (easy-IsHeader, (easy-IsHeader, tt))));
  linked = four-Linked;
  valid = four_work;
  enough = omega arith;
  room = omega arith;
  withdrawals_room = omega arith;
  paid = tt;
}

both-Accounts : Accounts world 100 heights 2 0 (hash_of 7) [] []
unfolding first_period
both-Accounts = (first_period, (second-Accounted, tt))

-- The variables of `prove` and of `bridge_proof` before their loops.
abbrev proved : Proved
proved = record {
  blockhashes_mt = Tree.new 32;
  withdrawal_mt = Tree.new 32;
  lc_blockhash = replicate 32 0;
  end_height = 0;
  total_num_withdrawals = 0;
}

abbrev periods : Periods
periods = record {
  blockhashes_mt = Incremental.new 32;
  withdrawal_mt = Incremental.new 32;
  total_pow = 0;
  cur_block_hash = hash_of 7;
  lc_blockhash = replicate 32 0;
  total_num_withdrawals = 0;
  last_period = 0;
}

start-InStep : InStep [] [] proved periods
start-InStep = record {
  host_blocks = Build.Built-new 32;
  circuit_blocks = Incremental.Holds-new 32;
  host_withdrawals = Build.Built-new 32;
  circuit_withdrawals = Incremental.Holds-new 32;
  hashes = tt;
  same_count = refl;
}

read_periods-prove_periods_example :
    (p' : Proved) × (s' : Periods) × (t : MockData) × (t' : MockData) × (blocks' : List Bytes)
    × (ws' : List Bytes) × ((prove_periods world 100 heights 1 2 0 proved >>= λ p'.
            run (mock_environment.write_u32 1) >>= λ _. pure p')
          (mock_tape.tape [] [])
        ≡ (ok p', t))
    × (read_periods 4 0 periods t ≡ some (s', t'))
    × InStep blocks' ws' p' s'
    × (s'.last_period ≡ 1)
    × (s'.cur_block_hash ≡ tip_of world 100 heights 2 0 (hash_of 7) [] [] both-Accounts)
    × (p'.end_height ≡ end_of world 100 heights 1 0 (hash_of 7) [] [] both-Accounts)
    × (s'.lc_blockhash ≡ p'.lc_blockhash)
    × (root 32 p'.withdrawal_mt ≡ some s'.withdrawal_mt.root)
read_periods-prove_periods_example =
    read_periods-prove_periods world 100 heights 1 1 0 4 (hash_of 7) [] [] proved periods []
      both-Accounts start-InStep refl refl (omega arith)
