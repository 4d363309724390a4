-- ===== src/Tests/Host.antt =====
-- Stand-ins for the crates and the node of the host, which can be followed by hand.
use clementine_citeria.Common.{ℕ, suc, ◌+◌, refl, List, [], ◌∷◌, ◌++◌, none, some, length, arith}
use clementine_citeria.Common.Bytes.{Bytes, bytes_eq, bytes_eq_refl, IsHash}
use clementine_citeria.Hash.{Crypto, double_sha256_hash}
use clementine_citeria.Bitcoin.{
  BitcoinCrate, Header, TxOut, Transaction, encode_header, encode_transaction,
}
use clementine_citeria.Errors.{Result, ok, err, panic}
use clementine_citeria.Script.{ScriptCrate}
use clementine_citeria.Builder.{TaprootCrate}
use clementine_citeria.Actor.{Secp, Actor}
use clementine_citeria.Rpc.{Client}
use clementine_citeria.Operator.{Rng}
use clementine_citeria.Tests.Toy.{hash_of}

-- What a run ended in, or a default.
abbrev pub result_or : {A : Type 0} → Result A → A → A
result_or (ok a) other = a
result_or (err e) other = other
result_or panic other = other

pub hash_of-IsHash : IsHash (hash_of 7)
hash_of-IsHash = (refl, omega arith)

-- One digest for every message.
instance abbrev pub flat : Crypto
flat = record {
  sha256 = λ m. hash_of 7;
  sha256-IsHash = λ m. hash_of-IsHash;
  tweak_add = λ key tweak. some (2 ∷ tweak);
}

instance abbrev pub flat_bitcoin : BitcoinCrate
flat_bitcoin = record {
  block_hash = λ h. double_sha256_hash (encode_header h);
  block_hash_encoding = λ h. refl;
  txid = λ t. double_sha256_hash (encode_transaction t);
  txid_encoding = λ t. refl;
}

-- A script is the number of its pushes.
instance abbrev pub short_scripts : ScriptCrate
short_scripts = record {
  into_script = λ pushes. length pushes ∷ [];
  to_p2wsh = λ script. 0 ∷ script;
  dust_value = λ script. 330;
}

-- A tree of scripts is the list of its leaves, and every list is taken.
instance abbrev pub leaf_list : TaprootCrate
leaf_list = record {
  TaprootBuilder = List (ℕ × Bytes);
  TaprootSpendInfo = List (ℕ × Bytes);
  new = [];
  add_leaf = λ leaves depth script. some (leaves ++ (depth, script) ∷ []);
  finalize = λ leaves key. some leaves;
  merkle_root = λ leaves. some (length leaves ∷ []);
  p2tr = λ key root. 81 ∷ 32 ∷ key;
  control_block = λ leaves script. some script;
}

-- A signature is the message with the key.
instance abbrev pub plain_keys : Secp
plain_keys = record {
  public_key = λ sk. 2 ∷ sk;
  x_only_public_key = λ sk. sk;
  sign_schnorr = λ message sk. message ++ sk;
  verify_schnorr = λ sig message pk. bytes_eq sig (message ++ pk);
  verify-sign = λ message sk. bytes_eq_refl (message ++ sk);
  sign_ecdsa = λ message sk. message ++ sk;
  tap_tweak = λ sk root. some sk;
  taproot_script_spend_signature_hash = λ tx i prevouts script. some (i ∷ length prevouts ∷ []);
  taproot_key_spend_signature_hash = λ tx i prevouts. some (i ∷ []);
}

abbrev pub sk_of : ℕ → Bytes
sk_of n = n ∷ []

-- A deposit of the bridge amount to the taproot address.
abbrev pub deposit_output : TxOut
deposit_output = record {
  value = 100_000_000;
  script_pubkey =
      81 ∷ 32 ∷ 0x93 ∷ 0xc7 ∷ 0x37 ∷ 0x8d ∷ 0x96 ∷ 0x51 ∷ 0x8a ∷ 0x75 ∷ 0x44 ∷ 0x88 ∷ 0x21 ∷ 0xc4
      ∷ 0xf7 ∷ 0xc8 ∷ 0xf4 ∷ 0xba ∷ 0xe7 ∷ 0xce ∷ 0x60 ∷ 0xf8 ∷ 0x04 ∷ 0xd0 ∷ 0x3d ∷ 0x1f ∷ 0x06
      ∷ 0x28 ∷ 0xdd ∷ 0x5d ∷ 0xd0 ∷ 0xf5 ∷ 0xde ∷ 0x51 ∷ [];
}

abbrev pub some_tx : Transaction
some_tx = record { version = 2; lock_time = 0; input = []; output = deposit_output ∷ [] }

abbrev pub some_header : Header
some_header = record {
  version = 1;
  prev_blockhash = hash_of 7;
  merkle_root = hash_of 7;
  time = 0;
  bits = 0;
  nonce = 0;
}

-- A node whose state is its height: every transaction is one deposit, old enough and not spent.
instance abbrev pub one_deposit : Client
one_deposit = record {
  Node = ℕ;
  header_work = λ h. 2;
  raw_transaction = λ node txid. some some_tx;
  raw_transaction_info = λ node txid. some (record { confirmations = some 6; blockhash = none });
  wallet_transaction = λ node txid. some (record { blockhash = none; details = 0 ∷ [] });
  tx_out = λ node outpoint. some (some deposit_output);
  block_count = λ node. some node;
  block_hash = λ node height. some (hash_of 7);
  block_header = λ node hash. some some_header;
  block = λ node hash. some (record { header = some_header; txdata = []; wtxids = [] });
  blockchain_info = λ node. some (record { blocks = node; chain_work = hash_of 0 });
  best_block_hash = λ node. some (hash_of 7);
  pay_to_address = λ address amount node. (some (hash_of 7), suc node);
  broadcast = λ tx witnesses node. (some (double_sha256_hash (encode_transaction tx)), suc node);
  new_address = λ node. (some [], node);
  generate_to_address = λ n address node. (some [], n + node);
}

-- Preimages that are all the same.
instance abbrev pub one_preimage : Rng
one_preimage = record { Seed = Unit {0}; gen = λ s. (hash_of 7, s); gen_32 = λ s. hash_of-IsHash }

abbrev pub actor_of : ℕ → Actor
actor_of n = record {
  secret_key = sk_of n;
  public_key = 2 ∷ sk_of n;
  xonly_public_key = sk_of n;
  address = 81 ∷ 32 ∷ sk_of n;
}
