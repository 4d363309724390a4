-- ===== src/Bitcoin.antt =====
-- The crate `bitcoin`, which is a parameter: its public types, as records of the fields that the
-- program reads, and the documented consensus encoding.
use clementine_citeria.Common.{
  ℕ, ◌^◌, ◌<◌, ◌≡◌, List, [], ◌∷◌, ◌++◌, length, ltb, leb, if◌then◌else◌, All,
}
use clementine_citeria.Common.Bytes.{Bytes, IsByte, IsHash}
use clementine_citeria.Common.Words.{to_le_bytes}
use clementine_citeria.Hash.{Crypto, double_sha256_hash}

-- `bitcoin::block::Header`, with every hash in its internal byte order.
pub record Header : Type 0 where
  pub version : ℕ
  pub prev_blockhash : Bytes
  pub merkle_root : Bytes
  pub time : ℕ
  pub bits : ℕ
  pub nonce : ℕ

-- `TxIn`, with the two fields of its `previous_output`.
pub record TxIn : Type 0 where
  pub txid : Bytes
  pub vout : ℕ
  pub script_sig : Bytes
  pub sequence : ℕ

pub record TxOut : Type 0 where
  pub value : ℕ
  pub script_pubkey : Bytes

pub record Transaction : Type 0 where
  pub version : ℕ
  pub lock_time : ℕ
  pub input : List TxIn
  pub output : List TxOut

-- What the Rust types say of these values.
pub record IsHeader (h : Header) : Type 0 where
  pub version_i32 : h.version < 2 ^ 32
  pub prev_blockhash_hash : IsHash h.prev_blockhash
  pub merkle_root_hash : IsHash h.merkle_root
  pub time_u32 : h.time < 2 ^ 32
  pub bits_u32 : h.bits < 2 ^ 32
  pub nonce_u32 : h.nonce < 2 ^ 32

-- A script is shorter than 2 ^ 32 bytes.
pub record IsTxIn (i : TxIn) : Type 0 where
  pub txid_hash : IsHash i.txid
  pub vout_u32 : i.vout < 2 ^ 32
  pub script_sig_bytes : All IsByte i.script_sig
  pub script_sig_len : length i.script_sig < 2 ^ 32
  pub sequence_u32 : i.sequence < 2 ^ 32

pub record IsTxOut (o : TxOut) : Type 0 where
  pub value_u64 : o.value < 2 ^ 64
  pub script_pubkey_bytes : All IsByte o.script_pubkey
  pub script_pubkey_len : length o.script_pubkey < 2 ^ 32

pub record IsTransaction (t : Transaction) : Type 0 where
  pub version_i32 : t.version < 2 ^ 32
  pub lock_time_u32 : t.lock_time < 2 ^ 32
  pub input_len : length t.input < 2 ^ 32
  pub output_len : length t.output < 2 ^ 32
  pub inputs : All IsTxIn t.input
  pub outputs : All IsTxOut t.output

-- Bitcoin's compact size.
abbrev pub compact_size : ℕ → Bytes
compact_size n =
    if ltb n 0xfd
    then to_le_bytes 1 n
    else if leb n 0xffff
    then 0xfd ∷ to_le_bytes 2 n
    else if leb n 0xffffffff
    then 0xfe ∷ to_le_bytes 4 n
    else 0xff ∷ to_le_bytes 8 n

abbrev pub encode_header : Header → Bytes
encode_header h =
    to_le_bytes 4 h.version
    ++ (h.prev_blockhash
        ++ (h.merkle_root
            ++ (to_le_bytes 4 h.time ++ (to_le_bytes 4 h.bits ++ to_le_bytes 4 h.nonce))))

abbrev pub encode_input : TxIn → Bytes
encode_input i =
    i.txid
    ++ (to_le_bytes 4 i.vout
        ++ (compact_size (length i.script_sig) ++ (i.script_sig ++ to_le_bytes 4 i.sequence)))

abbrev pub encode_output : TxOut → Bytes
encode_output o =
    to_le_bytes 8 o.value ++ (compact_size (length o.script_pubkey) ++ o.script_pubkey)

abbrev pub encode_list {ℓ} : {A : Type ℓ} → (A → Bytes) → List A → Bytes
encode_list encode [] = []
encode_list encode (x ∷ xs) = encode x ++ encode_list encode xs

-- Without the witnesses.
abbrev pub encode_transaction : Transaction → Bytes
encode_transaction t =
    to_le_bytes 4 t.version
    ++ (compact_size (length t.input)
        ++ (encode_list encode_input t.input
            ++ (compact_size (length t.output)
                ++ (encode_list encode_output t.output ++ to_le_bytes 4 t.lock_time))))

-- `Header::block_hash` and `Transaction::txid`, documented as the double SHA-256 of the encoding.
pub record BitcoinCrate ⦃c : Crypto⦄ : Type 0 where
  pub block_hash : Header → Bytes
  pub block_hash_encoding : (h : Header) → block_hash h ≡ double_sha256_hash (encode_header h)
  pub txid : Transaction → Bytes
  pub txid_encoding : (t : Transaction) → txid t ≡ double_sha256_hash (encode_transaction t)
