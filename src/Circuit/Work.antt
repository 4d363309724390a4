-- ===== src/Circuit/Work.antt =====
-- The proof of work of a header, from circuits/src/bitcoin.rs. A `U256` is a number below 2 ^ 256,
-- as in `crypto_bigint`, and its little-endian bytes are a hash.
pub mod Target
pub mod Threshold
use clementine_citeria.Common.{
  ℕ, zero, suc, ◌+◌, ◌-◌, ◌*◌, ◌/◌, ◌%◌, ◌^◌, List, [], ◌∷◌, Option, none, some, get_or, set?,
  replicate, ltb, leb, if◌then◌else◌, ◌>>=◌, ◌>>◌,
}
use clementine_citeria.Common.Bytes.{Bytes}
use clementine_citeria.Common.Words.{from_le_bytes}

abbrev pub u256_max : ℕ
u256_max = 2 ^ 256 - 1

-- `(value >> shift) as u8`
abbrev byte_at : ℕ → ℕ → ℕ
byte_at value shift = value / 2 ^ shift % 256

-- `for i in 0..exponent { target[31 - i] = (value >> (8 * (start_index + i))) as u8 }`
unfoldable pub place_small : ℕ → ℕ → ℕ → ℕ → Bytes → Option Bytes
place_small zero i start_index value target = some target
place_small (suc n) i start_index value target = do
  target' ← set? target (31 - i) (byte_at value (8 * (start_index + i)))
  place_small n (suc i) start_index value target'

-- `for i in 0..3 { target[exponent - 3 + i] = (value >> (8 * i)) as u8 }`; out of bounds it panics.
unfoldable pub place_large : ℕ → ℕ → ℕ → ℕ → Bytes → Option Bytes
place_large zero i exponent value target = some target
place_large (suc n) i exponent value target = do
  target' ← set? target (exponent - 3 + i) (byte_at value (8 * i))
  place_large n (suc i) exponent value target'

-- `bits` is the header's field in little-endian order: `bits.reverse()` makes `b3` the exponent,
-- and the three disjoint bytes of `value` are or-ed, which is a sum.
unfoldable pub decode_compact_target : Bytes → Option Bytes
decode_compact_target (b0 ∷ b1 ∷ b2 ∷ b3 ∷ []) =
    let exponent = b3 in
    let value = b2 * 2 ^ 16 + b1 * 2 ^ 8 + b0 in
    let target : Bytes = replicate 32 0 in
    if leb exponent 3
    then place_small exponent 0 (4 - exponent) value target
    else place_large 3 0 exponent value target
decode_compact_target _ = none

-- `for i in (0..32).rev()`, from `i - 1` down.
unfoldable pub check_from : ℕ → Bytes → Bytes → Option (Unit {0})
check_from zero hash target = some tt
check_from (suc i) hash target =
    let rest = check_from i hash target in
    if ltb (get_or hash i 0) (get_or target i 0)
    then some tt
    else if ltb (get_or target i 0) (get_or hash i 0)
    then none
    else rest

-- `none` is `panic!("Hash is not valid")`.
unfoldable pub check_hash_valid : Bytes → Bytes → Option (Unit {0})
check_hash_valid hash target = check_from 32 hash target

-- `a.saturating_add(&U256::ONE)`
abbrev saturating_suc : ℕ → ℕ
saturating_suc a = if ltb a u256_max then a + 1 else u256_max

unfoldable pub calculate_work : Bytes → ℕ
calculate_work target = u256_max / saturating_suc (from_le_bytes target)

unfoldable pub validate_threshold_and_add_work : Bytes → Bytes → ℕ → Option ℕ
validate_threshold_and_add_work bits block_hash old_work = do
  target ← decode_compact_target bits
  check_hash_valid block_hash target
  some ((old_work + calculate_work target) % 2 ^ 256)

unfoldable pub validate_threshold_and_subtract_work : Bytes → Bytes → ℕ → Option ℕ
validate_threshold_and_subtract_work bits block_hash old_work = do
  target ← decode_compact_target bits
  check_hash_valid block_hash target
  some ((old_work + 2 ^ 256 - calculate_work target) % 2 ^ 256)
