-- ===== src/Env/Mock.antt =====
-- core/src/mock_env.rs: the byte queue of the host. The three statics are one record; the locks
-- are not modelled (one thread). `RealEnvironment`, whose reads all panic, is not either.
pub mod Laws
use clementine_citeria.Common.{
  ℕ, zero, suc, ◌+◌, List, [], ◌∷◌, ◌++◌, Option, none, some, length, take, drop, ltb, ◌==◌,
  if◌then◌else◌, ◌>>=◌,
}
use clementine_citeria.Common.Bytes.{Bytes}
use clementine_citeria.Common.Words.{to_le_bytes, from_le_bytes}
use clementine_citeria.Env.{Environment}
use clementine_citeria.Env.Tape.{Item, bytes32, u32, u64, i32}

pub record MockData : Type 0 where
  pub global_data : Bytes
  pub global_data_types : List ℕ
  pub read_position : ℕ

unfoldable pub write_global : Bytes → ℕ → MockData → Option (Unit {0} × MockData)
write_global data_bytes data_type m = some (
  tt,
  record m {
    global_data = m.global_data ++ data_bytes;
    global_data_types = m.global_data_types ++ data_type ∷ [];
  },
)

-- `panic!("Not enough data in global storage to read")` is `none`.
unfoldable pub read_global : ℕ → MockData → Option (Bytes × MockData)
read_global count m =
    if ltb (length m.global_data) (m.read_position + count)
    then none
    else some (
      take count (drop m.read_position m.global_data),
      record m { read_position = m.read_position + count },
    )

unfoldable pub reset_mock_env : MockData → MockData
reset_mock_env m = record { global_data = []; global_data_types = []; read_position = 0 }

-- `uN::from_le_bytes(bytes.try_into().unwrap())`
unfoldable pub read_number : ℕ → MockData → Option (ℕ × MockData)
read_number count m = do (bytes, m') ← read_global count m; some (from_le_bytes bytes, m')

-- `impl Environment for MockEnvironment`
instance abbrev pub mock_environment : Environment
mock_environment = record {
  State = MockData;
  read_32bytes = λ m. read_global 32 m;
  read_u32 = λ m. read_number 4 m;
  read_u64 = λ m. read_number 8 m;
  read_i32 = λ m. read_number 4 m;
  write_32bytes = λ b m. write_global b 0 m;
  write_u32 = λ n m. write_global (to_le_bytes 4 n) 1 m;
  write_u64 = λ n m. write_global (to_le_bytes 8 n) 2 m;
  write_i32 = λ n m. write_global (to_le_bytes 4 n) 3 m;
}

-- The next value of `output_env`: the type tag, the width and the value that goes to the
-- executor's builder. An unknown tag panics.
unfoldable pub output_item : ℕ → Option (ℕ × (Bytes → Item))
output_item tag =
    if tag == 0
    then some (32, bytes32)
    else if tag == 1
    then some (4, λ b. u32 (from_le_bytes b))
    else if tag == 2
    then some (8, λ b. u64 (from_le_bytes b))
    else if tag == 3
    then some (4, λ b. i32 (from_le_bytes b))
    else none

-- `global_data[i..i + width]`, which panics out of bounds.
unfoldable pub slice? : ℕ → ℕ → Bytes → Option Bytes
slice? i width b = if ltb (length b) (i + width) then none else some (take width (drop i b))

-- `for data_type in global_data_types`: the values written to the executor's builder, in order.
unfoldable pub output_from : List ℕ → ℕ → Bytes → Option (List Item)
output_from [] i global_data = some []
output_from (tag ∷ tags) i global_data = do
  (width, value) ← output_item tag
  bytes ← slice? i width global_data
  rest ← output_from tags (i + width) global_data
  some (value bytes ∷ rest)

unfoldable pub output_env : MockData → Option (List Item)
output_env m = output_from m.global_data_types 0 m.global_data
