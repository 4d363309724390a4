-- ===== src/Operator.antt =====
-- Parts of core/src/operator.rs: the connector trees, the period that a block height falls in, and
-- the values that `prove` writes of a challenge.
pub mod Periods
pub mod State
pub mod Setup
pub mod Claims
pub mod Deposit
pub mod Split
pub mod Payments
pub mod Proving
pub mod Trees
use clementine_citeria.Claim.{pow2_u32}
use clementine_citeria.Common.{
  ℕ, zero, suc, ◌+◌, ◌-◌, ◌*◌, ◌%◌, ◌^◌, List, [], ◌∷◌, ◌++◌, Option, none, some, length, ltb, leb,
  not, ◌&&◌, if◌then◌else◌,
}
use clementine_citeria.Common.Bytes.{Bytes, IsHash}
use clementine_citeria.Common.Words.{to_le_bytes}
use clementine_citeria.Hash.{Crypto, sha256_hash}
use clementine_citeria.Env
use clementine_citeria.Env.{Environment, Prog}
use clementine_citeria.Circuit.Constants.{max_block_handle_ops}
use clementine_citeria.Circuit.Bridge.{Challenge}
use clementine_citeria.Database.{
  Dbms, Db, ok, return, ◌>>=◌, get_start_block_height, get_period_relative_block_heights,
}

-- The crate `rand`: a source of preimages, which are 32 bytes.
pub record Rng : Type 1 where
  pub Seed : Type 0
  pub gen : Seed → Bytes × Seed
  pub gen_32 : (s : Seed) → IsHash (gen s).0

module _ ⦃c : Crypto⦄ ⦃r : Rng⦄ where
  -- `for _ in 0..2u32.pow(i as u32)`, with `n` rounds left: the preimages and the hashes.
  unfoldable pub create_level : ℕ → r.Seed → List Bytes × List Bytes × r.Seed
  create_level zero s = ([], [], s)
  create_level (suc n) s =
      let temp = r.gen s in
      let rest = create_level n temp.1 in (temp.0 ∷ rest.0, sha256_hash temp.0 ∷ rest.1, rest.2)

  -- `for i in 1..(depth + 1)`, with `n` levels left from the level `i` on.
  unfoldable pub create_levels : ℕ → ℕ → r.Seed → List (List Bytes) × List (List Bytes) × r.Seed
  create_levels zero i s = ([], [], s)
  create_levels (suc n) i s =
      let level = create_level (pow2_u32 i) s in
      let rest = create_levels n (suc i) level.2 in (level.0 ∷ rest.0, level.1 ∷ rest.1, rest.2)

  unfoldable pub create_connector_tree_preimages_and_hashes :
      ℕ → r.Seed → List (List Bytes) × List (List Bytes) × r.Seed
  create_connector_tree_preimages_and_hashes depth s =
      let root_preimage = r.gen s in
      let rest = create_levels depth 1 root_preimage.1 in
      ((root_preimage.0 ∷ []) ∷ rest.0, (sha256_hash root_preimage.0 ∷ []) ∷ rest.1, rest.2)

  unfoldable pub create_all_rounds_connector_preimages :
      ℕ → ℕ → r.Seed → List (List (List Bytes)) × List (List (List Bytes)) × r.Seed
  create_all_rounds_connector_preimages depth zero s = ([], [], s)
  create_all_rounds_connector_preimages depth (suc num_rounds) s =
      let tree = create_connector_tree_preimages_and_hashes depth s in
      let rest = create_all_rounds_connector_preimages depth num_rounds tree.2 in
      (tree.0 ∷ rest.0, tree.1 ∷ rest.1, rest.2)

-- `start_block_height + *block_height as u64 - MAX_BLOCK_HANDLE_OPS as u64`, which wraps.
abbrev pub handle_height : ℕ → ℕ → ℕ
handle_height start_block_height block_height =
    (start_block_height + block_height + 2 ^ 64 - max_block_handle_ops) % 2 ^ 64

-- The loops over the heights, from the period `i` on.
unfoldable pub withdrawal_period_from : ℕ → ℕ → ℕ → List ℕ → Option ℕ
withdrawal_period_from i cur start [] = none
withdrawal_period_from i cur start (block_height ∷ rest) =
    let later = withdrawal_period_from (suc i) cur start rest in
    if ltb cur (handle_height start block_height) then some i else later

unfoldable pub reveal_period_from : ℕ → ℕ → ℕ → List ℕ → Option ℕ
reveal_period_from i cur start [] = none
reveal_period_from i cur start (block_height ∷ rest) =
    let later = reveal_period_from (suc i) cur start rest in
    if leb (handle_height start block_height) cur && ltb cur ((start + block_height) % 2 ^ 64)
    then some i
    else later

module _ ⦃d : Dbms⦄ where
  -- The block count of the node is an argument; `none` is `BridgeError::InvalidPeriod`.
  unfoldable pub get_current_withdrawal_period : ℕ → Db (Option ℕ)
  get_current_withdrawal_period cur_block_height = do
    start_block_height ← get_start_block_height
    period_relative_block_heights ← get_period_relative_block_heights
    return (
        ok (
          withdrawal_period_from 0 cur_block_height start_block_height
            period_relative_block_heights))

  unfoldable pub get_current_preimage_reveal_period : ℕ → Db (Option ℕ)
  get_current_preimage_reveal_period cur_block_height = do
    start_block_height ← get_start_block_height
    period_relative_block_heights ← get_period_relative_block_heights
    return (
        ok (reveal_period_from 0 cur_block_height start_block_height period_relative_block_heights))
