-- ===== src/Circuit/Constants.antt =====
-- circuits/src/constants.rs, without the trees' constants (Merkle/Levels.antt).
use clementine_citeria.Common.{ℕ, List, [], ◌∷◌}
use clementine_citeria.Common.Bytes.{Bytes}

abbrev pub blockhash_merkle_tree_depth : ℕ
blockhash_merkle_tree_depth = 32

abbrev pub withdrawal_merkle_tree_depth : ℕ
withdrawal_merkle_tree_depth = 32

abbrev pub claim_merkle_tree_depth : ℕ
claim_merkle_tree_depth = 4

abbrev pub max_block_handle_ops : ℕ
max_block_handle_ops = 3

abbrev pub num_rounds : ℕ
num_rounds = 4

abbrev pub bridge_amount_sats : ℕ
bridge_amount_sats = 100_000_000

abbrev pub period_claim_mt_roots : List Bytes
period_claim_mt_roots =
    (240 ∷ 46 ∷ 113 ∷ 222 ∷ 220 ∷ 199 ∷ 72 ∷ 92 ∷ 215 ∷ 201 ∷ 134 ∷ 161 ∷ 55 ∷ 159 ∷ 164 ∷ 12 ∷ 204
      ∷ 45 ∷ 18 ∷ 104 ∷ 6 ∷ 128 ∷ 245 ∷ 179 ∷ 50 ∷ 80 ∷ 93 ∷ 74 ∷ 246 ∷ 165 ∷ 14 ∷ 118 ∷ [])
    ∷ (239 ∷ 220 ∷ 20 ∷ 230 ∷ 23 ∷ 32 ∷ 160 ∷ 104 ∷ 119 ∷ 219 ∷ 5 ∷ 97 ∷ 146 ∷ 59 ∷ 85 ∷ 167 ∷ 94
        ∷ 55 ∷ 204 ∷ 28 ∷ 162 ∷ 62 ∷ 188 ∷ 18 ∷ 36 ∷ 214 ∷ 20 ∷ 142 ∷ 51 ∷ 46 ∷ 207 ∷ 114 ∷ [])
    ∷ (141 ∷ 123 ∷ 155 ∷ 230 ∷ 74 ∷ 20 ∷ 62 ∷ 246 ∷ 233 ∷ 108 ∷ 174 ∷ 133 ∷ 94 ∷ 36 ∷ 36 ∷ 183 ∷ 144
        ∷ 213 ∷ 183 ∷ 90 ∷ 207 ∷ 74 ∷ 237 ∷ 237 ∷ 202 ∷ 99 ∷ 231 ∷ 11 ∷ 94 ∷ 42 ∷ 133 ∷ 54 ∷ [])
    ∷ (84 ∷ 157 ∷ 96 ∷ 85 ∷ 221 ∷ 69 ∷ 198 ∷ 190 ∷ 169 ∷ 228 ∷ 62 ∷ 218 ∷ 157 ∷ 72 ∷ 19 ∷ 242 ∷ 96
        ∷ 134 ∷ 182 ∷ 183 ∷ 233 ∷ 25 ∷ 150 ∷ 14 ∷ 104 ∷ 65 ∷ 96 ∷ 98 ∷ 85 ∷ 89 ∷ 114 ∷ 191 ∷ [])
    ∷ []
