-- ===== src/Tests/Work.antt =====
-- The proof of work of one header.
use clementine_citeria.Common.{
  ◌+◌, ◌*◌, ◌%◌, ◌^◌, ◌≤◌, ◌<◌, ◌≡◌, ◌≢◌, refl, arith, [], ◌∷◌, some, none, leb, replicate,
  if◌then◌else◌,
}
use clementine_citeria.Common.Bytes.{Bytes}
use clementine_citeria.Common.Words.{from_le_bytes}
use clementine_citeria.Circuit.Work.{
  decode_compact_target, place_large, check_from, check_hash_valid, calculate_work,
  validate_threshold_and_add_work, validate_threshold_and_subtract_work,
}
use clementine_citeria.Circuit.Work.Target.{
  compact_value, mantissa, decode_compact_target-panics, decode_compact_target-small_ne,
}
use clementine_citeria.Circuit.Work.Threshold.{
  bitcoin_work, validate_threshold_and_add_work_lem, validate_threshold_and_add_work-negative,
  subtract_work-add_work,
}
use clementine_citeria.Tests.Toy.{hash_of}

-- The bits 0x1d00ffff of the first blocks, and a hash with four zero bytes at the top.
abbrev low_hash : Bytes
low_hash = 1 ∷ replicate 31 0

decode_compact_target-panics_example : decode_compact_target (255 ∷ 255 ∷ 0 ∷ 33 ∷ []) ≡ none
decode_compact_target-panics_example = decode_compact_target-panics 255 255 0 33 (omega arith)

decode_compact_target-small_ne_example :
    (target : Bytes) × (decode_compact_target (0 ∷ 0 ∷ 1 ∷ 3 ∷ []) ≡ some target)
    × (from_le_bytes target ≢ compact_value 3 (mantissa 0 0 1))
decode_compact_target-small_ne_example =
    decode_compact_target-small_ne 0 0 1 3 (omega arith) (omega arith) (omega arith) (omega arith)
      (omega arith) (omega arith)

two_even : from_le_bytes (hash_of 2) % 2 ≡ 0
unfolding from_le_bytes
two_even = refl

two_pos : 0 < from_le_bytes (hash_of 2)
unfolding from_le_bytes
two_pos = omega arith

validate_threshold_and_add_work_example :
    validate_threshold_and_add_work (255 ∷ 255 ∷ 0 ∷ 29 ∷ []) low_hash 7 ≡ (
      if leb (from_le_bytes low_hash) (compact_value 29 (mantissa 255 255 0))
      then some ((7 + bitcoin_work (compact_value 29 (mantissa 255 255 0))) % 2 ^ 256)
      else none)
validate_threshold_and_add_work_example =
    validate_threshold_and_add_work_lem 255 255 0 29 low_hash 7 (omega arith) (omega arith)
      (omega arith) (omega arith) (omega arith) (omega arith) (omega arith)

low_enough : from_le_bytes low_hash ≤ mantissa 255 255 255 * 256 ^ 29
unfolding from_le_bytes
low_enough = omega arith

validate_threshold_and_add_work-negative_example :
    (compact_value 32 (mantissa 255 255 255) ≡ 0)
    × (validate_threshold_and_add_work (255 ∷ 255 ∷ 255 ∷ 32 ∷ []) low_hash 7
        ≡ some ((7 + bitcoin_work (mantissa 255 255 255 * 256 ^ 29)) % 2 ^ 256))
validate_threshold_and_add_work-negative_example =
    validate_threshold_and_add_work-negative 255 255 255 32 low_hash 7 (omega arith) (omega arith)
      (omega arith) (omega arith) (omega arith) (omega arith) (omega arith) low_enough

work_added : validate_threshold_and_add_work (255 ∷ 255 ∷ 0 ∷ 29 ∷ []) low_hash 7 ≡ some 4295032840
unfolding validate_threshold_and_add_work decode_compact_target place_large check_hash_valid
    check_from calculate_work from_le_bytes
work_added = refl

subtract_work-add_work_example :
    validate_threshold_and_subtract_work (255 ∷ 255 ∷ 0 ∷ 29 ∷ []) low_hash 4295032840 ≡ some 7
subtract_work-add_work_example =
    subtract_work-add_work (255 ∷ 255 ∷ 0 ∷ 29 ∷ []) low_hash 7 4295032840 (omega arith) work_added
