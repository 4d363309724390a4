-- ===== src/Writer/Chunks.antt =====
-- The chunks of 32 bytes in which a script goes to the circuit.
pub mod Slices
use clementine_citeria.Common.{
  ℕ, zero, suc, ◌+◌, ◌-◌, ◌*◌, ◌/◌, ◌%◌, ◌^◌, ◌<◌, ◌≤◌, ◌≡◌, refl, ap, ◌∙◌, arith, List, [], ◌∷◌,
  ◌++◌, append_assoc, append-nil, length, length-append, take, drop, ltb, if◌then◌else◌, replicate,
  length-replicate, All, Bool, true, false, Bool-cases, ge→ltb, inl, inr,
}
use clementine_citeria.Common.Bytes.{Bytes, IsByte, IsHash}
use clementine_citeria.Hash.{Crypto}
use clementine_citeria.Env.{Environment, pure, ◌>>=◌, for_range}
use clementine_citeria.Env.Tape.{
  Item, bytes32, IsTape, Reads, Writes, Reads-pure, Reads-bind, Reads-32bytes, Writes-nil,
  Writes-then, Writes-32bytes, items_all, steps, Reads-for_range,
}
use clementine_citeria.Env.Mock.{slice?}
use clementine_citeria.Circuit.Transaction.{read_whole_chunk, read_chunks_and_update_hasher}
use clementine_citeria.Writer.Chunks.Slices.{
  length-take, length-drop, take-append, All-take, All-drop, All-zeros, All-join, take-drop_next,
  drop-all,
}
use clementine_citeria.Writer.{write_chunk, write_chunks}

-- `n` whole chunks, from the chunk `k` on.
unfoldable pub chunks : ℕ → ℕ → Bytes → List Bytes
chunks zero k bytes = []
chunks (suc n) k bytes = take 32 (drop (k * 32) bytes) ∷ chunks n (suc k) bytes

-- The last chunk, padded.
abbrev last_chunk : Bytes → List Bytes
last_chunk bytes =
    if ltb 0 (length bytes % 32)
    then (drop (length bytes / 32 * 32) bytes ++ replicate (32 - length bytes % 32) 0) ∷ []
    else []

abbrev hash_items : List Bytes → List Item
hash_items bs = items_all (λ b. bytes32 b ∷ []) bs

unfoldable pub chunk_items : Bytes → List Item
chunk_items bytes = hash_items (chunks (length bytes / 32) 0 bytes) ++ hash_items (last_chunk bytes)

chunks-IsHash :
    (n k : ℕ) (bytes : Bytes)
    → All IsByte bytes
    → (k + n) * 32 ≤ length bytes
    → All IsHash (chunks n k bytes)
unfolding chunks
chunks-IsHash zero k bytes h fits = tt
chunks-IsHash (suc n) k bytes h fits = (
  (
    length-take 32 (drop (k * 32) bytes) (omega (arith, length-drop (k * 32) bytes)),
    All-take 32 (drop (k * 32) bytes) (All-drop (k * 32) bytes h),
  ),
  chunks-IsHash n (suc k) bytes h (omega arith),
)

length-chunks : (n k : ℕ) (bytes : Bytes) → length (chunks n k bytes) ≡ n
unfolding chunks
length-chunks zero k bytes = refl
length-chunks (suc n) k bytes = ap suc (length-chunks n (suc k) bytes)

-- The hasher after the whole chunks.
steps-chunks :
    (n k i : ℕ) (bytes hasher : Bytes)
    → steps (λ _ h chunk. h ++ chunk) i hasher (chunks n k bytes) ++ drop ((k + n) * 32) bytes
      ≡ hasher ++ drop (k * 32) bytes
unfolding chunks
steps-chunks zero k i bytes hasher = let e : k + 0 ≡ k = omega arith in rw e
steps-chunks (suc n) k i bytes hasher =
    let e : k + suc n ≡ suc k + n = omega arith in
    let e' : suc k * 32 ≡ k * 32 + 32 = omega arith in
    rw e (
      steps-chunks n (suc k) (suc i) bytes (hasher ++ take 32 (drop (k * 32) bytes))
      ∙ rw (
        append_assoc hasher (take 32 (drop (k * 32) bytes)) (drop (suc k * 32) bytes),
        e',
        take-drop_next (k * 32) 32 bytes,
      ))

last-length : (bytes : Bytes) → length (drop (length bytes / 32 * 32) bytes) ≡ length bytes % 32
last-length bytes = omega (arith, length-drop (length bytes / 32 * 32) bytes)

padded-IsHash :
    (bytes : Bytes)
    → All IsByte bytes
    → 0 < length bytes % 32
    → IsHash (drop (length bytes / 32 * 32) bytes ++ replicate (32 - length bytes % 32) 0)
padded-IsHash bytes h pos = (
  omega (
    arith,
    last-length bytes,
    length-replicate {A = ℕ} (32 - length bytes % 32) 0,
    length-append {0} (drop (length bytes / 32 * 32) bytes) (replicate (32 - length bytes % 32) 0),
  ),
  All-join (drop (length bytes / 32 * 32) bytes) (replicate (32 - length bytes % 32) 0)
      (All-drop (length bytes / 32 * 32) bytes h) (All-zeros (32 - length bytes % 32)),
)

module _ ⦃c : Crypto⦄ ⦃e : Environment⦄ ⦃i : IsTape e⦄ where
  Reads-whole_chunk :
      (k : ℕ) (hasher chunk : Bytes)
      → IsHash chunk
      → Reads (read_whole_chunk k hasher) (bytes32 chunk ∷ []) (hasher ++ chunk)
  unfolding read_whole_chunk
  Reads-whole_chunk k hasher chunk h =
      Reads-bind e.read_32bytes _ (bytes32 chunk ∷ []) [] chunk _ (Reads-32bytes chunk h)
        (Reads-pure _)

  Reads-last_chunk :
      (bytes hasher : Bytes)
      → All IsByte bytes
      → Reads
          (if ltb 0 (length bytes % 32)
            then e.read_32bytes >>= (λ chunk. pure (hasher ++ take (length bytes % 32) chunk))
            else pure hasher)
          (hash_items (last_chunk bytes))
          (hasher ++ drop (length bytes / 32 * 32) bytes)
  Reads-last_chunk bytes hasher h = elim (Bool-cases (ltb 0 (length bytes % 32))) [
    | inl some_left ↦
        let pos : 0 < length bytes % 32 = ground arith in
        let rest : Bytes = drop (length bytes / 32 * 32) bytes in
        let padding : Bytes = replicate (32 - length bytes % 32) 0 in
        let taken = take-append (length bytes % 32) rest padding (last-length bytes) in
        rw some_left (
          rw taken at (
            Reads-bind e.read_32bytes (λ chunk. pure (hasher ++ take (length bytes % 32) chunk))
              (bytes32 (rest ++ padding) ∷ []) [] (rest ++ padding)
              (hasher ++ take (length bytes % 32) (rest ++ padding))
              (Reads-32bytes (rest ++ padding) (padded-IsHash bytes h pos)) (Reads-pure _)))
    | inr none_left ↦
        let full : length bytes ≤ length bytes / 32 * 32 = ground arith in
        rw (none_left, drop-all (length bytes / 32 * 32) bytes full, append-nil) (Reads-pure hasher)
  ]

  -- The circuit's hasher takes in exactly the bytes of the script.
  pub read_chunks_lem :
      (bytes hasher : Bytes)
      → All IsByte bytes
      → Reads
          (read_chunks_and_update_hasher hasher (length bytes))
          (chunk_items bytes)
          (hasher ++ bytes)
  unfolding read_chunks_and_update_hasher chunk_items
  read_chunks_lem bytes hasher h =
      let n = length bytes / 32 in
      let whole = chunks-IsHash n 0 bytes h (omega arith) in
      let loop =
        Reads-for_range read_whole_chunk (λ b. bytes32 b ∷ []) (λ _ h chunk. h ++ chunk) IsHash
          Reads-whole_chunk (chunks n 0 bytes) 0 hasher whole in
      let e' : 0 + n ≡ n = omega arith in
      let joined = rw e' at (steps-chunks n 0 0 bytes hasher) in
      Reads-bind (for_range n 0 read_whole_chunk hasher) _ (hash_items (chunks n 0 bytes))
        (hash_items (last_chunk bytes))
        (steps (λ _ h chunk. h ++ chunk) 0 hasher (chunks n 0 bytes)) (hasher ++ bytes)
        (rw (length-chunks n 0 bytes) at loop)
        (rw joined at
          (Reads-last_chunk bytes (steps (λ _ h chunk. h ++ chunk) 0 hasher (chunks n 0 bytes)) h))

module _ ⦃e : Environment⦄ ⦃i : IsTape e⦄ where
  Writes-whole_chunks :
      (n k : ℕ) (bytes : Bytes)
      → (k + n) * 32 ≤ length bytes
      → Writes (for_range n k (write_chunk bytes) tt) (hash_items (chunks n k bytes))
  unfolding for_range chunks
  Writes-whole_chunks zero k bytes fits = Writes-nil
  Writes-whole_chunks (suc n) k bytes fits =
      Writes-then (write_chunk bytes k tt) (for_range n (suc k) (write_chunk bytes) tt)
        (bytes32 (take 32 (drop (k * 32) bytes)) ∷ []) (hash_items (chunks n (suc k) bytes))
        (one k bytes (omega arith)) (Writes-whole_chunks n (suc k) bytes (omega arith))
    where
      one :
          (k : ℕ) (bytes : Bytes)
          → k * 32 + 32 ≤ length bytes
          → Writes (write_chunk bytes k tt) (bytes32 (take 32 (drop (k * 32) bytes)) ∷ [])
      one k bytes fits = record {
        run = λ past rest.
            unfold write_chunk slice? ◌>>=◌ in
            rw (ge→ltb _ _ fits) (i.write_32bytes_last past rest (take 32 (drop (k * 32) bytes)));
      }

  -- The host writes the script in chunks, for any script shorter than 2 ^ 32 bytes.
  pub write_chunks_lem :
      (bytes : Bytes) → length bytes < 2 ^ 32 → Writes (write_chunks bytes) (chunk_items bytes)
  unfolding write_chunks chunk_items
  write_chunks_lem bytes small =
      let same : length bytes % 2 ^ 32 ≡ length bytes = omega arith in
      rw same (
        Writes-then (for_range (length bytes / 32) 0 (write_chunk bytes) tt) _
          (hash_items (chunks (length bytes / 32) 0 bytes)) (hash_items (last_chunk bytes))
          (Writes-whole_chunks (length bytes / 32) 0 bytes (omega arith))
          (last (ltb 0 (length bytes % 32))))
    where
      last :
          (b : Bool)
          → Writes
              (if b
                then e.write_32bytes
                    (drop (length bytes / 32 * 32) bytes ++ replicate (32 - length bytes % 32) 0)
                else pure tt)
              (hash_items (
                if b
                then (drop (length bytes / 32 * 32) bytes ++ replicate (32 - length bytes % 32) 0)
                  ∷ []
                else []))
      last true = Writes-32bytes _
      last false = Writes-nil
