-- ===== src/Writer/MerklePath/Filled.antt =====
-- The path that is sent for a transaction leads to the root of its block's tree, in which a node
-- without a right sibling is paired with itself.
use clementine_citeria.Common.{
  ℕ, suc, ◌+◌, ◌-◌, ◌*◌, ◌/◌, ◌%◌, ◌^◌, ◌<◌, ◌≤◌, ◌≡◌, refl, ap, ◌∙◌, List, [], ◌∷◌, ◌++◌,
  append_assoc, append-nil, map, Option, none, some, length, length-append, ◌==◌, if◌then◌else◌,
  replicate, arith, true, false, Bool, All,
}
use clementine_citeria.Common.Bytes.{Bytes, IsHash}
use clementine_citeria.Hash.{Crypto, double_sha256_hash, double_sha256_hash-IsHash}
use clementine_citeria.Circuit.MerkleProof.Wire.{climb_double}
use clementine_citeria.Writer.MerklePath.{ilog2, reverse, collect, next_node, fill_path, path_of}
use native.Mathlib.Nat.{pow-suc}
use clementine_citeria.Writer.MerklePath.Order.{
  flatten, take_path-flatten, length-flatten, reverse-reverse, get_elem?-length, insert?-length,
}

-- The siblings that are there, and a bit for each one that is not; the siblings from the leaf up.
abbrev pub present : List (Option Bytes) → List Bytes
present [] = []
present (some node ∷ ss) = node ∷ present ss
present (none ∷ ss) = present ss

abbrev missing : Option Bytes → ℕ
missing (some node) = 0
missing none = 1

abbrev indicator : List (Option Bytes) → ℕ
indicator [] = 0
indicator (s ∷ ss) = missing s + 2 * indicator ss

indicator-lt : (ss : List (Option Bytes)) → indicator ss < 2 ^ length ss
indicator-lt [] = omega arith
indicator-lt (some node ∷ ss) = omega (arith, indicator-lt ss, pow-suc 2 (length ss))
indicator-lt (none ∷ ss) = omega (arith, indicator-lt ss, pow-suc 2 (length ss))

collect-append :
    (xs : List (Option Bytes)) (s : Option Bytes) (a : ℕ)
    → collect (xs ++ s ∷ []) a
      ≡ ((collect xs a).0 * 2 % 2 ^ 32 + missing s, (collect xs a).1 ++ present (s ∷ []))
unfolding collect
collect-append [] (some node) a =
    let e : a * 2 % 2 ^ 32 + 0 ≡ a * 2 % 2 ^ 32 = omega arith in rw e refl
collect-append [] none a = refl
collect-append (some node ∷ xs) s a = rw (collect-append xs s (a * 2 % 2 ^ 32)) refl
collect-append (none ∷ xs) s a = collect-append xs s (a * 2 % 2 ^ 32 + 1)

reverse-present :
    (s : Option Bytes) (ss : List (Option Bytes))
    → reverse (present ss) ++ present (s ∷ []) ≡ reverse (present (s ∷ ss))
unfolding reverse
reverse-present (some node) ss = refl
reverse-present none ss = append-nil (reverse (present ss))

collect-reverse :
    (ss : List (Option Bytes))
    → 2 ^ length ss ≤ 2 ^ 32
    → collect (reverse ss) 0 ≡ (indicator ss, reverse (present ss))
unfolding reverse collect
collect-reverse [] h = refl
collect-reverse (s ∷ ss) h =
    let small : 2 * indicator ss < 2 ^ 32 = omega (arith, indicator-lt ss, pow-suc 2 (length ss)) in
    let same : indicator ss * 2 % 2 ^ 32 + missing s ≡ missing s + 2 * indicator ss = omega arith in
    collect-append (reverse ss) s 0
    ∙ rw (collect-reverse ss (omega (arith, pow-suc 2 (length ss))), same, reverse-present s ss)
        refl

module _ ⦃c : Crypto⦄ where
  abbrev combine : ℕ → Bytes → Bytes → Bytes
  combine index hash node =
      if index % 2 == 0
      then double_sha256_hash (hash ++ node)
      else double_sha256_hash (node ++ hash)

  -- The siblings from the leaf up, a missing one being the node itself.
  unfoldable pub resolve : ℕ → Bytes → List (Option Bytes) → List Bytes
  resolve index hash [] = []
  resolve index hash (some node ∷ ss) = node ∷ resolve (index / 2) (combine index hash node) ss
  resolve index hash (none ∷ ss) = hash ∷ resolve (index / 2) (combine index hash hash) ss

  -- The root of the block's tree, from the leaf up.
  unfoldable pub block_root : ℕ → Bytes → List (Option Bytes) → Bytes
  block_root index hash [] = hash
  block_root index hash (some node ∷ ss) = block_root (index / 2) (combine index hash node) ss
  block_root index hash (none ∷ ss) = block_root (index / 2) (combine index hash hash) ss

  pub climb_double-resolve :
      (ss : List (Option Bytes)) (index : ℕ) (hash : Bytes)
      → climb_double (resolve index hash ss) index hash ≡ block_root index hash ss
  unfolding climb_double resolve block_root
  climb_double-resolve [] index hash = refl
  climb_double-resolve (some node ∷ ss) index hash =
      climb_double-resolve ss (index / 2) (combine index hash node)
  climb_double-resolve (none ∷ ss) index hash =
      climb_double-resolve ss (index / 2) (combine index hash hash)

  fill_path-resolve :
      (ss : List (Option Bytes)) (done : List Bytes) (index : ℕ) (hash : Bytes)
      → fill_path (length ss) (indicator ss) index hash (length done) (done ++ present ss)
        ≡ some (done ++ resolve index hash ss)
  unfolding fill_path resolve next_node
  fill_path-resolve [] done index hash = refl
  fill_path-resolve (some node ∷ ss) done index hash =
      let even : ((0 + 2 * indicator ss) % 2 == 1) ≡ false = ground arith in
      let half : (0 + 2 * indicator ss) / 2 ≡ indicator ss = omega arith in
      let longer : length (done ++ node ∷ []) ≡ suc (length done) =
        omega (arith, length-append {0} done (node ∷ [])) in
      let next = fill_path-resolve ss (done ++ node ∷ []) (index / 2) (combine index hash node) in
      rw (even, get_elem?-length done node (present ss), half)
        (rw
          (
            longer,
            append_assoc done (node ∷ []) (present ss),
            append_assoc done (node ∷ []) (resolve (index / 2) (combine index hash node) ss),
          )
          at next)
  fill_path-resolve (none ∷ ss) done index hash =
      let odd : ((1 + 2 * indicator ss) % 2 == 1) ≡ true = ground arith in
      let half : (1 + 2 * indicator ss) / 2 ≡ indicator ss = omega arith in
      let longer : length (done ++ hash ∷ []) ≡ suc (length done) =
        omega (arith, length-append {0} done (hash ∷ [])) in
      let next = fill_path-resolve ss (done ++ hash ∷ []) (index / 2) (combine index hash hash) in
      rw (odd, insert?-length done (present ss) hash, half)
        (rw
          (
            longer,
            append_assoc done (hash ∷ []) (present ss),
            append_assoc done (hash ∷ []) (resolve (index / 2) (combine index hash hash) ss),
          )
          at next)

  pub path_of-resolve :
      (length_txs : ℕ) (hashes : List Bytes) (txid : Bytes) (index log : ℕ)
      (ss : List (Option Bytes))
      → ilog2 ((length_txs + 2 ^ 32 - 1) % 2 ^ 32) ≡ some log
      → length ss ≡ log + 1
      → 2 ^ length ss ≤ 2 ^ 32
      → map some hashes ++ replicate (log + 1 + 1 - length hashes) none
        ≡ flatten (reverse ss) index (some txid)
      → path_of length_txs hashes txid index ≡ some (resolve index txid ss)
  unfolding path_of
  path_of-resolve length_txs hashes txid index log ss depth levels small order =
      let len : length (flatten (reverse ss) index (some txid)) - 1 ≡ length (reverse ss) =
        omega (arith, length-flatten (reverse ss) index (some txid)) in
      rw
        (
          depth,
          order,
          len,
          take_path-flatten (reverse ss) index (some txid),
          collect-reverse ss small,
          reverse-reverse (present ss),
          ← levels,
        )
        (fill_path-resolve ss [] index txid)

  pub length-resolve :
      (ss : List (Option Bytes)) (index : ℕ) (hash : Bytes)
      → length (resolve index hash ss) ≡ length ss
  unfolding resolve
  length-resolve [] index hash = refl
  length-resolve (some node ∷ ss) index hash =
      ap suc (length-resolve ss (index / 2) (combine index hash node))
  length-resolve (none ∷ ss) index hash =
      ap suc (length-resolve ss (index / 2) (combine index hash hash))

  combine-IsHash : (index : ℕ) (hash node : Bytes) → IsHash (combine index hash node)
  combine-IsHash index hash node = go (index % 2 == 0)
    where
      go :
          (b : Bool)
          → IsHash
              (if b then double_sha256_hash (hash ++ node) else double_sha256_hash (node ++ hash))
      go true = double_sha256_hash-IsHash (hash ++ node)
      go false = double_sha256_hash-IsHash (node ++ hash)

  pub resolve-IsHash :
      (ss : List (Option Bytes)) (index : ℕ) (hash : Bytes)
      → IsHash hash
      → All IsHash (present ss)
      → All IsHash (resolve index hash ss)
  unfolding resolve
  resolve-IsHash [] index hash h hs = tt
  resolve-IsHash (some node ∷ ss) index hash h (hn, hs) = (
    hn,
    resolve-IsHash ss (index / 2) (combine index hash node) (combine-IsHash index hash node) hs,
  )
  resolve-IsHash (none ∷ ss) index hash h hs = (
    h,
    resolve-IsHash ss (index / 2) (combine index hash hash) (combine-IsHash index hash hash) hs,
  )
