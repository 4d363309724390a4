-- ===== src/Merkle/Tree/Paths.antt =====
-- `MerkleTree::path` and `index_of`, against the way up that a verifier of a path goes.
use clementine_citeria.Common.{
  ℕ, zero, suc, ◌+◌, ◌-◌, ◌*◌, ◌/◌, ◌%◌, ◌≤◌, ◌<◌, ◌^◌, ◌≡◌, ◌≢◌, refl, ◌⊎◌, inl, inr, List, [],
  ◌∷◌, arith, length, get_or, ltb, ◌==◌, if◌then◌else◌, ap, sym, ◌∙◌, subst, none, some, Bool-cases,
  false, get_or-ge_length, All,
}
use clementine_citeria.Common.Bytes.{Bytes, IsHash, bytes_eq, bytes_eq→eq, bytes_eq_refl}
use clementine_citeria.Hash.{Crypto, hash_pair}
use clementine_citeria.Merkle.Levels.{
  empty_data, zeroes, pair_up, level_up, node, get_or-level_up, get_or-pair_up, zeroes-IsHash,
  pair_up-IsHash,
}
use clementine_citeria.Merkle.Incremental.{above, above-eq-zero}
use clementine_citeria.Merkle.Tree.{MerkleTree, sibling, path_levels, path, index_from, index_of}
use clementine_citeria.Merkle.Tree.Build.{stack, Built}

-- What `index_of` looks for: the first leaf that equals `a`.
pub data FirstAt (a : Bytes) : List Bytes → ℕ → Type 0 where
  here : {xs : List Bytes} → FirstAt a (a ∷ xs) 0
  later :
      {x : Bytes} {xs : List Bytes} {i : ℕ} → x ≢ a → FirstAt a xs i → FirstAt a (x ∷ xs) (suc i)

abbrev pub Absent : Bytes → List Bytes → Type 0
Absent a [] = Unit {0}
Absent a (x ∷ xs) = (x ≢ a) × Absent a xs

-- A leaf that is found is in the tree, at the place found.
pub FirstAt-get_or :
    (a d : Bytes) (xs : List Bytes) (k : ℕ) → FirstAt a xs k → (k < length xs) × (get_or xs k d ≡ a)
FirstAt-get_or a d _ _ here = (omega arith, refl)
FirstAt-get_or a d _ _ (later {xs = ys} {i = i} ne first) =
    let (small, e) = FirstAt-get_or a d ys i first in (omega arith, e)

module _ ⦃c : Crypto⦄ where
  -- From the node `hash` at the position `i` up along its siblings.
  unfoldable pub climb : List Bytes → ℕ → Bytes → Bytes
  climb [] i hash = hash
  climb (s ∷ rest) i hash =
      climb rest (i / 2) (if i % 2 == 0 then hash_pair hash s else hash_pair s hash)

  -- The specification of `path`: the siblings of the nodes above the leaf `p`.
  unfoldable pub siblings_above : ℕ → ℕ → List Bytes → ℕ → List Bytes
  siblings_above zero i xs p = []
  siblings_above (suc n) i xs p =
      get_or xs (if p % 2 == 0 then p + 1 else p - 1) (zeroes i)
      ∷ siblings_above n (suc i) (pair_up (zeroes i) xs) (p / 2)

  sibling-get_or :
      (i : ℕ) (xs : List Bytes) (p : ℕ)
      → sibling i xs p ≡ get_or xs (if p % 2 == 0 then p + 1 else p - 1) (zeroes i)
  unfolding sibling
  sibling-get_or i xs p = go (if p % 2 == 0 then p + 1 else p - 1)
    where
      same :
          (ys : List Bytes) (s : ℕ)
          → s < length ys
          → get_or ys s empty_data ≡ get_or ys s (zeroes i)
      same [] s h = absurd (omega arith)
      same (y ∷ ys) zero h = refl
      same (y ∷ ys) (suc s) h = same ys s (omega arith)

      go :
          (s : ℕ)
          → (if ltb s (length xs) then get_or xs s empty_data else zeroes i)
            ≡ get_or xs s (zeroes i)
      go s = ground (arith, same xs s, get_or-ge_length xs s (zeroes i))

  path_levels-siblings :
      (n m i p : ℕ) (xs : List Bytes)
      → n ≤ m
      → path_levels n i (stack m i xs) p ≡ some (siblings_above n i xs p)
  unfolding path_levels siblings_above stack
  path_levels-siblings zero m i p xs h = refl
  path_levels-siblings (suc n) zero i p xs h = absurd (omega arith)
  path_levels-siblings (suc n) (suc m) i p xs h = rw (
    path_levels-siblings n m (suc i) (p / 2) (pair_up (zeroes i) xs) (omega arith),
    sibling-get_or i xs p,
  )

  pair_sibling :
      (i p : ℕ) (xs : List Bytes)
      → (if p % 2 == 0
          then hash_pair
              (get_or xs p (zeroes i))
              (get_or xs (if p % 2 == 0 then p + 1 else p - 1) (zeroes i))
          else hash_pair
              (get_or xs (if p % 2 == 0 then p + 1 else p - 1) (zeroes i))
              (get_or xs p (zeroes i)))
        ≡ get_or (pair_up (zeroes i) xs) (p / 2) (zeroes (suc i))
  unfolding zeroes
  pair_sibling i p xs = elim (Bool-cases (p % 2 == 0)) [
    | inl even ↦
        let e : 2 * (p / 2) ≡ p = ground arith in rw (even, get_or-pair_up (zeroes i) xs (p / 2), e)
    | inr odd ↦
        let e : 2 * (p / 2) ≡ p - 1 = ground arith in
        let e' : p - 1 + 1 ≡ p = ground arith in
        rw (odd, get_or-pair_up (zeroes i) xs (p / 2), e, e')
  ]

  pub climb-siblings :
      (n i p : ℕ) (xs : List Bytes)
      → climb (siblings_above n i xs p) p (get_or xs p (zeroes i))
        ≡ get_or (level_up n i xs) (above n p) (zeroes (n + i))
  unfolding climb siblings_above level_up above
  climb-siblings zero i p xs = let e : 0 + i ≡ i = omega arith in rw e
  climb-siblings (suc n) i p xs =
      let e : suc n + i ≡ n + suc i = omega arith in
      ap (climb (siblings_above n (suc i) (pair_up (zeroes i) xs) (p / 2)) (p / 2))
        (pair_sibling i p xs)
      ∙ rw e (climb-siblings n (suc i) (p / 2) (pair_up (zeroes i) xs))

  pub siblings_above-IsHash :
      (n i p : ℕ) (xs : List Bytes) → All IsHash xs → All IsHash (siblings_above n i xs p)
  unfolding siblings_above
  siblings_above-IsHash zero i p xs h = tt
  siblings_above-IsHash (suc n) i p xs h = (
    entry xs _ h,
    siblings_above-IsHash n (suc i) (p / 2) (pair_up (zeroes i) xs)
        (pair_up-IsHash (zeroes i) xs (zeroes-IsHash i) h),
  )
    where
      entry : (ys : List Bytes) (s : ℕ) → All IsHash ys → IsHash (get_or ys s (zeroes i))
      entry [] s hs = zeroes-IsHash i
      entry (y ∷ ys) zero hs = hs.0
      entry (y ∷ ys) (suc s) hs = entry ys s hs.1

  pub length-siblings_above : (n i p : ℕ) (xs : List Bytes) → length (siblings_above n i xs p) ≡ n
  unfolding siblings_above
  length-siblings_above zero i p xs = refl
  length-siblings_above (suc n) i p xs =
      ap suc (length-siblings_above n (suc i) (p / 2) (pair_up (zeroes i) xs))

  -- `path` returns `depth` siblings that lead from its leaf to the root.
  pub path-climb :
      (depth : ℕ) (t : MerkleTree) (xs : List Bytes) (p : ℕ)
      → Built depth t xs
      → p < 2 ^ depth
      → (s : List Bytes) × (path depth t p ≡ some s)
        × (length s ≡ depth)
        × (climb s p (get_or xs p empty_data) ≡ node depth 0 0 xs)
  unfolding path
  path-climb depth t xs p h small = (
    siblings_above depth 0 xs p,
    rw h.levels (path_levels-siblings depth (depth + 1) 0 p xs (omega arith)),
    length-siblings_above depth 0 p xs,
    unfold zeroes in
        climb-siblings depth 0 p xs
        ∙ rw (above-eq-zero depth p small) (get_or-level_up depth 0 0 xs),
  )

  -- The same siblings, as hashes.
  pub path-siblings :
      (depth : ℕ) (t : MerkleTree) (xs : List Bytes) (p : ℕ)
      → Built depth t xs
      → All IsHash xs
      → (path depth t p ≡ some (siblings_above depth 0 xs p))
        × All IsHash (siblings_above depth 0 xs p)
  unfolding path
  path-siblings depth t xs p h hashes = (
    rw h.levels (path_levels-siblings depth (depth + 1) 0 p xs (omega arith)),
    siblings_above-IsHash depth 0 p xs hashes,
  )

  index_from-first :
      (xs : List Bytes) (i : ℕ) (a : Bytes)
      → ((k : ℕ) × (index_from (length xs) i xs a ≡ some (some (k + i))) × FirstAt a xs k)
        ⊎ ((index_from (length xs) i xs a ≡ some none) × Absent a xs)
  unfolding index_from
  index_from-first [] i a = inr (refl, tt)
  index_from-first (x ∷ xs) i a = elim (Bool-cases (bytes_eq x a)) [
    | inl same ↦
        let e : 0 + i ≡ i = omega arith in
        inl (0, rw (same, e), subst (λ y. FirstAt a (y ∷ xs) 0) (sym (bytes_eq→eq x a same)) here)
    | inr other ↦ elim (index_from-first xs (suc i) a) [
      | inl (k, found, first) ↦
          let e : suc k + i ≡ k + suc i = omega arith in
          inl (suc k, rw (other, found, e), later (distinct other) first)
      | inr (none_found, absent) ↦ inr (rw (other, none_found), (distinct other, absent))
    ]
  ]
    where
      distinct : bytes_eq x a ≡ false → x ≢ a
      distinct other e = cc (bytes_eq_refl x)

  -- `index_of` never panics on a built tree, and finds the first leaf with the value.
  pub index_of-first :
      (depth : ℕ) (t : MerkleTree) (xs : List Bytes) (a : Bytes)
      → Built depth t xs
      → ((k : ℕ) × (index_of t a ≡ some (some k)) × FirstAt a xs k)
        ⊎ ((index_of t a ≡ some none) × Absent a xs)
  unfolding index_of stack
  index_of-first depth t xs a h =
      let e : depth + 1 ≡ suc depth = omega arith in
      rw (h.levels, h.index, e) (at_zero (index_from-first xs 0 a))
    where
      at_zero :
          ((k : ℕ) × (index_from (length xs) 0 xs a ≡ some (some (k + 0))) × FirstAt a xs k)
            ⊎ ((index_from (length xs) 0 xs a ≡ some none) × Absent a xs)
          → ((k : ℕ) × (index_from (length xs) 0 xs a ≡ some (some k)) × FirstAt a xs k)
            ⊎ ((index_from (length xs) 0 xs a ≡ some none) × Absent a xs)
      at_zero (inl (k, found, first)) =
          let e : k + 0 ≡ k = omega arith in inl (k, rw e at found, first)
      at_zero (inr r) = inr r
