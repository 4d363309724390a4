-- ===== src/Merkle/Tree/Build.antt =====
-- `MerkleTree::new`, `add` and `root`: the stored nodes are the levels of the tree over its leaves.
use clementine_citeria.Common.{
  ℕ, zero, suc, ◌+◌, ◌-◌, ◌/◌, ◌%◌, ◌≤◌, ◌<◌, ◌^◌, ◌≡◌, refl, ◌⊎◌, inl, inr, List, [], ◌∷◌, ◌++◌,
  arith, length, get_or, get_elem?, get_elem?-lt_length, set?, ge→ltb, lt→ltb, ◌==◌, ap, sym,
  replicate, length-append, append_assoc, append-nil, Option, some, Bool-cases,
}
use clementine_citeria.Common.Bytes.{Bytes}
use clementine_citeria.Hash.{Crypto, hash_pair}
use clementine_citeria.Merkle.Levels.{
  zeroes, pair_up, level_up, node, get_or-level_up, put, parent, pair_up-put, length-pair_up,
  put-length,
}
use clementine_citeria.Merkle.Tree.{
  MerkleTree, zeros_within, trailing_zeros, new, siblings, write_node, add_levels, add, add_all,
  root,
}

module _ ⦃c : Crypto⦄ where
  -- `n` levels from the level `i` on, over the nodes `xs`.
  unfoldable pub stack : ℕ → ℕ → List Bytes → List (List Bytes)
  stack zero i xs = []
  stack (suc n) i xs = xs ∷ stack n (suc i) (pair_up (zeroes i) xs)

  -- While the position is a multiple of the level's width the node is new, and `add` pushes it;
  -- `left_bits` counts the bits of a `u32` that are left. After that it replaces the last node.
  abbrev pub Mode : ℕ → ℕ → ℕ → List Bytes → Type 0
  Mode trz i p xs =
      ((trz < i) × (p + 1 ≡ length xs))
      ⊎ ((left_bits : ℕ) × (i + left_bits ≡ 32)
          × (trz ≡ i + zeros_within left_bits p)
          × (p ≡ length xs))

  set?-put :
      (xs : List Bytes) (p : ℕ) (h : Bytes) → p + 1 ≡ length xs → set? xs p h ≡ some (put xs p h)
  unfolding put
  set?-put [] p h e = absurd (omega arith)
  set?-put (x ∷ xs) zero h e = refl
  set?-put (x ∷ xs) (suc p) h e = rw (set?-put xs p h (omega arith))

  write_node-put :
      (trz i p : ℕ) (xs : List Bytes) (h : Bytes)
      → Mode trz i p xs
      → write_node trz i xs p h ≡ some (put xs p h)
  unfolding write_node
  write_node-put trz i p xs h (inl (below, last)) = rw (lt→ltb trz i below) (set?-put xs p h last)
  write_node-put trz i p xs h (inr (left_bits, bits, e, end)) =
      rw (ge→ltb trz i (omega arith), end, put-length xs h)

  siblings-parent :
      (i p : ℕ) (xs : List Bytes) (h : Bytes)
      → (p ≡ length xs) ⊎ (p + 1 ≡ length xs)
      → (l : Bytes) × (r : Bytes) × (siblings i xs p h ≡ some (l, r))
        × (hash_pair l r ≡ parent (zeroes i) xs p h)
  unfolding siblings parent
  siblings-parent i p xs h e = elim (Bool-cases (p % 2 == 0)) [
    | inl even ↦ (h, zeroes i, rw even, rw even)
    | inr odd ↦
        let inside : p - 1 < length xs = ground arith in
        (
          get_or xs (p - 1) (zeroes i),
          h,
          rw (odd, get_elem?-lt_length xs (p - 1) (zeroes i) inside),
          rw odd,
        )
  ]

  Mode-position :
      (trz i p : ℕ) (xs : List Bytes) → Mode trz i p xs → (p ≡ length xs) ⊎ (p + 1 ≡ length xs)
  Mode-position trz i p xs (inl (below, last)) = inr last
  Mode-position trz i p xs (inr (left_bits, bits, e, end)) = inl end

  Mode-up :
      (trz i p : ℕ) (xs : List Bytes)
      → Mode trz i p xs
      → i < 32
      → Mode trz (suc i) (p / 2) (pair_up (zeroes i) xs)
  unfolding zeros_within
  Mode-up trz i p xs (inl (below, last)) room =
      inl (omega arith, omega (arith, length-pair_up (zeroes i) xs))
  Mode-up trz i p xs (inr (zero, bits, e, end)) room = absurd (omega arith)
  Mode-up trz i p xs (inr (suc left_bits, bits, e, end)) room = elim (Bool-cases (p % 2 == 0)) [
    | inl even ↦
        inr (left_bits, omega arith, ground arith, ground (arith, length-pair_up (zeroes i) xs))
    | inr odd ↦ inl (ground arith, ground (arith, length-pair_up (zeroes i) xs))
  ]

  add_level :
      (trz i p : ℕ) (xs : List Bytes) (h : Bytes) (rest rest' : List (List Bytes))
      → Mode trz i p xs
      → add_levels trz (suc i) rest (p / 2) (parent (zeroes i) xs p h) ≡ some rest'
      → add_levels trz i (xs ∷ rest) p h ≡ some (put xs p h ∷ rest')
  unfolding add_levels
  add_level trz i p xs h rest rest' m e =
      let (l, r, pair, hash) = siblings-parent i p xs h (Mode-position trz i p xs m) in
      rw (pair, write_node-put trz i p xs h m, hash, e)

  add_levels-stack :
      (n trz i p : ℕ) (xs : List Bytes) (h : Bytes)
      → Mode trz i p xs
      → i + n ≤ 33
      → add_levels trz i (stack n i xs) p h ≡ some (stack n i (put xs p h))
  unfolding stack
  add_levels-stack zero trz i p xs h m room = unfold add_levels in refl
  add_levels-stack (suc zero) trz i p xs h m room =
      add_level trz i p xs h [] [] m (unfold add_levels in refl)
  add_levels-stack (suc (suc n)) trz i p xs h m room =
      rw (pair_up-put (zeroes i) xs p h (Mode-position trz i p xs m)) (
        add_level trz i p xs h _ _ m (
          add_levels-stack (suc n) trz (suc i) (p / 2) (pair_up (zeroes i) xs)
            (parent (zeroes i) xs p h) (Mode-up trz i p xs m (omega arith)) (omega arith)))

  -- The tree holds the leaves `xs`: its nodes are those of the levels over `xs`.
  pub record Built (depth : ℕ) (t : MerkleTree) (xs : List Bytes) : Type 0 where
    pub index : t.index ≡ length xs
    pub levels : t.levels ≡ stack (depth + 1) 0 xs

  stack-nil : (n i : ℕ) → stack n i [] ≡ replicate n []
  unfolding stack pair_up
  stack-nil zero i = refl
  stack-nil (suc n) i = ap (λ t. [] ∷ t) (stack-nil n (suc i))

  pub Built-new : (depth : ℕ) → Built depth (new depth) []
  unfolding new
  Built-new depth = record { index = refl; levels = sym (stack-nil (depth + 1) 0) }

  -- `add` never panics on a tree that was built by `add`, and stores exactly the nodes of the
  -- levels over the leaves with the new one, at every depth up to 32.
  pub add-Built :
      (depth : ℕ) (t : MerkleTree) (xs : List Bytes) (a : Bytes)
      → Built depth t xs
      → depth ≤ 32
      → length xs + 1 < 2 ^ 32
      → (t' : MerkleTree) × (add t a ≡ some t') × Built depth t' (xs ++ a ∷ [])
  unfolding add
  add-Built depth t xs a h deep wide = (
    record { levels = stack (depth + 1) 0 (xs ++ a ∷ []); index = (length xs + 1) % 2 ^ 32 },
    rw (h.index, h.levels, added, put-length xs a),
    record { index = omega (arith, length-append {0} xs (a ∷ [])); levels = refl },
  )
    where
      added :
          add_levels (trailing_zeros (length xs)) 0 (stack (depth + 1) 0 xs) (length xs) a
          ≡ some (stack (depth + 1) 0 (put xs (length xs) a))
      added =
          add_levels-stack (depth + 1) (trailing_zeros (length xs)) 0 (length xs) xs a
            (inr (32, omega arith, omega arith, refl)) (omega arith)

  pub add_all-Built :
      (depth : ℕ) (t : MerkleTree) (xs ys : List Bytes)
      → Built depth t xs
      → depth ≤ 32
      → length xs + length ys < 2 ^ 32
      → (t' : MerkleTree) × (add_all t ys ≡ some t') × Built depth t' (xs ++ ys)
  unfolding add_all
  add_all-Built depth t xs [] h deep wide = (t, refl, rw append-nil h)
  add_all-Built depth t xs (a ∷ ys) h deep wide =
      let (t', e, h') = add-Built depth t xs a h deep (omega arith) in
      let (t'', e', h'') =
        add_all-Built depth t' (xs ++ a ∷ []) ys h' deep
          (omega (arith, length-append {0} xs (a ∷ []))) in
      (t'', rw e e', rw (append_assoc xs (a ∷ []) ys) at h'')

  get_elem?-stack :
      (n i k : ℕ) (xs : List Bytes) → k < n → get_elem? (stack n i xs) k ≡ some (level_up k i xs)
  unfolding stack level_up
  get_elem?-stack zero i k xs h = absurd (omega arith)
  get_elem?-stack (suc n) i zero xs h = refl
  get_elem?-stack (suc n) i (suc k) xs h =
      get_elem?-stack n (suc i) k (pair_up (zeroes i) xs) (omega arith)

  -- `root` is the specification's root.
  pub root-Built :
      (depth : ℕ) (t : MerkleTree) (xs : List Bytes)
      → Built depth t xs
      → root depth t ≡ some (node depth 0 0 xs)
  unfolding root
  root-Built depth t xs h =
      let e : depth + 0 ≡ depth = omega arith in
      let spec = rw e at (get_or-level_up depth 0 0 xs) in
      rw (h.levels, get_elem?-stack (depth + 1) 0 depth xs (omega arith))
        (first (level_up depth 0 xs) spec)
    where
      first :
          (ys : List Bytes)
          → get_or ys 0 (zeroes depth) ≡ node depth 0 0 xs
          → (elim ys as (λ _. Option Bytes) [ [] ↦ some (zeroes depth) | y ∷ _ ↦ some y ])
            ≡ some (node depth 0 0 xs)
      first [] e = ap some e
      first (y ∷ ys) e = ap some e
