-- ===== src/Merkle/Incremental.antt =====
-- `IncrementalMerkleTree` of circuits/src/incremental_merkle.rs: the tree of the circuit, which
-- keeps one filled subtree a level. `DEPTH` is the argument `depth`; the array has that length.
use clementine_citeria.Common.{
  ℕ, zero, suc, ◌+◌, ◌-◌, ◌*◌, ◌/◌, ◌%◌, ◌≤◌, ◌<◌, ◌^◌, ◌≡◌, refl, ◌⊎◌, inl, inr, List, [], ◌∷◌,
  ◌++◌, arith, length, get_or, ◌==◌, if◌then◌else◌, ap, sym, ◌∙◌, replicate, length-replicate,
  length-append, append_assoc, append-nil,
}
use clementine_citeria.Common.Bytes.{Bytes}
use clementine_citeria.Hash.{Crypto, hash_pair}
use native.Mathlib.Nat.{pow-suc}
use clementine_citeria.Merkle.Levels.{
  empty_data, zeroes, pair_up, level_up, node, get_or-level_up, put, parent, pair_up-put,
  length-pair_up, put-length, level_up-nil, get_or-put_self, get_or-put_lt,
}

pub record IncrementalMerkleTree : Type 0 where
  pub filled_subtrees : List Bytes
  pub root : Bytes
  pub index : ℕ

-- The position `n` levels above the position `p`.
unfoldable pub above : ℕ → ℕ → ℕ
above zero p = p
above (suc n) p = above n (p / 2)

pub above-eq-zero : (n p : ℕ) → p < 2 ^ n → above n p ≡ 0
unfolding above
above-eq-zero zero p h = omega arith
above-eq-zero (suc n) p h = above-eq-zero n (p / 2) (omega (arith, pow-suc 2 n))

module _ ⦃c : Crypto⦄ where
  unfoldable pub new : ℕ → IncrementalMerkleTree
  new depth = record {
    filled_subtrees = replicate depth empty_data;
    root = zeroes depth;
    index = 0;
  }

  get_or-empty : (n : ℕ) → node n 0 0 [] ≡ zeroes n
  get_or-empty n =
      let e : n + 0 ≡ n = omega arith in sym (get_or-level_up n 0 0 []) ∙ rw (level_up-nil n 0, e)

  -- `for i in 0..DEPTH`, from the level `i` on: the array's new entries and the last hash.
  unfoldable pub add_levels : ℕ → List Bytes → ℕ → Bytes → List Bytes × Bytes
  add_levels i [] current_index current_level_hash = ([], current_level_hash)
  add_levels i (f ∷ fs) current_index current_level_hash =
      let even = current_index % 2 == 0 in
      let filled = if even then current_level_hash else f in
      let left = if even then current_level_hash else f in
      let right = if even then zeroes i else current_level_hash in
      let rest = add_levels (suc i) fs (current_index / 2) (hash_pair left right) in
      (filled ∷ rest.0, rest.1)

  -- `self.index += 1` wraps, as in a release build.
  unfoldable pub add : IncrementalMerkleTree → Bytes → IncrementalMerkleTree
  add t a =
      let out = add_levels 0 t.filled_subtrees t.index a in
      record { filled_subtrees = out.0; root = out.1; index = (t.index + 1) % 2 ^ 32 }

  -- After the leaf below `p`: each filled subtree is the last left child on its level.
  abbrev pub Filled : ℕ → ℕ → List Bytes → List Bytes → Type 0
  Filled i p [] xs = Unit {0}
  Filled i p (f ∷ fs) xs =
      (f ≡ get_or xs (2 * (p / 2)) (zeroes i)) × Filled (suc i) (p / 2) fs (pair_up (zeroes i) xs)

  -- Before the leaf below `p`: where the new node is a right child, the left one is filled.
  abbrev pub Ready : ℕ → ℕ → List Bytes → List Bytes → Type 0
  Ready i p [] xs = Unit {0}
  Ready i p (f ∷ fs) xs =
      (p % 2 ≡ 1 → f ≡ get_or xs (p - 1) (zeroes i))
      × Ready (suc i) (p / 2) fs (pair_up (zeroes i) xs)

  Filled-Ready :
      (fs : List Bytes) (i p q : ℕ) (xs : List Bytes)
      → (p ≡ q) ⊎ (p ≡ q + 1)
      → Filled i q fs xs
      → Ready i p fs xs
  Filled-Ready [] i p q xs e h = tt
  Filled-Ready (f ∷ fs) i p q xs e (h, hs) = (
    λ odd. let e' : 2 * (q / 2) ≡ p - 1 = omega arith in h ∙ ap (λ t. get_or xs t (zeroes i)) e',
    Filled-Ready fs (suc i) (p / 2) (q / 2) (pair_up (zeroes i) xs) (omega arith) hs,
  )

  Ready-zero : (fs : List Bytes) (i : ℕ) (xs : List Bytes) → Ready i 0 fs xs
  Ready-zero [] i xs = tt
  Ready-zero (f ∷ fs) i xs =
      (λ odd. absurd (omega arith), Ready-zero fs (suc i) (pair_up (zeroes i) xs))

  -- One level of the loop.
  filled_entry :
      (i p : ℕ) (f h : Bytes) (xs : List Bytes)
      → (p ≡ length xs) ⊎ (p + 1 ≡ length xs)
      → (p % 2 ≡ 1 → f ≡ get_or xs (p - 1) (zeroes i))
      → (if p % 2 == 0 then h else f) ≡ get_or (put xs p h) (2 * (p / 2)) (zeroes i)
  filled_entry i p f h xs e ready = ground (
    arith,
    get_or-put_self xs p h (zeroes i),
    get_or-put_lt xs p (2 * (p / 2)) h (zeroes i),
    λ (o : p % 2 ≡ 1). ap (λ t. get_or xs t (zeroes i)) (two_halves o),
  )
    where
      two_halves : p % 2 ≡ 1 → 2 * (p / 2) ≡ p - 1
      two_halves o = omega arith

  level_hash :
      (i p : ℕ) (f h : Bytes) (xs : List Bytes)
      → (p % 2 ≡ 1 → f ≡ get_or xs (p - 1) (zeroes i))
      → hash_pair (if p % 2 == 0 then h else f) (if p % 2 == 0 then zeroes i else h)
        ≡ parent (zeroes i) xs p h
  unfolding parent
  level_hash i p f h xs ready = ground arith

  add_levels_lem :
      (fs : List Bytes) (i p : ℕ) (xs : List Bytes) (h : Bytes)
      → (p ≡ length xs) ⊎ (p + 1 ≡ length xs)
      → Ready i p fs xs
      → Filled i p (add_levels i fs p h).0 (put xs p h)
        × (length (add_levels i fs p h).0 ≡ length fs)
        × ((add_levels i fs p h).1
            ≡ get_or
                (level_up (length fs) i (put xs p h))
                (above (length fs) p)
                (zeroes (length fs + i)))
  unfolding add_levels level_up above
  add_levels_lem [] i p xs h e ready =
      (tt, refl, sym (get_or-put_self xs p h (zeroes (0 + i)) (omega arith)))
  add_levels_lem (f ∷ fs) i p xs h e (ready, readies) =
      let e' : suc (length fs) + i ≡ length fs + suc i = omega arith in
      let half : (p / 2 ≡ length (pair_up (zeroes i) xs))
          ⊎ (p / 2 + 1 ≡ length (pair_up (zeroes i) xs)) =
        omega (arith, length-pair_up (zeroes i) xs) in
      let (filled, len, last) = rw (← pair_up-put (zeroes i) xs p h e) at (
        add_levels_lem fs (suc i) (p / 2) (pair_up (zeroes i) xs) (parent (zeroes i) xs p h) half
          readies) in
      rw (level_hash i p f h xs ready, e')
        ((filled_entry i p f h xs e ready, filled), ap suc len, last)

  -- The tree holds the leaves `xs`: its root is the specification's, and it is ready for one more.
  pub record Holds (depth : ℕ) (t : IncrementalMerkleTree) (xs : List Bytes) : Type 0 where
    pub index : t.index ≡ length xs
    pub levels : length t.filled_subtrees ≡ depth
    pub ready : Ready 0 (length xs) t.filled_subtrees xs
    pub root : t.root ≡ node depth 0 0 xs

  pub Holds-new : (depth : ℕ) → Holds depth (new depth) []
  unfolding new
  Holds-new depth = record {
    index = refl;
    levels = length-replicate depth empty_data;
    ready = Ready-zero (replicate depth empty_data) 0 [];
    root = root_new;
  }
    where
      root_new : zeroes depth ≡ node depth 0 0 []
      root_new = sym (get_or-empty depth)

  -- The filled subtrees after an addition.
  pub Filled-add :
      (depth : ℕ) (t : IncrementalMerkleTree) (xs : List Bytes) (a : Bytes)
      → Holds depth t xs
      → Filled 0 (length xs) (add t a).filled_subtrees (xs ++ a ∷ [])
  unfolding add
  Filled-add depth t xs a h =
      rw (h.index, ← put-length xs a)
        ((add_levels_lem t.filled_subtrees 0 (length xs) xs a (inl refl) h.ready).0)

  root_lem :
      (depth : ℕ) (xs : List Bytes) (a : Bytes)
      → length xs < 2 ^ depth
      → get_or
          (level_up depth 0 (put xs (length xs) a))
          (above depth (length xs))
          (zeroes (depth + 0))
        ≡ node depth 0 0 (xs ++ a ∷ [])
  root_lem depth xs a room =
      rw (above-eq-zero depth (length xs) room, put-length xs a)
        (get_or-level_up depth 0 0 (xs ++ a ∷ []))

  -- Adding a leaf keeps the tree in step with the list of its leaves, while the tree has room.
  pub add-Holds :
      (depth : ℕ) (t : IncrementalMerkleTree) (xs : List Bytes) (a : Bytes)
      → Holds depth t xs
      → length xs < 2 ^ depth
      → length xs + 1 < 2 ^ 32
      → Holds depth (add t a) (xs ++ a ∷ [])
  add-Holds depth t xs a h room wide =
      let (filled, len, last) =
        rw (h.levels) at (add_levels_lem t.filled_subtrees 0 (length xs) xs a (inl refl) h.ready) in
      let longer : length (xs ++ a ∷ []) ≡ length xs + 1 =
        omega (arith, length-append {0} xs (a ∷ [])) in
      record {
        index = unfold add in rw (longer, h.index) (omega arith);
        levels = unfold add in rw h.index len;
        ready =
            rw longer (
              Filled-Ready _ 0 (length xs + 1) (length xs) _ (inr refl)
                (Filled-add depth t xs a h));
        root = unfold add in rw h.index (last ∙ root_lem depth xs a room);
      }

  -- `for a in xs { tree.add(a) }`
  unfoldable pub add_all : IncrementalMerkleTree → List Bytes → IncrementalMerkleTree
  add_all t [] = t
  add_all t (a ∷ xs) = add_all (add t a) xs

  pub add_all-Holds :
      (depth : ℕ) (t : IncrementalMerkleTree) (xs ys : List Bytes)
      → Holds depth t xs
      → length xs + length ys ≤ 2 ^ depth
      → length xs + length ys < 2 ^ 32
      → Holds depth (add_all t ys) (xs ++ ys)
  unfolding add_all
  add_all-Holds depth t xs [] h room wide = rw append-nil h
  add_all-Holds depth t xs (a ∷ ys) h room wide =
      let longer : length (xs ++ a ∷ []) ≡ length xs + 1 =
        omega (arith, length-append {0} xs (a ∷ [])) in
      rw (append_assoc xs (a ∷ []) ys) at (
        add_all-Holds depth (add t a) (xs ++ a ∷ []) ys
          (add-Holds depth t xs a h (omega arith) (omega arith)) (omega arith) (omega arith))
