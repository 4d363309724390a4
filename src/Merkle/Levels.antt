-- ===== src/Merkle/Levels.antt =====
-- What both Merkle trees stand for: the levels of the binary tree over the leaves, each level
-- padded on the right by the empty subtree of its height (`ZEROES` of circuits/src/constants.rs).
use clementine_citeria.Common.{
  ℕ, zero, suc, ◌+◌, ◌-◌, ◌*◌, ◌/◌, ◌%◌, ◌≤◌, ◌<◌, ◌≡◌, refl, ◌⊎◌, List, [], ◌∷◌, ◌++◌, arith,
  length, get_or, ◌==◌, if◌then◌else◌, ap₂, ap, sym, All,
}
use clementine_citeria.Common.Bytes.{Bytes, IsHash}
use clementine_citeria.Hash.{Crypto, hash_pair, hash_pair-IsHash}

-- keccak256("CITREA")
abbrev pub empty_data : Bytes
empty_data =
    0xcb ∷ 0x0c ∷ 0x9f ∷ 0x42 ∷ 0x64 ∷ 0x54 ∷ 0x6b ∷ 0x15 ∷ 0xbe ∷ 0x98 ∷ 0x01 ∷ 0xec ∷ 0xb1 ∷ 0x1d
    ∷ 0xf7 ∷ 0xe4 ∷ 0x3b ∷ 0xfc ∷ 0x68 ∷ 0x41 ∷ 0x60 ∷ 0x9f ∷ 0xc1 ∷ 0xe4 ∷ 0xe9 ∷ 0xde ∷ 0x5b
    ∷ 0x3a ∷ 0x59 ∷ 0x73 ∷ 0xaf ∷ 0x38 ∷ []

module _ ⦃c : Crypto⦄ where
  -- `ZEROES[i]`
  unfoldable pub zeroes : ℕ → Bytes
  zeroes zero = empty_data
  zeroes (suc i) = hash_pair (zeroes i) (zeroes i)

  -- The level above one whose padding is `z`.
  unfoldable pub pair_up : Bytes → List Bytes → List Bytes
  pair_up z [] = []
  pair_up z (a ∷ []) = hash_pair a z ∷ []
  pair_up z (a ∷ b ∷ r) = hash_pair a b ∷ pair_up z r

  -- The nodes `n` levels above the level `i`.
  unfoldable pub level_up : ℕ → ℕ → List Bytes → List Bytes
  level_up zero i xs = xs
  level_up (suc n) i xs = level_up n (suc i) (pair_up (zeroes i) xs)

  -- The specification: the node `p` of height `n` over the level `i`.
  unfoldable pub node : ℕ → ℕ → ℕ → List Bytes → Bytes
  node zero i p xs = get_or xs p (zeroes i)
  node (suc n) i p xs = hash_pair (node n i (2 * p) xs) (node n i (2 * p + 1) xs)

  pub get_or-pair_up :
      (z : Bytes) (xs : List Bytes) (p : ℕ)
      → get_or (pair_up z xs) p (hash_pair z z)
        ≡ hash_pair (get_or xs (2 * p) z) (get_or xs (2 * p + 1) z)
  unfolding pair_up
  get_or-pair_up z [] p = refl
  get_or-pair_up z (a ∷ []) zero = refl
  get_or-pair_up z (a ∷ []) (suc p) = ground arith
  get_or-pair_up z (a ∷ b ∷ r) zero = refl
  get_or-pair_up z (a ∷ b ∷ r) (suc p) = ground (arith, get_or-pair_up z r p)

  node_step :
      (n i p : ℕ) (xs : List Bytes) → node (suc n) i p xs ≡ node n (suc i) p (pair_up (zeroes i) xs)
  unfolding node zeroes
  node_step zero i p xs = sym (get_or-pair_up (zeroes i) xs p)
  node_step (suc n) i p xs = ap₂ hash_pair (node_step n i (2 * p) xs) (node_step n i (2 * p + 1) xs)

  -- The levels hold the nodes of the specification.
  pub get_or-level_up :
      (n i p : ℕ) (xs : List Bytes) → get_or (level_up n i xs) p (zeroes (n + i)) ≡ node n i p xs
  unfolding level_up
  get_or-level_up zero i p xs = let e : 0 + i ≡ i = omega arith in rw e (unfold node in refl)
  get_or-level_up (suc n) i p xs =
      let e : suc n + i ≡ n + suc i = omega arith in
      rw (e, node_step) (get_or-level_up n (suc i) p (pair_up (zeroes i) xs))

  -- Writes at `p`, or appends where `p` is the end.
  unfoldable pub put : List Bytes → ℕ → Bytes → List Bytes
  put [] p h = h ∷ []
  put (x ∷ xs) zero h = h ∷ xs
  put (x ∷ xs) (suc p) h = x ∷ put xs p h

  -- The parent of the last node `p`, whose hash is `h`, over the level `xs`.
  unfoldable pub parent : Bytes → List Bytes → ℕ → Bytes → Bytes
  parent z xs p h = if p % 2 == 0 then hash_pair h z else hash_pair (get_or xs (p - 1) z) h

  parent_step :
      (z a b : Bytes) (r : List Bytes) (p : ℕ) (h : Bytes)
      → parent z (a ∷ b ∷ r) (suc (suc (suc p))) h ≡ parent z r (suc p) h
  unfolding parent
  parent_step z a b r p h =
      let e : suc (suc (suc p)) % 2 ≡ suc p % 2 = omega arith in
      let e' : suc (suc (suc p)) - 1 ≡ suc (suc p) = omega arith in
      let e'' : suc p - 1 ≡ p = omega arith in rw (e, e', e'')

  pub pair_up-put :
      (z : Bytes) (xs : List Bytes) (p : ℕ) (h : Bytes)
      → (p ≡ length xs) ⊎ (p + 1 ≡ length xs)
      → pair_up z (put xs p h) ≡ put (pair_up z xs) (p / 2) (parent z xs p h)
  unfolding pair_up put
  pair_up-put z [] p h e = unfold parent in ground arith
  pair_up-put z (a ∷ []) zero h e = unfold parent in ground arith
  pair_up-put z (a ∷ []) (suc zero) h e = unfold parent in ground arith
  pair_up-put z (a ∷ []) (suc (suc p)) h e = absurd (omega arith)
  pair_up-put z (a ∷ b ∷ r) zero h e = absurd (omega arith)
  pair_up-put z (a ∷ b ∷ []) (suc zero) h e = unfold parent in ground arith
  pair_up-put z (a ∷ b ∷ x ∷ r) (suc zero) h e = absurd (omega arith)
  pair_up-put z (a ∷ b ∷ r) (suc (suc zero)) h e =
      let same : parent z (a ∷ b ∷ r) 2 h ≡ parent z r 0 h = unfold parent in refl in
      rw same (ap (λ t. hash_pair a b ∷ t) (pair_up-put z r zero h (omega arith)))
  pair_up-put z (a ∷ b ∷ r) (suc (suc (suc p))) h e =
      let half : suc (suc (suc p)) / 2 ≡ suc (suc p / 2) = omega arith in
      rw (half, parent_step z a b r p h)
        (ap (λ t. hash_pair a b ∷ t) (pair_up-put z r (suc p) h (omega arith)))

  pub length-pair_up : (z : Bytes) (xs : List Bytes) → length (pair_up z xs) ≡ (length xs + 1) / 2
  unfolding pair_up
  length-pair_up z [] = omega arith
  length-pair_up z (a ∷ []) = omega arith
  length-pair_up z (a ∷ b ∷ r) = omega (arith, length-pair_up z r)

  pub put-length : (xs : List Bytes) (h : Bytes) → put xs (length xs) h ≡ xs ++ h ∷ []
  unfolding put
  put-length [] h = refl
  put-length (x ∷ xs) h = ap (λ t. x ∷ t) (put-length xs h)

  pub get_or-put_self :
      (xs : List Bytes) (p : ℕ) (h d : Bytes) → p ≤ length xs → get_or (put xs p h) p d ≡ h
  unfolding put
  get_or-put_self [] zero h d e = refl
  get_or-put_self [] (suc p) h d e = absurd (omega arith)
  get_or-put_self (x ∷ xs) zero h d e = refl
  get_or-put_self (x ∷ xs) (suc p) h d e = get_or-put_self xs p h d (omega arith)

  pub get_or-put_lt :
      (xs : List Bytes) (p q : ℕ) (h d : Bytes)
      → p ≤ length xs
      → q < p
      → get_or (put xs p h) q d ≡ get_or xs q d
  unfolding put
  get_or-put_lt [] p q h d e l = absurd (omega arith)
  get_or-put_lt (x ∷ xs) zero q h d e l = absurd (omega arith)
  get_or-put_lt (x ∷ xs) (suc p) zero h d e l = refl
  get_or-put_lt (x ∷ xs) (suc p) (suc q) h d e l =
      get_or-put_lt xs p q h d (omega arith) (omega arith)

  pub length-put :
      (xs : List Bytes) (p : ℕ) (h : Bytes)
      → (p ≡ length xs) ⊎ (p + 1 ≡ length xs)
      → length (put xs p h) ≡ p + 1
  unfolding put
  length-put [] p h e = omega arith
  length-put (x ∷ xs) zero h e = omega arith
  length-put (x ∷ xs) (suc p) h e = omega (arith, length-put xs p h (omega arith))

  pub level_up-nil : (n i : ℕ) → level_up n i [] ≡ []
  unfolding level_up pair_up
  level_up-nil zero i = refl
  level_up-nil (suc n) i = level_up-nil n (suc i)

  pub zeroes-IsHash : (i : ℕ) → IsHash (zeroes i)
  unfolding zeroes
  zeroes-IsHash zero = omega arith
  zeroes-IsHash (suc i) = hash_pair-IsHash (zeroes i) (zeroes i)

  pub pair_up-IsHash :
      (z : Bytes) (xs : List Bytes) → IsHash z → All IsHash xs → All IsHash (pair_up z xs)
  unfolding pair_up
  pair_up-IsHash z [] hz h = tt
  pair_up-IsHash z (a ∷ []) hz h = (hash_pair-IsHash a z, tt)
  pair_up-IsHash z (a ∷ b ∷ r) hz (ha, (hb, hr)) = (hash_pair-IsHash a b, pair_up-IsHash z r hz hr)
