-- ===== src/Builder/Taproot.antt =====
-- The depths that `create_taproot_address` gives to the leaves of a script tree.
use clementine_citeria.Common.{
  ℕ, zero, suc, ◌+◌, ◌-◌, ◌*◌, ◌/◌, ◌%◌, ◌^◌, ◌<◌, ◌≤◌, ◌≡◌, refl, ap, sym, ◌∙◌, arith, leb, true,
  false, Bool-cases, inl, inr,
}
use native.Mathlib.Nat.{pow-suc}
use native.Mathlib.Numerals.{add-one}
use clementine_citeria.Writer.MerklePath.{log2_within}
use clementine_citeria.Builder.{leaf_depth, tree_depth, lower_leaves}

-- The weights `2^(m - depth)` of `n` leaves from the leaf `i` on.
unfoldable pub weights : ℕ → ℕ → ℕ → ℕ → ℕ
weights m lower zero i = 0
weights m lower (suc n) i = 2 ^ (m - leaf_depth m lower i) + weights m lower n (suc i)

log2_within-bounds :
    (bits n : ℕ)
    → 0 < n
    → n < 2 ^ bits
    → (2 ^ log2_within bits n ≤ n) × (n < 2 * 2 ^ log2_within bits n)
unfolding log2_within
log2_within-bounds zero n pos h = absurd (omega arith)
log2_within-bounds (suc bits) n pos h = elim (Bool-cases (leb n 1)) [
  | inl one ↦ rw one (ground arith, ground arith)
  | inr more ↦
      let half : 0 < n / 2 = ground arith in
      let h' = rw (pow-suc 2 bits) at h in
      let (low, high) = log2_within-bounds bits (n / 2) half (omega (arith, h')) in
      rw (more, pow-suc 2 (log2_within bits (n / 2))) (omega (arith, low), omega (arith, high))
]

lower_weight : (m lower i : ℕ) → i < lower → 2 ^ (m - leaf_depth m lower i) ≡ 1
unfolding leaf_depth
lower_weight m lower i h =
    let test : leb lower i ≡ false = ground arith in
    let none_left : m - (m - 0) ≡ 0 = omega arith in rw (test, none_left) refl

upper_weight : (m lower i : ℕ) → 0 < m → lower ≤ i → 2 ^ (m - leaf_depth m lower i) ≡ 2
unfolding leaf_depth
upper_weight m lower i pos h =
    let test : leb lower i ≡ true = ground arith in
    let one_left : m - (m - 1) ≡ 1 = omega arith in rw (test, one_left) refl

weights-upper : (m lower n i : ℕ) → 0 < m → lower ≤ i → weights m lower n i ≡ 2 * n
unfolding weights
weights-upper m lower zero i pos h = refl
weights-upper m lower (suc n) i pos h =
    omega (arith, upper_weight m lower i pos h, weights-upper m lower n (suc i) pos (omega arith))

weights-lower : (m lower n k i : ℕ) → 0 < m → i + n ≡ lower → weights m lower (n + k) i ≡ n + 2 * k
unfolding weights
weights-lower m lower zero k i pos h =
    let none_lower : 0 + k ≡ k = omega arith in
    rw none_lower (omega (arith, weights-upper m lower k i pos (omega arith)))
weights-lower m lower (suc n) k i pos h =
    let next : suc n + k ≡ suc (n + k) = omega arith in
    rw next (
      omega (
        arith,
        lower_weight m lower i (omega arith),
        weights-lower m lower n k (suc i) pos (omega arith),
      ))

-- For two scripts or more the depths of the leaves are those of a full binary tree: the weights
-- 2^(m - depth) add up to 2^m, and the deeper leaves come first and are even in number.
pub leaf_depth-full :
    (n : ℕ)
    → 2 ≤ n
    → n ≤ 2 ^ 64
    → (weights (tree_depth n) (lower_leaves n) n 0 ≡ 2 ^ tree_depth n)
      × (lower_leaves n % 2 ≡ 0)
      × (lower_leaves n ≤ n)
      × (n ≤ 2 ^ tree_depth n)
leaf_depth-full n two wide =
    let (low, high) = log2_within-bounds 64 (n - 1) (omega arith) (omega arith) in
    let half = 2 ^ log2_within 64 (n - 1) in
    let top : 2 ^ tree_depth n ≡ half * 2 =
      ap (λ t. 2 ^ t) (add-one (log2_within 64 (n - 1))) ∙ pow-suc 2 (log2_within 64 (n - 1)) in
    let k = 2 ^ tree_depth n - n in
    let all : lower_leaves n + k ≡ n = omega (arith, low, high, top) in
    let sum =
      weights-lower (tree_depth n) (lower_leaves n) (lower_leaves n) k 0 (omega arith)
        (omega arith) in
    (
      ap (λ t. weights (tree_depth n) (lower_leaves n) t 0) (sym all)
          ∙ (sum ∙ omega (arith, low, high, top)),
      omega (arith, low, high, top),
      omega arith,
      omega (arith, high, top),
    )
