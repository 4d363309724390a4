-- ===== src/Claim/Cover.antt =====
-- Which leaves the revealed nodes stand over.
use clementine_citeria.Common.{
  ℕ, zero, suc, ◌+◌, ◌-◌, ◌*◌, ◌/◌, ◌%◌, ◌^◌, ◌<◌, ◌≤◌, ◌≡◌, refl, sym, ◌∙◌, List, [], ◌∷◌, some,
  leb, ◌==◌, if◌then◌else◌, arith, All, Bool-cases, inl, inr, true, false,
}
use clementine_citeria.Common.Powers.{lt-pow}
use clementine_citeria.Claim.{get_claim_reveal_indices, pow2_u32}
use native.Mathlib.Nat.{pow-suc, div-div-eq-div-mul, div-eq_of_lt}

-- How many of the nodes stand over the leaf `j` of a tree of the depth.
unfoldable pub covering : ℕ → List (ℕ × ℕ) → ℕ → ℕ
covering depth [] j = 0
covering depth ((level, index) ∷ rest) j =
    (if j / 2 ^ (depth - level) == index then 1 else 0) + covering depth rest j

abbrev pub Within : ℕ → ℕ × ℕ → Type 0
Within depth (level, index) = (level ≤ depth) × (index < 2 ^ level)

covering-suc :
    (depth : ℕ) (xs : List (ℕ × ℕ)) (j : ℕ)
    → All (Within depth) xs
    → covering (suc depth) xs j ≡ covering depth xs (j / 2)
unfolding covering
covering-suc depth [] j h = refl
covering-suc depth ((level, index) ∷ xs) j ((hl, hi), h) =
    let e : suc depth - level ≡ suc (depth - level) = omega arith in
    let halved : j / 2 ^ suc (depth - level) ≡ j / 2 / 2 ^ (depth - level) =
      let twice : 2 ^ suc (depth - level) ≡ 2 * 2 ^ (depth - level) =
        omega (arith, pow-suc 2 (depth - level)) in
      rw twice (sym (div-div-eq-div-mul j 2 (2 ^ (depth - level)))) in
    rw (e, halved, covering-suc depth xs j h)

-- The recursion: the parents' count.
abbrev half : ℕ → ℕ
half count = if count % 2 == 1 then (count + 1) / 2 else count / 2

half-bound : (depth count : ℕ) → count ≤ 2 ^ suc depth → half count ≤ 2 ^ depth
half-bound depth count h =
    let twice : 2 ^ suc depth ≡ 2 * 2 ^ depth = omega (arith, pow-suc 2 depth) in ground arith

Within-suc : (depth : ℕ) (xs : List (ℕ × ℕ)) → All (Within depth) xs → All (Within (suc depth)) xs
Within-suc depth [] h = tt
Within-suc depth ((level, index) ∷ xs) ((hl, hi), h) = ((omega arith, hi), Within-suc depth xs h)

covering-root : (depth j : ℕ) → j < 2 ^ depth → covering depth ((0, 0) ∷ []) j ≡ 1
unfolding covering
covering-root depth j h =
    let e : depth - 0 ≡ depth = omega arith in
    let top : j / 2 ^ depth ≡ 0 = div-eq_of_lt h in rw (e, top)

-- The recursion's nodes, and the new one where the count is odd, stand once over the leaves from
-- `count` on.
covering-odd :
    (depth count j : ℕ) (xs : List (ℕ × ℕ))
    → count % 2 ≡ 1
    → All (Within depth) xs
    → covering depth xs (j / 2) ≡ (if leb ((count + 1) / 2) (j / 2) then 1 else 0)
    → covering (suc depth) ((suc depth, count) ∷ xs) j ≡ (if leb count j then 1 else 0)
unfolding covering
covering-odd depth count j xs odd h ih =
    let e : suc depth - suc depth ≡ 0 = omega arith in
    let one : j / 1 ≡ j = omega arith in rw (e, one, covering-suc depth xs j h, ih) (ground arith)

-- A power of two that fits a `u32`.
pub pow2_u32-fits : (n : ℕ) → 2 ^ n < 2 ^ 32 → pow2_u32 n ≡ 2 ^ n
pow2_u32-fits n small = let low : n % 2 ^ 32 ≡ n = omega (arith, lt-pow n) in rw low (omega arith)

-- In a tree whose number of leaves is a `u32`, `get_claim_reveal_indices` does not panic on a count
-- that fits the tree; its nodes are in the tree and stand over each leaf from `count` on exactly
-- once, and over no leaf before it.
pub get_claim_reveal_indices-covering :
    (depth count : ℕ)
    → 2 ^ depth < 2 ^ 32
    → count ≤ 2 ^ depth
    → (xs : List (ℕ × ℕ)) × (get_claim_reveal_indices depth count ≡ some xs)
      × All (Within depth) xs
      × ((j : ℕ) → j < 2 ^ depth → covering depth xs j ≡ (if leb count j then 1 else 0))
unfolding get_claim_reveal_indices covering
get_claim_reveal_indices-covering zero zero wide h = (
  (0, 0) ∷ [],
  refl,
  ((omega arith, omega arith), tt),
  λ j hj. covering-root zero j hj ∙ ground arith,
)
get_claim_reveal_indices-covering zero (suc zero) wide h = ([], refl, tt, λ j hj. ground arith)
get_claim_reveal_indices-covering zero (suc (suc n)) wide h = absurd (omega arith)
get_claim_reveal_indices-covering (suc depth) count wide h =
    let (rest, e, within, once) =
      get_claim_reveal_indices-covering depth (half count) (omega (arith, pow-suc 2 depth))
        (half-bound depth count h) in
    let pow = pow2_u32-fits (suc depth) wide in
    let fits : leb count (2 ^ suc depth) ≡ true = ground arith in
    elim (Bool-cases (count == 0)) [
      | inl none_left ↦
          let zero_count : leb count 0 ≡ true = ground arith in
          (
            (0, 0) ∷ [],
            rw (pow, fits, none_left) refl,
            ((omega arith, omega arith), tt),
            λ j hj. covering-root (suc depth) j hj ∙ ground arith,
          )
      | inr some_left ↦ elim (Bool-cases (count == 2 ^ suc depth)) [
        | inl all ↦ ([], rw (pow, fits, some_left, all) refl, tt, λ j hj. ground arith)
        | inr not_all ↦ elim (Bool-cases (count % 2 == 1)) [
          | inl odd ↦
              let e' = rw odd at e in
              let is_odd : count % 2 ≡ 1 = ground arith in
              let below : count < 2 ^ suc depth = ground arith in
              (
                (suc depth, count) ∷ rest,
                rw (pow, fits, some_left, not_all, odd, e') refl,
                ((omega arith, below), Within-suc depth rest within),
                λ j hj.
                    covering-odd depth count j rest is_odd within
                      (rw odd at (once (j / 2) (half-lt j hj))),
              )
          | inr even ↦
              let e' = rw even at e in
              (
                rest,
                rw (pow, fits, some_left, not_all, even, e') refl,
                Within-suc depth rest within,
                λ j hj.
                    covering-suc depth rest j within
                    ∙ (rw even at (once (j / 2) (half-lt j hj)) ∙ same_half even j),
              )
        ]
      ]
    ]
  where
    half-lt : (j : ℕ) → j < 2 ^ suc depth → j / 2 < 2 ^ depth
    half-lt j hj = omega (arith, pow-suc 2 depth)

    same_half :
        (count % 2 == 1) ≡ false
        → (j : ℕ)
        → ◌≡◌ {A = ℕ} (if leb (count / 2) (j / 2) then 1 else 0) (if leb count j then 1 else 0)
    same_half even j = let is_even : count % 2 ≡ 0 = ground arith in ground arith
