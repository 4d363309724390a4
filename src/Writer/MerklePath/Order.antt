-- ===== src/Writer/MerklePath/Order.antt =====
-- The order of the hashes in a partial Merkle tree, and the list operations of the code.
use clementine_citeria.Common.{
  ℕ, suc, ◌/◌, ◌%◌, ◌^◌, ◌≡◌, refl, ap, ◌∙◌, List, [], ◌∷◌, ◌++◌, some, length, length-append, leb,
  ◌==◌, if◌then◌else◌, get_elem?, take, drop, arith, Bool-cases, inl, inr, true,
}
use clementine_citeria.Writer.MerklePath.{reverse, remove_first, remove_last, take_path, insert?}

-- The hashes of the tree in the order in which a partial Merkle tree of one transaction lists them:
-- from the root down, a left sibling stands before what is below it and a right one after it.
unfoldable pub flatten : {A : Type 0} → List A → ℕ → A → List A
flatten [] index leaf = leaf ∷ []
flatten (t ∷ ts) index leaf =
    let below = flatten ts index leaf in
    if index / 2 ^ length ts % 2 == 1 then t ∷ below else below ++ t ∷ []

module _ {A : Type 0} where
  remove_last-append : (xs : List A) (t : A) → remove_last (xs ++ t ∷ []) ≡ some (t, xs)
  unfolding remove_last
  remove_last-append [] t = refl
  remove_last-append (x ∷ xs) t = rw (remove_last-append xs t) refl

  pub take_path-flatten :
      (ts : List A) (index : ℕ) (leaf : A)
      → take_path (length ts) index (flatten ts index leaf) ≡ some ts
  unfolding take_path flatten remove_first
  take_path-flatten [] index leaf = refl
  take_path-flatten (t ∷ ts) index leaf = elim (Bool-cases (index / 2 ^ length ts % 2 == 1)) [
    | inl right ↦ rw (right, take_path-flatten ts index leaf) refl
    | inr left ↦
        rw (left, remove_last-append (flatten ts index leaf) t, take_path-flatten ts index leaf)
          refl
  ]

  pub length-flatten :
      (ts : List A) (index : ℕ) (leaf : A) → length (flatten ts index leaf) ≡ suc (length ts)
  unfolding flatten
  length-flatten [] index leaf = refl
  length-flatten (t ∷ ts) index leaf = elim (Bool-cases (index / 2 ^ length ts % 2 == 1)) [
    | inl right ↦ rw right (ap suc (length-flatten ts index leaf))
    | inr left ↦ rw left (
        omega (arith, length-append (flatten ts index leaf) (t ∷ []), length-flatten ts index leaf))
  ]

  pub length-reverse : (xs : List A) → length (reverse xs) ≡ length xs
  unfolding reverse
  length-reverse [] = refl
  length-reverse (x ∷ xs) = omega (arith, length-append (reverse xs) (x ∷ []), length-reverse xs)

  reverse-append : (xs : List A) (t : A) → reverse (xs ++ t ∷ []) ≡ t ∷ reverse xs
  unfolding reverse
  reverse-append [] t = refl
  reverse-append (x ∷ xs) t = rw (reverse-append xs t) refl

  pub reverse-reverse : (xs : List A) → reverse (reverse xs) ≡ xs
  unfolding reverse
  reverse-reverse [] = refl
  reverse-reverse (x ∷ xs) = reverse-append (reverse xs) x ∙ ap (λ t. x ∷ t) (reverse-reverse xs)

  take-length : (xs ys : List A) → take (length xs) (xs ++ ys) ≡ xs
  take-length [] ys = refl
  take-length (x ∷ xs) ys = ap (λ t. x ∷ t) (take-length xs ys)

  drop-length : (xs ys : List A) → drop (length xs) (xs ++ ys) ≡ ys
  drop-length [] ys = refl
  drop-length (x ∷ xs) ys = drop-length xs ys

  pub get_elem?-length :
      (xs : List A) (y : A) (ys : List A) → get_elem? (xs ++ y ∷ ys) (length xs) ≡ some y
  get_elem?-length [] y ys = refl
  get_elem?-length (x ∷ xs) y ys = get_elem?-length xs y ys

  pub insert?-length :
      (xs ys : List A) (a : A) → insert? (xs ++ ys) (length xs) a ≡ some (xs ++ a ∷ ys)
  unfolding insert?
  insert?-length xs ys a =
      let fits : leb (length xs) (length (xs ++ ys)) ≡ true = ground (arith, length-append xs ys) in
      rw (fits, take-length xs ys, drop-length xs ys) refl
