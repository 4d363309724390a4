-- ===== src/Database/Padding.antt =====
-- The loop that makes room for a period, and writes within bounds.
use clementine_citeria.Common.{
  ℕ, zero, suc, ◌+◌, ◌-◌, ◌<◌, ◌≤◌, ◌≡◌, refl, ◌∙◌, List, [], ◌∷◌, ◌++◌, append_assoc, append-nil,
  none, some, length, length-append, leb, ltb, ◌==◌, if◌then◌else◌, get_elem?, get_or, set?,
  replicate, arith, Bool-cases, inl, inr,
}
use clementine_citeria.Database.{push_while, padded}

module _ {A : Type 0} where
  append-replicate :
      (n : ℕ) (v : List (List A)) → (v ++ [] ∷ []) ++ replicate n [] ≡ v ++ replicate (suc n) []
  append-replicate n v = append_assoc v ([] ∷ []) (replicate n [])

  push_while-enough :
      (fuel period : ℕ) (v : List (List A))
      → period < length v + fuel
      → push_while fuel period v ≡ v ++ replicate (suc period - length v) []
  unfolding push_while
  push_while-enough zero period v h =
      let e : suc period - length v ≡ 0 = omega arith in rw (e, append-nil)
  push_while-enough (suc fuel) period v h = elim (Bool-cases (leb (length v) period)) [
    | inl short ↦
        let longer : length (v ++ [] ∷ []) ≡ length v + 1 =
          omega (arith, length-append {0} v ([] ∷ [])) in
        let next = push_while-enough fuel period (v ++ [] ∷ []) (omega arith) in
        let inside : length v ≤ period = ground arith in
        let e : suc period - length v ≡ suc (suc period - length (v ++ [] ∷ [])) = omega arith in
        rw (short, next, e) (append-replicate (suc period - length (v ++ [] ∷ [])) v)
    | inr long ↦ let e : suc period - length v ≡ 0 = ground arith in rw (long, e, append-nil)
  ]

  get_elem?-append_replicate :
      (v : List (List A)) (n q : ℕ)
      → get_elem? (v ++ replicate n []) q
        ≡ (if ltb q (length v + n) then some (get_or v q []) else none)
  get_elem?-append_replicate [] zero q = ground arith
  get_elem?-append_replicate [] (suc n) zero = ground arith
  get_elem?-append_replicate [] (suc n) (suc q) = get_elem?-append_replicate [] n q ∙ ground arith
  get_elem?-append_replicate (x ∷ v) n zero = ground arith
  get_elem?-append_replicate (x ∷ v) n (suc q) = get_elem?-append_replicate v n q ∙ ground arith

  -- The loop ends with room for the period, adds only empty entries, and adds none beyond it.
  pub get_elem?-padded :
      (period q : ℕ) (v : List (List A))
      → get_elem? (padded period v) q ≡ (
          if leb q period
          then some (get_or v q [])
          else if ltb q (length v)
          then some (get_or v q [])
          else none)
  unfolding padded
  get_elem?-padded period q v =
      rw (push_while-enough (suc period) period v (omega arith))
        (get_elem?-append_replicate v (suc period - length v) q ∙ ground arith)

  pub set?-update :
      (xs : List A) (p : ℕ) (a b : A)
      → get_elem? xs p ≡ some b
      → (ys : List A) × (set? xs p a ≡ some ys)
        × ((q : ℕ) → get_elem? ys q ≡ (if q == p then some a else get_elem? xs q))
  set?-update [] p a b h = absurd (none-ne h)
    where
      none-ne : {b : A} → none ≡ some b → ⊥
      none-ne h = cc
  set?-update (x ∷ xs) zero a b h = (a ∷ xs, refl, at)
    where
      at : (q : ℕ) → get_elem? (a ∷ xs) q ≡ (if q == 0 then some a else get_elem? (x ∷ xs) q)
      at zero = ground arith
      at (suc q) = ground arith
  set?-update (x ∷ xs) (suc p) a b h =
      let (ys, e, rest) = set?-update xs p a b h in (x ∷ ys, rw e refl, at ys rest)
    where
      at :
          (ys : List A)
          → ((q : ℕ) → get_elem? ys q ≡ (if q == p then some a else get_elem? xs q))
          → (q : ℕ) → get_elem? (x ∷ ys) q ≡ (if q == suc p then some a else get_elem? (x ∷ xs) q)
      at ys rest zero = ground arith
      at ys rest (suc q) = rest q ∙ ground arith
