-- ===== src/Env/Loops.antt =====
-- What a counted loop that did not panic has done.
use clementine_citeria.Common.{
  ℕ, zero, suc, ◌≡◌, refl, ap, sym, ◌∙◌, subst, List, [], ◌∷◌, some, some-eq, length,
}
use clementine_citeria.Env.{Environment, Prog, bind-inv, for_range}
use clementine_citeria.Env.Tape.{steps}

module _ ⦃e : Environment⦄ where
  -- Each round is a step with a value: so is the loop, with as many values as it has rounds.
  pub for_range-steps :
      {A S : Type 0} (body : ℕ → S → Prog S) (step : ℕ → S → A → S)
      → ((k : ℕ) (s s' : S) (t t' : e.State)
          → body k s t ≡ some (s', t')
          → (x : A) × (s' ≡ step k s x))
      → (n k : ℕ) (s s' : S) (t t' : e.State) → for_range n k body s t ≡ some (s', t')
      → (xs : List A) × (length xs ≡ n) × (s' ≡ steps step k s xs)
  unfolding for_range
  for_range-steps body step round zero k s s' t t' h = ([], refl, ap (λ p. p.0) (sym (some-eq h)))
  for_range-steps body step round (suc n) k s s' t t' h =
      let (s1, t1, h1, rest) = bind-inv (body k s) (for_range n (suc k) body) t h in
      let (x, e1) = round k s s1 t t1 h1 in
      let (xs, len, e2) = for_range-steps body step round n (suc k) s1 s' t1 t' rest in
      (x ∷ xs, ap suc len, e2 ∙ ap (λ (r : _). steps step (suc k) r xs) e1)

  -- Each round keeps a property: so does the loop.
  pub for_range-keeps :
      {S : Type 0} (P : S → Type 0) (body : ℕ → S → Prog S)
      → ((k : ℕ) (s s' : S) (t t' : e.State) → body k s t ≡ some (s', t') → P s → P s')
      → (n k : ℕ) (s s' : S) (t t' : e.State) → for_range n k body s t ≡ some (s', t')
      → P s
      → P s'
  unfolding for_range
  for_range-keeps P body round zero k s s' t t' h p = subst P (ap (λ q. q.0) (some-eq h)) p
  for_range-keeps P body round (suc n) k s s' t t' h p =
      let (s1, t1, h1, rest) = bind-inv (body k s) (for_range n (suc k) body) t h in
      for_range-keeps P body round n (suc k) s1 s' t1 t' rest (round k s s1 t t1 h1 p)
