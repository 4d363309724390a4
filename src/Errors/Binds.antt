-- ===== src/Errors/Binds.antt =====
-- Sequencing of the host's code, and the inversion of what ended in `Ok`.
use clementine_citeria.Common.{◌≡◌, refl, ap, ◌∙◌}
use clementine_citeria.Errors
use clementine_citeria.Errors.{BridgeError, Result, ok, err, panic, Host, unwrap_result}

module _ {S : Type 0} where
  abbrev pub pure : {A : Type 0} → A → Host S A
  pure a s = (ok a, s)

  -- A computation that does not touch the state.
  abbrev pub lift : {A : Type 0} → Result A → Host S A
  lift r s = (r, s)

  -- A computation that reads the state.
  abbrev pub ask : {A : Type 0} → (S → Result A) → Host S A
  ask f s = (f s, s)

  infixl 5 ◌>>=◌ ◌>>◌
  unfoldable pub ◌>>=◌ : {A B : Type 0} → Host S A → (A → Host S B) → Host S B
  ◌>>=◌ m f s = elim ((m s).0) [
    | ok a ↦ f a (m s).1
    | err e ↦ (err e, (m s).1)
    | panic ↦ (panic, (m s).1)
  ]

  abbrev pub ◌>>◌ : {B : Type 0} → Host S (Unit {0}) → Host S B → Host S B
  m >> k = m >>= λ _. k

  pub bind-run :
      {A B : Type 0} (m : Host S A) (f : A → Host S B) (s s' : S) (a : A)
      → m s ≡ (ok a, s')
      → (m >>= f) s ≡ f a s'
  unfolding ◌>>=◌
  bind-run m f s s' a h =
      ap (λ p. elim p.0 [ ok a ↦ f a p.1 | err e ↦ (err e, p.1) | panic ↦ (panic, p.1) ]) h

  pub bind-err :
      {A B : Type 0} (m : Host S A) (f : A → Host S B) (s s' : S) (e : BridgeError)
      → m s ≡ (err e, s')
      → (m >>= f) s ≡ (err e, s')
  unfolding ◌>>=◌
  bind-err m f s s' e h =
      ap (λ p. elim p.0 [ ok a ↦ f a p.1 | err e ↦ (err e, p.1) | panic ↦ (panic, p.1) ]) h

  -- Inversion of a bind that ended in `Ok`.
  pub bind-inv :
      {A B : Type 0} (m : Host S A) (f : A → Host S B) (s : S) {b : B} {s'' : S}
      → (m >>= f) s ≡ (ok b, s'')
      → (a : A) × (s' : S) × (m s ≡ (ok a, s')) × (f a s' ≡ (ok b, s''))
  unfolding ◌>>=◌
  bind-inv {A} {B} m f s {b} {s''} h = go (m s).0 (m s).1 refl h
    where
      go :
          (r : Result A) (s' : S)
          → m s ≡ (r, s')
          → ◌≡◌ {A = Result B × S}
              (elim r [ ok a ↦ f a s' | err e ↦ (err e, s') | panic ↦ (panic, s') ])
              (ok b, s'')
          → (a : A) × (s' : S) × (m s ≡ (ok a, s')) × (f a s' ≡ (ok b, s''))
      go (ok a) s' e h = (a, s', e, h)
      go (err x) s' e h = absurd (err-ne h)
        where
          err-ne : ◌≡◌ {A = Result B × S} (err x, s') (ok b, s'') → ⊥
          err-ne h = cc
      go panic s' e h = absurd (panic-ne h)
        where
          panic-ne : ◌≡◌ {A = Result B × S} (panic, s') (ok b, s'') → ⊥
          panic-ne h = cc

  -- The same, where the first part leaves the state alone.
  pub ask-inv :
      {A B : Type 0} (f : S → Result A) (g : A → Host S B) (s : S) {b : B} {s'' : S}
      → (ask f >>= g) s ≡ (ok b, s'')
      → (a : A) × (f s ≡ ok a) × (g a s ≡ (ok b, s''))
  ask-inv f g s h =
      let (a, s', e, h') = bind-inv (ask f) g s h in (a, ap (λ p. p.0) e, ap (λ p. g a p.1) e ∙ h')

  pub lift-inv :
      {A B : Type 0} (r : Result A) (g : A → Host S B) (s : S) {b : B} {s'' : S}
      → (lift r >>= g) s ≡ (ok b, s'')
      → (a : A) × (r ≡ ok a) × (g a s ≡ (ok b, s''))
  lift-inv r g s h = ask-inv (λ _. r) g s h

  pub lift-run :
      {A B : Type 0} (r : Result A) (g : A → Host S B) (s : S) (a : A)
      → r ≡ ok a
      → (lift r >>= g) s ≡ g a s
  lift-run r g s a e = bind-run (lift r) g s s a (ap (λ x. (x, s)) e)

pub unwrap_result-inv : {A : Type 0} (m : Result A) {a : A} → unwrap_result m ≡ ok a → m ≡ ok a
unwrap_result-inv (ok a) h = h
unwrap_result-inv (err e) h = cc
unwrap_result-inv panic h = cc

pub result-inv :
    {A B : Type 0} (m : Result A) (f : A → Result B) {b : B}
    → Errors.◌>>=◌ m f ≡ ok b
    → (a : A) × (m ≡ ok a) × (f a ≡ ok b)
result-inv (ok a) f h = (a, refl, h)
result-inv (err e) f h = cc
result-inv panic f h = cc

pub ok-eq : {A : Type 0} {a b : A} → ◌≡◌ {A = Result A} (ok a) (ok b) → a ≡ b
ok-eq h = cc
