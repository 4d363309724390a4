-- ===== src/Env.antt =====
-- circuits/src/env.rs: the trait `Environment`, an interface of reads and writes over a state that
-- the source keeps in statics or in the zkVM. `none` is a panic. An `i32` is its 32-bit pattern,
-- which is all that the program uses of one (`to_le_bytes`).
pub mod Tape
pub mod Loops
pub mod Mock
use clementine_citeria.Common.{
  ◌≡◌, refl, ap, some-eq, ℕ, zero, suc, ◌+◌, List, [], ◌∷◌, Option, none, some,
}
use clementine_citeria.Common.Bytes.{Bytes}

pub record Environment : Type 1 where
  pub State : Type 0
  pub read_32bytes : State → Option (Bytes × State)
  pub read_u32 : State → Option (ℕ × State)
  pub read_u64 : State → Option (ℕ × State)
  pub read_i32 : State → Option (ℕ × State)
  pub write_32bytes : Bytes → State → Option (Unit {0} × State)
  pub write_u32 : ℕ → State → Option (Unit {0} × State)
  pub write_u64 : ℕ → State → Option (Unit {0} × State)
  pub write_i32 : ℕ → State → Option (Unit {0} × State)

module _ ⦃e : Environment⦄ where
  -- Code that is generic in `E: Environment`: it goes through the state, and may panic.
  abbrev pub Prog : Type 0 → Type 0
  Prog A = e.State → Option (A × e.State)

  abbrev pub pure : {A : Type 0} → A → Prog A
  pure a s = some (a, s)

  -- A panic, or an operation outside the environment that may panic.
  abbrev pub lift : {A : Type 0} → Option A → Prog A
  lift none s = none
  lift (some a) s = some (a, s)

  infixl 5 ◌>>=◌ ◌>>◌
  unfoldable pub ◌>>=◌ : {A B : Type 0} → Prog A → (A → Prog B) → Prog B
  ◌>>=◌ m f s = elim (m s) [ none ↦ none | some (a, s') ↦ f a s' ]

  -- A bind whose first part ran.
  pub bind-run :
      {A B : Type 0} (m : Prog A) (f : A → Prog B) (s : e.State) {s' : e.State} {a : A}
      → m s ≡ some (a, s')
      → (m >>= f) s ≡ f a s'
  unfolding ◌>>=◌
  bind-run m f s h = rw (h, ◌>>=◌)

  pub lift-inv :
      {A : Type 0} (m : Option A) (s : e.State) {a : A} {s' : e.State}
      → lift m s ≡ some (a, s')
      → (m ≡ some a) × (s ≡ s')
  lift-inv none s h = cc
  lift-inv (some a) s h = (ap (λ p. some p.0) (some-eq h), ap (λ p. p.1) (some-eq h))

  -- Inversion of a bind that did not panic.
  pub bind-inv :
      {A B : Type 0} (m : Prog A) (f : A → Prog B) (s : e.State) {b : B} {s'' : e.State}
      → (m >>= f) s ≡ some (b, s'')
      → (a : A) × (s' : e.State) × (m s ≡ some (a, s')) × (f a s' ≡ some (b, s''))
  unfolding ◌>>=◌
  bind-inv {A} {B} m f s {b} {s''} h = go (m s) refl h
    where
      go :
          (r : Option (A × e.State))
          → m s ≡ r
          → (elim r [ none ↦ none | some p ↦ f p.0 p.1 ]) ≡ some (b, s'')
          → (a : A) × (s' : e.State) × (m s ≡ some (a, s')) × (f a s' ≡ some (b, s''))
      go none e h = absurd (none-some h)
        where
          none-some : {C : Type 0} {x : C} → none ≡ some x → ⊥
          none-some h = cc
      go (some (a, s')) e h = (a, s', e, h)

  -- The same, for a goal that is proved from the parts.
  pub bind-cases :
      {A B C : Type 0} (m : Prog A) (f : A → Prog B) (s : e.State) {b : B} {s'' : e.State}
      → (m >>= f) s ≡ some (b, s'')
      → ((a : A) (s' : e.State) → m s ≡ some (a, s') → f a s' ≡ some (b, s'') → C)
      → C
  bind-cases m f s h k = let (a, s', e', h') = bind-inv m f s h in k a s' e' h'

  abbrev pub ◌>>◌ : {B : Type 0} → Prog (Unit {0}) → Prog B → Prog B
  m >> k = m >>= λ _. k

  -- `for k in i..i + n { s = body(k, s) }`
  unfoldable pub for_range : {S : Type 0} → ℕ → ℕ → (ℕ → S → Prog S) → S → Prog S
  for_range zero i body s = pure s
  for_range (suc n) i body s = body i s >>= for_range n (suc i) body

  -- `for a in xs { body(a) }`
  unfoldable pub for_each : {A : Type 0} → List A → (A → Prog (Unit {0})) → Prog (Unit {0})
  for_each [] body = pure tt
  for_each (a ∷ xs) body = body a >>= λ _. for_each xs body
