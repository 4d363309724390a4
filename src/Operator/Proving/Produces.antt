-- ===== src/Operator/Proving/Produces.antt =====
-- What a step of the host writes to an environment, and what it returns.
use clementine_citeria.Common.{
  ◌≡◌, refl, ap, ◌∙◌, List, [], ◌++◌, append_assoc, append-nil, none, some,
}
use clementine_citeria.Env.{Environment, Prog}
use clementine_citeria.Env.Tape.{Item, IsTape, Writes}
use clementine_citeria.Errors.{Result, ok, panic, Host}
use clementine_citeria.Errors.Binds.{pure, lift, ◌>>=◌, bind-run, lift-run}
use clementine_citeria.Operator.Proving.{run}

module _ ⦃e : Environment⦄ ⦃i : IsTape e⦄ where
  -- `m` writes exactly the values `xs`, and returns `a`.
  pub record Produces {A : Type 0} (m : Host e.State A) (xs : List Item) (a : A) : Type 0 where
    pub on : (past rest : List Item) → m (i.tape past rest) ≡ (ok a, i.tape past (rest ++ xs))

  pub Produces-pure : {A : Type 0} (a : A) → Produces (pure a) [] a
  Produces-pure a = record { on = λ past rest. rw append-nil }

  pub Produces-lift : {A : Type 0} (r : Result A) (a : A) → r ≡ ok a → Produces (lift r) [] a
  Produces-lift r a h = record { on = λ past rest. rw (append-nil, h) refl }

  -- A write that did not panic.
  pub run-some :
      {A : Type 0} (m : Prog A) (s s' : e.State) (a : A) → m s ≡ some (a, s') → run m s ≡ (ok a, s')
  unfolding run
  run-some m s s' a h = ap (λ o. elim o [ none ↦ (panic, s) | some (a, s') ↦ (ok a, s') ]) h

  pub Produces-run : (m : Prog (Unit {0})) (xs : List Item) → Writes m xs → Produces (run m) xs tt
  Produces-run m xs h = record { on = λ past rest. run-some m _ _ tt (h.run past rest) }

  pub Produces-bind :
      {A B : Type 0} (m : Host e.State A) (f : A → Host e.State B) (xs ys : List Item) (a : A)
      (b : B)
      → Produces m xs a
      → Produces (f a) ys b
      → Produces (m >>= f) (xs ++ ys) b
  Produces-bind m f xs ys a b hm hf = record {
    on = λ past rest. rw (← append_assoc rest xs ys) (
        bind-run m f (i.tape past rest) (i.tape past (rest ++ xs)) a (hm.on past rest)
        ∙ hf.on past (rest ++ xs));
  }

  -- A value that is looked up, and what follows it.
  pub Produces-after :
      {A B : Type 0} (r : Result A) (f : A → Host e.State B) (ys : List Item) (a : A) (b : B)
      → r ≡ ok a
      → Produces (f a) ys b
      → Produces (lift r >>= f) ys b
  Produces-after r f ys a b h hf = record {
    on = λ past rest. lift-run r f (i.tape past rest) a h ∙ hf.on past rest;
  }

  -- What follows writes nothing.
  pub Produces-bind-nil :
      {A B : Type 0} (m : Host e.State A) (f : A → Host e.State B) (xs : List Item) (a : A) (b : B)
      → Produces m xs a
      → Produces (f a) [] b
      → Produces (m >>= f) xs b
  Produces-bind-nil m f xs a b hm hf = rw append-nil at (Produces-bind m f xs [] a b hm hf)
