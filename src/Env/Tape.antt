-- ===== src/Env/Tape.antt =====
-- The contract of an `Environment`: a first-in first-out queue of typed values. A state of it is
-- described by the values that were read and those that are still to be read.
use clementine_citeria.Common.{
  ℕ, suc, ◌^◌, ◌<◌, ◌≡◌, ◌∙◌, List, [], ◌∷◌, ◌++◌, append_assoc, append-nil, some, length, All,
}
use clementine_citeria.Common.Bytes.{Bytes, IsHash}
use clementine_citeria.Env.{Environment, Prog, pure, ◌>>=◌, bind-run, for_range, for_each}

pub data Item : Type 0 where
  bytes32 : Bytes → Item
  u32 u64 i32 : ℕ → Item

abbrev pub IsItem : Item → Type 0
IsItem (bytes32 b) = IsHash b
IsItem (u32 n) = n < 2 ^ 32
IsItem (u64 n) = n < 2 ^ 64
IsItem (i32 n) = n < 2 ^ 32

pub record IsTape (e : Environment) : Type 1 where
  -- what was read, and what is still to be read
  pub tape : List Item → List Item → e.State
  pub read_32bytes_next :
      (past rest : List Item) (b : Bytes)
      → IsHash b
      → e.read_32bytes (tape past (bytes32 b ∷ rest)) ≡ some (b, tape (past ++ bytes32 b ∷ []) rest)
  pub read_u32_next :
      (past rest : List Item) (n : ℕ)
      → n < 2 ^ 32
      → e.read_u32 (tape past (u32 n ∷ rest)) ≡ some (n, tape (past ++ u32 n ∷ []) rest)
  pub read_u64_next :
      (past rest : List Item) (n : ℕ)
      → n < 2 ^ 64
      → e.read_u64 (tape past (u64 n ∷ rest)) ≡ some (n, tape (past ++ u64 n ∷ []) rest)
  pub read_i32_next :
      (past rest : List Item) (n : ℕ)
      → n < 2 ^ 32
      → e.read_i32 (tape past (i32 n ∷ rest)) ≡ some (n, tape (past ++ i32 n ∷ []) rest)
  pub write_32bytes_last :
      (past rest : List Item) (b : Bytes)
      → e.write_32bytes b (tape past rest) ≡ some (tt, tape past (rest ++ bytes32 b ∷ []))
  pub write_u32_last :
      (past rest : List Item) (n : ℕ)
      → e.write_u32 n (tape past rest) ≡ some (tt, tape past (rest ++ u32 n ∷ []))
  pub write_u64_last :
      (past rest : List Item) (n : ℕ)
      → e.write_u64 n (tape past rest) ≡ some (tt, tape past (rest ++ u64 n ∷ []))
  pub write_i32_last :
      (past rest : List Item) (n : ℕ)
      → e.write_i32 n (tape past rest) ≡ some (tt, tape past (rest ++ i32 n ∷ []))

module _ ⦃e : Environment⦄ ⦃i : IsTape e⦄ where
  -- `m` reads exactly the values `xs`, and returns `a`.
  pub record Reads {A : Type 0} (m : Prog A) (xs : List Item) (a : A) : Type 0 where
    pub run :
        (past rest : List Item) → m (i.tape past (xs ++ rest)) ≡ some (a, i.tape (past ++ xs) rest)

  -- `m` writes exactly the values `xs`.
  pub record Writes (m : Prog (Unit {0})) (xs : List Item) : Type 0 where
    pub run : (past rest : List Item) → m (i.tape past rest) ≡ some (tt, i.tape past (rest ++ xs))

  pub Reads-pure : {A : Type 0} (a : A) → Reads (pure a) [] a
  Reads-pure a = record { run = λ past rest. rw append-nil }

  pub Reads-bind :
      {A B : Type 0} (m : Prog A) (f : A → Prog B) (xs ys : List Item) (a : A) (b : B)
      → Reads m xs a
      → Reads (f a) ys b
      → Reads (m >>= f) (xs ++ ys) b
  Reads-bind m f xs ys a b hm hf = record {
    run = λ past rest.
        rw (append_assoc xs ys rest, ← append_assoc past xs ys)
          (bind-run m f (i.tape past (xs ++ (ys ++ rest))) (hm.run past (ys ++ rest))
            ∙ hf.run (past ++ xs) rest);
  }

  -- What follows reads nothing.
  pub Reads-bind-nil :
      {A B : Type 0} (m : Prog A) (f : A → Prog B) (xs : List Item) (a : A) (b : B)
      → Reads m xs a
      → Reads (f a) [] b
      → Reads (m >>= f) xs b
  Reads-bind-nil m f xs a b hm hf = rw append-nil at (Reads-bind m f xs [] a b hm hf)

  -- A result that is computed from what was read.
  pub Reads-then-pure :
      {S B : Type 0} (m : Prog S) (xs : List Item) (f : S → B) (s : S)
      → Reads m xs s
      → Reads (m >>= λ r. pure (f r)) xs (f s)
  Reads-then-pure m xs f s h =
      rw append-nil at (Reads-bind m (λ r. pure (f r)) xs [] s (f s) h (Reads-pure (f s)))

  pub Reads-32bytes : (b : Bytes) → IsHash b → Reads e.read_32bytes (bytes32 b ∷ []) b
  Reads-32bytes b h = record { run = λ past rest. i.read_32bytes_next past rest b h }

  pub Reads-u32 : (n : ℕ) → n < 2 ^ 32 → Reads e.read_u32 (u32 n ∷ []) n
  Reads-u32 n h = record { run = λ past rest. i.read_u32_next past rest n h }

  pub Reads-u64 : (n : ℕ) → n < 2 ^ 64 → Reads e.read_u64 (u64 n ∷ []) n
  Reads-u64 n h = record { run = λ past rest. i.read_u64_next past rest n h }

  pub Reads-i32 : (n : ℕ) → n < 2 ^ 32 → Reads e.read_i32 (i32 n ∷ []) n
  Reads-i32 n h = record { run = λ past rest. i.read_i32_next past rest n h }

  pub Writes-nil : Writes (pure tt) []
  Writes-nil = record { run = λ past rest. rw append-nil }

  pub Writes-then :
      (m k : Prog (Unit {0})) (xs ys : List Item)
      → Writes m xs
      → Writes k ys
      → Writes (m >>= λ _. k) (xs ++ ys)
  Writes-then m k xs ys hm hk = record {
    run = λ past rest.
        rw (← append_assoc rest xs ys)
          (bind-run m (λ _. k) (i.tape past rest) (hm.run past rest) ∙ hk.run past (rest ++ xs));
  }

  pub Writes-32bytes : (b : Bytes) → Writes (e.write_32bytes b) (bytes32 b ∷ [])
  Writes-32bytes b = record { run = λ past rest. i.write_32bytes_last past rest b }

  pub Writes-u32 : (n : ℕ) → Writes (e.write_u32 n) (u32 n ∷ [])
  Writes-u32 n = record { run = λ past rest. i.write_u32_last past rest n }

  pub Writes-u64 : (n : ℕ) → Writes (e.write_u64 n) (u64 n ∷ [])
  Writes-u64 n = record { run = λ past rest. i.write_u64_last past rest n }

  pub Writes-i32 : (n : ℕ) → Writes (e.write_i32 n) (i32 n ∷ [])
  Writes-i32 n = record { run = λ past rest. i.write_i32_last past rest n }

  -- What is written on an empty tape and then read.
  pub Reads-Writes :
      {A : Type 0} (m : Prog (Unit {0})) (k : Prog A) (xs : List Item) (a : A)
      → Writes m xs
      → Reads k xs a
      → (past : List Item) → (m >>= λ _. k) (i.tape past []) ≡ some (a, i.tape (past ++ xs) [])
  Reads-Writes m k xs a hm hk past =
      bind-run m (λ _. k) (i.tape past []) (hm.run past []) ∙ rw append-nil at (hk.run past [])

abbrev pub items_all {ℓ} : {A : Type ℓ} → (A → List Item) → List A → List Item
items_all items [] = []
items_all items (x ∷ xs) = items x ++ items_all items xs

-- The state of a loop after the values `xs`, the first at the index `k`.
abbrev pub steps {ℓ} : {A : Type ℓ} {S : Type 0} → (ℕ → S → A → S) → ℕ → S → List A → S
steps step k s [] = s
steps step k s (x ∷ xs) = steps step (suc k) (step k s x) xs

module _ ⦃e : Environment⦄ ⦃i : IsTape e⦄ where
  -- A counted loop whose rounds read one value each.
  pub Reads-for_range :
      {A S : Type 0} (body : ℕ → S → Prog S) (items : A → List Item) (step : ℕ → S → A → S)
      (Fits : A → Type 0)
      → ((k : ℕ) (s : S) (x : A) → Fits x → Reads (body k s) (items x) (step k s x))
      → (xs : List A) (k : ℕ) (s : S) → All Fits xs
      → Reads (for_range (length xs) k body s) (items_all items xs) (steps step k s xs)
  unfolding for_range
  Reads-for_range body items step Fits round [] k s h = Reads-pure s
  Reads-for_range body items step Fits round (x ∷ xs) k s (hx, h) =
      Reads-bind (body k s) (for_range (length xs) (suc k) body) (items x) (items_all items xs)
        (step k s x) (steps step (suc k) (step k s x) xs) (round k s x hx)
        (Reads-for_range body items step Fits round xs (suc k) (step k s x) h)

  pub Writes-for_each :
      {A : Type 0} (body : A → Prog (Unit {0})) (items : A → List Item) (Fits : A → Type 0)
      → ((x : A) → Fits x → Writes (body x) (items x))
      → (xs : List A) → All Fits xs
      → Writes (for_each xs body) (items_all items xs)
  unfolding for_each
  Writes-for_each body items Fits round [] h = Writes-nil
  Writes-for_each body items Fits round (x ∷ xs) (hx, h) =
      Writes-then (body x) (for_each xs body) (items x) (items_all items xs) (round x hx)
        (Writes-for_each body items Fits round xs h)
