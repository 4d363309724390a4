-- ===== src/Circuit/MerkleProof/Binding.antt =====
-- Why a Merkle proof is believed: two proofs with one root are of one leaf, unless two of the
-- messages that are hashed for them collide.
use clementine_citeria.Common.{
  ℕ, zero, suc, ◌/◌, ◌%◌, ◌^◌, ◌<◌, ◌≡◌, ◌≢◌, ◌⊎◌, inl, inr, refl, List, [], ◌∷◌, ◌++◌, length, All,
  ◌==◌, Bool-cases, arith, ap, sym, ◌∙◌, get_or, get_elem?, if◌then◌else◌, Option, some, some-eq,
}
use clementine_citeria.Common.Bytes.{Bytes, IsHash, bytes_eq, bytes_eq→eq, bytes_eq_refl}
use clementine_citeria.Hash.{Crypto, hash_pair, hash_pair-IsHash}
use clementine_citeria.Merkle.Levels.{empty_data, zeroes, node, zeroes-IsHash, get_or-level_up}
use clementine_citeria.Merkle.Incremental.{above-eq-zero}
use clementine_citeria.Merkle.Tree.Paths.{
  climb, siblings_above, climb-siblings, siblings_above-IsHash, length-siblings_above,
}
use clementine_citeria.Env.{Environment}
use clementine_citeria.Env.Tape.{Item, IsTape}
use clementine_citeria.Circuit.MerkleProof.{read_merkle_tree_proof}
use clementine_citeria.Circuit.MerkleProof.Wire.{
  sibling_items, index_items, IsIndex, read_merkle_tree_proof-climb,
}

append-injective : (a b x y : Bytes) → length a ≡ length b → a ++ x ≡ b ++ y → (a ≡ b) × (x ≡ y)
append-injective [] [] x y h e = (refl, e)
append-injective [] (b ∷ bs) x y h e = absurd (omega arith)
append-injective (a ∷ r) [] x y h e = absurd (omega arith)
append-injective (a ∷ r) (b ∷ bs) x y h e =
    let head : a ≡ b = cc in
    let tail : r ++ x ≡ bs ++ y = cc in
    let (same, rest) = append-injective r bs x y (omega arith) tail in (cc, rest)

bytes_cases : (a b : Bytes) → (a ≡ b) ⊎ (a ≢ b)
bytes_cases a b = elim (Bool-cases (bytes_eq a b)) [
  | inl same ↦ inl (bytes_eq→eq a b same)
  | inr other ↦ inr (λ e. cc (bytes_eq_refl a))
]

module _ ⦃c : Crypto⦄ where
  abbrev message : ℕ → Bytes → Bytes → Bytes
  message i hash sibling = if i % 2 == 0 then hash ++ sibling else sibling ++ hash

  -- The messages that are hashed from the node `hash` at the position `i` up along its siblings.
  unfoldable pub way : List Bytes → ℕ → Bytes → List Bytes
  way [] i hash = []
  way (s ∷ rest) i hash =
      message i hash s
      ∷ way rest (i / 2) (if i % 2 == 0 then hash_pair hash s else hash_pair s hash)

  -- Two distinct messages at one height of two ways that have one digest.
  pub record Collision (ms ns : List Bytes) : Type 0 where
    pub height : ℕ
    pub m : Bytes
    pub n : Bytes
    pub m_at : get_elem? ms height ≡ some m
    pub n_at : get_elem? ns height ≡ some n
    pub distinct : m ≢ n
    pub collide : c.sha256 m ≡ c.sha256 n

  higher : (m n : Bytes) (ms ns : List Bytes) → Collision ms ns → Collision (m ∷ ms) (n ∷ ns)
  higher m n ms ns h = record {
    height = suc h.height;
    m = h.m;
    n = h.n;
    m_at = h.m_at;
    n_at = h.n_at;
    distinct = h.distinct;
    collide = h.collide;
  }

  hash_pair-injective :
      (a b x y : Bytes) (ms ns : List Bytes)
      → length a ≡ length b
      → hash_pair a x ≡ hash_pair b y
      → ((a ≡ b) × (x ≡ y)) ⊎ Collision ((a ++ x) ∷ ms) ((b ++ y) ∷ ns)
  unfolding hash_pair
  hash_pair-injective a b x y ms ns len e = elim (bytes_cases (a ++ x) (b ++ y)) [
    | inl same ↦ inl (append-injective a b x y len same)
    | inr other ↦ inr (record {
      height = 0;
      m = a ++ x;
      n = b ++ y;
      m_at = refl;
      n_at = refl;
      distinct = other;
      collide = e;
    })
  ]

  -- Two ways up from one position, of one length, that end in one root start from one leaf, or two
  -- distinct messages at one height of them have one SHA-256 digest.
  pub climb-binding :
      (ss ts : List Bytes) (index : ℕ) (a b : Bytes)
      → length ss ≡ length ts
      → IsHash a
      → IsHash b
      → All IsHash ss
      → All IsHash ts
      → climb ss index a ≡ climb ts index b
      → (a ≡ b) ⊎ Collision (way ss index a) (way ts index b)
  unfolding climb way
  climb-binding [] [] index a b len ha hb hs ht e = inl e
  climb-binding [] (t ∷ ts) index a b len ha hb hs ht e = absurd (omega arith)
  climb-binding (s ∷ ss) [] index a b len ha hb hs ht e = absurd (omega arith)
  climb-binding (s ∷ ss) (t ∷ ts) index a b len ha hb (hs, hss) (ht, hts) e =
      elim (Bool-cases (index % 2 == 0)) [
        | inl even ↦ rw even (
            let ms = way ss (index / 2) (hash_pair a s) in
            let ns = way ts (index / 2) (hash_pair b t) in
            elim (climb-binding ss ts (index / 2) (hash_pair a s) (hash_pair b t) (omega arith)
              (hash_pair-IsHash a s) (hash_pair-IsHash b t) hss hts (rw even at e)) [
                | inl same ↦
                    elim (hash_pair-injective a b s t ms ns (omega (arith, ha.0, hb.0)) same) [
                      | inl r ↦ inl r.0
                      | inr broken ↦ inr broken
                    ]
                | inr broken ↦ inr (higher (a ++ s) (b ++ t) ms ns broken)
              ])
        | inr odd ↦ rw odd (
            let ms = way ss (index / 2) (hash_pair s a) in
            let ns = way ts (index / 2) (hash_pair t b) in
            elim (climb-binding ss ts (index / 2) (hash_pair s a) (hash_pair t b) (omega arith)
              (hash_pair-IsHash s a) (hash_pair-IsHash t b) hss hts (rw odd at e)) [
                | inl same ↦
                    elim (hash_pair-injective s t a b ms ns (omega (arith, hs.0, ht.0)) same) [
                      | inl r ↦ inl r.1
                      | inr broken ↦ inr broken
                    ]
                | inr broken ↦ inr (higher (s ++ a) (t ++ b) ms ns broken)
              ])
      ]

  get_or-IsHash : (xs : List Bytes) (k : ℕ) → All IsHash xs → IsHash (get_or xs k empty_data)
  get_or-IsHash [] k h = unfold zeroes in zeroes-IsHash 0
  get_or-IsHash (x ∷ xs) zero h = h.0
  get_or-IsHash (x ∷ xs) (suc k) h = get_or-IsHash xs k h.1

  climb-root :
      (siblings : List Bytes) (xs : List Bytes) (leaf : Bytes) (k : ℕ)
      → IsHash leaf
      → All IsHash siblings
      → All IsHash xs
      → k < 2 ^ length siblings
      → climb siblings k leaf ≡ node (length siblings) 0 0 xs
      → (leaf ≡ get_or xs k empty_data)
        ⊎ Collision
            (way siblings k leaf)
            (way (siblings_above (length siblings) 0 xs k) k (get_or xs k empty_data))
  climb-root siblings xs leaf k hl hs hx small e =
      let depth = length siblings in
      let e' : climb (siblings_above depth 0 xs k) k (get_or xs k empty_data) ≡ node depth 0 0 xs =
        unfold zeroes in
        climb-siblings depth 0 k xs
        ∙ rw (above-eq-zero depth k small) (get_or-level_up depth 0 0 xs) in
      climb-binding siblings (siblings_above depth 0 xs k) k leaf (get_or xs k empty_data)
        (sym (length-siblings_above depth 0 k xs)) hl (get_or-IsHash xs k hx) hs
        (siblings_above-IsHash depth 0 k xs hx) (e ∙ sym e')

module _ ⦃c : Crypto⦄ ⦃e : Environment⦄ ⦃i : IsTape e⦄ where
  -- If from any hashes on the tape the circuit computes the root of a tree, then the leaf that it
  -- proved is the tree's at that index, or at some height the message that is hashed on the way up
  -- from the tape's hashes and the tree's own message there are distinct and have one digest.
  pub read_merkle_tree_proof_sound :
      (siblings : List Bytes) (xs : List Bytes) (leaf : Bytes) (given : Option ℕ) (k : ℕ)
      (past rest : List Item) (s : e.State)
      → IsHash leaf
      → All IsHash siblings
      → All IsHash xs
      → IsIndex given k
      → k < 2 ^ length siblings
      → read_merkle_tree_proof
          (length siblings)
          leaf
          given
          (i.tape past ((index_items given k ++ sibling_items siblings) ++ rest))
        ≡ some (node (length siblings) 0 0 xs, s)
      → (leaf ≡ get_or xs k empty_data)
        ⊎ Collision
            (way siblings k leaf)
            (way (siblings_above (length siblings) 0 xs k) k (get_or xs k empty_data))
  read_merkle_tree_proof_sound siblings xs leaf given k past rest s hl hs hx hi small e' =
      let run = (read_merkle_tree_proof-climb siblings leaf given k hs hi).run past rest in
      climb-root siblings xs leaf k hl hs hx small (ap (λ r. r.0) (some-eq (sym run ∙ e')))
