-- ===== src/Circuit/Transaction/Pays.antt =====
-- What a transaction that was read and that had to pay has hashed, in any environment.
use clementine_citeria.Common.{
  ℕ, ◌/◌, ◌%◌, ◌≡◌, refl, ap, sym, ◌∙◌, subst, [], ◌∷◌, ◌++◌, append_assoc, append-nil, none, some,
  some-eq, Bool, true, false, Bool-cases, inl, inr, take, ltb, leb, ◌==◌, if◌then◌else◌, assert,
  assert-inv, arith,
}
use clementine_citeria.Common.Bytes.{Bytes, bytes_eq, bytes_eq→eq}
use clementine_citeria.Common.Words.{to_le_bytes}
use clementine_citeria.Hash.{Crypto, double_sha256_hash}
use clementine_citeria.Env.{Environment, lift, for_range, bind-inv, lift-inv}
use clementine_citeria.Env.Loops.{for_range-keeps}
use clementine_citeria.Circuit.Transaction.{
  update_hasher_with_varint, meets_output, read_whole_chunk, read_chunks_and_update_hasher,
  read_input, read_output, read_tx_and_calculate_txid,
}

-- A taproot output with a value and a key, as a transaction encodes it.
abbrev pub taproot_output : ℕ → Bytes → Bytes
taproot_output value key = to_le_bytes 8 value ++ 34 ∷ 81 ∷ 32 ∷ key

-- The bytes contain the output.
pub record Contains (output bytes : Bytes) : Type 0 where
  pub before : Bytes
  pub after : Bytes
  pub split : bytes ≡ before ++ (output ++ after)

pub Contains-append :
    (output bytes more : Bytes) → Contains output bytes → Contains output (bytes ++ more)
Contains-append output bytes more h = record {
  before = h.before;
  after = h.after ++ more;
  split =
      ap (λ b. b ++ more) h.split
      ∙ (append_assoc h.before (output ++ h.after) more
          ∙ ap (λ b. h.before ++ b) (append_assoc output h.after more));
}

-- One list begins with the other.
abbrev Extends : Bytes → Bytes → Type 0
Extends bytes bytes' = (more : Bytes) × (bytes' ≡ bytes ++ more)

Extends-append : (a b more : Bytes) → Extends a b → Extends a (b ++ more)
Extends-append a b more (x, e) = (x ++ more, ap (λ t. t ++ more) e ∙ append_assoc a x more)

varint-Extends : (hasher : Bytes) (n : ℕ) → Extends hasher (update_hasher_with_varint hasher n)
unfolding update_hasher_with_varint
varint-Extends hasher n = elim (Bool-cases (ltb n 0xfd)) [
  | inl one ↦ rw one (to_le_bytes 1 n, refl)
  | inr more ↦ elim (Bool-cases (leb n 0xffff)) [
    | inl two ↦
        rw (more, two) (0xfd ∷ to_le_bytes 2 n, append_assoc hasher (0xfd ∷ []) (to_le_bytes 2 n))
    | inr four ↦
        rw (more, four) (0xfe ∷ to_le_bytes 4 n, append_assoc hasher (0xfe ∷ []) (to_le_bytes 4 n))
  ]
]

module _ ⦃c : Crypto⦄ ⦃e : Environment⦄ where
  read_whole_chunk-Extends :
      (a : Bytes) (k : ℕ) (b b' : Bytes) (t t' : e.State)
      → read_whole_chunk k b t ≡ some (b', t')
      → Extends a b
      → Extends a b'
  unfolding read_whole_chunk
  read_whole_chunk-Extends a k b b' t t' h ext =
      let (chunk, t1, _, h1) = bind-inv e.read_32bytes _ t h in
      subst (Extends a) (ap (λ p. p.0) (some-eq h1)) (Extends-append a b chunk ext)

  read_chunks-Extends :
      (hasher hasher' : Bytes) (n : ℕ) (t t' : e.State)
      → read_chunks_and_update_hasher hasher n t ≡ some (hasher', t')
      → Extends hasher hasher'
  unfolding read_chunks_and_update_hasher
  read_chunks-Extends hasher hasher' n t t' h =
      let (b, t1, loop, h1) = bind-inv (for_range (n / 32) 0 read_whole_chunk hasher) _ t h in
      let whole =
        for_range-keeps (Extends hasher) read_whole_chunk (read_whole_chunk-Extends hasher) (n / 32)
          0 hasher b t t1 loop ([], sym (append-nil hasher)) in
      elim (Bool-cases (ltb 0 (n % 32))) [
        | inl some_left ↦
            let (chunk, t2, _, h2) = bind-inv e.read_32bytes _ t1 (rw some_left at h1) in
            subst (Extends hasher) (ap (λ p. p.0) (some-eq h2))
              (Extends-append hasher b (take (n % 32) chunk) whole)
        | inr none_left ↦
            subst (Extends hasher) (ap (λ p. p.0) (some-eq (rw none_left at h1))) whole
      ]

  -- Once an output satisfies, its bytes are in the hasher.
  abbrev Satisfied : ℕ → Bytes → Bytes × Bool → Type 0
  Satisfied value key (hasher, satisfied) =
      satisfied ≡ true → Contains (taproot_output value key) hasher

  meets-eq :
      (value : ℕ) (key : Bytes) (v : ℕ) (k : Bytes)
      → meets_output (some (some value, key)) v k ≡ true
      → (k ≡ key) × (v ≡ value)
  unfolding meets_output
  meets-eq value key v k h = elim (Bool-cases (bytes_eq k key)) [
    | inl same ↦ (bytes_eq→eq k key same, ground (arith, rw same at h))
    | inr other ↦ absurd (false-ne (rw other at h))
  ]
    where
      false-ne : ◌≡◌ {A = Bool} false true → ⊥
      false-ne h = cc

  read_output-Satisfied :
      (value : ℕ) (key : Bytes) (i : ℕ) (s s' : Bytes × Bool) (t t' : e.State)
      → read_output (some (some value, key)) i s t ≡ some (s', t')
      → Satisfied value key s
      → Satisfied value key s'
  unfolding read_output
  read_output-Satisfied value key i (hasher, satisfied) s' t t' h before =
      let (v, t1, _, h1) = bind-inv e.read_u64 _ t h in
      let (flag, t2, _, h2) = bind-inv e.read_u32 _ t1 h1 in
      elim (Bool-cases (flag == 0)) [
        | inl taproot ↦
            let (k, t3, _, h3) = bind-inv e.read_32bytes _ t2 (rw taproot at h2) in
            subst (Satisfied value key) (ap (λ p. p.0) (some-eq h3)) (after_output v k)
        | inr other ↦
            let varint = update_hasher_with_varint (hasher ++ to_le_bytes 8 v) flag in
            let (b, t3, chunks, h3) =
              bind-inv (read_chunks_and_update_hasher varint flag) _ t2 (rw other at h2) in
            let (x, ex) = varint-Extends (hasher ++ to_le_bytes 8 v) flag in
            let (y, ey) = read_chunks-Extends varint b flag t2 t3 chunks in
            subst (Satisfied value key) (ap (λ p. p.0) (some-eq h3)) λ yes.
              subst (Contains (taproot_output value key)) (sym (ey ∙ ap (λ z. z ++ y) ex)) (
                Contains-append (taproot_output value key) _ y (
                  Contains-append (taproot_output value key) _ x (
                    Contains-append (taproot_output value key) hasher (to_le_bytes 8 v)
                      (before yes))))
      ]
    where
      after_output :
          (v : ℕ) (k : Bytes)
          → Satisfied value key (
            ((hasher ++ to_le_bytes 8 v) ++ 34 ∷ 81 ∷ 32 ∷ []) ++ k,
            (if meets_output (some (some value, key)) v k then true else satisfied),
          )
      after_output v k = elim (Bool-cases (meets_output (some (some value, key)) v k)) [
        | inl meets ↦
            let (same_key, same_value) = meets-eq value key v k meets in
            rw meets λ yes. record {
              before = hasher;
              after = [];
              split =
                  ap (λ z. ((hasher ++ to_le_bytes 8 v) ++ 34 ∷ 81 ∷ 32 ∷ []) ++ z) same_key
                  ∙ (ap (λ z. ((hasher ++ to_le_bytes 8 z) ++ 34 ∷ 81 ∷ 32 ∷ []) ++ key) same_value
                      ∙ (append_assoc (hasher ++ to_le_bytes 8 value) (34 ∷ 81 ∷ 32 ∷ []) key
                          ∙ (append_assoc hasher (to_le_bytes 8 value) (34 ∷ 81 ∷ 32 ∷ key)
                              ∙ ap (λ z. hasher ++ z)
                                  (sym (append-nil (taproot_output value key))))));
            }
        | inr fails ↦ rw fails λ yes. Contains-append (taproot_output value key) _ k (
            Contains-append (taproot_output value key) _ (34 ∷ 81 ∷ 32 ∷ [])
              (Contains-append (taproot_output value key) hasher (to_le_bytes 8 v) (before yes)))
      ]

  -- A transaction that had to pay has hashed the bytes of an output that does.
  pub read_tx-pays :
      (value : ℕ) (key : Bytes) (t t' : e.State) (txid : Bytes)
      → read_tx_and_calculate_txid none (some (some value, key)) t ≡ some (txid, t')
      → (bytes : Bytes) × Contains (taproot_output value key) bytes
        × (txid ≡ double_sha256_hash bytes)
  unfolding read_tx_and_calculate_txid
  read_tx-pays value key t t' txid h =
      let (version, t1, _, h1) = bind-inv e.read_i32 _ t h in
      let (inputs, t2, _, h2) = bind-inv e.read_u32 _ t1 h1 in
      let (outputs, t3, _, h3) = bind-inv e.read_u32 _ t2 h2 in
      let (lock_time, t4, _, h4) = bind-inv e.read_u32 _ t3 h3 in
      let ((hasher, in_ok), t5, _, h5) =
        bind-inv (for_range inputs 0 (read_input none) _) _ t4 h4 in
      let start = update_hasher_with_varint hasher outputs in
      let ((hasher', out_ok), t6, loop, h6) =
        bind-inv (for_range outputs 0 (read_output (some (some value, key))) (start, false)) _ t5
          h5 in
      let (_, t7, _, h7) = bind-inv (lift (assert in_ok)) _ t6 h6 in
      let (_, t8, checked, h8) = bind-inv (lift (assert out_ok)) _ t7 h7 in
      let yes = assert-inv out_ok (lift-inv (assert out_ok) t7 checked).0 in
      let kept =
        for_range-keeps (Satisfied value key) (read_output (some (some value, key)))
          (read_output-Satisfied value key) outputs 0 (start, false) (hasher', out_ok) t5 t6 loop
          (λ no. absurd (false-ne no)) in
      (
        hasher' ++ to_le_bytes 4 lock_time,
        Contains-append (taproot_output value key) hasher' (to_le_bytes 4 lock_time) (kept yes),
        ap (λ p. p.0) (sym (some-eq h8)),
      )
    where
      false-ne : ◌≡◌ {A = Bool} false true → ⊥
      false-ne h = cc
