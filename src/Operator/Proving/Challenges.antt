-- ===== src/Operator/Proving/Challenges.antt =====
-- The verifiers' challenge and the light client values: what `prove` writes, and what the circuit reads.
use clementine_citeria.Common.{◌%◌, ◌^◌, ◌<◌, ◌≡◌, List, [], ◌∷◌, ◌++◌, All, arith}
use clementine_citeria.Common.Bytes.{Bytes, bytes_eq_refl, IsHash}
use clementine_citeria.Common.Words.{
  to_le_bytes, from_le_bytes, length-to_le_bytes, to_le_bytes-IsByte, from_le_bytes-to_le_bytes,
}
use clementine_citeria.Hash.{Crypto}
use clementine_citeria.Env
use clementine_citeria.Env.{Environment}
use clementine_citeria.Env.Tape.{
  Item, bytes32, u32, IsTape, Reads, Reads-bind, Reads-bind-nil, Reads-pure, Reads-32bytes,
  Reads-u32, Writes-32bytes, Writes-u32, Writes-for_each, items_all,
}
use clementine_citeria.Circuit.Bridge.{
  Challenge, verify_challenge_proof, read_and_verify_lc_proof,
  read_and_verify_verifiers_challenge_proof,
}
use clementine_citeria.Operator.Proving.{run, write_lc_proof, write_verifiers_challenge_proof}
use clementine_citeria.Operator.Proving.Produces.{Produces, Produces-run, Produces-bind}

abbrev pub challenge_items : Challenge → List Item
challenge_items challenge =
    bytes32 challenge.last_finalized_blockhash
    ∷ bytes32 (to_le_bytes 32 challenge.verifiers_pow)
    ∷ u32 challenge.period
    ∷ []

module _ ⦃e : Environment⦄ ⦃i : IsTape e⦄ where
  pub Produces-challenge :
      (proof : List Bytes) (challenge : Challenge)
      → All IsHash proof
      → Produces
          (write_verifiers_challenge_proof proof challenge)
          (items_all (λ x. bytes32 x ∷ []) proof ++ challenge_items challenge)
          tt
  unfolding write_verifiers_challenge_proof
  Produces-challenge proof challenge h =
      let blockhash = challenge.last_finalized_blockhash in
      let work = to_le_bytes 32 challenge.verifiers_pow in
      Produces-bind (run (Env.for_each proof e.write_32bytes)) _
        (items_all (λ x. bytes32 x ∷ []) proof) (challenge_items challenge) tt tt
        (Produces-run _ _ (
          Writes-for_each e.write_32bytes (λ x. bytes32 x ∷ []) IsHash (λ x hx. Writes-32bytes x)
            proof h))
        (Produces-bind (run (e.write_32bytes blockhash)) _ (bytes32 blockhash ∷ []) _ tt tt
          (Produces-run _ _ (Writes-32bytes blockhash))
          (Produces-bind (run (e.write_32bytes work)) _ (bytes32 work ∷ []) _ tt tt
            (Produces-run _ _ (Writes-32bytes work))
            (Produces-run _ _ (Writes-u32 challenge.period))))

  pub Produces-lc_proof :
      (blockhash root : Bytes)
      → Produces (write_lc_proof blockhash root) (bytes32 blockhash ∷ bytes32 root ∷ []) tt
  unfolding write_lc_proof
  Produces-lc_proof blockhash root =
      Produces-bind (run (e.write_32bytes blockhash)) _ (bytes32 blockhash ∷ []) _ tt tt
        (Produces-run _ _ (Writes-32bytes blockhash)) (Produces-run _ _ (Writes-32bytes root))

  pub Reads-lc_proof :
      ⦃c : Crypto⦄
      → (blockhash root : Bytes) → IsHash blockhash
      → IsHash root
      → Reads (read_and_verify_lc_proof blockhash root) (bytes32 blockhash ∷ bytes32 root ∷ []) tt
  unfolding read_and_verify_lc_proof
  Reads-lc_proof blockhash root hb hr =
      Reads-bind e.read_32bytes _ (bytes32 blockhash ∷ []) _ blockhash tt
        (Reads-32bytes blockhash hb)
        (rw (bytes_eq_refl blockhash) (
          Reads-bind (Env.pure tt) _ [] (bytes32 root ∷ []) tt tt (Reads-pure tt) (
            Reads-bind-nil e.read_32bytes _ (bytes32 root ∷ []) root tt (Reads-32bytes root hr)
              (rw (bytes_eq_refl root) (Reads-pure tt)))))

  -- The circuit reads the challenge that was written, whose period is a byte.
  pub Reads-challenge :
      ⦃c : Crypto⦄
      → (p0 p1 p2 p3 : Bytes) (challenge : Challenge) → All IsHash (p0 ∷ p1 ∷ p2 ∷ p3 ∷ [])
      → IsHash challenge.last_finalized_blockhash
      → challenge.verifiers_pow < 2 ^ 256
      → challenge.period < 256
      → Reads read_and_verify_verifiers_challenge_proof
          (items_all (λ x. bytes32 x ∷ []) (p0 ∷ p1 ∷ p2 ∷ p3 ∷ []) ++ challenge_items challenge)
          challenge
  unfolding read_and_verify_verifiers_challenge_proof verify_challenge_proof
  Reads-challenge p0 p1 p2 p3 challenge (h0, (h1, (h2, (h3, _)))) hb small byte =
      let blockhash = challenge.last_finalized_blockhash in
      let work = to_le_bytes 32 challenge.verifiers_pow in
      let is_work : IsHash work = (
        length-to_le_bytes 32 challenge.verifiers_pow,
        to_le_bytes-IsByte 32 challenge.verifiers_pow,
      ) in
      let low : challenge.period % 256 ≡ challenge.period = omega arith in
      let same : from_le_bytes work ≡ challenge.verifiers_pow =
        from_le_bytes-to_le_bytes 32 challenge.verifiers_pow small in
      Reads-bind e.read_32bytes _ (bytes32 p0 ∷ []) _ p0 challenge (Reads-32bytes p0 h0) (
        Reads-bind e.read_32bytes _ (bytes32 p1 ∷ []) _ p1 challenge (Reads-32bytes p1 h1) (
          Reads-bind e.read_32bytes _ (bytes32 p2 ∷ []) _ p2 challenge (Reads-32bytes p2 h2) (
            Reads-bind e.read_32bytes _ (bytes32 p3 ∷ []) _ p3 challenge (Reads-32bytes p3 h3) (
              Reads-bind e.read_32bytes _ (bytes32 blockhash ∷ []) _ blockhash challenge
                (Reads-32bytes blockhash hb)
                (Reads-bind e.read_32bytes _ (bytes32 work ∷ []) _ work challenge
                  (Reads-32bytes work is_work)
                  (Reads-bind-nil e.read_u32 _ (u32 challenge.period ∷ []) challenge.period
                    challenge (Reads-u32 challenge.period (omega arith))
                    (rw (same, low)
                      (Reads-bind (Env.pure tt) _ [] [] tt challenge (Reads-pure tt)
                        (Reads-pure challenge)))))))))
