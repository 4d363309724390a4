-- ===== src/Circuit/Bridge/Checks.antt =====
-- What a run of the bridge circuit that returns has checked.
use clementine_citeria.Common.{
  ℕ, zero, suc, ◌+◌, ◌%◌, ◌^◌, ◌<◌, ◌≡◌, refl, sym, ap, subst, ◌∙◌, ◌⊎◌, inl, inr, none, some,
  some-eq, Bool, true, false, Bool-cases, arith, ◌==◌, if◌then◌else◌, assert, replicate, get_elem?,
  get_elem?-inv, length,
}
use clementine_citeria.Common.Bytes.{Bytes, bytes_eq, bytes_eq→eq}
use clementine_citeria.Hash.{Crypto}
use clementine_citeria.Env.{Environment, pure, lift, bind-inv, bind-cases, lift-inv, for_range}
use clementine_citeria.Merkle.Incremental
use clementine_citeria.Merkle.Incremental.{IncrementalMerkleTree}
use clementine_citeria.Circuit.Constants.{
  max_block_handle_ops, blockhash_merkle_tree_depth, withdrawal_merkle_tree_depth, num_rounds,
  period_claim_mt_roots,
}
use clementine_citeria.Circuit.Transaction.{read_tx_and_calculate_txid}
use clementine_citeria.Circuit.Commitment.{read_preimages_and_calculate_commit_taproot}
use clementine_citeria.Circuit.MerkleProof.{
  read_merkle_tree_proof, read_and_verify_bitcoin_merkle_path,
}
use clementine_citeria.Circuit.Blocks.{
  read_blocks_and_add_to_merkle_tree, read_header_except_root_and_calculate_blockhash,
  read_blocks_and_calculate_work,
}
use clementine_citeria.Circuit.Bridge.{
  Challenge, Periods, settle, read_withdrawal_proof, read_periods, read_period, read_claim,
  read_and_verify_lc_proof, read_and_verify_verifiers_challenge_proof, bridge_proof,
}

-- Disagreement is only passed by more work than the challenger's.
settle-inv :
    (agree : Bool) (total_pow verifiers_pow : ℕ) {u : Unit {0}}
    → settle agree total_pow verifiers_pow ≡ some u
    → (agree ≡ true) ⊎ (verifiers_pow < total_pow)
unfolding settle
settle-inv true total_pow verifiers_pow h = inl refl
settle-inv false total_pow verifiers_pow h = ground arith

module _ ⦃c : Crypto⦄ ⦃e : Environment⦄ where
  read_period-last_period :
      (p p' : Periods) (d : ℕ) (s s' : e.State)
      → read_period p s ≡ some ((p', d), s')
      → p'.last_period ≡ p.last_period
  unfolding read_period
  read_period-last_period p p' d s s' h =
      let (blocks, s1, e1, h1) =
        bind-inv
          (read_blocks_and_add_to_merkle_tree p.cur_block_hash p.blockhashes_mt
            max_block_handle_ops)
          _ s h in
      let (num_withdrawals, s2, e2, h2) = bind-inv e.read_u32 _ s1 h1 in
      let (withdrawal_mt, s3, e3, h3) =
        bind-inv
          (for_range num_withdrawals 0 (λ _ mt. read_withdrawal_proof blocks.imt.root mt)
            p.withdrawal_mt)
          _ s2 h2 in
      let (go_on, s4, e4, h4) = bind-inv e.read_u32 _ s3 h3 in
      sym (ap (λ q. q.0.0.last_period) (some-eq h4))

  -- The loop over the periods leaves a period below the number of rounds.
  read_periods-last_period :
      (rounds k : ℕ) (p p' : Periods) (s s' : e.State)
      → p.last_period < k + rounds
      → read_periods rounds k p s ≡ some (p', s')
      → p'.last_period < k + rounds
  unfolding read_periods
  read_periods-last_period zero k p p' s s' small h =
      let same : p.last_period ≡ p'.last_period = ap (λ q. q.0.last_period) (some-eq h) in
      omega (arith, same)
  read_periods-last_period (suc rounds) k p p' s s' small h =
      let (r, s1, e1, h1) = bind-inv (read_period p) _ s h in
      let kept = read_period-last_period p r.0 r.1 s s1 e1 in
      next r.0 r.1 s1 (omega (arith, kept)) h1
        (λ q small h. read_periods-last_period rounds (suc k) q p' s1 s' small h)
    where
      next :
          (q : Periods) (d : ℕ) (s1 : e.State)
          → q.last_period < k + suc rounds
          → (if d == 1 then pure (record q { last_period = k }) else read_periods rounds (suc k) q)
              s1
            ≡ some (p', s')
          → ((q : Periods)
              → q.last_period < suc k + rounds
              → read_periods rounds (suc k) q s1 ≡ some (p', s')
              → p'.last_period < suc k + rounds)
          → p'.last_period < k + suc rounds
      next q d s1 small h rest = elim (Bool-cases (d == 1)) [
        | inl ended ↦
            let same : k ≡ p'.last_period = ap (λ q. q.0.last_period) (some-eq (rw ended at h)) in
            omega (arith, same)
        | inr more ↦ omega (arith, rest q (omega arith) (rw more at h))
      ]

  read_claim-period :
      (p : Periods) (period : ℕ) (s s' : e.State) {u : Unit {0}}
      → read_claim p period s ≡ some (u, s')
      → period < length period_claim_mt_roots
  unfolding read_claim
  read_claim-period p period s s' h =
      bind-cases (read_and_verify_lc_proof p.lc_blockhash p.withdrawal_mt.root) _ s h
        (λ u1 s1 e1 h1.
          bind-cases read_preimages_and_calculate_commit_taproot _ s1 h1 (λ commit s2 e2 h2.
            bind-cases (read_tx_and_calculate_txid none (some (none, commit.0))) _ s2 h2
              (λ commit_txid s3 e3 h3. bind-cases e.read_u32 _ s3 h3 (λ vout s4 e4 h4.
                bind-cases (read_tx_and_calculate_txid (some (commit_txid, vout)) none) _ s4 h4
                  (λ reveal_txid s5 e5 h5.
                    bind-cases (read_and_verify_bitcoin_merkle_path reveal_txid) _ s5 h5
                      (λ merkle_root s6 e6 h6.
                        bind-cases (read_header_except_root_and_calculate_blockhash merkle_root) _
                          s6 h6
                          (λ block_hash s7 e7 h7.
                            bind-cases
                              (read_merkle_tree_proof blockhash_merkle_tree_depth block_hash none) _
                              s7 h7
                              (λ root s8 e8 h8.
                                bind-cases (lift (assert (bytes_eq p.blockhashes_mt.root root))) _
                                  s8 h8
                                  (λ u9 s9 e9 h9.
                                    bind-cases (lift (get_elem? period_claim_mt_roots period)) _ s9
                                      h9
                                      (λ period_root s10 e10 h10.
                                        get_elem?-inv period_claim_mt_roots period
                                          (lift-inv (get_elem? period_claim_mt_roots period) s9
                                            e10).0))))))))))

  abbrev no_periods : Bytes → Periods
  no_periods first_block_hash = record {
    blockhashes_mt = Incremental.new blockhash_merkle_tree_depth;
    withdrawal_mt = Incremental.new withdrawal_merkle_tree_depth;
    total_pow = 0;
    cur_block_hash = first_block_hash;
    lc_blockhash = replicate 32 0;
    total_num_withdrawals = 0;
    last_period = 0;
  }

  -- What a run of `bridge_proof` that returns has found.
  pub record BridgeChecked (ch : Challenge) (s : e.State) : Type 0 where
    pub first_block_hash : Bytes
    pub start : e.State
    pub first_read : e.read_32bytes s ≡ some (first_block_hash, start)
    pub periods : Periods
    pub after_periods : e.State
    pub periods_read :
        read_periods num_rounds 0 (no_periods first_block_hash) start
        ≡ some (periods, after_periods)
    pub after_challenge : e.State
    pub challenge_read :
        read_and_verify_verifiers_challenge_proof after_periods ≡ some (ch, after_challenge)
    pub k_deep_work : ℕ
    pub after_work : e.State
    pub work_read :
        read_blocks_and_calculate_work periods.cur_block_hash after_challenge
        ≡ some (k_deep_work, after_work)
    pub total_pow : ℕ
    pub total_pow_is : total_pow ≡ (periods.total_pow + k_deep_work) % 2 ^ 256
    pub period_agrees : (ch.period ≡ periods.last_period % 256) ⊎ (ch.verifiers_pow < total_pow)
    pub hash_agrees :
        (ch.last_finalized_blockhash ≡ periods.cur_block_hash) ⊎ (ch.verifiers_pow < total_pow)
    pub period_proved : periods.last_period < num_rounds
    pub period_known : ch.period < length period_claim_mt_roots
    pub claimed : (s' : e.State) × (read_claim periods ch.period after_work ≡ some (tt, s'))

  -- A run of the circuit that returns has proved a chain of at most four periods, and the challenge
  -- agrees with it in the period and in the last block hash, or the proved work is more than the
  -- challenger's; the claim of the challenge's period was accepted.
  pub bridge_proof-checks :
      (ch : Challenge) (s s' : e.State) → bridge_proof s ≡ some (ch, s') → BridgeChecked ch s
  unfolding bridge_proof
  bridge_proof-checks ch s s' h = bind-cases e.read_32bytes _ s h (λ first s1 e1 h1.
      bind-cases (read_periods num_rounds 0 (no_periods first)) _ s1 h1 (λ p s2 e2 h2.
        bind-cases read_and_verify_verifiers_challenge_proof _ s2 h2 (λ challenge s3 e3 h3.
          bind-cases (read_blocks_and_calculate_work p.cur_block_hash) _ s3 h3 (λ work s4 e4 h4.
            let total_pow = (p.total_pow + work) % 2 ^ 256 in
            bind-cases
              (lift (
                settle (challenge.period == p.last_period % 256) total_pow challenge.verifiers_pow))
              _ s4 h4
              (λ u s5 e5 h5.
                bind-cases
                  (lift (
                    settle (bytes_eq challenge.last_finalized_blockhash p.cur_block_hash) total_pow
                      challenge.verifiers_pow))
                  _ s5 h5
                  (λ u' s6 e6 h6.
                    bind-cases (read_claim p challenge.period) _ s6 h6 (λ u'' s7 e7 h7.
                      let (settled, same) =
                        lift-inv
                          (settle (challenge.period == p.last_period % 256) total_pow
                            challenge.verifiers_pow)
                          s4 e5 in
                      let (settled', same') =
                        lift-inv
                          (settle (bytes_eq challenge.last_finalized_blockhash p.cur_block_hash)
                            total_pow challenge.verifiers_pow)
                          s5 e6 in
                      subst (λ ch. BridgeChecked ch s) (ap (λ q. q.0) (some-eq h7))
                        (record {
                          first_block_hash = first;
                          start = s1;
                          first_read = e1;
                          periods = p;
                          after_periods = s2;
                          periods_read = e2;
                          after_challenge = s3;
                          challenge_read = e3;
                          k_deep_work = work;
                          after_work = s4;
                          work_read = e4;
                          total_pow = total_pow;
                          total_pow_is = refl;
                          period_agrees =
                              agreed (λ same. number_eq challenge.period (p.last_period % 256) same)
                                (settle-inv (challenge.period == p.last_period % 256) total_pow
                                  challenge.verifiers_pow settled);
                          hash_agrees =
                              agreed
                                (λ same.
                                  bytes_eq→eq challenge.last_finalized_blockhash p.cur_block_hash
                                    same)
                                (settle-inv
                                  (bytes_eq challenge.last_finalized_blockhash p.cur_block_hash)
                                  total_pow challenge.verifiers_pow settled');
                          period_proved =
                              read_periods-last_period num_rounds 0 (no_periods first) p s1 s2
                                (omega arith) e2;
                          period_known = read_claim-period p challenge.period s6 s7 e7;
                          claimed = (s7, ap (read_claim p challenge.period) (same ∙ same') ∙ e7);
                        }))))))))
    where
      agreed : {A B C : Type 0} → (A → B) → A ⊎ C → B ⊎ C
      agreed f (inl a) = inl (f a)
      agreed f (inr b) = inr b

      number_eq : (m n : ℕ) → (m == n) ≡ true → m ≡ n
      number_eq m n h = ground arith
