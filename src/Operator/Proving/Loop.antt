-- ===== src/Operator/Proving/Loop.antt =====
-- The loop of `prove` over the periods, and the circuit's loop over what it wrote.
use clementine_citeria.Common.{
  ◌%◌, ℕ, zero, suc, ◌+◌, ◌^◌, ◌<◌, ◌≡◌, ap, sym, ◌∙◌, subst, List, [], ◌∷◌, ◌++◌, append_assoc,
  append-nil, some, true, false, ◌==◌, length, arith,
}
use clementine_citeria.Common.Bytes.{Bytes}
use clementine_citeria.Hash.{Crypto}
use clementine_citeria.Bitcoin.{BitcoinCrate}
use clementine_citeria.Env.{Environment}
use clementine_citeria.Env.Tape.{
  Item, u32, IsTape, Reads, Reads-bind, Reads-bind-nil, Reads-pure, Writes-u32,
}
use clementine_citeria.Circuit.Constants.{withdrawal_merkle_tree_depth}
use clementine_citeria.Circuit.Bridge.{Periods, read_period}
use clementine_citeria.Database.{Dbms}
use clementine_citeria.Errors.{ok}
use clementine_citeria.Errors.Binds.{pure}
use clementine_citeria.Rpc.{Client}
use clementine_citeria.Writer.Chain.{Linked, last_hash}
use clementine_citeria.Operator.State.{World}
use clementine_citeria.Operator.Proving.{MerkleBlocks, run}
use clementine_citeria.Operator.Proving.Produces.{
  Produces, Produces-pure, Produces-run, Produces-bind, Produces-bind-nil,
}
use clementine_citeria.Operator.Proving.Payments.{addresses, payments_items}
use clementine_citeria.Operator.Proving.Prove.{Proved, prove_period}
use clementine_citeria.Operator.Proving.Period.{blocks_items, after_period, Reads-period}
use clementine_citeria.Circuit.Bridge.{read_periods}
use clementine_citeria.Errors.Binds.{◌>>=◌}
use clementine_citeria.Merkle.Tree.{root}
use clementine_citeria.Merkle.Tree.Build.{root-Built}
use clementine_citeria.Operator.Proving.Prove.{prove_periods}
use clementine_citeria.Operator.Proving.Periods.{
  Accounted, InStep, blocks_after, period_items, Produces-period,
}

module _ ⦃c : Crypto⦄ ⦃b : BitcoinCrate⦄ ⦃d : Dbms⦄ ⦃r : Client⦄ ⦃m : MerkleBlocks⦄
    ⦃e : Environment⦄ ⦃i : IsTape e⦄ where
  -- What `n` periods from `k` on need, one after the other.
  abbrev pub Accounts : World → ℕ → List ℕ → ℕ → ℕ → Bytes → List Bytes → List Bytes → Type 0
  Accounts w start heights zero k prev blocks ws = Unit {0}
  Accounts w start heights (suc n) k prev blocks ws =
      (q : Accounted w start heights k prev blocks ws) × Accounts w start heights n (suc k)
        (last_hash prev q.headers) (blocks_after q) (ws ++ addresses q.payments)

  -- The hash of the last header of these periods, and the height where the last of them ends.
  abbrev pub tip_of :
      (w : World) (start : ℕ) (heights : List ℕ) (n k : ℕ) (prev : Bytes) (blocks ws : List Bytes)
      → Accounts w start heights n k prev blocks ws
      → Bytes
  tip_of w start heights zero k prev blocks ws qs = prev
  tip_of w start heights (suc n) k prev blocks ws (q, qs) =
      tip_of w start heights n (suc k) (last_hash prev q.headers) (blocks_after q)
        (ws ++ addresses q.payments) qs

  abbrev pub end_of :
      (w : World) (start : ℕ) (heights : List ℕ) (n k : ℕ) (prev : Bytes) (blocks ws : List Bytes)
      → Accounts w start heights (suc n) k prev blocks ws
      → ℕ
  end_of w start heights zero k prev blocks ws (q, qs) = (start + q.height) % 2 ^ 64
  end_of w start heights (suc n) k prev blocks ws (q, qs) =
      end_of w start heights n (suc k) (last_hash prev q.headers) (blocks_after q)
        (ws ++ addresses q.payments) qs

  -- What the operator wrote and the circuit read back, and where the two are after it.
  pub record Told (w : World) (start : ℕ) (heights : List ℕ) (last n k rounds : ℕ) (p : Proved)
      (s : Periods) (tip : Bytes) (end : ℕ) : Type 0 where
    pub host : Proved
    pub circuit : Periods
    pub items : List Item
    pub written : Produces (prove_periods w start heights last n k p) items host
    pub read : Reads (read_periods rounds k s) (items ++ u32 1 ∷ []) circuit
    pub blocks : List Bytes
    pub withdrawals : List Bytes
    pub in_step : InStep blocks withdrawals host circuit
    pub lc_block : host.lc_blockhash ≡ circuit.lc_blockhash
    pub last_period : circuit.last_period ≡ last
    pub last_block : circuit.cur_block_hash ≡ tip
    pub last_height : host.end_height ≡ end

  read_after :
      (w : World) (start : ℕ) (heights : List ℕ) (k : ℕ) (prev : Bytes) (blocks ws : List Bytes)
      (p p' : Proved) (s : Periods) (q : Accounted w start heights k prev blocks ws) (ending : ℕ)
      → s.cur_block_hash ≡ prev
      → ending < 2 ^ 32
      → InStep
          (blocks_after q)
          (ws ++ addresses q.payments)
          p'
          (after_period s q.headers q.work q.payments)
      → Reads
          (read_period s)
          (period_items q (u32 ending ∷ []))
          (after_period s q.headers q.work q.payments, ending)
  read_after w start heights k prev blocks ws p p' s q ending at_prev ends after =
      Reads-period w.node (blocks_after q) s q.headers q.work ending p'.blockhashes_mt q.payments
        q.paid after.host_blocks after.circuit_blocks after.hashes q.are_headers
        (subst (λ h. Linked h q.headers) (sym at_prev) q.linked) q.valid q.enough
        (omega (arith, q.room)) (omega (arith, q.withdrawals_room)) ends

  period_items-nil :
      (w : World) (start : ℕ) (heights : List ℕ) (k : ℕ) (prev : Bytes) (blocks ws : List Bytes)
      (q : Accounted w start heights k prev blocks ws) (ending : List Item)
      → period_items q [] ++ ending ≡ period_items q ending
  period_items-nil w start heights k prev blocks ws q ending =
      let items = payments_items w.node (blocks_after q) q.payments q.paid in
      append_assoc (blocks_items q.headers) (u32 (length q.payments) ∷ [] ++ (items ++ [])) ending
      ∙ ap (λ l. blocks_items q.headers ++ (u32 (length q.payments) ∷ [] ++ (l ++ ending)))
          (append-nil items)

  -- The last period.
  Told-last :
      (w : World) (start : ℕ) (heights : List ℕ) (last k rounds : ℕ) (prev : Bytes)
      (blocks ws : List Bytes) (p : Proved) (s : Periods)
      → (q : Accounted w start heights k prev blocks ws) → InStep blocks ws p s
      → s.cur_block_hash ≡ prev
      → last ≡ k
      → Told w start heights last 1 k
          (suc rounds)
          p
          s
          (last_hash prev q.headers)
          ((start + q.height) % 2 ^ 64)
  unfolding prove_periods read_periods
  Told-last w start heights last k rounds prev blocks ws p s q same at_prev is_last =
      let ends : (k == last) ≡ true = ground arith in
      let (p', produced, after, lc, height) =
        Produces-period w start heights last k prev blocks ws p s q same at_prev in
      let s' = after_period s q.headers q.work q.payments in
      let out : Periods = record s' { last_period = k } in
      let reads =
        read_after w start heights k prev blocks ws p p' s q 1 at_prev (omega arith) after in
      let end : Reads (read_periods (suc rounds) k s) (period_items q (u32 1 ∷ [])) out =
        Reads-bind-nil (read_period s) _ (period_items q (u32 1 ∷ [])) (s', 1) out reads
          (Reads-pure out) in
      record {
        host = p';
        circuit = out;
        items = period_items q [];
        written =
            Produces-bind-nil (prove_period w start heights last k p) _ (period_items q []) p' p'
              (rw ends at produced) (Produces-pure p');
        read = rw (sym (period_items-nil w start heights k prev blocks ws q (u32 1 ∷ []))) at end;
        blocks = blocks_after q;
        withdrawals = ws ++ addresses q.payments;
        in_step = record {
          host_blocks = after.host_blocks;
          circuit_blocks = after.circuit_blocks;
          host_withdrawals = after.host_withdrawals;
          circuit_withdrawals = after.circuit_withdrawals;
          hashes = after.hashes;
          same_count = after.same_count;
        };
        lc_block = lc;
        last_period = sym is_last;
        last_block = ap (λ h. last_hash h q.headers) at_prev;
        last_height = height;
      }

  -- All the periods that are left.
  pub Told-periods :
      (w : World) (start : ℕ) (heights : List ℕ) (last n k rounds : ℕ) (prev : Bytes)
      (blocks ws : List Bytes) (p : Proved) (s : Periods)
      → (qs : Accounts w start heights (suc n) k prev blocks ws) → InStep blocks ws p s
      → s.cur_block_hash ≡ prev
      → last ≡ k + n
      → n < rounds
      → Told w start heights last
          (suc n)
          k
          rounds
          p
          s
          (tip_of w start heights (suc n) k prev blocks ws qs)
          (end_of w start heights n k prev blocks ws qs)
  unfolding prove_periods read_periods
  Told-periods w start heights last n k zero prev blocks ws p s qs same at_prev is_last room =
      absurd (omega arith)
  Told-periods w start heights last zero k (suc rounds) prev blocks ws p s (q, _) same at_prev
        is_last room =
      Told-last w start heights last k rounds prev blocks ws p s q same at_prev (omega arith)
  Told-periods w start heights last (suc n) k (suc rounds) prev blocks ws p s (q, qs) same at_prev
        is_last room =
      let goes_on : (k == last) ≡ false = ground arith in
      let (p', produced, after, lc, _) =
        Produces-period w start heights last k prev blocks ws p s q same at_prev in
      let s' = after_period s q.headers q.work q.payments in
      let reads =
        read_after w start heights k prev blocks ws p p' s q 0 at_prev (omega arith) after in
      let rest =
        Told-periods w start heights last n (suc k) rounds (last_hash prev q.headers)
          (blocks_after q) (ws ++ addresses q.payments) p' s' qs after
          (ap (λ h. last_hash h q.headers) at_prev) (omega arith) (omega arith) in
      let here = period_items q (u32 0 ∷ []) in
      record {
        host = rest.host;
        circuit = rest.circuit;
        items = here ++ rest.items;
        written =
            Produces-bind (prove_period w start heights last k p) _ here rest.items p' rest.host
              (rw goes_on at produced) rest.written;
        read = rw (append_assoc here rest.items (u32 1 ∷ [])) (
            Reads-bind (read_period s) _ here (rest.items ++ u32 1 ∷ []) (s', 0) rest.circuit reads
              rest.read);
        blocks = rest.blocks;
        withdrawals = rest.withdrawals;
        in_step = rest.in_step;
        lc_block = rest.lc_block;
        last_period = rest.last_period;
        last_block = rest.last_block;
        last_height = rest.last_height;
      }

  -- The circuit's loop reads the periods that the operator's loop wrote, up to the mark of the end: it
  -- stops at the operator's last period and block, holds the same block hashes and withdrawals and
  -- the same count, and has the operator's light client block hash and withdrawal root. The node and
  -- the database give each period linked and valid headers, more than three, and payments of the
  -- bridge amount in the blocks so far; there is room in the trees, and there are no more periods
  -- than rounds.
  pub read_periods-prove_periods :
      (w : World) (start : ℕ) (heights : List ℕ) (last n k rounds : ℕ) (prev : Bytes)
      (blocks ws : List Bytes) (p : Proved) (s : Periods) (past : List Item)
      → (qs : Accounts w start heights (suc n) k prev blocks ws) → InStep blocks ws p s
      → s.cur_block_hash ≡ prev
      → last ≡ k + n
      → n < rounds
      → (p' : Proved) × (s' : Periods) × (t : e.State) × (t' : e.State) × (blocks' : List Bytes)
        × (ws' : List Bytes) × ((prove_periods w start heights last (suc n) k p >>= λ p'.
                run (e.write_u32 1) >>= λ _. pure p')
              (i.tape past [])
            ≡ (ok p', t))
        × (read_periods rounds k s t ≡ some (s', t'))
        × InStep blocks' ws' p' s'
        × (s'.last_period ≡ last)
        × (s'.cur_block_hash ≡ tip_of w start heights (suc n) k prev blocks ws qs)
        × (p'.end_height ≡ end_of w start heights n k prev blocks ws qs)
        × (s'.lc_blockhash ≡ p'.lc_blockhash)
        × (root withdrawal_merkle_tree_depth p'.withdrawal_mt ≡ some s'.withdrawal_mt.root)
  read_periods-prove_periods w start heights last n k rounds prev blocks ws p s past qs same at_prev
        is_last room =
      let told =
        Told-periods w start heights last n k rounds prev blocks ws p s qs same at_prev is_last
          room in
      let end : Produces (run (e.write_u32 1) >>= λ _. pure told.host) (u32 1 ∷ []) told.host =
        Produces-bind-nil (run (e.write_u32 1)) _ (u32 1 ∷ []) tt told.host
          (Produces-run (e.write_u32 1) (u32 1 ∷ []) (Writes-u32 1)) (Produces-pure told.host) in
      let both =
        Produces-bind (prove_periods w start heights last (suc n) k p)
          (λ p'. run (e.write_u32 1) >>= λ _. pure p') told.items (u32 1 ∷ []) told.host told.host
          told.written end in
      let items = told.items ++ u32 1 ∷ [] in
      (
        told.host,
        told.circuit,
        i.tape past items,
        i.tape (past ++ items) [],
        told.blocks,
        told.withdrawals,
        both.on past [],
        rw (append-nil items) at (told.read.run past []),
        told.in_step,
        told.last_period,
        told.last_block,
        told.last_height,
        sym told.lc_block,
        root-Built withdrawal_merkle_tree_depth told.host.withdrawal_mt told.withdrawals
              told.in_step.host_withdrawals
            ∙ ap some (sym told.in_step.circuit_withdrawals.root),
      )
