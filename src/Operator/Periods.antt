-- ===== src/Operator/Periods.antt =====
-- The period of a withdrawal and the period whose preimages are revealed, at one block height.
use clementine_citeria.Common.{
  ℕ, suc, ◌+◌, ◌-◌, ◌%◌, ◌^◌, ◌<◌, ◌≤◌, ◌≡◌, refl, ap, sym, ◌∙◌, List, [], ◌∷◌, Option, none, some,
  some-eq, length, ltb, leb, if◌then◌else◌, arith, Bool-cases, inl, inr, true, false,
}
use clementine_citeria.Database.{
  Dbms, DatabaseContent, ok, get_start_block_height, get_period_relative_block_heights,
}
use clementine_citeria.Database.Laws.{Stored, read-bind, bind-ok}
use clementine_citeria.Operator.{
  handle_height, withdrawal_period_from, reveal_period_from, get_current_withdrawal_period,
  get_current_preimage_reveal_period,
}

-- The heights of the ends of the periods grow by at least the blocks that are kept to handle them,
-- and do not overflow.
abbrev pub Spaced : ℕ → ℕ → List ℕ → Type 0
Spaced start low [] = Unit {0}
Spaced start low (h ∷ hs) = (low + 3 ≤ h) × (start + h < 2 ^ 64) × Spaced start h hs

-- Before the window of the first period there is no period to reveal.
reveal_period_from-none :
    (i cur start low : ℕ) (hs : List ℕ)
    → Spaced start low hs
    → cur < start + low
    → reveal_period_from i cur start hs ≡ none
unfolding reveal_period_from
reveal_period_from-none i cur start low [] h small = refl
reveal_period_from-none i cur start low (x ∷ hs) (gap, fits, h) small =
    let later = reveal_period_from-none (suc i) cur start x hs h (omega arith) in
    let top : handle_height start x ≡ start + x - 3 = omega arith in
    let early : leb (start + x - 3) cur ≡ false = ground arith in rw (top, early) later

-- Before the window of the next period, withdrawals fall in it.
withdrawal_period_from-next :
    (i cur start low : ℕ) (hs : List ℕ)
    → Spaced start low hs
    → cur < start + low
    → withdrawal_period_from i cur start hs ≡ (if ltb i (i + length hs) then some i else none)
unfolding withdrawal_period_from
withdrawal_period_from-next i cur start low [] h small = ground arith
withdrawal_period_from-next i cur start low (x ∷ hs) (gap, fits, h) small =
    let top : handle_height start x ≡ start + x - 3 = omega arith in
    let early : ltb cur (start + x - 3) ≡ true = ground arith in
    let more : ltb i (i + suc (length hs)) ≡ true = ground arith in rw (top, early, more) refl

reveal-withdrawal :
    (i k cur start low : ℕ) (hs : List ℕ)
    → Spaced start low hs
    → reveal_period_from i cur start hs ≡ some k
    → withdrawal_period_from i cur start hs
      ≡ (if ltb (suc k) (i + length hs) then some (suc k) else none)
unfolding reveal_period_from withdrawal_period_from
reveal-withdrawal i k cur start low [] h found = absurd (none-ne found)
  where
    none-ne : none ≡ some k → ⊥
    none-ne e = cc
reveal-withdrawal i k cur start low (x ∷ hs) (gap, fits, h) found =
    let top : handle_height start x ≡ start + x - 3 = omega arith in
    let end : (start + x) % 2 ^ 64 ≡ start + x = omega arith in
    let found' = rw (top, end) at found in
    let shift : i + suc (length hs) ≡ suc i + length hs = omega arith in
    elim (Bool-cases (ltb cur (start + x - 3))) [
      | inl early ↦
          let none_later = reveal_period_from-none (suc i) cur start x hs h (ground arith) in
          let not_yet : leb (start + x - 3) cur ≡ false = ground arith in
          absurd (none-ne (rw (not_yet, none_later) at found'))
      | inr begun_already ↦
          let begun : leb (start + x - 3) cur ≡ true = ground arith in
          elim (Bool-cases (ltb cur (start + x))) [
            | inl inside ↦
                let same : i ≡ k = some-eq (rw (begun, inside) at found') in
                let small : cur < start + x = ground arith in
                rw (top, begun_already, ← same, shift)
                  (withdrawal_period_from-next (suc i) cur start x hs h small)
            | inr past ↦
                rw (top, begun_already, shift)
                  (reveal-withdrawal (suc i) k cur start x hs h (rw (begun, past) at found'))
          ]
    ]
  where
    none-ne : none ≡ some k → ⊥
    none-ne e = cc

module _ ⦃d : Dbms⦄ where
  start_is :
      (s : d.Disk) (c : DatabaseContent)
      → Stored s c
      → get_start_block_height s ≡ (ok c.start_block_height, s)
  unfolding get_start_block_height
  start_is s c h = read-bind _ s c h

  heights_are :
      (s : d.Disk) (c : DatabaseContent)
      → Stored s c
      → get_period_relative_block_heights s ≡ (ok c.period_relative_block_heights, s)
  unfolding get_period_relative_block_heights
  heights_are s c h = read-bind _ s c h

  pub withdrawal_is :
      (s : d.Disk) (c : DatabaseContent) (cur : ℕ)
      → Stored s c
      → get_current_withdrawal_period cur s ≡ (
        ok (withdrawal_period_from 0 cur c.start_block_height c.period_relative_block_heights),
        s,
      )
  unfolding get_current_withdrawal_period
  withdrawal_is s c cur h =
      bind-ok get_start_block_height _ s s c.start_block_height (start_is s c h)
      ∙ bind-ok get_period_relative_block_heights _ s s c.period_relative_block_heights
          (heights_are s c h)

  reveal_is :
      (s : d.Disk) (c : DatabaseContent) (cur : ℕ)
      → Stored s c
      → get_current_preimage_reveal_period cur s
        ≡ (ok (reveal_period_from 0 cur c.start_block_height c.period_relative_block_heights), s)
  unfolding get_current_preimage_reveal_period
  reveal_is s c cur h =
      bind-ok get_start_block_height _ s s c.start_block_height (start_is s c h)
      ∙ bind-ok get_period_relative_block_heights _ s s c.period_relative_block_heights
          (heights_are s c h)

  -- While the preimages of the period `k` are revealed, a new withdrawal falls in the period `k + 1`,
  -- or in none after the last: the ends of the periods are at least `MAX_BLOCK_HANDLE_OPS` apart.
  pub reveal_period-withdrawal_period :
      (s : d.Disk) (c : DatabaseContent) (cur k : ℕ)
      → Stored s c
      → Spaced c.start_block_height 0 c.period_relative_block_heights
      → get_current_preimage_reveal_period cur s ≡ (ok (some k), s)
      → get_current_withdrawal_period cur s ≡ (
        ok (if ltb (suc k) (length c.period_relative_block_heights) then some (suc k) else none),
        s,
      )
  reveal_period-withdrawal_period s c cur k h spaced found =
      withdrawal_is s c cur h
      ∙ ap (λ r. (ok r, s))
          (reveal-withdrawal 0 k cur c.start_block_height 0 c.period_relative_block_heights spaced
              (ok-eq (ap (λ r. r.0) (sym (reveal_is s c cur h) ∙ found)))
            ∙ zero_plus)
    where
      ok-eq : {x y : Option ℕ} → ok x ≡ ok y → x ≡ y
      ok-eq e = cc

      zero_plus :
          ◌≡◌ {A = Option ℕ}
            (if ltb (suc k) (0 + length c.period_relative_block_heights)
              then some (suc k)
              else none)
            (if ltb (suc k) (length c.period_relative_block_heights) then some (suc k) else none)
      zero_plus =
          let e : 0 + length c.period_relative_block_heights
              ≡ length c.period_relative_block_heights =
            omega arith in
          rw e refl
