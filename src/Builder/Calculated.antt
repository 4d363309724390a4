-- ===== src/Builder/Calculated.antt =====
-- The checked arithmetic of amounts, and `calculate_amount` of core/src/transaction_builder.rs.
use clementine_citeria.Common.{
  ℕ, suc, ◌+◌, ◌*◌, ◌%◌, ◌^◌, ◌<◌, ◌≡◌, refl, sym, ◌∙◌, arith, ltb, Bool-cases, inl, inr,
}
use clementine_citeria.Common.Powers.{pow_mono}
use native.Mathlib.Nat.{pow-suc}
use clementine_citeria.Errors.{Result, ok, panic}
use clementine_citeria.Errors.Binds.{result-inv, ok-eq}
use clementine_citeria.Builder.{amount_add, amount_sub, amount_mul, calculate_amount}

pub amount_sub-inv : (a b : ℕ) {c : ℕ} → amount_sub a b ≡ ok c → a ≡ b + c
unfolding amount_sub
amount_sub-inv a b h = ground arith

pub amount_add-inv : (a b : ℕ) {c : ℕ} → amount_add a b ≡ ok c → c ≡ a + b
unfolding amount_add
amount_add-inv a b h = ground arith

pub amount_mul-inv : (a b : ℕ) {c : ℕ} → amount_mul a b ≡ ok c → c ≡ a * b
unfolding amount_mul
amount_mul-inv a b h = elim (Bool-cases (ltb (a * b) (2 ^ 64))) [
  | inl fits ↦ sym (ok-eq (rw fits at h))
  | inr over ↦ absurd (panic-ne (rw over at h))
]
  where
    panic-ne : {c : ℕ} → ◌≡◌ {A = Result ℕ} panic (ok c) → ⊥
    panic-ne h = cc

pub calculate_amount-inv :
    (d value fee : ℕ) {v : ℕ}
    → d < 64
    → calculate_amount d value fee ≡ ok v
    → v ≡ (value + fee) * 2 ^ d
unfolding calculate_amount
calculate_amount-inv d value fee h e =
    let (total, e1, e2) = result-inv (amount_add value fee) _ e in
    let low : d % 2 ^ 32 ≡ d = omega arith in
    let small : 2 ^ d % 2 ^ 64 ≡ 2 ^ d = omega (arith, pow_mono d 64 h) in
    let e3 = amount_mul-inv total _ e2 in e3 ∙ rw (low, small, amount_add-inv value fee e1) refl

pub calculate_amount-double :
    (d value fee : ℕ) {v w : ℕ}
    → suc d < 64
    → calculate_amount (suc d) value fee ≡ ok w
    → calculate_amount d value fee ≡ ok v
    → w ≡ v + v
calculate_amount-double d value fee h ew ev =
    let e1 = calculate_amount-inv (suc d) value fee h ew in
    let e2 = calculate_amount-inv d value fee (omega arith) ev in
    e1 ∙ rw (pow-suc 2 d) (grind (arith, e2))
