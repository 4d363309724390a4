-- ===== src/Circuit/Work/Threshold.antt =====
-- The comparison of a hash with its target, the work of a target, and the whole check of a header.
use clementine_citeria.Common.{
  ℕ, zero, suc, ◌+◌, ◌-◌, ◌*◌, ◌/◌, ◌%◌, ◌^◌, ◌<◌, ◌≤◌, ◌≡◌, ◌≢◌, refl, ◌⊎◌, inl, inr, arith, [],
  ◌∷◌, none, some, All, get_or, take, take-all, leb, ltb, if◌then◌else◌, ◌>>=◌, ap, ◌∙◌, true,
  false, Bool, assert, >>=-eq-some, some-eq,
}
use clementine_citeria.Common.Bytes.{Bytes, IsByte, IsHash}
use clementine_citeria.Common.Words.{from_le_bytes, from_le_bytes-lt}
use clementine_citeria.Circuit.Work.{
  u256_max, decode_compact_target, check_from, check_hash_valid, calculate_work,
  validate_threshold_and_add_work, validate_threshold_and_subtract_work,
}
use clementine_citeria.Circuit.Work.Target.{
  compact_value, mantissa, decode_compact_target-large, compact_value-positive,
  compact_value-negative,
}
use native.Mathlib.Nat.{pow-suc, div-eq_of_lt-le, div-add-mod', mod-lt, div-add-mod, div-le_self}

-- One more byte of a number, from the low end.
take-value :
    (n : ℕ) (bs : Bytes)
    → from_le_bytes (take (suc n) bs) ≡ from_le_bytes (take n bs) + get_or bs n 0 * 256 ^ n
unfolding from_le_bytes
take-value zero [] = refl
take-value zero (b ∷ bs) = omega arith
take-value (suc n) [] = omega arith
take-value (suc n) (b ∷ bs) =
    omega (arith, take-value n bs, ap (λ (t : ℕ). get_or bs n 0 * t) (pow-suc 256 n))

take-lt : (n : ℕ) (bs : Bytes) → All IsByte bs → from_le_bytes (take n bs) < 256 ^ n
unfolding from_le_bytes
take-lt zero bs h = omega arith
take-lt (suc n) [] h = omega (arith, pow-suc 256 n, take-lt n [] tt)
take-lt (suc n) (b ∷ bs) (hb, h) = omega (arith, pow-suc 256 n, take-lt n bs h)

-- The top digit decides.
top_digit : (a b w x y : ℕ) → a < w → x < y → a + x * w < b + y * w
top_digit a b w x y ha h = grind arith

leb-top :
    (a b w x y : ℕ)
    → a < w
    → b < w
    → leb (a + x * w) (b + y * w) ≡ (if ltb x y then true else if ltb y x then false else leb a b)
leb-top a b w x y ha hb = elim (compare_cases x y) [
  | inl less ↦ ground (arith, top_digit a b w x y ha less)
  | inr (inl same) ↦ rw same (ground arith)
  | inr (inr more) ↦ ground (arith, top_digit b a w y x hb more)
]
  where
    compare_cases : (x y : ℕ) → (x < y) ⊎ ((x ≡ y) ⊎ (y < x))
    compare_cases x y = ground arith

check_from-leb :
    (n : ℕ) (hash target : Bytes)
    → All IsByte hash
    → All IsByte target
    → check_from n hash target
      ≡ assert (leb (from_le_bytes (take n hash)) (from_le_bytes (take n target)))
unfolding check_from
check_from-leb zero hash target hh ht = unfold from_le_bytes in refl
check_from-leb (suc n) hash target hh ht =
    rw
      (
        take-value n hash,
        take-value n target,
        leb-top (from_le_bytes (take n hash)) (from_le_bytes (take n target)) (256 ^ n)
            (get_or hash n 0) (get_or target n 0) (take-lt n hash hh) (take-lt n target ht),
        check_from-leb n hash target hh ht,
      )
      (ground arith)

-- The loop over the bytes accepts exactly the hashes that are at most the target, as numbers.
pub check_hash_valid-leb :
    (hash target : Bytes)
    → IsHash hash
    → IsHash target
    → check_hash_valid hash target ≡ assert (leb (from_le_bytes hash) (from_le_bytes target))
unfolding check_hash_valid
check_hash_valid-leb hash target hh ht =
    check_from-leb 32 hash target hh.1 ht.1 ∙ rw (take-all 32 hash hh.0, take-all 32 target ht.0)

-- An odd number above 1 divides no power of two.
odd-not_div : (k n q : ℕ) → n % 2 ≡ 1 → 1 < n → n * q ≢ 2 ^ k
odd-not_div zero n q odd big e = absurd (one_not q e)
  where
    one_not : (q : ℕ) → n * q ≡ 2 ^ 0 → ⊥
    one_not zero e = omega arith
    one_not (suc q) e = grind arith
odd-not_div (suc k) n q odd big e =
    let even : (n * q) % 2 ≡ 0 = omega (arith, pow-suc 2 k) in
    let half : q % 2 ≡ 0 = even_factor n q odd even in odd-not_div k n (q / 2) odd big (halved half)
  where
    even_factor : (n q : ℕ) → n % 2 ≡ 1 → (n * q) % 2 ≡ 0 → q % 2 ≡ 0
    even_factor n q odd even =
        let split : n ≡ 2 * (n / 2) + 1 = omega arith in
        let product : n * q ≡ 2 * (n / 2 * q) + q = omega (arith, ap (λ (t : ℕ). t * q) split) in
        omega arith

    halved : q % 2 ≡ 0 → n * (q / 2) ≡ 2 ^ k
    halved half =
        let split : q ≡ 2 * (q / 2) = omega arith in
        omega (arith, ap (λ (t : ℕ). n * t) split, pow-suc 2 k)

div-pred : (w d : ℕ) → 0 < d → w % d ≢ 0 → (w - 1) / d ≡ w / d
div-pred w d pos h =
    div-eq_of_lt-le d (omega (arith, div-add-mod' w d))
      (omega (arith, div-add-mod' w d, mod-lt w pos))

-- Bitcoin's work of a target: the expected number of hashes, 2 ^ 256 / (target + 1).
abbrev pub bitcoin_work : ℕ → ℕ
bitcoin_work target = 2 ^ 256 / (target + 1)

-- On a target that is an even number above 0 the code's division gives exactly Bitcoin's work.
pub calculate_work-bitcoin :
    (target : Bytes)
    → IsHash target
    → from_le_bytes target % 2 ≡ 0
    → 0 < from_le_bytes target
    → calculate_work target ≡ bitcoin_work (from_le_bytes target)
unfolding calculate_work
calculate_work-bitcoin target h even pos =
    let t = from_le_bytes target in
    let bounded : t < 2 ^ 256 = rw h.0 at (from_le_bytes-lt target h.1) in
    let room : ltb t u256_max ≡ true = ground arith in
    rw room (div-pred (2 ^ 256) (t + 1) (omega arith) (no_remainder t even pos))
  where
    no_remainder : (t : ℕ) → t % 2 ≡ 0 → 0 < t → 2 ^ 256 % (t + 1) ≢ 0
    no_remainder t even pos e =
        odd-not_div 256 (t + 1) (2 ^ 256 / (t + 1)) (omega arith) (omega arith)
          (omega (arith, div-add-mod (2 ^ 256) (t + 1)))

shifted-even : (e v : ℕ) → 3 < e → 0 < v → (v * 256 ^ (e - 3) % 2 ≡ 0) × (0 < v * 256 ^ (e - 3))
shifted-even e v h pos =
    let exp : e - 3 ≡ suc (e - 4) = omega arith in
    rw (exp, pow-suc 256 (e - 4)) (go (256 ^ (e - 4)) (pow-pos (e - 4)))
  where
    pow-pos : (k : ℕ) → 0 < 256 ^ k
    pow-pos zero = omega arith
    pow-pos (suc k) = omega (arith, pow-pos k, pow-suc 256 k)

    go : (w : ℕ) → 0 < w → (v * (w * 256) % 2 ≡ 0) × (0 < v * (w * 256))
    go w hw = let some_work : 0 < v * w = grind arith in (omega arith, omega arith)

-- The check against the unsigned target.
unsigned_threshold :
    (b0 b1 b2 b3 : ℕ) (hash : Bytes) (old : ℕ)
    → b0 < 256
    → b1 < 256
    → b2 < 256
    → 3 < b3
    → b3 ≤ 32
    → 0 < mantissa b0 b1 b2
    → IsHash hash
    → validate_threshold_and_add_work (b0 ∷ b1 ∷ b2 ∷ b3 ∷ []) hash old ≡ (
        if leb (from_le_bytes hash) (mantissa b0 b1 b2 * 256 ^ (b3 - 3))
        then some ((old + bitcoin_work (mantissa b0 b1 b2 * 256 ^ (b3 - 3))) % 2 ^ 256)
        else none)
unfolding validate_threshold_and_add_work
unsigned_threshold b0 b1 b2 b3 hash old h0 h1 h2 low high pos hh =
    let (target, decoded, ht, value) = decode_compact_target-large b0 b1 b2 b3 h0 h1 h2 low high in
    let (even, pos') = shifted-even b3 (mantissa b0 b1 b2) low pos in
    let work = calculate_work-bitcoin target ht (rw value even) (rw value pos') in
    rw (decoded, check_hash_valid-leb hash target hh ht, work, value)
      (split _ (leb (from_le_bytes hash) (mantissa b0 b1 b2 * 256 ^ (b3 - 3))))
  where
    split : (r : ℕ) (b : Bool) → (assert b >>= λ _. some r) ≡ (if b then some r else none)
    split r true = refl
    split r false = refl

-- From exponent 4 to 32 and for a positive mantissa, a header is accepted exactly if its hash, as a
-- number, is at most Bitcoin's target, and then Bitcoin's work of that target is added, modulo
-- 2 ^ 256.
pub validate_threshold_and_add_work_lem :
    (b0 b1 b2 b3 : ℕ) (hash : Bytes) (old : ℕ)
    → b0 < 256
    → b1 < 256
    → b2 < 128
    → 3 < b3
    → b3 ≤ 32
    → 0 < mantissa b0 b1 b2
    → IsHash hash
    → validate_threshold_and_add_work (b0 ∷ b1 ∷ b2 ∷ b3 ∷ []) hash old ≡ (
        if leb (from_le_bytes hash) (compact_value b3 (mantissa b0 b1 b2))
        then some ((old + bitcoin_work (compact_value b3 (mantissa b0 b1 b2))) % 2 ^ 256)
        else none)
validate_threshold_and_add_work_lem b0 b1 b2 b3 hash old h0 h1 h2 low high pos hh =
    rw (compact_value-positive b3 (mantissa b0 b1 b2) low (omega arith))
      (unsigned_threshold b0 b1 b2 b3 hash old h0 h1 (omega arith) low high pos hh)

-- From exponent 4 to 32 and for a negative mantissa, Bitcoin's target is zero, but a header is
-- accepted with every hash that is at most the target that the mantissa has without a sign, and the
-- work of that is added, modulo 2 ^ 256.
pub validate_threshold_and_add_work-negative :
    (b0 b1 b2 b3 : ℕ) (hash : Bytes) (old : ℕ)
    → b0 < 256
    → b1 < 256
    → 128 ≤ b2
    → b2 < 256
    → 3 < b3
    → b3 ≤ 32
    → IsHash hash
    → from_le_bytes hash ≤ mantissa b0 b1 b2 * 256 ^ (b3 - 3)
    → (compact_value b3 (mantissa b0 b1 b2) ≡ 0)
      × (validate_threshold_and_add_work (b0 ∷ b1 ∷ b2 ∷ b3 ∷ []) hash old
          ≡ some ((old + bitcoin_work (mantissa b0 b1 b2 * 256 ^ (b3 - 3))) % 2 ^ 256))
validate_threshold_and_add_work-negative b0 b1 b2 b3 hash old h0 h1 neg h2 low high hh below =
    let accepted : leb (from_le_bytes hash) (mantissa b0 b1 b2 * 256 ^ (b3 - 3)) ≡ true =
      le→leb _ _ below in
    (
      compact_value-negative b3 (mantissa b0 b1 b2) low (omega arith),
      rw accepted at (unsigned_threshold b0 b1 b2 b3 hash old h0 h1 h2 low high (omega arith) hh),
    )
  where
    le→leb : (a b : ℕ) → a ≤ b → leb a b ≡ true
    le→leb a b h = ground arith

-- Subtracting the work of a header that was added gives the old work back.
pub subtract_work-add_work :
    (bits hash : Bytes) (old new : ℕ)
    → old < 2 ^ 256
    → validate_threshold_and_add_work bits hash old ≡ some new
    → validate_threshold_and_subtract_work bits hash new ≡ some old
unfolding validate_threshold_and_add_work validate_threshold_and_subtract_work
subtract_work-add_work bits hash old new small h =
    let (target, decoded, h') = >>=-eq-some (decode_compact_target bits) _ h in
    let (u, valid, e) = >>=-eq-some (check_hash_valid hash target) _ h' in
    rw (decoded, valid) (ap some (back target (some-eq e)))
  where
    back :
        (target : Bytes)
        → (old + calculate_work target) % 2 ^ 256 ≡ new
        → (new + 2 ^ 256 - calculate_work target) % 2 ^ 256 ≡ old
    back target e =
        let bound : calculate_work target ≤ u256_max =
          unfold calculate_work in div-le_self u256_max _ in
        omega arith
