-- ===== src/Circuit/Work/Target.antt =====
-- `decode_compact_target` against Bitcoin's compact form: a mantissa of three bytes and a base-256
-- exponent.
use clementine_citeria.Common.{
  ℕ, zero, suc, ◌+◌, ◌-◌, ◌*◌, ◌/◌, ◌%◌, ◌^◌, ◌<◌, ◌≤◌, ◌≡◌, ◌≢◌, refl, arith, [], ◌∷◌, none, some,
  length, All, get_or, set?, replicate, leb, if◌then◌else◌, ap, ◌∙◌, false,
}
use clementine_citeria.Common.Bytes.{Bytes, IsByte, IsHash}
use clementine_citeria.Common.Words.{from_le_bytes}
use clementine_citeria.Circuit.Work.{decode_compact_target, place_small, place_large, byte_at}
use native.Mathlib.Nat.{pow-suc}
use native.Mathlib.Decide.{dec_lt}
use native.Mathlib.Numerals.{towards_suc}

-- The documented target of Bitcoin's compact form with the exponent `e` and the mantissa `v`, where
-- it is below 2 ^ 256 (`Target::from_compact` of the crate `bitcoin`). The mantissa is signed, and a
-- negative one gives zero.
abbrev pub compact_value : ℕ → ℕ → ℕ
compact_value e v =
    let m = if leb e 3 then v / 256 ^ (3 - e) else v in
    if leb 0x800000 m then 0 else m * 256 ^ (e - 3)

abbrev pub mantissa : ℕ → ℕ → ℕ → ℕ
mantissa b0 b1 b2 = b2 * 2 ^ 16 + b1 * 2 ^ 8 + b0

-- What a write into a byte array does to its value.
record Written (xs : Bytes) (p v : ℕ) (ys : Bytes) : Type 0 where
  len : length ys ≡ length xs
  bytes : All IsByte ys
  value : from_le_bytes ys ≡ from_le_bytes xs + v * 256 ^ p
  others : (q : ℕ) → q ≢ p → get_or ys q 0 ≡ get_or xs q 0

set?-Written :
    (xs : Bytes) (p v : ℕ)
    → p < length xs
    → get_or xs p 0 ≡ 0
    → All IsByte xs
    → v < 256
    → (ys : Bytes) × (set? xs p v ≡ some ys) × Written xs p v ys
unfolding from_le_bytes
set?-Written [] p v h z b hv = absurd (omega arith)
set?-Written (x ∷ xs) zero v h z (bx, b) hv =
    (v ∷ xs, refl, record { len = refl; bytes = (hv, b); value = omega arith; others = other })
  where
    other : (q : ℕ) → q ≢ 0 → get_or (v ∷ xs) q 0 ≡ get_or (x ∷ xs) q 0
    other zero ne = absurd (ne refl)
    other (suc q) ne = refl
set?-Written (x ∷ xs) (suc p) v h z (bx, b) hv =
    let (ys, e, w) = set?-Written xs p v (omega arith) z b hv in
    (
      x ∷ ys,
      rw e,
      record {
        len = ap suc w.len;
        bytes = (bx, w.bytes);
        value = omega (arith, w.value, ap (λ (t : ℕ). v * t) (pow-suc 256 p));
        others = other ys w;
      },
    )
  where
    other :
        (ys : Bytes)
        → Written xs p v ys
        → (q : ℕ) → q ≢ suc p
        → get_or (x ∷ ys) q 0 ≡ get_or (x ∷ xs) q 0
    other ys w zero ne = refl
    other ys w (suc q) ne = w.others q (λ e. ne (ap suc e))

set?-outside : (xs : Bytes) (p v : ℕ) → length xs ≤ p → set? xs p v ≡ none
set?-outside [] p v h = refl
set?-outside (x ∷ xs) zero v h = absurd (omega arith)
set?-outside (x ∷ xs) (suc p) v h = rw (set?-outside xs p v (omega arith))

zeros-value : (n : ℕ) → from_le_bytes (replicate n 0) ≡ 0
unfolding from_le_bytes
zeros-value zero = refl
zeros-value (suc n) = omega (arith, zeros-value n)

zeros-get : (n p : ℕ) → get_or {A = ℕ} (replicate n 0) p 0 ≡ 0
zeros-get zero p = refl
zeros-get (suc n) zero = refl
zeros-get (suc n) (suc p) = zeros-get n p

zeros-bytes : (n : ℕ) → All IsByte (replicate n 0)
zeros-bytes zero = tt
zeros-bytes (suc n) = (omega arith, zeros-bytes n)

-- Three writes at `p`, `p + 1` and `p + 2`.
three_writes :
    (p x y z : ℕ)
    → p + 2 < 32
    → x < 256
    → y < 256
    → z < 256
    → (a b t : Bytes) × (set? (replicate 32 0) p x ≡ some a)
      × (set? a (p + 1) y ≡ some b)
      × (set? b (p + 2) z ≡ some t)
      × IsHash t
      × (from_le_bytes t ≡ x * 256 ^ p + y * 256 ^ (p + 1) + z * 256 ^ (p + 2))
three_writes p x y z h hx hy hz =
    let (a, ea, wa) =
      set?-Written (replicate 32 0) p x (omega arith) (zeros-get 32 p) (zeros-bytes 32) hx in
    let (b, eb, wb) =
      set?-Written a (p + 1) y (omega (arith, wa.len))
        (wa.others (p + 1) (omega arith) ∙ zeros-get 32 (p + 1)) wa.bytes hy in
    let (t, et, wt) =
      set?-Written b (p + 2) z (omega (arith, wa.len, wb.len))
        (wb.others (p + 2) (omega arith) ∙ (wa.others (p + 2) (omega arith) ∙ zeros-get 32 (p + 2)))
        wb.bytes hz in
    (
      a,
      b,
      t,
      ea,
      eb,
      et,
      (omega (arith, wa.len, wb.len, wt.len), wt.bytes),
      omega (arith, wa.value, wb.value, wt.value, zeros-value 32),
    )

-- A base-256 number of three digits over a power.
digits_value :
    (p b0 b1 b2 : ℕ)
    → b0 * 256 ^ p + b1 * 256 ^ (p + 1) + b2 * 256 ^ (p + 2) ≡ mantissa b0 b1 b2 * 256 ^ p
digits_value p b0 b1 b2 =
    let one : 256 ^ (p + 1) ≡ 256 * 256 ^ p = simp towards_suc (omega (arith, pow-suc 256 p)) in
    let two : 256 ^ (p + 2) ≡ 65536 * 256 ^ p =
      simp towards_suc (omega (arith, pow-suc 256 (suc p), pow-suc 256 p)) in
    omega (arith, ap (λ (t : ℕ). b1 * t) one, ap (λ (t : ℕ). b2 * t) two)

-- From exponent 4 to 32 the decoded target is the mantissa times a power of 256; its sign is not
-- looked at.
pub decode_compact_target-large :
    (b0 b1 b2 b3 : ℕ)
    → b0 < 256
    → b1 < 256
    → b2 < 256
    → 3 < b3
    → b3 ≤ 32
    → (target : Bytes) × (decode_compact_target (b0 ∷ b1 ∷ b2 ∷ b3 ∷ []) ≡ some target)
      × IsHash target
      × (from_le_bytes target ≡ mantissa b0 b1 b2 * 256 ^ (b3 - 3))
unfolding decode_compact_target place_large
decode_compact_target-large b0 b1 b2 b3 h0 h1 h2 low high =
    let big : leb b3 3 ≡ false = ground arith in
    let x : mantissa b0 b1 b2 / 1 % 256 ≡ b0 = omega arith in
    let y : mantissa b0 b1 b2 / 256 % 256 ≡ b1 = omega arith in
    let z : mantissa b0 b1 b2 / 65536 % 256 ≡ b2 = omega arith in
    let p0 : b3 - 3 + 0 ≡ b3 - 3 = omega arith in
    let (a, b, t, ea, eb, et, hash, value) =
      three_writes (b3 - 3) b0 b1 b2 (omega arith) h0 h1 h2 in
    (t, rw (big, x, y, z, p0, ea, eb, et), hash, value ∙ digits_value (b3 - 3) b0 b1 b2)

-- Above exponent 3, Bitcoin's target of a mantissa that is not negative.
pub compact_value-positive :
    (e v : ℕ) → 3 < e → v < 0x800000 → compact_value e v ≡ v * 256 ^ (e - 3)
compact_value-positive e v h pos = ground arith

-- Above exponent 3, Bitcoin's target of a negative mantissa.
pub compact_value-negative : (e v : ℕ) → 3 < e → 0x800000 ≤ v → compact_value e v ≡ 0
compact_value-negative e v h neg = ground arith

place_large-outside :
    (n i b3 v : ℕ) (t : Bytes)
    → length t ≡ 32
    → 32 ≤ b3 - 3 + i
    → place_large (suc n) i b3 v t ≡ none
unfolding place_large
place_large-outside n i b3 v t len h = rw (set?-outside t (b3 - 3 + i) _ (omega arith))

length-set? :
    (xs : Bytes) (p v : ℕ)
    → p < length xs
    → (ys : Bytes) × (set? xs p v ≡ some ys) × (length ys ≡ length xs)
length-set? [] p v h = absurd (omega arith)
length-set? (x ∷ xs) zero v h = (v ∷ xs, refl, refl)
length-set? (x ∷ xs) (suc p) v h =
    let (ys, e, len) = length-set? xs p v (omega arith) in (x ∷ ys, rw e, ap suc len)

place_large-panics :
    (n i b3 v : ℕ) (t : Bytes)
    → length t ≡ 32
    → 32 ≤ b3 - 3 + (i + n)
    → place_large (suc n) i b3 v t ≡ none
place_large-panics zero i b3 v t len h = place_large-outside zero i b3 v t len (omega arith)
place_large-panics (suc n) i b3 v t len h = elim (dec_lt (b3 - 3 + i) 32) [
  | yes inside ↦
      let (ys, e, len') = length-set? t (b3 - 3 + i) _ (omega arith) in
      unfold_round n i b3 v t ys e (place_large-panics n (suc i) b3 v ys (len' ∙ len) (omega arith))
  | no outside ↦ place_large-outside (suc n) i b3 v t len (omega arith)
]
  where
    unfold_round :
        (n i b3 v : ℕ) (t ys : Bytes)
        → set? t (b3 - 3 + i) (byte_at v (8 * i)) ≡ some ys
        → place_large (suc n) (suc i) b3 v ys ≡ none
        → place_large (suc (suc n)) i b3 v t ≡ none
    unfold_round n i b3 v t ys e r = unfold place_large in rw e r

-- Beyond exponent 32 the code panics: it writes outside of the 32 bytes.
pub decode_compact_target-panics :
    (b0 b1 b2 b3 : ℕ) → 32 < b3 → decode_compact_target (b0 ∷ b1 ∷ b2 ∷ b3 ∷ []) ≡ none
unfolding decode_compact_target
decode_compact_target-panics b0 b1 b2 b3 h =
    let big : leb b3 3 ≡ false = ground arith in
    rw (big, place_large-panics 2 0 b3 (mantissa b0 b1 b2) (replicate 32 0) refl (omega arith))

compact_value-small :
    (v : ℕ)
    → v < 2 ^ 24
    → (compact_value 1 v ≡ v / 65536) × (compact_value 2 v ≡ v / 256) × (compact_value 3 v ≤ v)
compact_value-small v h = (ground arith, ground arith, ground arith)

-- At the exponents 1 to 3 the code places the mantissa at the wrong end of the little-endian
-- array: whenever the mantissa's top byte is set, the decoded target is not Bitcoin's.
pub decode_compact_target-small_ne :
    (b0 b1 b2 b3 : ℕ)
    → b0 < 256
    → b1 < 256
    → b2 < 256
    → 0 < b3
    → b3 ≤ 3
    → 0 < b2
    → (target : Bytes) × (decode_compact_target (b0 ∷ b1 ∷ b2 ∷ b3 ∷ []) ≡ some target)
      × (from_le_bytes target ≢ compact_value b3 (mantissa b0 b1 b2))
unfolding decode_compact_target place_small from_le_bytes
decode_compact_target-small_ne b0 b1 b2 zero h0 h1 h2 low high top = absurd (omega arith)
decode_compact_target-small_ne b0 b1 b2 (suc zero) h0 h1 h2 low high top =
    (_, refl, omega (arith, compact_value-small (mantissa b0 b1 b2) (omega arith)))
decode_compact_target-small_ne b0 b1 b2 (suc (suc zero)) h0 h1 h2 low high top =
    (_, refl, omega (arith, compact_value-small (mantissa b0 b1 b2) (omega arith)))
decode_compact_target-small_ne b0 b1 b2 (suc (suc (suc zero))) h0 h1 h2 low high top =
    (_, refl, omega (arith, compact_value-small (mantissa b0 b1 b2) (omega arith)))
decode_compact_target-small_ne b0 b1 b2 (suc (suc (suc (suc n)))) h0 h1 h2 low high top =
    absurd (omega arith)
