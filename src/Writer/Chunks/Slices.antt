-- ===== src/Writer/Chunks/Slices.antt =====
-- Slices of bytes.
use clementine_citeria.Common.{
  ℕ, zero, suc, ◌+◌, ◌-◌, ◌≤◌, ◌≡◌, refl, ap, arith, [], ◌∷◌, ◌++◌, length, take, drop, replicate,
  All,
}
use clementine_citeria.Common.Bytes.{Bytes, IsByte}

pub length-take : (n : ℕ) (xs : Bytes) → n ≤ length xs → length (take n xs) ≡ n
length-take zero xs h = refl
length-take (suc n) [] h = absurd (omega arith)
length-take (suc n) (x ∷ xs) h = ap suc (length-take n xs (omega arith))

pub length-drop : (n : ℕ) (xs : Bytes) → length (drop n xs) ≡ length xs - n
length-drop zero xs = omega arith
length-drop (suc n) [] = omega arith
length-drop (suc n) (x ∷ xs) = omega (arith, length-drop n xs)

pub take-append : (n : ℕ) (xs ys : Bytes) → length xs ≡ n → take n (xs ++ ys) ≡ xs
take-append zero [] ys h = refl
take-append zero (x ∷ xs) ys h = absurd (omega arith)
take-append (suc n) [] ys h = absurd (omega arith)
take-append (suc n) (x ∷ xs) ys h = ap (λ t. x ∷ t) (take-append n xs ys (omega arith))

pub All-take : (n : ℕ) (xs : Bytes) → All IsByte xs → All IsByte (take n xs)
All-take zero xs h = tt
All-take (suc n) [] h = tt
All-take (suc n) (x ∷ xs) (hx, h) = (hx, All-take n xs h)

pub All-drop : (n : ℕ) (xs : Bytes) → All IsByte xs → All IsByte (drop n xs)
All-drop zero xs h = h
All-drop (suc n) [] h = tt
All-drop (suc n) (x ∷ xs) (hx, h) = All-drop n xs h

pub All-zeros : (n : ℕ) → All IsByte (replicate n 0)
All-zeros zero = tt
All-zeros (suc n) = (omega arith, All-zeros n)

pub All-join : (xs ys : Bytes) → All IsByte xs → All IsByte ys → All IsByte (xs ++ ys)
All-join [] ys h k = k
All-join (x ∷ xs) ys (hx, h) k = (hx, All-join xs ys h k)

-- A slice and what is left.
pub take-drop_next : (i n : ℕ) (xs : Bytes) → take n (drop i xs) ++ drop (i + n) xs ≡ drop i xs
take-drop_next i n xs = rw (drop-add i n xs) (take-drop n (drop i xs))
  where
    take-drop : (n : ℕ) (xs : Bytes) → take n xs ++ drop n xs ≡ xs
    take-drop zero xs = refl
    take-drop (suc n) [] = refl
    take-drop (suc n) (x ∷ xs) = ap (λ t. x ∷ t) (take-drop n xs)

    drop-nil : (n : ℕ) → drop {A = ℕ} n [] ≡ []
    drop-nil zero = refl
    drop-nil (suc n) = refl

    drop-add : (i n : ℕ) (xs : Bytes) → drop (i + n) xs ≡ drop n (drop i xs)
    drop-add zero n xs = let e : 0 + n ≡ n = omega arith in rw e
    drop-add (suc i) n [] = rw (drop-nil (suc i + n), drop-nil n)
    drop-add (suc i) n (x ∷ xs) =
        let e : suc i + n ≡ suc (i + n) = omega arith in rw e (drop-add i n xs)

pub drop-all : (n : ℕ) (xs : Bytes) → length xs ≤ n → drop n xs ≡ []
drop-all zero [] h = refl
drop-all zero (x ∷ xs) h = absurd (omega arith)
drop-all (suc n) [] h = refl
drop-all (suc n) (x ∷ xs) h = drop-all n xs (omega arith)
