-- ===== src/Errors/Collect.antt =====
-- Lists of results: what `collect_map` took from each element and what it gave.
use clementine_citeria.Common.{
  ℕ, zero, suc, ◌≡◌, refl, ap, sym, ◌∙◌, subst, List, [], ◌∷◌, map, some, none, get_elem?, some-eq,
}
use clementine_citeria.Errors.{Result, ok, unwrap, collect_map}
use clementine_citeria.Errors.Binds.{result-inv, ok-eq}

pub unwrap-inv :
    {A : Type 0} (xs : List A) (i : ℕ) {a : A}
    → unwrap (get_elem? xs i) ≡ ok a
    → get_elem? xs i ≡ some a
unwrap-inv [] i h = cc
unwrap-inv (x ∷ xs) zero h = cc
unwrap-inv (x ∷ xs) (suc i) h = unwrap-inv xs i h

-- The image of each element of a list.
pub collect_map-inv :
    {A B : Type 0} (f : A → Result B) (xs : List A) (j : ℕ) {ys : List B} {x : A}
    → collect_map f xs ≡ ok ys
    → get_elem? xs j ≡ some x
    → (y : B) × (f x ≡ ok y) × (get_elem? ys j ≡ some y)
unfolding collect_map
collect_map-inv f [] j {x = x} h e = absurd (none-ne e)
  where
    none-ne : none ≡ some x → ⊥
    none-ne e = cc
collect_map-inv f (z ∷ xs) zero {ys} {x} h e =
    let (y, e1, h1) = result-inv (f z) _ h in
    let (rest, e2, h2) = result-inv (collect_map f xs) _ h1 in
    let same : z ≡ x = cc in
    (y, subst (λ t. f t ≡ ok y) same e1, ap (λ l. get_elem? l 0) (sym (ok-eq h2)))
collect_map-inv f (z ∷ xs) (suc j) {ys} {x} h e =
    let (y, e1, h1) = result-inv (f z) _ h in
    let (rest, e2, h2) = result-inv (collect_map f xs) _ h1 in
    let (w, e3, e4) = collect_map-inv f xs j e2 e in
    (w, e3, ap (λ l. get_elem? l (suc j)) (sym (ok-eq h2)) ∙ e4)

-- Where each element comes from.
pub collect_map-from :
    {A B : Type 0} (f : A → Result B) (xs : List A) (j : ℕ) {ys : List B} {y : B}
    → collect_map f xs ≡ ok ys
    → get_elem? ys j ≡ some y
    → (x : A) × (get_elem? xs j ≡ some x) × (f x ≡ ok y)
unfolding collect_map
collect_map-from f [] j {y = y} h e = absurd (none-ne (ap (λ l. get_elem? l j) (ok-eq h) ∙ e))
  where
    none-ne : none ≡ some y → ⊥
    none-ne e = cc
collect_map-from f (x ∷ xs) zero {ys} {y} h e =
    let (z, e1, h1) = result-inv (f x) _ h in
    let (rest, e2, h2) = result-inv (collect_map f xs) _ h1 in
    let same : z ≡ y = some-eq (ap (λ l. get_elem? l 0) (ok-eq h2) ∙ e) in
    (x, refl, e1 ∙ ap ok same)
collect_map-from f (x ∷ xs) (suc j) {ys} {y} h e =
    let (z, e1, h1) = result-inv (f x) _ h in
    let (rest, e2, h2) = result-inv (collect_map f xs) _ h1 in
    collect_map-from f xs j e2 (ap (λ l. get_elem? l (suc j)) (ok-eq h2) ∙ e)

pub collect_map-ok :
    {A B : Type 0} (f : A → Result B) (xs : List A)
    → ((j : ℕ) (x : A) → get_elem? xs j ≡ some x → (y : B) × (f x ≡ ok y))
    → (ys : List B) × (collect_map f xs ≡ ok ys)
unfolding collect_map
collect_map-ok f [] all = ([], refl)
collect_map-ok f (x ∷ xs) all =
    let (y, e) = all 0 x refl in
    let (ys, e') = collect_map-ok f xs (λ j. all (suc j)) in (y ∷ ys, rw (e, e') refl)

pub get_elem?-map :
    {A B : Type 0} (f : A → B) (xs : List A) (j : ℕ) {y : B}
    → get_elem? (map f xs) j ≡ some y
    → (x : A) × (get_elem? xs j ≡ some x) × (f x ≡ y)
get_elem?-map f [] j h = cc
get_elem?-map f (x ∷ xs) zero h = (x, refl, some-eq h)
get_elem?-map f (x ∷ xs) (suc j) h = get_elem?-map f xs j h
