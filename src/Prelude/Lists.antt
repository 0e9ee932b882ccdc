-- ===== src/Prelude/Lists.antt =====
-- Lists measured by native numbers, and predicates on lists by recursion.
use Prim.Native.Nat.{ℕ, zero, suc, ◌+◌}
use mathlib.Core.Path.{◌≡◌, refl, sym, ◌∙◌}
use mathlib.Core.Bool.{Bool, true, false, ◌&&◌, ◌||◌, Bool-set}
use mathlib.Core.List.{List, [], ◌∷◌, ◌++◌, Perm, foldr, map}
use mathlib.Core.List.Perm
use native.Mathlib.Nat.{ℕ_set}
use native.Mathlib.Omega.{arith}

module _ {ℓ} {A : Type ℓ} where
  abbrev pub length : List A → ℕ
  length [] = 0
  length (x ∷ xs) = suc (length xs)

  abbrev pub take : ℕ → List A → List A
  take zero xs = []
  take (suc n) [] = []
  take (suc n) (x ∷ xs) = x ∷ take n xs

  abbrev pub drop : ℕ → List A → List A
  drop zero xs = xs
  drop (suc n) [] = []
  drop (suc n) (x ∷ xs) = drop n xs

  abbrev pub is_empty : List A → Bool
  is_empty [] = true
  is_empty (x ∷ xs) = false

  abbrev pub any : (A → Bool) → List A → Bool
  any p = foldr (λ x b. p x || b) false

  abbrev pub all : (A → Bool) → List A → Bool
  all p = foldr (λ x b. p x && b) true

  abbrev pub sum_by : (A → ℕ) → List A → ℕ
  sum_by f = foldr (λ x n. f x + n) 0

  pub length-append : (xs ys : List A) → length (xs ++ ys) ≡ length xs + length ys
  length-append [] ys = omega arith
  length-append (x ∷ xs) ys = omega (arith, length-append xs ys)

abbrev pub All {ℓ κ} : {A : Type ℓ} → (A → Type κ) → List A → Type κ
All P [] = Unit
All P (x ∷ xs) = P x × All P xs

-- Every element is related to all that follow it.
abbrev pub Ordered {ℓ} : {A : Type ℓ} → (A → A → Bool) → List A → Type 0
Ordered r [] = Unit
Ordered r (x ∷ xs) = All (λ y. r x y ≡ true) xs × Ordered r xs

module _ {ℓ} {A : Type ℓ} {xs ys : List A} (p : Perm xs ys) where
  pub any-perm : (q : A → Bool) → any q xs ≡ any q ys
  any-perm q = Perm.foldr-eq Bool-set (λ x b. q x || b) (λ x y b. ground arith) p false

  pub all-perm : (q : A → Bool) → all q xs ≡ all q ys
  all-perm q = Perm.foldr-eq Bool-set (λ x b. q x && b) (λ x y b. ground arith) p true

  pub sum_by-perm : (f : A → ℕ) → sum_by f xs ≡ sum_by f ys
  sum_by-perm f = Perm.foldr-eq ℕ_set (λ x n. f x + n) (λ x y n. omega arith) p 0

module _ {ℓ} {A : Type ℓ} (q : A → Bool) where
  pub All-of_all : (xs : List A) → all q xs ≡ true → All (λ x. q x ≡ true) xs
  All-of_all [] h = tt
  All-of_all (x ∷ xs) h = (ground arith, All-of_all xs (ground arith))

  pub all_of_All : (xs : List A) → All (λ x. q x ≡ true) xs → all q xs ≡ true
  all_of_All [] h = refl
  all_of_All (x ∷ xs) h = ground (arith, all_of_All xs h.1)

  pub All-perm : {xs ys : List A} → Perm xs ys → All (λ x. q x ≡ true) xs → All (λ x. q x ≡ true) ys
  All-perm {xs} {ys} p h = All-of_all ys (sym (all-perm p q) ∙ all_of_All xs h)

module _ {ℓ κ} {A : Type ℓ} {P Q : A → Type κ} (f : (x : A) → P x → Q x) where
  pub All-map : (xs : List A) → All P xs → All Q xs
  All-map [] h = tt
  All-map (x ∷ xs) h = (f x h.0, All-map xs h.1)

module _ {ℓ κ μ} {A : Type ℓ} {B : Type κ} (P : B → Type μ) (f : A → B) where
  pub All-of_map : (xs : List A) → All P (map f xs) → All (λ x. P (f x)) xs
  All-of_map [] h = tt
  All-of_map (x ∷ xs) h = (h.0, All-of_map xs h.1)

  pub All-to_map : (xs : List A) → All (λ x. P (f x)) xs → All P (map f xs)
  All-to_map [] h = tt
  All-to_map (x ∷ xs) h = (h.0, All-to_map xs h.1)

module _ {ℓ} {A : Type ℓ} where
  sum_by-one : (xs : List A) → sum_by (λ x. 1) xs ≡ length xs
  sum_by-one [] = refl
  sum_by-one (x ∷ xs) = omega (arith, sum_by-one xs)

  pub length-perm : {xs ys : List A} → Perm xs ys → length xs ≡ length ys
  length-perm {xs} {ys} p = sym (sum_by-one xs) ∙ sum_by-perm p (λ x. 1) ∙ sum_by-one ys

  pub length-map {κ} : {B : Type κ} (f : A → B) (xs : List A) → length (map f xs) ≡ length xs
  length-map f [] = refl
  length-map f (x ∷ xs) = omega (arith, length-map f xs)
