-- ===== src/Sorting/Insertion.antt =====
-- Insertion sort: one sort that meets the assumptions of `Sorter`, for the concrete runs.
use mathlib.Core.List.{Perm}
use mathlib.Core.List.Perm
use syncedfs.Prelude.{
  zero, suc, ◌≡◌, Bool, true, false, List, [], ◌∷◌, All, Ordered, if◌then◌else◌, Bool-cases, inl,
  inr,
}
use syncedfs.Prelude.Int.{ℤ, pos, negsuc}
use syncedfs.Sorting.{Sorter, Agrees}

abbrev may_precede : ℤ → Bool
may_precede (negsuc n) = true
may_precede (pos zero) = true
may_precede (pos (suc n)) = false

module _ {ℓ} {A : Type ℓ} (cmp : A → A → ℤ) where
  unfoldable pub insert : A → List A → List A
  insert x [] = x ∷ []
  insert x (y ∷ ys) = if may_precede (cmp x y) then x ∷ y ∷ ys else y ∷ insert x ys

  unfoldable pub insertion_sort : List A → List A
  unfolding insert
  insertion_sort [] = []
  insertion_sort (x ∷ xs) = insert x (insertion_sort xs)

  choose_perm :
      (x y : A) (ys : List A) (b : Bool)
      → Perm (insert x ys) (x ∷ ys)
      → Perm (if b then x ∷ y ∷ ys else y ∷ insert x ys) (x ∷ y ∷ ys)
  choose_perm x y ys true ih = Perm.refl (x ∷ y ∷ ys)
  choose_perm x y ys false ih = Perm.trans (Perm.cons y ih) (Perm.swap x y ys)

  insert-perm : (x : A) (ys : List A) → Perm (insert x ys) (x ∷ ys)
  unfolding insert
  insert-perm x [] = Perm.refl (x ∷ [])
  insert-perm x (y ∷ ys) = choose_perm x y ys (may_precede (cmp x y)) (insert-perm x ys)

  pub insertion_sort-perm : (xs : List A) → Perm (insertion_sort xs) xs
  unfolding insertion_sort
  insertion_sort-perm [] = Perm.refl []
  insertion_sort-perm (x ∷ xs) =
      Perm.trans (insert-perm x (insertion_sort xs)) (Perm.cons x (insertion_sort-perm xs))

  All-insert : (Q : A → Type 0) (x : A) (ys : List A) → Q x → All Q ys → All Q (insert x ys)
  unfolding insert
  All-insert Q x [] h hs = (h, tt)
  All-insert Q x (y ∷ ys) h hs =
      elim (may_precede (cmp x y)) as (λ b. All Q (if b then x ∷ y ∷ ys else y ∷ insert x ys)) [
        | true ↦ (h, hs)
        | false ↦ (hs.0, All-insert Q x ys h hs.1)
      ]

  All-insertion_sort : (Q : A → Type 0) (xs : List A) → All Q xs → All Q (insertion_sort xs)
  unfolding insertion_sort
  All-insertion_sort Q [] h = tt
  All-insertion_sort Q (x ∷ xs) h = All-insert Q x _ h.0 (All-insertion_sort Q xs h.1)

All-map {ℓ} :
    {A : Type ℓ} (P Q : A → Type 0) (xs : List A) → ((a : A) → P a → Q a) → All P xs → All Q xs
All-map P Q [] f h = tt
All-map P Q (x ∷ xs) f h = (f x h.0, All-map P Q xs f h.1)

before_of_answer : (c : ℤ) (ab ba : Bool) → Agrees c ab ba → may_precede c ≡ true → ab ≡ true
before_of_answer (negsuc n) ab ba h e = h
before_of_answer (pos zero) ab ba h e = h.0
before_of_answer (pos (suc n)) ab ba h e = cc

after_of_answer : (c : ℤ) (ab ba : Bool) → Agrees c ab ba → may_precede c ≡ false → ba ≡ true
after_of_answer (negsuc n) ab ba h e = cc
after_of_answer (pos zero) ab ba h e = h.1
after_of_answer (pos (suc n)) ab ba h e = h

module _ {ℓ} {A : Type ℓ} (cmp : A → A → ℤ) (r : A → A → Bool) (P : A → Type 0)
    (transitive : (a b c : A) → r a b ≡ true → r b c ≡ true → r a c ≡ true)
    (agrees : (a b : A) → P a → P b → Agrees (cmp a b) (r a b) (r b a)) where
  insert-Ordered :
      (x : A) (ys : List A) → P x → All P ys → Ordered r ys → Ordered r (insert cmp x ys)
  unfolding insert
  insert-Ordered x [] h hs o = (tt, tt)
  insert-Ordered x (y ∷ ys) h hs o = elim (Bool-cases (may_precede (cmp x y))) [
    | inl e ↦
        let first : r x y ≡ true = before_of_answer (cmp x y) _ _ (agrees x y h hs.0) e in
        rw e ((first, All-map _ _ ys (λ a q. transitive x y a first q) o.0), o)
    | inr e ↦ rw e (
      All-insert cmp (λ z. r y z ≡ true) x ys (after_of_answer (cmp x y) _ _ (agrees x y h hs.0) e)
          o.0,
      insert-Ordered x ys h hs.1 o.1,
    )
  ]

  pub insertion_sort-Ordered : (xs : List A) → All P xs → Ordered r (insertion_sort cmp xs)
  unfolding insertion_sort
  insertion_sort-Ordered [] h = tt
  insertion_sort-Ordered (x ∷ xs) h =
      insert-Ordered x _ h.0 (All-insertion_sort cmp P xs h.1) (insertion_sort-Ordered xs h.1)

abbrev pub insertion_sorter {ℓ} : (A : Type ℓ) → Sorter A
insertion_sorter A = record {
  sort = insertion_sort;
  sort-perm = insertion_sort-perm;
  sort-Ordered = insertion_sort-Ordered;
}
