-- ===== src/Sorting.antt =====
-- What the code relies on of the C library's `qsort` and of uthash's `HASH_SORT`, neither of which
-- is in this repository.
pub mod Insertion
use mathlib.Core.List.{Perm}
use syncedfs.Prelude.{ℕ, zero, suc, ◌≡◌, Bool, true, List, All, Ordered}
use syncedfs.Prelude.Int.{ℤ, pos, negsuc}

-- A comparator's answer fits an order, given both of its tests: negative for "a may stand before b",
-- positive for "b may stand before a", zero for both.
abbrev pub Agrees : ℤ → Bool → Bool → Type 0
Agrees (negsuc n) ab ba = ab ≡ true
Agrees (pos zero) ab ba = (ab ≡ true) × (ba ≡ true)
Agrees (pos (suc n)) ab ba = ba ≡ true

-- A sort returns a permutation of its input, and one in order whenever the answers of the comparator
-- on the elements of the input fit a transitive order.
pub record Sorter {ℓ} (A : Type ℓ) : Type (ℓ + 1) where
  pub sort : (A → A → ℤ) → List A → List A
  pub sort-perm : (cmp : A → A → ℤ) (xs : List A) → Perm (sort cmp xs) xs
  pub sort-Ordered :
      (cmp : A → A → ℤ) (r : A → A → Bool) (P : A → Type 0)
      → ((a b c : A) → r a b ≡ true → r b c ≡ true → r a c ≡ true)
      → ((a b : A) → P a → P b → Agrees (cmp a b) (r a b) (r b a))
      → (xs : List A) → All P xs
      → Ordered r (sort cmp xs)
