-- ===== src/Client/Order.antt =====
-- syncedfs-daemon/client.c, `sortByOrder`.
use syncedfs.Prelude.{Bool, List, [], ◌∷◌, not, Ordered, All, arith, Bool-cases, inl, inr}
use syncedfs.Prelude.Int.{eqb_ℤ, ltb_ℤ}
use syncedfs.Sorting.{Sorter, Agrees}
use syncedfs.OperationLog.{FileOperations}
use syncedfs.Client.{compare_order}

abbrev pub precedes : FileOperations → FileOperations → Bool
precedes a b = not (ltb_ℤ b.order a.order)

compare_order-Agrees :
    (a b : FileOperations) → Agrees (compare_order a b) (precedes a b) (precedes b a)
unfolding compare_order
compare_order-Agrees a b = elim (Bool-cases (eqb_ℤ a.order b.order)) [
  | inl e ↦ rw e (ground arith)
  | inr n ↦ elim (Bool-cases (ltb_ℤ a.order b.order)) [
    | inl l ↦ rw (n, l) (ground arith)
    | inr g ↦ rw (n, g) (ground arith)
  ]
]

-- The files are transferred in the order of their numbers: none comes behind one with a greater
-- number.
pub sort-compare_order :
    (H : Sorter FileOperations) (files : List FileOperations)
    → Ordered precedes (H.sort compare_order files)
sort-compare_order H files =
    H.sort-Ordered compare_order precedes (λ f. Unit) (λ a b c. ground arith)
      (λ a b p q. compare_order-Agrees a b) files (all files)
  where
    all : (xs : List FileOperations) → All {0, 0} (λ f. Unit) xs
    all [] = tt
    all (x ∷ xs) = (tt, all xs)
