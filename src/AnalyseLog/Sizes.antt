-- ===== src/AnalyseLog/Sizes.antt =====
-- analyse-log/main.c: what optimisation saves.
use syncedfs.Prelude.{
  ℕ, ◌≤◌, ◌≡◌, refl, Option, none, some, List, [], ◌∷◌, arith, sum_by, sum_by-perm,
}
use syncedfs.Sorting.{Sorter}
use syncedfs.Operation.{GenericOperation, Body, write}
use syncedfs.Optimize.{
  Slot, optimize_operations, clip, clip_step, clip_write, trim, trim_step, trim_write, close_gaps,
  compare_operations,
}
use syncedfs.OperationLog.{FileOperations}
use syncedfs.AnalyseLog.{written_size, operations_size, writes_size, optimized_writes_size}

abbrev slot_size : Slot → ℕ
slot_size none = 0
slot_size (some op) = written_size op.body

close_gaps-size : (slots : List Slot) → operations_size (close_gaps slots) ≡ sum_by slot_size slots
unfolding close_gaps operations_size
close_gaps-size [] = refl
close_gaps-size (none ∷ slots) = omega (arith, close_gaps-size slots)
close_gaps-size (some op ∷ slots) = omega (arith, close_gaps-size slots)

clip_step-size :
    (t : Option ℕ) (op : GenericOperation) (b : Body)
    → op.body ≡ b
    → slot_size (clip_step t op b).1 ≤ written_size b
unfolding clip_step clip_write
clip_step-size none op (write w) e = rw e (omega arith)
clip_step-size (some n) op (write w) e = ground arith
clip_step-size none op b e = rw e (omega arith)
clip_step-size (some n) op b e = rw e (omega arith)

trim_step-size :
    (m : ℕ) (op : GenericOperation) (b : Body)
    → op.body ≡ b
    → slot_size (trim_step m op b).1 ≤ written_size b
unfolding trim_step trim_write
trim_step-size m op (write w) e = ground arith
trim_step-size m op b e = rw e (omega arith)

clip-size : (ops : List GenericOperation) → sum_by slot_size (clip ops).1 ≤ operations_size ops
unfolding clip operations_size
clip-size [] = omega arith
clip-size (op ∷ ops) = omega (arith, clip-size ops, clip_step-size (clip ops).0 op op.body refl)

trim-size : (slots : List Slot) (m : ℕ) → sum_by slot_size (trim m slots) ≤ sum_by slot_size slots
unfolding trim
trim-size [] m = omega arith
trim-size (none ∷ slots) m = omega (arith, trim-size slots m)
trim-size (some op ∷ slots) m =
    omega (arith, trim-size slots (trim_step m op op.body).0, trim_step-size m op op.body refl)

optimize_operations-size :
    (S : Sorter Slot) (ops : List GenericOperation)
    → operations_size (optimize_operations S ops) ≤ operations_size ops
unfolding optimize_operations
optimize_operations-size S ops =
    let clipped = (clip ops).1 in
    let sorted = S.sort compare_operations clipped in
    omega (
      arith,
      clip-size ops,
      trim-size sorted 0,
      sum_by-perm (S.sort-perm compare_operations clipped) slot_size,
      close_gaps-size (trim 0 sorted),
    )

-- The writes that optimizedWritesSize adds up never come to more than those of writesSize: to
-- optimise a log does not make the transfer longer.
pub optimized_writes_size-writes_size :
    (S : Sorter Slot) (files : List FileOperations)
    → optimized_writes_size S files ≤ writes_size files
unfolding optimized_writes_size writes_size
optimized_writes_size-writes_size S [] = omega arith
optimized_writes_size-writes_size S (f ∷ files) =
    omega
      (arith, optimize_operations-size S f.operations, optimized_writes_size-writes_size S files)
