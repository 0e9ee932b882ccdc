-- ===== src/Optimize/Shape.antt =====
-- syncedfs-daemon/optimization.c, `optimizeOperations`: the intervals of the writes that are left,
-- and how many operations are left.
use syncedfs.Prelude.{
  ℕ, ◌+◌, ◌≤◌, ◌<◌, ◌≡◌, refl, ◌≢◌, Bool, true, false, Option, none, some, List, [], ◌∷◌, ltb, leb,
  arith, any, Bool-cases, Option-cases, inl, inr, ap, ◌∙◌, any-perm, ltb→lt,
}
use syncedfs.Sorting.{Sorter}
use syncedfs.Operation.{GenericOperation, WriteOperation, Body, write, truncate}
use syncedfs.Optimize.{
  Slot, clip, clip_step, trim, trim_step, close_gaps, compare_operations, optimize_operations,
}
use syncedfs.Optimize.Coverage.{covers, cuts, at_slot, at_operation, any-close_gaps}
use syncedfs.Optimize.Newsize.{last_newsize}
use syncedfs.Optimize.Numbering.{NumberedFrom}
use syncedfs.Optimize.Bytes.{last_newsize-cut}
use syncedfs.Optimize.Sizes.{WriteSome, writes_some}
use syncedfs.Optimize.Replay.{covered-optimize_operations, cut-optimize_operations}

-- Each write begins where the writes before it have ended, the first at `m` or later.
abbrev StartsFrom : ℕ → Body → Type 0
StartsFrom m (write w) = m ≤ w.offset
StartsFrom m _ = Unit

abbrev end_of : ℕ → Body → ℕ
end_of m (write w) = w.offset + w.size
end_of m _ = m

abbrev pub DisjointFrom : ℕ → List GenericOperation → Type 0
DisjointFrom m [] = Unit
DisjointFrom m (op ∷ ops) = StartsFrom m op.body × DisjointFrom (end_of m op.body) ops

trimmed-DisjointFrom :
    (m : ℕ) (op : GenericOperation) (b : Body) (slots : List Slot)
    → op.body ≡ b
    → DisjointFrom (trim_step m op b).0 (close_gaps slots)
    → DisjointFrom m (close_gaps ((trim_step m op b).1 ∷ slots))
unfolding trim_step close_gaps
trimmed-DisjointFrom m op (write w) slots e h = elim (Bool-cases (leb (w.offset + w.size) m)) [
  | inl p ↦ rw p (rw p at h)
  | inr p ↦ elim (Bool-cases (ltb w.offset m)) [
    | inl q ↦ rw (p, q) ((omega arith, rw (p, q) at h))
    | inr q ↦ rw (p, q, e) ((ground arith, rw (p, q) at h))
  ]
]
trimmed-DisjointFrom m op b slots e h = rw e ((tt, h))

trim-DisjointFrom : (m : ℕ) (slots : List Slot) → DisjointFrom m (close_gaps (trim m slots))
unfolding trim close_gaps
trim-DisjointFrom m [] = tt
trim-DisjointFrom m (none ∷ slots) = trim-DisjointFrom m slots
trim-DisjointFrom m (some op ∷ slots) =
    trimmed-DisjointFrom m op op.body _ refl (trim-DisjointFrom (trim_step m op op.body).0 slots)

-- The writes of the optimised vector stand in the order of their offsets and do not overlap.
pub optimize_operations-DisjointFrom :
    (S : Sorter Slot) (ops : List GenericOperation) → DisjointFrom 0 (optimize_operations S ops)
unfolding optimize_operations
optimize_operations-DisjointFrom S ops =
    trim-DisjointFrom 0 (S.sort compare_operations (clip ops).1)

-- The operations other than writes pass through all loops.
abbrev pub is_other : Body → Bool
is_other (write w) = false
is_other _ = true

clip_step-other :
    (t : Option ℕ) (op : GenericOperation) (b : Body)
    → op.body ≡ b
    → at_slot is_other (clip_step t op b).1 ≡ is_other b
unfolding clip_step
clip_step-other (some m) op (write w) e = ground arith
clip_step-other none op (truncate n) e = rw e
clip_step-other none op b e = ap is_other e
clip_step-other (some m) op b e = ap is_other e

clip-others :
    (ops : List GenericOperation)
    → any (at_slot is_other) (clip ops).1 ≡ any (at_operation is_other) ops
unfolding clip
clip-others [] = refl
clip-others (op ∷ ops) = rw (clip_step-other (clip ops).0 op op.body refl, clip-others ops)

trim_step-other :
    (m : ℕ) (op : GenericOperation) (b : Body)
    → op.body ≡ b
    → at_slot is_other (trim_step m op b).1 ≡ is_other b
unfolding trim_step
trim_step-other m op (write w) e = ground arith
trim_step-other m op b e = ap is_other e

trim-others :
    (m : ℕ) (slots : List Slot)
    → any (at_slot is_other) (trim m slots) ≡ any (at_slot is_other) slots
unfolding trim
trim-others m [] = refl
trim-others m (none ∷ slots) = trim-others m slots
trim-others m (some op ∷ slots) =
    rw (trim_step-other m op op.body refl, trim-others (trim_step m op op.body).0 slots)

others-optimize_operations :
    (S : Sorter Slot) (ops : List GenericOperation)
    → any (at_operation is_other) (optimize_operations S ops) ≡ any (at_operation is_other) ops
unfolding optimize_operations
others-optimize_operations S ops =
    any-close_gaps is_other (trim 0 (S.sort compare_operations (clip ops).1))
    ∙ trim-others 0 (S.sort compare_operations (clip ops).1)
    ∙ any-perm (S.sort-perm compare_operations (clip ops).1) (at_slot is_other)
    ∙ clip-others ops

ne-nil_of_any {ℓ} : {A : Type ℓ} (p : A → Bool) (xs : List A) → any p xs ≡ true → xs ≢ []
ne-nil_of_any p xs h e = cc (ap (any p) e)

module _ (S : Sorter Slot) (i : ℕ) (op : GenericOperation) (ops : List GenericOperation)
    (h : NumberedFrom i (op ∷ ops)) where
  kept_other : is_other op.body ≡ true → optimize_operations S (op ∷ ops) ≢ []
  kept_other e =
      ne-nil_of_any (at_operation is_other) _ (others-optimize_operations S (op ∷ ops) ∙ rw e)

  kept_write :
      (w : WriteOperation) → op.body ≡ write w → 0 < w.size → optimize_operations S (op ∷ ops) ≢ []
  kept_write w e pos = elim (Option-cases (last_newsize ops)) [
    | inl last ↦
        ne-nil_of_any (at_operation (covers w.offset)) _
          (covered-optimize_operations S i (op ∷ ops) h w.offset ∙ rw (last, e) (ground arith))
    | inr (n, last) ↦ ne-nil_of_any (at_operation (cuts n)) _ (
        cut-optimize_operations S i (op ∷ ops) h n
        ∙ rw (e, last_newsize-cut n n ops last (omega arith)))
  ]

  kept : (b : Body) → op.body ≡ b → writes_some b ≡ true → optimize_operations S (op ∷ ops) ≢ []
  kept (write w) e nonempty = kept_write w e (ltb→lt _ _ nonempty)
  kept b e nonempty = kept_other (ap is_other e)

-- A vector with some operation keeps some operation: the client has a chunk to send for each file.
pub optimize_operations-ne-nil :
    (S : Sorter Slot) (i : ℕ) (op : GenericOperation) (ops : List GenericOperation)
    → NumberedFrom i (op ∷ ops)
    → WriteSome (op ∷ ops)
    → optimize_operations S (op ∷ ops) ≢ []
optimize_operations-ne-nil S i op ops h k = kept S i op ops h op.body refl k.0
