-- ===== src/Optimize/Phases.antt =====
-- The truncates and the writes of a vector, in the order of syncedfs-daemon/optimization.c.
use syncedfs.Prelude.{
  ℕ, ◌+◌, ◌≡◌, refl, true, false, none, some, List, [], ◌∷◌, ltb, leb, arith, All, Ordered, any,
  Bool-cases, inl, inr, ap,
}
use syncedfs.Operation.{GenericOperation, WriteOperation, Body, write, truncate, type_code}
use syncedfs.Optimize.{Slot, trim, trim_step, close_gaps}
use syncedfs.Optimize.Order.{precedes}
use syncedfs.Optimize.Coverage.{at_slot, any-close_gaps}
use syncedfs.Optimize.Bytes.{is_truncate, NoTruncateBehind, WritesLast, SlotsWritesLast}

later_than_write :
    (x y : GenericOperation) (w : WriteOperation) (b : Body)
    → x.body ≡ write w
    → y.body ≡ b
    → precedes (some x) (some y) ≡ true
    → is_truncate b ≡ false
unfolding type_code
later_than_write x y w (truncate n) e f h = let k = rw (e, f) at h in cc k
later_than_write x y w _ e f h = refl

any_later :
    (x : GenericOperation) (w : WriteOperation) (slots : List Slot)
    → x.body ≡ write w
    → All (λ s. precedes (some x) s ≡ true) slots
    → any (at_slot is_truncate) slots ≡ false
any_later x w [] e h = refl
any_later x w (none ∷ slots) e h = any_later x w slots e h.1
any_later x w (some y ∷ slots) e h =
    rw (later_than_write x y w y.body e refl h.0) (any_later x w slots e h.1)

Ordered-SlotsWritesLast : (slots : List Slot) → Ordered precedes slots → SlotsWritesLast slots
Ordered-SlotsWritesLast [] o = tt
Ordered-SlotsWritesLast (none ∷ slots) o = Ordered-SlotsWritesLast slots o.1
Ordered-SlotsWritesLast (some x ∷ slots) o = (behind x.body refl, Ordered-SlotsWritesLast slots o.1)
  where
    behind : (b : Body) → x.body ≡ b → NoTruncateBehind b (any (at_slot is_truncate) slots)
    behind (write w) e = any_later x w slots e o.0
    behind _ e = tt

trim_step-truncate :
    (m : ℕ) (op : GenericOperation) (b : Body)
    → op.body ≡ b
    → at_slot is_truncate (trim_step m op b).1 ≡ is_truncate b
unfolding trim_step
trim_step-truncate m op (write w) e = ground arith
trim_step-truncate m op b e = ap is_truncate e

trim-truncates :
    (m : ℕ) (slots : List Slot)
    → any (at_slot is_truncate) (trim m slots) ≡ any (at_slot is_truncate) slots
unfolding trim
trim-truncates m [] = refl
trim-truncates m (none ∷ slots) = trim-truncates m slots
trim-truncates m (some op ∷ slots) =
    rw (trim_step-truncate m op op.body refl)
      (ground (arith, trim-truncates (trim_step m op op.body).0 slots))

SlotsWritesLast-cons :
    (m : ℕ) (op : GenericOperation) (b : Body) (slots : List Slot)
    → op.body ≡ b
    → NoTruncateBehind b (any (at_slot is_truncate) slots)
    → SlotsWritesLast slots
    → SlotsWritesLast ((trim_step m op b).1 ∷ slots)
unfolding trim_step
SlotsWritesLast-cons m op (write w) slots e h k = elim (Bool-cases (leb (w.offset + w.size) m)) [
  | inl p ↦ rw p k
  | inr p ↦
      rw p (elim (Bool-cases (ltb w.offset m)) [ inl q ↦ rw q (h, k) | inr q ↦ rw (q, e) (h, k) ])
]
SlotsWritesLast-cons m op b slots e h k = (rw e h, k)

trim-SlotsWritesLast :
    (m : ℕ) (slots : List Slot) → SlotsWritesLast slots → SlotsWritesLast (trim m slots)
unfolding trim
trim-SlotsWritesLast m [] h = tt
trim-SlotsWritesLast m (none ∷ slots) h = trim-SlotsWritesLast m slots h
trim-SlotsWritesLast m (some op ∷ slots) h =
    let m' = (trim_step m op op.body).0 in
    SlotsWritesLast-cons m op op.body (trim m' slots) refl (rw (trim-truncates m' slots) h.0)
      (trim-SlotsWritesLast m' slots h.1)

close_gaps-WritesLast : (slots : List Slot) → SlotsWritesLast slots → WritesLast (close_gaps slots)
unfolding close_gaps
close_gaps-WritesLast [] h = tt
close_gaps-WritesLast (none ∷ slots) h = close_gaps-WritesLast slots h
close_gaps-WritesLast (some op ∷ slots) h =
    (rw (any-close_gaps is_truncate slots) h.0, close_gaps-WritesLast slots h.1)

pub optimized-WritesLast :
    (slots : List Slot) → Ordered precedes slots → WritesLast (close_gaps (trim 0 slots))
optimized-WritesLast slots o =
    close_gaps-WritesLast _ (trim-SlotsWritesLast 0 slots (Ordered-SlotsWritesLast slots o))
