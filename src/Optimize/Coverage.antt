-- ===== src/Optimize/Coverage.antt =====
-- Which byte positions the writes of a vector cover, and which its truncates cut off, through the
-- three loops of `optimizeOperations`.
use syncedfs.Prelude.{
  ℕ, ◌+◌, ◌-◌, ◌≤◌, ◌≡◌, refl, Bool, true, false, ◌&&◌, ◌||◌, Option, none, some, List, [], ◌∷◌,
  ltb, leb, arith, All, Ordered, any, leb→le,
}
use syncedfs.Operation.{GenericOperation, WriteOperation, Body, write, truncate, type_code}
use syncedfs.Optimize.{Slot, clip, clip_step, trim, trim_step, close_gaps}
use syncedfs.Optimize.Order.{precedes}

abbrev pub covers : ℕ → Body → Bool
covers x (write w) = leb w.offset x && ltb x (w.offset + w.size)
covers x _ = false

abbrev pub cuts : ℕ → Body → Bool
cuts x (truncate n) = leb n x
cuts x _ = false

-- A test on the operation of a slot; a gap passes none.
abbrev pub at_slot : (Body → Bool) → Slot → Bool
at_slot p none = false
at_slot p (some op) = p op.body

abbrev pub at_operation : (Body → Bool) → GenericOperation → Bool
at_operation p op = p op.body

abbrev pub covered : ℕ → List GenericOperation → Bool
covered x ops = any (at_operation (covers x)) ops

abbrev pub cut : ℕ → List GenericOperation → Bool
cut x ops = any (at_operation (cuts x)) ops

abbrev pub slots_covered : ℕ → List Slot → Bool
slots_covered x slots = any (at_slot (covers x)) slots

abbrev pub slots_cut : ℕ → List Slot → Bool
slots_cut x slots = any (at_slot (cuts x)) slots

-- Closing the gaps keeps every test.
pub any-close_gaps :
    (p : Body → Bool) (slots : List Slot)
    → any (at_operation p) (close_gaps slots) ≡ any (at_slot p) slots
unfolding close_gaps
any-close_gaps p [] = refl
any-close_gaps p (none ∷ slots) = any-close_gaps p slots
any-close_gaps p (some op ∷ slots) = ground (arith, any-close_gaps p slots)

-- Clipping and trimming keep the truncates.
clip_step-cuts :
    (x : ℕ) (t : Option ℕ) (op : GenericOperation) (b : Body)
    → op.body ≡ b
    → at_slot (cuts x) (clip_step t op b).1 ≡ cuts x b
unfolding clip_step
clip_step-cuts x none op (truncate n) e = ground arith
clip_step-cuts x (some m) op (write w) e = ground arith
clip_step-cuts x none op _ e = rw e
clip_step-cuts x (some m) op _ e = rw e

pub clip-cut : (x : ℕ) (ops : List GenericOperation) → slots_cut x (clip ops).1 ≡ cut x ops
unfolding clip
clip-cut x [] = refl
clip-cut x (op ∷ ops) =
    rw (clip_step-cuts x (clip ops).0 op op.body refl) (ground (arith, clip-cut x ops))

trim_step-cuts :
    (x m : ℕ) (op : GenericOperation) (b : Body)
    → op.body ≡ b
    → at_slot (cuts x) (trim_step m op b).1 ≡ cuts x b
unfolding trim_step
trim_step-cuts x m op (write w) e = ground arith
trim_step-cuts x m op _ e = rw e

pub trim-cut : (x m : ℕ) (slots : List Slot) → slots_cut x (trim m slots) ≡ slots_cut x slots
unfolding trim
trim-cut x m [] = refl
trim-cut x m (none ∷ slots) = trim-cut x m slots
trim-cut x m (some op ∷ slots) =
    rw (trim_step-cuts x m op op.body refl)
      (ground (arith, trim-cut x (trim_step m op op.body).0 slots))

-- The writes of a vector stand in the order of their offsets, none below `p`.
abbrev pub Begins : ℕ → Body → Type 0
Begins p (write w) = p ≤ w.offset
Begins p _ = Unit

abbrev pub BeginsSlot : ℕ → Slot → Type 0
BeginsSlot p none = Unit
BeginsSlot p (some op) = Begins p op.body

abbrev pub next_offset : ℕ → Body → ℕ
next_offset p (write w) = w.offset
next_offset p _ = p

abbrev pub SortedFrom : ℕ → List Slot → Type 0
SortedFrom p [] = Unit
SortedFrom p (none ∷ slots) = SortedFrom p slots
SortedFrom p (some op ∷ slots) = Begins p op.body × SortedFrom (next_offset p op.body) slots

-- A trimmed write covers what it covered, but for what lies between `p` and `maxoff`.
module _ (x : ℕ) (slots : List Slot)
    (ih : (p m : ℕ)
      → SortedFrom p slots
      → (slots_covered x (trim m slots) || (leb p x && ltb x m))
        ≡ (slots_covered x slots || (leb p x && ltb x m))) where
  trim_step-covers :
      (p m : ℕ) (op : GenericOperation) (b : Body)
      → op.body ≡ b
      → Begins p b
      → SortedFrom (next_offset p b) slots
      → ((at_slot (covers x) (trim_step m op b).1
            || slots_covered x (trim (trim_step m op b).0 slots))
          || (leb p x && ltb x m))
        ≡ ((covers x b || slots_covered x slots) || (leb p x && ltb x m))
  unfolding trim_step
  trim_step-covers p m op (write w) e h k = ground (
    arith,
    ih w.offset m k,
    ih w.offset (w.offset + w.size) k,
    ih w.offset (m + (w.size - (m - w.offset))) k,
  )
  trim_step-covers p m op _ e h k = rw e (ih p m k)

pub trim-covered :
    (x : ℕ) (slots : List Slot) (p m : ℕ)
    → SortedFrom p slots
    → (slots_covered x (trim m slots) || (leb p x && ltb x m))
      ≡ (slots_covered x slots || (leb p x && ltb x m))
unfolding trim
trim-covered x [] p m h = refl
trim-covered x (none ∷ slots) p m h = trim-covered x slots p m h
trim-covered x (some op ∷ slots) p m h =
    trim_step-covers x slots (trim-covered x slots) p m op op.body refl h.0 h.1

-- Whatever the code sorts by `cmpOperationType` is in the order of the offsets.
later_write :
    (x y : GenericOperation) (w : WriteOperation) (b : Body)
    → x.body ≡ write w
    → y.body ≡ b
    → precedes (some x) (some y) ≡ true
    → Begins w.offset b
unfolding type_code
later_write x y w (write v) e f h = leb→le _ _ (rw (e, f) at h)
later_write x y w _ e f h = tt

All-later :
    (x : GenericOperation) (w : WriteOperation) (slots : List Slot)
    → x.body ≡ write w
    → All (λ s. precedes (some x) s ≡ true) slots
    → All (BeginsSlot w.offset) slots
All-later x w [] e h = tt
All-later x w (none ∷ slots) e h = (tt, All-later x w slots e h.1)
All-later x w (some y ∷ slots) e h =
    (later_write x y w y.body e refl h.0, All-later x w slots e h.1)

All-next :
    (p : ℕ) (x : GenericOperation) (b : Body) (slots : List Slot)
    → x.body ≡ b
    → All (λ s. precedes (some x) s ≡ true) slots
    → All (BeginsSlot p) slots
    → All (BeginsSlot (next_offset p b)) slots
All-next p x (write w) slots e h k = All-later x w slots e h
All-next p x _ slots e h k = k

pub Ordered-SortedFrom :
    (p : ℕ) (slots : List Slot)
    → Ordered precedes slots
    → All (BeginsSlot p) slots
    → SortedFrom p slots
Ordered-SortedFrom p [] o h = tt
Ordered-SortedFrom p (none ∷ slots) o h = Ordered-SortedFrom p slots o.1 h.1
Ordered-SortedFrom p (some x ∷ slots) o h =
    (h.0, Ordered-SortedFrom _ slots o.1 (All-next p x x.body slots refl o.0 h.1))

pub All-Begins_zero : (slots : List Slot) → All (BeginsSlot 0) slots
All-Begins_zero [] = tt
All-Begins_zero (none ∷ slots) = (tt, All-Begins_zero slots)
All-Begins_zero (some x ∷ slots) = (begins x.body, All-Begins_zero slots)
  where
    begins : (b : Body) → Begins 0 b
    begins (write w) = omega arith
    begins _ = tt
