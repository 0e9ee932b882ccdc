-- ===== src/Optimize/Sizes.antt =====
-- The size of a file after the log, and after the replay of the vector that `optimizeOperations` of
-- syncedfs-daemon/optimization.c leaves.
use native.Mathlib.Nat.{ℕ_set}
use mathlib.Core.List.{Perm, foldr}
use mathlib.Core.List.Perm
use syncedfs.Prelude.{
  ℕ, ◌+◌, ◌-◌, max, ◌≡◌, refl, Bool, true, false, Option, none, some, List, [], ◌∷◌, ltb, ◌==◌,
  if◌then◌else◌, arith, All, any, ap, ◌∙◌,
}
use syncedfs.Operation.{GenericOperation, Body, write, truncate}
use syncedfs.Optimize.{Slot, clip, clip_step, trim, trim_step, close_gaps}
use syncedfs.Optimize.Coverage.{at_operation}
use syncedfs.Optimize.Newsize.{newsize_or, last_newsize, clip-last_newsize}
use syncedfs.Optimize.Bytes.{
  Content, Event, operations, size_after, apply, run, event_from, replay, is_truncate,
  NoTruncateBehind, WritesLast,
}

-- How far a write reaches; an empty one does not extend the file.
abbrev reach : Body → ℕ
reach (write w) = if w.size == 0 then 0 else w.offset + w.size
reach _ = 0

abbrev slot_reach : Slot → ℕ
slot_reach none = 0
slot_reach (some op) = reach op.body

abbrev pub slots_reach : List Slot → ℕ
slots_reach = foldr (λ s n. max (slot_reach s) n) 0

abbrev pub furthest : List GenericOperation → ℕ
furthest = foldr (λ op n. max (reach op.body) n) 0

pub slots_reach-perm : {xs ys : List Slot} → Perm xs ys → slots_reach xs ≡ slots_reach ys
slots_reach-perm p = Perm.foldr-eq ℕ_set (λ s n. max (slot_reach s) n) (λ x y n. omega arith) p 0

pub furthest-close_gaps : (slots : List Slot) → furthest (close_gaps slots) ≡ slots_reach slots
unfolding close_gaps
furthest-close_gaps [] = refl
furthest-close_gaps (none ∷ slots) = omega (arith, furthest-close_gaps slots)
furthest-close_gaps (some op ∷ slots) = ap (max (reach op.body)) (furthest-close_gaps slots)

-- `sfs_write` logs a write only if it wrote some bytes.
abbrev pub writes_some : Body → Bool
writes_some (write w) = ltb 0 w.size
writes_some _ = true

abbrev pub slot_writes_some : Slot → Bool
slot_writes_some none = true
slot_writes_some (some op) = writes_some op.body

abbrev pub WriteSome : List GenericOperation → Type 0
WriteSome ops = All (λ op. writes_some op.body ≡ true) ops

abbrev pub SlotsWriteSome : List Slot → Type 0
SlotsWriteSome slots = All (λ s. slot_writes_some s ≡ true) slots

clip_step-writes_some :
    (t : Option ℕ) (op : GenericOperation) (b : Body)
    → op.body ≡ b
    → writes_some b ≡ true
    → slot_writes_some (clip_step t op b).1 ≡ true
unfolding clip_step
clip_step-writes_some none op (truncate n) e h = ground arith
clip_step-writes_some (some m) op (write w) e h = ground arith
clip_step-writes_some none op b e h = ap writes_some e ∙ h
clip_step-writes_some (some m) op b e h = ap writes_some e ∙ h

pub clip-SlotsWriteSome :
    (ops : List GenericOperation) → WriteSome ops → SlotsWriteSome (clip ops).1
unfolding clip
clip-SlotsWriteSome [] h = tt
clip-SlotsWriteSome (op ∷ ops) h =
    (clip_step-writes_some (clip ops).0 op op.body refl h.0, clip-SlotsWriteSome ops h.1)

-- Trimming keeps how far the writes reach.
trim_step-reach :
    (m : ℕ) (slots : List Slot) (op : GenericOperation) (b : Body)
    → op.body ≡ b
    → writes_some b ≡ true
    → ((k : ℕ) → max k (slots_reach (trim k slots)) ≡ max k (slots_reach slots))
    → max m (max (slot_reach (trim_step m op b).1) (slots_reach (trim (trim_step m op b).0 slots)))
      ≡ max m (max (reach b) (slots_reach slots))
unfolding trim_step
trim_step-reach m slots op (write w) e h ih =
    ground (arith, ih m, ih (w.offset + w.size), ih (m + (w.size - (m - w.offset))))
trim_step-reach m slots op b e h ih = rw e (omega (arith, ih m))

trim-slots_reach :
    (slots : List Slot)
    → SlotsWriteSome slots
    → (m : ℕ) → max m (slots_reach (trim m slots)) ≡ max m (slots_reach slots)
unfolding trim
trim-slots_reach [] h m = refl
trim-slots_reach (none ∷ slots) h m = omega (arith, trim-slots_reach slots h.1 m)
trim-slots_reach (some op ∷ slots) h m =
    trim_step-reach m slots op op.body refl h.0 (trim-slots_reach slots h.1)

pub trim_zero-slots_reach :
    (slots : List Slot) → SlotsWriteSome slots → slots_reach (trim 0 slots) ≡ slots_reach slots
trim_zero-slots_reach slots h = omega (arith, trim-slots_reach slots h 0)

abbrev pub size_or : Option ℕ → ℕ → ℕ
size_or none s = s
size_or (some n) s = n

-- The size after the log: the last truncate, extended by the clipped writes.
size_step :
    (t : Option ℕ) (r s : ℕ) (op : GenericOperation) (b : Body)
    → op.body ≡ b
    → max (size_or t (size_after b s)) r
      ≡ max (size_or (newsize_or b t) s) (max (slot_reach (clip_step t op b).1) r)
unfolding clip_step
size_step none r s op (write w) e = ground arith
size_step (some n) r s op (write w) e = ground arith
size_step none r s op (truncate n) e = ground arith
size_step (some m) r s op (truncate n) e = ground arith
size_step none r s op b e = rw e (omega arith)
size_step (some m) r s op b e = rw e (omega arith)

pub size-run :
    (events : List Event) (c : Content)
    → (run events c).size
      ≡ max
          (size_or (last_newsize (operations events)) c.size)
          (slots_reach (clip (operations events)).1)
unfolding run clip
size-run [] c = omega arith
size-run (e ∷ events) c =
    let ops = operations events in
    size-run events (apply e c)
    ∙ rw (← clip-last_newsize ops)
        (size_step (clip ops).0 (slots_reach (clip ops).1) c.size e.operation e.operation.body refl)

-- The size after a replay in which no truncate stands behind a write.
furthest-truncates :
    (t : Option ℕ) (r s : ℕ) (b : Body) (later : Bool)
    → NoTruncateBehind b later
    → (later ≡ false → t ≡ none)
    → max (size_or t (size_after b s)) r ≡ max (size_or (newsize_or b t) s) (max (reach b) r)
furthest-truncates none r s (write w) later h k = ground arith
furthest-truncates (some n) r s (write w) later h k = cc (k h)
furthest-truncates none r s (truncate n) later h k = omega arith
furthest-truncates (some m) r s (truncate n) later h k = omega arith
furthest-truncates none r s b later h k = omega arith
furthest-truncates (some m) r s b later h k = omega arith

last_newsize_of_no_truncate :
    (ops : List GenericOperation)
    → any (at_operation is_truncate) ops ≡ false
    → last_newsize ops ≡ none
last_newsize_of_no_truncate [] h = refl
last_newsize_of_no_truncate (op ∷ ops) h =
    step op.body (last_newsize ops) (ground arith) (last_newsize_of_no_truncate ops (ground arith))
  where
    step : (b : Body) (t : Option ℕ) → is_truncate b ≡ false → t ≡ none → newsize_or b t ≡ none
    step (truncate n) t h k = cc
    step b none h k = refl
    step b (some n) h k = cc

pub size-replay :
    (source : ℕ → ℕ) (ops : List GenericOperation) (c : Content)
    → WritesLast ops
    → (replay source ops c).size ≡ max (size_or (last_newsize ops) c.size) (furthest ops)
unfolding replay
size-replay source [] c h = omega arith
size-replay source (op ∷ ops) c h =
    size-replay source ops (apply (event_from source op) c) h.1
    ∙ furthest-truncates (last_newsize ops) (furthest ops) c.size op.body _ h.0
        (last_newsize_of_no_truncate ops)
