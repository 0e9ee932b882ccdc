-- ===== src/Optimize/Replay.antt =====
-- syncedfs-daemon/optimization.c, `optimizeOperations` as a whole: what its result covers, and its
-- replay with the bytes of the snapshot.
use mathlib.Core.List.{Perm}
use mathlib.Core.List.Perm
use syncedfs.Prelude.{
  ℕ, ◌≤◌, ◌≡◌, refl, Bool, true, false, ◌&&◌, ◌||◌, Option, none, some, List, [], ◌∷◌, ltb, leb,
  if◌then◌else◌, arith, Ordered, sym, ◌∙◌, any-perm, All-perm,
}
use syncedfs.Sorting.{Sorter}
use syncedfs.Operation.{GenericOperation, Body, write, truncate}
use syncedfs.Optimize.{Slot, clip, clip_step, trim, compare_operations, optimize_operations}
use syncedfs.Optimize.Order.{precedes, precedes_trans, compare_operations-Agrees, SlotHasId}
use syncedfs.Optimize.Coverage.{
  covers, cuts, at_slot, covered, cut, slots_covered, any-close_gaps, clip-cut, trim-cut,
  trim-covered, Ordered-SortedFrom, All-Begins_zero,
}
use syncedfs.Optimize.Newsize.{
  last_newsize, clip-last_newsize, trim-slots_newsize, close_gaps-last_newsize,
}
use syncedfs.Optimize.Numbering.{NumberedFrom, slots_newsize-sorted, clip-SlotHasId}
use syncedfs.Optimize.Bytes.{
  Content, Event, operations, WritesLast, run, replay, byte-replay, byte-run_uncovered,
}
use syncedfs.Optimize.Phases.{optimized-WritesLast}
use syncedfs.Optimize.Sizes.{
  WriteSome, slot_writes_some, size-run, size-replay, slots_reach, furthest, slots_reach-perm,
  furthest-close_gaps, trim_zero-slots_reach, clip-SlotsWriteSome,
}

-- The positions whose bytes a log asks for: those in a write behind the last truncate, and those
-- of an earlier write that lie below its size.
abbrev pub survives : ℕ → Option ℕ → Bool
survives x none = true
survives x (some n) = ltb x n

abbrev pub needed : ℕ → List GenericOperation → Bool
needed x [] = false
needed x (op ∷ ops) = (covers x op.body && survives x (last_newsize ops)) || needed x ops

clip_step-covers :
    (x : ℕ) (t : Option ℕ) (op : GenericOperation) (b : Body)
    → op.body ≡ b
    → at_slot (covers x) (clip_step t op b).1 ≡ (covers x b && survives x t)
unfolding clip_step
clip_step-covers x none op (write w) e = rw e (ground arith)
clip_step-covers x (some m) op (write w) e = ground arith
clip_step-covers x none op (truncate n) e = rw e
clip_step-covers x none op b e = rw e
clip_step-covers x (some m) op b e = rw e

clip-covered : (x : ℕ) (ops : List GenericOperation) → slots_covered x (clip ops).1 ≡ needed x ops
unfolding clip
clip-covered x [] = refl
clip-covered x (op ∷ ops) =
    rw (clip_step-covers x (clip ops).0 op op.body refl, clip-last_newsize ops, clip-covered x ops)

module _ (S : Sorter Slot) (i : ℕ) (ops : List GenericOperation)
    (numbered : NumberedFrom i ops) where
  abbrev pub sorted : List Slot
  sorted = S.sort compare_operations (clip ops).1

  pub sorted-perm : Perm sorted (clip ops).1
  sorted-perm = S.sort-perm compare_operations (clip ops).1

  sorted-Ordered : Ordered precedes sorted
  sorted-Ordered =
      S.sort-Ordered compare_operations precedes SlotHasId precedes_trans compare_operations-Agrees
        (clip ops).1 (clip-SlotHasId i ops numbered)

  trimmed-covered : (x : ℕ) → slots_covered x (trim 0 sorted) ≡ slots_covered x (clip ops).1
  trimmed-covered x =
      drop_false (slots_covered x (trim 0 sorted)) (slots_covered x sorted) (
        trim-covered x sorted 0 0
          (Ordered-SortedFrom 0 sorted sorted-Ordered (All-Begins_zero sorted)))
      ∙ any-perm sorted-perm (at_slot (covers x))
    where
      drop_false : (a b : Bool) → (a || (leb 0 x && ltb x 0)) ≡ (b || (leb 0 x && ltb x 0)) → a ≡ b
      drop_false a b h = ground arith

  -- The optimised writes cover exactly the positions that the log needs: those in a write behind
  -- the last truncate, and those of an earlier write that lie below its size.
  pub covered-optimize_operations : (x : ℕ) → covered x (optimize_operations S ops) ≡ needed x ops
  unfolding optimize_operations
  covered-optimize_operations x =
      any-close_gaps (covers x) (trim 0 sorted) ∙ trimmed-covered x ∙ clip-covered x ops

  pub cut-optimize_operations : (x : ℕ) → cut x (optimize_operations S ops) ≡ cut x ops
  unfolding optimize_operations
  cut-optimize_operations x =
      any-close_gaps (cuts x) (trim 0 sorted)
      ∙ trim-cut x 0 sorted
      ∙ any-perm sorted-perm (at_slot (cuts x))
      ∙ clip-cut x ops

  newsize-optimize_operations : last_newsize (optimize_operations S ops) ≡ last_newsize ops
  unfolding optimize_operations
  newsize-optimize_operations =
      close_gaps-last_newsize (trim 0 sorted)
      ∙ trim-slots_newsize 0 sorted
      ∙ slots_newsize-sorted i ops sorted numbered sorted-perm sorted-Ordered

  furthest-optimize_operations :
      WriteSome ops → furthest (optimize_operations S ops) ≡ slots_reach (clip ops).1
  unfolding optimize_operations
  furthest-optimize_operations h =
      furthest-close_gaps (trim 0 sorted)
      ∙ trim_zero-slots_reach sorted
          (All-perm slot_writes_some (Perm.symm sorted-perm) (clip-SlotsWriteSome ops h))
      ∙ slots_reach-perm sorted-perm

-- Replaying the optimised operations with the bytes of the snapshot on the file as it was before
-- the log gives the file of the snapshot, byte for byte and in size, and no optimised write
-- reaches behind its end, if the operations are numbered in increasing order and no write is
-- empty.
pub replay-optimize_operations :
    (S : Sorter Slot) (i : ℕ) (events : List Event) (before : Content)
    → NumberedFrom i (operations events)
    → WriteSome (operations events)
    → let after = run events before in
      let sent = optimize_operations S (operations events) in
      ((x : ℕ) → (replay after.byte sent before).byte x ≡ after.byte x)
      × ((replay after.byte sent before).size ≡ after.size)
      × (furthest sent ≤ after.size)
replay-optimize_operations S i events before h k = (bytes, size, reach)
  where
    last : WritesLast (optimize_operations S (operations events))
    last =
        unfold optimize_operations in
        optimized-WritesLast _ (sorted-Ordered S i (operations events) h)

    reached :
        furthest (optimize_operations S (operations events))
        ≡ slots_reach (clip (operations events)).1
    reached = furthest-optimize_operations S i (operations events) h k

    restore :
        (x : ℕ) (covered cut : Bool)
        → (covered ≡ false → (run events before).byte x ≡ (if cut then 0 else before.byte x))
        → (if covered then (run events before).byte x else if cut then 0 else before.byte x)
          ≡ (run events before).byte x
    restore x covered cut g = ground (arith, g)

    bytes :
        (x : ℕ)
        → (replay (run events before).byte (optimize_operations S (operations events)) before).byte
            x
          ≡ (run events before).byte x
    bytes x =
        byte-replay x (run events before).byte _ before last
        ∙ restore x _ _ (λ e.
          byte-run_uncovered x events before (
            clip-covered x (operations events)
            ∙ sym (covered-optimize_operations S i (operations events) h x)
            ∙ e)
          ∙ rw (cut-optimize_operations S i (operations events) h x))

    size :
        (replay (run events before).byte (optimize_operations S (operations events)) before).size
        ≡ (run events before).size
    size =
        size-replay (run events before).byte _ before last
        ∙ rw (newsize-optimize_operations S i (operations events) h, reached)
            (sym (size-run events before))

    reach : furthest (optimize_operations S (operations events)) ≤ (run events before).size
    reach = omega (arith, reached, size-run events before)
