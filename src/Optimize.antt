-- ===== src/Optimize.antt =====
-- syncedfs-daemon/optimization.c: `cmpOperationType` and `optimizeOperations`.
-- A slot of the vector that the code sets to NULL is `none`. The operations of a vector are
-- distinct objects, so an update through a slot's pointer changes that slot alone.
pub mod Order
pub mod Coverage
pub mod Newsize
pub mod Numbering
pub mod Bytes
pub mod Phases
pub mod Sizes
pub mod Replay
pub mod Shape
use syncedfs.Prelude.{ℕ, ◌+◌, ◌-◌, Option, none, some, List, [], ◌∷◌, ltb, leb, ◌==◌, if◌then◌else◌}
use syncedfs.Prelude.Int.{ℤ, pos, minus_one}
use syncedfs.Sorting.{Sorter}
use syncedfs.Operation.{GenericOperation, WriteOperation, Body, write, truncate, type_code}

abbrev pub Slot : Type 0
Slot = Option GenericOperation

-- Two operations of one type.
abbrev pub compare_offsets : ℕ → ℕ → ℤ
compare_offsets a b = if a == b then pos 0 else if ltb a b then minus_one else pos 1

abbrev pub compare_ids : Option ℕ → Option ℕ → ℤ
compare_ids (some a) (some b) = if ltb a b then minus_one else pos 1
-- an id that is not set reads as the default 0
compare_ids (some a) none = pos 1
compare_ids none _ = pos 1

-- `op->write_op->offset`; it is read of a write only.
abbrev pub write_offset : Body → ℕ
write_offset (write w) = w.offset
write_offset _ = 0

abbrev pub type_write : ℕ
type_write = 13

abbrev pub compare_same : GenericOperation → GenericOperation → ℤ
compare_same x y =
    if type_code x.body == type_write
    then compare_offsets (write_offset x.body) (write_offset y.body)
    else compare_ids x.id y.id

unfoldable pub compare_operations : Slot → Slot → ℤ
unfolding type_code
compare_operations none _ = minus_one
compare_operations (some x) none = pos 1
compare_operations (some x) (some y) =
    if type_code x.body == type_code y.body
    then compare_same x y
    else if ltb (type_code x.body) (type_code y.body)
    then minus_one
    else pos 1

-- The first loop, from the last operation to the first. The number is the size of the last
-- truncate, once it is found (`truncfound`, `newsize`).
abbrev pub resize : GenericOperation → WriteOperation → ℕ → ℕ → GenericOperation
resize op w offset size = record op { body = write (record w { offset = offset; size = size }) }

unfoldable pub clip_write : ℕ → GenericOperation → WriteOperation → Slot
clip_write newsize op w =
    if ltb newsize (w.offset + w.size)
    then if leb newsize w.offset
      then none
      else some (resize op w w.offset (w.size - (w.offset + w.size - newsize)))
    else some op

unfoldable pub clip_step : Option ℕ → GenericOperation → Body → Option ℕ × Slot
unfolding clip_write
clip_step none op (truncate n) = (some n, some op)
clip_step none op _ = (none, some op)
clip_step (some newsize) op (write w) = (some newsize, clip_write newsize op w)
clip_step (some newsize) op _ = (some newsize, some op)

unfoldable pub clip : List GenericOperation → Option ℕ × List Slot
unfolding clip_step
clip [] = (none, [])
clip (op ∷ ops) =
    let (found, slots) = clip ops in
    let (found', slot) = clip_step found op op.body in (found', slot ∷ slots)

-- The second loop, over the sorted vector, with `maxoff`.
unfoldable pub trim_write : ℕ → GenericOperation → WriteOperation → ℕ × Slot
trim_write maxoff op w =
    if leb (w.offset + w.size) maxoff
    then (maxoff, none)
    else if ltb w.offset maxoff
    then (
      maxoff + (w.size - (maxoff - w.offset)),
      some (resize op w maxoff (w.size - (maxoff - w.offset))),
    )
    else (w.offset + w.size, some op)

unfoldable pub trim_step : ℕ → GenericOperation → Body → ℕ × Slot
unfolding trim_write
trim_step maxoff op (write w) = trim_write maxoff op w
trim_step maxoff op _ = (maxoff, some op)

unfoldable pub trim : ℕ → List Slot → List Slot
unfolding trim_step
trim maxoff [] = []
trim maxoff (none ∷ slots) = none ∷ trim maxoff slots
trim maxoff (some op ∷ slots) =
    let (maxoff', slot) = trim_step maxoff op op.body in slot ∷ trim maxoff' slots

-- The last loop: the slots that are left move down over the gaps.
unfoldable pub close_gaps : List Slot → List GenericOperation
close_gaps [] = []
close_gaps (none ∷ slots) = close_gaps slots
close_gaps (some op ∷ slots) = op ∷ close_gaps slots

module _ (S : Sorter Slot) where
  unfoldable pub optimize_operations : List GenericOperation → List GenericOperation
  unfolding clip trim close_gaps compare_operations
  optimize_operations ops = close_gaps (trim 0 (S.sort compare_operations (clip ops).1))
