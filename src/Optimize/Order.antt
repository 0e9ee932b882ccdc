-- ===== src/Optimize/Order.antt =====
-- syncedfs-daemon/optimization.c, `cmpOperationType`: the order that it sorts by.
use syncedfs.Prelude.{
  ℕ, ◌≡◌, refl, ◌≢◌, Bool, true, false, Option, none, some, ltb, leb, ◌==◌, if◌then◌else◌, arith,
}
use syncedfs.Prelude.Int.{pos, minus_one}
use syncedfs.Sorting.{Agrees}
use syncedfs.Operation.{GenericOperation, type_code}
use syncedfs.Optimize.{
  Slot, write_offset, type_write, compare_offsets, compare_ids, compare_operations,
}

abbrev pub id_of : Option ℕ → ℕ
id_of none = 0
id_of (some i) = i

abbrev pub sort_key : GenericOperation → ℕ
sort_key x = if type_code x.body == type_write then write_offset x.body else id_of x.id

abbrev pub precedes : Slot → Slot → Bool
precedes none _ = true
precedes (some x) none = false
precedes (some x) (some y) =
    if type_code x.body == type_code y.body
    then leb (sort_key x) (sort_key y)
    else ltb (type_code x.body) (type_code y.body)

-- `addOperation` numbers every operation.
abbrev pub HasId : GenericOperation → Type 0
HasId op = op.id ≢ none

abbrev pub SlotHasId : Slot → Type 0
SlotHasId none = Unit
SlotHasId (some op) = HasId op

pub precedes_trans :
    (a b c : Slot) → precedes a b ≡ true → precedes b c ≡ true → precedes a c ≡ true
precedes_trans none b c h k = refl
precedes_trans (some x) none c h k = ground arith
precedes_trans (some x) (some y) none h k = ground arith
precedes_trans (some x) (some y) (some z) h k =
    lexicographic (type_code x.body) (type_code y.body) (type_code z.body) _ _ _ h k
  where
    lexicographic :
        (a b c i j k : ℕ)
        → (if a == b then leb i j else ltb a b) ≡ true
        → (if b == c then leb j k else ltb b c) ≡ true
        → (if a == c then leb i k else ltb a c) ≡ true
    lexicographic a b c i j k p q = ground arith

abbrev key : ℕ → ℕ → Option ℕ → ℕ
key code offset id = if code == type_write then offset else id_of id

compared-Agrees :
    (c d ox oy i j : ℕ)
    → Agrees
        (if c == d
          then (if c == type_write then compare_offsets ox oy else compare_ids (some i) (some j))
          else if ltb c d
          then minus_one
          else pos 1)
        (if c == d then leb (key c ox (some i)) (key d oy (some j)) else ltb c d)
        (if d == c then leb (key d oy (some j)) (key c ox (some i)) else ltb d c)
compared-Agrees c d ox oy i j = ground arith

compared-Agrees_of_ids :
    (c d ox oy : ℕ) (i j : Option ℕ)
    → i ≢ none
    → j ≢ none
    → Agrees
        (if c == d
          then (if c == type_write then compare_offsets ox oy else compare_ids i j)
          else if ltb c d
          then minus_one
          else pos 1)
        (if c == d then leb (key c ox i) (key d oy j) else ltb c d)
        (if d == c then leb (key d oy j) (key c ox i) else ltb d c)
compared-Agrees_of_ids c d ox oy none j h k = absurd (h refl)
compared-Agrees_of_ids c d ox oy (some i) none h k = absurd (k refl)
compared-Agrees_of_ids c d ox oy (some i) (some j) h k = compared-Agrees c d ox oy i j

-- The answers of `cmpOperationType` on numbered operations and on slots that are NULL fit one order:
-- first the slots that are NULL, then by type, the writes by offset and the others by number.
pub compare_operations-Agrees :
    (a b : Slot)
    → SlotHasId a
    → SlotHasId b
    → Agrees (compare_operations a b) (precedes a b) (precedes b a)
unfolding compare_operations
compare_operations-Agrees none none h k = refl
compare_operations-Agrees none (some y) h k = refl
compare_operations-Agrees (some x) none h k = refl
compare_operations-Agrees (some x) (some y) h k =
    compared-Agrees_of_ids (type_code x.body) (type_code y.body) (write_offset x.body)
      (write_offset y.body) x.id y.id h k
