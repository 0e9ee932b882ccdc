-- ===== src/Optimize/Newsize.antt =====
-- The size of the last truncate of a vector, through the loops of `optimizeOperations` in
-- syncedfs-daemon/optimization.c.
use syncedfs.Prelude.{ℕ, ◌≡◌, refl, ap, ◌∙◌, Option, none, some, List, [], ◌∷◌, arith}
use syncedfs.Operation.{GenericOperation, Body, write, truncate}
use syncedfs.Optimize.{Slot, clip, clip_step, trim, trim_step, close_gaps}

-- The size of the last truncate of a vector.
abbrev pub newsize_or : Body → Option ℕ → Option ℕ
newsize_or b (some n) = some n
newsize_or (truncate n) none = some n
newsize_or b none = none

abbrev pub last_newsize : List GenericOperation → Option ℕ
last_newsize [] = none
last_newsize (op ∷ ops) = newsize_or op.body (last_newsize ops)

abbrev slot_newsize : Slot → Option ℕ → Option ℕ
slot_newsize none t = t
slot_newsize (some op) t = newsize_or op.body t

abbrev pub slots_newsize : List Slot → Option ℕ
slots_newsize [] = none
slots_newsize (s ∷ slots) = slot_newsize s (slots_newsize slots)

clip_step-found :
    (t : Option ℕ) (op : GenericOperation) (b : Body) → (clip_step t op b).0 ≡ newsize_or b t
unfolding clip_step
clip_step-found none op (truncate n) = refl
clip_step-found (some m) op (write w) = refl
clip_step-found none op _ = refl
clip_step-found (some m) op _ = refl

-- What the first loop finds is the last truncate.
pub clip-last_newsize : (ops : List GenericOperation) → (clip ops).0 ≡ last_newsize ops
unfolding clip
clip-last_newsize [] = refl
clip-last_newsize (op ∷ ops) = rw (clip_step-found (clip ops).0 op op.body, clip-last_newsize ops)

-- The three loops keep it.
clip_step-newsize :
    (t k : Option ℕ) (op : GenericOperation) (b : Body)
    → op.body ≡ b
    → slot_newsize (clip_step t op b).1 k ≡ newsize_or b k
unfolding clip_step
clip_step-newsize none k op (truncate n) e = rw e
clip_step-newsize (some m) none op (write w) e = ground arith
clip_step-newsize (some m) (some k) op (write w) e = ground arith
clip_step-newsize none k op b e = ap (λ c. newsize_or c k) e
clip_step-newsize (some m) k op b e = ap (λ c. newsize_or c k) e

pub clip-slots_newsize :
    (ops : List GenericOperation) → slots_newsize (clip ops).1 ≡ last_newsize ops
unfolding clip
clip-slots_newsize [] = refl
clip-slots_newsize (op ∷ ops) =
    clip_step-newsize (clip ops).0 (slots_newsize (clip ops).1) op op.body refl
    ∙ ap (newsize_or op.body) (clip-slots_newsize ops)

trim_step-newsize :
    (m : ℕ) (k : Option ℕ) (op : GenericOperation) (b : Body)
    → op.body ≡ b
    → slot_newsize (trim_step m op b).1 k ≡ newsize_or b k
unfolding trim_step
trim_step-newsize m none op (write w) e = ground arith
trim_step-newsize m (some k) op (write w) e = ground arith
trim_step-newsize m k op b e = ap (λ c. newsize_or c k) e

pub trim-slots_newsize :
    (m : ℕ) (slots : List Slot) → slots_newsize (trim m slots) ≡ slots_newsize slots
unfolding trim
trim-slots_newsize m [] = refl
trim-slots_newsize m (none ∷ slots) = trim-slots_newsize m slots
trim-slots_newsize m (some op ∷ slots) =
    trim_step-newsize m (slots_newsize (trim (trim_step m op op.body).0 slots)) op op.body refl
    ∙ ap (newsize_or op.body) (trim-slots_newsize (trim_step m op op.body).0 slots)

pub close_gaps-last_newsize :
    (slots : List Slot) → last_newsize (close_gaps slots) ≡ slots_newsize slots
unfolding close_gaps
close_gaps-last_newsize [] = refl
close_gaps-last_newsize (none ∷ slots) = close_gaps-last_newsize slots
close_gaps-last_newsize (some op ∷ slots) = ap (newsize_or op.body) (close_gaps-last_newsize slots)

-- One more than the greatest number of a truncate; 0 if there is none.
