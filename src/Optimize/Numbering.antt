-- ===== src/Optimize/Numbering.antt =====
-- The numbers that `addOperation` of syncedfs-daemon/client.c gives to operations, and the last
-- truncate of a vector by number.
use native.Mathlib.Nat.{ℕ_set}
use mathlib.Core.List.{Perm, foldr}
use mathlib.Core.List.Perm
use syncedfs.Prelude.{
  ℕ, zero, suc, ◌+◌, ◌≤◌, max, ◌≡◌, refl, ◌⊎◌, inl, inr, ap, ◌∙◌, Bool, true, Option, none, some,
  List, [], ◌∷◌, ltb, leb, ◌==◌, if◌then◌else◌, arith, All, Ordered, ==_iff, leb→le, Bool-cases,
  sym, All-perm,
}
use syncedfs.Operation.{GenericOperation, WriteOperation, Body, write, truncate, type_code}
use syncedfs.Optimize.{Slot, clip, clip_step, clip_write}
use syncedfs.Optimize.Order.{precedes, id_of, HasId, SlotHasId}
use syncedfs.Optimize.Newsize.{newsize_or, last_newsize, slots_newsize, clip-slots_newsize}

abbrev truncate_rank : Body → ℕ → ℕ
truncate_rank (truncate n) i = suc i
truncate_rank _ i = 0

abbrev slot_rank : Slot → ℕ
slot_rank none = 0
slot_rank (some op) = truncate_rank op.body (id_of op.id)

abbrev pub top_rank : List Slot → ℕ
top_rank = foldr (λ s n. max (slot_rank s) n) 0

top_rank-perm : {xs ys : List Slot} → Perm xs ys → top_rank xs ≡ top_rank ys
top_rank-perm p = Perm.foldr-eq ℕ_set (λ s n. max (slot_rank s) n) (λ x y n. omega arith) p 0

-- Every truncate of the vector has the size that `size_of` gives for its number.
abbrev sized_by : (ℕ → ℕ) → ℕ → Body → Bool
sized_by size_of i (truncate n) = n == size_of i
sized_by size_of i _ = true

abbrev slot_sized_by : (ℕ → ℕ) → Slot → Bool
slot_sized_by size_of none = true
slot_sized_by size_of (some op) = sized_by size_of (id_of op.id) op.body

abbrev pub IsSizedBy : (ℕ → ℕ) → List Slot → Type 0
IsSizedBy size_of slots = All (λ s. slot_sized_by size_of s ≡ true) slots

-- The truncates of the vector stand in the order of their numbers.
abbrev RankFrom : ℕ → List Slot → Type 0
RankFrom i slots = All (λ s. (slot_rank s ≡ 0) ⊎ (i ≤ slot_rank s)) slots

abbrev Ranked : List Slot → Type 0
Ranked [] = Unit
Ranked (s ∷ slots) = RankFrom (slot_rank s) slots × Ranked slots

abbrev by_rank : (ℕ → ℕ) → ℕ → Option ℕ
by_rank size_of zero = none
by_rank size_of (suc i) = some (size_of i)

RankFrom-top_rank :
    (i : ℕ) (slots : List Slot) → RankFrom i slots → (top_rank slots ≡ 0) ⊎ (i ≤ top_rank slots)
RankFrom-top_rank i [] h = inl refl
RankFrom-top_rank i (s ∷ slots) h = ground (arith, RankFrom-top_rank i slots h.1)

newsize_or-by_rank :
    (size_of : ℕ → ℕ) (i : ℕ) (b : Body) (t : ℕ) (rest : Option ℕ)
    → rest ≡ by_rank size_of t
    → sized_by size_of i b ≡ true
    → (t ≡ 0) ⊎ (truncate_rank b i ≤ t)
    → newsize_or b rest ≡ by_rank size_of (max (truncate_rank b i) t)
newsize_or-by_rank size_of i (truncate n) zero none e h r = rw ((==_iff n _).0 h, max_zero i)
  where
    max_zero : (i : ℕ) → max (suc i) 0 ≡ suc i
    max_zero i = omega arith
newsize_or-by_rank size_of i (truncate n) zero (some k) e h r = cc
newsize_or-by_rank size_of i (truncate n) (suc t) none e h r = cc
newsize_or-by_rank size_of i (truncate n) (suc t) (some k) e h r =
    let m : max (suc i) (suc t) ≡ suc t = omega arith in rw m e
newsize_or-by_rank size_of i b t (some k) e h r = let m : max 0 t ≡ t = omega arith in rw m e
newsize_or-by_rank size_of i b t none e h r = let m : max 0 t ≡ t = omega arith in rw m e

-- In such a vector the last truncate is the one of the greatest number.
slots_newsize-by_rank :
    (size_of : ℕ → ℕ) (slots : List Slot)
    → IsSizedBy size_of slots
    → Ranked slots
    → slots_newsize slots ≡ by_rank size_of (top_rank slots)
slots_newsize-by_rank size_of [] h r = refl
slots_newsize-by_rank size_of (none ∷ slots) h r =
    let m : max 0 (top_rank slots) ≡ top_rank slots = omega arith in
    rw m (slots_newsize-by_rank size_of slots h.1 r.1)
slots_newsize-by_rank size_of (some op ∷ slots) h r =
    newsize_or-by_rank size_of (id_of op.id) op.body (top_rank slots) (slots_newsize slots)
      (slots_newsize-by_rank size_of slots h.1 r.1) h.0 (RankFrom-top_rank _ slots r.0)

-- The sort puts the truncates in the order of their numbers.
later_rank :
    (x y : GenericOperation) (a b : Body)
    → x.body ≡ a
    → y.body ≡ b
    → precedes (some x) (some y) ≡ true
    → (truncate_rank b (id_of y.id) ≡ 0)
      ⊎ (truncate_rank a (id_of x.id) ≤ truncate_rank b (id_of y.id))
unfolding type_code
later_rank x y (truncate m) (truncate n) e f h =
    let i : id_of x.id ≤ id_of y.id = leb→le _ _ (rw (e, f) at h) in inr (omega arith)
later_rank x y a (truncate n) e f h = inr (omega arith)
later_rank x y a b e f h = inl refl

slot_rank_mono :
    (s t : Slot) → precedes s t ≡ true → (slot_rank t ≡ 0) ⊎ (slot_rank s ≤ slot_rank t)
slot_rank_mono s none h = inl refl
slot_rank_mono none (some y) h = inr (omega arith)
slot_rank_mono (some x) (some y) h = later_rank x y x.body y.body refl refl h

RankFrom-slot_rank :
    (s : Slot) (slots : List Slot)
    → All (λ t. precedes s t ≡ true) slots
    → RankFrom (slot_rank s) slots
RankFrom-slot_rank s [] h = tt
RankFrom-slot_rank s (t ∷ slots) h = (slot_rank_mono s t h.0, RankFrom-slot_rank s slots h.1)

Ordered-Ranked : (slots : List Slot) → Ordered precedes slots → Ranked slots
Ordered-Ranked [] o = tt
Ordered-Ranked (s ∷ slots) o = (RankFrom-slot_rank s slots o.0, Ordered-Ranked slots o.1)

-- The operations are numbered in increasing order, from `i` on.
abbrev pub NumberedFrom : ℕ → List GenericOperation → Type 0
NumberedFrom i [] = Unit
NumberedFrom i (op ∷ ops) = (j : ℕ) × (op.id ≡ some j) × (i ≤ j) × NumberedFrom (suc j) ops

abbrev truncate_size : Body → ℕ
truncate_size (truncate n) = n
truncate_size _ = 0

abbrev size_of_number : List GenericOperation → ℕ → ℕ
size_of_number [] j = 0
size_of_number (op ∷ ops) j =
    if id_of op.id == j then truncate_size op.body else size_of_number ops j

clip_step-rank :
    (t : Option ℕ) (op : GenericOperation) (b : Body)
    → op.body ≡ b
    → slot_rank (clip_step t op b).1 ≡ truncate_rank b (id_of op.id)
unfolding clip_step
clip_step-rank (some m) op (write w) e = ground arith
clip_step-rank none op (truncate n) e = rw e
clip_step-rank none op b e = ap (λ c. truncate_rank c (id_of op.id)) e
clip_step-rank (some m) op b e = ap (λ c. truncate_rank c (id_of op.id)) e

clip_step-sized :
    (f : ℕ → ℕ) (t : Option ℕ) (op : GenericOperation) (b : Body)
    → op.body ≡ b
    → slot_sized_by f (clip_step t op b).1 ≡ sized_by f (id_of op.id) b
unfolding clip_step
clip_step-sized f (some m) op (write w) e = ground arith
clip_step-sized f none op (truncate n) e = rw e
clip_step-sized f none op b e = ap (λ c. sized_by f (id_of op.id) c) e
clip_step-sized f (some m) op b e = ap (λ c. sized_by f (id_of op.id) c) e

sized_by-truncate_size :
    (f : ℕ → ℕ) (j : ℕ) (b : Body) → f j ≡ truncate_size b → sized_by f j b ≡ true
sized_by-truncate_size f j (truncate n) h = (==_iff n (f j)).1 (sym h)
sized_by-truncate_size f j _ h = refl

clip-IsSizedBy :
    (f : ℕ → ℕ) (i : ℕ) (ops : List GenericOperation)
    → NumberedFrom i ops
    → ((j : ℕ) → i ≤ j → f j ≡ size_of_number ops j)
    → IsSizedBy f (clip ops).1
unfolding clip
clip-IsSizedBy f i [] h k = tt
clip-IsSizedBy f i (op ∷ ops) (j, e, le, h) k = (
  clip_step-sized f (clip ops).0 op op.body refl
      ∙ rw e (sized_by-truncate_size f j op.body (k j le ∙ rw e (ground arith))),
  clip-IsSizedBy f (suc j) ops h (λ m lt. k m (omega arith) ∙ rw e (ground arith)),
)

clip-RankFrom :
    (k i : ℕ) (ops : List GenericOperation)
    → k ≤ suc i
    → NumberedFrom i ops
    → RankFrom k (clip ops).1
unfolding clip
clip-RankFrom k i [] le h = tt
clip-RankFrom k i (op ∷ ops) le (j, e, lt, h) = (
  rw (clip_step-rank (clip ops).0 op op.body refl, e) (bound op.body),
  clip-RankFrom k (suc j) ops (omega arith) h,
)
  where
    bound : (b : Body) → (truncate_rank b j ≡ 0) ⊎ (k ≤ truncate_rank b j)
    bound (truncate n) = inr (omega arith)
    bound _ = inl refl

clip-Ranked : (i : ℕ) (ops : List GenericOperation) → NumberedFrom i ops → Ranked (clip ops).1
unfolding clip
clip-Ranked i [] h = tt
clip-Ranked i (op ∷ ops) (j, e, lt, h) = (
  clip-RankFrom _ (suc j) ops (rw (clip_step-rank (clip ops).0 op op.body refl, e) (bound op.body))
      h,
  clip-Ranked (suc j) ops h,
)
  where
    bound : (b : Body) → truncate_rank b j ≤ suc (suc j)
    bound (truncate n) = omega arith
    bound _ = omega arith

-- A vector in the order of `cmpOperationType` with the same slots has the same last truncate.
pub slots_newsize-sorted :
    (i : ℕ) (ops : List GenericOperation) (slots : List Slot)
    → NumberedFrom i ops
    → Perm slots (clip ops).1
    → Ordered precedes slots
    → slots_newsize slots ≡ last_newsize ops
slots_newsize-sorted i ops slots h p o =
    let f : ℕ → ℕ = size_of_number ops in
    let sized : IsSizedBy f (clip ops).1 = clip-IsSizedBy f i ops h (λ j le. refl) in
    slots_newsize-by_rank f slots (All-perm (slot_sized_by f) (Perm.symm p) sized)
      (Ordered-Ranked slots o)
    ∙ ap (by_rank f) (top_rank-perm p)
    ∙ sym (slots_newsize-by_rank f (clip ops).1 sized (clip-Ranked i ops h))
    ∙ clip-slots_newsize ops

-- Numbered operations have ids, and so have the slots that are left of them.
clip_write-SlotHasId :
    (m : ℕ) (op : GenericOperation) (w : WriteOperation) → HasId op → SlotHasId (clip_write m op w)
unfolding clip_write
clip_write-SlotHasId m op w h = elim (Bool-cases (ltb m (w.offset + w.size))) [
  | inr e ↦ rw e h
  | inl e ↦ rw e (elim (Bool-cases (leb m w.offset)) [ inl d ↦ rw d tt | inr d ↦ rw d h ])
]

clip_step-SlotHasId :
    (t : Option ℕ) (op : GenericOperation) (b : Body) → HasId op → SlotHasId (clip_step t op b).1
unfolding clip_step
clip_step-SlotHasId (some m) op (write w) h = clip_write-SlotHasId m op w h
clip_step-SlotHasId none op (truncate n) h = h
clip_step-SlotHasId none op _ h = h
clip_step-SlotHasId (some m) op _ h = h

pub clip-SlotHasId :
    (i : ℕ) (ops : List GenericOperation) → NumberedFrom i ops → All SlotHasId (clip ops).1
unfolding clip
clip-SlotHasId i [] h = tt
clip-SlotHasId i (op ∷ ops) (j, e, lt, h) =
    (clip_step-SlotHasId (clip ops).0 op op.body (rw e (λ q. cc)), clip-SlotHasId (suc j) ops h)
