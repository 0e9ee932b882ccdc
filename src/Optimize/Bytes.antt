-- ===== src/Optimize/Bytes.antt =====
-- What the operations of one file do to its content, as POSIX describes `pwrite` and `truncate`, and
-- which bytes of it the optimised vector restores.
use syncedfs.Prelude.{
  ℕ, ◌+◌, ◌≤◌, max, ◌≡◌, refl, Bool, true, false, ◌&&◌, ◌||◌, Option, none, some, List, [], ◌∷◌,
  ltb, leb, ◌==◌, if◌then◌else◌, arith, any, map, sym, ◌∙◌,
}
use syncedfs.Operation.{GenericOperation, Body, write, truncate}
use syncedfs.Optimize.{Slot, clip, clip_step}
use syncedfs.Optimize.Coverage.{covers, cuts, at_slot, at_operation, covered, cut, slots_covered}
use syncedfs.Optimize.Newsize.{newsize_or, last_newsize, clip-last_newsize}

-- A file: its size, and its bytes by position (0 behind the end).
pub record Content : Type 0 where
  pub size : ℕ
  pub byte : ℕ → ℕ

-- An operation as the user ran it: a write put the byte `stored x` at position x.
pub record Event : Type 0 where
  pub operation : GenericOperation
  pub stored : ℕ → ℕ

abbrev pub byte_after : ℕ → Body → (ℕ → ℕ) → ℕ → ℕ
byte_after x (write w) stored b =
    if leb w.offset x && ltb x (w.offset + w.size) then stored x else b
byte_after x (truncate n) stored b = if leb n x then 0 else b
byte_after x _ stored b = b

abbrev pub size_after : Body → ℕ → ℕ
size_after (write w) s = if w.size == 0 then s else max s (w.offset + w.size)
size_after (truncate n) s = n
size_after _ s = s

abbrev pub apply : Event → Content → Content
apply e c = record {
  size = size_after e.operation.body c.size;
  byte = λ x. byte_after x e.operation.body e.stored (c.byte x);
}

unfoldable pub run : List Event → Content → Content
run [] c = c
run (e ∷ events) c = run events (apply e c)

-- The server replays the vector with the bytes that the client read from its snapshot.
abbrev pub event_from : (ℕ → ℕ) → GenericOperation → Event
event_from source op = record { operation = op; stored = source }

unfoldable pub replay : (ℕ → ℕ) → List GenericOperation → Content → Content
unfolding run
replay source ops c = run (map (event_from source) ops) c

abbrev pub operations : List Event → List GenericOperation
operations [] = []
operations (e ∷ events) = e.operation ∷ operations events

-- A position behind the size of the last truncate is cut off.
newsize_or-cuts :
    (x n : ℕ) (b : Body) (t : Option ℕ) (c : Bool)
    → newsize_or b t ≡ some n
    → n ≤ x
    → (t ≡ some n → c ≡ true)
    → (cuts x b || c) ≡ true
newsize_or-cuts x n b (some m) c h le k = rw (k h) (ground arith)
newsize_or-cuts x n (truncate m) none c h le k = ground arith
newsize_or-cuts x n _ none c h le k = cc

pub last_newsize-cut :
    (x n : ℕ) (ops : List GenericOperation) → last_newsize ops ≡ some n → n ≤ x → cut x ops ≡ true
last_newsize-cut x n [] h le = cc
last_newsize-cut x n (op ∷ ops) h le =
    newsize_or-cuts x n op.body (last_newsize ops) (cut x ops) h le
      (λ e. last_newsize-cut x n ops e le)

-- A byte that no clipped write covers comes out as the truncates alone leave it.
uncovered_step :
    (x : ℕ) (t : Option ℕ) (c : Bool) (op : GenericOperation) (b : Body) (stored : ℕ → ℕ) (v : ℕ)
    → op.body ≡ b
    → ((n : ℕ) → t ≡ some n → n ≤ x → c ≡ true)
    → at_slot (covers x) (clip_step t op b).1 ≡ false
    → (if c then 0 else byte_after x b stored v) ≡ (if cuts x b || c then 0 else v)
unfolding clip_step
uncovered_step x none c op (write w) stored v e k h = ground arith
uncovered_step x (some m) c op (write w) stored v e k h = ground (arith, k m refl)
uncovered_step x t c op (truncate n) stored v e k h = ground arith
uncovered_step x t c op _ stored v e k h = ground arith

pub byte-run_uncovered :
    (x : ℕ) (events : List Event) (c : Content)
    → slots_covered x (clip (operations events)).1 ≡ false
    → (run events c).byte x ≡ (if cut x (operations events) then 0 else c.byte x)
unfolding run clip
byte-run_uncovered x [] c h = refl
byte-run_uncovered x (e ∷ events) c h =
    let ops = operations events in
    byte-run_uncovered x events (apply e c) (ground arith)
    ∙ uncovered_step x (clip ops).0 (cut x ops) e.operation e.operation.body e.stored (c.byte x)
        refl (λ n found le. last_newsize-cut x n ops (sym (clip-last_newsize ops) ∙ found) le)
        (ground arith)

-- In the optimised vector no truncate stands behind a write.
abbrev pub is_truncate : Body → Bool
is_truncate (truncate n) = true
is_truncate _ = false

abbrev pub NoTruncateBehind : Body → Bool → Type 0
NoTruncateBehind (write w) later = later ≡ false
NoTruncateBehind _ later = Unit

abbrev pub WritesLast : List GenericOperation → Type 0
WritesLast [] = Unit
WritesLast (op ∷ ops) =
    NoTruncateBehind op.body (any (at_operation is_truncate) ops) × WritesLast ops

abbrev pub SlotsWritesLast : List Slot → Type 0
SlotsWritesLast [] = Unit
SlotsWritesLast (none ∷ slots) = SlotsWritesLast slots
SlotsWritesLast (some op ∷ slots) =
    NoTruncateBehind op.body (any (at_slot is_truncate) slots) × SlotsWritesLast slots

cut_of_no_truncate :
    (x : ℕ) (ops : List GenericOperation)
    → any (at_operation is_truncate) ops ≡ false
    → cut x ops ≡ false
cut_of_no_truncate x [] h = refl
cut_of_no_truncate x (op ∷ ops) h =
    ground (arith, cuts_of_no_truncate op.body, cut_of_no_truncate x ops)
  where
    cuts_of_no_truncate : (b : Body) → is_truncate b ≡ false → cuts x b ≡ false
    cuts_of_no_truncate (truncate n) h = ground arith
    cuts_of_no_truncate _ h = refl

-- A replay with the bytes of `source` gives these to every covered position.
replay_step :
    (x : ℕ) (source : ℕ → ℕ) (b : Body) (covered cut later : Bool) (v : ℕ)
    → NoTruncateBehind b later
    → (later ≡ false → cut ≡ false)
    → (if covered then source x else if cut then 0 else byte_after x b source v)
      ≡ (if covers x b || covered then source x else if cuts x b || cut then 0 else v)
replay_step x source (write w) covered cut later v h k = ground (arith, k h)
replay_step x source (truncate n) covered cut later v h k = ground arith
replay_step x source _ covered cut later v h k = refl

pub byte-replay :
    (x : ℕ) (source : ℕ → ℕ) (ops : List GenericOperation) (c : Content)
    → WritesLast ops
    → (replay source ops c).byte x
      ≡ (if covered x ops then source x else if cut x ops then 0 else c.byte x)
unfolding replay
byte-replay x source [] c h = refl
byte-replay x source (op ∷ ops) c h =
    byte-replay x source ops (apply (event_from source op) c) h.1
    ∙ replay_step x source op.body (covered x ops) (cut x ops) _ (c.byte x) h.0
        (cut_of_no_truncate x ops)
