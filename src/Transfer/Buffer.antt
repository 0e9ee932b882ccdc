-- ===== src/Transfer/Buffer.antt =====
-- The bytes of a pending write in the buffer of syncedfs-daemon/client.c, while more is loaded.
use mathlib.Core.Path.{ap₂}
use syncedfs.Prelude.{
  ℕ, zero, suc, ◌+◌, ◌-◌, ◌≤◌, ◌≡◌, refl, Option, none, some, List, [], ◌∷◌, ◌++◌, length, take,
  drop, All, arith, ap, sym, ◌∙◌,
}
use syncedfs.Operation.{GenericOperation, Body, write}
use syncedfs.Transfer.{cons_packed, pack_operation, pack_operations}
use syncedfs.Loader.{DynData, Region, Pending}

module _ {ℓ} {A : Type ℓ} where
  pub length-take_le : (n : ℕ) (xs : List A) → n ≤ length xs → length (take n xs) ≡ n
  length-take_le zero xs h = refl
  length-take_le (suc n) [] h = absurd (omega arith)
  length-take_le (suc n) (x ∷ xs) h = ap suc (length-take_le n xs (omega arith))

  pub length-drop : (n : ℕ) (xs : List A) → length (drop n xs) ≡ length xs - n
  length-drop zero xs = omega arith
  length-drop (suc n) [] = omega arith
  length-drop (suc n) (x ∷ xs) = omega (arith, length-drop n xs)

  take_all : (xs : List A) → take (length xs) xs ≡ xs
  take_all [] = refl
  take_all (x ∷ xs) = ap (λ r. x ∷ r) (take_all xs)

  -- What was loaded last is read back.
  pub read_last :
      (k : ℕ) (xs ys : List A) → k ≤ length xs → take (length ys) (drop k (take k xs ++ ys)) ≡ ys
  read_last zero xs ys h = take_all ys
  read_last (suc k) [] ys h = absurd (omega arith)
  read_last (suc k) (x ∷ xs) ys h = read_last k xs ys (omega arith)

  take-before :
      (n k : ℕ) (xs ys : List A) → n ≤ k → k ≤ length xs → take n (take k xs ++ ys) ≡ take n xs
  take-before zero k xs ys h l = refl
  take-before (suc n) zero xs ys h l = absurd (omega arith)
  take-before (suc n) (suc k) [] ys h l = absurd (omega arith)
  take-before (suc n) (suc k) (x ∷ xs) ys h l =
      ap (λ r. x ∷ r) (take-before n k xs ys (omega arith) (omega arith))

  -- What lies below the offset stays.
  read_before :
      (start n k : ℕ) (xs ys : List A)
      → start + n ≤ k
      → k ≤ length xs
      → take n (drop start (take k xs ++ ys)) ≡ take n (drop start xs)
  read_before zero n k xs ys h l = take-before n k xs ys (omega arith) l
  read_before (suc start) n zero xs ys h l = absurd (omega arith)
  read_before (suc start) n (suc k) [] ys h l = absurd (omega arith)
  read_before (suc start) n (suc k) (x ∷ xs) ys h l =
      read_before start n k xs ys (omega arith) (omega arith)

-- A pending operation points into the filled part of the buffer.
abbrev pub InBuffer : DynData → Option Region → Type 0
InBuffer d none = Unit
InBuffer d (some r) = (r.buffer ≡ d.buffer) × (r.start + r.size ≤ d.offset)

abbrev pub PendingIn : DynData → List Pending → Type 0
PendingIn d pending = All (λ p. InBuffer d p.region) pending

-- The buffer with more data behind its offset.
abbrev pub extend : DynData → List ℕ → ℕ → DynData
extend d got n = record d { bytes = take d.offset d.bytes ++ got; offset = d.offset + n }

pack_operation-extend :
    (d : DynData) (got : List ℕ) (n : ℕ) (op : GenericOperation) (b : Body) (r : Option Region)
    → d.offset ≤ length d.bytes
    → InBuffer d r
    → pack_operation (extend d got n) op b r ≡ pack_operation d op b r
unfolding pack_operation
pack_operation-extend d got n op (write w) (some r) l h =
    rw (read_before r.start r.size d.offset d.bytes got h.1 l)
pack_operation-extend d got n op (write w) none l h = refl
pack_operation-extend d got n op b r l h = refl

pub pack_operations-extend :
    (d : DynData) (got : List ℕ) (n : ℕ) (pending : List Pending)
    → d.offset ≤ length d.bytes
    → PendingIn d pending
    → pack_operations (extend d got n) pending ≡ pack_operations d pending
unfolding pack_operations
pack_operations-extend d got n [] l h = refl
pack_operations-extend d got n (p ∷ pending) l h =
    ap₂ cons_packed (pack_operation-extend d got n p.operation p.operation.body p.region l h.0)
      (pack_operations-extend d got n pending l h.1)

pub PendingIn-extend :
    (d : DynData) (got : List ℕ) (n : ℕ) (pending : List Pending)
    → PendingIn d pending
    → PendingIn (extend d got n) pending
PendingIn-extend d got n [] h = tt
PendingIn-extend d got n (p ∷ pending) h = (step p.region h.0, PendingIn-extend d got n pending h.1)
  where
    step : (r : Option Region) → InBuffer d r → InBuffer (extend d got n) r
    step none h = tt
    step (some r) h = (h.0, omega arith)

cons_packed-some :
    (a : Option GenericOperation) (b : Option (List GenericOperation)) {ops : List GenericOperation}
    → cons_packed a b ≡ some ops
    → (x : GenericOperation) × (xs : List GenericOperation) × (a ≡ some x)
      × (b ≡ some xs)
      × (ops ≡ x ∷ xs)
cons_packed-some none b h = cc
cons_packed-some (some x) none h = cc
cons_packed-some (some x) (some xs) h = (x, xs, refl, refl, cc)

pub pack_operations-snoc :
    (d : DynData) (pending : List Pending) (p : Pending) (ops : List GenericOperation)
    (op : GenericOperation)
    → pack_operations d pending ≡ some ops
    → pack_operation d p.operation p.operation.body p.region ≡ some op
    → pack_operations d (pending ++ p ∷ []) ≡ some (ops ++ op ∷ [])
unfolding pack_operations
pack_operations-snoc d [] p ops op h k = let e : ops ≡ [] = cc in rw (e, k)
pack_operations-snoc d (q ∷ pending) p ops op h k =
    let (x, xs, packed, rest, e) = cons_packed-some _ _ h in
    ap₂ cons_packed packed (pack_operations-snoc d pending p xs op rest k)
    ∙ ap (λ all. some (all ++ op ∷ [])) (sym e)

pub PendingIn-snoc :
    (d : DynData) (pending : List Pending) (p : Pending)
    → PendingIn d pending
    → InBuffer d p.region
    → PendingIn d (pending ++ p ∷ [])
PendingIn-snoc d [] p h k = (k, tt)
PendingIn-snoc d (q ∷ pending) p h k = (h.0, PendingIn-snoc d pending p h.1 k)
