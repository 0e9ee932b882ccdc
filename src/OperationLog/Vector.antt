-- ===== src/OperationLog/Vector.antt =====
-- A vector of operations: what `addOperation` of syncedfs-daemon/client.c keeps true of each.
use syncedfs.Prelude.{
  ℕ, suc, ◌≤◌, ◌<◌, ◌≡◌, refl, true, false, some, List, [], ◌∷◌, ◌++◌, length, arith, length-append,
}
use syncedfs.Prelude.Int.{minus_one}
use syncedfs.CString.{CString}
use syncedfs.Operation.{GenericOperation}
use syncedfs.Optimize.Numbering.{NumberedFrom}
use syncedfs.Optimize.Sizes.{WriteSome, writes_some}
use syncedfs.OperationLog.{
  FileOperations, Memory, Attempt, success, failed, fault, ◌>>=◌, entry_of, append_operation,
  initialize_fileop, extend_vector,
}

-- What succeeds as a whole has succeeded in its first step.
pub >>=-success {ℓ κ} :
    {B : Type κ} {A : Type ℓ} {result : B} (first : Attempt A) (next : A → Attempt B)
    → (first >>= next) ≡ success result
    → (x : A) × (first ≡ success x) × (next x ≡ success result)
>>=-success failed next e = cc
>>=-success fault next e = cc
>>=-success (success x) next e = (x, refl, e)

-- Numbered from `i` on, all below `n`.
abbrev pub NumberedBelow : ℕ → ℕ → List GenericOperation → Type 0
NumberedBelow n i [] = i ≤ n
NumberedBelow n i (op ∷ ops) = (j : ℕ) × (op.id ≡ some j) × (i ≤ j) × NumberedBelow n (suc j) ops

pub NumberedBelow-NumberedFrom :
    (n i : ℕ) (ops : List GenericOperation) → NumberedBelow n i ops → NumberedFrom i ops
NumberedBelow-NumberedFrom n i [] h = tt
NumberedBelow-NumberedFrom n i (op ∷ ops) (j, e, le, h) =
    (j, e, le, NumberedBelow-NumberedFrom n (suc j) ops h)

NumberedBelow-mono :
    (n m i : ℕ) (ops : List GenericOperation)
    → n ≤ m
    → NumberedBelow n i ops
    → NumberedBelow m i ops
NumberedBelow-mono n m i [] le h = omega arith
NumberedBelow-mono n m i (op ∷ ops) le (j, e, lt, h) =
    (j, e, lt, NumberedBelow-mono n m (suc j) ops le h)

NumberedBelow-snoc :
    (n i : ℕ) (ops : List GenericOperation) (op : GenericOperation)
    → op.id ≡ some n
    → NumberedBelow n i ops
    → NumberedBelow (suc n) i (ops ++ op ∷ [])
NumberedBelow-snoc n i [] op e h = (n, e, h, omega arith)
NumberedBelow-snoc n i (q ∷ ops) op e (j, f, le, h) =
    (j, f, le, NumberedBelow-snoc n (suc j) ops op e h)

WriteSome-snoc :
    (ops : List GenericOperation) (op : GenericOperation)
    → writes_some op.body ≡ true
    → WriteSome ops
    → WriteSome (ops ++ op ∷ [])
WriteSome-snoc [] op w h = (w, tt)
WriteSome-snoc (q ∷ ops) op w h = (h.0, WriteSome-snoc ops op w h.1)

pub record IsVector (n : ℕ) (f : FileOperations) : Type 0 where
  pub left : 1 ≤ length f.operations
  pub fits : length f.operations ≤ f.capacity
  pub numbered : NumberedBelow n 0 f.operations
  pub nonempty : WriteSome f.operations

pub IsVector-mono : (n : ℕ) {f : FileOperations} → IsVector n f → IsVector (suc n) f
IsVector-mono n {f} h = record {
  left = h.left;
  fits = h.fits;
  numbered = NumberedBelow-mono n (suc n) 0 f.operations (omega arith) h.numbered;
  nonempty = h.nonempty;
}

-- `append_operation` behind `extend_vector`
pub IsVector-append :
    (n : ℕ) (f : FileOperations) (op : GenericOperation)
    → op.id ≡ some n
    → writes_some op.body ≡ true
    → length f.operations < f.capacity
    → NumberedBelow n 0 f.operations
    → WriteSome f.operations
    → IsVector (suc n) (append_operation f op)
IsVector-append n f op e w room h k = record {
  left = omega (arith, length-append f.operations (op ∷ []));
  fits = omega (arith, length-append f.operations (op ∷ []));
  numbered = NumberedBelow-snoc n 0 f.operations op e h;
  nonempty = WriteSome-snoc f.operations op w k;
}

module _ (M : Memory) where
  pub initialize_fileop-success :
      (relpath : CString) (f : FileOperations)
      → initialize_fileop M relpath ≡ success f
      → f ≡ entry_of relpath [] minus_one false
  unfolding initialize_fileop
  initialize_fileop-success relpath f h = ground arith

  -- A vector that is full is doubled: there is room for one more operation.
  pub extend_vector-room :
      (f g : FileOperations)
      → 1 ≤ f.capacity
      → length f.operations ≤ f.capacity
      → extend_vector M f ≡ success g
      → (g.operations ≡ f.operations) × (length g.operations < g.capacity)
  unfolding extend_vector
  extend_vector-room f g lt fits h = ground arith
