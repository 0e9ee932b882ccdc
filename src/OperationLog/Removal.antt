-- ===== src/OperationLog/Removal.antt =====
-- `addOperation` of syncedfs-daemon/client.c on a file that is made and removed again.
use syncedfs.Prelude.{ℕ, ◌≡◌, true, false, some, List, [], ◌∷◌, ◌==◌}
use syncedfs.CString.{CString, eqb}
use syncedfs.Operation.{GenericOperation}
use syncedfs.HashTable.{HashTable}
use syncedfs.OperationLog.{FileOperations, Memory, State, removes}

abbrev BeginsKept : List GenericOperation → Type 0
BeginsKept [] = ⊥
BeginsKept (op ∷ ops) = removes op.body ≡ false

-- The entry of a file that was made in this log: its first operation is no removal.
abbrev IsTemporary : FileOperations → Type 0
IsTemporary f = (f.created ≡ true) × BeginsKept f.operations

module _ (M : Memory) (F : HashTable CString FileOperations eqb)
    (I : HashTable ℕ FileOperations ◌==◌) where
  -- The entry of a path, if it is there, is of a file that was made in this log.
  abbrev Temporary : CString → State F I → Type 0
  Temporary p s = (f : FileOperations) × (F.find p s.files ≡ some f) × IsTemporary f

  -- No operation of the log removes the file at `p`.
  abbrev pub Spares : CString → List (CString × GenericOperation) → Type 0
  Spares p [] = Unit
  Spares p ((relpath, op) ∷ log) = (removes op.body ≡ true → eqb p relpath ≡ false) × Spares p log
