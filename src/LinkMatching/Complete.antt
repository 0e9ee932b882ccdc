-- ===== src/LinkMatching/Complete.antt =====
-- syncedfs-daemon/client.c, `matchInodefiles`: where the snapshot has a path for each i-node, all
-- operations find one.
use syncedfs.Prelude.{ℕ, ◌≡◌, ◌⊎◌, Bool, true, some, List, [], ◌∷◌, ◌==◌, All}
use syncedfs.CString.{CString, eqb}
use syncedfs.Operation.{GenericOperation}
use syncedfs.HashTable.{HashTable}
use syncedfs.OperationLog.{FileOperations, Memory, Attempt, success, State, int_key}
use syncedfs.OperationLog.Processing.{Plenty}
use syncedfs.LinkMatching.{Visit}
use syncedfs.LinkMatching.Conserved.{Stands, Present}

module _ (M : Memory) (plenty : Plenty M) (F : HashTable CString FileOperations eqb)
    (I : HashTable ℕ FileOperations ◌==◌) where
  -- The entries that the loop walks are those that can be found.
  abbrev pub IsListed : State F I → Type 0
  IsListed s = All (λ f. Present M F I f.relpath s) (F.entries s.files)

  -- Some object of the walk has an i-node with this key.
  abbrev pub Reaches : ℕ → List Visit → Type 0
  Reaches j [] = ⊥
  Reaches j (v ∷ visits) = ((i : ℕ) × (v.inode ≡ some i) × (int_key i ≡ j)) ⊎ Reaches j visits

  -- The end of `matchInodefiles` where every i-node has found its path.
  abbrev pub IsMatched : State F I → Attempt (Bool × State F I) → Type 0
  IsMatched s result =
      (s' : State F I) × (result ≡ success (true, s'))
      × ((ops : List GenericOperation) → Stands M F I ops s → Stands M F I ops s')
      × ((j : ℕ) (g : FileOperations)
          → I.find j s.inodefiles ≡ some g
          → Stands M F I g.operations s')
