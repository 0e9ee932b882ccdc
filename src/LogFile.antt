-- ===== src/LogFile.antt =====
-- syncedfs-daemon/client.c, `loadLog`: the log as the bytes of a file. The functions of protobuf-c
-- are a parameter.
pub mod Loading
use syncedfs.Prelude.{
  ℕ, zero, suc, Bool, true, false, Option, none, some, List, [], ◌∷◌, ◌++◌, ◌==◌, if◌then◌else◌,
  length, take, drop, ltb,
}
use syncedfs.CString.{CString, eqb}
use syncedfs.Operation.{GenericOperation}
use syncedfs.HashTable.{HashTable}
use syncedfs.OperationLog.{
  FileOperations, Memory, Attempt, success, failed, fault, ◌>>=◌, State, add_operation,
}
use syncedfs.Logger.{Entry}
use syncedfs.Wire.{Codec, read_length}
use syncedfs.LinkMatching.{Tree, match_inodefiles}

module _ (M : Memory) (allocates : ℕ → Bool) (C : Codec Entry)
    (F : HashTable CString FileOperations eqb) (I : HashTable ℕ FileOperations ◌==◌) where
  -- `fileop->relative_path` reads through NULL where nothing could be unpacked.
  unfoldable pub add_unpacked : Option Entry → State F I → Attempt (State F I)
  unfolding add_operation
  add_unpacked none s = fault
  add_unpacked (some (relpath, op)) s = add_operation M F I relpath op s

  -- `alocatedmem` grows with the longest message.
  unfoldable pub grow_buffer : ℕ → ℕ → Attempt ℕ
  grow_buffer allocated msglen =
      if ltb allocated msglen
      then if allocates msglen then success msglen else failed
      else success allocated

  unfoldable pub add_entry : ℕ → List ℕ → State F I → Attempt (State F I)
  unfolding add_unpacked
  add_entry msglen bytes s =
      if ltb (length bytes) msglen then failed else add_unpacked (C.unpack (take msglen bytes)) s

  unfoldable pub after_length :
      (ℕ → List ℕ → State F I → Attempt (State F I))
      → Option (ℕ × List ℕ)
      → ℕ
      → State F I
      → Attempt (State F I)
  unfolding grow_buffer add_entry
  after_length continue none allocated s = success s
  after_length continue (some (msglen, bytes)) allocated s = do
    more ← grow_buffer allocated msglen
    s' ← add_entry msglen bytes s
    continue more (drop msglen bytes) s'

  -- The loop of `loadLog`. It ends where fewer than four bytes are left. Each turn takes four bytes
  -- at least, so that the number of bytes is enough fuel.
  unfoldable pub read_log : ℕ → ℕ → List ℕ → State F I → Attempt (State F I)
  unfolding read_length after_length
  read_log zero allocated bytes s = success s
  read_log (suc fuel) allocated bytes s =
      after_length (read_log fuel) (read_length bytes) allocated s

  -- `loadLog` returns 0 whatever `matchInodefiles` returns. Where that has lost the vector of an
  -- entry, the transfer reads it through NULL.
  unfoldable pub ignore_result : Attempt (Bool × State F I) → Attempt (State F I)
  ignore_result (success (b, s)) = success s
  ignore_result failed = fault
  ignore_result fault = fault

  -- `loadLog`
  unfoldable pub load_log : CString → Tree → ℕ → List ℕ → State F I → Attempt (State F I)
  unfolding read_log match_inodefiles ignore_result
  load_log snapshot T inode bytes s = do
    s' ← read_log (length bytes) 0 bytes s
    ignore_result (match_inodefiles M F I snapshot T inode s')
