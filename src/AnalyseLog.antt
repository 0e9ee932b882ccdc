-- ===== src/AnalyseLog.antt =====
-- analyse-log/main.c: the program that prints a log, and how much its writes come to. What `printf`
-- gets is modelled, not the words around it.
pub mod Sizes
pub mod Printing
use syncedfs.Prelude.{
  ℕ, zero, suc, ◌+◌, ◌-◌, ◌%◌, ◌^◌, ◌==◌, Bool, true, false, ◌&&◌, Option, none, some, List, [],
  ◌∷◌, ◌++◌, if◌then◌else◌, ltb, length, take, drop, map,
}
use syncedfs.Prelude.Int.{ℤ, pos, negsuc}
use syncedfs.CString.{CString, codes, eqb}
use syncedfs.Sorting.{Sorter}
use syncedfs.HashTable.{HashTable}
use syncedfs.Operation.{
  GenericOperation, Body, unlink, rmdir, create, mknod, mkdir, symlink, link, chmod, chown,
  setxattr, removexattr, truncate, write, rename,
}
use syncedfs.Optimize.{Slot, optimize_operations}
use syncedfs.OperationLog.{FileOperations, Memory, Attempt, success, failed, fault, State, initial}
use syncedfs.Logger.{Entry}
use syncedfs.LinkMatching.{Tree}
use syncedfs.Wire.{Codec, read_length}
use syncedfs.LogFile.{grow_buffer, load_log}
use syncedfs.Client.{compare_order}

-- `(int) n`
abbrev pub as_int : ℕ → ℤ
as_int n = let m = n % 2 ^ 32 in if ltb m (2 ^ 31) then pos m else negsuc (2 ^ 32 - 1 - m)

-- A call of `printf`, with its arguments; the first is the number of the operation.
pub data Line : Type 0 where
  heading : CString → Line
  prefix : CString → Line
  total_size : ℕ → Line
  empty : ℕ → Line
  created : ℕ → ℤ → Line
  node : ℕ → ℤ → ℕ → Line
  directory : ℕ → ℤ → Line
  symbolic_link : ℕ → CString → Line
  hard_link : ℕ → CString → CString → Line
  -- offset, size, id
  written : ℕ → ℕ → ℤ → ℤ → Line
  unlinked : ℕ → ℕ → Line
  directory_removed : ℕ → Line
  -- newsize, id
  truncated : ℕ → ℤ → ℤ → Line
  mode : ℕ → ℤ → Line
  owner : ℕ → ℤ → ℤ → Line
  renamed : ℕ → CString → Line

-- an id that is not set reads as the default 0
abbrev pub id_of : GenericOperation → ℕ
id_of op = elim op.id [ none ↦ 0 | some n ↦ n ]

unfoldable pub print_body : GenericOperation → ℕ → Body → List Line
print_body op i (create m) = created i (as_int m) ∷ []
print_body op i (mknod m d) = node i (as_int m) d ∷ []
print_body op i (mkdir m) = directory i (as_int m) ∷ []
print_body op i (symlink old new) = symbolic_link i new ∷ []
print_body op i (link old new) = hard_link i old new ∷ []
print_body op i (write w) = written i w.offset (as_int w.size) (as_int (id_of op)) ∷ []
print_body op i (unlink last inode) = unlinked i inode ∷ []
print_body op i rmdir = directory_removed i ∷ []
print_body op i (truncate n) = truncated i (as_int n) (as_int (id_of op)) ∷ []
print_body op i (chmod m) = mode i (as_int m) ∷ []
print_body op i (chown u g) = owner i (as_int u) (as_int g) ∷ []
print_body op i (rename old new last inode) = renamed i new ∷ []
print_body op i setxattr = []
print_body op i removexattr = []

-- `printOperation`
unfoldable pub print_operation : Slot → ℕ → List Line
unfolding print_body
print_operation none i = empty i ∷ []
print_operation (some op) i = print_body op i op.body

abbrev pub written_size : Body → ℕ
written_size (write w) = w.size
written_size _ = 0

-- The inner loop of `writesSize`
unfoldable pub operations_size : List GenericOperation → ℕ
operations_size [] = 0
operations_size (op ∷ ops) = written_size op.body + operations_size ops

-- `writesSize`, over the entries of the table
unfoldable pub writes_size : List FileOperations → ℕ
unfolding operations_size
writes_size [] = 0
writes_size (f ∷ files) = operations_size f.operations + writes_size files

unfoldable pub print_operations : ℕ → List GenericOperation → List Line
unfolding print_operation
print_operations i [] = []
print_operations i (op ∷ ops) = print_operation (some op) i ++ print_operations (suc i) ops

module _ (S : Sorter Slot) where
  -- `optimizedWritesSize`
  unfoldable pub optimized_writes_size : List FileOperations → ℕ
  unfolding operations_size optimize_operations
  optimized_writes_size [] = 0
  optimized_writes_size (f ∷ files) =
      operations_size (optimize_operations S f.operations) + optimized_writes_size files

  unfoldable pub print_files : List FileOperations → List Line
  unfolding print_operations optimize_operations
  print_files [] = []
  print_files (f ∷ files) =
      heading f.relpath ∷ print_operations 0 (optimize_operations S f.operations)
      ++ print_files files

  -- `printLog`
  unfoldable pub print_log : Sorter FileOperations → List FileOperations → List Line
  unfolding print_files compare_order
  print_log H files = print_files (H.sort compare_order files)

-- What `main` has printed, and what it returns; `none` where it reads through NULL.
pub record Run : Type 0 where
  pub lines : List Line
  pub status : Option ℤ

-- `argv[2]` if `argc == 3`
abbrev pub only : List CString → Option CString
only (what ∷ []) = some what
only _ = none

abbrev pub minus : ℤ
minus = negsuc 0

module _ (M : Memory) (allocates : ℕ → Bool) (C : Codec Entry)
    (F : HashTable CString FileOperations eqb) (I : HashTable ℕ FileOperations ◌==◌) where
  abbrev pub behind : List Line → Run → Run
  behind lines r = record { lines = lines ++ r.lines; status = r.status }

  abbrev pub stop : Option ℤ → Run
  stop status = record { lines = []; status = status }

  unfoldable pub print_unpacked : ℕ → Option Entry → (ℕ → Run) → Run
  unfolding print_operation
  print_unpacked i none continue = stop none
  print_unpacked i (some (relpath, op)) continue =
      behind (prefix relpath ∷ print_operation (some op) i) (continue (suc i))

  unfoldable pub print_entry : ℕ → ℕ → List ℕ → (ℕ → Run) → Run
  unfolding print_unpacked
  print_entry i msglen bytes continue =
      if ltb (length bytes) msglen
      then stop (some minus)
      else print_unpacked i (C.unpack (take msglen bytes)) continue

  unfoldable pub print_grown : Attempt ℕ → (ℕ → Run) → Run
  print_grown (success more) continue = continue more
  print_grown failed continue = stop (some minus)
  print_grown fault continue = stop none

  unfoldable pub print_next : (ℕ → ℕ → List ℕ → Run) → ℕ → ℕ → Option (ℕ × List ℕ) → Run
  unfolding print_grown print_entry grow_buffer
  print_next continue i allocated none = stop (some (pos 0))
  print_next continue i allocated (some (msglen, bytes)) =
      print_grown (grow_buffer M allocates C F I allocated msglen)
        λ more. print_entry i msglen bytes λ j. continue j more (drop msglen bytes)

  -- `printPureLog`. `matchInodefiles` finds no entry in the tables, which are empty. As in
  -- `loadLog`, the number of bytes is enough fuel.
  unfoldable pub print_pure_log : ℕ → ℕ → ℕ → List ℕ → Run
  unfolding print_next read_length
  print_pure_log zero i allocated bytes = stop (some (pos 0))
  print_pure_log (suc fuel) i allocated bytes =
      print_next (print_pure_log fuel) i allocated (read_length bytes)

  -- `main` behind the opening of the log, once it is loaded
  unfoldable pub report :
      Sorter Slot → Sorter FileOperations → Option CString → List FileOperations → Run
  unfolding writes_size optimized_writes_size print_log
  report S H none files = record { lines = print_log S H files; status = some (pos 0) }
  report S H (some what) files =
      if eqb what (codes "writes")
      then record { lines = total_size (writes_size files) ∷ []; status = some (pos 0) }
      else if eqb what (codes "optimized-writes")
      then record { lines = total_size (optimized_writes_size S files) ∷ []; status = some (pos 0) }
      else record { lines = print_log S H files; status = some (pos 0) }

  unfoldable pub report_loaded :
      Sorter Slot → Sorter FileOperations → Option CString → Attempt (State F I) → Run
  unfolding report
  report_loaded S H what (success s) = report S H what (F.entries s.files)
  report_loaded S H what failed = stop (some minus)
  report_loaded S H what fault = stop none

  abbrev pub is_pure : Option CString → Bool
  is_pure none = false
  is_pure (some what) = eqb what (codes "pure")

  -- `main`, over the third argument and the bytes of the log; it is `none` if there are not just two
  -- arguments.
  unfoldable pub analyse :
      Sorter Slot → Sorter FileOperations → Option CString → Tree → ℕ → List ℕ → Run
  unfolding print_pure_log load_log report_loaded
  analyse S H what T inode bytes =
      if is_pure what
      then print_pure_log (length bytes) 0 0 bytes
      else report_loaded S H what (
          load_log M allocates C F I (codes "/media/btrfs/syncedfs/primary/physical") T inode bytes
            (initial M F I))

  -- EXIT_FAILURE
  abbrev pub exit_failure : ℤ
  exit_failure = pos 1

  -- The arguments behind the name of the program, and the bytes of the log, `none` where it cannot be
  -- opened.
  unfoldable pub main_from :
      Sorter Slot
      → Sorter FileOperations
      → Tree
      → ℕ
      → List CString
      → (CString → Option (List ℕ))
      → Run
  unfolding analyse
  main_from S H T inode [] open_log = stop (some exit_failure)
  main_from S H T inode (path ∷ rest) open_log = elim (open_log path) [
    | none ↦ stop (some exit_failure)
    | some bytes ↦ analyse S H (only rest) T inode bytes
  ]
