-- ===== src/OperationLog.antt =====
-- syncedfs-daemon/client.c, "Log processing": `initializeFileop`, `mergeOperations`, `addOperation`.
-- A `fileop_t` holds `nelem` operations in a vector of `capacity` slots; here the operations are a
-- list of length `nelem`. The static variables are the two hash tables and the two counters.
pub mod Vector
pub mod Validity
pub mod Processing
pub mod Frame
pub mod Removal
use syncedfs.Prelude.{
  ℕ, ◌+◌, ◌*◌, ◌%◌, ◌^◌, Bool, true, false, Option, none, some, List, [], ◌∷◌, ◌++◌, ltb, leb, ◌==◌,
  if◌then◌else◌, length,
}
use syncedfs.Prelude.Int.{ℤ, pos, minus_one, eqb_ℤ, min_ℤ}
use syncedfs.CString.{CString, eqb}
use syncedfs.Operation.{GenericOperation, Body, unlink, rmdir, create, mknod, mkdir, symlink, link}
use syncedfs.HashTable.{HashTable}

-- config.h: VECTOR_INIT_CAPACITY
abbrev pub vector_init_capacity : ℕ
vector_init_capacity = 8

-- `fileop_t`
pub record FileOperations : Type 0 where
  pub relpath : CString
  pub order : ℤ
  pub operations : List GenericOperation
  pub capacity : ℕ
  pub inode : ℕ
  pub created : Bool

-- Whether `malloc(sizeof (fileop_t))` succeeds, and the allocation of a vector of so many slots.
pub record Memory : Type 0 where
  pub entry : Bool
  pub vector : ℕ → Bool

-- Return 0, return -1, or a read through NULL.
pub data Attempt {ℓ} (A : Type ℓ) : Type ℓ where
  success : A → Attempt A
  failed : Attempt A
  fault : Attempt A

infixl 10 ◌>>=◌
abbrev pub ◌>>=◌ {ℓ κ} : {A : Type ℓ} {B : Type κ} → Attempt A → (A → Attempt B) → Attempt B
failed >>= next = failed
fault >>= next = fault
success x >>= next = next x

abbrev pub entry_of : CString → List GenericOperation → ℤ → Bool → FileOperations
entry_of relpath ops order created = record {
  relpath = relpath;
  order = order;
  operations = ops;
  capacity = vector_init_capacity;
  inode = 0;
  created = created;
}

-- the constructors behind which `created` is set
abbrev pub creates : Body → Bool
creates (create m) = true
creates (mknod m d) = true
creates (mkdir m) = true
creates (symlink o n) = true
creates (link o n) = true
creates _ = false

abbrev pub removes : Body → Bool
removes (unlink l i) = true
removes rmdir = true
removes _ = false

module _ (M : Memory) where
  unfoldable pub initialize_fileop : CString → Attempt FileOperations
  initialize_fileop relpath =
      if M.entry
      then if M.vector vector_init_capacity
        then success (entry_of relpath [] minus_one false)
        else failed
      else failed

  -- `src` may be NULL.
  unfoldable pub merge_operations : FileOperations → Option FileOperations → Attempt FileOperations
  merge_operations dest none = success dest
  merge_operations dest (some src) =
      let newcap = length dest.operations + length src.operations in
      -- `realloc(p, 0)` frees `p` and returns NULL
      if newcap == 0
      then failed
      else if M.vector newcap
      then success
          (record dest { operations = dest.operations ++ src.operations; capacity = newcap })
      else failed

  -- `extend vector of operations if needed`
  unfoldable pub extend_vector : FileOperations → Attempt FileOperations
  extend_vector f =
      if length f.operations == f.capacity
      then if M.vector (f.capacity * 2)
        then success (record f { capacity = f.capacity * 2 })
        else failed
      else success f

abbrev pub append_operation : FileOperations → GenericOperation → FileOperations
append_operation f op = record f { operations = f.operations ++ op ∷ [] }

-- The file whose vector an operation goes to: a link is kept with its new path.
abbrev pub target : CString → Body → CString
target relpath (link o newpath) = newpath
target relpath _ = relpath

-- The static variables: `files`, `inodefiles`, `fileorder`, and the `id` of `addOperation`.
pub record State (F : HashTable CString FileOperations eqb) (I : HashTable ℕ FileOperations ◌==◌)
    : Type 0 where
  pub files : F.Table
  pub inodefiles : I.Table
  pub fileorder : ℕ
  pub next_id : ℕ

-- HASH_FIND_INT and HASH_ADD_INT take a key of `sizeof (int)`: the first four bytes of the i-node
-- number, on a machine with the low byte first.
abbrev pub int_key : ℕ → ℕ
int_key inode = inode % 2 ^ 32

module _ (M : Memory) (F : HashTable CString FileOperations eqb)
    (I : HashTable ℕ FileOperations ◌==◌) where
  -- An unlink that leaves other links: the operations on `f` go to the table of i-nodes.
  unfoldable pub keep_operations :
      ℕ → Option FileOperations → Option FileOperations → State F I → Attempt (State F I)
  unfolding initialize_fileop merge_operations
  keep_operations inode (some finode) f s = do
    merged ← merge_operations M finode f
    -- `min(f->order, finode->order)` reads through `f`
    elim f [
      | none ↦ fault
      | some g ↦ success (record s {
        inodefiles =
            I.update (int_key inode) (record merged { order = min_ℤ g.order merged.order })
              s.inodefiles;
      })
    ]
  keep_operations inode none none s = success s
  keep_operations inode none (some f) s = do
    fresh ← initialize_fileop M f.relpath
    merged ← merge_operations M fresh (some f)
    success (record s {
      inodefiles =
          I.add (int_key inode) (record merged { order = f.order; inode = inode }) s.inodefiles;
    })

  -- An unlink of the last link discards what the table of i-nodes holds for the file.
  unfoldable pub discard_operations : ℕ → Option FileOperations → State F I → State F I
  discard_operations inode none s = s
  discard_operations inode (some finode) s = record s {
    inodefiles = I.del (int_key inode) s.inodefiles;
  }

  unfoldable pub sort_out_links : CString → Body → State F I → Attempt (State F I)
  unfolding keep_operations discard_operations
  sort_out_links relpath (unlink false inode) s =
      keep_operations inode (I.find (int_key inode) s.inodefiles) (F.find relpath s.files) s
  sort_out_links relpath (unlink true inode) s =
      success (discard_operations inode (I.find (int_key inode) s.inodefiles) s)
  sort_out_links relpath _ s = success s

  unfoldable pub put_single : CString → GenericOperation → State F I → Attempt (State F I)
  unfolding initialize_fileop
  put_single relpath op s = do
    f ← initialize_fileop M relpath
    success (record s { files = F.add relpath (record f { operations = op ∷ [] }) s.files })

  -- `get rid of all operations`, once the entry with these operations is removed and freed. The code
  -- then reads the `created` flag of the freed entry; the model takes the value that it had.
  unfoldable pub put_back :
      CString → GenericOperation → Bool → List GenericOperation → State F I → Attempt (State F I)
  unfolding put_single
  put_back relpath op created [] s = fault
  put_back relpath op created (first ∷ rest) s =
      if removes first.body
      then put_single relpath first s
      else if created
      then success s
      else put_single relpath op s

  unfoldable pub remove_file :
      CString → GenericOperation → Option FileOperations → State F I → Attempt (State F I)
  unfolding put_back
  remove_file relpath op none s = put_single relpath op s
  remove_file relpath op (some f) s =
      put_back relpath op f.created f.operations (record s { files = F.del relpath s.files })

  -- `if this file was previously deleted, assign new fileorder`
  unfoldable pub place : CString → FileOperations → State F I → State F I
  place relpath f s =
      if eqb_ℤ f.order minus_one
      then record s {
        files = F.update relpath (record f { order = pos s.fileorder }) s.files;
        fileorder = s.fileorder + 1;
      }
      else record s { files = F.update relpath f s.files }

  -- `handle all other cases`
  unfoldable pub append_to :
      CString → GenericOperation → Option FileOperations → State F I → Attempt (State F I)
  unfolding initialize_fileop extend_vector place
  append_to relpath op none s = do
    fresh ← initialize_fileop M relpath
    f ← extend_vector M (record fresh { order = pos s.fileorder; created = creates op.body })
    success (record s {
      files = F.add relpath (append_operation f op) s.files;
      fileorder = s.fileorder + 1;
    })
  append_to relpath op (some old) s = do
    f ← extend_vector M old
    success (place relpath (append_operation f op) s)

  unfoldable pub remove_numbered : CString → GenericOperation → State F I → Attempt (State F I)
  unfolding sort_out_links remove_file
  remove_numbered relpath op s = do
    s' ← sort_out_links relpath op.body s
    remove_file relpath op (F.find relpath s'.files) s'

  unfoldable pub append_numbered : CString → GenericOperation → State F I → Attempt (State F I)
  unfolding append_to
  append_numbered relpath op s =
      let path = target relpath op.body in append_to path op (F.find path s.files) s

  unfoldable pub add_numbered : CString → GenericOperation → State F I → Attempt (State F I)
  unfolding remove_numbered append_numbered
  add_numbered relpath op s =
      if removes op.body then remove_numbered relpath op s else append_numbered relpath op s

  -- `addOperation`
  unfoldable pub add_operation : CString → GenericOperation → State F I → Attempt (State F I)
  unfolding add_numbered
  add_operation relpath op s =
      add_numbered relpath (record op { id = some s.next_id })
        (record s { next_id = s.next_id + 1 })

  -- The loop of `loadLog`, over the messages of the log.
  unfoldable pub add_operations :
      List (CString × GenericOperation) → State F I → Attempt (State F I)
  unfolding add_operation
  add_operations [] s = success s
  add_operations ((relpath, op) ∷ log) s = do s' ← add_operation relpath op s; add_operations log s'

  abbrev pub initial : State F I
  initial = record { files = F.empty; inodefiles = I.empty; fileorder = 0; next_id = 0 }
