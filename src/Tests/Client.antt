-- ===== src/Tests/Client.antt =====
-- Concrete runs of syncedfs-daemon/client.c and optimization.c: a file with two writes and a
-- truncate between them.
use syncedfs.Prelude.{
  ℕ, ◌+◌, ◌≤◌, ◌≡◌, refl, ◌≢◌, true, false, none, some, List, [], ◌∷◌, ◌==◌, if◌then◌else◌, arith,
  map, ==_iff,
}
use syncedfs.Prelude.Int.{pos, minus_one}
use syncedfs.CString.{CString, eqb, eqb_iff}
use syncedfs.Sorting.{Sorter, Agrees}
use syncedfs.Sorting.Insertion.{insertion_sorter, insertion_sort, insert}
use syncedfs.Operation.{GenericOperation, Body, write, truncate, create, unlink, type_code}
use syncedfs.HashTable.{HashTable}
use syncedfs.HashTable.Assoc.{assoc_table, replace, without, lookup}
use syncedfs.Optimize.{
  Slot, optimize_operations, clip, clip_step, clip_write, trim, trim_step, trim_write, close_gaps,
  compare_operations,
}
use syncedfs.Optimize.Order.{compare_operations-Agrees}
use syncedfs.Optimize.Coverage.{covered}
use syncedfs.Optimize.Replay.{needed, covered-optimize_operations, replay-optimize_operations}
use syncedfs.Optimize.Shape.{
  DisjointFrom, optimize_operations-DisjointFrom, optimize_operations-ne-nil,
}
use syncedfs.Optimize.Numbering.{NumberedFrom}
use syncedfs.Optimize.Bytes.{Content, Event, run, replay}
use syncedfs.Optimize.Sizes.{WriteSome, furthest}
use syncedfs.Transfer.{transfer_file}
use syncedfs.Loader.{Outside, State, no_file}
use syncedfs.Transfer.Loading.{Delivers, Fits, with_data}
use syncedfs.Transfer.Stream.{transfer_file-Delivers}
use syncedfs.OperationLog.{
  Memory, FileOperations, State as LogState, success, add_operations, initial, initialize_fileop,
  extend_vector, discard_operations,
}
use syncedfs.OperationLog.Vector.{IsVector}
use syncedfs.OperationLog.Processing.{
  Plenty, add_operations-IsVector, add_operations-total, initial-AreVectors,
}

abbrev pub write_at : ℕ → ℕ → ℕ → GenericOperation
write_at id offset size = record {
  id = some id;
  body = write (record { offset = offset; size = size; payload = none });
}

abbrev pub cut_to : ℕ → ℕ → GenericOperation
cut_to id n = record { id = some id; body = truncate n }

abbrev pub edits : List GenericOperation
edits = write_at 0 0 3 ∷ cut_to 1 2 ∷ write_at 2 1 2 ∷ []

abbrev edits-NumberedFrom : NumberedFrom 0 edits
edits-NumberedFrom = (0, refl, omega arith, (1, refl, omega arith, (2, refl, omega arith, tt)))

abbrev edits-WriteSome : WriteSome edits
edits-WriteSome = (refl, (refl, (refl, tt)))

abbrev pub sorter : Sorter Slot
sorter = insertion_sorter Slot

covered-optimize_operations_example : covered 1 (optimize_operations sorter edits) ≡ needed 1 edits
covered-optimize_operations_example =
    covered-optimize_operations sorter 0 edits edits-NumberedFrom 1

optimize_operations-DisjointFrom_example : DisjointFrom 0 (optimize_operations sorter edits)
optimize_operations-DisjointFrom_example = optimize_operations-DisjointFrom sorter edits

optimize_operations-ne-nil_example : optimize_operations sorter edits ≢ []
optimize_operations-ne-nil_example =
    optimize_operations-ne-nil sorter 0 (write_at 0 0 3) (cut_to 1 2 ∷ write_at 2 1 2 ∷ [])
      edits-NumberedFrom edits-WriteSome

compare_operations-Agrees_example :
    Agrees (compare_operations (some (write_at 0 4 3)) (some (write_at 2 1 2))) false true
unfolding type_code
compare_operations-Agrees_example =
    compare_operations-Agrees (some (write_at 0 4 3)) (some (write_at 2 1 2)) (λ e. cc e)
      (λ e. cc e)

abbrev events : List Event
events =
    record { operation = write_at 0 0 3; stored = λ x. 7 }
    ∷ record { operation = cut_to 1 2; stored = λ x. 0 }
    ∷ record { operation = write_at 2 1 2; stored = λ x. x + 20 }
    ∷ []

abbrev file_before : Content
file_before = record { size = 1; byte = λ x. if x == 0 then 5 else 0 }

replay-optimize_operations_example :
    ((x : ℕ)
      → (replay (run events file_before).byte (optimize_operations sorter edits) file_before).byte x
        ≡ (run events file_before).byte x)
    × ((replay (run events file_before).byte (optimize_operations sorter edits) file_before).size
        ≡ (run events file_before).size)
    × (furthest (optimize_operations sorter edits) ≤ (run events file_before).size)
replay-optimize_operations_example =
    replay-optimize_operations sorter 0 events file_before edits-NumberedFrom edits-WriteSome

-- "f"
abbrev pub path_f : CString
path_f = 102 ∷ []

-- "g"
abbrev pub path_g : CString
path_g = 103 ∷ []

abbrev pub bytes_f : List ℕ
bytes_f = 7 ∷ 21 ∷ 22 ∷ []

abbrev pub outside : Outside
outside = record { source = λ path. some bytes_f; allocates = λ n. true; accepts = λ sent m. true }

abbrev pub client : State
client = record {
  loader = record { stored_path = []; fd = no_file };
  ddata = record { present = false; buffer = 0; bytes = []; offset = 0; size = 0 };
  sent = [];
}

pub edits_left : optimize_operations sorter edits ≢ []
edits_left =
    optimize_operations-ne-nil sorter 0 (write_at 0 0 3) (cut_to 1 2 ∷ write_at 2 1 2 ∷ [])
      edits-NumberedFrom edits-WriteSome

pub edits-Fits : Fits bytes_f (optimize_operations sorter edits)
unfolding optimize_operations insertion_sort insert clip clip_step clip_write trim trim_step
    trim_write close_gaps compare_operations type_code
edits-Fits = (tt, (omega arith, (omega arith, tt)))

abbrev pub memory : Memory
memory = record { entry = true; vector = λ n. true }

abbrev pub memory-Plenty : Plenty memory
memory-Plenty = record { entry = refl; vector = λ n. refl }

abbrev pub files : HashTable CString FileOperations eqb
files = assoc_table eqb eqb_iff

abbrev pub inodes : HashTable ℕ FileOperations ◌==◌
inodes = assoc_table ◌==◌ ==_iff

abbrev pub log : List (CString × GenericOperation)
log =
    (path_f, record { id = none; body = create 420 })
    ∷ (path_f, write_at 9 0 3)
    ∷ (path_g, record { id = none; body = unlink true 7 })
    ∷ []

add_operations-total_example :
    (s : LogState files inodes) × (add_operations memory files inodes log
        (initial memory files inodes)
      ≡ success s)
add_operations-total_example =
    add_operations-total memory files inodes log (initial memory files inodes) memory-Plenty
      (refl, (refl, (refl, tt))) (refl, (refl, (refl, tt))) (initial-AreVectors memory files inodes)

abbrev pub numbered : ℕ → Body → GenericOperation
numbered id body = record { id = some id; body = body }

abbrev pub entry_f : FileOperations
entry_f = record {
  relpath = path_f;
  order = pos 0;
  operations = numbered 0 (create 420) ∷ write_at 1 0 3 ∷ [];
  capacity = 8;
  inode = 0;
  created = true;
}

abbrev pub entry_g : FileOperations
entry_g = record {
  relpath = path_g;
  order = minus_one;
  operations = numbered 2 (unlink true 7) ∷ [];
  capacity = 8;
  inode = 0;
  created = false;
}

abbrev pub loaded : LogState files inodes
loaded = record {
  files = (path_f, entry_f) ∷ (path_g, entry_g) ∷ [];
  inodefiles = [];
  fileorder = 1;
  next_id = 3;
}

pub loaded_lem :
    add_operations memory files inodes log (initial memory files inodes) ≡ success loaded
unfolding add_operations initialize_fileop extend_vector discard_operations replace without eqb
    lookup
loaded_lem = refl

pub found_f : files.find path_f loaded.files ≡ some entry_f
unfolding eqb lookup
found_f = refl

add_operations-IsVector_example : IsVector 3 entry_f
add_operations-IsVector_example =
    add_operations-IsVector memory files inodes log loaded path_f entry_f (refl, (refl, (refl, tt)))
      loaded_lem found_f

transfer_file-Delivers_example :
    Delivers path_f []
      (map (with_data bytes_f) (optimize_operations sorter edits))
      (transfer_file outside path_f sorter edits client)
transfer_file-Delivers_example =
    transfer_file-Delivers outside path_f bytes_f refl (λ n. refl) (λ sent m. refl) sorter edits
      client (unfold eqb in λ e. cc e) edits-Fits edits_left

-- A file that is made, written and unlinked, and another that is unlinked meanwhile
abbrev brief_log : List (CString × GenericOperation)
brief_log = (path_f, write_at 9 0 3) ∷ (path_g, record { id = none; body = unlink true 7 }) ∷ []

abbrev emptied : LogState files inodes
emptied = record {
  files = (path_g, record entry_g { operations = numbered 2 (unlink true 7) ∷ [] }) ∷ [];
  inodefiles = [];
  fileorder = 1;
  next_id = 4;
}
