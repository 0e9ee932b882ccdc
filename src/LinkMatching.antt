-- ===== src/LinkMatching.antt =====
-- syncedfs-daemon/client.c: `matchInodefiles` and `matchInode`. The operations on an unlinked link
-- are kept under the i-node of the file; here they go to a path that the snapshot still has for it.
pub mod Conserved
pub mod Files
pub mod Walk
pub mod Complete
use syncedfs.Prelude.{
  ℕ, ◌+◌, Bool, true, false, Option, none, some, List, [], ◌∷◌, ◌==◌, if◌then◌else◌, is_empty, map,
}
use syncedfs.CString.{CString, eqb}
use syncedfs.FilePath.{absolute_path, relative_path}
use syncedfs.HashTable.{HashTable}
use syncedfs.OperationLog.{
  FileOperations, Memory, Attempt, success, failed, fault, ◌>>=◌, State, int_key, initialize_fileop,
  merge_operations,
}

-- An object that `nftw` passes to `matchInode`: its i-node is `none` behind FTW_NS.
pub record Visit : Type 0 where
  pub pathname : CString
  pub inode : Option ℕ

-- The snapshot: `st_ino` of a path, `none` where `stat` returns -1, and what `nftw` visits unless
-- it is stopped.
pub record Tree : Type 0 where
  pub stat_ino : CString → Option ℕ
  pub visits : List Visit

-- `inode` keeps its value where `stat` fails.
abbrev pub or_before : Option ℕ → ℕ → ℕ
or_before none before = before
or_before (some inode) before = inode

module _ (M : Memory) (F : HashTable CString FileOperations eqb)
    (I : HashTable ℕ FileOperations ◌==◌) where
  -- `HASH_COUNT(inodefiles) == 0`
  unfoldable pub all_matched : State F I → Bool
  all_matched s = is_empty (I.entries s.inodefiles)

  -- `merge the operations in f and remove the element from inodefiles`. `failed` where the vector
  -- of `f` is lost.
  unfoldable pub merge_matched :
      FileOperations → ℕ → Option FileOperations → State F I → Attempt (State F I)
  unfolding merge_operations
  merge_matched f inode none s = success s
  merge_matched f inode (some finode) s = do
    merged ← merge_operations M f (some finode)
    success (record s {
      files = F.update f.relpath merged s.files;
      inodefiles = I.del (int_key inode) s.inodefiles;
    })

  -- `f` points to an entry of the table.
  unfoldable pub match_file : Option FileOperations → ℕ → State F I → Attempt (State F I)
  unfolding merge_matched
  match_file none inode s = fault
  match_file (some f) inode s = merge_matched f inode (I.find (int_key inode) s.inodefiles) s

  abbrev pub unless_all :
      (State F I → Attempt (Bool × State F I)) → State F I → Attempt (Bool × State F I)
  unless_all continue s = if all_matched s then success (true, s) else continue s

  module _ (snapshot : CString) where
    -- The loop over `files`. The Boolean is `true` where it returns 0.
    unfoldable pub match_files : Tree → List CString → ℕ → State F I → Attempt (Bool × State F I)
    unfolding match_file all_matched
    match_files T [] inode s = success (false, s)
    match_files T (relpath ∷ relpaths) inode s =
        let ino = or_before (T.stat_ino (absolute_path snapshot relpath)) inode in
        match_file (F.find relpath s.files) ino s >>= unless_all (match_files T relpaths ino)

    -- A new entry for a path of the snapshot. `finode->order = fileorder++` leaves its order at -1.
    -- Where memory runs out, `matchInode` returns -1 and the tables are as before.
    unfoldable pub new_entry : CString → FileOperations → Attempt FileOperations
    unfolding initialize_fileop merge_operations
    new_entry relpath finode = do
      f ← initialize_fileop M relpath
      merge_operations M f (some finode)

    unfoldable pub add_entry : CString → ℕ → State F I → FileOperations → State F I
    add_entry relpath inode s f = record s {
      files = F.add relpath f s.files;
      inodefiles = I.del (int_key inode) s.inodefiles;
      fileorder = s.fileorder + 1;
    }

    -- `nftw` goes on, or `matchInode` has stopped it.
    unfoldable pub add_or_stop :
        CString → ℕ → Attempt FileOperations → State F I → Attempt (Bool × State F I)
    unfolding add_entry
    add_or_stop relpath inode (success f) s = success (false, add_entry relpath inode s f)
    add_or_stop relpath inode failed s = success (true, s)
    add_or_stop relpath inode fault s = fault

    unfoldable pub add_under :
        ℕ → FileOperations → Option CString → State F I → Attempt (Bool × State F I)
    unfolding new_entry add_or_stop
    add_under inode finode none s = fault
    add_under inode finode (some relpath) s = add_or_stop relpath inode (new_entry relpath finode) s

    unfoldable pub add_matched :
        CString → ℕ → Option FileOperations → State F I → Attempt (Bool × State F I)
    unfolding add_under
    add_matched pathname inode none s = success (false, s)
    add_matched pathname inode (some finode) s =
        add_under inode finode (relative_path snapshot pathname) s

    abbrev pub stop_or : Bool × State F I → Attempt (Bool × State F I)
    stop_or (stopped, s) = if stopped then success (true, s) else success (all_matched s, s)

    -- `matchInode`: the Boolean is `true` where it does not return 0.
    unfoldable pub match_inode : Visit → State F I → Attempt (Bool × State F I)
    unfolding add_matched all_matched
    match_inode v s = elim v.inode [
      | none ↦ success (false, s)
      | some inode ↦
          add_matched v.pathname inode (I.find (int_key inode) s.inodefiles) s >>= stop_or
    ]

    abbrev pub unless_stopped :
        (State F I → Attempt (State F I)) → Bool × State F I → Attempt (State F I)
    unless_stopped continue (stopped, s) = if stopped then success s else continue s

    -- `nftw(config.snapshot, matchInode, 10, flags)`
    unfoldable pub walk : List Visit → State F I → Attempt (State F I)
    unfolding match_inode
    walk [] s = success s
    walk (v ∷ visits) s = match_inode v s >>= unless_stopped (walk visits)

    unfoldable pub walk_unless_done : Tree → Bool × State F I → Attempt (Bool × State F I)
    unfolding walk all_matched
    walk_unless_done T (true, s) = success (true, s)
    walk_unless_done T (false, s) = do s' ← walk T.visits s; success (all_matched s', s')

    -- `matchInodefiles`: the Boolean is `true` where it returns 0. The variable `inode` is not
    -- initialised: it holds any value.
    unfoldable pub match_inodefiles : Tree → ℕ → State F I → Attempt (Bool × State F I)
    unfolding match_files walk_unless_done
    match_inodefiles T inode s =
        match_files T (map (λ f. f.relpath) (F.entries s.files)) inode s >>= walk_unless_done T
