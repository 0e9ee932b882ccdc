-- ===== src/Logger.antt =====
-- syncedfs/log.c and syncedfs/sighandlers.c: the log of operations, and the signal SIGUSR1 by which
-- the client asks for a switch to a new log.
--
-- `switch_log` renames `<resource>.log` to `<resource>.sync`; here the log is the list `current`, and
-- `switched` holds the logs that were renamed. A signal may come between any two steps, also in the
-- critical section of `logGeneric`, where it is put off. A write that fails leaves nothing behind.
pub mod History
pub mod Switch
use syncedfs.Prelude.{
  ℕ, Bool, true, false, ◌&&◌, not, Option, none, some, List, [], ◌∷◌, ◌++◌, ltb, if◌then◌else◌,
}
use syncedfs.CString.{CString}
use syncedfs.Operation.{
  GenericOperation, Body, unlink, rmdir, create, mknod, mkdir, symlink, link, chmod, chown,
  truncate, write, rename,
}

-- `FileOperation`, the message of the log
abbrev pub Entry : Type 0
Entry = CString × GenericOperation

-- The static variables of log.c and sighandlers.c, the files of the log, and the processes that the
-- signal SIGUSR1 was sent to. `opened` is `logfd != -1`.
pub record Log : Type 0 where
  pub opened : Bool
  pub current : List Entry
  pub switched : List (List Entry)
  pub write_pending : Bool
  pub switch_pending : Bool
  pub pid_pending : ℕ
  pub signalled : List ℕ

-- Whether `close`, `rename` and `open` of the log succeed, and the write of an entry.
pub record Disk : Type 0 where
  pub closes : Log → Bool
  pub renames : Log → Bool
  pub opens : Log → Bool
  pub writes : Entry → Log → Bool

-- The signals, by the process that sends them, that come in the critical section before and behind
-- the write.
pub record Interrupts : Type 0 where
  pub before : List ℕ
  pub behind : List ℕ

abbrev pub fresh_log : Log
fresh_log = record {
  opened = true;
  current = [];
  switched = [];
  write_pending = false;
  switch_pending = false;
  pid_pending = 0;
  signalled = [];
}

module _ (D : Disk) where
  -- `openOpLog`
  unfoldable pub open_op_log : Log → Bool × Log
  open_op_log l = (D.opens l, record l { opened = D.opens l })

  unfoldable pub rename_log : Log → Bool × Log
  rename_log l =
      if D.renames l
      then (true, record l { current = []; switched = l.switched ++ l.current ∷ [] })
      else (false, l)

  -- `switchLog`
  unfoldable pub switch_log : Log → Bool × Log
  unfolding open_op_log rename_log
  switch_log l =
      let (renamed, l₁) = rename_log l in
      let (reopened, l₂) = open_op_log l₁ in (D.closes l && renamed && reopened, l₂)

  abbrev pub confirm_switch : ℕ → Bool × Log → Log
  confirm_switch pid (false, l) = l
  confirm_switch pid (true, l) = record l {
    switch_pending = false;
    signalled = l.signalled ++ pid ∷ [];
  }

  -- `handleSIGUSR1` where no write is pending
  unfoldable pub switch_now : ℕ → Log → Log
  unfolding switch_log
  switch_now pid l = confirm_switch pid (switch_log l)

  -- `handleSIGUSR1`, called by the system on a signal of this process
  unfoldable pub handle_sigusr1 : ℕ → Log → Log
  unfolding switch_now
  handle_sigusr1 pid l =
      if l.write_pending
      then record l { switch_pending = true; pid_pending = pid }
      else switch_now pid l

  unfoldable pub deliver : List ℕ → Log → Log
  unfolding handle_sigusr1
  deliver [] l = l
  deliver (pid ∷ pids) l = deliver pids (handle_sigusr1 pid l)

  unfoldable pub write_entry : Entry → Log → Log
  write_entry e l = if D.writes e l then record l { current = l.current ++ e ∷ [] } else l

  -- `handleSIGUSR1(0, NULL, NULL)`, which `logGeneric` calls behind its critical section
  unfoldable pub run_pending : Log → Log
  unfolding switch_now
  run_pending l = if l.switch_pending then switch_now l.pid_pending l else l

  abbrev pub begin_write : Log → Log
  begin_write l = record l { write_pending = true }

  abbrev pub end_write : Log → Log
  end_write l = record l { write_pending = false }

  -- `logGeneric`
  unfoldable pub log_generic : Entry → Interrupts → Log → Log
  unfolding deliver write_entry run_pending
  log_generic e i l =
      if not l.opened
      then l
      else run_pending
          (end_write (deliver i.behind (write_entry e (deliver i.before (begin_write l)))))

abbrev pub generic : Body → GenericOperation
generic body = record { id = none; body = body }

-- `logCreate` and the others: the entry that each hands to `logGeneric`.
unfoldable pub log_create : CString → ℕ → Entry
log_create relpath mode = (relpath, generic (create mode))

unfoldable pub log_mknod : CString → ℕ → ℕ → Entry
log_mknod relpath mode dev = (relpath, generic (mknod mode dev))

unfoldable pub log_mkdir : CString → ℕ → Entry
log_mkdir relpath mode = (relpath, generic (mkdir mode))

unfoldable pub log_symlink : CString → CString → Entry
log_symlink relpath newpath = (relpath, generic (symlink relpath newpath))

unfoldable pub log_link : CString → CString → Entry
log_link relpath newpath = (relpath, generic (link relpath newpath))

unfoldable pub log_write : CString → ℕ → ℕ → Entry
log_write relpath size offset =
    (relpath, generic (write (record { offset = offset; size = size; payload = none })))

unfoldable pub log_unlink : CString → ℕ → ℕ → Entry
log_unlink relpath nlink inode =
    (relpath, generic (unlink (if ltb 1 nlink then false else true) inode))

unfoldable pub log_rmdir : CString → Entry
log_rmdir relpath = (relpath, generic rmdir)

unfoldable pub log_truncate : CString → ℕ → Entry
log_truncate relpath newsize = (relpath, generic (truncate newsize))

unfoldable pub log_chmod : CString → ℕ → Entry
log_chmod relpath mode = (relpath, generic (chmod mode))

unfoldable pub log_chown : CString → ℕ → ℕ → Entry
log_chown relpath uid gid = (relpath, generic (chown uid gid))

unfoldable pub log_rename : CString → CString → ℕ → ℕ → Entry
log_rename relpath newpath nlink inode =
    (relpath, generic (rename relpath newpath (if ltb 1 nlink then false else true) inode))
