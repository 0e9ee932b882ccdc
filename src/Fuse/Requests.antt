-- ===== src/Fuse/Requests.antt =====
-- syncedfs/syncedfs.c, the operations that change the file system, against a description of what the
-- log should hold: the changes that were made, in their order.
use syncedfs.Prelude.{
  ℕ, zero, suc, Bool, not, Option, none, some, List, [], ◌∷◌, ◌++◌, ltb, if◌then◌else◌, take,
}
use syncedfs.CString.{CString}
use syncedfs.Operation.{Body}
use syncedfs.System
use syncedfs.System.{System, Call, Stat, file_exists, is_regular, is_fifo, is_some}
use syncedfs.Logger.{Entry, Log, Disk, Interrupts, log_generic, generic}
use syncedfs.Fuse.{
  Root, State, Answer, at, nlink_of, ino_of, sfs_mknod, sfs_mkdir, sfs_unlink, sfs_rmdir,
  sfs_symlink, sfs_rename, sfs_link, sfs_chmod, sfs_chown, sfs_truncate, sfs_write, sfs_create,
  sfs_ftruncate,
}

pub data Request : Type 0 where
  mknod : CString → ℕ → ℕ → Request
  mkdir : CString → ℕ → Request
  unlink : CString → Request
  rmdir : CString → Request
  symlink : CString → CString → Request
  rename : CString → CString → Request
  link : CString → CString → Request
  chmod : CString → ℕ → Request
  chown : CString → ℕ → ℕ → Request
  truncate : CString → ℕ → Request
  write : CString → List ℕ → ℕ → ℕ → ℕ → Request
  create : CString → ℕ → Request
  ftruncate : CString → ℕ → ℕ → Request

-- A file whose links are all gone, or that has one link only
abbrev pub is_last : Option Stat → Bool
is_last st = not (ltb 1 (nlink_of st))

module _ (Y : System) (D : Disk) (R : Root) where
  -- `fuse_operations`: the operation for a request
  unfoldable pub serve : Request → Interrupts → State Y.World → Answer Y.World
  unfolding sfs_mknod sfs_mkdir sfs_unlink sfs_rmdir sfs_symlink sfs_rename sfs_link sfs_chmod
      sfs_chown sfs_truncate sfs_write sfs_create sfs_ftruncate
  serve (mknod path mode dev) i = sfs_mknod Y D R i path mode dev
  serve (mkdir path mode) i = sfs_mkdir Y D R i path mode
  serve (unlink path) i = sfs_unlink Y D R i path
  serve (rmdir path) i = sfs_rmdir Y D R i path
  serve (symlink path new) i = sfs_symlink Y D R i path new
  serve (rename path newpath) i = sfs_rename Y D R i path newpath
  serve (link path newpath) i = sfs_link Y D R i path newpath
  serve (chmod path mode) i = sfs_chmod Y D R i path mode
  serve (chown path uid gid) i = sfs_chown Y D R i path uid gid
  serve (truncate path newsize) i = sfs_truncate Y D R i path newsize
  serve (write path buf size offset fh) i = sfs_write Y D R i path buf size offset fh
  serve (create path mode) i = sfs_create Y D R i path mode
  serve (ftruncate path offset fh) i = sfs_ftruncate Y D R i path offset fh

-- The system call that makes the change
unfoldable pub call_of : Root → Request → Call
call_of R (mknod path mode dev) =
    if is_regular mode
    then System.open_new (at R path) mode
    else if is_fifo mode
    then System.mkfifo (at R path) mode
    else System.mknod (at R path) mode dev
call_of R (mkdir path mode) = System.mkdir (at R path) mode
call_of R (unlink path) = System.unlink (at R path)
call_of R (rmdir path) = System.rmdir (at R path)
call_of R (symlink path new) = System.symlink path (at R new)
call_of R (rename path newpath) = System.rename (at R path) (at R newpath)
call_of R (link path newpath) = System.link (at R path) (at R newpath)
call_of R (chmod path mode) = System.chmod (at R path) mode
call_of R (chown path uid gid) = System.chown (at R path) uid gid
call_of R (truncate path newsize) = System.truncate (at R path) newsize
call_of R (write path buf size offset fh) = System.pwrite fh (take size buf) offset
call_of R (create path mode) = System.creat (at R path) mode
call_of R (ftruncate path offset fh) = System.ftruncate fh offset

module _ (Y : System) (R : Root) where
  -- The change that a call with the reply `r` has made, between the worlds `w` and `w'`
  unfoldable pub change : Request → ℕ → Y.World → Y.World → Option Entry
  change (mknod path mode dev) r w w' = some (path, generic (Body.mknod mode dev))
  change (mkdir path mode) r w w' = some (path, generic (Body.mkdir mode))
  change (unlink path) r w w' =
      let st = Y.stat (at R path) w in some (path, generic (Body.unlink (is_last st) (ino_of st)))
  change (rmdir path) r w w' = some (path, generic Body.rmdir)
  change (symlink path new) r w w' = some (new, generic (Body.symlink new path))
  change (rename path newpath) r w w' =
      let st = Y.stat (at R newpath) w in
      if file_exists Y (at R path) w'
      then none
      else some (path, generic (Body.rename path newpath (is_last st) (ino_of st)))
  change (link path newpath) r w w' = some (path, generic (Body.link path newpath))
  change (chmod path mode) r w w' = some (path, generic (Body.chmod mode))
  change (chown path uid gid) r w w' = some (path, generic (Body.chown uid gid))
  change (truncate path newsize) r w w' = some (path, generic (Body.truncate newsize))
  -- `pwrite` may write less than it is asked to
  change (write path buf size offset fh) zero w w' = none
  change (write path buf size offset fh) (suc n) w w' =
      some (path, generic (Body.write (record { offset = offset; size = suc n; payload = none })))
  change (create path mode) r w w' = some (path, generic (Body.create mode))
  change (ftruncate path offset fh) r w w' = some (path, generic (Body.truncate offset))

  -- A regular file that `mknod` makes is closed again.
  unfoldable pub tidy : Request → ℕ → Y.World → Y.World
  tidy (mknod path mode dev) fd w = if is_regular mode then (Y.perform (System.close fd) w).1 else w
  tidy q fd w = w

  unfoldable pub outcome_from : Request → Y.World → Option ℕ × Y.World → Option Entry × Y.World
  unfolding change tidy
  outcome_from q w (none, w') = (none, w')
  outcome_from q w (some r, w') = (change q r w w', tidy q r w')

  -- The change that a request makes, if any, and what it leaves of the system
  unfoldable pub outcome : Request → Y.World → Option Entry × Y.World
  unfolding outcome_from call_of
  outcome q w = outcome_from q w (Y.perform (call_of R q) w)

abbrev pub listed : Option Entry → List Entry
listed none = []
listed (some e) = e ∷ []

module _ (D : Disk) where
  abbrev note_change : Interrupts → Option Entry → Log → Log
  note_change i none l = l
  note_change i (some e) l = log_generic D e i l

module _ (Y : System) (D : Disk) (R : Root) where
  abbrev expected : Interrupts → Option Entry × Y.World → Log → State Y.World
  expected i (e, w) l = record { world = w; log = note_change D i e l }

  -- Requests that are served one by one, as FUSE does with one thread
  abbrev pub serve_all : List (Request × Interrupts) → State Y.World → State Y.World
  serve_all [] s = s
  serve_all ((q, i) ∷ requests) s = serve_all requests (serve Y D R q i s).state

  -- The changes that requests make, whatever is logged
  abbrev pub changes : List (Request × Interrupts) → Y.World → List Entry
  changes [] w = []
  changes ((q, i) ∷ requests) w = let (e, w') = outcome Y R q w in listed e ++ changes requests w'
