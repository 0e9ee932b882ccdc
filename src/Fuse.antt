-- ===== src/Fuse.antt =====
-- syncedfs/syncedfs.c: the operations of the mounted file system that change files, names or
-- attributes. Each does the system call on the path below the root directory, and logs the
-- operation if the call succeeds.
pub mod Requests
pub mod Reading
pub mod Directory
pub mod Mounting
use syncedfs.Prelude.{
  ℕ, zero, suc, ◌+◌, Bool, true, false, not, Option, none, some, List, if◌then◌else◌, take, length,
}
use syncedfs.Prelude.Int.{ℤ, pos, minus_one}
use syncedfs.CString.{CString}
use syncedfs.FilePath.{full_path}
use syncedfs.System
use syncedfs.System.{System, Call, Stat, file_exists, sfs_error, is_regular, is_fifo}
use syncedfs.Logger.{
  Entry, Log, Disk, Interrupts, log_generic, log_create, log_mknod, log_mkdir, log_symlink,
  log_link, log_write, log_unlink, log_rmdir, log_truncate, log_chmod, log_chown, log_rename,
}

-- `rootdir` and `rootdir_len` of `config`
pub record Root : Type 0 where
  pub rootdir : CString
  pub rootdir_len : ℕ

pub record State (World : Type 0) : Type 0 where
  pub world : World
  pub log : Log

-- The result, and `fi->fh` where the operation sets it.
pub record Answer (World : Type 0) : Type 0 where
  pub retstat : ℤ
  pub fh : Option ℤ
  pub state : State World

abbrev pub nlink_of : Option Stat → ℕ
nlink_of none = 0
nlink_of (some st) = st.nlink

abbrev pub ino_of : Option Stat → ℕ
ino_of none = 0
ino_of (some st) = st.ino

abbrev pub handle_of : Option ℕ → ℤ
handle_of none = minus_one
handle_of (some fd) = pos fd

abbrev pub at : Root → CString → CString
at R path = full_path R.rootdir R.rootdir_len path

module _ (Y : System) (D : Disk) (R : Root) (i : Interrupts) where
  abbrev pub answer : ℤ → Y.World → Log → Answer Y.World
  answer retstat w l = record {
    retstat = retstat;
    fh = none;
    state = record { world = w; log = l };
  }

  -- `if (retstat != -1)` the operation is logged, `if (retstat < 0)` the result is -errno.
  unfoldable pub log_or_error : Entry → Option ℕ → Y.World → Log → Answer Y.World
  unfolding log_generic sfs_error
  log_or_error e (some r) w l = answer (pos r) w (log_generic D e i l)
  log_or_error e none w l = answer (sfs_error Y w) w l

  unfoldable pub do_logged : Call → Entry → State Y.World → Answer Y.World
  unfolding log_or_error
  do_logged call e s = let (r, w) = Y.perform call s.world in log_or_error e r w s.log

  -- A call that is not logged
  unfoldable pub do_silent : Call → State Y.World → Answer Y.World
  unfolding sfs_error
  do_silent call s =
      let (r, w) = Y.perform call s.world in
      answer (elim r [ some n ↦ pos n | none ↦ sfs_error Y w ]) w s.log

  unfoldable pub close_node : Entry → Option ℕ → Y.World → Log → Answer Y.World
  unfolding log_generic sfs_error
  close_node e none w l = answer (sfs_error Y w) w l
  close_node e (some fd) w l =
      let (r, w') = Y.perform (System.close fd) w in
      answer (elim r [ some n ↦ pos n | none ↦ sfs_error Y w' ]) w' (log_generic D e i l)

  unfoldable pub make_regular : CString → ℕ → ℕ → State Y.World → Answer Y.World
  unfolding close_node log_mknod
  make_regular path mode dev s =
      let (fd, w) = Y.perform (System.open_new (at R path) mode) s.world in
      close_node (log_mknod path mode dev) fd w s.log

  unfoldable pub sfs_mknod : CString → ℕ → ℕ → State Y.World → Answer Y.World
  unfolding make_regular do_logged log_mknod
  sfs_mknod path mode dev s =
      if is_regular mode
      then make_regular path mode dev s
      else if is_fifo mode
      then do_logged (System.mkfifo (at R path) mode) (log_mknod path mode dev) s
      else do_logged (System.mknod (at R path) mode dev) (log_mknod path mode dev) s

  unfoldable pub sfs_mkdir : CString → ℕ → State Y.World → Answer Y.World
  unfolding do_logged log_mkdir
  sfs_mkdir path mode = do_logged (System.mkdir (at R path) mode) (log_mkdir path mode)

  unfoldable pub sfs_unlink : CString → State Y.World → Answer Y.World
  unfolding do_logged log_unlink
  sfs_unlink path s =
      let st = Y.stat (at R path) s.world in
      do_logged (System.unlink (at R path)) (log_unlink path (nlink_of st) (ino_of st)) s

  unfoldable pub sfs_rmdir : CString → State Y.World → Answer Y.World
  unfolding do_logged log_rmdir
  sfs_rmdir path = do_logged (System.rmdir (at R path)) (log_rmdir path)

  -- `path` is where the link points, `link` is the link.
  unfoldable pub sfs_symlink : CString → CString → State Y.World → Answer Y.World
  unfolding do_logged log_symlink
  sfs_symlink path link = do_logged (System.symlink path (at R link)) (log_symlink link path)

  -- `rename` keeps the old path if both are links to one file; that is not logged.
  unfoldable pub log_renamed : CString → Entry → Option ℕ → Y.World → Log → Answer Y.World
  unfolding log_generic sfs_error file_exists
  log_renamed old e none w l = answer (sfs_error Y w) w l
  log_renamed old e (some r) w l =
      answer (pos r) w (if not (file_exists Y old w) then log_generic D e i l else l)

  unfoldable pub sfs_rename : CString → CString → State Y.World → Answer Y.World
  unfolding log_renamed log_rename
  sfs_rename path newpath s =
      let st = Y.stat (at R newpath) s.world in
      let (r, w) = Y.perform (System.rename (at R path) (at R newpath)) s.world in
      log_renamed (at R path) (log_rename path newpath (nlink_of st) (ino_of st)) r w s.log

  unfoldable pub sfs_link : CString → CString → State Y.World → Answer Y.World
  unfolding do_logged log_link
  sfs_link path newpath = do_logged (System.link (at R path) (at R newpath)) (log_link path newpath)

  unfoldable pub sfs_chmod : CString → ℕ → State Y.World → Answer Y.World
  unfolding do_logged log_chmod
  sfs_chmod path mode = do_logged (System.chmod (at R path) mode) (log_chmod path mode)

  unfoldable pub sfs_chown : CString → ℕ → ℕ → State Y.World → Answer Y.World
  unfolding do_logged log_chown
  sfs_chown path uid gid = do_logged (System.chown (at R path) uid gid) (log_chown path uid gid)

  -- The result of `sfs_error` is dropped.
  unfoldable pub sfs_truncate : CString → ℕ → State Y.World → Answer Y.World
  unfolding log_generic log_truncate
  sfs_truncate path newsize s =
      let (r, w) = Y.perform (System.truncate (at R path) newsize) s.world in
      answer (handle_of r) w
        (elim r [ some n ↦ log_generic D (log_truncate path newsize) i s.log | none ↦ s.log ])

  unfoldable pub sfs_utime : CString → ℕ → State Y.World → Answer Y.World
  unfolding do_silent
  sfs_utime path times = do_silent (System.utime (at R path) times)

  unfoldable pub sfs_open : CString → ℕ → State Y.World → Answer Y.World
  unfolding sfs_error
  sfs_open path flags s =
      let (r, w) = Y.perform (System.open_with (at R path) flags) s.world in
      record {
        retstat = elim r [ some fd ↦ pos 0 | none ↦ sfs_error Y w ];
        fh = some (handle_of r);
        state = record { world = w; log = s.log };
      }

  unfoldable pub log_written : CString → ℕ → Option ℕ → Y.World → Log → Answer Y.World
  unfolding log_generic sfs_error log_write
  log_written path offset none w l = answer (sfs_error Y w) w l
  log_written path offset (some zero) w l = answer (pos 0) w l
  log_written path offset (some (suc n)) w l =
      answer (pos (suc n)) w (log_generic D (log_write path (suc n) offset) i l)

  unfoldable pub sfs_write : CString → List ℕ → ℕ → ℕ → ℕ → State Y.World → Answer Y.World
  unfolding log_written
  sfs_write path buf size offset fh s =
      let (r, w) = Y.perform (System.pwrite fh (take size buf) offset) s.world in
      log_written path offset r w s.log

  unfoldable pub sfs_release : ℕ → State Y.World → Answer Y.World
  sfs_release fh s =
      let (r, w) = Y.perform (System.close fh) s.world in answer (handle_of r) w s.log

  unfoldable pub sfs_setxattr : CString → CString → List ℕ → ℕ → ℕ → State Y.World → Answer Y.World
  unfolding do_silent
  sfs_setxattr path name value size flags =
      do_silent (System.setxattr (at R path) name (take size value) flags)

  unfoldable pub sfs_removexattr : CString → CString → State Y.World → Answer Y.World
  unfolding do_silent
  sfs_removexattr path name = do_silent (System.removexattr (at R path) name)

  unfoldable pub sfs_create : CString → ℕ → State Y.World → Answer Y.World
  unfolding log_generic log_create sfs_error
  sfs_create path mode s =
      let (r, w) = Y.perform (System.creat (at R path) mode) s.world in
      record {
        retstat = elim r [ some fd ↦ pos 0 | none ↦ sfs_error Y w ];
        fh = some (handle_of r);
        state = record {
          world = w;
          log = elim r [ some fd ↦ log_generic D (log_create path mode) i s.log | none ↦ s.log ];
        };
      }

  unfoldable pub sfs_ftruncate : CString → ℕ → ℕ → State Y.World → Answer Y.World
  unfolding do_logged log_truncate
  sfs_ftruncate path offset fh = do_logged (System.ftruncate fh offset) (log_truncate path offset)
