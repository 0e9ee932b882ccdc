-- ===== src/System.antt =====
-- The system calls of syncedfs-daemon/server.c, client.c, snapshot.c and syncedfs/syncedfs.c, log.c, as
-- a parameter of their models: the C library and the kernel are no code of the repository. And the
-- wrappers `fileExists` of syncedfs-common/path_functions.c and `sfs_error` of syncedfs/syncedfs.c.
use syncedfs.Prelude.{ℕ, zero, suc, ◌/◌, ◌%◌, Bool, true, false, Option, none, some, List, ◌==◌}
use syncedfs.Prelude.Int.{ℤ, pos, negsuc}
use syncedfs.CString.{CString}

-- Calls that may change the system. `open_new` is open with O_CREAT | O_EXCL | O_WRONLY,
-- `open_write` with O_WRONLY, `open_append` with O_WRONLY | O_APPEND | O_CREAT, `open_update` with
-- O_RDWR | O_CREAT, `open_read` with O_RDONLY.
pub data Call : Type 0 where
  creat : CString → ℕ → Call
  open_new : CString → ℕ → Call
  open_write : CString → Call
  open_append : CString → Call
  open_update : CString → Call
  -- path and flags
  open_with : CString → ℕ → Call
  close : ℕ → Call
  mkfifo : CString → ℕ → Call
  mknod : CString → ℕ → ℕ → Call
  mkdir : CString → ℕ → Call
  -- target, path
  symlink : CString → CString → Call
  link : CString → CString → Call
  -- descriptor, bytes, offset
  pwrite : ℕ → List ℕ → ℕ → Call
  -- descriptor, bytes
  write : ℕ → List ℕ → Call
  unlink : CString → Call
  rmdir : CString → Call
  truncate : CString → ℕ → Call
  ftruncate : ℕ → ℕ → Call
  chmod : CString → ℕ → Call
  chown : CString → ℕ → ℕ → Call
  rename : CString → CString → Call
  utime : CString → ℕ → Call
  setxattr : CString → CString → List ℕ → ℕ → Call
  removexattr : CString → CString → Call
  -- process
  kill_usr1 : ℕ → Call
  open_read : CString → Call
  -- kill with the signal 0
  kill_probe : ℕ → Call
  -- sigprocmask, and back to the mask before
  block_usr1 : Call
  restore_mask : Call

-- `st_nlink` and `st_ino`
pub record Stat : Type 0 where
  pub nlink : ℕ
  pub ino : ℕ

pub record System : Type 1 where
  pub World : Type 0
  -- `none` is the result -1
  pub perform : Call → World → Option ℕ × World
  pub errno : World → ℕ
  -- `none` where `stat` returns -1
  pub stat : CString → World → Option Stat
  -- fork, execv and waitpid: the exit status of a child that ends by itself
  pub spawn : CString → List CString → World → Option ℕ × World
  -- fopen, fgets and fclose on a small file: `none` where one of them fails
  pub read_line : CString → World → Option CString

abbrev pub is_some {ℓ} : {A : Type ℓ} → Option A → Bool
is_some none = false
is_some (some a) = true

-- S_ISREG and S_ISFIFO of <sys/stat.h>
abbrev pub is_regular : ℕ → Bool
is_regular mode = mode / 4096 % 16 == 8

abbrev pub is_fifo : ℕ → Bool
is_fifo mode = mode / 4096 % 16 == 1

abbrev pub negate : ℕ → ℤ
negate zero = pos 0
negate (suc n) = negsuc n

module _ (Y : System) where
  -- `fileExists`
  unfoldable pub file_exists : CString → Y.World → Bool
  file_exists path w = is_some (Y.stat path w)

  -- `sfs_error`
  unfoldable pub sfs_error : Y.World → ℤ
  sfs_error w = negate (Y.errno w)
