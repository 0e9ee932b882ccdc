-- ===== src/Fuse/Mounting.antt =====
-- syncedfs/syncedfs.c: `sfs_init` and `sfs_destroy`, which FUSE calls when the file system is mounted
-- and unmounted, and `sfs_releasedir`.
use syncedfs.Prelude.{ℕ, Bool, Option, ◌++◌}
use syncedfs.Prelude.Int.{ℤ, pos}
use syncedfs.CString.{CString, codes}

-- `createPidFile` and `deletePidFile` of the copied library, over the name of a program, a path and
-- a descriptor, `none` for -1; `sigaction` for SIGUSR1, which succeeds or not; and `closedir`.
pub record Platform (World : Type 0) : Type 0 where
  pub create_pid_file : CString → CString → World → Option ℕ × World
  pub delete_pid_file : Option ℕ → CString → World → World
  pub handle_sigusr1 : World → Bool × World
  pub closedir : ℕ → World → World

-- `config.ident`, `config.resource` and `config.pidfd`, and what is outside of the process.
pub record Mounted (World : Type 0) : Type 0 where
  pub ident : CString
  pub resource : CString
  pub pidfd : Option ℕ
  pub world : World

-- The path ends in its buffer of PATH_MAX characters, since a resource has less than 32.
abbrev pub pid_path : CString → CString
pid_path resource = codes "/var/run/syncedfs/fs/" ++ resource ++ codes ".pid"

module _ {World : Type 0} (P : Platform World) where
  -- A pid file that cannot be written or locked, or a signal that cannot be handled, is reported to
  -- the system log, and the file system is mounted all the same.
  unfoldable pub sfs_init : Mounted World → Mounted World
  sfs_init m =
      let (fd, w) = P.create_pid_file m.ident (pid_path m.resource) m.world in
      let (handled, w') = P.handle_sigusr1 w in record m { pidfd = fd; world = w' }

  unfoldable pub sfs_destroy : Mounted World → Mounted World
  sfs_destroy m = record m { world = P.delete_pid_file m.pidfd (pid_path m.resource) m.world }

  unfoldable pub sfs_releasedir : ℕ → World → ℤ × World
  sfs_releasedir fh w = (pos 0, P.closedir fh w)
