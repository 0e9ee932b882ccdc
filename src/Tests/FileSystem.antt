-- ===== src/Tests/FileSystem.antt =====
-- Concrete runs of syncedfs/syncedfs.c, log.c and sighandlers.c, and of the paths and the message
-- buffer of both programs.
use syncedfs.Prelude.{
  ℕ, suc, ◌≤◌, ◌≡◌, refl, arith, true, false, Option, none, some, List, [], ◌∷◌, length, take,
}
use syncedfs.CString.{CString, codes}
use syncedfs.FilePath.{absolute_path, full_path}
use syncedfs.FilePath.RoundTrip.{full_path-absolute_path}
use syncedfs.Operation.{Body}
use syncedfs.System.{System, Call}
use syncedfs.PackBuffer.{State as PackState, fault, pack_message}
use syncedfs.PackBuffer.Bounds.{pack_message-fault}
use syncedfs.Logger.{Entry, Disk, Interrupts, fresh_log, log_generic, generic}
use syncedfs.Logger.Switch.{Works, IsIdle, settled, log_generic-settled}
use syncedfs.Fuse.{Root}
use syncedfs.Fuse.Reading.{Reads, sfs_readlink}
use syncedfs.Fuse.Directory.{length-sfs_readlink}
use syncedfs.Wire.RoundTrip.{length-take}
use syncedfs.Fuse.Requests.{Request}

abbrev root : Root
root = record { rootdir = codes "/r"; rootdir_len = 2 }

-- A system without files: only `mkdir` and `pwrite` succeed; a write is cut short at two bytes.
abbrev perform : Call → ℕ → Option ℕ × ℕ
perform (Call.mkdir path mode) n = (some 0, suc n)
perform (Call.pwrite fd bytes offset) n = (some 2, suc n)
perform _ n = (none, n)

abbrev machine : System
machine = record {
  World = ℕ;
  perform = perform;
  errno = λ n. 2;
  stat = λ path n. none;
  spawn = λ program argv n. (none, n);
  read_line = λ path n. none;
}

abbrev disk : Disk
disk = record { closes = λ l. true; renames = λ l. true; opens = λ l. true; writes = λ e l. true }

abbrev disk-Works : Works disk
disk-Works = record {
  closes = λ l. refl;
  renames = λ l. refl;
  opens = λ l. refl;
  writes = λ e l. refl;
}

abbrev fresh_log-IsIdle : IsIdle fresh_log
fresh_log-IsIdle = record { opened = refl; no_write = refl; no_switch = refl }

abbrev quiet : Interrupts
quiet = record { before = []; behind = [] }

-- Two signals during one write
abbrev noisy : Interrupts
noisy = record { before = 41 ∷ []; behind = 42 ∷ [] }

abbrev requests : List (Request × Interrupts)
requests =
    (Request.mkdir (codes "/d") 493, quiet)
    ∷ (Request.unlink (codes "/f"), quiet)
    ∷ (Request.write (codes "/f") (1 ∷ 2 ∷ 3 ∷ []) 3 10 5, noisy)
    ∷ []

abbrev made : Entry
made = (codes "/d", generic (Body.mkdir 493))

log_generic-settled_example :
    log_generic disk made noisy fresh_log ≡ settled made (some 42) fresh_log
log_generic-settled_example =
    log_generic-settled disk made noisy fresh_log disk-Works fresh_log-IsIdle

full_path-absolute_path_example :
    full_path (codes "/r") 2 (codes "a/b") ≡ absolute_path (codes "/r") (codes "a/b")
full_path-absolute_path_example = full_path-absolute_path (codes "/r") 2 (codes "a/b") refl

-- A buffer of 100 bytes
abbrev buffered : PackState
buffered = record { totallen = 100; buffer = some 100 }

pack_message-fault_example :
    pack_message (λ n. false) 50 true (record { totallen = 100; buffer = none }) ≡ fault
pack_message-fault_example =
    pack_message-fault (λ n. false) 200 50 true true buffered
      (record { totallen = 100; buffer = none }) (unfold pack_message in refl) (omega arith) refl
      (omega arith)

-- One directory of two names, and a link
abbrev reads : Reads ℕ
reads = record {
  Statistics = ℕ;
  lstat = λ path n. none;
  fstat = λ fh n. none;
  readlink = λ path n w. some (take n (codes "/target"));
  pread = λ fh size offset w. some [];
  statvfs = λ path w. none;
  lgetxattr = λ path name size w. none;
  llistxattr = λ path size w. none;
  access = λ path mask w. true;
  opendir = λ path w. some 3;
  entries = λ fh w. codes "a" ∷ codes "b" ∷ [];
  syncs = λ datasync fh w. true;
}

length-sfs_readlink_example : length (sfs_readlink machine reads root 0 (codes "/l") 4).filled ≤ 4
length-sfs_readlink_example =
    length-sfs_readlink machine reads root 0 (codes "/l") 4 short (omega arith)
  where
    short :
        (p : CString) (n : ℕ) (target : CString)
        → some (take n (codes "/target")) ≡ some target
        → length target ≤ n
    short p n target e =
        let q : take n (codes "/target") ≡ target = cc e in
        rw (← q) (length-take n (codes "/target"))
