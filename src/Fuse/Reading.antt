-- ===== src/Fuse/Reading.antt =====
-- syncedfs/syncedfs.c: the operations of the mounted file system that change nothing. None of them
-- logs anything.
use syncedfs.Prelude.{
  ℕ, ◌-◌, Bool, true, false, Option, none, some, List, [], ◌∷◌, ◌++◌, if◌then◌else◌, length, ltb,
}
use syncedfs.Prelude.Int.{ℤ, pos, negsuc, minus_one}
use syncedfs.CString.{CString}
use syncedfs.System.{System, Stat, sfs_error}
use syncedfs.Fuse.{Root, at}

-- The calls of the C library that only read: `none` is the result -1. The entries of a directory
-- stream that `readdir` has still to give are a list.
pub record Reads (World : Type 0) : Type 1 where
  pub Statistics : Type 0
  pub lstat : CString → World → Option Stat
  pub fstat : ℕ → World → Option Stat
  pub readlink : CString → ℕ → World → Option CString
  pub pread : ℕ → ℕ → ℕ → World → Option (List ℕ)
  pub statvfs : CString → World → Option Statistics
  pub lgetxattr : CString → CString → ℕ → World → Option (List ℕ)
  pub llistxattr : CString → ℕ → World → Option (List ℕ)
  pub access : CString → ℕ → World → Bool
  pub opendir : CString → World → Option ℕ
  pub entries : ℕ → World → List CString
  -- fdatasync where the flag is set, else fsync
  pub syncs : Bool → ℕ → World → Bool

-- The result, and what the operation fills in.
pub record Reply (A : Type 0) : Type 0 where
  pub retstat : ℤ
  pub filled : A

-- `-ENOMEM`
abbrev pub no_memory : ℤ
no_memory = negsuc 11

-- The function `filler` of FUSE over a buffer that has room for `room` names: what it holds, and
-- whether the name did not fit.
unfoldable pub filler : ℕ → List CString → CString → Bool × List CString
filler room names name =
    if ltb (length names) room then (false, names ++ name ∷ []) else (true, names)

module _ (Y : System) (X : Reads Y.World) (R : Root) (w : Y.World) where
  -- 0 or -errno
  abbrev pub zero_or_error : {A : Type 0} → Option A → Reply (Option A)
  zero_or_error none = record { retstat = sfs_error Y w; filled = none }
  zero_or_error (some a) = record { retstat = pos 0; filled = some a }

  -- The number of bytes or -errno
  abbrev pub count_or_error : Option (List ℕ) → Reply (List ℕ)
  count_or_error none = record { retstat = sfs_error Y w; filled = [] }
  count_or_error (some bytes) = record { retstat = pos (length bytes); filled = bytes }

  unfoldable pub sfs_getattr : CString → Reply (Option Stat)
  sfs_getattr path = zero_or_error (X.lstat (at R path) w)

  -- The buffer holds the target and its NUL.
  abbrev pub terminated : Option CString → Reply (List ℕ)
  terminated none = record { retstat = sfs_error Y w; filled = [] }
  terminated (some target) = record { retstat = pos 0; filled = target ++ 0 ∷ [] }

  unfoldable pub sfs_readlink : CString → ℕ → Reply (List ℕ)
  sfs_readlink path size = terminated (X.readlink (at R path) (size - 1) w)

  unfoldable pub sfs_read : ℕ → ℕ → ℕ → Reply (List ℕ)
  sfs_read fh size offset = count_or_error (X.pread fh size offset w)

  unfoldable pub sfs_statfs : CString → Reply (Option X.Statistics)
  sfs_statfs path = zero_or_error (X.statvfs (at R path) w)

  unfoldable pub sfs_flush : CString → ℤ
  sfs_flush path = pos 0

  -- The result of `sfs_error` is dropped.
  unfoldable pub sfs_fsync : Bool → ℕ → ℤ
  sfs_fsync datasync fh = if X.syncs datasync fh w then pos 0 else minus_one

  unfoldable pub sfs_getxattr : CString → CString → ℕ → Reply (List ℕ)
  sfs_getxattr path name size = count_or_error (X.lgetxattr (at R path) name size w)

  unfoldable pub sfs_listxattr : CString → ℕ → Reply (List ℕ)
  sfs_listxattr path size = count_or_error (X.llistxattr (at R path) size w)

  -- `fi->fh` is NULL, here `none`, where `opendir` fails.
  unfoldable pub sfs_opendir : CString → Reply (Option ℕ)
  sfs_opendir path = zero_or_error (X.opendir (at R path) w)

  -- The loop of `sfs_readdir`
  unfoldable pub fill_names : ℕ → List CString → List CString → Reply (List CString)
  unfolding filler
  fill_names room names [] = record { retstat = pos 0; filled = names }
  fill_names room names (name ∷ rest) =
      let (full, more) = filler room names name in
      let filled = fill_names room more rest in
      if full then record { retstat = no_memory; filled = more } else filled

  -- A stream without an entry is taken for an error.
  unfoldable pub fill_stream : ℕ → List CString → Reply (List CString)
  unfolding fill_names
  fill_stream room [] = record { retstat = sfs_error Y w; filled = [] }
  fill_stream room (name ∷ rest) = fill_names room [] (name ∷ rest)

  -- `sfs_readdir`, into an empty buffer
  unfoldable pub sfs_readdir : ℕ → ℕ → Reply (List CString)
  unfolding fill_stream
  sfs_readdir room fh = fill_stream room (X.entries fh w)

  unfoldable pub sfs_fsyncdir : CString → Bool → ℤ
  sfs_fsyncdir path datasync = pos 0

  unfoldable pub sfs_access : CString → ℕ → ℤ
  sfs_access path mask = if X.access (at R path) mask w then pos 0 else sfs_error Y w

  unfoldable pub sfs_fgetattr : ℕ → Reply (Option Stat)
  sfs_fgetattr fh = zero_or_error (X.fstat fh w)
