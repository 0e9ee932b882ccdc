-- ===== src/Fuse/Directory.antt =====
-- syncedfs/syncedfs.c: `sfs_readdir` against the list of names, and the buffer of `sfs_readlink`.
use syncedfs.Prelude.{
  ℕ, ◌-◌, ◌≤◌, ◌≡◌, refl, arith, Option, none, some, List, [], ◌∷◌, if◌then◌else◌, length, take,
  leb, length-append,
}
use syncedfs.Prelude.Int.{pos}
use syncedfs.CString.{CString}
use syncedfs.System.{System}
use syncedfs.Fuse.{Root, at}
use syncedfs.Fuse.Reading.{Reads, Reply, no_memory, sfs_readlink, terminated}

module _ (Y : System) (X : Reads Y.World) (R : Root) (w : Y.World) where
  -- What a directory of these names should give to a buffer of so much room
  abbrev pub listing : ℕ → List CString → Reply (List CString)
  listing room names =
      if leb (length names) room
      then record { retstat = pos 0; filled = names }
      else record { retstat = no_memory; filled = take room names }

  -- If `readlink` returns no more bytes than it is asked for, sfs_readlink writes inside a buffer
  -- that is not empty, the NUL behind the target included.
  pub length-sfs_readlink :
      (path : CString) (size : ℕ)
      → ((p : CString) (n : ℕ) (target : CString)
          → X.readlink p n w ≡ some target
          → length target ≤ n)
      → 1 ≤ size
      → length (sfs_readlink Y X R w path size).filled ≤ size
  unfolding sfs_readlink
  length-sfs_readlink path size short some_room =
      go (X.readlink (at R path) (size - 1) w) (short (at R path) (size - 1))
    where
      go :
          (o : Option CString)
          → ((target : CString) → o ≡ some target → length target ≤ size - 1)
          → length (terminated Y X R w o).filled ≤ size
      go none h = omega arith
      go (some target) h = omega (arith, length-append target (0 ∷ []), h target refl, some_room)
