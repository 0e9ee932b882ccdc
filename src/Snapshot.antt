-- ===== src/Snapshot.antt =====
-- syncedfs-daemon/snapshot.c: subvolumes are copied and deleted by the program `btrfs`.
use syncedfs.Prelude.{ℕ, Bool, false, Option, none, some, List, [], ◌∷◌, ◌++◌, ◌==◌, if◌then◌else◌}
use syncedfs.CString.{CString, codes}
use syncedfs.FilePath.{slash}
use syncedfs.System.{System}

-- The fields of `config` that the daemon reads.
pub record Config : Type 0 where
  pub resource : CString
  pub rootdir : CString
  pub snapshot : CString
  pub logdir : CString
  pub btfsbin : CString
  pub btfsbinsuid : CString

-- An exit status other than 127, which the child also has where `execv` fails.
unfoldable pub exit_status : Option ℕ → Option ℕ
exit_status none = none
exit_status (some n) = if n == 127 then none else some n

-- `strrchr(path, '/')`
unfoldable pub from_last_slash : CString → Option CString
from_last_slash [] = none
from_last_slash (c ∷ path) = elim (from_last_slash path) [
  | some rest ↦ some rest
  | none ↦ if c == slash then some (c ∷ path) else none
]

-- The arguments end at the first NULL.
unfoldable pub arguments : CString → List CString → List CString
unfolding from_last_slash
arguments program rest = elim (from_last_slash program) [ none ↦ [] | some name ↦ name ∷ rest ]

abbrev pub succeeded : Option ℕ → Bool
succeeded none = false
succeeded (some n) = n == 0

module _ (Y : System) where
  -- `mexec`
  unfoldable pub mexec : CString → List CString → Y.World → Option ℕ × Y.World
  unfolding exit_status
  mexec path argv w = let (status, w') = Y.spawn path argv w in (exit_status status, w')

  unfoldable pub create_snapshot : Config → CString → CString → Bool → Y.World → Bool × Y.World
  unfolding mexec arguments
  create_snapshot cfg source dest readonly w =
      let flags = if readonly then codes "-r" ∷ [] else [] in
      let argv =
        arguments cfg.btfsbin
          (codes "subvolume" ∷ codes "snapshot" ∷ flags ++ source ∷ dest ∷ []) in
      let (status, w') = mexec cfg.btfsbin argv w in (succeeded status, w')

  unfoldable pub delete_snapshot : Config → CString → Y.World → Bool × Y.World
  unfolding mexec arguments
  delete_snapshot cfg path w =
      let argv = arguments cfg.btfsbinsuid (codes "subvolume" ∷ codes "delete" ∷ path ∷ []) in
      let (status, w') = mexec cfg.btfsbinsuid argv w in (succeeded status, w')
