-- ===== src/Client/Retention.antt =====
-- syncedfs-daemon/client.c, `synchronize`: what is kept until the server has confirmed.
use syncedfs.Prelude.{ℕ, ◌≡◌, Bool, true, List, ◌==◌, ◌⊎◌}
use syncedfs.CString.{CString, eqb}
use syncedfs.Sorting.{Sorter}
use syncedfs.HashTable.{HashTable}
use syncedfs.System
use syncedfs.System.{System, is_some}
use syncedfs.Snapshot.{Config}
use syncedfs.SyncId.{write_sync_id}
use syncedfs.Optimize.{Slot}
use syncedfs.OperationLog.{FileOperations, Memory}
use syncedfs.OperationLog
use syncedfs.Wire.{Codec}
use syncedfs.Logger.{Entry}
use syncedfs.Loader
use syncedfs.Loader.{Outside}
use syncedfs.Client.Starting.{Host}
use syncedfs.Client.Synchronize
use syncedfs.Client.Synchronize.{Progress, going, stopped, exited, log_path, id_path}
use syncedfs.Client.Confirmation.{Confirms}

module _ (Y : System) (D : Host Y) (M : Memory) (allocates : ℕ → Bool) (C : Codec Entry)
    (F : HashTable CString FileOperations eqb) (I : HashTable ℕ FileOperations ◌==◌)
    (S : Sorter Slot) (H : Sorter FileOperations) (cfg : Config) where
  -- A property of the system that tells that the log is there, and that what is done before the
  -- confirmation does not touch: the opening of the log, pid files, the sync-id, programs.
  pub record IsLasting (P : Y.World → Type 0) : Type 0 where
    pub opens :
        (w : Y.World) → P w → is_some (Y.perform (System.open_read (log_path cfg)) w).0 ≡ true
    pub opened : (w : Y.World) → P w → P (Y.perform (System.open_read (log_path cfg)) w).1
    pub locked : (w : Y.World) → P w → P (D.create_pid_file w).1
    pub unlocked : (w : Y.World) → P w → P (D.delete_pid_file w).1
    pub wrote : (id : CString) (w : Y.World) → P w → P (write_sync_id Y id (id_path cfg) w).1
    pub ran : (path : CString) (argv : List CString) (w : Y.World) → P w → P (Y.spawn path argv w).1

  -- In whatever way the step ends
  abbrev pub Ends : {A : Type 0} → (Y.World → Type 0) → Progress A Y.World → Type 0
  Ends P (going a w) = P w
  Ends P (stopped w) = P w
  Ends P (exited w) = P w
  Ends P Synchronize.crashed = Unit

  -- The property still holds, or the server has confirmed.
  abbrev pub Keeps : (Y.World → Type 0) → Y.World → Type 0
  Keeps P w = P w ⊎ ((sync : Y.World) × Confirms (D.replies sync))
