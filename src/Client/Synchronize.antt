-- ===== src/Client/Synchronize.antt =====
-- syncedfs-daemon/client.c, `synchronize`.
use syncedfs.Prelude.{
  ℕ, Bool, true, false, not, ◌||◌, Option, none, some, List, [], ◌∷◌, ◌++◌, ◌==◌, if◌then◌else◌,
  take,
}
use syncedfs.CString.{CString, codes, eqb}
use syncedfs.FilePath.{path_limit, slash}
use syncedfs.Sorting.{Sorter}
use syncedfs.HashTable.{HashTable}
use syncedfs.System
use syncedfs.System.{System, file_exists, is_some}
use syncedfs.Snapshot.{Config, create_snapshot, delete_snapshot}
use syncedfs.SyncId.{write_sync_id}
use syncedfs.Optimize.{Slot}
use syncedfs.OperationLog.{FileOperations, Memory, Attempt, initial, int_key}
use syncedfs.OperationLog
use syncedfs.Wire.{Codec}
use syncedfs.Logger.{Entry}
use syncedfs.LogFile.{load_log}
use syncedfs.Loader
use syncedfs.Loader.{Outcome, no_file}
use syncedfs.Client.{transfer}
use syncedfs.Client.Starting.{Host, switch_log, generate_sync_id}

-- A step has gone well; the client has returned -1; it has left by `errExit`; it has read through
-- NULL.
pub data Progress (A World : Type 0) : Type 0 where
  going : A → World → Progress A World
  stopped : World → Progress A World
  exited : World → Progress A World
  crashed : Progress A World

abbrev pub and_then :
    {A B World : Type 0} → Progress A World → (A → World → Progress B World) → Progress B World
and_then (going a w) next = next a w
and_then (stopped w) next = stopped w
and_then (exited w) next = exited w
and_then crashed next = crashed

abbrev pub or_stop : {World : Type 0} → Bool × World → Progress Unit World
or_stop (true, w) = going tt w
or_stop (false, w) = stopped w

abbrev pub or_exit : {World : Type 0} → Bool × World → Progress Unit World
or_exit (true, w) = going tt w
or_exit (false, w) = exited w

abbrev pub log_path : Config → CString
log_path cfg = take path_limit (cfg.logdir ++ slash ∷ (cfg.resource ++ codes ".sync"))

abbrev pub id_path : Config → CString
id_path cfg = take path_limit (cfg.logdir ++ slash ∷ (cfg.resource ++ codes ".id"))

-- The static variables of the transfer at the start
abbrev pub idle : Loader.State
idle = record {
  loader = record { stored_path = []; fd = no_file };
  ddata = record { present = false; buffer = 0; bytes = []; offset = 0; size = 0 };
  sent = [];
}

module _ (Y : System) (D : Host Y) (M : Memory) (allocates : ℕ → Bool) (C : Codec Entry)
    (F : HashTable CString FileOperations eqb) (I : HashTable ℕ FileOperations ◌==◌)
    (S : Sorter Slot) (H : Sorter FileOperations) (cfg : Config) where
  abbrev pub opened_log : Bool → Option ℕ × Y.World → Progress (ℕ × Bool) Y.World
  opened_log newsync (none, w) = stopped w
  opened_log newsync (some fd, w) = going (fd, newsync) w

  unfoldable pub switch_and_open : Y.World → Progress (ℕ × Bool) Y.World
  unfolding switch_log
  switch_and_open w =
      and_then (or_stop (switch_log Y D cfg w))
        λ u w'. opened_log true (Y.perform (System.open_read (log_path cfg)) w')

  abbrev pub or_switch : Option ℕ × Y.World → Progress (ℕ × Bool) Y.World
  unfolding switch_and_open
  or_switch (some fd, w) = going (fd, false) w
  or_switch (none, w) = switch_and_open w

  -- `if sync log does not exist, switch log`
  unfoldable pub open_log : Y.World → Progress (ℕ × Bool) Y.World
  unfolding or_switch
  open_log w = or_switch (Y.perform (System.open_read (log_path cfg)) w)

  unfoldable pub ensure_sync_id : Bool → Y.World → Progress Unit Y.World
  unfolding generate_sync_id write_sync_id
  ensure_sync_id newsync w =
      if newsync || not (is_some (Y.read_line (id_path cfg) w))
      then or_stop (write_sync_id Y (generate_sync_id Y D cfg w) (id_path cfg) w)
      else going tt w

  unfoldable pub ensure_snapshot : Bool → Y.World → Progress Unit Y.World
  unfolding create_snapshot file_exists
  ensure_snapshot newsync w =
      if newsync || not (file_exists Y cfg.snapshot w)
      then or_stop (create_snapshot Y cfg cfg.rootdir cfg.snapshot true w)
      else going tt w

  abbrev pub loaded :
      Attempt (OperationLog.State F I) → Y.World → Progress (List FileOperations) Y.World
  loaded (OperationLog.success s) w = going (F.entries s.files) w
  loaded OperationLog.failed w = stopped w
  loaded OperationLog.fault w = crashed

  -- `inode` is what the variable of `matchInodefiles` holds.
  unfoldable pub load : ℕ → ℕ → Y.World → Progress (List FileOperations) Y.World
  unfolding load_log
  load inode fd w =
      loaded
        (load_log M allocates C F I cfg.snapshot (D.tree w) inode (D.log_bytes fd w)
          (initial M F I))
        w

  -- `in case of failure only delete pid file`
  unfoldable pub give_up : Y.World → Progress Unit Y.World
  give_up w = and_then (or_exit (D.delete_pid_file w)) (λ u. stopped)

  unfoldable pub transferred : Outcome → Y.World → Progress Unit Y.World
  unfolding give_up
  transferred (Loader.done s) w = going tt w
  transferred (Loader.failed s) w = give_up w
  transferred Loader.fault w = crashed

  unfoldable pub transfer_changes : List FileOperations → Y.World → Progress Unit Y.World
  unfolding transfer transferred
  transfer_changes files w =
      transferred
        (transfer (D.outside w) cfg S H (D.connects w) (Y.read_line (id_path cfg) w) files
          (D.replies w) idle)
        w

  abbrev pub unlinked : CString → Y.World → Progress Unit Y.World
  unlinked path w = let (r, w') = Y.perform (System.unlink path) w in or_exit (is_some r, w')

  -- The snapshot, the sync-id, the log and the pid file are deleted.
  unfoldable pub clean_up : ℕ → Y.World → Progress Unit Y.World
  unfolding delete_snapshot
  clean_up fd w =
      let w₁ = (delete_snapshot Y cfg cfg.snapshot w).1 in
      and_then (unlinked (id_path cfg) w₁) λ u w₂.
        let w₃ = (Y.perform (System.close fd) w₂).1 in
        and_then (unlinked (log_path cfg) w₃) λ u w₄. or_exit (D.delete_pid_file w₄)

  unfoldable pub synchronize_with : ℕ → ℕ × Bool → Y.World → Progress Unit Y.World
  unfolding ensure_sync_id ensure_snapshot load transfer_changes clean_up
  synchronize_with inode (fd, newsync) w = and_then (ensure_sync_id newsync w) λ u w₁.
      and_then (ensure_snapshot newsync w₁) λ u w₂.
        and_then (load inode fd w₂)
          λ files w₃. and_then (transfer_changes files w₃) λ u w₄. clean_up fd w₄

  -- `synchronize`
  unfoldable pub synchronize : ℕ → Y.World → Progress Unit Y.World
  unfolding open_log synchronize_with
  synchronize inode w =
      and_then (or_stop (D.create_pid_file w))
        λ u w₁. and_then (open_log w₁) (synchronize_with inode)
