-- ===== src/SyncId.antt =====
-- syncedfs-common/syncid.c, `writeSyncId` and `readSyncId`. Their callers take `readSyncId` from
-- `System.read_line`.
use syncedfs.Prelude.{
  ℕ, zero, suc, ◌-◌, Bool, true, false, Option, none, some, List, [], ◌∷◌, if◌then◌else◌, ◌==◌,
  length,
}
use syncedfs.CString.{CString}
use syncedfs.System.{System, open_update, ftruncate, write, close, is_some}

module _ (Y : System) where
  unfoldable pub close_sync_id : ℕ → Bool → Y.World → Bool × Y.World
  close_sync_id fd false w = (false, w)
  close_sync_id fd true w = let (r, w') = Y.perform (close fd) w in (is_some r, w')

  abbrev pub wrote_all : ℕ → Option ℕ → Bool
  wrote_all size none = false
  wrote_all size (some n) = n == size

  unfoldable pub store_sync_id : CString → ℕ → Bool → Y.World → Bool × Y.World
  unfolding close_sync_id
  store_sync_id id fd false w = (false, w)
  store_sync_id id fd true w =
      let (r, w') = Y.perform (write fd id) w in close_sync_id fd (wrote_all (length id) r) w'

  unfoldable pub fill_sync_id : CString → Option ℕ → Y.World → Bool × Y.World
  unfolding store_sync_id
  fill_sync_id id none w = (false, w)
  fill_sync_id id (some fd) w =
      let (r, w') = Y.perform (ftruncate fd 0) w in store_sync_id id fd (is_some r) w'

  -- `writeSyncId`
  unfoldable pub write_sync_id : CString → CString → Y.World → Bool × Y.World
  unfolding fill_sync_id
  write_sync_id id path w = let (fd, w') = Y.perform (open_update path) w in fill_sync_id id fd w'

-- `fgets`: the line of at most `size - 1` characters, up to and with the newline
unfoldable pub line : ℕ → List ℕ → CString
line zero bytes = []
line (suc size) [] = []
line (suc size) (c ∷ bytes) = let rest = line size bytes in if c == 10 then 10 ∷ [] else c ∷ rest

abbrev pub closed : Bool → CString → Option CString
closed closes [] = none
closed closes (c ∷ id) = if closes then some (c ∷ id) else none

-- `readSyncId`, over the bytes of the file, if it can be opened, and whether it can be closed. A file
-- without a byte is an error.
unfoldable pub read_sync_id : ℕ → Option (List ℕ) → Bool → Option CString
unfolding line
read_sync_id maxlength none closes = none
read_sync_id maxlength (some bytes) closes = closed closes (line (maxlength - 1) bytes)
