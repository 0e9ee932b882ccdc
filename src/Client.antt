-- ===== src/Client.antt =====
-- syncedfs-daemon/client.c: `transfer`, `initiateSync` and `sortByOrder`, over one connection. The
-- messages that the server sends are the list `inbox`; behind its end, or at a message of another
-- type, `recvMessage` returns NULL.
pub mod Delivery
pub mod Order
pub mod Starting
pub mod Synchronize
pub mod Confirmation
pub mod Retention
use syncedfs.Prelude.{
  ℕ, Bool, true, false, Option, none, some, List, [], ◌∷◌, ◌++◌, if◌then◌else◌, length,
}
use syncedfs.Prelude.Int.{ℤ, pos, minus_one, eqb_ℤ, ltb_ℤ}
use syncedfs.CString.{CString}
use syncedfs.Sorting.{Sorter}
use syncedfs.Message.{SyncInit, SyncInitResponse, Message, init, response, finish}
use syncedfs.OperationLog.{FileOperations}
use syncedfs.Optimize.{Slot}
use syncedfs.Transfer.{on_done, transfer_file}
use syncedfs.Loader.{Outside, State, Outcome, done, failed, fault}
use syncedfs.Snapshot.{Config}

-- `sortByOrder`
unfoldable pub compare_order : FileOperations → FileOperations → ℤ
compare_order a b =
    if eqb_ℤ a.order b.order then pos 0 else if ltb_ℤ a.order b.order then minus_one else pos 1

-- What `initiateSync` returns: 0, -2, -1; or a read through NULL.
pub data Initiated : Type 0 where
  agreed : List Message → State → Initiated
  already : State → Initiated
  refused : State → Initiated
  crashed : Initiated

-- `strlen(response->error_message)` of a field that is not there
unfoldable pub read_refusal : SyncInitResponse → State → Initiated
read_refusal r s = elim r.error_message [ none ↦ crashed | some text ↦ refused s ]

unfoldable pub read_response : SyncInitResponse → List Message → State → Initiated
unfolding read_refusal
read_response r inbox s = if r.proceed then agreed inbox s else elim r.already_synced [
  | none ↦ read_refusal r s
  | some synced ↦ if synced then already s else read_refusal r s
]

unfoldable pub await_response : List Message → State → Initiated
unfolding read_response
await_response (response r ∷ inbox) s = read_response r inbox s
await_response _ s = refused s

-- The transfer waits for the confirmation.
unfoldable pub await_finish : List Message → State → Outcome
await_finish (finish n ∷ inbox) s = done s
await_finish _ s = failed s

module _ (O : Outside) (cfg : Config) where
  abbrev pub announcement : CString → ℕ → Message
  announcement id numfiles =
      init (record { sync_id = id; resource = cfg.resource; number_files = numfiles })

  -- `initiateSync`, with what `readSyncId` reads
  unfoldable pub initiate_sync : Option CString → ℕ → List Message → State → Initiated
  unfolding await_response
  initiate_sync none numfiles inbox s = refused s
  initiate_sync (some id) numfiles inbox s =
      let m = announcement id numfiles in
      if O.accepts s.sent m
      then await_response inbox (record s { sent = s.sent ++ m ∷ [] })
      else refused s

  module _ (S : Sorter Slot) (H : Sorter FileOperations) where
    -- The loop over the files
    unfoldable pub transfer_files : List FileOperations → State → Outcome
    unfolding transfer_file
    transfer_files [] s = done s
    transfer_files (f ∷ files) s =
        on_done (transfer_file O f.relpath S f.operations s) (transfer_files files)

    unfoldable pub transfer_initiated : List FileOperations → Initiated → Outcome
    unfolding transfer_files await_finish compare_order
    transfer_initiated files (agreed inbox s) =
        on_done (transfer_files (H.sort compare_order files) s) (await_finish inbox)
    transfer_initiated files (already s) = done s
    transfer_initiated files (refused s) = failed s
    transfer_initiated files crashed = fault

    -- `transfer`; whether `inetConnect` succeeds is a parameter.
    unfoldable pub transfer :
        Bool → Option CString → List FileOperations → List Message → State → Outcome
    unfolding transfer_initiated initiate_sync
    transfer connected id files inbox s =
        if connected
        then transfer_initiated files (initiate_sync id (length files) inbox s)
        else failed s
