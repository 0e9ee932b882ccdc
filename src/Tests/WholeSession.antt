-- ===== src/Tests/WholeSession.antt =====
-- A whole session, of syncedfs-daemon/client.c and syncedfs-daemon/server.c, on concrete inputs.
use syncedfs.Prelude.{◌≡◌, refl, sym, true, some, List, [], ◌∷◌, map, arith, All}
use syncedfs.CString.{CString, codes, eqb}
use syncedfs.Sorting.Insertion.{insertion_sort, insert}
use syncedfs.Operation.{GenericOperation, type_code}
use syncedfs.Message.{Message}
use syncedfs.OperationLog.{FileOperations}
use syncedfs.SyncId.{write_sync_id, fill_sync_id, store_sync_id, close_sync_id}
use syncedfs.Client.{transfer, compare_order}
use syncedfs.Optimize.{
  optimize_operations, clip, clip_step, clip_write, trim, trim_step, trim_write, close_gaps,
  compare_operations,
}
use syncedfs.Client.Delivery.{IsReady, AreDistinct, IsFresh, filled}
use syncedfs.System.{file_exists}
use syncedfs.Snapshot.{
  arguments, from_last_slash, mexec, exit_status, create_snapshot, delete_snapshot,
}
use syncedfs.Server.Session.{
  handle_client, prepare, revert_unfinished, drop_stale, take_snapshot, mark_started,
}
use syncedfs.Session.{Sends, Succeeds, listening, after_session, transfer-handle_client}
use syncedfs.Tests.Client.{client, sorter, outside}
use syncedfs.Tests.Links.{entry, kept}
use syncedfs.Tests.Server.{cfg, machine, network, start}
use mathlib.Core.Path.{subst}
use syncedfs.Tests.Session.{file_sorter}

abbrev to_send : List FileOperations
to_send = kept ∷ entry ∷ []

sorted_lem : file_sorter.sort compare_order to_send ≡ entry ∷ kept ∷ []
unfolding insertion_sort insert compare_order
sorted_lem = refl

entry-IsReady : IsReady outside sorter entry
unfolding optimize_operations insertion_sort insert clip clip_step clip_write trim trim_step
    trim_write close_gaps compare_operations type_code
entry-IsReady = record { left = λ e. cc e; fits = (tt, tt); missing = λ e. cc e }

kept-IsReady : IsReady outside sorter kept
unfolding optimize_operations insertion_sort insert clip clip_step clip_write trim trim_step
    trim_write close_gaps compare_operations type_code
kept-IsReady = record { left = λ e. cc e; fits = (omega arith, tt); missing = λ e. cc e }

to_send-AreDistinct : AreDistinct (file_sorter.sort compare_order to_send)
to_send-AreDistinct = subst AreDistinct (sym sorted_lem) (unfold eqb in ((refl, tt), (tt, tt)))

to_send-AreReady : All (IsReady outside sorter) (file_sorter.sort compare_order to_send)
to_send-AreReady =
    subst (All (IsReady outside sorter)) (sym sorted_lem) (entry-IsReady, (kept-IsReady, tt))

to_send-IsFresh : IsFresh (file_sorter.sort compare_order to_send) client
to_send-IsFresh =
    subst (λ fs. IsFresh fs client) (sym sorted_lem) (unfold eqb in (refl, (refl, tt)))

abbrev sent_files : List (CString × List GenericOperation)
sent_files = map (filled outside sorter) (file_sorter.sort compare_order to_send)

server-Succeeds :
    Succeeds machine network cfg (λ sent m. refl) (codes "i") cfg.resource sent_files start
unfolding prepare revert_unfinished drop_stale take_snapshot mark_started create_snapshot
    delete_snapshot mexec exit_status arguments from_last_slash write_sync_id fill_sync_id
    store_sync_id close_sync_id file_exists eqb
server-Succeeds = record { same = refl; prepared = refl; deleted = refl; renamed = refl }

transfer-handle_client_example :
    (messages : List Message) × (let server =
        handle_client machine network cfg
          (listening machine network cfg (λ sent m. refl) start messages) in
      (server.0 ≡ true)
      × (server.1.world
          ≡ after_session machine network cfg (λ sent m. refl) (codes "i") sent_files start)
      × Sends messages (
          transfer outside cfg sorter file_sorter true
            (some (codes "i"))
            to_send
            server.1.sent
            client))
transfer-handle_client_example =
    transfer-handle_client outside (λ n. refl) (λ sent m. refl) sorter file_sorter cfg machine
      network cfg (λ sent m. refl) (codes "i") to_send client start refl to_send-AreDistinct
      to_send-AreReady to_send-IsFresh server-Succeeds
