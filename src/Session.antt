-- ===== src/Session.antt =====
-- A whole session: `transfer` of syncedfs-daemon/client.c against `handleClient` of
-- syncedfs-daemon/server.c, each reading what the other sends.
use mathlib.Core.Path.{subst}
use mathlib.Core.List.{append-nil}
use syncedfs.Prelude.{
  ℕ, ◌≡◌, refl, sym, ◌∙◌, ap, Bool, true, false, ◌&&◌, Option, none, some, List, [], ◌∷◌, ◌++◌, map,
  length, All, arith, length-perm, length-map,
}
use syncedfs.CString.{CString, eqb}
use syncedfs.Sorting.{Sorter}
use syncedfs.Operation.{GenericOperation}
use syncedfs.Message.{Message, response, finish, init}
use syncedfs.OperationLog.{FileOperations}
use syncedfs.Optimize.{Slot}
use syncedfs.Transfer.{on_done}
use syncedfs.Loader.{Outside, State, Outcome, done, failed, fault}
use syncedfs.System
use syncedfs.System.{System, file_exists, is_some}
use syncedfs.Snapshot.{Config, delete_snapshot}
use syncedfs.Server.Session.{
  Network, Session, approval, same_address, sync_id_path, last_sync_id_path, prepare, check_init,
  begin_sync, reply, send_message, sync_init, sync_init_from, handle_client, receive_client,
  receive_files, finish_client, mark_finished, confirm, counted, received,
}
use syncedfs.Server.Delivery.{AreStreams, apply_files, counted_all, receive_files-AreStreams}
use syncedfs.Client.{
  transfer, transfer_files, transfer_initiated, initiate_sync, await_response, read_response,
  await_finish, announcement, compare_order,
}
use syncedfs.Client.Delivery.{
  filled, IsReady, AreDistinct, IsFresh, DeliversAll, transfer_files-DeliversAll,
}

-- The transfer has returned 0 and has sent these messages.
abbrev pub Sends : List Message → Outcome → Type 0
Sends messages (done s) = s.sent ≡ messages
Sends messages (failed s) = ⊥
Sends messages fault = ⊥

module _ (Y : System) (N : Network) (cfg : Config)
    (answers : (sent : List Message) (m : Message) → N.accepts sent m ≡ true) where
  -- The server before its client has sent these messages
  abbrev pub listening : Y.World → List Message → Session Y.World
  listening w messages = record { world = w; inbox = messages; bytes = 0; sent = [] }

  -- `syncInit` goes on to the files.
  check_init-begun :
      (id : CString) (n bytes : ℕ) (resource : CString) (w : Y.World) (messages : List Message)
      → eqb resource cfg.resource ≡ true
      → (prepare Y N cfg id w).0 ≡ true
      → check_init Y N cfg
          (record { sync_id = id; resource = resource; number_files = n })
          (record { world = w; inbox = messages; bytes = bytes; sent = [] })
        ≡ (
          some n,
          record {
            world = (prepare Y N cfg id w).1;
            inbox = messages;
            bytes = bytes;
            sent = response approval ∷ [];
          },
        )
  unfolding check_init begin_sync reply send_message file_exists
  check_init-begun id n bytes resource w messages same ok =
      let never : (file_exists Y (last_sync_id_path cfg) w
            && is_some (Y.read_line (last_sync_id_path cfg) w)
            && same_address)
          ≡ false =
        ground arith in
      rw (same, never, ok, answers [] (response approval)) refl

  -- The root directory is prepared, the files are applied, the snapshot goes, and the sync-id becomes
  -- that of the last session.
  abbrev pub after_session : CString → List (CString × List GenericOperation) → Y.World → Y.World
  after_session id files w =
      let w' = apply_files Y N cfg files (prepare Y N cfg id w).1 in
      (Y.perform (System.rename (sync_id_path cfg) (last_sync_id_path cfg))
        (delete_snapshot Y cfg cfg.snapshot w').1).1

  -- The steps of the server around the files succeed.
  pub record Succeeds (id resource : CString) (files : List (CString × List GenericOperation))
      (w : Y.World) : Type 0 where
    pub same : eqb resource cfg.resource ≡ true
    pub prepared : (prepare Y N cfg id w).0 ≡ true
    pub deleted :
        (delete_snapshot Y cfg cfg.snapshot (apply_files Y N cfg files (prepare Y N cfg id w).1)).0
        ≡ true
    pub renamed :
        is_some
          (Y.perform
            (System.rename (sync_id_path cfg) (last_sync_id_path cfg))
            (delete_snapshot Y cfg cfg.snapshot
              (apply_files Y N cfg files (prepare Y N cfg id w).1)).1).0
        ≡ true

  confirm-sent :
      (n : ℕ) (s : Session Y.World)
      → confirm Y N cfg (some n) s ≡ (true, record s { sent = s.sent ++ finish s.bytes ∷ [] })
  unfolding confirm send_message
  confirm-sent n s = rw (answers s.sent (finish s.bytes)) refl

  mark_finished-sent :
      (s : Session Y.World)
      → is_some (Y.perform (System.rename (sync_id_path cfg) (last_sync_id_path cfg)) s.world).0
        ≡ true
      → mark_finished Y N cfg true s ≡ (
        true,
        record s {
          world = (Y.perform (System.rename (sync_id_path cfg) (last_sync_id_path cfg)) s.world).1;
          sent = s.sent ++ finish s.bytes ∷ [];
        },
      )
  unfolding mark_finished
  mark_finished-sent s renamed =
      go (Y.perform (System.rename (sync_id_path cfg) (last_sync_id_path cfg)) s.world).0 _ renamed
    where
      go :
          (r : Option ℕ) (w : Y.World)
          → is_some r ≡ true
          → confirm Y N cfg r (record s { world = w })
            ≡ (true, record s { world = w; sent = s.sent ++ finish s.bytes ∷ [] })
      go none w h = cc h
      go (some n) w h = confirm-sent n (record s { world = w })

  handle_client_complete :
      (id resource : CString) (n : ℕ) (files : List (CString × List GenericOperation))
      (messages : List Message) (w : Y.World)
      → AreStreams files messages
      → length files ≡ n
      → Succeeds id resource files w
      → (let m = init (record { sync_id = id; resource = resource; number_files = n }) in
          let bytes = counted_all Y N cfg messages (counted Y N cfg m 0) in
          handle_client Y N cfg (listening w (m ∷ messages)) ≡ (
            true,
            record {
              world = after_session id files w;
              inbox = [];
              bytes = bytes;
              sent = response approval ∷ finish bytes ∷ [];
            },
          ))
  unfolding handle_client sync_init sync_init_from receive_client finish_client
  handle_client_complete id resource n files messages w streams e h =
      let m = init (record { sync_id = id; resource = resource; number_files = n }) in
      let w₁ = (prepare Y N cfg id w).1 in
      let all : receive_files Y N cfg n w₁ (counted Y N cfg m 0) messages
          ≡ received none (apply_files Y N cfg files w₁)
              (counted_all Y N cfg messages (counted Y N cfg m 0)) [] =
        ap (λ k. receive_files Y N cfg k w₁ (counted Y N cfg m 0) messages) (sym e)
        ∙ ap (receive_files Y N cfg (length files) w₁ (counted Y N cfg m 0))
            (sym (append-nil messages))
        ∙ receive_files-AreStreams Y N cfg files messages [] w₁ (counted Y N cfg m 0) streams in
      rw
        (
          check_init-begun id n (counted Y N cfg m 0) resource w messages h.same h.prepared,
          all,
          h.deleted,
        )
        (mark_finished-sent _ h.renamed)

module _ (O : Outside) (allocates : (n : ℕ) → O.allocates n ≡ true)
    (accepts : (sent : List Message) (m : Message) → O.accepts sent m ≡ true) (S : Sorter Slot)
    (H : Sorter FileOperations) (client_cfg : Config) where
  confirmed-Sends :
      (before : List Message) (files : List (CString × List GenericOperation)) (o : Outcome)
      → (h : DeliversAll O allocates accepts S before files o)
      → (messages : List Message) × AreStreams files messages
        × ((k : ℕ) → Sends (before ++ messages) (on_done o (await_finish (finish k ∷ []))))
  unfolding await_finish
  confirmed-Sends before files (done s) (messages, e, h) = (messages, h, λ k. e)
  confirmed-Sends before files (failed s) bad = absurd bad
  confirmed-Sends before files fault bad = absurd bad

  -- The client's messages, whatever the count in the confirmation
  transfer-Sends :
      (id : CString) (files : List FileOperations) (s : State)
      → s.sent ≡ []
      → AreDistinct (H.sort compare_order files)
      → All (IsReady O S) (H.sort compare_order files)
      → IsFresh (H.sort compare_order files) s
      → (messages : List Message) × AreStreams
          (map (filled O S) (H.sort compare_order files))
          messages
        × ((k : ℕ)
            → Sends (announcement O client_cfg id (length files) ∷ messages) (
                transfer O client_cfg S H true
                  (some id)
                  files
                  (response approval ∷ finish k ∷ [])
                  s))
  unfolding transfer transfer_initiated initiate_sync await_response read_response
  transfer-Sends id files s none_sent distinct ready fresh =
      let m = announcement O client_cfg id (length files) in
      let sorted = H.sort compare_order files in
      let (messages, streams, sends) = confirmed-Sends (m ∷ []) (map (filled O S) sorted) _ (
        subst
          (λ before.
            DeliversAll O allocates accepts S before (map (filled O S) sorted)
              (transfer_files O client_cfg S H sorted (record s { sent = s.sent ++ m ∷ [] })))
          (ap (λ sent. sent ++ m ∷ []) none_sent)
          (transfer_files-DeliversAll O allocates accepts S H client_cfg sorted
            (record s { sent = s.sent ++ m ∷ [] }) ready distinct fresh)) in
      (messages, streams, λ k. rw (accepts s.sent m) (sends k))

  -- If the client's calls succeed, the files of its table have distinct paths, some operation is left
  -- for each, whose bytes its snapshot holds, and the steps of the server around the files succeed,
  -- then there are messages that the server takes whole, and that the client sends when it reads what
  -- the server answers to them. The session ends well on both sides: the server has carried out the
  -- optimised operations of all files, in the order of the files, with the bytes of the client's
  -- snapshot, on the root directory that it has prepared.
  pub transfer-handle_client :
      (Y : System) (N : Network) (cfg : Config)
      (answers : (sent : List Message) (m : Message) → N.accepts sent m ≡ true) (id : CString)
      (files : List FileOperations) (s : State) (w : Y.World)
      → s.sent ≡ []
      → AreDistinct (H.sort compare_order files)
      → All (IsReady O S) (H.sort compare_order files)
      → IsFresh (H.sort compare_order files) s
      → Succeeds Y N cfg answers id client_cfg.resource
          (map (filled O S) (H.sort compare_order files))
          w
      → (messages : List Message) × (let server =
            handle_client Y N cfg (listening Y N cfg answers w messages) in
          (server.0 ≡ true)
          × (server.1.world
              ≡ after_session Y N cfg answers id (map (filled O S) (H.sort compare_order files)) w)
          × Sends messages (transfer O client_cfg S H true (some id) files server.1.sent s))
  transfer-handle_client Y N cfg answers id files s w none_sent distinct ready fresh h =
      let sorted = H.sort compare_order files in
      let (messages, streams, sends) = transfer-Sends id files s none_sent distinct ready fresh in
      let all = announcement O client_cfg id (length files) ∷ messages in
      let ended =
        handle_client_complete Y N cfg answers id client_cfg.resource (length files)
          (map (filled O S) sorted) messages w streams
          (length-map (filled O S) sorted ∙ length-perm (H.sort-perm compare_order files)) h in
      (
        all,
        (
          ap (λ r. r.0) ended,
          ap (λ r. r.1.world) ended,
          subst
              (λ (r : Bool × Session Y.World).
                Sends all (transfer O client_cfg S H true (some id) files r.1.sent s))
              (sym ended)
              (sends (
                counted_all Y N cfg messages
                  (counted Y N cfg (announcement O client_cfg id (length files)) 0))),
        ),
      )
