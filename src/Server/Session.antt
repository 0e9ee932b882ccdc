-- ===== src/Server/Session.antt =====
-- syncedfs-daemon/server.c: `handleClient` and `syncInit`, over one connection. The messages that
-- the client sends are the list `inbox`; behind its end, or at a message that cannot be unpacked as
-- the awaited type, `recvMessage` returns NULL.
use syncedfs.Prelude.{
  ℕ, zero, suc, ◌+◌, Bool, true, false, ◌&&◌, not, Option, none, some, List, [], ◌∷◌, ◌++◌,
  if◌then◌else◌, take,
}
use syncedfs.CString.{CString, codes, eqb}
use syncedfs.FilePath.{path_limit, slash}
use syncedfs.Operation.{GenericOperation}
use syncedfs.Message.{SyncInit, SyncInitResponse, Message, init, response, finish, chunk}
use syncedfs.System
use syncedfs.System.{System, is_some, file_exists}
use syncedfs.Snapshot.{Config, create_snapshot, delete_snapshot}
use syncedfs.SyncId.{write_sync_id}
use syncedfs.Server.Handlers.{handle_generic_operation}

-- The packed size of a message, and whether `sendMessage` accepts one behind those sent.
pub record Network : Type 0 where
  pub packed_size : Message → ℕ
  pub accepts : List Message → Message → Bool

-- `tbytes` counts the received bytes.
pub record Session (World : Type 0) : Type 0 where
  pub world : World
  pub inbox : List Message
  pub bytes : ℕ
  pub sent : List Message

-- All files so far are received, or the connection broke.
pub data Received (World : Type 0) : Type 0 where
  received : Option ℕ → World → ℕ → List Message → Received World
  broken : World → ℕ → Received World

abbrev pub sync_id_path : Config → CString
sync_id_path cfg = take path_limit (cfg.logdir ++ slash ∷ (cfg.resource ++ codes ".syncid"))

abbrev pub last_sync_id_path : Config → CString
last_sync_id_path cfg =
    take path_limit (cfg.logdir ++ slash ∷ (cfg.resource ++ codes ".syncid.last"))

-- `lastsyncid == syncinit->sync_id` compares the address of a local buffer with one of the heap.
abbrev pub same_address : Bool
same_address = false

-- ERRMSG_MAX - 1
abbrev pub message_limit : ℕ
message_limit = 499

abbrev pub refusal : CString → SyncInitResponse
refusal text = record {
  proceed = false;
  already_synced = none;
  error_message = some (take message_limit text);
}

abbrev pub mismatch : Config → SyncInit → SyncInitResponse
mismatch cfg m = refusal (
    codes "Received resource "
    ++ m.resource
    ++ codes " does not match.local resource "
    ++ cfg.resource)

abbrev pub approval : SyncInitResponse
approval = record { proceed = true; already_synced = none; error_message = none }

abbrev pub confirmation : SyncInitResponse
confirmation = record { proceed = false; already_synced = some true; error_message = none }

module _ (Y : System) (N : Network) (cfg : Config) where
  -- The inner loop of `handleClient` over the operations of a chunk.
  unfoldable pub handle_operations :
      CString → List GenericOperation → Option ℕ → Y.World → Option ℕ × Y.World
  unfolding handle_generic_operation
  handle_operations relpath [] fd w = (fd, w)
  handle_operations relpath (op ∷ ops) fd w =
      let h = handle_generic_operation Y cfg.rootdir relpath op fd w in
      handle_operations relpath ops h.fd h.world

  abbrev pub counted : Message → ℕ → ℕ
  counted m bytes = bytes + N.packed_size m + 4

  -- The loop over the chunks of one file.
  unfoldable pub receive_file : List Message → Option ℕ → Y.World → ℕ → Received Y.World
  unfolding handle_operations
  receive_file (chunk c ∷ inbox) fd w bytes =
      let (fd', w') = handle_operations c.relative_path c.ops fd w in
      if c.last_chunk
      then received fd' w' (counted (chunk c) bytes) inbox
      else receive_file inbox fd' w' (counted (chunk c) bytes)
  receive_file _ fd w bytes = broken w bytes

  unfoldable pub close_received : Option ℕ → Y.World → Y.World
  close_received none w = w
  close_received (some fd) w = (Y.perform (System.close fd) w).1

  abbrev pub then_receive :
      Received Y.World → (Y.World → ℕ → List Message → Received Y.World) → Received Y.World
  then_receive (received fd w bytes inbox) next = next (close_received fd w) bytes inbox
  then_receive (broken w bytes) next = broken w bytes

  -- The loop over the files.
  unfoldable pub receive_files : ℕ → Y.World → ℕ → List Message → Received Y.World
  unfolding receive_file close_received
  receive_files zero w bytes inbox = received none w bytes inbox
  receive_files (suc n) w bytes inbox =
      then_receive (receive_file inbox none w bytes) (receive_files n)

  -- `sendMessage`
  unfoldable pub send_message : Message → Session Y.World → Bool × Session Y.World
  send_message m s =
      if N.accepts s.sent m then (true, record s { sent = s.sent ++ m ∷ [] }) else (false, s)

  -- Each stage of `syncInit` is skipped behind an error; the Boolean is the negated `errflag`.
  unfoldable pub revert_snapshot : Y.World → Bool × Y.World
  unfolding delete_snapshot create_snapshot
  revert_snapshot w =
      let (gone, w₁) = delete_snapshot Y cfg cfg.rootdir w in
      let (restored, w₂) = create_snapshot Y cfg cfg.snapshot cfg.rootdir false w₁ in
      let (dropped, w₃) = delete_snapshot Y cfg cfg.snapshot w₂ in (gone && restored && dropped, w₃)

  -- The last session has not finished: its sync-id is there and can be read.
  abbrev pub unfinished : Y.World → Bool
  unfolding file_exists
  unfinished w = is_some (Y.stat (sync_id_path cfg) w) && is_some (Y.read_line (sync_id_path cfg) w)

  unfoldable pub revert_unfinished : Y.World → Bool × Y.World
  unfolding revert_snapshot file_exists
  revert_unfinished w =
      if unfinished w && file_exists Y cfg.snapshot w then revert_snapshot w else (true, w)

  unfoldable pub drop_stale : Bool → Y.World → Bool × Y.World
  unfolding file_exists delete_snapshot
  drop_stale false w = (false, w)
  drop_stale true w =
      if file_exists Y cfg.snapshot w then delete_snapshot Y cfg cfg.snapshot w else (true, w)

  unfoldable pub take_snapshot : Bool → Y.World → Bool × Y.World
  unfolding create_snapshot
  take_snapshot false w = (false, w)
  take_snapshot true w = create_snapshot Y cfg cfg.rootdir cfg.snapshot true w

  unfoldable pub mark_started : CString → Bool → Y.World → Bool × Y.World
  unfolding write_sync_id
  mark_started id false w = (false, w)
  mark_started id true w = write_sync_id Y id (sync_id_path cfg) w

  unfoldable pub prepare : CString → Y.World → Bool × Y.World
  unfolding revert_unfinished drop_stale take_snapshot mark_started
  prepare id w =
      let (ok₁, w₁) = revert_unfinished w in
      let (ok₂, w₂) = drop_stale ok₁ w₁ in
      let (ok₃, w₃) = take_snapshot ok₂ w₂ in mark_started id ok₃ w₃

  unfoldable pub reply : SyncInit → Bool → Session Y.World → Option ℕ × Session Y.World
  unfolding send_message
  reply m ok s =
      let text = codes "Error in snapshot operation." in
      let (accepted, s') = send_message (response (if ok then approval else refusal text)) s in
      (if accepted && ok then some m.number_files else none, s')

  unfoldable pub begin_sync : SyncInit → Session Y.World → Option ℕ × Session Y.World
  unfolding prepare reply
  begin_sync m s = let (ok, w) = prepare m.sync_id s.world in reply m ok (record s { world = w })

  -- `the confirmation, don't sync`
  unfoldable pub confirm_synced : Session Y.World → Option ℕ × Session Y.World
  unfolding send_message
  confirm_synced s = (some 0, (send_message (response confirmation) s).1)

  unfoldable pub refuse : SyncInit → Session Y.World → Option ℕ × Session Y.World
  unfolding send_message
  refuse m s = (none, (send_message (response (mismatch cfg m)) s).1)

  unfoldable pub check_init : SyncInit → Session Y.World → Option ℕ × Session Y.World
  unfolding begin_sync confirm_synced refuse file_exists
  check_init m s =
      let last = last_sync_id_path cfg in
      if not (eqb m.resource cfg.resource)
      then refuse m s
      else if file_exists Y last s.world && is_some (Y.read_line last s.world) && same_address
      then confirm_synced s
      else begin_sync m s

  unfoldable pub sync_init_from : List Message → Session Y.World → Option ℕ × Session Y.World
  unfolding check_init
  sync_init_from (init m ∷ inbox) s =
      check_init m (record s { inbox = inbox; bytes = counted (init m) s.bytes })
  sync_init_from _ s = (none, s)

  -- `syncInit`: the number of files, `none` for -1.
  unfoldable pub sync_init : Session Y.World → Option ℕ × Session Y.World
  unfolding sync_init_from
  sync_init s = sync_init_from s.inbox s

  unfoldable pub confirm : Option ℕ → Session Y.World → Bool × Session Y.World
  unfolding send_message
  confirm none s = (false, s)
  confirm (some r) s = send_message (finish s.bytes) s

  unfoldable pub mark_finished : Bool → Session Y.World → Bool × Session Y.World
  unfolding confirm
  mark_finished false s = (false, s)
  mark_finished true s =
      let (r, w) = Y.perform (System.rename (sync_id_path cfg) (last_sync_id_path cfg)) s.world in
      confirm r (record s { world = w })

  -- What follows the loops.
  unfoldable pub finish_client : Received Y.World → Session Y.World → Bool × Session Y.World
  unfolding delete_snapshot mark_finished
  finish_client (broken w bytes) s = (false, record s { world = w; bytes = bytes })
  finish_client (received fd w bytes inbox) s =
      let (deleted, w') = delete_snapshot Y cfg cfg.snapshot w in
      mark_finished deleted (record s { world = w'; bytes = bytes; inbox = inbox })

  unfoldable pub receive_client : Option ℕ → Session Y.World → Bool × Session Y.World
  unfolding receive_files finish_client
  receive_client none s = (false, s)
  receive_client (some nfiles) s = finish_client (receive_files nfiles s.world s.bytes s.inbox) s

  -- `handleClient`, but for the closing of the socket.
  unfoldable pub handle_client : Session Y.World → Bool × Session Y.World
  unfolding sync_init receive_client
  handle_client s = let (nfiles, s') = sync_init s in receive_client nfiles s'
