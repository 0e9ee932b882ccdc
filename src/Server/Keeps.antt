-- ===== src/Server/Keeps.antt =====
-- syncedfs-daemon/server.c, the handlers and the loops of `handleClient`, and `writeSyncId` of
-- syncedfs-common/syncid.c: what they keep of the system.
use syncedfs.Prelude.{
  ℕ, zero, suc, ◌≡◌, refl, ◌∙◌, inl, inr, Bool, true, false, Option, none, some, List, [], ◌∷◌,
  Bool-cases, if◌then◌else◌,
}
use syncedfs.CString.{CString}
use syncedfs.FilePath.{absolute_path}
use syncedfs.Operation.{GenericOperation, WriteOperation, Body}
use syncedfs.Message.{Message, chunk}
use syncedfs.System
use syncedfs.System.{System, Call, is_some, is_regular, is_fifo}
use syncedfs.Snapshot.{Config}
use syncedfs.SyncId.{close_sync_id, store_sync_id, fill_sync_id, write_sync_id}
use syncedfs.Server.Handlers.{
  attempt, handle_create, close_created, mknod_regular, handle_mknod, store_data, write_opened,
  handle_write, handle_unlink, handle_body, handle_generic_operation,
}
use syncedfs.Server.Session.{
  Network, Received, received, broken, handle_operations, counted, receive_file, receive_files,
  close_received, then_receive,
}

abbrev pub world_of : {World : Type 0} → Received World → World
world_of (received fd w bytes inbox) = w
world_of (broken w bytes) = w

module _ (Y : System) {X : Type 0} (view : Y.World → X)
    (kept : (call : Call) (w : Y.World) → view (Y.perform call w).1 ≡ view w) where
  close_sync_id-keeps :
      (fd : ℕ) (go : Bool) (w : Y.World) → view (close_sync_id Y fd go w).1 ≡ view w
  unfolding close_sync_id
  close_sync_id-keeps fd true w = kept _ w
  close_sync_id-keeps fd false w = refl

  store_sync_id-keeps :
      (id : CString) (fd : ℕ) (go : Bool) (w : Y.World)
      → view (store_sync_id Y id fd go w).1 ≡ view w
  unfolding store_sync_id
  store_sync_id-keeps id fd true w = close_sync_id-keeps fd _ _ ∙ kept _ w
  store_sync_id-keeps id fd false w = refl

  fill_sync_id-keeps :
      (id : CString) (fd : Option ℕ) (w : Y.World) → view (fill_sync_id Y id fd w).1 ≡ view w
  unfolding fill_sync_id
  fill_sync_id-keeps id (some fd) w = store_sync_id-keeps id fd _ _ ∙ kept _ w
  fill_sync_id-keeps id none w = refl

  pub write_sync_id-keeps :
      (id path : CString) (w : Y.World) → view (write_sync_id Y id path w).1 ≡ view w
  unfolding write_sync_id
  write_sync_id-keeps id path w = fill_sync_id-keeps id _ _ ∙ kept _ w

  attempt-keeps :
      (call : Call) (fd : Option ℕ) (w : Y.World) → view (attempt Y call fd w).world ≡ view w
  unfolding attempt
  attempt-keeps call fd w = kept call w

  close_created-keeps :
      (tfd fd : Option ℕ) (w : Y.World) → view (close_created Y tfd fd w).world ≡ view w
  unfolding close_created
  close_created-keeps none fd w = refl
  close_created-keeps (some tfd) fd w = attempt-keeps _ fd w

  handle_mknod-keeps :
      (fpath : CString) (mode dev : ℕ) (fd : Option ℕ) (w : Y.World)
      → view (handle_mknod Y fpath mode dev fd w).world ≡ view w
  unfolding handle_mknod mknod_regular
  handle_mknod-keeps fpath mode dev fd w = elim (Bool-cases (is_regular mode)) [
    | inl r ↦ rw r (close_created-keeps _ fd _ ∙ kept _ w)
    | inr r ↦ elim (Bool-cases (is_fifo mode)) [
      | inl f ↦ rw (r, f) (attempt-keeps _ fd w)
      | inr f ↦ rw (r, f) (attempt-keeps _ fd w)
    ]
  ]

  store_data-keeps :
      (bytes : Option (List ℕ)) (op : WriteOperation) (fd : ℕ) (w : Y.World)
      → view (store_data Y bytes op fd w).world ≡ view w
  unfolding store_data
  store_data-keeps none op fd w = refl
  store_data-keeps (some bytes) op fd w = kept _ w

  write_opened-keeps :
      (op : WriteOperation) (fd : Option ℕ) (w : Y.World)
      → view (write_opened Y op fd w).world ≡ view w
  unfolding write_opened
  write_opened-keeps op none w = refl
  write_opened-keeps op (some fd) w = store_data-keeps op.payload op fd w

  handle_write-keeps :
      (fpath : CString) (op : WriteOperation) (fd : Option ℕ) (w : Y.World)
      → view (handle_write Y fpath op fd w).world ≡ view w
  unfolding handle_write
  handle_write-keeps fpath op none w = write_opened-keeps op _ _ ∙ kept _ w
  handle_write-keeps fpath op (some fd) w = write_opened-keeps op (some fd) w

  handle_unlink-keeps :
      (fpath : CString) (fd : Option ℕ) (w : Y.World)
      → view (handle_unlink Y fpath fd w).world ≡ view w
  unfolding handle_unlink
  handle_unlink-keeps fpath none w = attempt-keeps _ none w
  handle_unlink-keeps fpath (some fd) w =
      let (r, w') = Y.perform (System.close fd) w in
      attempt-keeps (System.unlink fpath) (if is_some r then none else some fd) w' ∙ kept _ w

  handle_body-keeps :
      (rootdir relpath fpath : CString) (b : Body) (fd : Option ℕ) (w : Y.World)
      → view (handle_body Y rootdir relpath fpath b fd w).world ≡ view w
  unfolding handle_body handle_create
  handle_body-keeps rootdir relpath fpath (Body.create mode) fd w = kept _ w
  handle_body-keeps rootdir relpath fpath (Body.mknod mode dev) fd w =
      handle_mknod-keeps fpath mode dev fd w
  handle_body-keeps rootdir relpath fpath (Body.mkdir mode) fd w = attempt-keeps _ fd w
  handle_body-keeps rootdir relpath fpath (Body.symlink o n) fd w = attempt-keeps _ fd w
  handle_body-keeps rootdir relpath fpath (Body.link o n) fd w = attempt-keeps _ fd w
  handle_body-keeps rootdir relpath fpath (Body.write op) fd w = handle_write-keeps fpath op fd w
  handle_body-keeps rootdir relpath fpath (Body.unlink l i) fd w = handle_unlink-keeps fpath fd w
  handle_body-keeps rootdir relpath fpath Body.rmdir fd w = attempt-keeps _ fd w
  handle_body-keeps rootdir relpath fpath (Body.truncate n) fd w = attempt-keeps _ fd w
  handle_body-keeps rootdir relpath fpath (Body.chmod m) fd w = attempt-keeps _ fd w
  handle_body-keeps rootdir relpath fpath (Body.chown u g) fd w = attempt-keeps _ fd w
  handle_body-keeps rootdir relpath fpath (Body.rename o n l i) fd w = attempt-keeps _ fd w
  handle_body-keeps rootdir relpath fpath Body.setxattr fd w = refl
  handle_body-keeps rootdir relpath fpath Body.removexattr fd w = refl

  if-keeps :
      (b : Bool) (r r' : Received Y.World) (x : X)
      → view (world_of r) ≡ x
      → view (world_of r') ≡ x
      → view (world_of (if b then r else r')) ≡ x
  if-keeps true r r' x h h' = h
  if-keeps false r r' x h h' = h'

  module _ (N : Network) (cfg : Config) where
    handle_operations-keeps :
        (relpath : CString) (ops : List GenericOperation) (fd : Option ℕ) (w : Y.World)
        → view (handle_operations Y N cfg relpath ops fd w).1 ≡ view w
    unfolding handle_operations handle_generic_operation
    handle_operations-keeps relpath [] fd w = refl
    handle_operations-keeps relpath (op ∷ ops) fd w =
        handle_operations-keeps relpath ops _ _
        ∙ handle_body-keeps cfg.rootdir relpath (absolute_path cfg.rootdir relpath) op.body fd w

    receive_file-keeps :
        (inbox : List Message) (fd : Option ℕ) (w : Y.World) (bytes : ℕ)
        → view (world_of (receive_file Y N cfg inbox fd w bytes)) ≡ view w
    unfolding receive_file
    receive_file-keeps [] fd w bytes = refl
    receive_file-keeps (Message.init m ∷ inbox) fd w bytes = refl
    receive_file-keeps (Message.response m ∷ inbox) fd w bytes = refl
    receive_file-keeps (Message.finish m ∷ inbox) fd w bytes = refl
    receive_file-keeps (Message.chunk c ∷ inbox) fd w bytes =
        let (fd', w') = handle_operations Y N cfg c.relative_path c.ops fd w in
        if-keeps c.last_chunk (received fd' w' (counted Y N cfg (chunk c) bytes) inbox)
          (receive_file Y N cfg inbox fd' w' (counted Y N cfg (chunk c) bytes)) (view w)
          (handle_operations-keeps c.relative_path c.ops fd w)
          (receive_file-keeps inbox fd' w' _ ∙ handle_operations-keeps c.relative_path c.ops fd w)

    close_received-keeps :
        (fd : Option ℕ) (w : Y.World) → view (close_received Y N cfg fd w) ≡ view w
    unfolding close_received
    close_received-keeps none w = refl
    close_received-keeps (some fd) w = kept _ w

    then_receive-keeps :
        (r : Received Y.World) (next : Y.World → ℕ → List Message → Received Y.World)
        → ((w : Y.World) (bytes : ℕ) (inbox : List Message)
            → view (world_of (next w bytes inbox)) ≡ view w)
        → view (world_of (then_receive Y N cfg r next)) ≡ view (world_of r)
    then_receive-keeps (broken w bytes) next h = refl
    then_receive-keeps (received fd w bytes inbox) next h =
        h (close_received Y N cfg fd w) bytes inbox ∙ close_received-keeps fd w

    -- Whatever messages come, and wherever the connection breaks.
    pub receive_files-keeps :
        (n : ℕ) (w : Y.World) (bytes : ℕ) (inbox : List Message)
        → view (world_of (receive_files Y N cfg n w bytes inbox)) ≡ view w
    unfolding receive_files
    receive_files-keeps zero w bytes inbox = refl
    receive_files-keeps (suc n) w bytes inbox =
        then_receive-keeps (receive_file Y N cfg inbox none w bytes) (receive_files Y N cfg n)
          (receive_files-keeps n)
        ∙ receive_file-keeps inbox none w bytes
