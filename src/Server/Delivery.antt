-- ===== src/Server/Delivery.antt =====
-- syncedfs-daemon/server.c, the loops of `handleClient`: what they do with the chunks that
-- `transferFile` of client.c sends.
use mathlib.Core.List.{append_assoc}
use syncedfs.Prelude.{ℕ, ◌≡◌, refl, Option, none, List, [], ◌∷◌, ◌++◌, length}
use syncedfs.CString.{CString}
use syncedfs.Operation.{GenericOperation}
use syncedfs.Message.{Message}
use syncedfs.System.{System}
use syncedfs.Snapshot.{Config}
use syncedfs.Transfer.Loading.{IsStream, last, more}
use syncedfs.Server.Session.{
  Network, received, handle_operations, counted, receive_file, receive_files, close_received,
}

-- The messages for these files, one file behind the other.
pub data AreStreams : List (CString × List GenericOperation) → List Message → Type 0 where
  no_streams : AreStreams [] []
  stream :
      {path : CString} {ops : List GenericOperation}
      {files : List (CString × List GenericOperation)} (first rest : List Message)
      → IsStream path ops first
      → AreStreams files rest
      → AreStreams ((path, ops) ∷ files) (first ++ rest)

module _ (Y : System) (N : Network) (cfg : Config) where
  -- Every operation is handled in its order; a file is closed behind its last one.
  abbrev pub apply_files : List (CString × List GenericOperation) → Y.World → Y.World
  apply_files [] w = w
  apply_files ((path, ops) ∷ files) w =
      let (fd, w') = handle_operations Y N cfg path ops none w in
      apply_files files (close_received Y N cfg fd w')

  abbrev pub counted_all : List Message → ℕ → ℕ
  counted_all [] bytes = bytes
  counted_all (m ∷ messages) bytes = counted_all messages (counted Y N cfg m bytes)

  handle_operations-append :
      (path : CString) (ops rest : List GenericOperation) (fd : Option ℕ) (w : Y.World)
      → handle_operations Y N cfg path (ops ++ rest) fd w ≡ (
          let (fd', w') = handle_operations Y N cfg path ops fd w in
          handle_operations Y N cfg path rest fd' w')
  unfolding handle_operations
  handle_operations-append path [] rest fd w = refl
  handle_operations-append path (op ∷ ops) rest fd w = handle_operations-append path ops rest _ _

  counted_all-append :
      (first rest : List Message) (bytes : ℕ)
      → counted_all (first ++ rest) bytes ≡ counted_all rest (counted_all first bytes)
  counted_all-append [] rest bytes = refl
  counted_all-append (m ∷ first) rest bytes = counted_all-append first rest _

  -- The chunks of a file are received up to the last one and no further, and their operations are
  -- handled as if they had come in one chunk.
  pub receive_file-IsStream :
      (path : CString) (ops : List GenericOperation) (messages rest : List Message) (fd : Option ℕ)
      (w : Y.World) (bytes : ℕ)
      → IsStream path ops messages
      → (let (fd', w') = handle_operations Y N cfg path ops fd w in
          receive_file Y N cfg (messages ++ rest) fd w bytes
          ≡ received fd' w' (counted_all messages bytes) rest)
  unfolding receive_file
  receive_file-IsStream path ops _ rest fd w bytes (last _) = refl
  receive_file-IsStream path ops _ rest fd w bytes (more now later messages e h) =
      let (fd', w') = handle_operations Y N cfg path now fd w in
      rw (e, handle_operations-append path now later fd w)
        (receive_file-IsStream path later messages rest fd' w' _ h)

  -- The server handles all operations of the announced files in their order, takes as many messages
  -- as the client has sent for them, and counts the bytes of each.
  pub receive_files-AreStreams :
      (files : List (CString × List GenericOperation)) (messages rest : List Message) (w : Y.World)
      (bytes : ℕ)
      → AreStreams files messages
      → receive_files Y N cfg (length files) w bytes (messages ++ rest)
        ≡ received none (apply_files files w) (counted_all messages bytes) rest
  unfolding receive_files
  receive_files-AreStreams _ _ rest w bytes no_streams = refl
  receive_files-AreStreams ((path, ops) ∷ files) _ rest w bytes (stream first later h hs) =
      let (fd', w') = handle_operations Y N cfg path ops none w in
      rw
        (
          append_assoc first later rest,
          receive_file-IsStream path ops first (later ++ rest) none w bytes h,
          counted_all-append first later bytes,
        )
        (receive_files-AreStreams files later rest (close_received Y N cfg fd' w') _ hs)
