-- ===== src/Pipeline.antt =====
-- The parts of both daemons together: what syncedfs-daemon/client.c sends for the files of a loaded
-- log, and what syncedfs-daemon/server.c does with it.
use syncedfs.Prelude.{ℕ, ◌≡◌, ◌≢◌, true, Option, some, List, [], ◌++◌, map}
use syncedfs.CString.{CString}
use syncedfs.Sorting.{Sorter}
use syncedfs.Operation.{GenericOperation}
use syncedfs.Message.{Message}
use syncedfs.HashTable.{HashTable}
use syncedfs.Optimize.{Slot, optimize_operations}
use syncedfs.OperationLog.{State}
use syncedfs.Transfer.{transfer_file}
use syncedfs.Loader.{Outside, Outcome, done, failed, fault}
use syncedfs.Transfer.Loading.{Delivers, Fits, LoaderReady, with_data}
use syncedfs.Transfer.Stream.{transfer_file-Delivers}
use syncedfs.System.{System}
use syncedfs.Snapshot.{Config}
use syncedfs.Server.Session.{Network, received, handle_operations, receive_file}
use syncedfs.Server.Delivery.{counted_all, receive_file-IsStream}

-- The transfer of a file on the client has sent messages that the server, wherever it stands, takes
-- up to the last one and handles as these operations.
abbrev pub Arrives :
    (Y : System)
    → Network
    → Config
    → CString
    → List Message
    → List GenericOperation
    → Outcome
    → Type 0
Arrives Y N cfg path before ops (done s) =
    (messages : List Message) × (s.sent ≡ before ++ messages)
    × ((rest : List Message) (fd : Option ℕ) (w : Y.World) (bytes : ℕ)
        → receive_file Y N cfg (messages ++ rest) fd w bytes
          ≡ received (handle_operations Y N cfg path ops fd w).0
              (handle_operations Y N cfg path ops fd w).1 (counted_all Y N cfg messages bytes) rest)
Arrives Y N cfg path before ops (failed s) = ⊥
Arrives Y N cfg path before ops fault = ⊥

Delivers-Arrives :
    (Y : System) (N : Network) (cfg : Config) (path : CString) (before : List Message)
    (ops : List GenericOperation) (o : Outcome)
    → Delivers path before ops o
    → Arrives Y N cfg path before ops o
Delivers-Arrives Y N cfg path before ops (done s) (messages, e, h) = (
  messages,
  e,
  λ rest fd w bytes. receive_file-IsStream Y N cfg path ops messages rest fd w bytes h,
)
Delivers-Arrives Y N cfg path before ops (failed s) h = h
Delivers-Arrives Y N cfg path before ops fault h = h

-- If the file is in the snapshot of the client, holds the bytes of every optimised write, some
-- operation is left and no call of the client fails, then the server, in any state, takes the
-- messages of the file from the connection and no more, and carries out the optimised operations in
-- their order, every write with the bytes of the snapshot.
pub transfer_file-Arrives :
    (Y : System) (N : Network) (cfg : Config) (O : Outside) (path : CString) (file : List ℕ)
    (S : Sorter Slot) (ops : List GenericOperation) (s : syncedfs.Loader.State)
    → O.source path ≡ some file
    → ((n : ℕ) → O.allocates n ≡ true)
    → ((sent : List Message) (m : Message) → O.accepts sent m ≡ true)
    → LoaderReady path file s
    → Fits file (optimize_operations S ops)
    → optimize_operations S ops ≢ []
    → Arrives Y N cfg path s.sent
        (map (with_data file) (optimize_operations S ops))
        (transfer_file O path S ops s)
transfer_file-Arrives Y N cfg O path file S ops s found allocates accepts ready fits kept =
    Delivers-Arrives Y N cfg path s.sent (map (with_data file) (optimize_operations S ops))
      (transfer_file O path S ops s)
      (transfer_file-Delivers O path file found allocates accepts S ops s ready fits kept)
