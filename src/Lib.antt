-- ===== src/Lib.antt =====
-- syncedfs: a file system that logs its changes, and a daemon that replays them on another
-- machine.
--
-- The mounted file system (syncedfs/) passes every operation on to a root directory and appends
-- what has changed to a log. The client (syncedfs-daemon/client.c) has the log switched by a
-- signal, takes a snapshot of the root directory, loads the log into one vector of operations per
-- file, optimises each vector, reads the bytes of the writes from the snapshot, and sends all in
-- chunks. The server (syncedfs-daemon/server.c) takes a snapshot of its own root directory,
-- carries the operations out in it, and goes back to the snapshot if the session before has not
-- finished.
--
-- Files:
--   Operation, Message: the messages of syncedfs-common/protobuf/syncedfs.proto as data.
--   Wire: message_functions.c, the bytes of `packMessage` and `recvMessage`. RoundTrip: from one
--   to the other.
--   PackBuffer: syncedfs-common/message_functions.c, `packMessage`. Bounds: writes and the buffer.
--   Optimize: syncedfs-daemon/optimization.c. `clip`, `trim` and `close_gaps` are the three loops
--   of `optimizeOperations`, a slot that is `none` is a NULL. Order: the comparison; Coverage,
--   Newsize, Numbering, Bytes, Phases, Sizes: what the loops keep; Replay, Shape: the whole.
--   Loader: client.c, `loadWriteData` and its buffer.
--   Transfer: client.c, `transferFile` and `transferChunk`. Buffer: the bytes that a pending write
--   points to; Loading: `loadWriteData`; Stream: the loop; SourcePath: the path that is stored from
--   one file to the next.
--   OperationLog: client.c, `addOperation` and what it calls, the loop of `loadLog`. Vector,
--   Validity: what one operation keeps true; Processing: a whole log; Frame: the other paths;
--   Removal: a file that is made and removed.
--   LinkMatching: client.c, `matchInodefiles` and `matchInode`. Conserved: what a merge keeps;
--   Files: the loop over the files; Walk: the walk over the snapshot; Complete: both.
--   LogFile: client.c, `loadLog` over bytes. Loading: on what `logGeneric` writes.
--   Client: client.c, `transfer`, `initiateSync`, `sortByOrder`. Starting: `switchLog`,
--   `generateSyncId`; Synchronize: `synchronize`; Delivery: the messages of a session; Order: the
--   order of the files; Confirmation, Retention: what a session keeps until it is confirmed.
--   Server: server.c. Handlers: an operation; Session: `handleClient` and `syncInit`; Listening:
--   `startServer`; Keeps: what handlers do not change; Delivery: the loops on the chunks of the
--   client; Stages: the stages of `syncInit`; Rollback: what it starts from;
--   Interruption: clients that break off.
--   Snapshot, SyncId: syncedfs-daemon/snapshot.c and syncedfs-common/syncid.c.
--   Fuse: syncedfs/syncedfs.c, the operations that change something. Requests: the log against the
--   changes; Reading: the operations that only read; Directory: `sfs_readdir`, `sfs_readlink`;
--   Mounting: `sfs_init` and `sfs_destroy`.
--   Logger: syncedfs/log.c and syncedfs/sighandlers.c. History: all that was logged; Switch: when
--   the log is switched.
--   FilePath: syncedfs-common/path_functions.c and `sfs_fullpath`. RoundTrip: paths there and
--   back.
--   Configuration: syncedfs-daemon/config.c, syncedfs/config.c,
--   syncedfs-common/config_functions.c. Settings: which setting goes where.
--   Programs: `main` of syncedfs-daemon/main.c and syncedfs/syncedfs.c. Refusal: the name of a
--   server.
--   AnalyseLog: analyse-log/main.c. Sizes: what optimisation saves; Printing: `printPureLog`.
--   System: system calls; `fileExists` and `sfs_error`.
--   Sorting, HashTable: what the code relies on of qsort and of uthash, with an instance of each.
--   Pipeline: one file from the client to the server. Session: a whole session.
--   CString, Prelude: strings, shared names, lists and integers.
--   Tests: every result on a concrete input.
--
-- Parameters: the C library and the kernel (records System, Host, Reads, Platform, Outside, Tree,
-- Memory, Disk, Network), libconfig (Settings), protobuf-c (Codec, Codecs), qsort (Sorter), uthash
-- (HashTable), the program btrfs (laws in Server.Stages.Subvolumes).
--
-- Loops are structural: over the vector of operations, the messages that come in, the files of a
-- table, the objects of a walk. `read_log` runs on fuel: each turn takes four bytes at least, and
-- it is given as much as there are bytes. `decimal` is given ten digits, enough for `rand`.
-- Offsets, sizes and i-nodes are natural numbers without a bound, since the only writer of the log
-- stores what the system calls accepted or returned.
--
-- Not modelled: packing and unpacking by the generated syncedfs-common/protobuf/syncedfs.pb-c.c,
-- the words that analyse-log prints around its numbers, diagnostics, the benchmarks in performance,
-- the copied libraries in syncedfs-common/lib.
pub mod Prelude
pub mod Sorting
pub mod CString
pub mod Operation
pub mod Optimize
pub mod Message
pub mod PackBuffer
pub mod Loader
pub mod Transfer
pub mod FilePath
pub mod HashTable
pub mod OperationLog
pub mod System
pub mod Snapshot
pub mod SyncId
pub mod Server
pub mod Logger
pub mod Fuse
pub mod Pipeline
pub mod Tests
pub mod LinkMatching
pub mod Wire
pub mod LogFile
pub mod Client
pub mod Session
pub mod AnalyseLog
pub mod Configuration
pub mod Programs
