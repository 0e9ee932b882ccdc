-- ===== src/Tests/Session.antt =====
-- The log as bytes, and a synchronisation of syncedfs-daemon/client.c, on concrete
-- inputs.
use syncedfs.Prelude.{
  ℕ, ◌≡◌, refl, Bool, true, false, Option, none, some, List, [], ◌∷◌, ◌++◌, ◌==◌, length, take,
  if◌then◌else◌, arith, Ordered,
}
use syncedfs.CString.{CString, codes, eqb}
use syncedfs.Sorting.{Sorter}
use syncedfs.Sorting.Insertion.{insertion_sorter}
use syncedfs.Operation.{create, unlink, type_code}
use syncedfs.Message.{Message, finish}
use syncedfs.Logger.{Entry}
use syncedfs.OperationLog.{FileOperations, failed, ◌>>=◌, add_operations, initial}
use syncedfs.LinkMatching.{match_inodefiles}
use syncedfs.Wire.{MessageType, sync_finish_type, Codec, Codecs, frame, recv_message}
use syncedfs.Wire.RoundTrip.{recv_message-frame, recv_message-take}
use syncedfs.LogFile.{read_log, load_log, ignore_result}
use syncedfs.LogFile.Loading.{ArePacked, log_bytes, read_log-torn, load_log-log_bytes}
use syncedfs.System.{System, Call}
use syncedfs.Client.{compare_order}
use syncedfs.Client.Order.{precedes, sort-compare_order}
use syncedfs.Client.Starting.{Host}
use syncedfs.Tests.Client.{memory, files, inodes, log, path_f, write_at, outside}
use syncedfs.Tests.Links.{entry, kept, snapshot, tree}

-- A confirmation is one byte.
abbrev codecs : Codecs
codecs = record { pack = pack; unpack = unpack }
  where
    pack : Message → List ℕ
    pack (finish n) = n ∷ []
    pack _ = []

    unpack : MessageType → List ℕ → Option Message
    unpack sync_finish_type (n ∷ []) = some (finish n)
    unpack _ _ = none

recv_message-frame_example :
    recv_message codecs (λ n. true) sync_finish_type (frame (9 ∷ []) ++ 4 ∷ []) 7
    ≡ record { message = some (finish 9); left = 4 ∷ []; bytesread = 12 }
recv_message-frame_example =
    recv_message-frame codecs (λ n. true) (finish 9) (4 ∷ []) 7 refl (λ n. refl) (omega arith)

recv_message-take_example :
    recv_message codecs (λ n. true) sync_finish_type (take 4 (frame (9 ∷ []))) 7
    ≡ record { message = none; left = []; bytesread = 7 }
recv_message-take_example =
    recv_message-take codecs (λ n. true) (finish 9) 4 7 (λ n. refl) (omega arith) (omega arith)

-- The entries of the log, by their type
abbrev pub codec : Codec Entry
codec = record { pack = pack; unpack = unpack }
  where
    pack : Entry → List ℕ
    pack (path, op) = type_code op.body ∷ path

    unpack : List ℕ → Option Entry
    unpack (code ∷ path) = some (
      path,
      if code == 3
          then record { id = none; body = create 420 }
          else if code == 13
          then write_at 9 0 3
          else record { id = none; body = unlink true 7 },
    )
    unpack [] = none

pub log-ArePacked : ArePacked codec log
unfolding type_code
log-ArePacked = (
  record { short = omega arith; back = refl },
  (record { short = omega arith; back = refl }, (record { short = omega arith; back = refl }, tt)),
)

read_log-torn_example :
    (let bytes = log_bytes codec log ++ take 5 (frame (codec.pack (path_f, write_at 9 0 3))) in
      read_log memory
        (λ n. true)
        codec
        files
        inodes
        (length bytes)
        0
        bytes
        (initial memory files inodes)
      ≡ (add_operations memory files inodes log (initial memory files inodes) >>= λ s'. failed))
unfolding type_code
read_log-torn_example =
    read_log-torn memory (λ n. true) codec files inodes (λ n. refl) log 5 (path_f, write_at 9 0 3)
      (initial memory files inodes) log-ArePacked (omega arith) (omega arith)

load_log-log_bytes_example :
    load_log memory
      (λ n. true)
      codec
      files
      inodes
      snapshot
      tree
      5
      (log_bytes codec log)
      (initial memory files inodes)
    ≡ (add_operations memory files inodes log (initial memory files inodes) >>= λ s'.
        ignore_result memory
          (λ n. true)
          codec
          files
          inodes
          (match_inodefiles memory files inodes snapshot tree 5 s'))
load_log-log_bytes_example =
    load_log-log_bytes memory (λ n. true) codec files inodes (λ n. refl) snapshot tree 5 log
      (initial memory files inodes) log-ArePacked

abbrev pub file_sorter : Sorter FileOperations
file_sorter = insertion_sorter FileOperations

sort-compare_order_example : Ordered precedes (file_sorter.sort compare_order (kept ∷ entry ∷ []))
sort-compare_order_example = sort-compare_order file_sorter (kept ∷ entry ∷ [])

-- A system that is the log alone: whether it is there.
abbrev perform : Call → Bool → Option ℕ × Bool
perform (Call.unlink path) there = (some 0, if eqb path (codes "/l/d.sync") then false else there)
perform (Call.open_read path) there = (if there then some 3 else none, there)
perform (Call.write fd bytes) there = (some (length bytes), there)
perform _ there = (some 0, there)

abbrev log_only : System
log_only = record {
  World = Bool;
  perform = perform;
  errno = λ w. 5;
  stat = λ path w. none;
  spawn = λ path argv w. (some 0, w);
  read_line = λ path w. none;
}

abbrev host : Host log_only
host = record {
  create_pid_file = λ w. (true, w);
  delete_pid_file = λ w. (true, w);
  wait_usr1 = λ w. none;
  utc_time = λ w. [];
  random = λ w. 7;
  log_bytes = λ fd w. log_bytes codec log;
  tree = λ w. tree;
  outside = λ w. outside;
  connects = λ w. true;
  replies = λ w. [];
}
