-- ===== src/Tests/Links.antt =====
-- A run of `matchInodefiles` of syncedfs-daemon/client.c: operations on an unlinked link of i-node 7,
-- which the snapshot still has as "/h".
use syncedfs.Prelude.{true, false, none, some, [], ◌∷◌, if◌then◌else◌}
use syncedfs.Prelude.Int.{pos}
use syncedfs.CString.{CString, codes, eqb}
use syncedfs.Operation.{create}
use syncedfs.OperationLog.{FileOperations, State}
use syncedfs.LinkMatching.{Tree}
use syncedfs.Tests.Client.{files, inodes, numbered, write_at}

abbrev pub snapshot : CString
snapshot = codes "/s"

abbrev pub entry : FileOperations
entry = record {
  relpath = codes "/f";
  order = pos 0;
  operations = numbered 0 (create 420) ∷ [];
  capacity = 8;
  inode = 0;
  created = true;
}

abbrev pub kept : FileOperations
kept = record {
  relpath = codes "/g";
  order = pos 1;
  operations = write_at 1 0 3 ∷ [];
  capacity = 8;
  inode = 7;
  created = false;
}

abbrev state : State files inodes
state = record {
  files = (codes "/f", entry) ∷ [];
  inodefiles = (7, kept) ∷ [];
  fileorder = 2;
  next_id = 3;
}

abbrev pub tree : Tree
tree = record {
  stat_ino = λ path. if eqb path (codes "/s/h") then some 7 else none;
  visits = record { pathname = codes "/s/h"; inode = some 7 } ∷ [];
}
