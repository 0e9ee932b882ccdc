-- ===== src/Operation.antt =====
-- The logged operations: the messages `GenericOperation` and its parts, as the generated structs
-- of syncedfs-common/protobuf/syncedfs.pb-c.h hold them. A message has one of the fourteen parts,
-- named by its `type`; here the type is the constructor of the part.
--
-- Offsets, sizes and i-nodes are numbers: the only writer of the log stores what `pwrite`,
-- `truncate` and `stat` accepted or returned, which is never negative.
use syncedfs.Prelude.{ℕ, Bool, Option, List}
use syncedfs.CString.{CString}

pub record WriteOperation : Type 0 where
  pub offset : ℕ
  pub size : ℕ
  -- `has_data` and `data`
  pub payload : Option (List ℕ)

pub data Body : Type 0 where
  -- last_link, inode
  unlink : Bool → ℕ → Body
  rmdir : Body
  create : ℕ → Body
  -- mode, dev
  mknod : ℕ → ℕ → Body
  mkdir : ℕ → Body
  -- oldpath, newpath
  symlink : CString → CString → Body
  link : CString → CString → Body
  chmod : ℕ → Body
  -- uid, gid
  chown : ℕ → ℕ → Body
  setxattr : Body
  removexattr : Body
  truncate : ℕ → Body
  write : WriteOperation → Body
  -- oldpath, newpath, last_link, inode
  rename : CString → CString → Bool → ℕ → Body

pub record GenericOperation : Type 0 where
  -- `has_id` and `id`
  pub id : Option ℕ
  pub body : Body

-- GENERIC_OPERATION__TYPE__...
unfoldable pub type_code : Body → ℕ
type_code (unlink l i) = 1
type_code rmdir = 2
type_code (create m) = 3
type_code (mknod m d) = 4
type_code (mkdir m) = 5
type_code (symlink o n) = 6
type_code (link o n) = 7
type_code (chmod m) = 8
type_code (chown u g) = 9
type_code setxattr = 10
type_code removexattr = 11
type_code (truncate n) = 12
type_code (write w) = 13
type_code (rename o n l i) = 14
