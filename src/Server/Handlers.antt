-- ===== src/Server/Handlers.antt =====
-- syncedfs-daemon/server.c, "Operation handlers": `handleGenericOperation` and the handler of each
-- operation. They write right in the root directory.
use syncedfs.Prelude.{ℕ, Bool, false, Option, none, some, List, ◌==◌, if◌then◌else◌, take}
use syncedfs.CString.{CString}
use syncedfs.FilePath.{absolute_path}
use syncedfs.Operation.{GenericOperation, WriteOperation, Body}
use syncedfs.System
use syncedfs.System.{System, Call, is_some, is_regular, is_fifo}

-- What a handler leaves: the result (`none` where `ret` is not set), the descriptor of the file that
-- is open for writing (`none` for -1), and the system.
pub record Handled (World : Type 0) : Type 0 where
  pub ret : Option Bool
  pub fd : Option ℕ
  pub world : World

abbrev pub wrote : ℕ → Option ℕ → Bool
wrote size none = false
wrote size (some n) = n == size

module _ (Y : System) where
  -- One system call, and -1 if it has failed.
  unfoldable pub attempt : Call → Option ℕ → Y.World → Handled Y.World
  attempt call fd w =
      let (r, w') = Y.perform call w in record { ret = some (is_some r); fd = fd; world = w' }

  unfoldable pub handle_create : CString → ℕ → Y.World → Handled Y.World
  handle_create fpath mode w =
      let (r, w') = Y.perform (System.creat fpath mode) w in
      record { ret = some (is_some r); fd = r; world = w' }

  unfoldable pub close_created : Option ℕ → Option ℕ → Y.World → Handled Y.World
  unfolding attempt
  close_created none fd w = record { ret = some false; fd = fd; world = w }
  close_created (some tfd) fd w = attempt (System.close tfd) fd w

  unfoldable pub mknod_regular : CString → ℕ → Option ℕ → Y.World → Handled Y.World
  unfolding close_created
  mknod_regular fpath mode fd w =
      let (tfd, w') = Y.perform (System.open_new fpath mode) w in close_created tfd fd w'

  unfoldable pub handle_mknod : CString → ℕ → ℕ → Option ℕ → Y.World → Handled Y.World
  unfolding attempt mknod_regular
  handle_mknod fpath mode dev fd w =
      if is_regular mode
      then mknod_regular fpath mode fd w
      else if is_fifo mode
      then attempt (System.mkfifo fpath mode) fd w
      else attempt (System.mknod fpath mode dev) fd w

  unfoldable pub store_data : Option (List ℕ) → WriteOperation → ℕ → Y.World → Handled Y.World
  store_data none op fd w = record { ret = some false; fd = some fd; world = w }
  store_data (some bytes) op fd w =
      let (r, w') = Y.perform (System.pwrite fd (take op.size bytes) op.offset) w in
      record { ret = some (wrote op.size r); fd = some fd; world = w' }

  unfoldable pub write_opened : WriteOperation → Option ℕ → Y.World → Handled Y.World
  unfolding store_data
  write_opened op none w = record { ret = some false; fd = none; world = w }
  write_opened op (some fd) w = store_data op.payload op fd w

  unfoldable pub handle_write : CString → WriteOperation → Option ℕ → Y.World → Handled Y.World
  unfolding write_opened
  handle_write path op none w =
      let (r, w') = Y.perform (System.open_write path) w in write_opened op r w'
  handle_write path op (some fd) w = write_opened op (some fd) w

  -- The descriptor stays where `close` fails.
  unfoldable pub handle_unlink : CString → Option ℕ → Y.World → Handled Y.World
  unfolding attempt
  handle_unlink fpath none w = attempt (System.unlink fpath) none w
  handle_unlink fpath (some fd) w =
      let (r, w') = Y.perform (System.close fd) w in
      attempt (System.unlink fpath) (if is_some r then none else some fd) w'

  unfoldable pub handle_body :
      CString → CString → CString → Body → Option ℕ → Y.World → Handled Y.World
  unfolding attempt handle_create handle_mknod handle_write handle_unlink
  handle_body rootdir relpath fpath (Body.create mode) fd w = handle_create fpath mode w
  handle_body rootdir relpath fpath (Body.mknod mode dev) fd w = handle_mknod fpath mode dev fd w
  handle_body rootdir relpath fpath (Body.mkdir mode) fd w = attempt (System.mkdir fpath mode) fd w
  handle_body rootdir relpath fpath (Body.symlink oldpath newpath) fd w =
      attempt (System.symlink newpath fpath) fd w
  handle_body rootdir relpath fpath (Body.link oldpath newpath) fd w =
      attempt (System.link (absolute_path rootdir oldpath) fpath) fd w
  handle_body rootdir relpath fpath (Body.write op) fd w = handle_write fpath op fd w
  handle_body rootdir relpath fpath (Body.unlink last_link inode) fd w = handle_unlink fpath fd w
  handle_body rootdir relpath fpath Body.rmdir fd w = attempt (System.rmdir fpath) fd w
  handle_body rootdir relpath fpath (Body.truncate newsize) fd w =
      attempt (System.truncate fpath newsize) fd w
  handle_body rootdir relpath fpath (Body.chmod mode) fd w = attempt (System.chmod fpath mode) fd w
  handle_body rootdir relpath fpath (Body.chown uid gid) fd w =
      attempt (System.chown fpath uid gid) fd w
  handle_body rootdir relpath fpath (Body.rename oldpath newpath last_link inode) fd w =
      attempt (System.rename (absolute_path rootdir oldpath) (absolute_path rootdir newpath)) fd w
  handle_body rootdir relpath fpath Body.setxattr fd w = record { ret = none; fd = fd; world = w }
  handle_body rootdir relpath fpath Body.removexattr fd w = record {
    ret = none;
    fd = fd;
    world = w;
  }

  -- `handleGenericOperation`
  unfoldable pub handle_generic_operation :
      CString → CString → GenericOperation → Option ℕ → Y.World → Handled Y.World
  unfolding handle_body
  handle_generic_operation rootdir relpath op fd w =
      handle_body rootdir relpath (absolute_path rootdir relpath) op.body fd w
