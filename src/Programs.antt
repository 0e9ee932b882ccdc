-- ===== src/Programs.antt =====
-- The functions `main` of syncedfs-daemon/main.c and syncedfs/syncedfs.c, up to what they start.
pub mod Refusal
use syncedfs.Prelude.{
  ℕ, Bool, true, false, ◌||◌, Option, none, some, List, [], ◌∷◌, if◌then◌else◌, ◌==◌,
}
use syncedfs.CString.{CString, codes, eqb}
use syncedfs.Configuration.{Field, DaemonConfig, FsConfig, Configured, configured, overflow}

-- What the daemon does: it ends with a message, it starts the server or the client, or it has nothing
-- to do.
pub data DaemonStart : Type 0 where
  usage : DaemonStart
  bad_config : DaemonStart
  no_daemon : DaemonStart
  server : DaemonConfig → DaemonStart
  client : DaemonConfig → DaemonStart
  neither : DaemonStart
  crash : DaemonStart

-- `temp soulution`: the resource of a server is "r0", whatever it is called with.
abbrev pub server_config : DaemonConfig → DaemonConfig
server_config c = record c { resource = some (codes "r0") }

unfoldable pub start_role : CString → Bool → DaemonConfig → DaemonStart
start_role role becomes_daemon c =
    if eqb role (codes "server")
    then if becomes_daemon then server (server_config c) else no_daemon
    else if eqb role (codes "client")
    then client c
    else neither

unfoldable pub start_configured : CString → Bool → Configured DaemonConfig → DaemonStart
unfolding start_role
start_configured role becomes_daemon (configured true c) = start_role role becomes_daemon c
start_configured role becomes_daemon (configured false c) = bad_config
start_configured role becomes_daemon overflow = crash

-- `main` of the daemon, over the arguments behind the name of the program
unfoldable pub daemon_main : List CString → (CString → Configured DaemonConfig) → Bool → DaemonStart
unfolding start_configured
daemon_main (resource ∷ role ∷ rest) read_config becomes_daemon =
    start_configured role becomes_daemon (read_config resource)
daemon_main _ read_config becomes_daemon = usage

-- What the file system does: it ends with a message, or it calls `fuse_main` with these arguments.
pub data FsStart : Type 0 where
  usage : FsStart
  as_root : FsStart
  bad_config : FsStart
  no_log : FsStart
  no_memory : FsStart
  mount : List CString → FsStart
  crash : FsStart

-- The mount point; it holds characters that end in their buffer.
abbrev pub fuse_arguments : CString → Field → FsStart
fuse_arguments program none = crash
fuse_arguments program (some mountdir) =
    mount (program ∷ mountdir ∷ codes "-s" ∷ codes "-o" ∷ codes "big_writes,nonempty,use_ino" ∷ [])

unfoldable pub mount_configured : CString → Bool → Bool → Configured FsConfig → FsStart
mount_configured program opens_log allocates (configured true c) =
    if opens_log then if allocates then fuse_arguments program c.mountdir else no_memory else no_log
mount_configured program opens_log allocates (configured false c) = bad_config
mount_configured program opens_log allocates overflow = crash

-- `main` of the file system, over the arguments with the name of the program, and the user ids
unfoldable pub fs_main :
    List CString → ℕ → ℕ → (CString → Configured FsConfig) → Bool → Bool → FsStart
unfolding mount_configured
fs_main (program ∷ resource ∷ []) uid euid read_config opens_log allocates =
    if uid == 0 || euid == 0
    then as_root
    else mount_configured program opens_log allocates (read_config resource)
fs_main _ uid euid read_config opens_log allocates = usage
