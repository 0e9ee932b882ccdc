-- ===== src/Configuration.antt =====
-- syncedfs-daemon/config.c, syncedfs/config.c and syncedfs-common/config_functions.c: the
-- configuration. The library libconfig is a parameter: a file is its settings.
pub mod Settings
use syncedfs.Prelude.{
  ℕ, ◌+◌, Bool, true, false, ◌&&◌, Option, none, some, List, [], ◌∷◌, ◌++◌, if◌then◌else◌, ltb,
  length,
}
use syncedfs.CString.{CString, codes}
use syncedfs.FilePath.{canonical_path}

-- `config_lookup_string` of a file that `config_read_file` has read
abbrev pub Settings : Type 0
Settings = CString → Option CString

-- A buffer of the configuration, by the string that it holds; `none` where `strncpy` has left it
-- without a NUL.
abbrev pub Field : Type 0
Field = Option CString

-- `strncpy` into a buffer of this size
unfoldable pub strncpy : ℕ → CString → Field
strncpy size text = if ltb (length text) size then some text else none

abbrev pub resource_max : ℕ
resource_max = 32

abbrev pub path_max : ℕ
path_max = 4096

-- NI_MAXHOST, NI_MAXSERV
abbrev pub host_max : ℕ
host_max = 1025

abbrev pub service_max : ℕ
service_max = 32

unfoldable pub set_found : Option CString → ℕ → Bool → Field → Bool × Field
unfolding strncpy canonical_path
set_found none size canonical field = (false, field)
set_found (some text) size canonical field =
    (true, strncpy size (if canonical then canonical_path text else text))

-- `setConfigString`: whether it returns 0, and the buffer.
unfoldable pub set_config_string : Settings → CString → ℕ → Bool → Field → Bool × Field
unfolding set_found
set_config_string settings key size canonical field = set_found (settings key) size canonical field

-- `configuration_t` of the daemon, and of the file system
pub record DaemonConfig : Type 0 where
  pub resource : Field
  pub rootdir : Field
  pub snapshot : Field
  pub logdir : Field
  pub host : Field
  pub port : Field
  pub ident : CString
  pub btfsbin : Field
  pub btfsbinsuid : Field

pub record FsConfig : Type 0 where
  pub resource : Field
  pub rootdir : Field
  pub rootdir_len : ℕ
  pub mountdir : Field
  pub logdir : Field
  pub ident : CString

-- Return 0 or -1 with the configuration, or a string that is read or written behind its buffer.
pub data Configured (A : Type 0) : Type 0 where
  configured : Bool → A → Configured A
  overflow : Configured A

-- The settings of one file; the Boolean is `ret == 0` so far.
unfoldable pub read_main : Settings → Bool × DaemonConfig → Bool × DaemonConfig
unfolding set_config_string
read_main f (ok, c) =
    let (ok₁, btfsbin) = set_config_string f (codes "btrfs") path_max true c.btfsbin in
    let (ok₂, btfsbinsuid) = set_config_string f (codes "btrfs-suid") path_max true c.btfsbinsuid in
    (ok && ok₁ && ok₂, record c { btfsbin = btfsbin; btfsbinsuid = btfsbinsuid })

unfoldable pub read_resource : Settings → Bool × DaemonConfig → Bool × DaemonConfig
unfolding set_config_string
read_resource f (ok, c) =
    let (ok₁, rootdir) = set_config_string f (codes "rootdir") path_max true c.rootdir in
    let (ok₂, snapshot) = set_config_string f (codes "snapshot") path_max true c.snapshot in
    let (ok₃, logdir) = set_config_string f (codes "logdir") path_max true c.logdir in
    let (ok₄, host) = set_config_string f (codes "host") host_max false c.host in
    let (ok₅, port) = set_config_string f (codes "port") service_max false c.port in
    (
      ok && ok₁ && ok₂ && ok₃ && ok₄ && ok₅,
      record c {
        rootdir = rootdir;
        snapshot = snapshot;
        logdir = logdir;
        host = host;
        port = port;
      },
    )

unfoldable pub read_second : Option Settings → Bool × DaemonConfig → Configured DaemonConfig
unfolding read_resource
read_second none (ok, c) = configured false c
read_second (some g) p = let (ok, c) = read_resource g p in configured ok c

-- `sprintf(config.ident, "syncedfsd %s", config.resource)` fits if the resource ends in its buffer.
unfoldable pub name_daemon : Option Settings → Field → Bool × DaemonConfig → Configured DaemonConfig
unfolding read_second
name_daemon of_resource none p = overflow
name_daemon of_resource (some name) (ok, c) =
    read_second of_resource (ok, record c { ident = codes "syncedfsd " ++ name })

-- `readConfig` of the daemon, over the main file and the file of the resource
unfoldable pub read_daemon_config :
    Option Settings → Option Settings → CString → DaemonConfig → Configured DaemonConfig
unfolding strncpy read_main name_daemon
read_daemon_config none of_resource resource c =
    configured false (record c { resource = strncpy resource_max resource })
read_daemon_config (some f) of_resource resource c =
    let name = strncpy resource_max resource in
    name_daemon of_resource name (read_main f (true, record c { resource = name }))

-- `config.rootdir_len = strlen(config.rootdir)` and `ident`, where both strings end in their buffers
unfoldable pub name_fs : Field → Field → Bool → FsConfig → Configured FsConfig
name_fs (some name) (some rootdir) ok c =
    configured ok (record c { rootdir_len = length rootdir; ident = codes "syncedfs " ++ name })
name_fs _ _ ok c = overflow

-- `readConfig` of the file system
unfoldable pub read_fs_config : Option Settings → CString → FsConfig → Configured FsConfig
unfolding strncpy set_config_string name_fs
read_fs_config none resource c =
    configured false (record c { resource = strncpy resource_max resource })
read_fs_config (some f) resource c =
    let name = strncpy resource_max resource in
    let (ok₁, rootdir) = set_config_string f (codes "rootdir") path_max true c.rootdir in
    let (ok₂, mountdir) = set_config_string f (codes "mountdir") path_max true c.mountdir in
    let (ok₃, logdir) = set_config_string f (codes "logdir") path_max true c.logdir in
    name_fs name rootdir (ok₁ && ok₂ && ok₃)
      (record c { resource = name; rootdir = rootdir; mountdir = mountdir; logdir = logdir })
