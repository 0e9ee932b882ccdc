-- ===== src/Configuration/Settings.antt =====
-- syncedfs-daemon/config.c and syncedfs/config.c, `readConfig`: which setting goes where.
use syncedfs.Prelude.{ℕ, ◌<◌, ◌≡◌, some, length}
use syncedfs.CString.{CString, codes}
use syncedfs.Configuration.{Settings, path_max, host_max, service_max}

-- The setting is there, and is shorter than its buffer.
abbrev pub Has : Settings → CString → ℕ → CString → Type 0
Has f key size text = (f key ≡ some text) × (length text < size)

-- The settings of the daemon's two files
pub record DaemonSettings (main of_resource : Settings) : Type 0 where
  pub btrfs : CString
  pub btrfs_suid : CString
  pub rootdir : CString
  pub snapshot : CString
  pub logdir : CString
  pub host : CString
  pub port : CString
  pub has_btrfs : Has main (codes "btrfs") path_max btrfs
  pub has_btrfs_suid : Has main (codes "btrfs-suid") path_max btrfs_suid
  pub has_rootdir : Has of_resource (codes "rootdir") path_max rootdir
  pub has_snapshot : Has of_resource (codes "snapshot") path_max snapshot
  pub has_logdir : Has of_resource (codes "logdir") path_max logdir
  pub has_host : Has of_resource (codes "host") host_max host
  pub has_port : Has of_resource (codes "port") service_max port
