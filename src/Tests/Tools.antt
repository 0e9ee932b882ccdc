-- ===== src/Tests/Tools.antt =====
-- Configurations, starts of both programs, and reports of analyse-log/main.c, on concrete inputs.
use syncedfs.Prelude.{◌≤◌, ◌≡◌, refl, true, none, some, [], ◌∷◌, length, arith}
use syncedfs.Prelude.Int.{pos}
use syncedfs.CString.{CString, codes, eqb}
use syncedfs.Message.{SyncInit, init}
use syncedfs.LogFile.Loading.{log_bytes}
use syncedfs.Configuration.{Settings, DaemonConfig, FsConfig, configured}
use syncedfs.Configuration.Settings.{DaemonSettings}
use syncedfs.Programs.{DaemonStart, daemon_main, start_configured, start_role}
use syncedfs.Programs.Refusal.{daemon_main-refuses}
use syncedfs.Server.Session.{Session, sync_init}
use syncedfs.AnalyseLog.{writes_size, optimized_writes_size, print_pure_log}
use syncedfs.AnalyseLog.Sizes.{optimized_writes_size-writes_size}
use syncedfs.AnalyseLog.Printing.{print_entries, print_pure_log-log_bytes}
use syncedfs.Snapshot.{Config}
use syncedfs.Tests.Client.{memory, files, inodes, log, sorter}
use syncedfs.Tests.Links.{entry, kept}
use syncedfs.Tests.Server.{machine, network, cfg, start, Machine}
use syncedfs.Tests.Session.{codec, log-ArePacked}

optimized_writes_size-writes_size_example :
    optimized_writes_size sorter (entry ∷ kept ∷ []) ≤ writes_size (entry ∷ kept ∷ [])
optimized_writes_size-writes_size_example =
    optimized_writes_size-writes_size sorter (entry ∷ kept ∷ [])

print_pure_log-log_bytes_example :
    print_pure_log memory
      (λ n. true)
      codec
      files
      inodes
      (length (log_bytes codec log))
      0
      0
      (log_bytes codec log)
    ≡ record { lines = print_entries 0 log; status = some (pos 0) }
print_pure_log-log_bytes_example =
    print_pure_log-log_bytes memory (λ n. true) codec files inodes (λ n. refl) log log-ArePacked

-- Every setting of the main file is "/b/", every setting of the resource "/d".
abbrev main_file : Settings
main_file key = some (codes "/b/")

abbrev resource_file : Settings
resource_file key = some (codes "/d")

abbrev settings : DaemonSettings main_file resource_file
settings = record {
  btrfs = codes "/b/";
  btrfs_suid = codes "/b/";
  rootdir = codes "/d";
  snapshot = codes "/d";
  logdir = codes "/d";
  host = codes "/d";
  port = codes "/d";
  has_btrfs = (refl, omega arith);
  has_btrfs_suid = (refl, omega arith);
  has_rootdir = (refl, omega arith);
  has_snapshot = (refl, omega arith);
  has_logdir = (refl, omega arith);
  has_host = (refl, omega arith);
  has_port = (refl, omega arith);
}

abbrev blank : DaemonConfig
blank = record {
  resource = some [];
  rootdir = some [];
  snapshot = some [];
  logdir = some [];
  host = some [];
  port = some [];
  ident = [];
  btfsbin = some [];
  btfsbinsuid = some [];
}

abbrev blank_fs : FsConfig
blank_fs = record {
  resource = some [];
  rootdir = some [];
  rootdir_len = 0;
  mountdir = some [];
  logdir = some [];
  ident = [];
}

-- 32 characters
abbrev long_name : CString
long_name = codes "abcdefghabcdefghabcdefghabcdefgh"

abbrev named_r0 : Config
named_r0 = record cfg { resource = codes "r0" }

abbrev hello : SyncInit
hello = record { sync_id = codes "i"; resource = codes "r1"; number_files = 1 }

started_lem :
    daemon_main (codes "r1" ∷ codes "server" ∷ []) (λ name. configured true blank) true
    ≡ DaemonStart.server (record blank { resource = some (codes "r0") })
unfolding daemon_main start_configured start_role eqb
started_lem = refl

daemon_main-refuses_example :
    (let s : Session Machine = record {
      world = start;
      inbox = init hello ∷ [];
      bytes = 0;
      sent = [];
    } in
      ((sync_init machine network named_r0 s).0 ≡ none)
      × ((sync_init machine network named_r0 s).1.world ≡ start))
daemon_main-refuses_example =
    daemon_main-refuses machine network named_r0 (codes "r1") [] (λ name. configured true blank)
      true (record blank { resource = some (codes "r0") }) hello [] start 0 [] started_lem refl
      (unfold eqb in refl)
