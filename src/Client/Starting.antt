-- ===== src/Client/Starting.antt =====
-- syncedfs-daemon/client.c: `switchLog`, by which the client has the file system switch its log, and
-- `generateSyncId`.
use syncedfs.Prelude.{
  ℕ, zero, suc, ◌+◌, ◌-◌, ◌*◌, ◌/◌, ◌%◌, ◌^◌, Bool, true, false, ◌&&◌, Option, none, some, List, [],
  ◌∷◌, ◌++◌, ◌==◌, if◌then◌else◌, leb, take,
}
use syncedfs.CString.{CString, codes}
use syncedfs.FilePath.{path_limit}
use syncedfs.System
use syncedfs.System.{System}
use syncedfs.Snapshot.{Config}
use syncedfs.Message.{Message}
use syncedfs.Loader.{Outside}
use syncedfs.LinkMatching.{Tree}

-- What the client meets besides system calls: the pid files of the copied library, the process that
-- sends SIGUSR1 within ten seconds of `sigtimedwait`, the time as `strftime` prints it, `rand`, the
-- bytes that `read` gives of a log, the snapshot, and the server.
pub record Host (Y : System) : Type 0 where
  pub create_pid_file : Y.World → Bool × Y.World
  pub delete_pid_file : Y.World → Bool × Y.World
  pub wait_usr1 : Y.World → Option ℕ
  pub utc_time : Y.World → CString
  pub random : Y.World → ℕ
  pub log_bytes : ℕ → Y.World → List ℕ
  pub tree : Y.World → Tree
  pub outside : Y.World → Outside
  pub connects : Y.World → Bool
  -- the messages that the server will send
  pub replies : Y.World → List Message

-- RESOURCE_MAX - 1: `fgets` reads no more.
abbrev pub pid_limit : ℕ
pid_limit = 31

abbrev pub is_digit : ℕ → Bool
is_digit c = leb 48 c && leb c 57

-- `strtol(buf, &endptr, 10)` of a pid file, which holds digits and a newline
unfoldable pub leading_number : ℕ → CString → ℕ
leading_number n [] = n
leading_number n (c ∷ line) =
    let rest = leading_number (n * 10 + (c - 48)) line in if is_digit c then rest else n

-- `none` where it is 0 or too large for a long
unfoldable pub parse_pid : CString → Option ℕ
unfolding leading_number
parse_pid line =
    let pid = leading_number 0 (take pid_limit line) in
    if pid == 0 then none else if leb (2 ^ 63) pid then none else some pid

-- `%d`: ten digits are enough for `rand`.
unfoldable pub decimal : ℕ → ℕ → CString → CString
decimal zero n digits = digits
decimal (suc fuel) n digits =
    let more = decimal fuel (n / 10) ((48 + n % 10) ∷ digits) in
    if n / 10 == 0 then (48 + n % 10) ∷ digits else more

-- SYNCID_MAX - 1
abbrev pub sync_id_limit : ℕ
sync_id_limit = 63

abbrev pub fs_pid_path : Config → CString
fs_pid_path cfg = take path_limit (codes "/var/run/syncedfs/fs/" ++ (cfg.resource ++ codes ".pid"))

module _ (Y : System) (D : Host Y) (cfg : Config) where
  -- Each step is done if the call before has succeeded.
  abbrev pub if_done : Option ℕ × Y.World → (Y.World → Bool × Y.World) → Bool × Y.World
  if_done (none, w) next = (false, w)
  if_done (some r, w) next = next w

  -- The file system answers, and no other process.
  unfoldable pub await_answer : ℕ → Y.World → Bool × Y.World
  await_answer pid w = elim (D.wait_usr1 w) [
    | none ↦ (false, w)
    | some sender ↦
        if sender == pid then (true, (Y.perform System.restore_mask w).1) else (false, w)
  ]

  unfoldable pub signal_switch : ℕ → Y.World → Bool × Y.World
  unfolding await_answer
  signal_switch pid w = if_done (Y.perform (System.kill_probe pid) w) λ w₁.
      if_done (Y.perform System.block_usr1 w₁)
        λ w₂. if_done (Y.perform (System.kill_usr1 pid) w₂) (await_answer pid)

  -- `switchLog`
  unfoldable pub switch_log : Y.World → Bool × Y.World
  unfolding parse_pid signal_switch
  switch_log w = elim (Y.read_line (fs_pid_path cfg) w) [
    | none ↦ (false, w)
    | some line ↦ elim (parse_pid line) [ none ↦ (false, w) | some pid ↦ signal_switch pid w ]
  ]

  -- `generateSyncId`
  unfoldable pub generate_sync_id : Y.World → CString
  unfolding decimal
  generate_sync_id w =
      take sync_id_limit
        (cfg.resource ++ codes "_" ++ D.utc_time w ++ codes "_" ++ decimal 10 (D.random w) [])
