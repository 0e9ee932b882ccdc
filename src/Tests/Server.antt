-- ===== src/Tests/Server.antt =====
-- Concrete runs of syncedfs-daemon/server.c: a system of subvolumes that hold a number, a session
-- that breaks behind a truncate, and the session after it.
use syncedfs.Prelude.{
  ℕ, ◌≡◌, refl, ap, arith, Bool, true, false, Option, none, some, List, [], ◌∷◌, ◌++◌,
  if◌then◌else◌, length,
}
use syncedfs.CString.{CString, codes, eqb, eqb_refl}
use syncedfs.Operation.{GenericOperation, Body}
use syncedfs.Message.{Message, init, chunk}
use syncedfs.System.{System, Call, Stat, is_some}
use syncedfs.Snapshot.{Config, arguments, from_last_slash}
use syncedfs.SyncId.{write_sync_id, fill_sync_id, store_sync_id, close_sync_id}
use syncedfs.Transfer.Loading.{IsStream, last, more}
use syncedfs.Server.Session.{
  Network, Session, received, receive_files, receive_file, handle_operations, sync_init,
}
use syncedfs.Server.Delivery.{
  no_streams, stream, apply_files, receive_file-IsStream, receive_files-AreStreams,
}
use syncedfs.Server.Keeps.{world_of}
use syncedfs.Server.Stages.{Subvolumes}

abbrev pub cfg : Config
cfg = record {
  resource = codes "d";
  rootdir = codes "/r";
  snapshot = codes "/s";
  logdir = codes "/l";
  btfsbin = codes "/btrfs";
  btfsbinsuid = codes "/btrfs";
}

pub record Machine : Type 0 where
  pub volumes : CString → Option ℕ
  pub id_file : Bool

abbrev pub put : CString → Option ℕ → Machine → Machine
put path v m = record m { volumes = λ p. if eqb p path then v else m.volumes p }

-- `btrfs subvolume delete PATH`, `btrfs subvolume snapshot [-r] SOURCE DEST`
abbrev pub btrfs : List CString → Machine → Option ℕ × Machine
btrfs (a ∷ b ∷ c ∷ path ∷ []) m = (some 0, put path none m)
btrfs (a ∷ b ∷ c ∷ source ∷ dest ∷ []) m = (some 0, put dest (m.volumes source) m)
btrfs (a ∷ b ∷ c ∷ r ∷ source ∷ dest ∷ []) m = (some 0, put dest (m.volumes source) m)
btrfs _ m = (some 1, m)

-- Any truncate is of the root directory.
abbrev pub perform : Call → Machine → Option ℕ × Machine
perform (Call.truncate path n) m = (some 0, put (codes "/r") (some n) m)
perform (Call.open_update path) m = (some 3, record m { id_file = true })
perform (Call.write fd bytes) m = (some (length bytes), m)
perform _ m = (some 0, m)

abbrev pub found : Bool → Option Stat
found true = some (record { nlink = 1; ino = 1 })
found false = none

abbrev pub machine : System
machine = record {
  World = Machine;
  perform = perform;
  errno = λ m. 5;
  stat = λ path m. found (if eqb path (codes "/s") then is_some (m.volumes path) else m.id_file);
  spawn = λ program argv m. btrfs argv m;
  read_line = λ path m. if m.id_file then some (codes "i") else none;
}

copied_to : (v : Option ℕ) (dest : CString) (m : Machine) → (put dest v m).volumes dest ≡ v
copied_to v dest m = rw (eqb_refl dest) refl

left_alone :
    (v : Option ℕ) (dest : CString) (m : Machine) (p : CString)
    → eqb p dest ≡ false
    → (put dest v m).volumes p ≡ m.volumes p
left_alone v dest m p e = rw e refl

perform-snapshot :
    (call : Call) (m : Machine) → (perform call m).1.volumes (codes "/s") ≡ m.volumes (codes "/s")
unfolding eqb
perform-snapshot call m = ground arith

close_sync_id-volumes :
    (go : Bool) (m : Machine) → (close_sync_id machine 3 go m).1.volumes ≡ m.volumes
unfolding close_sync_id
close_sync_id-volumes true m = refl
close_sync_id-volumes false m = refl

pub subvolumes : Subvolumes machine cfg ℕ
unfolding arguments from_last_slash write_sync_id fill_sync_id store_sync_id
subvolumes = record {
  contents = λ path m. m.volumes path;
  copied = copied;
  deleted = λ path m h other e. left_alone none path m other e;
  id_outside =
      λ id m. ap (λ v. v (codes "/r")) (close_sync_id-volumes _ (record m { id_file = true }));
  read_only = perform-snapshot;
}
  where
    copied :
        (readonly : Bool) (source dest : CString) (m : Machine)
        → (let argv = arguments cfg.btfsbin (
              codes "subvolume" ∷ codes "snapshot" ∷ (if readonly then codes "-r" ∷ [] else [])
              ++ source ∷ dest ∷ []) in
            (btrfs argv m).0 ≡ some 0
            → ((btrfs argv m).1.volumes dest ≡ m.volumes source)
              × ((path : CString)
                  → eqb path dest ≡ false
                  → (btrfs argv m).1.volumes path ≡ m.volumes path))
    copied true source dest m h =
        (copied_to (m.volumes source) dest m, left_alone (m.volumes source) dest m)
    copied false source dest m h =
        (copied_to (m.volumes source) dest m, left_alone (m.volumes source) dest m)

abbrev pub network : Network
network = record { packed_size = λ m. 10; accepts = λ sent m. true }

-- The root directory holds 1, and there is no snapshot.
abbrev pub start : Machine
start = record { volumes = λ p. if eqb p (codes "/r") then some 1 else none; id_file = false }

abbrev pub offer : Message
offer = init (record { sync_id = codes "i"; resource = codes "d"; number_files = 1 })

abbrev session : Machine → Session Machine
session m = record { world = m; inbox = offer ∷ []; bytes = 0; sent = [] }

abbrev chunk_of : CString → List GenericOperation → Bool → Message
chunk_of path ops last_chunk =
    chunk (record { relative_path = path; ops = ops; last_chunk = last_chunk })

abbrev cut_to : ℕ → GenericOperation
cut_to n = record { id = none; body = Body.truncate n }

-- The messages before the connection breaks
abbrev pub broken_stream : List Message
broken_stream = chunk_of (codes "/f") (cut_to 9 ∷ []) false ∷ []

pub apart : (eqb cfg.rootdir cfg.snapshot ≡ false) × (eqb cfg.snapshot cfg.rootdir ≡ false)
unfolding eqb
apart = (refl, refl)

-- What the broken session leaves
abbrev wreck : Machine
wreck = world_of (
    receive_files machine network cfg 1 (sync_init machine network cfg (session start)).1.world 14
      broken_stream)

-- A file in two chunks, and another in one
abbrev stream_f : List Message
stream_f =
    chunk_of (codes "/f") (cut_to 3 ∷ []) false ∷ chunk_of (codes "/f") (cut_to 4 ∷ []) true ∷ []

stream_f-IsStream : IsStream (codes "/f") (cut_to 3 ∷ cut_to 4 ∷ []) stream_f
stream_f-IsStream = more (cut_to 3 ∷ []) (cut_to 4 ∷ []) _ refl (last (cut_to 4 ∷ []))

receive_file-IsStream_example :
    receive_file machine network cfg (stream_f ++ offer ∷ []) none start 0
    ≡ received
        (handle_operations machine network cfg (codes "/f") (cut_to 3 ∷ cut_to 4 ∷ []) none start).0
        (handle_operations machine network cfg (codes "/f") (cut_to 3 ∷ cut_to 4 ∷ []) none start).1
        28
        (offer ∷ [])
receive_file-IsStream_example =
    receive_file-IsStream machine network cfg (codes "/f") (cut_to 3 ∷ cut_to 4 ∷ []) stream_f
      (offer ∷ []) none start 0 stream_f-IsStream

receive_files-AreStreams_example :
    receive_files machine network cfg 1 start 14 (stream_f ++ [])
    ≡ received none
        (apply_files machine network cfg ((codes "/f", cut_to 3 ∷ cut_to 4 ∷ []) ∷ []) start)
        42
        []
receive_files-AreStreams_example =
    receive_files-AreStreams machine network cfg ((codes "/f", cut_to 3 ∷ cut_to 4 ∷ []) ∷ [])
      (stream_f ++ []) [] start 14 (stream stream_f [] stream_f-IsStream no_streams)
