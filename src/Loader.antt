-- ===== src/Loader.antt =====
-- syncedfs-daemon/client.c: `loadWriteData`, and the state that `transferFile` hands to it. A write
-- points into the buffer `ddata`; a pointer into a buffer that `realloc` has replaced is dangling.
use syncedfs.Prelude.{
  ℕ, ◌+◌, Bool, true, false, ◌&&◌, Option, none, some, List, ◌++◌, ltb, ◌==◌, if◌then◌else◌, length,
  take, drop,
}
use syncedfs.CString.{CString, eqb}
use syncedfs.Operation.{GenericOperation, WriteOperation}
use syncedfs.Message.{Message}

-- config.h: MESSAGE_MAX
abbrev pub message_max : ℕ
message_max = 524288

-- What the client meets outside: the files of its snapshot (`none` where `open` fails), whether an
-- allocation of so many bytes succeeds, and whether `send` accepts a message behind those sent.
pub record Outside : Type 0 where
  pub source : CString → Option (List ℕ)
  pub allocates : ℕ → Bool
  pub accepts : List Message → Message → Bool

-- `static int fd`: -1, a descriptor of an open file, or one that has been closed.
pub data Descriptor : Type 0 where
  no_file : Descriptor
  open_file : List ℕ → Descriptor
  closed_file : Descriptor

-- The static variables of `loadWriteData`.
pub record Loader : Type 0 where
  pub stored_path : CString
  pub fd : Descriptor

-- `dyndata_t`. The buffer is gone after a failed `realloc`; a successful one makes a new buffer,
-- with the bytes of the old one.
pub record DynData : Type 0 where
  pub present : Bool
  pub buffer : ℕ
  pub bytes : List ℕ
  pub offset : ℕ
  pub size : ℕ

-- `writeop->data`
pub record Region : Type 0 where
  pub buffer : ℕ
  pub start : ℕ
  pub size : ℕ

-- An operation of the vector with the data that was loaded for it.
pub record Pending : Type 0 where
  pub operation : GenericOperation
  pub region : Option Region

pub record State : Type 0 where
  pub loader : Loader
  pub ddata : DynData
  pub sent : List Message

-- Return 0, return -1, or a fault: a read through NULL or a dangling pointer.
pub data Outcome : Type 0 where
  done : State → Outcome
  failed : State → Outcome
  fault : Outcome

-- `pread` into `buf + offset`: the bytes that it read, `none` where it returns -1
unfoldable pub pread : Descriptor → ℕ → ℕ → Option (List ℕ)
pread (open_file file) size offset = some (take size (drop offset file))
pread _ size offset = none

unfoldable pub store_read : WriteOperation → Option (List ℕ) → State → Option Region × State
store_read w none s = (none, s)
store_read w (some got) s =
    if s.ddata.present && length got == w.size
    then (
      some (record { buffer = s.ddata.buffer; start = s.ddata.offset; size = w.size }),
      record s {
        ddata = record s.ddata {
          bytes = take s.ddata.offset s.ddata.bytes ++ got;
          offset = s.ddata.offset + w.size;
        };
      },
    )
    else (none, s)

-- Each stage goes on if the one before has succeeded. The region is `none` where the code
-- returns -1.
unfoldable pub load_with_room : WriteOperation → Bool → State → Option Region × State
unfolding pread store_read
load_with_room w true s = store_read w (pread s.loader.fd w.size w.offset) s
load_with_room w false s = (none, s)

module _ (O : Outside) where
  unfoldable pub open_source : CString → State → Bool × State
  open_source relpath s =
      if eqb relpath s.loader.stored_path then (true, s) else elim (O.source relpath) [
        | none ↦ (false, record s { loader = record { stored_path = relpath; fd = no_file } })
        | some file ↦
            (true, record s { loader = record { stored_path = relpath; fd = open_file file } })
      ]

  unfoldable pub make_room : ℕ → DynData → Bool × DynData
  make_room size d =
      if ltb d.size size
      then if O.allocates (d.size + size)
        then (true, record d { present = true; buffer = d.buffer + 1; size = d.size + size })
        else (false, record d { present = false })
      else (true, d)

  unfoldable pub load_opened : WriteOperation → Bool → State → Option Region × State
  unfolding make_room load_with_room
  load_opened w true s =
      let (enough, d) = make_room w.size s.ddata in load_with_room w enough (record s { ddata = d })
  load_opened w false s = (none, s)

  unfoldable pub load_write_data : CString → WriteOperation → State → Option Region × State
  unfolding open_source load_opened
  load_write_data relpath w s = let (opened, s') = open_source relpath s in load_opened w opened s'

-- `loadWriteData(NULL, NULL, NULL)` closes the file. With `fd == -1` it goes on to
-- `strcmp(NULL, storedpath)`.
unfoldable pub close_loader : State → Outcome
close_loader s = elim s.loader.fd [
  | no_file ↦ fault
  | _ ↦ done (record s { loader = record s.loader { fd = closed_file } })
]
