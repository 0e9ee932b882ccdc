-- ===== src/Message.antt =====
-- The messages of syncedfs-common/protobuf/syncedfs.pb-c.h that the client and the server exchange.
use syncedfs.Prelude.{ℕ, Bool, Option, List}
use syncedfs.CString.{CString}
use syncedfs.Operation.{GenericOperation}

pub record SyncInit : Type 0 where
  pub sync_id : CString
  pub resource : CString
  pub number_files : ℕ

pub record SyncInitResponse : Type 0 where
  -- `continue_`
  pub proceed : Bool
  -- `has_already_synced` and `already_synced`
  pub already_synced : Option Bool
  pub error_message : Option CString

pub record FileChunk : Type 0 where
  pub relative_path : CString
  pub ops : List GenericOperation
  pub last_chunk : Bool

pub data Message : Type 0 where
  init : SyncInit → Message
  response : SyncInitResponse → Message
  -- transferred_bytes
  finish : ℕ → Message
  chunk : FileChunk → Message
