-- ===== src/Wire.antt =====
-- syncedfs-common/message_functions.c: the bytes that `packMessage` makes of a message, and
-- `recvMessage`, which reads them from a connection. The functions that pack and unpack are generated
-- by protobuf-c and are a parameter.
pub mod RoundTrip
use syncedfs.Prelude.{
  ℕ, ◌+◌, ◌*◌, ◌/◌, ◌%◌, ◌^◌, ◌≡◌, Bool, true, false, Option, none, some, List, [], ◌∷◌, ◌++◌, ◌==◌,
  if◌then◌else◌, length, take, drop, ltb,
}
use syncedfs.Message.{Message, init, response, finish, chunk}

-- `enum messagetype`
pub data MessageType : Type 0 where
  sync_init_type : MessageType
  sync_init_response_type : MessageType
  sync_finish_type : MessageType
  file_chunk_type : MessageType
  file_operation_type : MessageType

-- Packing, and unpacking as a message of the same type. `unpack` is `none` where it returns NULL.
pub record Codec (A : Type 0) : Type 0 where
  pub pack : A → List ℕ
  pub unpack : List ℕ → Option A

abbrev pub type_of : Message → MessageType
type_of (init m) = sync_init_type
type_of (response m) = sync_init_response_type
type_of (finish n) = sync_finish_type
type_of (chunk c) = file_chunk_type

abbrev pub same_type : MessageType → MessageType → Bool
same_type sync_init_type sync_init_type = true
same_type sync_init_response_type sync_init_response_type = true
same_type sync_finish_type sync_finish_type = true
same_type file_chunk_type file_chunk_type = true
same_type file_operation_type file_operation_type = true
same_type _ _ = false

-- What protobuf-c does for the messages of a connection: `sync_init__unpack` and the others, by the
-- type that is awaited.
pub record Codecs : Type 0 where
  pub pack : Message → List ℕ
  pub unpack : MessageType → List ℕ → Option Message

-- The bytes of `htonl(n)` in memory
unfoldable pub htonl_bytes : ℕ → List ℕ
htonl_bytes n = n / 2 ^ 24 % 256 ∷ n / 2 ^ 16 % 256 ∷ n / 2 ^ 8 % 256 ∷ n % 256 ∷ []

-- `ntohl` of the four bytes
abbrev pub ntohl : ℕ → ℕ → ℕ → ℕ → ℕ
ntohl a b c d = a * 2 ^ 24 + b * 2 ^ 16 + c * 2 ^ 8 + d

-- What `packMessage` leaves in its buffer, for a message that is packed into these bytes.
unfoldable pub frame : List ℕ → List ℕ
unfolding htonl_bytes
frame packed = htonl_bytes (length packed % 2 ^ 32) ++ packed

-- The first four bytes as a length, and the bytes behind them; `none` where fewer are left.
unfoldable pub read_length : List ℕ → Option (ℕ × List ℕ)
read_length (a ∷ b ∷ c ∷ d ∷ bytes) = some (ntohl a b c d, bytes)
read_length _ = none

-- `recvMessage` and what is left of the bytes that the peer sends; `*bytesread` counts on.
pub record Arrival : Type 0 where
  pub message : Option Message
  pub left : List ℕ
  pub bytesread : ℕ

abbrev pub nothing_read : List ℕ → ℕ → Arrival
nothing_read bytes bytesread = record { message = none; left = bytes; bytesread = bytesread }

module _ (C : Codecs) (allocates : ℕ → Bool) where
  -- The type FileOperationType returns before the count.
  unfoldable pub unpack_counted : MessageType → ℕ → List ℕ → List ℕ → ℕ → Arrival
  unpack_counted file_operation_type msglen body left bytesread = nothing_read left bytesread
  unpack_counted t msglen body left bytesread = record {
    message = C.unpack t body;
    left = left;
    bytesread = bytesread + msglen + 4;
  }

  -- `recv` with MSG_WAITALL takes fewer bytes only where the connection ends.
  unfoldable pub recv_body : MessageType → ℕ → List ℕ → ℕ → Arrival
  unfolding unpack_counted
  recv_body t msglen bytes bytesread =
      if allocates msglen
      then if ltb (length bytes) msglen
        then nothing_read [] bytesread
        else unpack_counted t msglen (take msglen bytes) (drop msglen bytes) bytesread
      else nothing_read bytes bytesread

  unfoldable pub recv_message_from : MessageType → Option (ℕ × List ℕ) → ℕ → Arrival
  unfolding recv_body
  recv_message_from t none bytesread = nothing_read [] bytesread
  recv_message_from t (some (msglen, bytes)) bytesread = recv_body t msglen bytes bytesread

  -- `recvMessage`
  unfoldable pub recv_message : MessageType → List ℕ → ℕ → Arrival
  unfolding recv_message_from read_length
  recv_message t bytes bytesread = recv_message_from t (read_length bytes) bytesread
