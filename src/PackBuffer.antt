-- ===== src/PackBuffer.antt =====
-- syncedfs-common/message_functions.c, `packMessage`: the buffer that it keeps across calls. What a
-- message is packed into is its length and its bytes; here only the length counts.
pub mod Bounds
use syncedfs.Prelude.{
  ℕ, ◌+◌, ◌≤◌, ◌<◌, ◌≡◌, refl, ◌%◌, ◌^◌, Bool, true, false, not, Option, none, some, List, [], ◌∷◌,
  ltb, leb, ◌==◌, if◌then◌else◌, All, arith,
}

-- `totallen`, and the size of what `bufbegin` points to, `none` for NULL.
pub record State : Type 0 where
  pub totallen : ℕ
  pub buffer : Option ℕ

-- The length that is handed out, return -1, or a write through NULL or behind the buffer.
pub data Packed : Type 0 where
  packed : ℕ → State → Packed
  failed : State → Packed
  fault : Packed

abbrev pub header_size : ℕ
header_size = 4

abbrev pub uint32 : ℕ → ℕ
uint32 n = n % 2 ^ 32

-- The length and the message are written; `packs` is whether the packing function returns `msglen`.
unfoldable pub write_packed : ℕ → Bool → ℕ → Option ℕ → Packed
write_packed msglen packs totallen none = fault
write_packed msglen packs totallen (some size) =
    if ltb size (msglen + header_size)
    then fault
    else if packs
    then packed totallen (record { totallen = totallen; buffer = some size })
    else failed (record { totallen = totallen; buffer = some size })

module _ (allocates : ℕ → Bool) where
  -- `packMessage`, for a message of this packed size
  unfoldable pub pack_message : ℕ → Bool → State → Packed
  unfolding write_packed
  pack_message msglen packs s =
      let total = msglen + header_size in
      if ltb s.totallen total
      then if allocates total
        then write_packed msglen packs (uint32 total) (some total)
        else failed (record s { buffer = none })
      else write_packed msglen packs (uint32 total) s.buffer
