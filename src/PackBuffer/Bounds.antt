-- ===== src/PackBuffer/Bounds.antt =====
-- syncedfs-common/message_functions.c, `packMessage`: writes and the size of the buffer.
use syncedfs.Prelude.{ℕ, ◌+◌, ◌≤◌, ◌<◌, ◌≡◌, Bool, false, Option, none, some, arith}
use syncedfs.PackBuffer.{
  State, Packed, packed, failed, fault, header_size, write_packed, pack_message,
}

-- A buffer of so many bytes, as the code takes it, is there.
abbrev pub Holds : ℕ → Option ℕ → Type 0
Holds totallen none = totallen ≡ 0
Holds totallen (some size) = totallen ≤ size

-- What is left is a buffer of `totallen` bytes, and there was no write outside it.
abbrev pub IsSafe : Packed → Type 0
IsSafe (packed length s) = Holds s.totallen s.buffer
IsSafe (failed s) = Holds s.totallen s.buffer
IsSafe fault = ⊥

module _ (allocates : ℕ → Bool) where
  -- Behind a message whose buffer could not be allocated, a message that fits into the size that is
  -- kept is written through NULL.
  pub pack_message-fault :
      (msglen msglen' : ℕ) (packs packs' : Bool) (s s' : State)
      → pack_message allocates msglen packs s ≡ failed s'
      → s.totallen < msglen + header_size
      → allocates (msglen + header_size) ≡ false
      → msglen' + header_size ≤ s.totallen
      → pack_message allocates msglen' packs' s' ≡ fault
  unfolding pack_message write_packed
  pack_message-fault msglen msglen' packs packs' s s' e longer fails shorter = ground arith
