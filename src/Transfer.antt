-- ===== src/Transfer.antt =====
-- syncedfs-daemon/client.c: `transferFile` and `transferChunk`. The bytes of a write are read from
-- the buffer of Loader when a chunk is packed.
pub mod Buffer
pub mod Loading
pub mod Stream
pub mod SourcePath
use syncedfs.Prelude.{
  ℕ, ◌+◌, Bool, true, false, ◌&&◌, not, Option, none, some, List, [], ◌∷◌, ◌++◌, ltb, leb, ◌==◌,
  if◌then◌else◌, length, take, drop, is_empty,
}
use syncedfs.CString.{CString, eqb}
use syncedfs.Sorting.{Sorter}
use syncedfs.Optimize.{Slot, optimize_operations}
use syncedfs.Operation.{GenericOperation, WriteOperation, Body, write}
use syncedfs.Message.{FileChunk, Message, chunk}
use syncedfs.Loader.{
  message_max, Outside, Descriptor, no_file, open_file, closed_file, Loader, DynData, Region,
  Pending, State, Outcome, done, failed, fault, pread, store_read, load_with_room, open_source,
  make_room, load_opened, load_write_data, close_loader,
}

-- What packing a chunk reads through the pointers of its operations.
unfoldable pub pack_operation :
    DynData → GenericOperation → Body → Option Region → Option GenericOperation
pack_operation d op (write w) (some r) =
    if r.buffer == d.buffer
    then some (record op {
      body = write (record w { payload = some (take r.size (drop r.start d.bytes)) });
    })
    else none
pack_operation d op b _ = some op

abbrev pub cons_packed :
    Option GenericOperation → Option (List GenericOperation) → Option (List GenericOperation)
cons_packed (some op) (some ops) = some (op ∷ ops)
cons_packed _ _ = none

unfoldable pub pack_operations : DynData → List Pending → Option (List GenericOperation)
unfolding pack_operation
pack_operations d [] = some []
pack_operations d (p ∷ pending) =
    cons_packed (pack_operation d p.operation p.operation.body p.region) (pack_operations d pending)

abbrev pub reset_offset : State → State
reset_offset s = record s { ddata = record s.ddata { offset = 0 } }

abbrev pub on_done : Outcome → (State → Outcome) → Outcome
on_done (done s) k = k s
on_done (failed s) k = failed s
on_done fault k = fault

abbrev pub close_if_last : Bool → State → Outcome
close_if_last true s = close_loader s
close_if_last false s = done s

abbrev pub fresh_buffer : State → State
fresh_buffer s = record s {
  ddata = record {
    present = true;
    buffer = s.ddata.buffer + 1;
    bytes = [];
    offset = 0;
    size = message_max;
  };
}

abbrev pub free_buffer : State → State
free_buffer s = record s { ddata = record s.ddata { present = false } }

-- The loop over the operations. `pending` holds the `nops` operations from `opstart` on; `flush`
-- sends them and resets the counters.
module _ (O : Outside) (relpath : CString) where
  unfoldable pub send_chunk : List GenericOperation → Bool → State → Outcome
  send_chunk ops last s =
      let m = chunk (record { relative_path = relpath; ops = ops; last_chunk = last }) in
      if O.accepts s.sent m then done (record s { sent = s.sent ++ (m ∷ []) }) else failed s

  unfoldable pub send_packed : Option (List GenericOperation) → Bool → State → Outcome
  unfolding send_chunk
  send_packed none last s = fault
  send_packed (some ops) last s = send_chunk ops last s

  unfoldable pub transfer_chunk : List Pending → Bool → State → Outcome
  unfolding send_packed pack_operations
  transfer_chunk pending last s = send_packed (pack_operations s.ddata pending) last s

  unfoldable pub flush : List Pending → Bool → State → Outcome
  unfolding transfer_chunk
  flush pending last s = on_done (transfer_chunk pending last s) (λ s'. done (reset_offset s'))

  -- `prevent buffer overflow`: the operations that stay pending, and the state
  unfoldable pub flush_if_full : WriteOperation → List Pending → State → List Pending × Outcome
  unfolding flush
  flush_if_full w pending s =
      if ltb s.ddata.size (w.size + s.ddata.offset)
      then ([], flush pending false s)
      else (pending, done s)

  -- `nops++`, and the flush of a buffer that is full
  unfoldable pub add_pending :
      (List Pending → State → Outcome)
      → GenericOperation
      → Bool
      → Option Region
      → List Pending
      → State
      → Outcome
  unfolding flush
  add_pending continue op is_last region pending s =
      let more = pending ++ record { operation = op; region = region } ∷ [] in
      if leb message_max s.ddata.offset
      then on_done (flush more is_last s) (continue [])
      else continue more s

  unfoldable pub transfer_write :
      (List Pending → State → Outcome)
      → GenericOperation
      → Bool
      → WriteOperation
      → List Pending
      → State
      → Outcome
  unfolding flush_if_full close_loader load_write_data add_pending
  transfer_write continue op is_last w pending s =
      let (waiting, flushed) = flush_if_full w pending s in
      on_done flushed λ s₁.
        let (region, s₂) = load_write_data O relpath w s₁ in
        on_done (close_if_last is_last s₂) (add_pending continue op is_last region waiting)

  unfoldable pub transfer_step :
      (List Pending → State → Outcome)
      → GenericOperation
      → Bool
      → Body
      → List Pending
      → State
      → Outcome
  unfolding transfer_write add_pending
  transfer_step continue op is_last (write w) pending s =
      transfer_write continue op is_last w pending s
  transfer_step continue op is_last _ pending s = add_pending continue op is_last none pending s

  -- The loop, and the chunk behind it "if there is still some data left".
  unfoldable pub transfer_loop : List GenericOperation → List Pending → State → Outcome
  unfolding transfer_chunk transfer_step
  transfer_loop [] pending s = if is_empty pending then done s else transfer_chunk pending true s
  transfer_loop (op ∷ rest) pending s =
      transfer_step (transfer_loop rest) op (is_empty rest) op.body pending s

  -- `transferFile`, of a file with these operations
  unfoldable pub transfer_file : Sorter Slot → List GenericOperation → State → Outcome
  unfolding transfer_loop
  transfer_file S ops s =
      if O.allocates message_max
      then on_done (transfer_loop (optimize_operations S ops) [] (fresh_buffer s))
          (λ s'. done (free_buffer s'))
      else failed s
