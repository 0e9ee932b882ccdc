-- ===== src/Transfer/Loading.antt =====
-- syncedfs-daemon/client.c, `loadWriteData` and `transferChunk`: the data of pending writes.
use mathlib.Core.Path.{subst}
use syncedfs.Prelude.{
  ℕ, ◌+◌, ◌≤◌, ◌≡◌, refl, Bool, true, false, some, List, [], ◌∷◌, ◌++◌, ltb, length, take, drop,
  All, arith, ap, sym, ◌∙◌, Bool-cases, inl, inr, ◌⊎◌, length-append, ==_iff,
}
use syncedfs.CString.{CString, eqb, eqb_iff}
use syncedfs.Operation.{GenericOperation, WriteOperation, Body, write}
use syncedfs.Message.{Message, chunk}
use syncedfs.Transfer.{pack_operation, pack_operations, transfer_chunk, reset_offset, flush}
use syncedfs.Loader.{
  Outside, open_file, DynData, Region, Pending, State, Outcome, done, failed, fault, open_source,
  make_room, store_read, load_write_data,
}
use syncedfs.Transfer.Buffer.{
  PendingIn, PendingIn-extend, PendingIn-snoc, pack_operations-extend, pack_operations-snoc, extend,
  read_last, length-take_le, length-drop,
}

-- The messages for a file with these operations.
pub data IsStream (path : CString) : List GenericOperation → List Message → Type 0 where
  last :
      (ops : List GenericOperation)
      → IsStream path ops
          (chunk (record { relative_path = path; ops = ops; last_chunk = true }) ∷ [])
  more :
      {all : List GenericOperation} (ops rest : List GenericOperation) (messages : List Message)
      → all ≡ ops ++ rest
      → IsStream path rest messages
      → IsStream path all
          (chunk (record { relative_path = path; ops = ops; last_chunk = false }) ∷ messages)

-- An operation with the data that the snapshot's file holds for it.
abbrev pub fill : List ℕ → GenericOperation → Body → GenericOperation
fill file op (write w) = record op {
  body = write (record w { payload = some (take w.size (drop w.offset file)) });
}
fill file op _ = op

abbrev pub with_data : List ℕ → GenericOperation → GenericOperation
with_data file op = fill file op op.body

-- The writes lie within the file.
abbrev pub FitsBody : List ℕ → Body → Type 0
FitsBody file (write w) = w.offset + w.size ≤ length file
FitsBody file _ = Unit

abbrev pub Fits : List ℕ → List GenericOperation → Type 0
Fits file ops = All (λ op. FitsBody file op.body) ops

-- The transfer returns 0, and has sent these operations behind `before`.
abbrev pub Delivers : CString → List Message → List GenericOperation → Outcome → Type 0
Delivers path before ops (done s) =
    (messages : List Message) × (s.sent ≡ before ++ messages) × IsStream path ops messages
Delivers path before ops (failed s) = ⊥
Delivers path before ops fault = ⊥

-- The file can be read: it is open, or it will be opened.
abbrev pub LoaderReady : CString → List ℕ → State → Type 0
LoaderReady path file s = eqb path s.loader.stored_path ≡ true → s.loader.fd ≡ open_file file

-- The pending operations can be packed, with the data `ops`.
pub record Holds (s : State) (pending : List Pending) (ops : List GenericOperation) : Type 0 where
  pub present : s.ddata.present ≡ true
  pub filled : s.ddata.offset ≤ length s.ddata.bytes
  pub inside : PendingIn s.ddata pending
  pub packed : pack_operations s.ddata pending ≡ some ops

module _ (O : Outside) (path : CString) (file : List ℕ) (found : O.source path ≡ some file)
    (allocates : (n : ℕ) → O.allocates n ≡ true)
    (accepts : (sent : List Message) (m : Message) → O.accepts sent m ≡ true) where
  abbrev pub sent_chunk : List GenericOperation → Bool → Message
  sent_chunk ops final = chunk (record { relative_path = path; ops = ops; last_chunk = final })

  pub transfer_chunk-done :
      (s : State) (pending : List Pending) (ops : List GenericOperation) (final : Bool)
      → pack_operations s.ddata pending ≡ some ops
      → transfer_chunk O path pending final s
        ≡ done (record s { sent = s.sent ++ sent_chunk ops final ∷ [] })
  unfolding transfer_chunk
  transfer_chunk-done s pending ops final h = rw (h, accepts s.sent (sent_chunk ops final))

  abbrev pub flushed : State → List GenericOperation → Bool → State
  flushed s ops final = reset_offset (record s { sent = s.sent ++ sent_chunk ops final ∷ [] })

  pub flush-done :
      (s : State) (pending : List Pending) (ops : List GenericOperation) (final : Bool)
      → pack_operations s.ddata pending ≡ some ops
      → flush O path pending final s ≡ done (flushed s ops final)
  unfolding flush
  flush-done s pending ops final h = rw (transfer_chunk-done s pending ops final h)

  pub flushed-Holds :
      (s : State) (ops : List GenericOperation) (final : Bool)
      → s.ddata.present ≡ true
      → Holds (flushed s ops final) [] []
  unfolding pack_operations
  flushed-Holds s ops final h = record {
    present = h;
    filled = omega arith;
    inside = tt;
    packed = refl;
  }

  -- What loading the data of a write does to a state from which the file can be read.
  abbrev data_of : WriteOperation → List ℕ
  data_of w = take w.size (drop w.offset file)

  abbrev pub opened : State → State
  opened s = record s { loader = record { stored_path = path; fd = open_file file } }

  open_source-opened :
      (s : State)
      → LoaderReady path file s
      → (s' : State) × (open_source O path s ≡ (true, s'))
        × (s'.loader.fd ≡ open_file file)
        × (s'.loader.stored_path ≡ path)
        × (s'.ddata ≡ s.ddata)
        × (s'.sent ≡ s.sent)
  unfolding open_source
  open_source-opened s ready = elim (Bool-cases (eqb path s.loader.stored_path)) [
    | inl e ↦ (s, rw e, ready e, sym ((eqb_iff path s.loader.stored_path).0 e), refl, refl)
    | inr e ↦ (opened s, rw (e, found), refl, refl, refl, refl)
  ]

  make_room-Holds :
      (w : WriteOperation) (s : State) (pending : List Pending) (ops : List GenericOperation)
      → Holds s pending ops
      → (ltb s.ddata.size w.size ≡ false) ⊎ (pending ≡ [])
      → (d : DynData) × (make_room O w.size s.ddata ≡ (true, d))
        × Holds (record s { ddata = d }) pending ops
  unfolding make_room pack_operations
  make_room-Holds w s pending ops h (inl small) = (s.ddata, rw small, h)
  make_room-Holds w s pending ops h (inr none_pending) =
      elim (Bool-cases (ltb s.ddata.size w.size)) [
        | inr small ↦ (s.ddata, rw small, h)
        | inl large ↦ (
          record s.ddata {
            present = true;
            buffer = s.ddata.buffer + 1;
            size = s.ddata.size + w.size;
          },
          rw (large, allocates (s.ddata.size + w.size)),
          rw none_pending (record {
            present = refl;
            filled = h.filled;
            inside = tt;
            packed = subst (λ q. pack_operations s.ddata q ≡ some ops) none_pending h.packed;
          }),
        )
      ]

  length-data_of :
      (w : WriteOperation) → w.offset + w.size ≤ length file → length (data_of w) ≡ w.size
  length-data_of w fits =
      length-take_le w.size (drop w.offset file) (omega (arith, length-drop w.offset file))

  abbrev pub stored : WriteOperation → State → State
  stored w s = record s { ddata = extend s.ddata (data_of w) w.size }

  abbrev region_of : WriteOperation → State → Region
  region_of w s = record { buffer = s.ddata.buffer; start = s.ddata.offset; size = w.size }

  store_read-stored :
      (w : WriteOperation) (s : State)
      → w.offset + w.size ≤ length file
      → s.ddata.present ≡ true
      → store_read w (some (data_of w)) s ≡ (some (region_of w s), stored w s)
  unfolding store_read
  store_read-stored w s fits present = rw (present, length-data_of w fits) (ground arith)

  stored-Holds :
      (op : GenericOperation) (w : WriteOperation) (s : State) (pending : List Pending)
      (ops : List GenericOperation)
      → op.body ≡ write w
      → w.offset + w.size ≤ length file
      → Holds s pending ops
      → Holds
          (stored w s)
          (pending ++ record { operation = op; region = some (region_of w s) } ∷ [])
          (ops ++ fill file op (write w) ∷ [])
  unfolding pack_operation
  stored-Holds op w s pending ops e fits h = record {
    present = h.present;
    filled = omega (
      arith,
      length-append (take s.ddata.offset s.ddata.bytes) (data_of w),
      length-data_of w fits,
      length-take_le s.ddata.offset s.ddata.bytes h.filled,
    );
    inside =
        PendingIn-snoc (stored w s).ddata pending _
          (PendingIn-extend s.ddata (data_of w) w.size pending h.inside) (refl, omega arith);
    packed =
        pack_operations-snoc (stored w s).ddata pending _ ops _
          (pack_operations-extend s.ddata (data_of w) w.size pending h.filled h.inside ∙ h.packed)
          (rw (e, (==_iff s.ddata.buffer s.ddata.buffer).1 refl)
            (ap (λ got. some (record op { body = write (record w { payload = some got }) }))
              (subst
                (λ n.
                  take n (drop s.ddata.offset (take s.ddata.offset s.ddata.bytes ++ data_of w))
                  ≡ data_of w)
                (length-data_of w fits)
                (read_last s.ddata.offset s.ddata.bytes (data_of w) h.filled))));
  }

  pub load_write_data-Holds :
      (op : GenericOperation) (w : WriteOperation) (s : State) (pending : List Pending)
      (ops : List GenericOperation)
      → op.body ≡ write w
      → w.offset + w.size ≤ length file
      → Holds s pending ops
      → LoaderReady path file s
      → (ltb s.ddata.size w.size ≡ false) ⊎ (pending ≡ [])
      → (s' : State) × (r : Region) × (load_write_data O path w s ≡ (some r, s'))
        × Holds s'
            (pending ++ record { operation = op; region = some r } ∷ [])
            (ops ++ fill file op (write w) ∷ [])
        × (s'.loader.fd ≡ open_file file)
        × (s'.sent ≡ s.sent)
  unfolding load_write_data
  load_write_data-Holds op w s pending ops e fits h ready room =
      let (s₁, o, fd, stored_path, same, sent) = open_source-opened s ready in
      let h₁ : Holds s₁ pending ops = record {
        present = rw same h.present;
        filled = rw same h.filled;
        inside = rw same h.inside;
        packed = rw same h.packed;
      } in
      let (d, m, h₂) = make_room-Holds w s₁ pending ops h₁ (rw same room) in
      let s₂ : State = record s₁ { ddata = d } in
      (
        stored w s₂,
        region_of w s₂,
        rw (o, m, fd) (store_read-stored w s₂ fits h₂.present),
        stored-Holds op w s₂ pending ops e fits h₂,
        fd,
        sent,
      )
