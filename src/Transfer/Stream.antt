-- ===== src/Transfer/Stream.antt =====
-- syncedfs-daemon/client.c, `transferFile`: the chunks that it sends.
use mathlib.Core.Path.{subst}
use mathlib.Core.List.{append-nil, append_assoc}
use syncedfs.Prelude.{
  ℕ, ◌+◌, ◌≤◌, ◌≡◌, refl, ◌≢◌, true, false, ◌&&◌, Option, none, some, List, [], ◌∷◌, ◌++◌, map, ltb,
  leb, length, is_empty, arith, ◌∙◌, Bool-cases, inl, inr, ◌⊎◌,
}
use syncedfs.CString.{CString}
use syncedfs.Sorting.{Sorter}
use syncedfs.Operation.{GenericOperation, WriteOperation, Body, write}
use syncedfs.Optimize.{Slot, optimize_operations}
use syncedfs.Message.{Message}
use syncedfs.Transfer.{
  pack_operation, pack_operations, close_if_last, on_done, flush, add_pending, transfer_write,
  transfer_step, transfer_loop, fresh_buffer, free_buffer, transfer_file,
}
use syncedfs.Loader.{
  Outside, open_file, closed_file, DynData, Region, Pending, State, Outcome, done, failed, fault,
  message_max, load_write_data, close_loader,
}
use syncedfs.Transfer.Buffer.{PendingIn-snoc, pack_operations-snoc}
use syncedfs.Transfer.Loading.{
  fill, with_data, FitsBody, Fits, Delivers, LoaderReady, Holds, sent_chunk, transfer_chunk-done,
  flushed, flush-done, flushed-Holds, load_write_data-Holds, last, more,
}

module _ (O : Outside) (path : CString) (file : List ℕ) (found : O.source path ≡ some file)
    (allocates : (n : ℕ) → O.allocates n ≡ true)
    (accepts : (sent : List Message) (m : Message) → O.accepts sent m ≡ true) where
  Delivers-more :
      (before : List Message) (ops rest : List GenericOperation) (o : Outcome)
      → Delivers path
          (before ++ sent_chunk O path file found allocates accepts ops false ∷ [])
          rest
          o
      → Delivers path before (ops ++ rest) o
  Delivers-more before ops rest (done s) (messages, e, stream) = (
    sent_chunk O path file found allocates accepts ops false ∷ messages,
    e
        ∙ append_assoc before (sent_chunk O path file found allocates accepts ops false ∷ [])
            messages,
    more ops rest messages refl stream,
  )
  Delivers-more before ops rest (failed s) h = h
  Delivers-more before ops rest fault h = h

  -- The rest of the loop delivers what is pending and what is left.
  abbrev Continues : List GenericOperation → Type 0
  Continues rest =
      (pending : List Pending) (s : State) (ops : List GenericOperation)
      → Holds s pending ops
      → (is_empty rest ≡ false → LoaderReady path file s)
      → (is_empty pending && is_empty rest) ≡ false
      → Delivers path s.sent (ops ++ map (with_data file) rest)
          (transfer_loop O path rest pending s)

  flush-Delivers :
      (rest : List GenericOperation)
      → Continues rest
      → (pending : List Pending) (s : State) (ops : List GenericOperation) → Holds s pending ops
      → (is_empty rest ≡ false → LoaderReady path file s)
      → Delivers path s.sent
          (ops ++ map (with_data file) rest)
          (on_done (flush O path pending (is_empty rest) s) (transfer_loop O path rest []))
  unfolding transfer_loop
  flush-Delivers [] ih pending s ops h ready =
      rw (flush-done O path file found allocates accepts s pending ops true h.packed, append-nil)
        ((sent_chunk O path file found allocates accepts ops true ∷ [], refl, last ops))
  flush-Delivers (op ∷ rest) ih pending s ops h ready =
      rw (flush-done O path file found allocates accepts s pending ops false h.packed) (
        Delivers-more s.sent ops (map (with_data file) (op ∷ rest)) _ (
          ih [] (flushed O path file found allocates accepts s ops false) []
            (flushed-Holds O path file found allocates accepts s ops false h.present) ready refl))

  is_empty-snoc : (pending : List Pending) (p : Pending) → is_empty (pending ++ p ∷ []) ≡ false
  is_empty-snoc [] p = refl
  is_empty-snoc (q ∷ pending) p = refl

  add_pending-Delivers :
      (rest : List GenericOperation)
      → Continues rest
      → (op : GenericOperation) (region : Option Region) (pending : List Pending) (s : State)
        (ops : List GenericOperation) (filled : GenericOperation)
      → Holds s (pending ++ record { operation = op; region = region } ∷ []) (ops ++ filled ∷ [])
      → (is_empty rest ≡ false → LoaderReady path file s)
      → Delivers path s.sent
          (ops ++ filled ∷ map (with_data file) rest)
          (add_pending O path (transfer_loop O path rest) op (is_empty rest) region pending s)
  unfolding add_pending
  add_pending-Delivers rest ih op region pending s ops filled h ready =
      elim (Bool-cases (leb message_max s.ddata.offset)) [
        | inl full ↦
            rw (full, ← append_assoc ops (filled ∷ []) (map (with_data file) rest))
              (flush-Delivers rest ih _ s (ops ++ filled ∷ []) h ready)
        | inr room ↦
            rw (room, ← append_assoc ops (filled ∷ []) (map (with_data file) rest))
              (ih _ s (ops ++ filled ∷ []) h ready (rw is_empty-snoc refl))
      ]

  close_if_last-done :
      (rest : List GenericOperation) (s : State)
      → s.loader.fd ≡ open_file file
      → (s' : State) × (close_if_last (is_empty rest) s ≡ done s')
        × (s'.ddata ≡ s.ddata)
        × (s'.sent ≡ s.sent)
        × (is_empty rest ≡ false → LoaderReady path file s')
  unfolding close_loader
  close_if_last-done [] s fd =
      (record s { loader = record s.loader { fd = closed_file } }, rw fd, refl, refl, λ e. cc)
  close_if_last-done (op ∷ rest) s fd = (s, refl, refl, refl, λ e k. fd)

  -- Loading, closing and adding a write, after the flush that may have come before it.
  write-Delivers :
      (rest : List GenericOperation)
      → Continues rest
      → (op : GenericOperation) (w : WriteOperation) (pending : List Pending) (s : State)
        (ops : List GenericOperation)
      → op.body ≡ write w
      → w.offset + w.size ≤ length file
      → Holds s pending ops
      → LoaderReady path file s
      → (ltb s.ddata.size w.size ≡ false) ⊎ (pending ≡ [])
      → Delivers path s.sent (ops ++ fill file op (write w) ∷ map (with_data file) rest) (
          on_done (close_if_last (is_empty rest) (load_write_data O path w s).1) (
            add_pending O path
              (transfer_loop O path rest)
              op
              (is_empty rest)
              (load_write_data O path w s).0
              pending))
  write-Delivers rest ih op w pending s ops e fits h ready room =
      let (s₁, r, loaded, h₁, fd, sent) =
        load_write_data-Holds O path file found allocates accepts op w s pending ops e fits h ready
          room in
      let (s₂, closed, ddata, sent₂, ready₂) = close_if_last-done rest s₁ fd in
      let h₂ : Holds s₂ (pending ++ record { operation = op; region = some r } ∷ [])
          (ops ++ fill file op (write w) ∷ []) =
        record {
          present = rw ddata h₁.present;
          filled = rw ddata h₁.filled;
          inside = rw ddata h₁.inside;
          packed = rw ddata h₁.packed;
        } in
      rw (loaded, closed)
        (subst
          (λ before.
            Delivers path before (ops ++ fill file op (write w) ∷ map (with_data file) rest) (
              add_pending O path (transfer_loop O path rest) op (is_empty rest) (some r) pending
                s₂))
          (sent₂ ∙ sent) (add_pending-Delivers rest ih op (some r) pending s₂ ops _ h₂ ready₂))

  transfer_write-Delivers :
      (rest : List GenericOperation)
      → Continues rest
      → (op : GenericOperation) (w : WriteOperation) (pending : List Pending) (s : State)
        (ops : List GenericOperation)
      → op.body ≡ write w
      → w.offset + w.size ≤ length file
      → Holds s pending ops
      → LoaderReady path file s
      → Delivers path s.sent
          (ops ++ fill file op (write w) ∷ map (with_data file) rest)
          (transfer_write O path (transfer_loop O path rest) op (is_empty rest) w pending s)
  unfolding transfer_write
  transfer_write-Delivers rest ih op w pending s ops e fits h ready =
      elim (Bool-cases (ltb s.ddata.size (w.size + s.ddata.offset))) [
        | inl full ↦
            rw (full, flush-done O path file found allocates accepts s pending ops false h.packed)
              (Delivers-more s.sent ops (fill file op (write w) ∷ map (with_data file) rest) _ (
                write-Delivers rest ih op w []
                  (flushed O path file found allocates accepts s ops false) [] e fits
                  (flushed-Holds O path file found allocates accepts s ops false h.present) ready
                  (inr refl)))
        | inr room ↦
            rw room (write-Delivers rest ih op w pending s ops e fits h ready (inl (ground arith)))
      ]

  pack_operation-unloaded :
      (d : DynData) (op : GenericOperation) (b : Body) → pack_operation d op b none ≡ some op
  unfolding pack_operation
  pack_operation-unloaded d op (write w) = refl
  pack_operation-unloaded d op _ = refl

  unloaded-Holds :
      (op : GenericOperation) (s : State) (pending : List Pending) (ops : List GenericOperation)
      → Holds s pending ops
      → Holds s (pending ++ record { operation = op; region = none } ∷ []) (ops ++ op ∷ [])
  unloaded-Holds op s pending ops h = record {
    present = h.present;
    filled = h.filled;
    inside = PendingIn-snoc s.ddata pending _ h.inside tt;
    packed =
        pack_operations-snoc s.ddata pending _ ops op h.packed
          (pack_operation-unloaded s.ddata op op.body);
  }

  transfer_step-Delivers :
      (rest : List GenericOperation)
      → Continues rest
      → (op : GenericOperation) (b : Body) (pending : List Pending) (s : State)
        (ops : List GenericOperation)
      → op.body ≡ b
      → FitsBody file b
      → Holds s pending ops
      → LoaderReady path file s
      → Delivers path s.sent
          (ops ++ fill file op b ∷ map (with_data file) rest)
          (transfer_step O path (transfer_loop O path rest) op (is_empty rest) b pending s)
  unfolding transfer_step
  transfer_step-Delivers rest ih op (write w) pending s ops e fits h ready =
      transfer_write-Delivers rest ih op w pending s ops e fits h ready
  transfer_step-Delivers rest ih op b pending s ops e fits h ready =
      add_pending-Delivers rest ih op none pending s ops op (unloaded-Holds op s pending ops h)
        (λ _. ready)

  transfer_loop-Delivers : (ops : List GenericOperation) → Fits file ops → Continues ops
  unfolding transfer_loop
  transfer_loop-Delivers [] fits [] s packed_ops h ready some_left = cc
  transfer_loop-Delivers [] fits (p ∷ pending) s packed_ops h ready some_left =
      rw
        (
          transfer_chunk-done O path file found allocates accepts s (p ∷ pending) packed_ops true
              h.packed,
          append-nil,
        )
        ((
          sent_chunk O path file found allocates accepts packed_ops true ∷ [],
          refl,
          last packed_ops,
        ))
  transfer_loop-Delivers (op ∷ rest) fits pending s packed_ops h ready some_left =
      transfer_step-Delivers rest (transfer_loop-Delivers rest fits.1) op op.body pending s
        packed_ops refl fits.0 h (ready refl)

  Delivers-free :
      (before : List Message) (ops : List GenericOperation) (o : Outcome)
      → Delivers path before ops o
      → Delivers path before ops (on_done o (λ s. done (free_buffer s)))
  Delivers-free before ops (done s) h = h
  Delivers-free before ops (failed s) h = h
  Delivers-free before ops fault h = h

  -- If the file is in the snapshot, holds the bytes of every optimised write, some operation is
  -- left and no call fails, the transfer of a file returns 0 and has sent a stream of chunks that
  -- carries the optimised operations in order, every write with the bytes of the snapshot, the
  -- last chunk alone marked as the last.
  pub transfer_file-Delivers :
      (S : Sorter Slot) (ops : List GenericOperation) (s : State)
      → LoaderReady path file s
      → Fits file (optimize_operations S ops)
      → optimize_operations S ops ≢ []
      → Delivers path s.sent
          (map (with_data file) (optimize_operations S ops))
          (transfer_file O path S ops s)
  unfolding transfer_file
  transfer_file-Delivers S ops s ready fits kept = rw (allocates message_max) (
      Delivers-free s.sent _ _ (
        transfer_loop-Delivers (optimize_operations S ops) fits [] (fresh_buffer s) []
          (unfold pack_operations in
            record { present = refl; filled = omega arith; inside = tt; packed = refl })
          (λ _. ready) (left (optimize_operations S ops) kept)))
    where
      left : (xs : List GenericOperation) → xs ≢ [] → (true && is_empty xs) ≡ false
      left [] h = absurd (h refl)
      left (x ∷ xs) h = refl
