-- ===== src/Transfer/SourcePath.antt =====
-- syncedfs-daemon/client.c, `loadWriteData`: the path that it stores across the files, and transfers
-- that read no file.
use mathlib.Core.Path.{fun_ext}
use syncedfs.Prelude.{
  ℕ, ◌≡◌, refl, ◌∙◌, ap, Bool, true, false, Option, none, some, List, [], ◌∷◌, ◌++◌, ◌⊎◌, inl, inr,
  ltb, leb, is_empty, All, Bool-cases, Option-cases, All-map, ◌+◌, ◌==◌, ◌&&◌, length,
}
use syncedfs.CString.{CString, eqb}
use syncedfs.Sorting.{Sorter}
use syncedfs.Operation.{GenericOperation, WriteOperation, Body, write}
use syncedfs.Message.{chunk}
use syncedfs.Optimize.{Slot, optimize_operations}
use syncedfs.Transfer.{
  on_done, close_if_last, send_chunk, send_packed, pack_operations, transfer_chunk, flush,
  flush_if_full, add_pending, transfer_write, transfer_step, transfer_loop, fresh_buffer,
  transfer_file,
}
use syncedfs.Loader.{
  Outside, State, Loader, DynData, Descriptor, no_file, open_file, closed_file, pread, Pending,
  Region, Outcome, done, failed, fault, message_max, open_source, make_room, store_read,
  load_with_room, load_opened, load_write_data, close_loader,
}
use syncedfs.Transfer.Loading.{FitsBody, Fits}

-- The stored path is the one of before, or this one.
abbrev pub Stores : CString → CString → Outcome → Type 0
Stores path old (done s) = (s.loader.stored_path ≡ old) ⊎ (s.loader.stored_path ≡ path)
Stores path old (failed s) = Unit
Stores path old fault = Unit

Stores-trans :
    (path old mid : CString) (o : Outcome)
    → (mid ≡ old) ⊎ (mid ≡ path)
    → Stores path mid o
    → Stores path old o
Stores-trans path old mid (done t) (inl e) (inl d) = inl (d ∙ e)
Stores-trans path old mid (done t) (inr e) (inl d) = inr (d ∙ e)
Stores-trans path old mid (done t) h (inr d) = inr d
Stores-trans path old mid (failed t) h d = tt
Stores-trans path old mid fault h d = tt

on_done-Stores :
    (path old : CString) (o : Outcome) (k : State → Outcome)
    → Stores path old o
    → ((s : State) → Stores path s.loader.stored_path (k s))
    → Stores path old (on_done o k)
on_done-Stores path old (done s) k h g = Stores-trans path old s.loader.stored_path (k s) h (g s)
on_done-Stores path old (failed s) k h g = tt
on_done-Stores path old fault k h g = tt

module _ (O : Outside) (path : CString) where
  send_packed-Stores :
      (o : Option (List GenericOperation)) (last : Bool) (s : State)
      → Stores path s.loader.stored_path (send_packed O path o last s)
  unfolding send_packed send_chunk
  send_packed-Stores none last s = tt
  send_packed-Stores (some ops) last s =
      elim (Bool-cases (
        O.accepts s.sent (chunk (record { relative_path = path; ops = ops; last_chunk = last })))) [
          | inl y ↦ rw y (inl refl)
          | inr n ↦ rw n tt
        ]

  transfer_chunk-Stores :
      (pending : List Pending) (last : Bool) (s : State)
      → Stores path s.loader.stored_path (transfer_chunk O path pending last s)
  unfolding transfer_chunk
  transfer_chunk-Stores pending last s = send_packed-Stores (pack_operations s.ddata pending) last s

  flush-Stores :
      (pending : List Pending) (last : Bool) (s : State)
      → Stores path s.loader.stored_path (flush O path pending last s)
  unfolding flush
  flush-Stores pending last s =
      on_done-Stores path s.loader.stored_path (transfer_chunk O path pending last s) _
        (transfer_chunk-Stores pending last s) (λ t. inl refl)

  store_read-loader :
      (w : WriteOperation) (o : Option (List ℕ)) (s : State)
      → (store_read w o s).1.loader ≡ s.loader
  unfolding store_read
  store_read-loader w none s = refl
  store_read-loader w (some got) s = elim (Bool-cases (s.ddata.present && length got == w.size)) [
    | inl y ↦ rw y refl
    | inr n ↦ rw n refl
  ]

  load_opened-loader :
      (w : WriteOperation) (b : Bool) (s : State) → (load_opened O w b s).1.loader ≡ s.loader
  unfolding load_opened load_with_room
  load_opened-loader w false s = refl
  load_opened-loader w true s = room (make_room O w.size s.ddata).0 (make_room O w.size s.ddata).1
    where
      room :
          (b : Bool) (d : DynData)
          → (load_with_room w b (record s { ddata = d })).1.loader ≡ s.loader
      room true d = store_read-loader w (pread s.loader.fd w.size w.offset) (record s { ddata = d })
      room false d = refl

  open_source-stored :
      (s : State)
      → ((open_source O path s).1.loader.stored_path ≡ s.loader.stored_path)
        ⊎ ((open_source O path s).1.loader.stored_path ≡ path)
  unfolding open_source
  open_source-stored s = elim (Bool-cases (eqb path s.loader.stored_path)) [
    | inl y ↦ inl (rw y refl)
    | inr n ↦ elim (Option-cases (O.source path)) [
      | inl e ↦ inr (rw (n, e) refl)
      | inr (file, e) ↦ inr (rw (n, e) refl)
    ]
  ]

  load_write_data-stored :
      (w : WriteOperation) (s : State)
      → ((load_write_data O path w s).1.loader.stored_path ≡ s.loader.stored_path)
        ⊎ ((load_write_data O path w s).1.loader.stored_path ≡ path)
  unfolding load_write_data
  load_write_data-stored w s =
      let (b, t) = open_source O path s in
      let e = ap (λ (l : Loader). l.stored_path) (load_opened-loader w b t) in
      elim (open_source-stored s) [ inl h ↦ inl (e ∙ h) | inr h ↦ inr (e ∙ h) ]

  close_if_last-Stores :
      (b : Bool) (s : State) → Stores path s.loader.stored_path (close_if_last b s)
  unfolding close_loader
  close_if_last-Stores false s = inl refl
  close_if_last-Stores true s = closed s.loader.fd
    where
      closed :
          (fd : Descriptor)
          → Stores path s.loader.stored_path (elim fd [
            | no_file ↦ fault
            | _ ↦ done (record s { loader = record s.loader { fd = closed_file } })
          ])
      closed no_file = tt
      closed (open_file file) = inl refl
      closed closed_file = inl refl

  abbrev Ongoing : (List Pending → State → Outcome) → Type 0
  Ongoing continue =
      (pending : List Pending) (s : State) → Stores path s.loader.stored_path (continue pending s)

  add_pending-Stores :
      (continue : List Pending → State → Outcome) (op : GenericOperation) (is_last : Bool)
      (region : Option Region) (pending : List Pending) (s : State)
      → Ongoing continue
      → Stores path s.loader.stored_path (add_pending O path continue op is_last region pending s)
  unfolding add_pending
  add_pending-Stores continue op is_last region pending s h =
      elim (Bool-cases (leb message_max s.ddata.offset)) [
        | inl y ↦ rw y (
            on_done-Stores path s.loader.stored_path _ (continue [])
              (flush-Stores (pending ++ record { operation = op; region = region } ∷ []) is_last s)
              (h []))
        | inr n ↦ rw n (h _ s)
      ]

  flush_if_full-Stores :
      (w : WriteOperation) (pending : List Pending) (s : State)
      → Stores path s.loader.stored_path (flush_if_full O path w pending s).1
  unfolding flush_if_full
  flush_if_full-Stores w pending s =
      elim (Bool-cases (ltb s.ddata.size (w.size + s.ddata.offset))) [
        | inl y ↦ rw y (flush-Stores pending false s)
        | inr n ↦ rw n (inl refl)
      ]

  transfer_step-Stores :
      (continue : List Pending → State → Outcome) (op : GenericOperation) (is_last : Bool)
      (b : Body) (pending : List Pending) (s : State)
      → Ongoing continue
      → Stores path s.loader.stored_path (transfer_step O path continue op is_last b pending s)
  unfolding transfer_step transfer_write
  transfer_step-Stores continue op is_last (write w) pending s h =
      on_done-Stores path s.loader.stored_path _ _ (flush_if_full-Stores w pending s) λ s₁.
        Stores-trans path s₁.loader.stored_path (load_write_data O path w s₁).1.loader.stored_path _
          (load_write_data-stored w s₁)
          (on_done-Stores path _ _ _ (close_if_last-Stores is_last _) (λ s₃.
            add_pending-Stores continue op is_last (load_write_data O path w s₁).0
              (flush_if_full O path w pending s).0 s₃ h))
  transfer_step-Stores continue op is_last _ pending s h =
      add_pending-Stores continue op is_last none pending s h

  transfer_loop-Stores : (ops : List GenericOperation) → Ongoing (transfer_loop O path ops)
  unfolding transfer_loop
  transfer_loop-Stores [] [] s = inl refl
  transfer_loop-Stores [] (p ∷ pending) s = transfer_chunk-Stores (p ∷ pending) true s
  transfer_loop-Stores (op ∷ rest) pending s =
      transfer_step-Stores (transfer_loop O path rest) op (is_empty rest) op.body pending s
        (transfer_loop-Stores rest)

  pub transfer_file-Stores :
      (S : Sorter Slot) (ops : List GenericOperation) (s : State)
      → Stores path s.loader.stored_path (transfer_file O path S ops s)
  unfolding transfer_file
  transfer_file-Stores S ops s = elim (Bool-cases (O.allocates message_max)) [
    | inl y ↦ rw y (
        on_done-Stores path s.loader.stored_path _ _
          (transfer_loop-Stores (optimize_operations S ops) [] (fresh_buffer s)) (λ t. inl refl))
    | inr n ↦ rw n tt
  ]

abbrev pub IsNoWrite : Body → Type 0
IsNoWrite (write w) = ⊥
IsNoWrite _ = Unit

abbrev pub HasNoWrites : List GenericOperation → Type 0
HasNoWrites ops = All (λ op. IsNoWrite op.body) ops

pub HasNoWrites-Fits :
    (file : List ℕ) (ops : List GenericOperation) → HasNoWrites ops → Fits file ops
HasNoWrites-Fits file ops h = All-map (λ op n. fits op.body n) ops h
  where
    fits : (b : Body) → IsNoWrite b → FitsBody file b
    fits (write w) n = absurd n
    fits _ n = tt

-- Another table of source files
abbrev pub reading : (CString → Option (List ℕ)) → Outside → Outside
reading source O = record O { source = source }

module _ (O : Outside) (path : CString) (source : CString → Option (List ℕ)) where
  transfer_step-reading :
      (continue : List Pending → State → Outcome) (op : GenericOperation) (is_last : Bool)
      (b : Body) (pending : List Pending) (s : State)
      → IsNoWrite b
      → transfer_step (reading source O) path continue op is_last b pending s
        ≡ transfer_step O path continue op is_last b pending s
  unfolding transfer_step add_pending flush transfer_chunk send_packed send_chunk
  transfer_step-reading continue op is_last (write w) pending s h = absurd h
  transfer_step-reading continue op is_last _ pending s h = refl

  transfer_loop-reading :
      (ops : List GenericOperation)
      → HasNoWrites ops
      → transfer_loop (reading source O) path ops ≡ transfer_loop O path ops
  unfolding transfer_loop
  transfer_loop-reading [] h = refl
  transfer_loop-reading (op ∷ rest) (h, hs) = fun_ext λ pending. fun_ext λ s.
      ap (λ k. transfer_step (reading source O) path k op (is_empty rest) op.body pending s)
        (transfer_loop-reading rest hs)
      ∙ transfer_step-reading (transfer_loop O path rest) op (is_empty rest) op.body pending s h

  -- A transfer without writes does not depend on the files.
  pub transfer_file-reading :
      (S : Sorter Slot) (ops : List GenericOperation) (s : State)
      → HasNoWrites (optimize_operations S ops)
      → transfer_file (reading source O) path S ops s ≡ transfer_file O path S ops s
  unfolding transfer_file
  transfer_file-reading S ops s h = rw (transfer_loop-reading (optimize_operations S ops) h) refl
