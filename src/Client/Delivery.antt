-- ===== src/Client/Delivery.antt =====
-- syncedfs-daemon/client.c, `transfer`: the messages of a whole session.
use mathlib.Core.Path.{subst}
use mathlib.Core.List.{append_assoc, append-nil}
use syncedfs.Prelude.{
  ℕ, ◌≡◌, ◌≢◌, refl, sym, Bool, true, false, not, Option, none, some, List, [], ◌∷◌, ◌++◌, ◌⊎◌, inl,
  inr, map, All, All-map, Ordered, Option-cases,
}
use syncedfs.CString.{CString, eqb}
use syncedfs.Sorting.{Sorter}
use syncedfs.Operation.{GenericOperation}
use syncedfs.Message.{Message}
use syncedfs.OperationLog.{FileOperations}
use syncedfs.Optimize.{Slot, optimize_operations}
use syncedfs.Transfer.{on_done, transfer_file}
use syncedfs.Loader.{Outside, State, Outcome, done, failed, fault}
use syncedfs.Transfer.Loading.{with_data, Fits, Delivers}
use syncedfs.Transfer.Stream.{transfer_file-Delivers}
use syncedfs.Transfer.SourcePath.{
  Stores, transfer_file-Stores, HasNoWrites, HasNoWrites-Fits, reading, transfer_file-reading,
}
use syncedfs.Snapshot.{Config}
use syncedfs.Server.Delivery.{AreStreams, no_streams, stream}
use syncedfs.Client.{transfer_files}

-- What the snapshot holds under a path
abbrev pub bytes_of : Option (List ℕ) → List ℕ
bytes_of none = []
bytes_of (some file) = file

-- What is sent for a file: the optimised operations, the writes with the bytes of the snapshot.
abbrev pub filled : Outside → Sorter Slot → FileOperations → CString × List GenericOperation
filled O S f = (
  f.relpath,
  map (with_data (bytes_of (O.source f.relpath))) (optimize_operations S f.operations),
)

-- Some operation is left; the snapshot has the file with the bytes of all writes, or there is none.
pub record IsReady (O : Outside) (S : Sorter Slot) (f : FileOperations) : Type 0 where
  pub left : optimize_operations S f.operations ≢ []
  pub fits : Fits (bytes_of (O.source f.relpath)) (optimize_operations S f.operations)
  pub missing : O.source f.relpath ≡ none → HasNoWrites (optimize_operations S f.operations)

abbrev pub AreDistinct : List FileOperations → Type 0
AreDistinct files = Ordered (λ f g. not (eqb g.relpath f.relpath)) files

-- `loadWriteData` has none of these files open.
abbrev pub IsFresh : List FileOperations → State → Type 0
IsFresh files s = All (λ f. eqb f.relpath s.loader.stored_path ≡ false) files

module _ (O : Outside) (allocates : (n : ℕ) → O.allocates n ≡ true)
    (accepts : (sent : List Message) (m : Message) → O.accepts sent m ≡ true)
    (S : Sorter Slot) where
  transfer_file-ready :
      (f : FileOperations) (s : State)
      → IsReady O S f
      → eqb f.relpath s.loader.stored_path ≡ false
      → Delivers f.relpath s.sent (filled O S f).1 (transfer_file O f.relpath S f.operations s)
  transfer_file-ready f s ready new = elim (Option-cases (O.source f.relpath)) [
    | inr (file, e) ↦
        let fits : Fits file (optimize_operations S f.operations) =
          subst (λ o. Fits (bytes_of o) (optimize_operations S f.operations)) e ready.fits in
        rw e (
          transfer_file-Delivers O f.relpath file e allocates accepts S f.operations s (λ y. cc)
            fits ready.left)
    | inl e ↦
        let none_written = ready.missing e in
        rw (e, ← transfer_file-reading O f.relpath (λ path. some []) S f.operations s none_written)
          (transfer_file-Delivers (reading (λ path. some []) O) f.relpath [] refl allocates accepts
            S f.operations s (λ y. cc)
            (HasNoWrites-Fits [] (optimize_operations S f.operations) none_written) ready.left)
  ]

  IsFresh-next :
      (f : FileOperations) (files : List FileOperations) (s s' : State)
      → All (λ g. not (eqb g.relpath f.relpath) ≡ true) files
      → IsFresh files s
      → (s'.loader.stored_path ≡ s.loader.stored_path) ⊎ (s'.loader.stored_path ≡ f.relpath)
      → IsFresh files s'
  IsFresh-next f files s s' distinct fresh (inl e) = rw e fresh
  IsFresh-next f files s s' distinct fresh (inr e) =
      rw e (All-map (λ g d. negated (eqb g.relpath f.relpath) d) files distinct)
    where
      negated : (b : Bool) → not b ≡ true → b ≡ false
      negated true h = sym h
      negated false h = refl

  -- The transfer returns 0 and has sent these files behind `before`.
  abbrev pub DeliversAll : List Message → List (CString × List GenericOperation) → Outcome → Type 0
  DeliversAll before files (done s) =
      (messages : List Message) × (s.sent ≡ before ++ messages) × AreStreams files messages
  DeliversAll before files (failed s) = ⊥
  DeliversAll before files fault = ⊥

  -- If allocation succeeds, the connection takes all messages, and for each file some operation is
  -- left whose bytes the snapshot holds, the loop of transfer over files of distinct paths sends them
  -- all, one behind the other, and none ends in an error.
  pub transfer_files-DeliversAll :
      (H : Sorter FileOperations) (cfg : Config) (files : List FileOperations) (s : State)
      → All (IsReady O S) files
      → AreDistinct files
      → IsFresh files s
      → DeliversAll s.sent (map (filled O S) files) (transfer_files O cfg S H files s)
  unfolding transfer_files
  transfer_files-DeliversAll H cfg [] s ready distinct fresh =
      ([], sym (append-nil s.sent), no_streams)
  transfer_files-DeliversAll H cfg (f ∷ files) s (ready, all_ready) (apart, distinct) (new, fresh) =
      go (transfer_file O f.relpath S f.operations s) (transfer_file-ready f s ready new)
        (transfer_file-Stores O f.relpath S f.operations s)
        (λ s' h.
          transfer_files-DeliversAll H cfg files s' all_ready distinct
            (IsFresh-next f files s s' apart fresh h))
    where
      go :
          (o : Outcome)
          → Delivers f.relpath s.sent (filled O S f).1 o
          → Stores f.relpath s.loader.stored_path o
          → ((s' : State)
              → (s'.loader.stored_path ≡ s.loader.stored_path) ⊎ (s'.loader.stored_path ≡ f.relpath)
              → DeliversAll s'.sent (map (filled O S) files) (transfer_files O cfg S H files s'))
          → DeliversAll s.sent
              (map (filled O S) (f ∷ files))
              (on_done o (transfer_files O cfg S H files))
      go (done s') (messages, e, h) stored ih =
          join (transfer_files O cfg S H files s') (ih s' stored)
        where
          join :
              (o : Outcome)
              → DeliversAll s'.sent (map (filled O S) files) o
              → DeliversAll s.sent (map (filled O S) (f ∷ files)) o
          join (done t) (more, d, hs) = (
            messages ++ more,
            rw (d, e, append_assoc s.sent messages more) refl,
            stream messages more h hs,
          )
          join (failed t) bad = bad
          join fault bad = bad
      go (failed s') bad stored ih = bad
      go fault bad stored ih = bad
