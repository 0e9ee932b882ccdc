-- ===== src/Client/Confirmation.antt =====
-- syncedfs-daemon/client.c, `transfer`: what the server has answered where it returns 0.
use syncedfs.Prelude.{
  ℕ, ◌≡◌, refl, sym, Bool, true, false, Option, none, some, List, [], ◌∷◌, ◌⊎◌, inl, inr,
  if◌then◌else◌, Bool-cases, length,
}
use mathlib.Core.Path.{subst}
use syncedfs.CString.{CString}
use syncedfs.Sorting.{Sorter}
use syncedfs.Snapshot.{Config}
use syncedfs.Message.{SyncInitResponse, Message, response, finish, init, chunk}
use syncedfs.Optimize.{Slot}
use syncedfs.OperationLog.{FileOperations}
use syncedfs.Loader
use syncedfs.Transfer.{on_done}
use syncedfs.Loader.{Outside, Outcome}
use syncedfs.Client.{
  agreed, already, refused, crashed, transfer, transfer_initiated, initiate_sync, announcement,
  await_response, read_response, read_refusal, await_finish,
}

-- The server agrees and confirms, or it says that all is synchronised.
abbrev pub Confirms : List Message → Type 0
Confirms inbox =
    (r : SyncInitResponse) × (rest : List Message) × (inbox ≡ response r ∷ rest)
    × (((n : ℕ) × (more : List Message) × (rest ≡ finish n ∷ more))
        ⊎ (r.already_synced ≡ some true))

abbrev pub IfDone : Type 0 → Outcome → Type 0
IfDone Q (Loader.done s) = Q
IfDone Q (Loader.failed s) = Unit
IfDone Q Loader.fault = Unit

IfDone-on_done :
    (Q : Type 0) (o : Outcome) (k : Loader.State → Outcome)
    → ((s : Loader.State) → IfDone Q (k s))
    → IfDone Q (on_done o k)
IfDone-on_done Q (Loader.done s) k h = h s
IfDone-on_done Q (Loader.failed s) k h = tt
IfDone-on_done Q Loader.fault k h = tt

await_finish-IfDone :
    (inbox : List Message) (s : Loader.State)
    → IfDone ((n : ℕ) × (more : List Message) × (inbox ≡ finish n ∷ more)) (await_finish inbox s)
unfolding await_finish
await_finish-IfDone [] s = tt
await_finish-IfDone (finish n ∷ more) s = (n, more, refl)
await_finish-IfDone (init m ∷ more) s = tt
await_finish-IfDone (response m ∷ more) s = tt
await_finish-IfDone (chunk m ∷ more) s = tt

IfDone-map : (P Q : Type 0) (o : Outcome) → (P → Q) → IfDone P o → IfDone Q o
IfDone-map P Q (Loader.done s) f h = f h
IfDone-map P Q (Loader.failed s) f h = tt
IfDone-map P Q Loader.fault f h = tt

module _ (O : Outside) (cfg : Config) (S : Sorter Slot) (H : Sorter FileOperations)
    (files : List FileOperations) where
  read_response-Confirms :
      (r : SyncInitResponse) (rest : List Message) (s : Loader.State)
      → IfDone
          (Confirms (response r ∷ rest))
          (transfer_initiated O cfg S H files (read_response r rest s))
  unfolding transfer_initiated read_response read_refusal
  read_response-Confirms r rest s = elim (Bool-cases r.proceed) [
    | inl y ↦
        let e : read_response r rest s ≡ agreed rest s = rw y refl in
        subst (λ i. IfDone (Confirms (response r ∷ rest)) (transfer_initiated O cfg S H files i))
          (sym e)
          (IfDone-on_done _ _ (await_finish rest) (λ s'.
            IfDone-map _ (Confirms (response r ∷ rest)) (await_finish rest s')
              (λ c. (r, rest, refl, inl c)) (await_finish-IfDone rest s')))
    | inr n ↦
        let e : read_response r rest s ≡ elim r.already_synced [
          | none ↦ read_refusal r s
          | some synced ↦ if synced then already s else read_refusal r s
        ] =
          rw n refl in
        subst (λ i. IfDone (Confirms (response r ∷ rest)) (transfer_initiated O cfg S H files i))
          (sym e) (after r.already_synced refl)
  ]
    where
      refusal :
          (t : Option CString)
          → IfDone (Confirms (response r ∷ rest)) (
              transfer_initiated O cfg S H files
                (elim t [ none ↦ crashed | some text ↦ refused s ]))
      refusal none = tt
      refusal (some text) = tt

      after :
          (a : Option Bool)
          → r.already_synced ≡ a
          → IfDone (Confirms (response r ∷ rest)) (
              transfer_initiated O cfg S H files (elim a [
                | none ↦ read_refusal r s
                | some synced ↦ if synced then already s else read_refusal r s
              ]))
      after none e = refusal r.error_message
      after (some true) e = (r, rest, refl, inr e)
      after (some false) e = refusal r.error_message

  await_response-Confirms :
      (inbox : List Message) (s : Loader.State)
      → IfDone (Confirms inbox) (transfer_initiated O cfg S H files (await_response inbox s))
  unfolding transfer_initiated await_response
  await_response-Confirms [] s = tt
  await_response-Confirms (response r ∷ rest) s = read_response-Confirms r rest s
  await_response-Confirms (init m ∷ more) s = tt
  await_response-Confirms (finish m ∷ more) s = tt
  await_response-Confirms (chunk m ∷ more) s = tt

  pub transfer-Confirms :
      (connected : Bool) (id : Option CString) (inbox : List Message) (s : Loader.State)
      → IfDone (Confirms inbox) (transfer O cfg S H connected id files inbox s)
  unfolding transfer transfer_initiated initiate_sync
  transfer-Confirms false id inbox s = tt
  transfer-Confirms true none inbox s = tt
  transfer-Confirms true (some id) inbox s =
      elim (Bool-cases (O.accepts s.sent (announcement O cfg id (length files)))) [
        | inl y ↦ rw y (await_response-Confirms inbox _)
        | inr n ↦ rw n tt
      ]
