-- ===== src/LogFile/Loading.antt =====
-- syncedfs-daemon/client.c, `loadLog`, on the bytes that `logGeneric` of syncedfs/log.c has written.
use syncedfs.Prelude.{
  some, ℕ, zero, suc, ◌+◌, ◌<◌, ◌≤◌, ◌^◌, ◌≡◌, refl, Bool, true, List, [], ◌∷◌, ◌++◌, ◌==◌,
  if◌then◌else◌, length, take, ltb, arith, All, ap, ◌∙◌, inl, inr, sym, length-append, lt→ltb,
  Bool-cases,
}
use mathlib.Core.List.{append_assoc, append-nil}
use syncedfs.CString.{CString, eqb}
use syncedfs.HashTable.{HashTable}
use syncedfs.OperationLog.{
  FileOperations, Memory, Attempt, success, failed, fault, ◌>>=◌, State, add_operation,
  add_operations,
}
use syncedfs.Wire.{Codec, read_length, frame, htonl_bytes}
use syncedfs.Wire.RoundTrip.{
  read_length-frame, read_length-short, read_length-part, take-append, drop-append, ltb-append,
}
use syncedfs.Logger.{Entry}
use syncedfs.LogFile.{
  add_unpacked, grow_buffer, add_entry, after_length, read_log, load_log, ignore_result,
}
use syncedfs.LinkMatching.{Tree, match_inodefiles}

-- The log that `logGeneric` writes, entry by entry
abbrev pub log_bytes : Codec Entry → List Entry → List ℕ
log_bytes C [] = []
log_bytes C (e ∷ log) = frame (C.pack e) ++ log_bytes C log

-- Packed in less than 2 ^ 32 bytes, from which protobuf-c gets the entry back
pub record IsPacked (C : Codec Entry) (e : Entry) : Type 0 where
  pub short : length (C.pack e) < 2 ^ 32
  pub back : C.unpack (C.pack e) ≡ some e

abbrev pub ArePacked : Codec Entry → List Entry → Type 0
ArePacked C log = All (IsPacked C) log

module _ (M : Memory) (allocates : ℕ → Bool) (C : Codec Entry)
    (F : HashTable CString FileOperations eqb) (I : HashTable ℕ FileOperations ◌==◌)
    (allocated : (n : ℕ) → allocates n ≡ true) where
  pub grow_buffer-success :
      (old n : ℕ) → (more : ℕ) × (grow_buffer M allocates C F I old n ≡ success more)
  unfolding grow_buffer
  grow_buffer-success old n = elim (Bool-cases (ltb old n)) [
    | inl y ↦ (n, rw (y, allocated n) refl)
    | inr n' ↦ (old, rw n' refl)
  ]

  add_entry-packed :
      (e : Entry) (rest : List ℕ) (s : State F I)
      → C.unpack (C.pack e) ≡ some e
      → add_entry M allocates C F I (length (C.pack e)) (C.pack e ++ rest) s
        ≡ add_operation M F I e.0 e.1 s
  unfolding add_entry add_unpacked
  add_entry-packed e rest s back =
      rw (ltb-append (C.pack e) rest, take-append (C.pack e) rest, back) refl

  >>=-cong :
      {A B : Type 0} (a : Attempt A) (f g : A → Attempt B)
      → ((x : A) → f x ≡ g x)
      → (a >>= f) ≡ (a >>= g)
  >>=-cong (success x) f g h = h x
  >>=-cong failed f g h = refl
  >>=-cong fault f g h = refl

  pub length-frame :
      (packed rest : List ℕ) → length (frame packed ++ rest) ≡ suc (3 + length (packed ++ rest))
  unfolding frame htonl_bytes
  length-frame packed rest = omega arith

  >>=-assoc :
      {A B D : Type 0} (a : Attempt A) (f : A → Attempt B) (g : B → Attempt D)
      → ((a >>= f) >>= g) ≡ (a >>= λ x. f x >>= g)
  >>=-assoc (success x) f g = refl
  >>=-assoc failed f g = refl
  >>=-assoc fault f g = refl

  -- One turn of the loop
  read_log-frame :
      (e : Entry) (rest : List ℕ) (fuel old : ℕ) (s : State F I)
      → IsPacked C e
      → (more : ℕ) × (read_log M allocates C F I (suc fuel) old (frame (C.pack e) ++ rest) s
          ≡ (add_operation M F I e.0 e.1 s >>= read_log M allocates C F I fuel more rest))
  unfolding read_log after_length
  read_log-frame e rest fuel old s packed =
      let (more, grown) = grow_buffer-success old (length (C.pack e)) in
      (
        more,
        rw
            (
              read_length-frame (C.pack e) rest packed.short,
              grown,
              add_entry-packed e rest s packed.back,
              drop-append (C.pack e) rest,
            )
            refl,
      )

  -- What the end of the log does is done behind the entries.
  read_log-append :
      (end : List ℕ) (result : State F I → Attempt (State F I))
      → ((fuel old : ℕ) (s : State F I)
          → length end ≤ fuel
          → read_log M allocates C F I fuel old end s ≡ result s)
      → (log : List Entry) (fuel old : ℕ) (s : State F I) → ArePacked C log
      → length (log_bytes C log ++ end) ≤ fuel
      → read_log M allocates C F I fuel old (log_bytes C log ++ end) s
        ≡ (add_operations M F I log s >>= result)
  unfolding add_operations
  read_log-append end result h [] fuel old s short le = h fuel old s le
  read_log-append end result h (e ∷ log) zero old s short le = absurd (
      omega (
        arith,
        le,
        length-frame (C.pack e) (log_bytes C log ++ end),
        ap length (append_assoc (frame (C.pack e)) (log_bytes C log) end),
      ))
  read_log-append end result h (e ∷ log) (suc fuel) old s (first, short) le =
      let rest : List ℕ = log_bytes C log ++ end in
      let whole = append_assoc (frame (C.pack e)) (log_bytes C log) end in
      let (more, ran) = read_log-frame e rest fuel old s first in
      let room : length rest ≤ fuel =
        omega (
          arith,
          le,
          length-frame (C.pack e) rest,
          ap length whole,
          length-append (C.pack e) rest,
        ) in
      ap (λ bytes. read_log M allocates C F I (suc fuel) old bytes s) whole
      ∙ ran
      ∙ >>=-cong (add_operation M F I e.0 e.1 s) _ _
          (λ s'. read_log-append end result h log fuel more s' short room)
      ∙ sym (>>=-assoc (add_operation M F I e.0 e.1 s) (add_operations M F I log) result)

  read_log-nil :
      (fuel old : ℕ) (s : State F I) → read_log M allocates C F I fuel old [] s ≡ success s
  unfolding read_log after_length read_length
  read_log-nil zero old s = refl
  read_log-nil (suc fuel) old s = refl

  >>=-success_right : {A : Type 0} (a : Attempt A) → (a >>= success) ≡ a
  >>=-success_right (success x) = refl
  >>=-success_right failed = refl
  >>=-success_right fault = refl

  take-frame : (k : ℕ) (packed : List ℕ) → 1 ≤ length (take (suc k) (frame packed))
  unfolding frame htonl_bytes
  take-frame k packed = omega arith

  read_log-end :
      (k : ℕ) (e : Entry) (fuel old : ℕ) (s : State F I)
      → length (C.pack e) < 2 ^ 32
      → k < 4 + length (C.pack e)
      → length (take k (frame (C.pack e))) ≤ fuel
      → read_log M allocates C F I fuel old (take k (frame (C.pack e))) s
        ≡ (if ltb k 4 then success s else failed)
  unfolding read_log add_entry after_length
  read_log-end zero e zero old s short lt le = refl
  read_log-end (suc k) e zero old s short lt le =
      absurd (omega (arith, le, take-frame k (C.pack e)))
  read_log-end k e (suc fuel) old s short lt le = elim (Bool-cases (ltb k 4)) [
    | inl y ↦ rw (read_length-short (C.pack e) k (ground (arith, y)), y) refl
    | inr n ↦
        let (part, got, less) = read_length-part (C.pack e) k short (ground (arith, n)) lt in
        let (more, grown) = grow_buffer-success old (length (C.pack e)) in
        rw (got, grown, n, lt→ltb (length part) (length (C.pack e)) less) refl
  ]

  -- If allocation succeeds and protobuf-c unpacks the entries that it has packed, in less than 2 ^ 32
  -- bytes each, loadLog reads every entry back from the bytes that logGeneric has written, and adds
  -- them in their order. Where the last
  -- entry was not written whole, the log is refused behind the others, unless less than its length
  -- was written: then it counts as none.
  pub read_log-torn :
      (log : List Entry) (k : ℕ) (e : Entry) (s : State F I)
      → ArePacked C log
      → length (C.pack e) < 2 ^ 32
      → k < 4 + length (C.pack e)
      → (let bytes = log_bytes C log ++ take k (frame (C.pack e)) in
          read_log M allocates C F I (length bytes) 0 bytes s
          ≡ (add_operations M F I log s >>= λ s'. if ltb k 4 then success s' else failed))
  read_log-torn log k e s short last lt =
      read_log-append (take k (frame (C.pack e))) (λ s'. if ltb k 4 then success s' else failed)
        (λ fuel old s' le. read_log-end k e fuel old s' last lt le) log
        (length (log_bytes C log ++ take k (frame (C.pack e)))) 0 s short (omega arith)

  -- If allocation succeeds and protobuf-c unpacks the entries that it has packed, in less than 2 ^
  -- 32 bytes each, loadLog on the bytes of a log adds its entries in their order and then lets
  -- matchInodefiles find a path for what is left under an i-node; it goes on with the tables that
  -- this leaves, whatever it returns.
  pub load_log-log_bytes :
      (snapshot : CString) (T : Tree) (inode : ℕ) (log : List Entry) (s : State F I)
      → ArePacked C log
      → load_log M allocates C F I snapshot T inode (log_bytes C log) s ≡ (
          add_operations M F I log s >>= λ s'.
          ignore_result M allocates C F I (match_inodefiles M F I snapshot T inode s'))
  unfolding load_log
  load_log-log_bytes snapshot T inode log s short =
      let read : read_log M allocates C F I (length (log_bytes C log)) 0 (log_bytes C log) s
          ≡ add_operations M F I log s =
        ap (λ bytes. read_log M allocates C F I (length (log_bytes C log)) 0 bytes s)
          (sym (append-nil (log_bytes C log)))
        ∙ read_log-append [] success (λ fuel old s' le. read_log-nil fuel old s') log
            (length (log_bytes C log)) 0 s short
            (omega (arith, ap length (append-nil (log_bytes C log))))
        ∙ >>=-success_right (add_operations M F I log s) in
      ap
        (λ (a : Attempt (State F I)).
          a >>= λ s'. ignore_result M allocates C F I (match_inodefiles M F I snapshot T inode s'))
        read
