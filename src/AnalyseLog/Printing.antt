-- ===== src/AnalyseLog/Printing.antt =====
-- analyse-log/main.c, `printPureLog`, on the bytes that `logGeneric` of syncedfs/log.c has written.
use syncedfs.Prelude.{
  ℕ, zero, suc, ◌≤◌, ◌≡◌, refl, ◌∙◌, ap, Bool, true, some, List, [], ◌∷◌, ◌++◌, ◌==◌, length, arith,
  length-append,
}
use syncedfs.Prelude.Int.{pos}
use syncedfs.CString.{CString, eqb}
use syncedfs.HashTable.{HashTable}
use syncedfs.OperationLog.{FileOperations, Memory}
use syncedfs.Logger.{Entry}
use syncedfs.Wire.{Codec, frame, read_length}
use syncedfs.Wire.RoundTrip.{read_length-frame, take-append, drop-append, ltb-append}
use syncedfs.LogFile.Loading.{IsPacked, ArePacked, log_bytes, length-frame, grow_buffer-success}
use syncedfs.AnalyseLog.{
  Line, prefix, print_operation, behind, print_unpacked, print_entry, print_grown, print_next,
  print_pure_log,
}

-- Every entry with the number that it has in the log
unfoldable pub print_entries : ℕ → List Entry → List Line
unfolding print_operation
print_entries i [] = []
print_entries i ((relpath, op) ∷ log) =
    (prefix relpath ∷ print_operation (some op) i) ++ print_entries (suc i) log

module _ (M : Memory) (allocates : ℕ → Bool) (C : Codec Entry)
    (F : HashTable CString FileOperations eqb) (I : HashTable ℕ FileOperations ◌==◌)
    (allocated : (n : ℕ) → allocates n ≡ true) where
  print_pure_log-frame :
      (e : Entry) (rest : List ℕ) (fuel i old : ℕ)
      → IsPacked C e
      → (more : ℕ) × (print_pure_log M allocates C F I (suc fuel) i old (frame (C.pack e) ++ rest)
          ≡ behind M allocates C F I
              (prefix e.0 ∷ print_operation (some e.1) i)
              (print_pure_log M allocates C F I fuel (suc i) more rest))
  unfolding print_pure_log print_next print_grown print_entry print_unpacked
  print_pure_log-frame e rest fuel i old packed =
      let (more, grown) = grow_buffer-success M allocates C F I allocated old (length (C.pack e)) in
      (
        more,
        rw
            (
              read_length-frame (C.pack e) rest packed.short,
              grown,
              ltb-append (C.pack e) rest,
              take-append (C.pack e) rest,
              drop-append (C.pack e) rest,
              packed.back,
            )
            refl,
      )

  print_all :
      (log : List Entry) (fuel i old : ℕ)
      → ArePacked C log
      → length (log_bytes C log) ≤ fuel
      → print_pure_log M allocates C F I fuel i old (log_bytes C log)
        ≡ record { lines = print_entries i log; status = some (pos 0) }
  unfolding print_pure_log print_entries print_next read_length
  print_all [] zero i old packed le = refl
  print_all [] (suc fuel) i old packed le = refl
  print_all (e ∷ log) zero i old packed le =
      absurd
        (omega (arith, le, length-frame M allocates C F I allocated (C.pack e) (log_bytes C log)))
  print_all (e ∷ log) (suc fuel) i old (first, packed) le =
      let (more, ran) = print_pure_log-frame e (log_bytes C log) fuel i old first in
      let room : length (log_bytes C log) ≤ fuel = omega (
        arith,
        le,
        length-frame M allocates C F I allocated (C.pack e) (log_bytes C log),
        length-append (C.pack e) (log_bytes C log),
      ) in
      ran
      ∙ ap (behind M allocates C F I (prefix e.0 ∷ print_operation (some e.1) i))
          (print_all log fuel (suc i) more packed room)

  -- If allocation succeeds and protobuf-c unpacks the entries that it has packed, in less than 2 ^ 32
  -- bytes each, printPureLog prints every entry of the log, in order and under its number, and returns
  -- 0.
  pub print_pure_log-log_bytes :
      (log : List Entry)
      → ArePacked C log
      → print_pure_log M allocates C F I (length (log_bytes C log)) 0 0 (log_bytes C log)
        ≡ record { lines = print_entries 0 log; status = some (pos 0) }
  print_pure_log-log_bytes log packed =
      print_all log (length (log_bytes C log)) 0 0 packed (omega arith)
