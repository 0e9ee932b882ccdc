-- ===== src/LinkMatching/Files.antt =====
-- syncedfs-daemon/client.c, `matchInodefiles`: the loop over the table of files.
use syncedfs.Prelude.{
  ℕ, ◌≡◌, ◌≢◌, refl, sym, ◌∙◌, ap, inl, inr, Bool, true, false, Option, none, some, List, [], ◌∷◌,
  ◌++◌, ◌==◌, arith, Bool-cases, Option-cases, ==_iff, All, length, is_empty, ◌+◌, All-map,
}
use syncedfs.CString.{CString, eqb, eqb_iff}
use syncedfs.Operation.{GenericOperation}
use syncedfs.FilePath.{absolute_path}
use syncedfs.HashTable.{HashTable}
use syncedfs.OperationLog.{
  FileOperations, Memory, Attempt, success, State, int_key, merge_operations,
}
use syncedfs.OperationLog.Processing.{Plenty}
use syncedfs.LinkMatching.{Tree, or_before, all_matched, merge_matched, match_file, match_files}
use syncedfs.LinkMatching.Conserved.{
  Within-left, Within-right, IsKeyed, Present, Moves, Moves-refl, Moves-trans, moved,
}

-- Every entry holds some operation.
abbrev pub HoldSome :
    (F : HashTable CString FileOperations eqb) (I : HashTable ℕ FileOperations ◌==◌)
    → State F I
    → Type 0
HoldSome F I s = (j : ℕ) (g : FileOperations) → I.find j s.inodefiles ≡ some g → g.operations ≢ []

some_left-sum : (n : ℕ) (ops : List GenericOperation) → ops ≢ [] → (n + length ops == 0) ≡ false
some_left-sum n [] h = absurd (h refl)
some_left-sum n (op ∷ ops) h = ground arith

module _ (M : Memory) (plenty : Plenty M) (F : HashTable CString FileOperations eqb)
    (I : HashTable ℕ FileOperations ◌==◌) where
  pub merge_operations-plenty :
      (f g : FileOperations)
      → g.operations ≢ []
      → (merged : FileOperations) × (merge_operations M f (some g) ≡ success merged)
        × (merged.operations ≡ f.operations ++ g.operations)
        × (merged.relpath ≡ f.relpath)
  unfolding merge_operations
  merge_operations-plenty f g some_left = (
    record f {
      operations = f.operations ++ g.operations;
      capacity = length f.operations + length g.operations;
    },
    rw
        (
          some_left-sum (length f.operations) g.operations some_left,
          plenty.vector (length f.operations + length g.operations),
        )
        refl,
    refl,
    refl,
  )

  pub HoldSome-Moves : (s s' : State F I) → Moves M F I s s' → HoldSome F I s → HoldSome F I s'
  HoldSome-Moves s s' m h j g found = h j g (m.still j g found)

  pub gone :
      (s s' : State F I)
      → Moves M F I s s'
      → (j : ℕ) → I.find j s.inodefiles ≡ none
      → I.find j s'.inodefiles ≡ none
  gone s s' m j e = elim (Option-cases (I.find j s'.inodefiles)) [
    | inl absent ↦ absent
    | inr (g, found) ↦ let d = m.still j g found in cc
  ]

  merge_matched-Moves :
      (f : FileOperations) (inode : ℕ) (o : Option FileOperations) (s : State F I)
      → HoldSome F I s
      → F.find f.relpath s.files ≡ some f
      → I.find (int_key inode) s.inodefiles ≡ o
      → (s' : State F I) × (merge_matched M F I f inode o s ≡ success s')
        × Moves M F I s s'
        × (I.find (int_key inode) s'.inodefiles ≡ none)
        × ((path : CString) → Present M F I path s' → Present M F I path s)
  unfolding merge_matched
  merge_matched-Moves f inode none s h found e = (s, refl, Moves-refl M F I s, e, λ p k. k)
  merge_matched-Moves f inode (some g) s h found e =
      let (merged, made, ops, path) = merge_operations-plenty f g (h (int_key inode) g e) in
      let s' : State F I = record s {
        files = F.update f.relpath merged s.files;
        inodefiles = I.del (int_key inode) s.inodefiles;
      } in
      let m : Moves M F I s s' =
        moved M F I s s' f.relpath merged g (int_key inode)
          (λ k. F.find-update k f.relpath merged f s.files found)
          (λ k. I.find-del k (int_key inode) s.inodefiles) e
          (λ old there.
            Within-left old.operations g.operations merged.operations
              (let q : f ≡ old = cc (found, there) in rw (← q) ops))
          (Within-right g.operations f.operations merged.operations ops) path in
      (
        s',
        rw made refl,
        m,
        I.find-del (int_key inode) (int_key inode) s.inodefiles
            ∙ rw ((==_iff (int_key inode) (int_key inode)).1 refl) refl,
        λ q (x, there). elim (Bool-cases (eqb q f.relpath)) [
          | inl y ↦ (f, rw ((eqb_iff q f.relpath).0 y) found)
          | inr n ↦ (x, sym (F.find-update q f.relpath merged f s.files found ∙ rw n refl) ∙ there)
        ],
      )

  -- The files that the loop has passed are not in the table of i-nodes.
  abbrev pub Passed : CString → Tree → State F I → CString → Type 0
  Passed snapshot T s path =
      (i : ℕ)
      → T.stat_ino (absolute_path snapshot path) ≡ some i
      → I.find (int_key i) s.inodefiles ≡ none

  pub all_matched-none :
      (s : State F I) → all_matched M F I s ≡ true → (j : ℕ) → I.find j s.inodefiles ≡ none
  unfolding all_matched
  all_matched-none s h j = elim (Option-cases (I.find j s.inodefiles)) [
    | inl absent ↦ absent
    | inr (g, found) ↦
        absurd (I.entries-All (λ v. ⊥) j g s.inodefiles found (empty (I.entries s.inodefiles) h))
  ]
    where
      empty : (vs : List FileOperations) → is_empty vs ≡ true → All (λ v. ⊥) vs
      empty [] e = tt
      empty (v ∷ vs) e = cc e

  -- The end of the loop over the files.
  abbrev pub FilesEnd :
      CString → Tree → List CString → State F I → Attempt (Bool × State F I) → Type 0
  FilesEnd snapshot T paths s result =
      (b : Bool) × (s' : State F I) × (result ≡ success (b, s'))
      × Moves M F I s s'
      × ((b ≡ true) → all_matched M F I s' ≡ true)
      × ((b ≡ false)
          → (All (Passed snapshot T s') paths
              × ((path : CString) → Present M F I path s' → Present M F I path s)))

  pub match_files-total :
      (snapshot : CString) (T : Tree) (paths : List CString) (before : ℕ) (s : State F I)
      → IsKeyed M F I s
      → HoldSome F I s
      → All (λ p. Present M F I p s) paths
      → FilesEnd snapshot T paths s (match_files M F I snapshot T paths before s)
  unfolding match_files match_file
  match_files-total snapshot T [] before s keyed h present =
      (false, s, refl, Moves-refl M F I s, λ e. cc e, λ e. (tt, λ p k. k))
  match_files-total snapshot T (path ∷ paths) before s keyed h ((f, found), present) =
      let ino : ℕ = or_before (T.stat_ino (absolute_path snapshot path)) before in
      let key : f.relpath ≡ path = keyed path f found in
      let (s₁, ran, m, absent, known) =
        merge_matched-Moves f ino (I.find (int_key ino) s.inodefiles) s h
          (ap (λ p. F.find p s.files) key ∙ found) refl in
      elim (Bool-cases (all_matched M F I s₁)) [
        | inl y ↦ (true, s₁, rw (found, ran, y) refl, m, λ e. y, λ e. cc e)
        | inr n ↦
            let (b, s₂, ran₂, m₂, y₂, n₂) =
              match_files-total snapshot T paths ino s₁ (m.keyed keyed) (HoldSome-Moves s s₁ m h)
                (All-map (λ p. m.present p) paths present) in
            (
              b,
              s₂,
              rw (found, ran, n) ran₂,
              Moves-trans M F I s s₁ s₂ m m₂,
              y₂,
              λ e.
                  let (passed, known₂) = n₂ e in
                  (
                    (
                      λ i is.
                          gone s₁ s₂ m₂ (int_key i)
                            (let q : ino ≡ i = rw is refl in rw (← q) absent),
                      passed,
                    ),
                    λ p k. known p (known₂ p k),
                  ),
            )
      ]
