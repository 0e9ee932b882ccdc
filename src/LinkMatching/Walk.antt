-- ===== src/LinkMatching/Walk.antt =====
-- syncedfs-daemon/client.c, `matchInodefiles`: the walk over the snapshot with
-- `matchInode`.
use syncedfs.Prelude.{
  ℕ, ◌≡◌, refl, sym, ◌∙◌, ap, ◌⊎◌, inl, inr, true, false, Option, none, some, List, [], ◌∷◌, ◌==◌,
  if◌then◌else◌, Bool-cases, Option-cases, ==_iff, All,
}
use syncedfs.Prelude.Int.{minus_one}
use syncedfs.CString.{CString, eqb, eqb_iff}
use syncedfs.FilePath.{absolute_path, relative_path}
use syncedfs.HashTable.{HashTable}
use syncedfs.OperationLog.{
  FileOperations, Memory, Attempt, success, State, int_key, entry_of, initialize_fileop,
  merge_operations,
}
use syncedfs.OperationLog.Processing.{Plenty}
use syncedfs.LinkMatching.{
  Visit, Tree, all_matched, new_entry, add_entry, add_or_stop, add_under, add_matched, match_inode,
  walk,
}
use syncedfs.LinkMatching.Conserved.{Within-right, Present, Moves, Moves-refl, Moves-trans, moved}
use syncedfs.LinkMatching.Files.{HoldSome, merge_operations-plenty, HoldSome-Moves, gone, Passed}

module _ (M : Memory) (plenty : Plenty M) (F : HashTable CString FileOperations eqb)
    (I : HashTable ℕ FileOperations ◌==◌) where
  -- An object of the walk is not in the table of i-nodes.
  abbrev pub Visited : State F I → Visit → Type 0
  Visited s v = (i : ℕ) → v.inode ≡ some i → I.find (int_key i) s.inodefiles ≡ none

  abbrev pub AllPassed : CString → Tree → State F I → Type 0
  AllPassed snapshot T s =
      (path : CString) → Present M F I path s → Passed M plenty F I snapshot T s path

  add_matched-under :
      (snapshot pathname relpath : CString) (inode : ℕ) (g f : FileOperations) (s : State F I)
      → relative_path snapshot pathname ≡ some relpath
      → merge_operations M (entry_of relpath [] minus_one false) (some g) ≡ success f
      → add_matched M F I snapshot pathname inode (some g) s
        ≡ success (false, add_entry M F I snapshot relpath inode s f)
  unfolding add_matched add_under new_entry add_or_stop initialize_fileop
  add_matched-under snapshot pathname relpath inode g f s here made =
      rw (here, plenty.entry, plenty.vector 8, made) refl

  add_matched-Moves :
      (snapshot : CString) (T : Tree) (pathname relpath : CString) (inode : ℕ)
      (o : Option FileOperations) (s : State F I)
      → HoldSome F I s
      → AllPassed snapshot T s
      → relative_path snapshot pathname ≡ some relpath
      → T.stat_ino (absolute_path snapshot relpath) ≡ some inode
      → I.find (int_key inode) s.inodefiles ≡ o
      → (s' : State F I) × (add_matched M F I snapshot pathname inode o s ≡ success (false, s'))
        × Moves M F I s s'
        × AllPassed snapshot T s'
        × (I.find (int_key inode) s'.inodefiles ≡ none)
  unfolding add_matched add_entry
  add_matched-Moves snapshot T pathname relpath inode none s h passed here stat e =
      (s, refl, Moves-refl M F I s, passed, e)
  add_matched-Moves snapshot T pathname relpath inode (some g) s h passed here stat e =
      let fresh : FileOperations = entry_of relpath [] minus_one false in
      let (f, made, ops, path) =
        merge_operations-plenty M plenty F I fresh g (h (int_key inode) g e) in
      let s' : State F I = add_entry M F I snapshot relpath inode s f in
      let absent : F.find relpath s.files ≡ none = elim (Option-cases (F.find relpath s.files)) [
        | inl absent ↦ absent
        | inr k ↦ let d = passed relpath k inode stat in cc
      ] in
      let files : (k : CString)
          → F.find k s'.files ≡ (if eqb k relpath then some f else F.find k s.files) =
        λ k. F.find-add k relpath f s.files absent in
      let m : Moves M F I s s' =
        moved M F I s s' relpath f g (int_key inode) files
          (λ k. I.find-del k (int_key inode) s.inodefiles) e (λ old there. cc)
          (Within-right g.operations [] f.operations ops) path in
      let deleted : I.find (int_key inode) s'.inodefiles ≡ none =
        I.find-del (int_key inode) (int_key inode) s.inodefiles
        ∙ rw ((==_iff (int_key inode) (int_key inode)).1 refl) refl in
      (
        s',
        add_matched-under snapshot pathname relpath inode g f s here made,
        m,
        λ q (x, there) i is. elim (Bool-cases (eqb q relpath)) [
          | inl y ↦
              let same : q ≡ relpath = (eqb_iff q relpath).0 y in
              let k : inode ≡ i = cc (stat, is, same) in
              ap (λ n. I.find (int_key n) s'.inodefiles) (sym k) ∙ deleted
          | inr n ↦
              gone M plenty F I s s' m (int_key i)
                (passed q (x, sym (files q ∙ rw n refl) ∙ there) i is)
        ],
        deleted,
      )

  -- The path of an object is under the snapshot, and `stat` gives the i-node that the walk gives.
  abbrev pub Agreeing : CString → Tree → Visit → Type 0
  Agreeing snapshot T v =
      (i : ℕ)
      → v.inode ≡ some i
      → (relpath : CString) × (relative_path snapshot v.pathname ≡ some relpath)
        × (T.stat_ino (absolute_path snapshot relpath) ≡ some i)

  -- The end of the walk.
  abbrev pub WalkEnd : CString → Tree → List Visit → State F I → Attempt (State F I) → Type 0
  WalkEnd snapshot T visits s result =
      (s' : State F I) × (result ≡ success s')
      × Moves M F I s s'
      × ((all_matched M F I s' ≡ true) ⊎ All (Visited s') visits)

  pub walk-total :
      (snapshot : CString) (T : Tree) (visits : List Visit) (s : State F I)
      → HoldSome F I s
      → AllPassed snapshot T s
      → All (Agreeing snapshot T) visits
      → WalkEnd snapshot T visits s (walk M F I snapshot visits s)
  unfolding walk match_inode
  walk-total snapshot T [] s h passed agree = (s, refl, Moves-refl M F I s, inr tt)
  walk-total snapshot T (v ∷ visits) s h passed (here, agree) = elim (Option-cases v.inode) [
    | inl e ↦
        let (s', ran, m, end) = walk-total snapshot T visits s h passed agree in
        (s', rw e ran, m, elim end [ inl y ↦ inl y | inr a ↦ inr ((λ i is. cc), a) ])
    | inr (inode, e) ↦
        let (relpath, under, stat) = here inode e in
        let (s₁, ran, m, passed₁, deleted) =
          add_matched-Moves snapshot T v.pathname relpath inode
            (I.find (int_key inode) s.inodefiles) s h passed under stat refl in
        elim (Bool-cases (all_matched M F I s₁)) [
          | inl y ↦ (s₁, rw (e, ran, y) refl, m, inl y)
          | inr n ↦
              let (s', ran', m', end) =
                walk-total snapshot T visits s₁ (HoldSome-Moves M plenty F I s s₁ m h) passed₁
                  agree in
              (
                s',
                rw (e, ran, n) ran',
                Moves-trans M F I s s₁ s' m m',
                elim end [
                  | inl y ↦ inl y
                  | inr a ↦ inr (
                    (λ i is. gone M plenty F I s₁ s' m' (int_key i) (
                        let k : inode ≡ i = cc (e, is) in
                        ap (λ x. I.find (int_key x) s₁.inodefiles) (sym k) ∙ deleted)),
                    a,
                  )
                ],
              )
        ]
  ]
