-- ===== src/OperationLog/Frame.antt =====
-- `addOperation` of syncedfs-daemon/client.c on the entries of the other paths.
use syncedfs.Prelude.{
  ℕ, ◌+◌, ◌≡◌, refl, ◌∙◌, ap, inl, inr, Bool, true, false, Option, none, some, List, [], ◌∷◌, ◌==◌,
  arith, Bool-cases,
}
use syncedfs.Prelude.Int.{pos, minus_one, eqb_ℤ}
use syncedfs.CString.{CString, eqb, eqb_refl}
use syncedfs.Operation.{GenericOperation, Body}
use syncedfs.HashTable.{HashTable}
use syncedfs.OperationLog.{
  FileOperations, Memory, success, State, removes, creates, target, append_operation,
  initialize_fileop, extend_vector, put_single, put_back, sort_out_links, remove_file, place,
  append_to, remove_numbered, append_numbered, add_numbered, add_operation,
}
use syncedfs.OperationLog.Vector.{>>=-success}
use syncedfs.OperationLog.Validity.{single, put_single-success, sort_out_links-frame}

removes-target :
    (k relpath : CString) (b : Body)
    → removes b ≡ true
    → eqb k (target relpath b) ≡ false
    → eqb k relpath ≡ false
removes-target k relpath b r h = ground arith

module _ (M : Memory) (F : HashTable CString FileOperations eqb)
    (I : HashTable ℕ FileOperations ◌==◌) where
  find-other :
      (k j : CString) (v : FileOperations) (t : F.Table)
      → F.find j t ≡ none
      → eqb k j ≡ false
      → F.find k (F.add j v t) ≡ F.find k t
  find-other k j v t absent ne = F.find-add k j v t absent ∙ rw ne refl

  put_single-other :
      (k j : CString) (op : GenericOperation) (s s' : State F I)
      → F.find j s.files ≡ none
      → eqb k j ≡ false
      → put_single M F I j op s ≡ success s'
      → F.find k s'.files ≡ F.find k s.files
  put_single-other k j op s s' absent ne e =
      rw (← put_single-success M F I j op s s' e)
        (find-other k j (single M F I j op) s.files absent ne)

  put_back-other :
      (k j : CString) (op : GenericOperation) (created : Bool) (ops : List GenericOperation)
      (s s' : State F I)
      → F.find j s.files ≡ none
      → eqb k j ≡ false
      → put_back M F I j op created ops s ≡ success s'
      → F.find k s'.files ≡ F.find k s.files
  unfolding put_back
  put_back-other k j op created [] s s' absent ne e = cc
  put_back-other k j op created (first ∷ rest) s s' absent ne e =
      elim (Bool-cases (removes first.body)) [
        | inl r ↦ put_single-other k j first s s' absent ne (rw r at e)
        | inr r ↦ elim (Bool-cases created) [
          | inl c ↦ let q : s ≡ s' = cc (rw (r, c) at e) in rw (← q) refl
          | inr c ↦ put_single-other k j op s s' absent ne (rw (r, c) at e)
        ]
      ]

  remove_file-other :
      (k j : CString) (op : GenericOperation) (found : Option FileOperations) (s s' : State F I)
      → F.find j s.files ≡ found
      → eqb k j ≡ false
      → remove_file M F I j op found s ≡ success s'
      → F.find k s'.files ≡ F.find k s.files
  unfolding remove_file
  remove_file-other k j op none s s' absent ne e = put_single-other k j op s s' absent ne e
  remove_file-other k j op (some f) s s' present ne e =
      put_back-other k j op f.created f.operations (record s { files = F.del j s.files }) s'
        (F.find-del j j s.files ∙ rw (eqb_refl j) refl) ne e
      ∙ F.find-del k j s.files
      ∙ rw ne refl

  find-place :
      (k j : CString) (g old : FileOperations) (s : State F I)
      → F.find j s.files ≡ some old
      → eqb k j ≡ false
      → F.find k (place M F I j g s).files ≡ F.find k s.files
  unfolding place
  find-place k j g old s present ne = elim (Bool-cases (eqb_ℤ g.order minus_one)) [
    | inl b ↦ rw b (F.find-update k j _ old s.files present ∙ rw ne refl)
    | inr b ↦ rw b (F.find-update k j g old s.files present ∙ rw ne refl)
  ]

  append_to-other :
      (k j : CString) (op : GenericOperation) (found : Option FileOperations) (s s' : State F I)
      → F.find j s.files ≡ found
      → eqb k j ≡ false
      → append_to M F I j op found s ≡ success s'
      → F.find k s'.files ≡ F.find k s.files
  unfolding append_to
  append_to-other k j op none s s' absent ne r =
      let (fresh, made, r₁) = >>=-success (initialize_fileop M j) _ r in
      let (f, grown, r₂) =
        >>=-success
          (extend_vector M (record fresh { order = pos s.fileorder; created = creates op.body })) _
          r₁ in
      let t : F.add j (append_operation f op) s.files ≡ s'.files = cc r₂ in
      rw (← t) (find-other k j (append_operation f op) s.files absent ne)
  append_to-other k j op (some old) s s' present ne r =
      let (f, grown, r₁) = >>=-success (extend_vector M old) _ r in
      let q : place M F I j (append_operation f op) s ≡ s' = cc r₁ in
      rw (← q) (find-place k j (append_operation f op) old s present ne)

  -- An operation leaves alone the entries of all other paths than the one it is kept for.
  pub add_operation-other :
      (k relpath : CString) (op : GenericOperation) (s s' : State F I)
      → eqb k (target relpath op.body) ≡ false
      → add_operation M F I relpath op s ≡ success s'
      → F.find k s'.files ≡ F.find k s.files
  unfolding add_operation add_numbered remove_numbered append_numbered
  add_operation-other k relpath op s s' ne e =
      let op' : GenericOperation = record op { id = some s.next_id } in
      let s₁ : State F I = record s { next_id = s.next_id + 1 } in
      elim (Bool-cases (removes op.body)) [
        | inl r ↦
            let (s₂, sorted, e₁) =
              >>=-success (sort_out_links M F I relpath op.body s₁) _ (rw r at e) in
            let same : s₂.files ≡ s.files =
              (sort_out_links-frame M F I relpath op.body s₁ s₂ sorted).0 in
            remove_file-other k relpath op' (F.find relpath s₂.files) s₂ s' refl
              (removes-target k relpath op.body r ne) e₁
            ∙ ap (F.find k) same
        | inr r ↦
            append_to-other k (target relpath op.body) op' (F.find (target relpath op.body) s.files)
              s₁ s' refl ne (rw r at e)
      ]
