-- ===== src/OperationLog/Validity.antt =====
-- `addOperation` of syncedfs-daemon/client.c, stage by stage, on vectors that are not empty, fit into
-- their capacity, and are numbered in increasing order.
use mathlib.Core.Path.{subst}
use syncedfs.Prelude.{
  ℕ, suc, ◌+◌, ◌≤◌, ◌<◌, ◌≡◌, refl, inl, inr, sym, ◌∙◌, ap, Bool, true, false, Option, none, some,
  List, [], ◌∷◌, ◌==◌, if◌then◌else◌, length, arith, Bool-cases,
}
use syncedfs.Prelude.Int.{pos, minus_one, eqb_ℤ}
use syncedfs.CString.{CString, eqb, eqb_refl}
use syncedfs.Operation.{GenericOperation, Body}
use syncedfs.Optimize.Sizes.{WriteSome, writes_some}
use syncedfs.HashTable.{HashTable}
use syncedfs.OperationLog.{
  FileOperations, Memory, success, State, entry_of, removes, creates, target, append_operation,
  initialize_fileop, extend_vector, sort_out_links, put_single, put_back, remove_file, place,
  append_to, remove_numbered, append_numbered, add_numbered, add_operation, keep_operations,
  discard_operations,
}
use syncedfs.OperationLog.Vector.{
  >>=-success, NumberedBelow, IsVector, IsVector-mono, IsVector-append, initialize_fileop-success,
  extend_vector-room,
}

module _ (M : Memory) (F : HashTable CString FileOperations eqb)
    (I : HashTable ℕ FileOperations ◌==◌) where
  -- Every entry of `files` is a vector with numbers below `n`.
  unfoldable pub AreVectors : ℕ → F.Table → Type 0
  AreVectors n t = (k : CString) (f : FileOperations) → F.find k t ≡ some f → IsVector n f

  AreVectors-mono : (n : ℕ) (t : F.Table) → AreVectors n t → AreVectors (suc n) t
  unfolding AreVectors
  AreVectors-mono n t h k f e = IsVector-mono n (h k f e)

  AreVectors-add :
      (n : ℕ) (t : F.Table) (j : CString) (g : FileOperations)
      → F.find j t ≡ none
      → IsVector n g
      → AreVectors n t
      → AreVectors n (F.add j g t)
  unfolding AreVectors
  AreVectors-add n t j g absent v h k f e = choose (eqb k j) (sym (F.find-add k j g t absent) ∙ e)
    where
      choose : (b : Bool) → (if b then some g else F.find k t) ≡ some f → IsVector n f
      choose true p = let q : g ≡ f = cc in subst (IsVector n) q v
      choose false p = h k f p

  AreVectors-update :
      (n : ℕ) (t : F.Table) (j : CString) (g old : FileOperations)
      → F.find j t ≡ some old
      → IsVector n g
      → AreVectors n t
      → AreVectors n (F.update j g t)
  unfolding AreVectors
  AreVectors-update n t j g old found v h k f e =
      choose (eqb k j) (sym (F.find-update k j g old t found) ∙ e)
    where
      choose : (b : Bool) → (if b then some g else F.find k t) ≡ some f → IsVector n f
      choose true p = let q : g ≡ f = cc in subst (IsVector n) q v
      choose false p = h k f p

  AreVectors-del : (n : ℕ) (t : F.Table) (j : CString) → AreVectors n t → AreVectors n (F.del j t)
  unfolding AreVectors
  AreVectors-del n t j h k f e = choose (eqb k j) (sym (F.find-del k j t) ∙ e)
    where
      choose : (b : Bool) → (if b then none else F.find k t) ≡ some f → IsVector n f
      choose true p = cc
      choose false p = h k f p

  abbrev pub single : CString → GenericOperation → FileOperations
  single relpath op = record (entry_of relpath [] minus_one false) { operations = op ∷ [] }

  pub put_single-success :
      (relpath : CString) (op : GenericOperation) (s s' : State F I)
      → put_single M F I relpath op s ≡ success s'
      → record s { files = F.add relpath (single relpath op) s.files } ≡ s'
  unfolding put_single
  put_single-success relpath op s s' e = ground arith

  put_single-AreVectors :
      (n : ℕ) (relpath : CString) (op : GenericOperation) (s s' : State F I)
      → AreVectors n s.files
      → F.find relpath s.files ≡ none
      → NumberedBelow n 0 (op ∷ [])
      → writes_some op.body ≡ true
      → put_single M F I relpath op s ≡ success s'
      → AreVectors n s'.files
  put_single-AreVectors n relpath op s s' h absent numbered w e =
      rw (← put_single-success relpath op s s' e) (
        AreVectors-add n s.files relpath (single relpath op) absent
          (record {
            left = omega arith;
            fits = omega arith;
            numbered = numbered;
            nonempty = (w, tt);
          })
          h)

  NumberedBelow-first :
      (n : ℕ) (op : GenericOperation) (ops : List GenericOperation)
      → NumberedBelow n 0 (op ∷ ops)
      → NumberedBelow n 0 (op ∷ [])
  NumberedBelow-first n op ops (j, e, le, h) = (j, e, le, below (suc j) ops h)
    where
      below : (i : ℕ) (ops : List GenericOperation) → NumberedBelow n i ops → i ≤ n
      below i [] h = h
      below i (q ∷ ops) (j, e, le, h) = let b : suc j ≤ n = below (suc j) ops h in omega arith

  put_back-AreVectors :
      (n : ℕ) (relpath : CString) (op : GenericOperation) (created : Bool)
      (ops : List GenericOperation) (s s' : State F I)
      → AreVectors n s.files
      → F.find relpath s.files ≡ none
      → NumberedBelow n 0 ops
      → WriteSome ops
      → NumberedBelow n 0 (op ∷ [])
      → writes_some op.body ≡ true
      → put_back M F I relpath op created ops s ≡ success s'
      → AreVectors n s'.files
  unfolding put_back
  put_back-AreVectors n relpath op created [] s s' h absent old oldw new w e = cc
  put_back-AreVectors n relpath op created (first ∷ rest) s s' h absent old oldw new w e =
      elim (Bool-cases (removes first.body)) [
        | inl r ↦
            put_single-AreVectors n relpath first s s' h absent
              (NumberedBelow-first n first rest old) oldw.0 (rw r at e)
        | inr r ↦ elim (Bool-cases created) [
          | inl c ↦ let q : s ≡ s' = cc (rw (r, c) at e) in rw (← q) h
          | inr c ↦ put_single-AreVectors n relpath op s s' h absent new w (rw (r, c) at e)
        ]
      ]

  -- `addOperation` removes the entry of an unlinked file before it puts one back.
  remove_file-AreVectors :
      (n : ℕ) (relpath : CString) (op : GenericOperation) (found : Option FileOperations)
      (s s' : State F I)
      → AreVectors n s.files
      → F.find relpath s.files ≡ found
      → op.id ≡ some n
      → writes_some op.body ≡ true
      → remove_file M F I relpath op found s ≡ success s'
      → AreVectors (suc n) s'.files
  unfolding remove_file AreVectors
  remove_file-AreVectors n relpath op none s s' h absent e w r =
      put_single-AreVectors (suc n) relpath op s s' (AreVectors-mono n s.files h) absent
        (n, e, omega arith, omega arith) w r
  remove_file-AreVectors n relpath op (some f) s s' h present e w r =
      let v = IsVector-mono n (h relpath f present) in
      put_back-AreVectors (suc n) relpath op f.created f.operations
        (record s { files = F.del relpath s.files }) s'
        (AreVectors-del (suc n) s.files relpath (AreVectors-mono n s.files h))
        (F.find-del relpath relpath s.files ∙ rw (eqb_refl relpath)) v.numbered v.nonempty
        (n, e, omega arith, omega arith) w r

  -- `place` writes over the entry of a path that has one; a new `order` leaves it valid.
  place-AreVectors :
      (n : ℕ) (path : CString) (g old : FileOperations) (s : State F I)
      → F.find path s.files ≡ some old
      → IsVector n g
      → AreVectors n s.files
      → AreVectors n (place M F I path g s).files
  unfolding place
  place-AreVectors n path g old s present v h = elim (Bool-cases (eqb_ℤ g.order minus_one)) [
    | inl b ↦ rw b (
        AreVectors-update n s.files path (record g { order = pos s.fileorder }) old present
          (record { left = v.left; fits = v.fits; numbered = v.numbered; nonempty = v.nonempty }) h)
    | inr b ↦ rw b (AreVectors-update n s.files path g old present v h)
  ]

  append_to-AreVectors :
      (n : ℕ) (path : CString) (op : GenericOperation) (found : Option FileOperations)
      (s s' : State F I)
      → AreVectors n s.files
      → F.find path s.files ≡ found
      → op.id ≡ some n
      → writes_some op.body ≡ true
      → append_to M F I path op found s ≡ success s'
      → AreVectors (suc n) s'.files
  unfolding append_to AreVectors
  append_to-AreVectors n path op none s s' h absent e w r =
      let (fresh, made, r₁) = >>=-success (initialize_fileop M path) _ r in
      let q : fresh ≡ entry_of path [] minus_one false =
        initialize_fileop-success M path fresh made in
      let g : FileOperations = record fresh {
        order = pos s.fileorder;
        created = creates op.body;
      } in
      let lt : 1 ≤ g.capacity = rw q (omega arith) in
      let fits : length g.operations ≤ g.capacity = rw q (omega arith) in
      let (f, grown, r₂) = >>=-success (extend_vector M g) _ r₁ in
      let (ops, room) : (f.operations ≡ g.operations) × (length f.operations < f.capacity) =
        extend_vector-room M g f lt fits grown in
      let none_yet : f.operations ≡ [] = ops ∙ ap (λ (g : FileOperations). g.operations) q in
      let t : F.add path (append_operation f op) s.files ≡ s'.files = cc r₂ in
      rw (← t) (
        AreVectors-add (suc n) s.files path (append_operation f op) absent
          (IsVector-append n f op e w room (rw none_yet (omega arith)) (rw none_yet tt))
          (AreVectors-mono n s.files h))
  append_to-AreVectors n path op (some old) s s' h present e w r =
      let v : IsVector n old = h path old present in
      let (f, grown, r₁) = >>=-success (extend_vector M old) _ r in
      let (ops, room) : (f.operations ≡ old.operations) × (length f.operations < f.capacity) =
        extend_vector-room M old f (omega (arith, v.left, v.fits)) v.fits grown in
      let q : place M F I path (append_operation f op) s ≡ s' = cc r₁ in
      rw (← q) (
        place-AreVectors (suc n) path (append_operation f op) old s present
          (IsVector-append n f op e w room (rw ops v.numbered) (rw ops v.nonempty))
          (AreVectors-mono n s.files h))

  -- Links are sorted out in the table of i-nodes alone.
  pub sort_out_links-frame :
      (relpath : CString) (b : Body) (s s' : State F I)
      → sort_out_links M F I relpath b s ≡ success s'
      → (s'.files ≡ s.files) × (s'.fileorder ≡ s.fileorder) × (s'.next_id ≡ s.next_id)
  unfolding sort_out_links keep_operations discard_operations
  sort_out_links-frame relpath b s s' r = ground (arith)

  -- One operation more: its number is the counter, and the counter goes up.
  pub add_operation-AreVectors :
      (relpath : CString) (op : GenericOperation) (s s' : State F I)
      → writes_some op.body ≡ true
      → AreVectors s.next_id s.files
      → add_operation M F I relpath op s ≡ success s'
      → AreVectors (suc s.next_id) s'.files
  unfolding add_operation add_numbered remove_numbered append_numbered
  add_operation-AreVectors relpath op s s' w h e =
      let op' : GenericOperation = record op { id = some s.next_id } in
      let s₁ : State F I = record s { next_id = s.next_id + 1 } in
      elim (Bool-cases (removes op.body)) [
        | inl r ↦
            let (s₂, sorted, e₁) =
              >>=-success (sort_out_links M F I relpath op.body s₁) _ (rw r at e) in
            let same : s₂.files ≡ s.files = (sort_out_links-frame relpath op.body s₁ s₂ sorted).0 in
            remove_file-AreVectors s.next_id relpath op' (F.find relpath s₂.files) s₂ s' (rw same h)
              refl refl w e₁
        | inr r ↦
            append_to-AreVectors s.next_id (target relpath op.body) op'
              (F.find (target relpath op.body) s.files) s₁ s' h refl refl w (rw r at e)
      ]
