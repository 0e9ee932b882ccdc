-- ===== src/OperationLog/Processing.antt =====
-- The loop of `loadLog`: `addOperation` over a whole log.
use mathlib.Core.Path.{subst}
use syncedfs.Prelude.{
  ℕ, suc, ◌+◌, ◌*◌, ◌≤◌, ◌≡◌, refl, inl, inr, sym, ◌∙◌, Bool, true, false, Option, none, some, List,
  [], ◌∷◌, ◌==◌, length, arith, Bool-cases,
}
use syncedfs.CString.{CString, eqb}
use syncedfs.Operation.{GenericOperation, Body, unlink}
use syncedfs.Optimize.Sizes.{writes_some}
use syncedfs.HashTable.{HashTable}
use syncedfs.OperationLog.{
  FileOperations, Memory, Attempt, success, failed, fault, State, removes, target,
  vector_init_capacity, initialize_fileop, extend_vector, sort_out_links, put_single, put_back,
  remove_file, place, append_to, remove_numbered, append_numbered, add_numbered, add_operation,
  add_operations, initial,
}
use syncedfs.OperationLog.Vector.{>>=-success, IsVector}
use syncedfs.OperationLog.Validity.{AreVectors, add_operation-AreVectors, sort_out_links-frame}

-- Every write of the log is of at least one byte.
abbrev pub WritesSome : List (CString × GenericOperation) → Type 0
WritesSome [] = Unit
WritesSome ((relpath, op) ∷ log) = (writes_some op.body ≡ true) × WritesSome log

abbrev pub keeps_link : Body → Bool
keeps_link (unlink false inode) = true
keeps_link _ = false

-- No unlink of the log leaves another link to the file.
abbrev pub UnlinksLast : List (CString × GenericOperation) → Type 0
UnlinksLast [] = Unit
UnlinksLast ((relpath, op) ∷ log) = (keeps_link op.body ≡ false) × UnlinksLast log

-- Allocation always succeeds.
pub record Plenty (M : Memory) : Type 0 where
  pub entry : M.entry ≡ true
  pub vector : (n : ℕ) → M.vector n ≡ true

abbrev is_success {ℓ} : {A : Type ℓ} → Attempt A → Bool
is_success (success a) = true
is_success failed = false
is_success fault = false

is_success-total {ℓ} :
    {A : Type ℓ} (r : Attempt A) → is_success r ≡ true → (a : A) × (r ≡ success a)
is_success-total (success a) e = (a, refl)
is_success-total failed e = cc
is_success-total fault e = cc

module _ (M : Memory) (F : HashTable CString FileOperations eqb)
    (I : HashTable ℕ FileOperations ◌==◌) where
  remove_file-next_id :
      (relpath : CString) (op : GenericOperation) (found : Option FileOperations) (s s' : State F I)
      → remove_file M F I relpath op found s ≡ success s'
      → s'.next_id ≡ s.next_id
  unfolding remove_file put_back put_single
  remove_file-next_id relpath op found s s' e = ground arith

  append_to-next_id :
      (relpath : CString) (op : GenericOperation) (found : Option FileOperations) (s s' : State F I)
      → append_to M F I relpath op found s ≡ success s'
      → s'.next_id ≡ s.next_id
  unfolding append_to place
  append_to-next_id relpath op found s s' e = ground arith

  add_operation-next_id :
      (relpath : CString) (op : GenericOperation) (s s' : State F I)
      → add_operation M F I relpath op s ≡ success s'
      → s'.next_id ≡ suc s.next_id
  unfolding add_operation add_numbered remove_numbered append_numbered
  add_operation-next_id relpath op s s' e =
      let op' : GenericOperation = record op { id = some s.next_id } in
      let s₁ : State F I = record s { next_id = s.next_id + 1 } in
      elim (Bool-cases (removes op.body)) [
        | inl r ↦
            let (s₂, sorted, e₁) =
              >>=-success (sort_out_links M F I relpath op.body s₁) _ (rw r at e) in
            remove_file-next_id relpath op' (F.find relpath s₂.files) s₂ s' e₁
            ∙ (sort_out_links-frame M F I relpath op.body s₁ s₂ sorted).2
            ∙ omega arith
        | inr r ↦
            append_to-next_id (target relpath op.body) op' (F.find (target relpath op.body) s.files)
              s₁ s' (rw r at e)
            ∙ omega arith
      ]

  pub add_operations-AreVectors :
      (log : List (CString × GenericOperation)) (s s' : State F I)
      → WritesSome log
      → AreVectors M F I s.next_id s.files
      → add_operations M F I log s ≡ success s'
      → AreVectors M F I s'.next_id s'.files
  unfolding add_operations
  add_operations-AreVectors [] s s' w h e =
      let q : s ≡ s' = cc e in subst (λ (s : State F I). AreVectors M F I s.next_id s.files) q h
  add_operations-AreVectors ((relpath, op) ∷ log) s s' w h e =
      let (s₁, first, rest) = >>=-success (add_operation M F I relpath op s) _ e in
      let more : AreVectors M F I (suc s.next_id) s₁.files =
        add_operation-AreVectors M F I relpath op s s₁ w.0 h first in
      add_operations-AreVectors log s₁ s' w.1
        (subst (λ n. AreVectors M F I n s₁.files)
          (sym (add_operation-next_id relpath op s s₁ first)) more)
        rest

  pub initial-AreVectors : AreVectors M F I 0 F.empty
  unfolding AreVectors
  initial-AreVectors k f e = cc (F.find-empty k)

  -- After a log without empty writes is loaded from the start, each entry of the table holds at
  -- least one operation and no more than its vector has slots, its operations are numbered in
  -- increasing order below the counter, and none of its writes is empty.
  pub add_operations-IsVector :
      (log : List (CString × GenericOperation)) (s : State F I) (path : CString)
      (f : FileOperations)
      → WritesSome log
      → add_operations M F I log (initial M F I) ≡ success s
      → F.find path s.files ≡ some f
      → IsVector s.next_id f
  unfolding AreVectors
  add_operations-IsVector log s path f w e found =
      add_operations-AreVectors log (initial M F I) s w initial-AreVectors e path f found

  put_back-total :
      (relpath : CString) (op : GenericOperation) (created : Bool) (ops : List GenericOperation)
      (s : State F I)
      → Plenty M
      → 1 ≤ length ops
      → is_success (put_back M F I relpath op created ops s) ≡ true
  unfolding put_back put_single initialize_fileop
  put_back-total relpath op created [] s p lt = ground arith
  put_back-total relpath op created (first ∷ rest) s p lt =
      rw (p.entry, p.vector vector_init_capacity) (ground arith)

  remove_file-total :
      (n : ℕ) (relpath : CString) (op : GenericOperation) (found : Option FileOperations)
      (s : State F I)
      → Plenty M
      → AreVectors M F I n s.files
      → F.find relpath s.files ≡ found
      → is_success (remove_file M F I relpath op found s) ≡ true
  unfolding remove_file AreVectors put_single initialize_fileop
  remove_file-total n relpath op none s p h e = rw (p.entry, p.vector vector_init_capacity) refl
  remove_file-total n relpath op (some f) s p h e =
      put_back-total relpath op f.created f.operations (record s { files = F.del relpath s.files })
        p (h relpath f e).left

  append_to-total :
      (path : CString) (op : GenericOperation) (found : Option FileOperations) (s : State F I)
      → Plenty M
      → is_success (append_to M F I path op found s) ≡ true
  unfolding append_to initialize_fileop extend_vector
  append_to-total path op none s p = rw (p.entry, p.vector vector_init_capacity) refl
  append_to-total path op (some old) s p = rw (p.vector (old.capacity * 2)) (ground arith)

  sort_out_links-total :
      (relpath : CString) (b : Body) (s : State F I)
      → keeps_link b ≡ false
      → is_success (sort_out_links M F I relpath b s) ≡ true
  unfolding sort_out_links
  sort_out_links-total relpath b s k = ground arith

  add_operation-total :
      (relpath : CString) (op : GenericOperation) (s : State F I)
      → Plenty M
      → keeps_link op.body ≡ false
      → AreVectors M F I s.next_id s.files
      → (s' : State F I) × (add_operation M F I relpath op s ≡ success s')
  unfolding add_operation add_numbered remove_numbered append_numbered
  add_operation-total relpath op s p k h =
      let op' : GenericOperation = record op { id = some s.next_id } in
      let s₁ : State F I = record s { next_id = s.next_id + 1 } in
      elim (Bool-cases (removes op.body)) [
        | inl r ↦
            let (s₂, sorted) =
              is_success-total (sort_out_links M F I relpath op.body s₁)
                (sort_out_links-total relpath op.body s₁ k) in
            let same : s₂.files ≡ s.files =
              (sort_out_links-frame M F I relpath op.body s₁ s₂ sorted).0 in
            let (s', e) =
              is_success-total (remove_file M F I relpath op' (F.find relpath s₂.files) s₂) (
                remove_file-total s.next_id relpath op' (F.find relpath s₂.files) s₂ p (rw same h)
                  refl) in
            (s', rw (r, sorted) e)
        | inr r ↦
            let (s', e) =
              is_success-total
                (append_to M F I (target relpath op.body) op'
                  (F.find (target relpath op.body) s.files) s₁)
                (append_to-total (target relpath op.body) op'
                  (F.find (target relpath op.body) s.files) s₁ p) in
            (s', rw r e)
      ]

  -- A log is loaded whole, without an error and without a read through NULL, if allocation succeeds,
  -- the log holds no empty write, and none of its unlinks leaves another link to the file.
  pub add_operations-total :
      (log : List (CString × GenericOperation)) (s : State F I)
      → Plenty M
      → WritesSome log
      → UnlinksLast log
      → AreVectors M F I s.next_id s.files
      → (s' : State F I) × (add_operations M F I log s ≡ success s')
  unfolding add_operations
  add_operations-total [] s p w k h = (s, refl)
  add_operations-total ((relpath, op) ∷ log) s p w k h =
      let (s₁, first) : (s' : State F I) × (add_operation M F I relpath op s ≡ success s') =
        add_operation-total relpath op s p k.0 h in
      let more : AreVectors M F I (suc s.next_id) s₁.files =
        add_operation-AreVectors M F I relpath op s s₁ w.0 h first in
      let (s', rest) : (s' : State F I) × (add_operations M F I log s₁ ≡ success s') =
        add_operations-total log s₁ p w.1 k.1 (
          subst (λ n. AreVectors M F I n s₁.files)
            (sym (add_operation-next_id relpath op s s₁ first)) more) in
      (s', rw first rest)
