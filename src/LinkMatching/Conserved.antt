-- ===== src/LinkMatching/Conserved.antt =====
-- syncedfs-daemon/client.c, `matchInodefiles`: no operation is lost.
use mathlib.Core.Path.{subst}
use mathlib.Core.List.{append_assoc, append-nil}
use syncedfs.Prelude.{
  ℕ, ◌≡◌, refl, sym, ◌∙◌, ◌⊎◌, inl, inr, none, some, List, [], ◌++◌, ◌==◌, if◌then◌else◌, arith,
  Bool-cases, ==_iff,
}
use syncedfs.CString.{CString, eqb, eqb_iff}
use syncedfs.Operation.{GenericOperation}
use syncedfs.HashTable.{HashTable}
use syncedfs.OperationLog.{FileOperations, Memory, success, State, merge_operations}

-- These operations stand next to each other in the others.
abbrev pub Within : List GenericOperation → List GenericOperation → Type 0
Within ops all =
    (pre : List GenericOperation) × (post : List GenericOperation) × (all ≡ pre ++ (ops ++ post))

Within-trans :
    (ops mid all : List GenericOperation) → Within ops mid → Within mid all → Within ops all
Within-trans ops mid all (pre, post, e) (before, behind, d) = (
  before ++ pre,
  post ++ behind,
  rw
      (
        d,
        e,
        append_assoc before pre (ops ++ (post ++ behind)),
        append_assoc pre (ops ++ post) behind,
        append_assoc ops post behind,
      )
      refl,
)

pub Within-left : (ops more all : List GenericOperation) → all ≡ ops ++ more → Within ops all
Within-left ops more all e = ([], more, e)

pub Within-right : (ops before all : List GenericOperation) → all ≡ before ++ ops → Within ops all
Within-right ops before all e = (before, [], rw (e, append-nil) refl)

module _ (M : Memory) (F : HashTable CString FileOperations eqb)
    (I : HashTable ℕ FileOperations ◌==◌) where
  -- The entry of some path holds these operations.
  abbrev pub Stands : List GenericOperation → State F I → Type 0
  Stands ops s =
      (path : CString) × (f : FileOperations) × (F.find path s.files ≡ some f)
      × Within ops f.operations

  -- The key of an entry is its path.
  abbrev pub IsKeyed : State F I → Type 0
  IsKeyed s =
      (path : CString) (f : FileOperations) → F.find path s.files ≡ some f → f.relpath ≡ path

  abbrev pub Present : CString → State F I → Type 0
  Present path s = (f : FileOperations) × (F.find path s.files ≡ some f)

  -- The matching of operations, from one state to the other.
  pub record Moves (s s' : State F I) : Type 0 where
    pub stands : (ops : List GenericOperation) → Stands ops s → Stands ops s'
    pub kept :
        (j : ℕ) (g : FileOperations)
        → I.find j s.inodefiles ≡ some g
        → (I.find j s'.inodefiles ≡ some g) ⊎ Stands g.operations s'
    pub still :
        (j : ℕ) (g : FileOperations)
        → I.find j s'.inodefiles ≡ some g
        → I.find j s.inodefiles ≡ some g
    pub present : (path : CString) → Present path s → Present path s'
    pub keyed : IsKeyed s → IsKeyed s'

  pub Moves-refl : (s : State F I) → Moves s s
  Moves-refl s = record {
    stands = λ ops h. h;
    kept = λ j g h. inl h;
    still = λ j g h. h;
    present = λ path h. h;
    keyed = λ h. h;
  }

  pub Moves-trans : (s t u : State F I) → Moves s t → Moves t u → Moves s u
  Moves-trans s t u m n = record {
    stands = λ ops h. n.stands ops (m.stands ops h);
    kept = λ j g h. elim (m.kept j g h) [
      | inl k ↦ n.kept j g k
      | inr k ↦ inr (n.stands g.operations k)
    ];
    still = λ j g h. m.still j g (n.still j g h);
    present = λ path h. n.present path (m.present path h);
    keyed = λ h. n.keyed (m.keyed h);
  }

  -- The entry of `path` becomes `new`, which holds what the i-node had.
  pub moved :
      (s s' : State F I) (path : CString) (new g : FileOperations) (key : ℕ)
      → ((k : CString) → F.find k s'.files ≡ (if eqb k path then some new else F.find k s.files))
      → ((k : ℕ) → I.find k s'.inodefiles ≡ (if k == key then none else I.find k s.inodefiles))
      → I.find key s.inodefiles ≡ some g
      → ((f : FileOperations) → F.find path s.files ≡ some f → Within f.operations new.operations)
      → Within g.operations new.operations
      → new.relpath ≡ path
      → Moves s s'
  moved s s' path new g key files inodes had old got same =
      let here : F.find path s'.files ≡ some new =
        files path ∙ rw ((eqb_iff path path).1 refl) refl in
      record {
        stands = λ ops (q, f, found, within). elim (Bool-cases (eqb q path)) [
          | inl y ↦
              let p : q ≡ path = (eqb_iff q path).0 y in
              (
                path,
                new,
                here,
                Within-trans ops f.operations new.operations within (old f (rw p at found)),
              )
          | inr n ↦ (q, f, files q ∙ rw n found, within)
        ];
        kept = λ j h found. elim (Bool-cases (j == key)) [
          | inl y ↦
              let p : j ≡ key = (==_iff j key).0 y in
              let q : g ≡ h = cc (had, rw p at found) in
              inr (
                path,
                new,
                here,
                subst (λ (x : FileOperations). Within x.operations new.operations) q got,
              )
          | inr n ↦ inl (inodes j ∙ rw n found)
        ];
        still = λ j h found. elim (Bool-cases (j == key)) [
          | inl y ↦ let e : none ≡ some h = sym (inodes j ∙ rw y refl) ∙ found in cc e
          | inr n ↦ sym (inodes j ∙ rw n refl) ∙ found
        ];
        present = λ q (f, found). elim (Bool-cases (eqb q path)) [
          | inl y ↦ (new, files q ∙ rw y refl)
          | inr n ↦ (f, files q ∙ rw n found)
        ];
        keyed = λ h q f found. elim (Bool-cases (eqb q path)) [
          | inl y ↦
              let p : q ≡ path = (eqb_iff q path).0 y in
              let e : new ≡ f = cc (here, rw p at found) in rw (← e) (same ∙ sym p)
          | inr n ↦ h q f (sym (files q ∙ rw n refl) ∙ found)
        ];
      }

  pub merge_operations-success :
      (f g merged : FileOperations)
      → merge_operations M f (some g) ≡ success merged
      → (merged.operations ≡ f.operations ++ g.operations) × (merged.relpath ≡ f.relpath)
  unfolding merge_operations
  merge_operations-success f g merged e = ground arith
