-- ===== src/HashTable.antt =====
-- What syncedfs-daemon/client.c relies on of uthash (syncedfs-common/lib/uthash.h, a vendored
-- library): a table of entries under keys that the caller keeps distinct, walked in the order of
-- insertion.
pub mod Assoc
use syncedfs.Prelude.{
  ℕ, zero, suc, ◌≡◌, ◌↔◌, Bool, true, false, Option, none, some, List, [], if◌then◌else◌, length,
  All,
}

pub record HashTable (K V : Type 0) (same : K → K → Bool) : Type 1 where
  pub Table : Type 0
  pub empty : Table
  -- HASH_FIND
  pub find : K → Table → Option V
  -- HASH_ADD
  pub add : K → V → Table → Table
  -- HASH_DEL
  pub del : K → Table → Table
  -- an assignment to the fields of the entry that `find` points to
  pub update : K → V → Table → Table
  -- the entries from the head on, along `hh.next`
  pub entries : Table → List V
  pub find-empty : (k : K) → find k empty ≡ none
  pub find-add :
      (k j : K) (v : V) (t : Table)
      → find j t ≡ none
      → find k (add j v t) ≡ (if same k j then some v else find k t)
  pub find-del : (k j : K) (t : Table) → find k (del j t) ≡ (if same k j then none else find k t)
  pub find-update :
      (k j : K) (v w : V) (t : Table)
      → find j t ≡ some w
      → find k (update j v t) ≡ (if same k j then some v else find k t)
  pub entries-All :
      (P : V → Type 0) (k : K) (v : V) (t : Table) → find k t ≡ some v → All P (entries t) → P v
  pub entries-nil : (t : Table) → ((k : K) → find k t ≡ none) → entries t ≡ []
