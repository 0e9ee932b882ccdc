-- ===== src/HashTable/Assoc.antt =====
-- An association list meets the assumptions of `HashTable`.
use syncedfs.Prelude.{
  ◌≡◌, refl, ◌↔◌, Bool, true, Option, none, some, List, [], ◌∷◌, ◌++◌, if◌then◌else◌, arith, All,
  Bool-cases, inl, inr,
}
use mathlib.Core.Path.{subst}
use syncedfs.HashTable.{HashTable}

module _ {K V : Type 0} (same : K → K → Bool) where
  unfoldable pub lookup : K → List (K × V) → Option V
  lookup k [] = none
  lookup k ((j, v) ∷ t) = if same k j then some v else lookup k t

  unfoldable pub without : K → List (K × V) → List (K × V)
  without k [] = []
  without k ((j, v) ∷ t) = let rest = without k t in if same k j then rest else (j, v) ∷ rest

  unfoldable pub replace : K → V → List (K × V) → List (K × V)
  replace k w [] = []
  replace k w ((j, v) ∷ t) = (j, if same k j then w else v) ∷ replace k w t

  unfoldable pub values : List (K × V) → List V
  values [] = []
  values ((j, v) ∷ t) = v ∷ values t

module _ {K V : Type 0} (same : K → K → Bool)
    (same_iff : (a b : K) → (same a b ≡ true) ↔ (a ≡ b)) where
  pub nothing : (k : K) → lookup {V = V} same k [] ≡ none
  unfolding lookup
  nothing k = refl

  pub lookup-append :
      (k j : K) (v : V) (t : List (K × V))
      → lookup same j t ≡ none
      → lookup same k (t ++ (j, v) ∷ []) ≡ (if same k j then some v else lookup same k t)
  unfolding lookup
  lookup-append k j v [] h = refl
  lookup-append k j v ((i, w) ∷ t) h =
      ground (arith, lookup-append k j v t, same_iff k i, same_iff k j, same_iff j i)

  pub lookup-without :
      (k j : K) (t : List (K × V))
      → lookup same k (without same j t) ≡ (if same k j then none else lookup same k t)
  unfolding lookup without
  lookup-without k j [] = ground arith
  lookup-without k j ((i, w) ∷ t) =
      ground (arith, lookup-without k j t, same_iff k i, same_iff k j, same_iff j i)

  abbrev overwrite : Option V → V → Option V
  overwrite none v = none
  overwrite (some w) v = some v

  lookup-replace_all :
      (k j : K) (v : V) (t : List (K × V))
      → lookup same k (replace same j v t)
        ≡ (if same k j then overwrite (lookup same j t) v else lookup same k t)
  unfolding lookup replace
  lookup-replace_all k j v [] = ground arith
  lookup-replace_all k j v ((i, u) ∷ t) =
      ground (arith, lookup-replace_all k j v t, same_iff k i, same_iff k j, same_iff j i)

  pub lookup-replace :
      (k j : K) (v w : V) (t : List (K × V))
      → lookup same j t ≡ some w
      → lookup same k (replace same j v t) ≡ (if same k j then some v else lookup same k t)
  lookup-replace k j v w t h = rw lookup-replace_all (rw h)

  pub values-All :
      (P : V → Type 0) (k : K) (v : V) (t : List (K × V))
      → lookup same k t ≡ some v
      → All P (values same t)
      → P v
  unfolding lookup values
  values-All P k v [] e h = cc e
  values-All P k v ((j, w) ∷ t) e h = elim (Bool-cases (same k j)) [
    | inl y ↦ let q : w ≡ v = cc (rw y at e) in subst P q h.0
    | inr n ↦ values-All P k v t (rw n at e) h.1
  ]

  pub values-nil : (t : List (K × V)) → ((k : K) → lookup same k t ≡ none) → values same t ≡ []
  unfolding lookup values
  values-nil [] h = refl
  values-nil ((j, w) ∷ t) h = let e = h j in cc (rw ((same_iff j j).1 refl) at e)

  -- The table as uthash keeps it: new entries go to the end.
  abbrev pub assoc_table : HashTable K V same
  assoc_table = record {
    Table = List (K × V);
    empty = [];
    find = lookup same;
    add = λ k v t. t ++ (k, v) ∷ [];
    del = without same;
    update = replace same;
    entries = values same;
    find-empty = nothing;
    find-add = λ k j v t h. lookup-append k j v t h;
    find-del = lookup-without;
    find-update = lookup-replace;
    entries-All = values-All;
    entries-nil = values-nil;
  }
