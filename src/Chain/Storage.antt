-- ===== src/Chain/Storage.antt =====
-- `cw_storage_plus::Map` in one namespace of the storage, which is code outside this repository.
-- The tables are read and written only as values of their type, so a load never fails to decode.
use cw_it.Base.{◌≡◌, Option, none, some, List, [], ◌∷◌, ◌==◌, Eq, if◌then◌else◌}

pub record Table (K V : Type 0) : Type 1 where
  pub Rep : Type 0
  pub empty : Rep
  pub may_load : Rep → K → Option V
  pub save : Rep → K → V → Rep
  pub remove : Rep → K → Rep
  -- The entries in ascending order of the key.
  pub range : Rep → List (K × V)

module _ {K V : Type 0} ⦃e : Eq K⦄ where
  -- The value that a list of entries gives a key.
  abbrev pub find : K → List (K × V) → Option V
  find k [] = none
  find k ((j, v) ∷ l) = if k == j then some v else find k l

  -- No key is listed twice.
  abbrev pub HasUniqueKeys : List (K × V) → Type 0
  HasUniqueKeys [] = Unit
  HasUniqueKeys ((k, _) ∷ l) = (find k l ≡ none) × HasUniqueKeys l

-- The documented behaviour of a map.
pub record IsLawful {K V : Type 0} ⦃e : Eq K⦄ (T : Table K V) : Type 0 where
  pub load-empty : (k : K) → T.may_load T.empty k ≡ none
  pub load-save :
      (t : T.Rep) (k j : K) (v : V)
      → T.may_load (T.save t k v) j ≡ (if j == k then some v else T.may_load t j)
  pub load-remove :
      (t : T.Rep) (k j : K)
      → T.may_load (T.remove t k) j ≡ (if j == k then none else T.may_load t j)
  pub find-range : (t : T.Rep) (k : K) → find k (T.range t) ≡ T.may_load t k
  pub range_unique : (t : T.Rep) → HasUniqueKeys (T.range t)
