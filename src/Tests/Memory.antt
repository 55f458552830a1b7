-- ===== src/Tests/Memory.antt =====
-- A map held as a list of entries, which follows the laws of the maps.
use cw_it.Base.{
  ◌≡◌, inl, inr, refl, sym, ◌∙◌, Bool, true, false, none, List, [], ◌∷◌, ◌==◌, Eq, if◌then◌else◌,
  arith, ==-cases, ==-refl,
}
use cw_it.Chain.{Table, IsLawful, find, HasUniqueKeys}

module _ {K V : Type 0} ⦃e : Eq K⦄ where
  abbrev delete : K → List (K × V) → List (K × V)
  delete k [] = []
  delete k ((j, v) ∷ l) = let rest = delete k l in if k == j then rest else (j, v) ∷ rest

  -- The newest entry of each key.
  abbrev newest : List (K × V) → List (K × V)
  newest [] = []
  newest ((k, v) ∷ l) = (k, v) ∷ delete k (newest l)

  find-delete :
      (k j : K) (l : List (K × V)) → find j (delete k l) ≡ (if j == k then none else find j l)
  find-delete k j [] = ground arith
  find-delete k j ((i, v) ∷ l) = elim (==-cases k i) [
    | inl (here, same) ↦ elim (==-cases j k) [
      | inl (here', same') ↦ ground (arith, find-delete k j l)
      | inr there ↦ ground (arith, find-delete k j l, unlike same there)
    ]
    | inr there ↦ elim (==-cases j i) [
      | inl (here, same) ↦ ground (arith, unlike' same there)
      | inr there' ↦ ground (arith, find-delete k j l)
    ]
  ]
    where
      unlike : k ≡ i → (j == k) ≡ false → (j == i) ≡ false
      unlike same h = rw (← same) h

      unlike' : j ≡ i → (k == i) ≡ false → (j == k) ≡ false
      unlike' same h = elim (==-cases j k) [
        | inl (here, same') ↦ absurd (ground (arith, ==-refl i, twice same same'))
        | inr there ↦ there
      ]
        where
          twice : j ≡ i → j ≡ k → k ≡ i
          twice p q = sym q ∙ p

  delete_unique : (k : K) (l : List (K × V)) → HasUniqueKeys l → HasUniqueKeys (delete k l)
  delete_unique k [] u = tt
  delete_unique k ((j, v) ∷ l) (absent, u) = go (k == j) (delete_unique k l u)
    where
      go :
          (b : Bool)
          → HasUniqueKeys (delete k l)
          → HasUniqueKeys (if b then delete k l else (j, v) ∷ delete k l)
      go true rest = rest
      go false rest = (ground (arith, find-delete k j l), rest)

  find-newest : (k : K) (l : List (K × V)) → find k (newest l) ≡ find k l
  find-newest k [] = refl
  find-newest k ((j, v) ∷ l) = ground (arith, find-delete j k (newest l), find-newest k l)

  newest_unique : (l : List (K × V)) → HasUniqueKeys (newest l)
  newest_unique [] = tt
  newest_unique ((k, v) ∷ l) = (
    ground (arith, find-delete k k (newest l), ==-refl k),
    delete_unique k (newest l) (newest_unique l),
  )

abbrev pub memory : {K V : Type 0} ⦃e : Eq K⦄ → Table K V
memory {K} {V} = record {
  Rep = List (K × V);
  empty = [];
  may_load = λ t k. find k t;
  save = λ t k v. (k, v) ∷ t;
  remove = λ t k. delete k t;
  range = newest;
}

pub memory-IsLawful : {K V : Type 0} ⦃e : Eq K⦄ → IsLawful (memory {K = K} {V = V})
memory-IsLawful = record {
  load-empty = λ k. refl;
  load-save = λ t k j v. refl;
  load-remove = λ t k j. find-delete k j t;
  find-range = λ t k. find-newest k t;
  range_unique = newest_unique;
}
