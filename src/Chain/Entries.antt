-- ===== src/Chain/Entries.antt =====
-- How many entries of a map are of a kind: the count depends on what lookups answer only, not on
-- how the entries are listed.
use cw_it.Base.{
  ℕ, ◌+◌, ◌≡◌, refl, sym, ◌∙◌, Bool, Option, none, some, List, [], ◌∷◌, ◌==◌, Eq, if◌then◌else◌,
  arith, ==-cases, ==-refl, some-cancel, inl, inr, Bool-cases, Option-cases,
}
use cw_it.Chain.Storage.{find, HasUniqueKeys, Table, IsLawful}

module _ {K V : Type 0} ⦃e : Eq K⦄ where
  -- The list without the first entry of the key.
  abbrev pub without : K → List (K × V) → List (K × V)
  without k [] = []
  without k ((j, v) ∷ l) = let rest = without k l in if k == j then l else (j, v) ∷ rest

  pub find-without :
      (k j : K) (l : List (K × V))
      → HasUniqueKeys l
      → find j (without k l) ≡ (if j == k then none else find j l)
  find-without k j [] unique = ground arith
  find-without k j ((i, v) ∷ l) (new, unique) = ground (arith, new, find-without k j l unique)

  pub without-HasUniqueKeys :
      (k : K) (l : List (K × V)) → HasUniqueKeys l → HasUniqueKeys (without k l)
  without-HasUniqueKeys k [] unique = tt
  without-HasUniqueKeys k ((i, v) ∷ l) (new, unique) = elim (Bool-cases (k == i)) [
    | inl here ↦ rw here unique
    | inr there ↦
        rw there (ground (arith, find-without k i l unique, new), without-HasUniqueKeys k l unique)
  ]

  without-absent : (k : K) (l : List (K × V)) → find k l ≡ none → without k l ≡ l
  without-absent k [] h = refl
  without-absent k ((j, v) ∷ l) h = ground (arith, h, without-absent k l)

  module _ (P : K → V → Bool) where
    abbrev pub one_if : K → V → ℕ
    one_if k v = if P k v then 1 else 0

    abbrev pub count_by : List (K × V) → ℕ
    count_by [] = 0
    count_by ((k, v) ∷ l) = let rest = count_by l in one_if k v + rest

    pub count_by-without :
        (k : K) (v : V) (l : List (K × V))
        → find k l ≡ some v
        → count_by l ≡ one_if k v + count_by (without k l)
    count_by-without k v [] h = absurd (ground (arith, h))
    count_by-without k v ((j, w) ∷ l) h = elim (==-cases k j) [
      | inl (here, same) ↦
          let equal : w ≡ v = some-cancel (rw here at h) in rw (here, equal, same) refl
      | inr there ↦ ground (arith, there, h, count_by-without k v l)
    ]

    pub count_by-same_find :
        (l m : List (K × V))
        → HasUniqueKeys l
        → HasUniqueKeys m
        → ((j : K) → find j l ≡ find j m)
        → count_by l ≡ count_by m
    count_by-same_find [] [] ul um same = refl
    count_by-same_find [] ((k, v) ∷ m) ul um same = absurd (ground (arith, same k, ==-refl k))
    count_by-same_find ((k, v) ∷ l) m (new, ul) um same =
        let found : find k m ≡ some v = sym (same k) ∙ ground (arith, ==-refl k) in
        let rest =
          count_by-same_find l (without k m) ul (without-HasUniqueKeys k m um)
            (λ j. ground (arith, same j, new, find-without k j m um, ==-cases j k)) in
        ground (arith, rest, count_by-without k v m found)

  module _ (P : K → V → Bool) where
    abbrev pub counted : Option V → K → ℕ
    counted none k = 0
    counted (some v) k = one_if P k v

    count_by-split :
        (k : K) (l : List (K × V)) → count_by P l ≡ counted (find k l) k + count_by P (without k l)
    count_by-split k l = elim (Option-cases (find k l)) [
      | inl absent ↦ ground (arith, absent, without-absent k l absent)
      | inr (v, found) ↦ rw found (count_by-without P k v l found)
    ]

    module _ (T : Table K V) (lawful : IsLawful T) (t t' : T.Rep) (k : K) where
      -- If the lookups of two maps agree but at one key, their counts differ by its two entries.
      pub count_by-changed :
          (now : Option V)
          → ((j : K) → T.may_load t' j ≡ (if j == k then now else T.may_load t j))
          → count_by P (T.range t') + counted (T.may_load t k) k
            ≡ count_by P (T.range t) + counted now k
      count_by-changed none changed =
          let l = T.range t in
          let gone =
            count_by-same_find P (T.range t') (without k l) (lawful.range_unique t')
              (without-HasUniqueKeys k l (lawful.range_unique t))
              (λ j.
                lawful.find-range t' j
                ∙ changed j
                ∙ ground
                    (arith, find-without k j l (lawful.range_unique t), lawful.find-range t j)) in
          ground (arith, gone, count_by-split k l, lawful.find-range t k)
      count_by-changed (some v) changed =
          let l = T.range t in
          let there =
            count_by-same_find P (T.range t') ((k, v) ∷ without k l) (lawful.range_unique t')
              (
                ground (arith, find-without k k l (lawful.range_unique t), ==-refl k),
                without-HasUniqueKeys k l (lawful.range_unique t),
              )
              (λ j.
                lawful.find-range t' j
                ∙ changed j
                ∙ ground
                    (arith, find-without k j l (lawful.range_unique t), lawful.find-range t j)) in
          ground (arith, there, count_by-split k l, lawful.find-range t k)
