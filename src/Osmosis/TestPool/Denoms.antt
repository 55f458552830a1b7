-- ===== src/Osmosis/TestPool/Denoms.antt =====
-- The denoms of the generated pools.
use cw_it.Base.{
  ℕ, zero, suc, ◌<◌, ◌≤◌, ◌≡◌, refl, ap, ◌∙◌, true, List, [], ◌∷◌, map, bytes_eq, contains, length,
  arith, Bool-cases, inl, inr, ==-refl,
}
use cw_it.Text.{Text}
use cw_it.Text.Order.{insert_sorted, sort_by_key, IsSortedBy, sort_by_key-IsSortedBy}
use cw_it.Chain.{ok}
use cw_it.Osmosis.TestPool.{take, sorted, pool_denoms, pool_denoms_with_one_specific, replace_first}

length-insert_sorted :
    (a : Text) (l : List Text) → length (insert_sorted (λ d. d) a l) ≡ suc (length l)
unfolding insert_sorted
length-insert_sorted a [] = refl
length-insert_sorted a (b ∷ l) = ground (arith, length-insert_sorted a l)

length-sorted : (l : List Text) → length (sorted l) ≡ length l
unfolding sort_by_key
length-sorted [] = refl
length-sorted (a ∷ l) = length-insert_sorted a (sorted l) ∙ ap suc (length-sorted l)

contains-insert_sorted : (a : Text) (l : List Text) → contains (insert_sorted (λ d. d) a l) a ≡ true
unfolding insert_sorted bytes_eq
contains-insert_sorted a [] = ground (arith, ==-refl a)
contains-insert_sorted a (b ∷ l) = ground (arith, contains-insert_sorted a l, ==-refl a)

length-take : {A : Type 0} (n : ℕ) (l : List A) → n ≤ length l → length (take n l) ≡ n
unfolding take
length-take zero l h = refl
length-take (suc n) [] h = absurd (omega arith)
length-take (suc n) (x ∷ l) h = ap suc (length-take n l (omega arith))

pub length-map : {A B : Type 0} (f : A → B) (l : List A) → length (map f l) ≡ length l
length-map f [] = refl
length-map f (x ∷ l) = ap suc (length-map f l)

pub length-pool_denoms :
    (count : ℕ) (shuffled : List ℕ)
    → count ≤ length shuffled
    → length (pool_denoms count shuffled) ≡ count
unfolding pool_denoms
length-pool_denoms count shuffled h =
    length-sorted _ ∙ length-map _ (take count shuffled) ∙ length-take count shuffled h

replace_first-ok :
    (d : Text) (l : List Text)
    → 0 < length l
    → (r : List Text) × (replace_first d l ≡ ok r)
      × IsSortedBy (λ d. d) r
      × (length r ≡ length l)
      × (contains r d ≡ true)
unfolding sort_by_key
replace_first-ok d [] h = absurd (omega arith)
replace_first-ok d (a ∷ l) h = (
  sorted (d ∷ l),
  refl,
  sort_by_key-IsSortedBy (λ d. d) (d ∷ l),
  length-sorted (d ∷ l),
  contains-insert_sorted d (sorted l),
)

-- If the count is positive and not larger than the number of shuffled indices, then
-- `pool_denoms_with_one_specific` gives as many denoms as it says, in order, with the specific
-- denom among them.
pub pool_denoms_with_one_specific_has_it :
    (count : ℕ) (specific_denom : Text) (shuffled : List ℕ)
    → 0 < count
    → count ≤ length shuffled
    → (denoms : List Text) × (pool_denoms_with_one_specific count specific_denom shuffled
        ≡ ok denoms)
      × IsSortedBy (λ d. d) denoms
      × (length denoms ≡ count)
      × (contains denoms specific_denom ≡ true)
unfolding pool_denoms_with_one_specific bytes_eq
pool_denoms_with_one_specific_has_it count specific_denom shuffled pos enough =
    elim (Bool-cases (contains (pool_denoms count shuffled) specific_denom)) [
      | inl has ↦ (
        pool_denoms count shuffled,
        rw has refl,
        (unfold pool_denoms in sort_by_key-IsSortedBy (λ d. d) _),
        length-pool_denoms count shuffled enough,
        has,
      )
      | inr lacks ↦
          let same = length-pool_denoms count shuffled enough in
          let (r, replaced, in_order, len, has) =
            replace_first-ok specific_denom (pool_denoms count shuffled) (omega arith) in
          (r, rw lacks replaced, in_order, len ∙ same, has)
    ]
