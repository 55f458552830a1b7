-- ===== src/Coreum/Query/Lists.antt =====
-- The answers that are lists hold what is stored and passes the filters, and nothing else.
use cw_it.Base.{◌≡◌, ◌↔◌, Bool, true, some, List, Eq, bytes_eq, pair_eq}
use mathlib.Core.List.{Memᴰ}
use cw_it.Text.{Text}
use cw_it.Chain.{Table, find}

module _ {K V X : Type 0} ⦃e : Eq K⦄ (wanted : K → V → Bool) (make : K → V → X) where
  -- `x` is made of an entry of the list that passes.
  abbrev Comes : List (K × V) → X → Type 0
  Comes l x = (k : K) × (v : V) × (find k l ≡ some v) × (wanted k v ≡ true) × (x ≡ make k v)

-- The list holds what is made of the entries that pass, all of them, and nothing else.
abbrev pub ListsExactly :
    {K V X : Type 0} (T : Table K V) → T.Rep → (K → V → Bool) → (K → V → X) → List X → Type 0
ListsExactly {K} {V} {X} T t wanted make xs =
    (x : X)
    → Memᴰ x xs
      ↔ ((k : K) × (v : V) × (T.may_load t k ≡ some v) × (wanted k v ≡ true) × (x ≡ make k v))
