-- ===== src/Osmosis/TestPool/Strategies.antt =====
-- The generators of src/osmosis/test_pool.rs as what they can draw: a strategy is a predicate on
-- values.
use cw_it.Base.{
  ℕ, ◌-◌, ◌^◌, ◌<◌, ◌≤◌, ◌≡◌, Option, none, some, List, [], ◌∷◌, map, length, unwrap_or,
}
use mathlib.Core.List.{Perm}
use cw_it.Text.{Text}
use cw_it.Chain.{Coin, ok}
use cw_it.Osmosis.TestPool.{
  OsmosisPoolType, OsmosisTestPool, basic, balancer, stable_swap, max_pool_weight, pool_denoms,
  pool_denoms_with_one_common, pool_denoms_with_one_specific, liquidity_of, scaling_bounds,
}

abbrev pub Strategy : Type 0 → Type 1
Strategy A = A → Type 0

-- `vec(range, ..)`: each element is in the range, whose upper end is not.
abbrev pub Each : ℕ × ℕ → List ℕ → Type 0
Each (low, high) [] = Unit
Each (low, high) (n ∷ l) = (low ≤ n) × (n < high) × Each (low, high) l

-- `Just(Vec::from_iter(0..8)).prop_shuffle()`
abbrev pub Shuffled : Strategy (List ℕ)
Shuffled shuffled = Perm shuffled (0 ∷ 1 ∷ 2 ∷ 3 ∷ 4 ∷ 5 ∷ 6 ∷ 7 ∷ [])

unfoldable pub pool_liquidity_amounts : Option (ℕ × ℕ) → Strategy (List ℕ)
pool_liquidity_amounts liquidity_range amounts =
    (2 ≤ length amounts)
    × (length amounts < 8)
    × Each (unwrap_or liquidity_range (0, 2 ^ 64 - 1)) amounts

unfoldable pub pool_liquidity : Option (ℕ × ℕ) → Strategy (List Coin)
pool_liquidity liquidity_range coins =
    (amounts : List ℕ) × (shuffled : List ℕ) × pool_liquidity_amounts liquidity_range amounts
    × Shuffled shuffled
    × (coins ≡ liquidity_of amounts (pool_denoms (length amounts) shuffled))

unfoldable pub pool_liquidity_with_one_common_denom :
    List Coin → Option (ℕ × ℕ) → Strategy (List Coin)
pool_liquidity_with_one_common_denom base_liquidity liquidity_range coins =
    (amounts : List ℕ) × (shuffled : List ℕ) × (denoms : List Text) × pool_liquidity_amounts
      liquidity_range amounts
    × Shuffled shuffled
    × (pool_denoms_with_one_common (length amounts) (map (λ x. x.denom) base_liquidity) shuffled
        ≡ ok denoms)
    × (coins ≡ liquidity_of amounts denoms)

unfoldable pub pool_liquidity_with_one_specific_denom : Text → Option (ℕ × ℕ) → Strategy (List Coin)
pool_liquidity_with_one_specific_denom specific_denom liquidity_range coins =
    (amounts : List ℕ) × (shuffled : List ℕ) × (denoms : List Text) × pool_liquidity_amounts
      liquidity_range amounts
    × Shuffled shuffled
    × (pool_denoms_with_one_specific (length amounts) specific_denom shuffled ≡ ok denoms)
    × (coins ≡ liquidity_of amounts denoms)

-- One number from each of the ranges `1..bound`
abbrev pub Within : List ℕ → List ℕ → Type 0
Within [] [] = Unit
Within [] (f ∷ l) = ⊥
Within (bound ∷ bounds) [] = ⊥
Within (bound ∷ bounds) (f ∷ l) = (1 ≤ f) × (f < bound) × Within bounds l

unfoldable pub scaling_factors : List Coin → Strategy (List ℕ)
scaling_factors pool_liquidity = Within (scaling_bounds pool_liquidity)

unfoldable pub pool_params : Strategy (List Coin × List ℕ)
pool_params (liquidity, factors) = pool_liquidity none liquidity × scaling_factors liquidity factors

unfoldable pub pool_type : List Coin → Strategy OsmosisPoolType
pool_type pool_liquidity basic = Unit
pool_type pool_liquidity (balancer pool_weights params) =
    (length pool_weights ≡ length pool_liquidity)
    × Each (1, max_pool_weight) pool_weights
    × (params ≡ none)
pool_type pool_liquidity (stable_swap factors params) =
    scaling_factors pool_liquidity factors × (params ≡ none)

unfoldable pub test_pool_from_liquidity : List Coin → Strategy OsmosisTestPool
test_pool_from_liquidity pool_liquidity pool =
    (pool.liquidity ≡ pool_liquidity) × pool_type pool_liquidity pool.pool_type

unfoldable pub test_pool : Option (ℕ × ℕ) → Strategy OsmosisTestPool
test_pool liq_range pool =
    (liquidity : List Coin) × pool_liquidity liq_range liquidity
    × test_pool_from_liquidity liquidity pool

unfoldable pub reward_pool : OsmosisTestPool → Strategy OsmosisTestPool
reward_pool base_pool pool =
    pool_liquidity_with_one_common_denom base_pool.liquidity none pool.liquidity
    × pool_type pool.liquidity pool.pool_type

unfoldable pub pool_with_denom : Text → Option (ℕ × ℕ) → Strategy OsmosisTestPool
pool_with_denom specific_denom liq_range pool =
    pool_liquidity_with_one_specific_denom specific_denom liq_range pool.liquidity
    × pool_type pool.liquidity pool.pool_type

-- `option::of`
abbrev pub Optionally : {A : Type 0} → (A → Type 0) → Option A → Type 0
Optionally P none = Unit
Optionally P (some a) = P a

unfoldable pub test_pools :
    Option (ℕ × ℕ) → Strategy (OsmosisTestPool × OsmosisTestPool × Option OsmosisTestPool)
test_pools liq_range (base_pool, reward1_pool, reward2_pool) =
    (first : Coin) × (others : List Coin) × test_pool liq_range base_pool
    × (base_pool.liquidity ≡ first ∷ others)
    × pool_with_denom first.denom liq_range reward1_pool
    × Optionally (pool_with_denom first.denom liq_range) reward2_pool
