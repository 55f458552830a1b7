-- ===== src/Tests/Pools.antt =====
-- Pools that are drawn.
use cw_it.Base.{ℕ, ◌-◌, ◌^◌, ◌≡◌, refl, true, none, List, [], ◌∷◌, contains, bytes_eq, arith}
use mathlib.Core.List.Perm
use cw_it.Text.{codes, print_u128}
use cw_it.Text.Order.{sort_by_key, text_leb, insert_sorted}
use cw_it.Chain.{Coin}
use cw_it.Osmosis.TestPool.{
  OsmosisTestPool, basic, balancer, pool_denoms, pool_denoms_with_one_specific, liquidity_of,
}
use cw_it.Osmosis.TestPool.Strategies.{
  Optionally, test_pools, test_pool, pool_with_denom, pool_liquidity, pool_liquidity_amounts,
  pool_type, test_pool_from_liquidity, pool_liquidity_with_one_specific_denom,
}
use cw_it.Osmosis.TestPool.Drawn.{
  HasTestPoolProperties, denoms_of, test_pools-HaveTestPoolProperties,
}

abbrev coin0 : Coin
coin0 = record { denom = codes "denom0"; amount = 0 }

abbrev coin1 : Coin
coin1 = record { denom = codes "denom1"; amount = 7 }

abbrev base_pool : OsmosisTestPool
base_pool = record { liquidity = coin0 ∷ coin1 ∷ []; pool_type = basic }

abbrev weighted_pool : OsmosisTestPool
weighted_pool = record { liquidity = coin0 ∷ coin1 ∷ []; pool_type = balancer (1 ∷ 3 ∷ []) none }

abbrev unshuffled : List ℕ
unshuffled = 0 ∷ 1 ∷ 2 ∷ 3 ∷ 4 ∷ 5 ∷ 6 ∷ 7 ∷ []

drawn_pools : test_pools none (base_pool, weighted_pool, none)
unfolding test_pools test_pool pool_with_denom pool_liquidity pool_liquidity_amounts pool_type
    test_pool_from_liquidity pool_liquidity_with_one_specific_denom pool_denoms
    pool_denoms_with_one_specific liquidity_of sort_by_key insert_sorted text_leb bytes_eq
    print_u128
drawn_pools = (
  coin0,
  coin1 ∷ [],
  (
    coin0 ∷ coin1 ∷ [],
    (
      0 ∷ 7 ∷ [],
      unshuffled,
      (omega arith, omega arith, (omega arith, omega arith, (omega arith, omega arith, tt))),
      Perm.refl _,
      refl,
    ),
    (refl, tt),
  ),
  refl,
  (
    (
      0 ∷ 7 ∷ [],
      unshuffled,
      codes "denom0" ∷ codes "denom1" ∷ [],
      (omega arith, omega arith, (omega arith, omega arith, (omega arith, omega arith, tt))),
      Perm.refl _,
      refl,
      refl,
    ),
    (refl, (omega arith, omega arith, (omega arith, omega arith, tt)), refl),
  ),
  tt,
)

test_pools-HaveTestPoolProperties_example :
    HasTestPoolProperties (0, 2 ^ 64 - 1) base_pool
    × ((first : Coin) × (others : List Coin) × (base_pool.liquidity ≡ first ∷ others)
        × HasTestPoolProperties (0, 2 ^ 64 - 1) weighted_pool
        × (contains (denoms_of weighted_pool.liquidity) first.denom ≡ true)
        × Optionally
            (λ pool.
              HasTestPoolProperties (0, 2 ^ 64 - 1) pool
              × (contains (denoms_of pool.liquidity) first.denom ≡ true))
            none)
test_pools-HaveTestPoolProperties_example =
    test_pools-HaveTestPoolProperties none base_pool weighted_pool none drawn_pools
