-- ===== src/Osmosis/TestPool.antt =====
-- The test pools of Osmosis, src/osmosis/test_pool.rs: their creation, and the generators of random
-- pools as functions of what proptest draws.
pub mod Denoms
pub mod Strategies
pub mod Drawn
pub mod Factors
use cw_it.Base.{
  ℕ, zero, suc, ◌-◌, ◌^◌, Bool, true, false, Option, none, some, List, [], ◌∷◌, ◌++◌, map, bytes_eq,
  contains, length, ltb, if◌then◌else◌,
}
use cw_it.Text.{Text, codes, print_u128}
use cw_it.Text.Order.{sort_by_key}
use cw_it.Chain.{Coin, Result, ok, panicked, Action, unwrap}
use cw_it.Client.{Account}
use cw_it.Helpers.{ConstCoin, from_const_coin}
use cw_it.UnifiedStargate.{to_proto}
use cw_it.Osmosis.Types.{
  PoolParams, PoolAsset, MsgCreateBalancerPool, MsgCreateStableswapPool, Gamm,
}

abbrev pub max_scale_factor : ℕ
max_scale_factor = 2 ^ 63 - 1

abbrev pub max_pool_weight : ℕ
max_pool_weight = 1_048_575

pub data OsmosisPoolType : Type 0 where
  basic : OsmosisPoolType
  balancer : (pool_weights : List ℕ) → (pool_params : Option PoolParams) → OsmosisPoolType
  stable_swap : (scaling_factors : List ℕ) → (pool_params : Option PoolParams) → OsmosisPoolType

pub record OsmosisTestPool : Type 0 where
  pub liquidity : List Coin
  pub pool_type : OsmosisPoolType

pub record ConstOsmosisTestPool : Type 0 where
  pub liquidity : List ConstCoin
  pub pool_type : OsmosisPoolType

-- `OsmosisTestPool::from`
unfoldable pub from_const_pool : ConstOsmosisTestPool → OsmosisTestPool
from_const_pool pool = record {
  liquidity = map from_const_coin pool.liquidity;
  pool_type = pool.pool_type;
}

abbrev pub default_pool_params : PoolParams
default_pool_params = record { swap_fee = codes "200000000000000000"; exit_fee = codes "0" }

abbrev pub default_stableswap_pool_params : PoolParams
default_stableswap_pool_params = record {
  swap_fee = codes "200000000000000000";
  exit_fee = codes "0";
}

abbrev params_or : Option PoolParams → PoolParams → PoolParams
params_or none default = default
params_or (some params) default = params

-- The liquidity zipped with the weights.
unfoldable pub pool_assets : List Coin → List ℕ → List PoolAsset
unfolding to_proto
pool_assets [] weights = []
pool_assets (c ∷ coins) [] = []
pool_assets (c ∷ coins) (weight ∷ weights) =
    record { token = some (to_proto c); weight = print_u128 weight } ∷ pool_assets coins weights

module _ {S : Type 0} (G : Gamm S) where
  unfoldable pub create : OsmosisTestPool → Account → Action S ℕ
  unfolding to_proto
  create pool signer = elim pool.pool_type [
    | basic ↦ unwrap (G.create_basic_pool pool.liquidity signer)
    | balancer pool_weights pool_params ↦ unwrap (
        G.create_balancer_pool
          (record {
            sender = signer.address;
            pool_params = some (params_or pool_params default_pool_params);
            pool_assets = pool_assets pool.liquidity pool_weights;
            future_pool_governor = codes "";
          })
          signer)
    | stable_swap scaling_factors pool_params ↦ unwrap (
        G.create_stable_swap_pool
          (record {
            sender = signer.address;
            pool_params = some (params_or pool_params default_stableswap_pool_params);
            initial_pool_liquidity = map to_proto pool.liquidity;
            scaling_factors = scaling_factors;
            future_pool_governor = codes "";
            scaling_factor_controller = codes "";
          })
          signer)
  ]

unfoldable pub take : {A : Type 0} → ℕ → List A → List A
take zero l = []
take (suc n) [] = []
take (suc n) (x ∷ l) = x ∷ take n l

abbrev pub sorted : List Text → List Text
sorted = sort_by_key (λ d. d)

-- The argument is the shuffle of 0..8 that is drawn.
unfoldable pub pool_denoms : ℕ → List ℕ → List Text
unfolding take
pool_denoms count shuffled = sorted (map (λ i. codes "denom" ++ print_u128 i) (take count shuffled))

-- `denoms.iter().any(|x| input_denoms.contains(x))`
unfoldable pub has_common : List Text → List Text → Bool
unfolding bytes_eq
has_common [] input_denoms = false
has_common (d ∷ denoms) input_denoms =
    let rest = has_common denoms input_denoms in if contains input_denoms d then true else rest

-- `denoms[0] = d; denoms.sort()`
abbrev replace_first : Text → List Text → Result (List Text)
replace_first d [] = panicked
replace_first d (_ ∷ denoms) = ok (sorted (d ∷ denoms))

unfoldable pub pool_denoms_with_one_common : ℕ → List Text → List ℕ → Result (List Text)
unfolding pool_denoms has_common
pool_denoms_with_one_common count input_denoms shuffled =
    let denoms = pool_denoms count shuffled in
    if has_common denoms input_denoms
    then ok denoms
    else elim input_denoms [ [] ↦ panicked | d ∷ _ ↦ replace_first d denoms ]

unfoldable pub pool_denoms_with_one_specific : ℕ → Text → List ℕ → Result (List Text)
unfolding pool_denoms bytes_eq
pool_denoms_with_one_specific count specific_denom shuffled =
    let denoms = pool_denoms count shuffled in
    if contains denoms specific_denom then ok denoms else replace_first specific_denom denoms

-- The amounts zipped with the denoms.
unfoldable pub liquidity_of : List ℕ → List Text → List Coin
liquidity_of [] denoms = []
liquidity_of (amount ∷ amounts) [] = []
liquidity_of (amount ∷ amounts) (denom ∷ denoms) =
    record { denom = denom; amount = amount } ∷ liquidity_of amounts denoms

-- The upper ends of the ranges from 1 in which the scaling factors are drawn.
unfoldable pub scaling_bounds : List Coin → List ℕ
scaling_bounds [] = []
scaling_bounds (x ∷ pool_liquidity) =
    (if ltb max_scale_factor x.amount then max_scale_factor else x.amount)
    ∷ scaling_bounds pool_liquidity
