-- ===== src/Osmosis/TestPool/Drawn.antt =====
-- The pools that are drawn have the properties that the source's own tests assert.
use cw_it.Base.{
  ℕ, suc, ◌-◌, ◌^◌, ◌<◌, ◌≤◌, ◌≡◌, refl, ap, sym, ◌∙◌, subst, true, Option, none, some, List, [],
  ◌∷◌, map, length, contains, bytes_eq, arith, unwrap_or,
}
use mathlib.Core.List
use mathlib.Core.List.Perm
use cw_it.Text.{Text, codes}
use cw_it.Chain.{Coin, ok-cancel}
use cw_it.Osmosis.Types.{PoolParams}
use cw_it.Osmosis.TestPool.{
  OsmosisPoolType, OsmosisTestPool, basic, balancer, stable_swap, max_pool_weight, max_scale_factor,
  pool_denoms, liquidity_of, scaling_bounds,
}
use cw_it.Osmosis.TestPool.Denoms.{
  pool_denoms_with_one_specific_has_it, length-pool_denoms, length-map,
}
use cw_it.Osmosis.TestPool.Strategies.{
  Each, Shuffled, Within, Optionally, pool_liquidity_amounts, pool_liquidity,
  pool_liquidity_with_one_specific_denom, scaling_factors, pool_type, test_pool_from_liquidity,
  test_pool, pool_with_denom, test_pools,
}

abbrev pub amounts_of : List Coin → List ℕ
amounts_of coins = map (λ c. c.amount) coins

abbrev pub denoms_of : List Coin → List Text
denoms_of coins = map (λ c. c.denom) coins

-- Each scaling factor is below the amount that stands beside it.
abbrev pub Below : List ℕ → List Coin → Type 0
Below [] coins = Unit
Below (f ∷ l) [] = Unit
Below (f ∷ l) (c ∷ coins) = (f < c.amount) × Below l coins

abbrev pub HasNoExitFee : Option PoolParams → Type 0
HasNoExitFee none = Unit
HasNoExitFee (some params) = params.exit_fee ≡ codes "0"

abbrev pub HasPoolType : List Coin → OsmosisPoolType → Type 0
HasPoolType liquidity basic = Unit
HasPoolType liquidity (balancer pool_weights params) =
    (length pool_weights ≡ length liquidity)
    × Each (1, max_pool_weight) pool_weights
    × HasNoExitFee params
HasPoolType liquidity (stable_swap factors params) =
    (length factors ≡ length liquidity)
    × Each (1, max_scale_factor) factors
    × Below factors liquidity
    × HasNoExitFee params

-- `assert_test_pool_properties`, with the amounts in a range, whose upper end is not: the source
-- asserts that they are above 0.
abbrev pub HasTestPoolProperties : ℕ × ℕ → OsmosisTestPool → Type 0
HasTestPoolProperties range pool =
    (2 ≤ length pool.liquidity)
    × (length pool.liquidity ≤ 8)
    × Each range (amounts_of pool.liquidity)
    × HasPoolType pool.liquidity pool.pool_type

-- The range that is drawn from.
abbrev range_of : Option (ℕ × ℕ) → ℕ × ℕ
range_of range = unwrap_or range (0, 2 ^ 64 - 1)

Within-inv :
    (coins : List Coin) (factors : List ℕ)
    → Within (scaling_bounds coins) factors
    → (length factors ≡ length coins) × Each (1, max_scale_factor) factors × Below factors coins
unfolding scaling_bounds
Within-inv [] [] w = (refl, tt, tt)
Within-inv [] (f ∷ l) w = absurd w
Within-inv (c ∷ coins) [] w = absurd w
Within-inv (c ∷ coins) (f ∷ l) (one, below, w) =
    let (len, each, under) = Within-inv coins l w in
    (ap suc len, (one, ground arith, each), (ground arith, under))

pool_type-HasPoolType :
    (coins : List Coin) (t : OsmosisPoolType) → pool_type coins t → HasPoolType coins t
unfolding pool_type scaling_factors
pool_type-HasPoolType coins basic h = tt
pool_type-HasPoolType coins (balancer weights params) (len, each, no_params) =
    (len, each, subst HasNoExitFee (sym no_params) tt)
pool_type-HasPoolType coins (stable_swap factors params) (within, no_params) =
    let (len, each, under) = Within-inv coins factors within in
    (len, each, under, subst HasNoExitFee (sym no_params) tt)

liquidity_of-parts :
    (amounts : List ℕ) (denoms : List Text)
    → length denoms ≡ length amounts
    → (amounts_of (liquidity_of amounts denoms) ≡ amounts)
      × (denoms_of (liquidity_of amounts denoms) ≡ denoms)
unfolding liquidity_of
liquidity_of-parts [] [] h = (refl, refl)
liquidity_of-parts [] (d ∷ denoms) h = absurd (omega arith)
liquidity_of-parts (a ∷ amounts) [] h = absurd (omega arith)
liquidity_of-parts (a ∷ amounts) (d ∷ denoms) h =
    let (same, alike) = liquidity_of-parts amounts denoms (omega arith) in
    (ap (λ l. a ∷ l) same, ap (λ l. d ∷ l) alike)

length-eq : {A : Type 0} (l m : List A) → List.length l ≡ List.length m → length l ≡ length m
length-eq [] [] e = refl
length-eq [] (y ∷ m) e = absurd (ground (arith, e))
length-eq (x ∷ l) [] e = absurd (ground (arith, e))
length-eq (x ∷ l) (y ∷ m) e = ap suc (length-eq l m (ground (arith, e)))

length-Shuffled : (shuffled : List ℕ) → Shuffled shuffled → length shuffled ≡ 8
length-Shuffled shuffled p =
    length-eq shuffled (0 ∷ 1 ∷ 2 ∷ 3 ∷ 4 ∷ 5 ∷ 6 ∷ 7 ∷ []) (Perm.length-eq p)

-- Coins put together of drawn amounts and as many denoms
parts-HasTestPoolProperties :
    (range : Option (ℕ × ℕ)) (pool : OsmosisTestPool) (amounts : List ℕ) (denoms : List Text)
    → pool_liquidity_amounts range amounts
    → length denoms ≡ length amounts
    → pool.liquidity ≡ liquidity_of amounts denoms
    → pool_type pool.liquidity pool.pool_type
    → HasTestPoolProperties (range_of range) pool × (denoms_of pool.liquidity ≡ denoms)
unfolding pool_liquidity_amounts
parts-HasTestPoolProperties range pool amounts denoms (two, eight, each) same parts typed =
    let (amounts_same, denoms_same) = liquidity_of-parts amounts denoms same in
    let amounts_eq = ap amounts_of parts ∙ amounts_same in
    let len = sym (length-map (λ c. c.amount) pool.liquidity) ∙ ap length amounts_eq in
    (
      (
        omega arith,
        omega arith,
        subst (Each (range_of range)) (sym amounts_eq) each,
        pool_type-HasPoolType pool.liquidity pool.pool_type typed,
      ),
      ap denoms_of parts ∙ denoms_same,
    )

count-bounds :
    (range : Option (ℕ × ℕ)) (amounts : List ℕ)
    → pool_liquidity_amounts range amounts
    → (2 ≤ length amounts) × (length amounts < 8)
unfolding pool_liquidity_amounts
count-bounds range amounts (two, eight, each) = (two, eight)

test_pool-HasTestPoolProperties :
    (range : Option (ℕ × ℕ)) (pool : OsmosisTestPool)
    → test_pool range pool
    → HasTestPoolProperties (range_of range) pool
unfolding test_pool pool_liquidity test_pool_from_liquidity
test_pool-HasTestPoolProperties range pool
      (liquidity, (amounts, shuffled, drawn, mixed, parts), (same, typed)) =
    let (two, eight) = count-bounds range amounts drawn in
    let eight_denoms = length-Shuffled shuffled mixed in
    let len = length-pool_denoms (length amounts) shuffled (omega arith) in
    (parts-HasTestPoolProperties range pool amounts (pool_denoms (length amounts) shuffled) drawn
      len (same ∙ parts) (subst (λ l. pool_type l pool.pool_type) (sym same) typed)).0

pool_with_denom-HasTestPoolProperties :
    (range : Option (ℕ × ℕ)) (denom : Text) (pool : OsmosisTestPool)
    → pool_with_denom denom range pool
    → HasTestPoolProperties (range_of range) pool
      × (contains (denoms_of pool.liquidity) denom ≡ true)
unfolding pool_with_denom pool_liquidity_with_one_specific_denom
pool_with_denom-HasTestPoolProperties range denom pool
      ((amounts, shuffled, denoms, drawn, mixed, specific, same), typed) =
    let (two, eight) = count-bounds range amounts drawn in
    let eight_denoms = length-Shuffled shuffled mixed in
    let (drawn_denoms, e, in_order, len, has) =
      pool_denoms_with_one_specific_has_it (length amounts) denom shuffled (omega arith)
        (omega arith) in
    let same_denoms = ok-cancel (sym e ∙ specific) in
    let (properties, denoms_eq) =
      parts-HasTestPoolProperties range pool amounts denoms drawn
        (ap length (sym same_denoms) ∙ len) same typed in
    (properties, ap (λ l. contains l denom) (denoms_eq ∙ sym same_denoms) ∙ has)

Optionally-map :
    {A : Type 0} {P Q : A → Type 0}
    → ((a : A) → P a → Q a)
    → (o : Option A) → Optionally P o
    → Optionally Q o
Optionally-map f none h = tt
Optionally-map f (some a) h = f a h

-- The pools that `test_pools` draws, whether a range of amounts is given or the default one is used:
-- the base pool, the reward pool and the second reward pool, if there is one, have from 2 to 8
-- coins with amounts in the range, which starts at 0 where none is given, and the type's properties
-- that the source's tests assert, and each reward pool has the first denom of the base pool.
pub test_pools-HaveTestPoolProperties :
    (liquidity_range : Option (ℕ × ℕ)) (base reward1 : OsmosisTestPool)
    (reward2 : Option OsmosisTestPool)
    → test_pools liquidity_range (base, reward1, reward2)
    → HasTestPoolProperties (unwrap_or liquidity_range (0, 2 ^ 64 - 1)) base
      × ((first : Coin) × (others : List Coin) × (base.liquidity ≡ first ∷ others)
          × HasTestPoolProperties (unwrap_or liquidity_range (0, 2 ^ 64 - 1)) reward1
          × (contains (denoms_of reward1.liquidity) first.denom ≡ true)
          × Optionally
              (λ pool.
                HasTestPoolProperties (unwrap_or liquidity_range (0, 2 ^ 64 - 1)) pool
                × (contains (denoms_of pool.liquidity) first.denom ≡ true))
              reward2)
unfolding test_pools
test_pools-HaveTestPoolProperties range base reward1 reward2
      (first, others, base_drawn, shape, drawn1, drawn2) =
    let has = pool_with_denom-HasTestPoolProperties range first.denom in
    let (properties, shares) = has reward1 drawn1 in
    (
      test_pool-HasTestPoolProperties range base base_drawn,
      (
        first,
        others,
        shape,
        properties,
        shares,
        Optionally-map (λ pool drawn. has pool drawn) reward2 drawn2,
      ),
    )
