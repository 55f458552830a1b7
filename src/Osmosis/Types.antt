-- ===== src/Osmosis/Types.antt =====
-- The messages of Osmosis (osmosis_std) that the helpers build, and the calls that they make.
use cw_it.Base.{ℕ, Option, List}
use cw_it.Text.{Text}
use cw_it.Chain.{Coin, ProtoCoin, Result, Action}
use cw_it.Client.{Account}

pub record MsgJoinSwapExternAmountIn : Type 0 where
  pub sender : Text
  pub pool_id : ℕ
  pub token_in : Option ProtoCoin
  pub share_out_min_amount : Text

pub record SwapAmountInRoute : Type 0 where
  pub pool_id : ℕ
  pub token_out_denom : Text

pub record MsgSwapExactAmountIn : Type 0 where
  pub sender : Text
  pub routes : List SwapAmountInRoute
  pub token_in : Option ProtoCoin
  pub token_out_min_amount : Text

-- The duration is in whole seconds.
pub record MsgLockTokens : Type 0 where
  pub owner : Text
  pub duration : Option ℕ
  pub coins : List ProtoCoin

-- `Runner::execute` at these messages.
pub record Chain (S : Type 0) : Type 0 where
  pub join_swap : MsgJoinSwapExternAmountIn → Account → Action S (Unit {0})
  pub swap_in : MsgSwapExactAmountIn → Account → Action S (Unit {0})
  pub lock_tokens : MsgLockTokens → Account → Action S (Unit {0})

-- `increase_time` of the test app, and its parameters of the module "lockup", of which the list of
-- `force_unlock_allowed_addresses` is read and written.
pub record TestApp (S : Type 0) : Type 0 where
  pub increase_time : ℕ → S → S
  pub get_lockup_params : S → Result (List Text)
  pub set_lockup_params : List Text → Action S (Unit {0})

pub record PoolParams : Type 0 where
  pub swap_fee : Text
  pub exit_fee : Text

pub record PoolAsset : Type 0 where
  pub token : Option ProtoCoin
  pub weight : Text

pub record MsgCreateBalancerPool : Type 0 where
  pub sender : Text
  pub pool_params : Option PoolParams
  pub pool_assets : List PoolAsset
  pub future_pool_governor : Text

pub record MsgCreateStableswapPool : Type 0 where
  pub sender : Text
  pub pool_params : Option PoolParams
  pub initial_pool_liquidity : List ProtoCoin
  pub scaling_factors : List ℕ
  pub future_pool_governor : Text
  pub scaling_factor_controller : Text

-- The client `Gamm`, whose calls give the id of the new pool.
pub record Gamm (S : Type 0) : Type 0 where
  pub create_basic_pool : List Coin → Account → Action S ℕ
  pub create_balancer_pool : MsgCreateBalancerPool → Account → Action S ℕ
  pub create_stable_swap_pool : MsgCreateStableswapPool → Account → Action S ℕ
