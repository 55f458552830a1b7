-- ===== src/Astroport/Types.antt =====
-- The messages and answers of the astroport contracts, those of astroport::{asset, factory, pair,
-- token, vesting, incentives, router, maker, native_coin_registry} and cw20 that
-- src/astroport/utils.rs and src/astroport/robot.rs build and read, and the record of a deployment.
use cw_it.Base.{ℕ, Bool, Option, List}
use cw_it.Text.{Text}
use cw_it.Chain.{Binary, Result}

pub data AssetInfo : Type 0 where
  token native_token : Text → AssetInfo

pub record Asset : Type 0 where
  pub info : AssetInfo
  pub amount : ℕ

pub data PairType : Type 0 where
  xyk stable : PairType
  custom : Text → PairType

pub record PairConfig : Type 0 where
  pub code_id : ℕ
  pub is_disabled : Bool
  pub is_generator_disabled : Bool
  pub maker_fee_bps : ℕ
  pub total_fee_bps : ℕ
  pub pair_type : PairType
  pub permissioned : Bool
  pub whitelist : Option (List Text)

pub record TokenInit : Type 0 where
  pub decimals : ℕ
  pub initial_balances : List (Text × ℕ)
  pub minter : Option (Text × Option ℕ)
  pub name : Text
  pub symbol : Text

pub record FactoryInit : Type 0 where
  pub pair_configs : List PairConfig
  pub token_code_id : ℕ
  pub fee_address : Option Text
  pub generator_address : Option Text
  pub owner : Text
  pub whitelist_code_id : ℕ
  pub coin_registry_address : Text

pub record IncentivesInit : Type 0 where
  pub owner : Text
  pub factory : Text
  pub guardian : Option Text
  pub astro_token : AssetInfo
  pub vesting_contract : Text

pub record MakerInit : Type 0 where
  pub factory_contract : Text
  pub governance_contract : Option Text
  pub governance_percent : Option ℕ
  pub max_spread : Option ℕ
  pub owner : Text
  pub staking_contract : Option Text
  pub astro_token : AssetInfo
  pub default_bridge : Option AssetInfo
  pub collect_cooldown : Option ℕ

-- The `InstantiateMsg` of each contract. A field that is `None` of a type of its own (marketing,
-- tracker_config, incentivization_fee_info, second_receiver_params) is left out.
pub data InstantiateMsg : Type 0 where
  token_init : TokenInit → InstantiateMsg
  coin_registry_init : (owner : Text) → InstantiateMsg
  factory_init : FactoryInit → InstantiateMsg
  vesting_init : (owner : Text) → (vesting_token : AssetInfo) → InstantiateMsg
  incentives_init : IncentivesInit → InstantiateMsg
  router_init : (astroport_factory : Text) → InstantiateMsg
  maker_init : MakerInit → InstantiateMsg

pub record UpdateConfig : Type 0 where
  pub generator_address : Option Text
  pub fee_address : Option Text
  pub token_code_id : Option ℕ
  pub whitelist_code_id : Option ℕ
  pub coin_registry_address : Option Text

pub record VestingSchedule : Type 0 where
  pub start_amount : ℕ
  pub start_time : ℕ
  pub end_point : Option (ℕ × ℕ)

pub record VestingAccount : Type 0 where
  pub address : Text
  pub schedules : List VestingSchedule

pub record ProvideLiquidity : Type 0 where
  pub assets : List Asset
  pub slippage_tolerance : Option ℕ
  pub receiver : Option Text
  pub auto_stake : Option Bool
  pub min_lp_to_receive : Option ℕ

-- A `Decimal` is its number of atomics.
pub record Swap : Type 0 where
  pub offer_asset : Asset
  pub ask_asset_info : Option AssetInfo
  pub belief_price : Option ℕ
  pub max_spread : Option ℕ
  pub recipient : Option Text

-- The execute messages of the factory, of vesting, of cw20 tokens, of pairs and of the coin registry.
pub data ExecuteMsg : Type 0 where
  update_config : UpdateConfig → ExecuteMsg
  create_pair : PairType → List AssetInfo → Option Binary → ExecuteMsg
  register_vesting_accounts : List VestingAccount → ExecuteMsg
  increase_allowance : (spender : Text) → (amount : ℕ) → (expires : Option ℕ) → ExecuteMsg
  provide_liquidity_msg : ProvideLiquidity → ExecuteMsg
  swap_msg : Swap → ExecuteMsg
  add_native_coins : List (Text × ℕ) → ExecuteMsg

pub record Contract : Type 0 where
  pub address : Text
  pub code_id : ℕ

pub record AstroportContracts : Type 0 where
  pub factory : Contract
  pub coin_registry : Contract
  pub astro_cw20_token : Contract
  pub maker : Contract
  pub pair_stable : Contract
  pub pair : Contract
  pub router : Contract
  pub vesting : Contract
  pub incentives : Contract
  pub astro_native_denom : Text

-- The fields of `astroport::asset::PairInfo`, `pair::PoolResponse`, `pair::SimulationResponse`, and
-- of the factory's `ConfigResponse` the one that is read.
pub record PairInfo : Type 0 where
  pub asset_infos : List AssetInfo
  pub contract_addr : Text
  pub liquidity_token : Text
  pub pair_type : PairType

pub record PoolResponse : Type 0 where
  pub assets : List Asset
  pub total_share : ℕ

pub record SimulationResponse : Type 0 where
  pub return_amount : ℕ
  pub spread_amount : ℕ
  pub commission_amount : ℕ

pub record ConfigResponse : Type 0 where
  pub coin_registry_address : Text

-- `Wasm::query` at the queries of the contracts, each at the contract's address.
pub record Queries (S : Type 0) : Type 0 where
  pub pair : Text → S → Result PairInfo
  pub pool : Text → S → Result PoolResponse
  pub simulation : Text → Asset → Option AssetInfo → S → Result SimulationResponse
  pub cw20_balance : Text → Text → S → Result ℕ
  pub factory_config : Text → S → Result ConfigResponse
  pub native_token_precision : Text → Text → S → Result ℕ
