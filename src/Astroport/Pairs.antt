-- ===== src/Astroport/Pairs.antt =====
-- Creating a pair and providing liquidity to it, src/astroport/utils.rs.
pub mod Liquidity
use cw_it.Base.{
  ℕ, ◌-◌, Bool, true, false, Option, none, some, List, [], ◌∷◌, ◌++◌, ltb, if◌then◌else◌,
}
use cw_it.Text.{Text, codes, parse_u128}
use cw_it.Text.Order.{starts_with, sort_by_key}
use cw_it.Chain.{
  Coin, ProtoCoin, Event, Binary, Result, ok, panicked, Action, pure, lift, ask, unwrap, unwrapped,
}
use cw_it.Chain.Seq.{◌>>=◌, ◌>>◌}
use cw_it.Client.{Account, Wasm, Bank}
use cw_it.Runner.Convert.{or_default}
use cw_it.Astroport.Types.{
  AssetInfo, token, native_token, Asset, PairType, InstantiateMsg, ExecuteMsg, increase_allowance,
  provide_liquidity_msg, create_pair, PairInfo, Queries,
}
use cw_it.Astroport.Assets.{parse_astroport_create_pair_events}
use cw_it.Astroport.Setup.{call}

-- `.parse().unwrap()`
abbrev pub parsed : Text → Result ℕ
parsed amount = elim (parse_u128 amount) [ none ↦ panicked | some n ↦ ok n ]

-- The subtraction of `Uint128`, which panics below zero.
abbrev pub sub_u128 : ℕ → ℕ → Result ℕ
sub_u128 a b = if ltb a b then panicked else ok (a - b)

-- `asset_infos.into_iter().zip(amounts)`
unfoldable pub zip_assets : List AssetInfo → List ℕ → List Asset
zip_assets [] amounts = []
zip_assets (info ∷ infos) [] = []
zip_assets (info ∷ infos) (amount ∷ amounts) =
    record { info = info; amount = amount } ∷ zip_assets infos amounts

abbrev pub liquidity_msg : List Asset → ExecuteMsg
liquidity_msg assets = provide_liquidity_msg (record {
  assets = assets;
  slippage_tolerance = none;
  receiver = none;
  auto_stake = some false;
  min_lp_to_receive = none;
})

module _ {S : Type 0} (W : Wasm S InstantiateMsg ExecuteMsg) where
  -- The loop over the assets: a token's allowance is increased, a native coin joins the funds.
  unfoldable pub collect_funds : Text → Account → List Asset → List Coin → Action S (List Coin)
  collect_funds pair_addr signer [] funds = pure funds
  collect_funds pair_addr signer (asset ∷ assets) funds = elim asset.info [
    | token contract_addr ↦
        call W signer contract_addr (increase_allowance pair_addr asset.amount none) []
        >> collect_funds pair_addr signer assets funds
    | native_token denom ↦
        collect_funds pair_addr signer assets
          (funds ++ record { denom = denom; amount = asset.amount } ∷ [])
  ]

  module _ (Q : Queries S) (B : Bank S) where
    -- The balance of a cw20 token, or of a native denom.
    unfoldable pub lp_balance : Bool → Text → Account → Action S ℕ
    lp_balance true lp_token address = unwrap (ask (Q.cw20_balance lp_token address.address))
    lp_balance false lp_token address = do
      balance ← unwrap (ask (B.query_balance address.address lp_token))
      lift (parsed (or_default balance).amount)

    unfoldable pub get_lp_token_balance : Text → Account → Action S ℕ
    get_lp_token_balance pair_addr address = do
      info ← unwrap (ask (Q.pair pair_addr))
      lp_balance (starts_with info.liquidity_token address.prefix) info.liquidity_token address

    unfoldable pub provide_liquidity : Text → List Asset → Account → Action S ℕ
    provide_liquidity pair_addr assets signer = do
      lp_token_balance_before ← get_lp_token_balance pair_addr signer
      funds ← collect_funds pair_addr signer assets []
      call W signer pair_addr (liquidity_msg assets) (sort_by_key (λ c. c.denom) funds)
      lp_token_balance_after ← get_lp_token_balance pair_addr signer
      lift (sub_u128 lp_token_balance_after lp_token_balance_before)

    unfoldable pub create_astroport_pair :
        Text
        → PairType
        → List AssetInfo
        → Option Binary
        → Account
        → Option (List ℕ)
        → List Coin
        → Action S (Text × Text)
    create_astroport_pair factory_addr pair_type asset_infos init_params signer initial_liquidity
          denom_creation_fee =
        do
          events ←
              call W signer factory_addr (create_pair pair_type asset_infos init_params)
                denom_creation_fee
          let created = parse_astroport_create_pair_events events
          elim initial_liquidity [
            | none ↦ pure created
            | some amounts ↦ do
              provide_liquidity created.0 (zip_assets asset_infos amounts) signer
              pure created
          ]
