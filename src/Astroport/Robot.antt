-- ===== src/Astroport/Robot.antt =====
-- The robot for astroport, src/astroport/robot.rs.
use cw_it.Base.{ℕ, Option, none, some, List, [], ◌∷◌, nat_eq, ◌==◌, ltb}
use cw_it.Text.{Text}
use cw_it.Text.Order.{sort_by_key}
use cw_it.Chain.{Coin, Binary, Action, pure, lift, ask, unwrap}
use cw_it.Chain.Seq.{◌>>=◌, ◌>>◌}
use cw_it.Client.{Account, Wasm, Bank}
use cw_it.Helpers.{create_token_coins}
use cw_it.Robot.{assert, query_native_token_balance}
use cw_it.Astroport.Types.{
  AssetInfo, token, native_token, Asset, PairType, InstantiateMsg, ExecuteMsg, increase_allowance,
  swap_msg, add_native_coins, create_pair, PairInfo, PoolResponse, ConfigResponse,
  SimulationResponse, Queries, AstroportContracts,
}
use cw_it.Astroport.Assets.{parse_astroport_create_pair_events}
use cw_it.Astroport.Setup.{call}
use cw_it.Astroport.Pairs.{collect_funds, liquidity_msg, zip_assets}

-- The native assets with their decimals, by `zip` and `filter_map`.
unfoldable pub native_decimals : List AssetInfo → List ℕ → List (Text × ℕ)
native_decimals [] decimals = []
native_decimals (info ∷ infos) [] = []
native_decimals (info ∷ infos) (d ∷ decimals) =
    let rest = native_decimals infos decimals in
    elim info [ token contract_addr ↦ rest | native_token denom ↦ (denom, d) ∷ rest ]

module _ {S : Type 0} (W : Wasm S InstantiateMsg ExecuteMsg) where
  unfoldable pub increase_cw20_allowance : Text → Text → ℕ → Account → Action S (Unit {0})
  increase_cw20_allowance cw20_addr spender amount signer =
      call W signer cw20_addr (increase_allowance spender amount none) [] >> pure tt

  unfoldable pub add_native_coins_to_registry :
      Text → List (Text × ℕ) → Account → Action S (Unit {0})
  add_native_coins_to_registry registry_addr native_coins signer =
      call W signer registry_addr (add_native_coins native_coins) [] >> pure tt

  unfoldable pub add_denom_precision_to_coin_registry :
      AstroportContracts → Text → ℕ → Account → Action S (Unit {0})
  add_denom_precision_to_coin_registry contracts denom precision signer =
      call W signer contracts.coin_registry.address (add_native_coins ((denom, precision) ∷ [])) []
      >> pure tt

  unfoldable pub provide_liquidity : Text → List Asset → Account → Action S (Unit {0})
  provide_liquidity pair_addr assets signer = do
    funds ← collect_funds W pair_addr signer assets []
    call W signer pair_addr (liquidity_msg assets) (sort_by_key (λ c. c.denom) funds)
    pure tt

  -- The funds of a swap: none for a token, whose allowance is increased.
  unfoldable pub swap_funds : Text → Asset → Account → Action S (List Coin)
  swap_funds pair_addr offer_asset signer = elim offer_asset.info [
    | token contract_addr ↦
        call W signer contract_addr (increase_allowance pair_addr offer_asset.amount none) []
        >> pure []
    | native_token denom ↦ pure (record { denom = denom; amount = offer_asset.amount } ∷ [])
  ]

  unfoldable pub swap_on_astroport_pair :
      Text → Asset → Option AssetInfo → Option ℕ → Option ℕ → Account → Action S (Unit {0})
  swap_on_astroport_pair pair_addr offer_asset ask_asset_info belief_price max_spread signer = do
    funds ← swap_funds pair_addr offer_asset signer
    call W signer pair_addr
        (swap_msg (record {
          offer_asset = offer_asset;
          ask_asset_info = ask_asset_info;
          belief_price = belief_price;
          max_spread = max_spread;
          recipient = none;
        }))
        funds
    pure tt

module _ {S : Type 0} (Q : Queries S) where
  unfoldable pub query_cw20_balance : Text → Text → Action S ℕ
  query_cw20_balance cw20_addr address = unwrap (ask (Q.cw20_balance cw20_addr address))

  -- Unlike `get_lp_token_balance`, this takes the LP token for a cw20 token.
  unfoldable pub query_lp_token_balance : Text → Text → Action S ℕ
  query_lp_token_balance pair_addr address = do
    info ← unwrap (ask (Q.pair pair_addr))
    query_cw20_balance info.liquidity_token address

  unfoldable pub query_pair_info : Text → Action S PairInfo
  query_pair_info pair_addr = unwrap (ask (Q.pair pair_addr))

  unfoldable pub query_pool : Text → Action S PoolResponse
  query_pool pair_addr = unwrap (ask (Q.pool pair_addr))

  unfoldable pub query_factory_config : Text → Action S ConfigResponse
  query_factory_config factory_addr = unwrap (ask (Q.factory_config factory_addr))

  unfoldable pub query_native_coin_registry : AstroportContracts → Text → Action S ℕ
  query_native_coin_registry contracts denom =
      ask (Q.native_token_precision contracts.coin_registry.address denom)

  unfoldable pub query_simulate_swap : Text → Asset → Option AssetInfo → Action S SimulationResponse
  query_simulate_swap pair_addr offer_asset ask_asset_info =
      unwrap (ask (Q.simulation pair_addr offer_asset ask_asset_info))

  module _ (B : Bank S) where
    unfoldable pub query_asset_balance : AssetInfo → Text → Action S ℕ
    query_asset_balance (native_token denom) address = query_native_token_balance B address denom
    query_asset_balance (token contract_addr) address = query_cw20_balance contract_addr address

    unfoldable pub assert_asset_balance_lt : AssetInfo → Text → ℕ → Action S (Unit {0})
    assert_asset_balance_lt asset address expected = do
      actual ← query_asset_balance asset address
      assert (ltb actual expected)

    unfoldable pub assert_asset_balance_gt : AssetInfo → Text → ℕ → Action S (Unit {0})
    assert_asset_balance_gt asset address expected = do
      actual ← query_asset_balance asset address
      assert (ltb expected actual)

    unfoldable pub assert_asset_balance_eq : AssetInfo → Text → ℕ → Action S (Unit {0})
    unfolding nat_eq
    assert_asset_balance_eq asset address expected = do
      actual ← query_asset_balance asset address
      assert (actual == expected)

  -- The fee and the denom are those of the chain's feature.
  module _ (W : Wasm S InstantiateMsg ExecuteMsg) (create_token_fee default_coin_denom : Text)
      (contracts : AstroportContracts) where
    -- The decimals of the native assets go to the registry that the factory names.
    unfoldable pub register_decimals :
        List AssetInfo → Account → Option (List ℕ) → Action S (Unit {0})
    register_decimals asset_infos signer none = pure tt
    register_decimals asset_infos signer (some decimals) = do
      config ← query_factory_config contracts.factory.address
      add_native_coins_to_registry W config.coin_registry_address
          (native_decimals asset_infos decimals) signer

    unfoldable pub create_astroport_pair :
        PairType
        → List AssetInfo
        → Option Binary
        → Account
        → Option (List ℕ)
        → Option (List ℕ)
        → Action S (Text × Text)
    create_astroport_pair pair_type asset_infos init_params signer initial_liquidity decimals = do
      register_decimals asset_infos signer decimals
      fee_tokens ← lift (create_token_coins create_token_fee default_coin_denom)
      events ←
          call W signer contracts.factory.address (create_pair pair_type asset_infos init_params)
            fee_tokens
      let created = parse_astroport_create_pair_events events
      elim initial_liquidity [
        | none ↦ pure created
        | some amounts ↦ do
          provide_liquidity W created.0 (zip_assets asset_infos amounts) signer
          pure created
      ]
