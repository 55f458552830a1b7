-- ===== src/Astroport/Setup.antt =====
-- `instantiate_astroport` and `create_astro`: the contracts are instantiated one after the other,
-- each with the addresses that the earlier ones were given.
pub mod Steps
pub mod Calls
pub mod Wiring
use cw_it.Base.{
  ℕ, ◌^◌, Bool, true, false, Option, none, some, List, [], ◌∷◌, ◌++◌, String, bytes_eq, ◌==◌,
}
use cw_it.Text.{Text, codes}
use cw_it.Chain.{Coin, ProtoCoin, Event, Result, ok, panicked, Action, pure, unwrap, find, Error}
use cw_it.Chain.Seq.{◌>>=◌, ◌>>◌}
use cw_it.Client.{Account, Wasm}
use cw_it.TokenFactory.{MsgCreateDenom, MsgMint}
use cw_it.Astroport.Types.{
  AssetInfo, native_token, PairType, xyk, stable, custom, PairConfig, TokenInit, FactoryInit,
  IncentivesInit, MakerInit, InstantiateMsg, token_init, coin_registry_init, factory_init,
  vesting_init, incentives_init, router_init, maker_init, ExecuteMsg, update_config,
  register_vesting_accounts, UpdateConfig, VestingSchedule, VestingAccount, Contract,
  AstroportContracts,
}

-- `code_ids[name]`
unfoldable pub code_id : {S : Type 0} → List (Text × ℕ) → String → Action S ℕ
unfolding bytes_eq
code_id code_ids name s = elim (find (codes name) code_ids) [
  | none ↦ (panicked, s)
  | some id ↦ (ok id, s)
]

unfoldable pub token_msg : Account → InstantiateMsg
token_msg admin = token_init (record {
  decimals = 6;
  initial_balances = (admin.address, 1_000_000_000_000_000) ∷ [];
  minter = some (admin.address, none);
  name = codes "Astro Token";
  symbol = codes "ASTRO";
})

abbrev pub pair_config : ℕ → ℕ → ℕ → PairType → PairConfig
pair_config code_id maker_fee_bps total_fee_bps pair_type = record {
  code_id = code_id;
  is_disabled = false;
  is_generator_disabled = false;
  maker_fee_bps = maker_fee_bps;
  total_fee_bps = total_fee_bps;
  pair_type = pair_type;
  permissioned = false;
  whitelist = none;
}

-- The code ids of the pairs by constant product, stable and concentrated, and of the token.
unfoldable pub factory_msg : Account → Text → ℕ → ℕ → ℕ → ℕ → InstantiateMsg
factory_msg admin coin_registry_address pair pair_stable pair_concentrated token_code_id =
    factory_init (record {
      pair_configs =
          pair_config pair 3333 30 xyk
          ∷ pair_config pair_stable 5000 5 stable
          ∷ pair_config pair_concentrated 5000 0 (custom (codes "concentrated"))
          ∷ [];
      token_code_id = token_code_id;
      fee_address = none;
      generator_address = none;
      owner = admin.address;
      whitelist_code_id = 0;
      coin_registry_address = coin_registry_address;
    })

unfoldable pub incentives_msg : Account → Text → Text → Text → InstantiateMsg
incentives_msg admin factory astro_native_denom vesting = incentives_init (record {
  owner = admin.address;
  factory = factory;
  guardian = none;
  astro_token = native_token astro_native_denom;
  vesting_contract = vesting;
})

unfoldable pub generator_msg : Text → ExecuteMsg
generator_msg incentives = update_config (record {
  generator_address = some incentives;
  fee_address = none;
  token_code_id = none;
  whitelist_code_id = none;
  coin_registry_address = none;
})

unfoldable pub maker_msg : Text → Account → Text → Text → InstantiateMsg
maker_msg default_coin_denom admin factory astro_native_denom = maker_init (record {
  factory_contract = factory;
  governance_contract = some admin.address;
  governance_percent = some 100;
  max_spread = none;
  owner = admin.address;
  staking_contract = none;
  astro_token = native_token astro_native_denom;
  default_bridge = some (native_token default_coin_denom);
  collect_cooldown = none;
})

abbrev pub vesting_amount : ℕ
vesting_amount = 63_072_000_000_000

unfoldable pub register_msg : Text → ExecuteMsg
register_msg incentives = register_vesting_accounts (
    record {
      address = incentives;
      schedules =
          record { start_amount = vesting_amount; start_time = 1_664_582_400; end_point = none }
          ∷ [];
    }
    ∷ [])

module _ {S : Type 0} (W : Wasm S InstantiateMsg ExecuteMsg) (admin : Account) where
  -- `wasm.execute(contract, &msg, funds, admin).unwrap()`
  unfoldable pub call : Text → ExecuteMsg → List Coin → Action S (List Event)
  call contract msg funds = unwrap (W.execute contract msg funds admin)

module _ {S : Type 0} (W : Wasm S InstantiateMsg ExecuteMsg) (admin : Account)
    (code_ids : List (Text × ℕ)) where
  -- `wasm.instantiate(code_ids[name], &msg, Some(&admin.address()), Some(label), &[], admin)
  -- .unwrap().data.address`
  unfoldable pub deploy : String → String → InstantiateMsg → Action S Contract
  deploy name label msg = do
    id ← code_id code_ids name
    address ← unwrap (W.instantiate id msg (some admin.address) (some (codes label)) [] admin)
    pure (record { address = address; code_id = id })

  unfoldable pub deploy_factory : Text → Action S Contract
  deploy_factory coin_registry_address = do
    pair ← code_id code_ids "astroport_pair"
    pair_stable ← code_id code_ids "astroport_pair_stable"
    pair_concentrated ← code_id code_ids "astroport_pair_concentrated"
    token ← code_id code_ids "astroport_token"
    deploy "astroport_factory" "Astroport Factory"
        (factory_msg admin coin_registry_address pair pair_stable pair_concentrated token)

  -- The default denom and `create_astro` depend on the feature of the chain. The code ids are looked
  -- up once more for the record; the map is not changed in between.
  module _ (default_coin_denom : Text) (create_astro : Action S Text) where
    unfoldable pub instantiate_astroport : Action S AstroportContracts
    instantiate_astroport = do
      token ← deploy "astroport_token" "Astro Token" (token_msg admin)
      registry ←
          deploy "astroport_native_coin_registry" "Coin Registry" (coin_registry_init admin.address)
      fact ← deploy_factory registry.address
      astro_native_denom ← create_astro
      vest ←
          deploy "astroport_vesting" "Astroport Vesting"
            (vesting_init admin.address (native_token astro_native_denom))
      incent ←
          deploy "astroport_incentives" "Astroport Incentives"
            (incentives_msg admin fact.address astro_native_denom vest.address)
      call W admin fact.address (generator_msg incent.address) []
      rout ← deploy "astroport_router" "Astroport Router" (router_init fact.address)
      make ←
          deploy "astroport_maker" "Astroport Maker"
            (maker_msg default_coin_denom admin fact.address astro_native_denom)
      call W admin vest.address (register_msg incent.address)
          (record { denom = astro_native_denom; amount = vesting_amount } ∷ [])
      pair_stable ← code_id code_ids "astroport_pair_stable"
      pair ← code_id code_ids "astroport_pair"
      pure (record {
        factory = fact;
        coin_registry = registry;
        astro_cw20_token = token;
        maker = make;
        pair_stable = record { address = codes ""; code_id = pair_stable };
        pair = record { address = codes ""; code_id = pair };
        router = rout;
        vesting = vest;
        incentives = incent;
        astro_native_denom = astro_native_denom;
      })
