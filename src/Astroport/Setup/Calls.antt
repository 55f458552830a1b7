-- ===== src/Astroport/Setup/Calls.antt =====
-- The calls of a deployment of astroport, each with the whole message that it sends.
use cw_it.Base.{ℕ, false, none, some, List, [], ◌∷◌, String}
use cw_it.Text.{Text, codes}
use cw_it.Chain.{Coin}
use cw_it.Client.{Account}
use cw_it.Astroport.Types.{
  native_token, PairType, xyk, stable, custom, PairConfig, InstantiateMsg, token_init,
  coin_registry_init, factory_init, vesting_init, incentives_init, router_init, maker_init,
  ExecuteMsg, update_config, register_vesting_accounts, Contract, AstroportContracts,
}

-- A call that succeeded, with what it gave.
pub data Call : Type 0 where
  instantiated : (id : ℕ) → InstantiateMsg → (label : Text) → (address : Text) → Call
  executed : (contract : Text) → ExecuteMsg → (funds : List Coin) → Call
  astro_created : (denom : Text) → Call

abbrev of_contract : Contract → InstantiateMsg → String → Call
of_contract c msg label = instantiated c.code_id msg (codes label) c.address

-- A pair of the type in the factory's configuration.
abbrev pair_of : ℕ → ℕ → ℕ → PairType → PairConfig
pair_of code_id maker_fee_bps total_fee_bps pair_type = record {
  code_id = code_id;
  is_disabled = false;
  is_generator_disabled = false;
  maker_fee_bps = maker_fee_bps;
  total_fee_bps = total_fee_bps;
  pair_type = pair_type;
  permissioned = false;
  whitelist = none;
}

-- The calls behind a deployment, in order, with what each is told, from its record and the id of
-- the concentrated pair.
abbrev pub deployment : Text → Account → AstroportContracts → ℕ → List Call
deployment default_coin_denom admin c concentrated =
    of_contract c.astro_cw20_token
      (token_init (record {
        decimals = 6;
        initial_balances = (admin.address, 1_000_000_000_000_000) ∷ [];
        minter = some (admin.address, none);
        name = codes "Astro Token";
        symbol = codes "ASTRO";
      }))
      "Astro Token"
    ∷ of_contract c.coin_registry (coin_registry_init admin.address) "Coin Registry"
    ∷ of_contract c.factory
        (factory_init (record {
          pair_configs =
              pair_of c.pair.code_id 3333 30 xyk
              ∷ pair_of c.pair_stable.code_id 5000 5 stable
              ∷ pair_of concentrated 5000 0 (custom (codes "concentrated"))
              ∷ [];
          token_code_id = c.astro_cw20_token.code_id;
          fee_address = none;
          generator_address = none;
          owner = admin.address;
          whitelist_code_id = 0;
          coin_registry_address = c.coin_registry.address;
        }))
        "Astroport Factory"
    ∷ astro_created c.astro_native_denom
    ∷ of_contract c.vesting (vesting_init admin.address (native_token c.astro_native_denom))
        "Astroport Vesting"
    ∷ of_contract c.incentives
        (incentives_init (record {
          owner = admin.address;
          factory = c.factory.address;
          guardian = none;
          astro_token = native_token c.astro_native_denom;
          vesting_contract = c.vesting.address;
        }))
        "Astroport Incentives"
    ∷ executed c.factory.address
        (update_config (record {
          generator_address = some c.incentives.address;
          fee_address = none;
          token_code_id = none;
          whitelist_code_id = none;
          coin_registry_address = none;
        }))
        []
    ∷ of_contract c.router (router_init c.factory.address) "Astroport Router"
    ∷ of_contract c.maker
        (maker_init (record {
          factory_contract = c.factory.address;
          governance_contract = some admin.address;
          governance_percent = some 100;
          max_spread = none;
          owner = admin.address;
          staking_contract = none;
          astro_token = native_token c.astro_native_denom;
          default_bridge = some (native_token default_coin_denom);
          collect_cooldown = none;
        }))
        "Astroport Maker"
    ∷ executed c.vesting.address
        (register_vesting_accounts (
          record {
            address = c.incentives.address;
            schedules =
                record {
                  start_amount = 63_072_000_000_000;
                  start_time = 1_664_582_400;
                  end_point = none;
                }
                ∷ [];
          }
          ∷ []))
        (record { denom = c.astro_native_denom; amount = 63_072_000_000_000 } ∷ [])
    ∷ []
