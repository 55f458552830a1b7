-- ===== src/Tests/AstroportPairs.antt =====
-- Pairs of astroport on small clients.
use cw_it.Base.{
  ℕ, suc, ◌+◌, ◌*◌, ap, sym, ◌≡◌, ◌↔◌, refl, none, false, List, [], ◌∷◌, bytes_eq, arith, contains,
  nat_eq, if◌then◌else◌, unwrap_or,
}
use mathlib.Core.List.{Perm}
use cw_it.Text.{Text, codes, print_u128, parse_u128, is_empty}
use cw_it.Text.Order.{sort_by_key, IsSortedBy, starts_with}
use cw_it.Chain.{Coin, Event, default_response, ok, unwrap}
use cw_it.Chain.Seq.{◌>>=◌}
use cw_it.Client.{Bank}
use cw_it.TokenFactory.{Codec, default_factory}
use cw_it.SdkCoin.{coin_from_sdk_string, is_sdk_string, split_amount}
use cw_it.Regex.{many}
use cw_it.Astroport.{xyk, Queries, Asset, token, native_token}
use cw_it.Astroport.Setup.{call}
use cw_it.Astroport.Assets.{parse_astroport_create_pair_events}
use cw_it.Astroport.Assets.Events.{
  parse_astroport_create_pair_events_lem, last_value, wasm_attributes,
}
use cw_it.Astroport.Pairs
use cw_it.Astroport.Pairs.{get_lp_token_balance, liquidity_msg}
use cw_it.Astroport.Pairs.Liquidity.{
  Allows, natives, tokens, provide_liquidity_succeeds_iff, provide_liquidity_receives,
}
use cw_it.Astroport.Robot
use cw_it.Astroport.Astro.{denom_msg, mint_msg, create_astro}
use cw_it.Astroport.Astro.OnFactory.{Client, run_create, run_mint, create_astro_on_factory}
use cw_it.Tests.Samples.{alice, small_bank}
use cw_it.Tests.Deployments.{counting, admin}

abbrev lp_events : List Event
lp_events =
    record {
      ty = codes "wasm";
      attributes =
          (codes "pair_contract_addr", codes "pair1")
          ∷ (codes "liquidity_token_addr", codes "lp1")
          ∷ [];
    }
    ∷ record { ty = codes "reply"; attributes = (codes "lp_denom", codes "ignored") ∷ [] }
    ∷ record { ty = codes "wasm"; attributes = (codes "lp_denom", codes "factory/pair1/lp") ∷ [] }
    ∷ []

parse_test :
    parse_astroport_create_pair_events lp_events ≡ (codes "pair1", codes "factory/pair1/lp")
unfolding parse_astroport_create_pair_events bytes_eq
parse_test = refl

parse_astroport_create_pair_events_lem_example : parse_astroport_create_pair_events lp_events ≡ (
  unwrap_or (last_value (codes "pair_contract_addr") (wasm_attributes lp_events)) (codes ""),
  let lp_denom = unwrap_or (last_value (codes "lp_denom") (wasm_attributes lp_events)) (codes "") in
      if is_empty lp_denom
      then unwrap_or
          (last_value (codes "liquidity_token_addr") (wasm_attributes lp_events))
          (codes "")
      else lp_denom,
)
parse_astroport_create_pair_events_lem_example = parse_astroport_create_pair_events_lem lp_events

abbrev assets : List Asset
assets =
    record { info = native_token (codes "uosmo"); amount = 5 }
    ∷ record { info = token (codes "cw20"); amount = 6 }
    ∷ record { info = native_token (codes "uatom"); amount = 7 }
    ∷ []

abbrev sorted_funds : List Coin
sorted_funds =
    record { denom = codes "uatom"; amount = 7 } ∷ record { denom = codes "uosmo"; amount = 5 } ∷ []

sort_test : sort_by_key (λ c. c.denom) (natives assets) ≡ sorted_funds
unfolding sort_by_key
sort_test = refl

provide_liquidity_succeeds_iff_example :
    ((Robot.provide_liquidity counting (codes "pair1") assets admin 0 ≡ (ok tt, 2)) ↔ (
      (u : ℕ) × (events : List Event) × Allows counting (codes "pair1") admin (tokens assets) 0 u
      × (counting.execute
            (codes "pair1")
            (liquidity_msg assets)
            (sort_by_key (λ c. c.denom) (natives assets))
            admin
            u
          ≡ (ok events, 2))))
    × IsSortedBy (λ c. c.denom) (sort_by_key (λ c. c.denom) (natives assets))
    × Perm (sort_by_key (λ c. c.denom) (natives assets)) (natives assets)
provide_liquidity_succeeds_iff_example =
    provide_liquidity_succeeds_iff counting (codes "pair1") admin assets 0 2

-- The balance of LP tokens is ten times the number of calls.
abbrev queries : Queries ℕ
queries = record {
  pair = λ addr s. ok (record {
    asset_infos = [];
    contract_addr = addr;
    liquidity_token = codes "osmo1lp";
    pair_type = xyk;
  });
  pool = λ addr s. ok (record { assets = []; total_share = 0 });
  simulation = λ addr offer ask s.
      ok (record { return_amount = 0; spread_amount = 0; commission_amount = 0 });
  cw20_balance = λ contract addr s. ok (s * 10);
  factory_config = λ addr s. ok (record { coin_registry_address = codes "registry" });
  native_token_precision = λ addr denom s. ok 6;
}

abbrev bank : Bank ℕ
bank = record {
  send = λ msg signer s. (ok [], suc s);
  query_balance = λ addr denom s. ok none;
  query_all_balances = λ addr s. ok [];
}

provide_test :
    Pairs.provide_liquidity counting queries bank (codes "pair1") assets admin 3 ≡ (ok 20, 5)
unfolding Pairs.provide_liquidity get_lp_token_balance Pairs.lp_balance Pairs.collect_funds call
    unwrap ◌>>=◌ starts_with sort_by_key
provide_test = refl

provide_liquidity_receives_example :
    (Pairs.provide_liquidity counting queries bank (codes "pair1") assets admin 3 ≡ (ok 20, 5)) ↔ (
      (before after : ℕ) × (get_lp_token_balance counting queries bank (codes "pair1") admin 3
        ≡ (ok before, 3))
      × (Robot.provide_liquidity counting (codes "pair1") assets admin 3 ≡ (ok tt, 5))
      × (get_lp_token_balance counting queries bank (codes "pair1") admin 5 ≡ (ok after, 5))
      × (after ≡ before + 20))
provide_liquidity_receives_example =
    provide_liquidity_receives counting queries bank (codes "pair1") admin assets 3 5 20

-- The factory reads the messages of Alice, whatever their bytes are.
abbrev astro_denom : Text
astro_denom = codes "factory/alice/astro"

abbrev astro_codec : Codec
astro_codec = record {
  create_denom_url = codes "/create";
  mint_url = codes "/mint";
  burn_url = codes "/burn";
  decode_create_denom = λ _. ok (denom_msg admin);
  decode_mint = λ denom. ok (mint_msg admin denom);
  decode_burn = λ _. ok (record { sender = alice; amount = none });
  encode_create_denom_response = λ d. d;
  encoded_mint_response = [];
  encoded_burn_response = [];
}

abbrev astro_client : Client small_bank astro_codec default_factory admin
astro_client = record {
  encode_create_denom = λ _. [];
  encode_mint = λ m. astro_denom;
  decode_response = ok;
  decode-encode_create = refl;
  decode-encode_mint = λ denom e. ap (λ d. ok (mint_msg admin d)) (sym e);
  decode-encode_response = λ d. refl;
}

clean_prefix : contains (codes "factory") b'/' ≡ false
unfolding nat_eq
clean_prefix = refl

clean_admin : contains alice b'/' ≡ false
unfolding nat_eq
clean_admin = refl

fee_test :
    coin_from_sdk_string (codes "10000000uosmo")
    ≡ ok (record { denom = codes "uosmo"; amount = 10_000_000 })
unfolding coin_from_sdk_string is_sdk_string many split_amount parse_u128 print_u128
fee_test = refl

create_astro_on_factory_example :
    create_astro
      (run_create small_bank astro_codec default_factory admin astro_client)
      (run_mint small_bank astro_codec default_factory admin astro_client)
      admin
      []
    ≡ (ok astro_denom, record { denom = astro_denom; amount = 1_000_000_000_000_000_000 } ∷ [])
create_astro_on_factory_example =
    create_astro_on_factory small_bank astro_codec default_factory admin astro_client
      (record { denom = astro_denom; amount = 0 })
      (record { denom = codes "uosmo"; amount = 10_000_000 }) default_response default_response []
      [] (record { denom = astro_denom; amount = 1_000_000_000_000_000_000 } ∷ []) clean_prefix
      clean_admin (omega arith) (omega arith) refl refl fee_test refl refl
