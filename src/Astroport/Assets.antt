-- ===== src/Astroport/Assets.antt =====
-- The helpers that build assets, and the reading of the events of a created pair.
pub mod Events
use cw_it.Base.{ℕ, Option, none, some, List, [], ◌∷◌, ◌++◌, bytes_eq, ◌==◌, if◌then◌else◌, length}
use cw_it.Text.{Text, codes, is_empty}
use cw_it.Chain.{Coin, Event}
use cw_it.Astroport.Types.{AssetInfo, token, native_token, Asset}

unfoldable pub native_info : Text → AssetInfo
native_info denom = native_token denom

unfoldable pub cw20_info : Text → AssetInfo
cw20_info contract_addr = token contract_addr

unfoldable pub native_asset : Text → ℕ → Asset
unfolding native_info
native_asset denom amount = record { info = native_info denom; amount = amount }

unfoldable pub cw20_asset : Text → ℕ → Asset
unfolding cw20_info
cw20_asset contract_addr amount = record { info = cw20_info contract_addr; amount = amount }

unfoldable pub coin_to_astro_asset : Coin → Asset
coin_to_astro_asset coin = record { info = native_token coin.denom; amount = coin.amount }

-- The three variables of the loop.
pub record Found : Type 0 where
  pub pair_addr : Text
  pub lp_token_addr : Text
  pub lp_token_denom : Text

-- One attribute: the three tests are on different keys.
unfoldable pub read_attribute : Found → Text × Text → Found
unfolding bytes_eq
read_attribute f (key, value) =
    let f1 : Found =
      if key == codes "pair_contract_addr" then record f { pair_addr = value } else f in
    let f2 : Found =
      if key == codes "liquidity_token_addr" then record f1 { lp_token_addr = value } else f1 in
    if key == codes "lp_denom" then record f2 { lp_token_denom = value } else f2

unfoldable pub read_attributes : Found → List (Text × Text) → Found
unfolding read_attribute
read_attributes f [] = f
read_attributes f (a ∷ attributes) = read_attributes (read_attribute f a) attributes

unfoldable pub read_events : Found → List Event → Found
unfolding read_attributes bytes_eq
read_events f [] = f
read_events f (event ∷ events) =
    read_events (if event.ty == codes "wasm" then read_attributes f event.attributes else f) events

unfoldable pub parse_astroport_create_pair_events : List Event → Text × Text
unfolding read_events
parse_astroport_create_pair_events events =
    let f =
      read_events
        (record { pair_addr = codes ""; lp_token_addr = codes ""; lp_token_denom = codes "" })
        events in
    (f.pair_addr, if is_empty f.lp_token_denom then f.lp_token_addr else f.lp_token_denom)
