-- ===== src/UnifiedStargate/Laws.antt =====
-- Which queries the module answers itself, and that amounts survive their way into text.
use cw_it.Base.{
  ℕ, ◌<◌, ◌≡◌, refl, Bool, ◌||◌, Option, none, some, List, [], ◌∷◌, map, arith, bytes_eq, ◌==◌,
  if◌then◌else◌,
}
use cw_it.Text.{Text, parse_u128, u128_mod}
use cw_it.Text.Decimal.{parse_u128-print_u128}
use cw_it.Chain.{StargateQuery, Coin, ProtoCoin, Binary, ok}
use cw_it.UnifiedStargate.Types.{Requests, Querier, Extra, all_balances_reply}
use cw_it.UnifiedStargate.{
  query, query_extra, query_all_balances, to_proto, query_all_balances_path, query_balance_path,
  query_supply_path, query_wasm_contract_smart_path, query_wasm_contract_info_path,
}

-- The paths that the module answers itself.
abbrev is_own_path : Text → Bool
is_own_path path =
    path == query_all_balances_path
    || path == query_balance_path
    || path == query_supply_path
    || path == query_wasm_contract_smart_path
    || path == query_wasm_contract_info_path

-- On each of its own five paths the stargate module answers the same whether there is an extra
-- module or not, and on every other path it leaves the query to the extra module, or fails if
-- there is none.
query_own_or_extra :
    {S : Type 0} (R : Requests) (X : Option (Extra S)) (Q : Querier) (s : S)
    (request : StargateQuery)
    → query R X Q s request
      ≡ (if is_own_path request.path then query R none Q s request else query_extra R X Q s request)
unfolding query
query_own_or_extra R X Q s request = ground arith

-- Every amount fits a `u128`.
abbrev pub AreAmounts : List Coin → Type 0
AreAmounts [] = Unit
AreAmounts (c ∷ coins) = (c.amount < u128_mod) × AreAmounts coins

-- A coin of an answer, its amount read as a number.
abbrev pub read_coin : ProtoCoin → Text × Option ℕ
read_coin c = (c.denom, parse_u128 c.amount)

read_coin-to_proto :
    (c : Coin) → c.amount < u128_mod → read_coin (to_proto c) ≡ (c.denom, some c.amount)
unfolding to_proto
read_coin-to_proto c small = rw (parse_u128-print_u128 c.amount small) refl

map-read_coin :
    (coins : List Coin)
    → AreAmounts coins
    → map read_coin (map to_proto coins) ≡ map (λ c. (c.denom, some c.amount)) coins
map-read_coin [] small = refl
map-read_coin (c ∷ coins) (small, rest) =
    rw (read_coin-to_proto c small, map-read_coin coins rest) refl

-- If the request for all balances decodes to an address and the chain's querier answers coins whose
-- amounts are below 2 ^ 128, then the answer lists coins of the same denoms in the same order, and
-- their amounts read as numbers are those of the querier.
all_balances_read_back :
    {S : Type 0} (R : Requests) (X : Option (Extra S)) (Q : Querier) (s : S) (data_bytes : Binary)
    (address : Text) (coins : List Coin)
    → R.decode_all_balances data_bytes ≡ ok address
    → Q.all_balances address ≡ ok coins
    → AreAmounts coins
    → (ps : List ProtoCoin) × (query R X Q s
          (record { path = query_all_balances_path; data_bytes = data_bytes })
        ≡ ok (all_balances_reply ps))
      × (map read_coin ps ≡ map (λ c. (c.denom, some c.amount)) coins)
unfolding query query_all_balances
all_balances_read_back R X Q s data_bytes address coins decodes answers small =
    (map to_proto coins, ground arith, map-read_coin coins small)
