-- ===== src/UnifiedStargate.antt =====
-- The stargate module of the multi-test app, src/multi_test/modules/unified_stargate.rs: it answers
-- five bank and wasm queries by the chain's own querier and leaves the rest to an extra module.
-- The paths are those of src/multi_test/modules/mod.rs.
pub mod Types
pub mod Laws
use cw_it.Base.{ℕ, Option, none, some, List, map, bytes_eq, ◌==◌, if◌then◌else◌}
use cw_it.Text.{Text, codes, print_u128}
use cw_it.Chain.{
  StargateQuery, Coin, ProtoCoin, Binary, AppResponse, default_response, Result, ok, err, and_then,
  Action, StargateMsg, no_exec_handler, unexpected_query, external,
}
use cw_it.UnifiedStargate.Types.{
  Requests, Querier, ContractReply, contract_ok, contract_err, system_err, ContractInfo, Reply,
  all_balances_reply, balance_reply, supply_reply, smart_reply, contract_info_reply, forwarded,
  Extra,
}

abbrev pub query_all_balances_path : Text
query_all_balances_path = codes "/cosmos.bank.v1beta1.Query/AllBalances"

abbrev pub query_balance_path : Text
query_balance_path = codes "/cosmos.bank.v1beta1.Query/Balance"

abbrev pub query_supply_path : Text
query_supply_path = codes "/cosmos.bank.v1beta1.Query/SupplyOf"

abbrev pub query_wasm_contract_smart_path : Text
query_wasm_contract_smart_path = codes "/cosmwasm.wasm.v1.Query/SmartContractState"

abbrev pub query_wasm_contract_info_path : Text
query_wasm_contract_info_path = codes "/cosmwasm.wasm.v1.Query/ContractInfo"

abbrev pub or_empty : Option Text → Text
or_empty none = codes ""
or_empty (some t) = t

unfoldable pub to_proto : Coin → ProtoCoin
to_proto c = record { denom = c.denom; amount = print_u128 c.amount }

module _ (R : Requests) (Q : Querier) where
  unfoldable pub query_all_balances : Binary → Result Reply
  query_all_balances data_bytes = and_then (R.decode_all_balances data_bytes) λ address.
      and_then (Q.all_balances address) λ coins. ok (all_balances_reply (map to_proto coins))

  unfoldable pub query_balance : Binary → Result Reply
  query_balance data_bytes =
      and_then (R.decode_balance data_bytes)
        λ (address, denom). and_then (Q.balance address denom) λ c. ok (balance_reply (to_proto c))

  unfoldable pub query_supply : Binary → Result Reply
  query_supply data_bytes =
      and_then (R.decode_supply data_bytes)
        λ denom. and_then (Q.supply denom) λ c. ok (supply_reply (to_proto c))

  abbrev pub smart_answer : ContractReply → Result Reply
  smart_answer (contract_ok bin) = ok (smart_reply bin)
  smart_answer (contract_err e) = err (external e)
  smart_answer (system_err e) = err (external e)

  unfoldable pub query_smart : Binary → Result Reply
  query_smart data_bytes =
      and_then (R.decode_smart data_bytes) λ (address, msg). smart_answer (Q.smart address msg)

  unfoldable pub query_contract_info : Binary → Result Reply
  query_contract_info data_bytes = and_then (R.decode_contract_info data_bytes) λ address.
      and_then (Q.contract_info address) λ info. ok (
        contract_info_reply address (record {
          code_id = info.code_id;
          creator = info.creator;
          admin = or_empty info.admin;
          label = codes "";
          ibc_port_id = or_empty info.ibc_port;
        }))

module _ {S : Type 0} (R : Requests) (X : Option (Extra S)) where
  -- The catch-all arm.
  unfoldable pub query_extra : Querier → S → StargateQuery → Result Reply
  query_extra Q s request = elim X [
    | some extra ↦ and_then (extra.query Q s request) λ bin. ok (forwarded bin)
    | none ↦ err (unexpected_query request.path request.data_bytes)
  ]

  -- `match path`
  unfoldable pub query : Querier → S → StargateQuery → Result Reply
  unfolding bytes_eq
  query Q s request =
      if request.path == query_all_balances_path
      then query_all_balances R Q request.data_bytes
      else if request.path == query_balance_path
      then query_balance R Q request.data_bytes
      else if request.path == query_supply_path
      then query_supply R Q request.data_bytes
      else if request.path == query_wasm_contract_smart_path
      then query_smart R Q request.data_bytes
      else if request.path == query_wasm_contract_info_path
      then query_contract_info R Q request.data_bytes
      else query_extra Q s request

  unfoldable pub execute : Text → StargateMsg → Action S AppResponse
  execute sender msg s = elim X [
    | some extra ↦ extra.execute sender msg s
    | none ↦ (err (no_exec_handler msg.type_url), s)
  ]

  unfoldable pub sudo : Action S AppResponse
  sudo s = elim X [ some extra ↦ extra.sudo s | none ↦ (ok default_response, s) ]
