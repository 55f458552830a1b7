-- ===== src/UnifiedStargate/Types.antt =====
-- The requests, the chain's querier, the extra module and the replies of the stargate module.
use cw_it.Base.{ℕ, Option, List}
use cw_it.Text.{Text}
use cw_it.Chain.{Coin, ProtoCoin, Binary, AppResponse, Result, Action, StargateMsg, StargateQuery}

-- The decoders of the protobuf requests, which give the fields that the module reads.
pub record Requests : Type 0 where
  pub decode_all_balances : Binary → Result Text
  pub decode_balance : Binary → Result (Text × Text)
  pub decode_supply : Binary → Result Text
  pub decode_smart : Binary → Result (Text × Binary)
  pub decode_contract_info : Binary → Result Text

-- `cosmwasm_std::ContractInfoResponse`, the fields that the module reads
pub record ContractInfoResponse : Type 0 where
  pub code_id : ℕ
  pub creator : Text
  pub admin : Option Text
  pub ibc_port : Option Text

-- What `raw_query` of a contract answers.
pub data ContractReply : Type 0 where
  contract_ok : Binary → ContractReply
  contract_err : Text → ContractReply
  system_err : Text → ContractReply

-- The querier of the chain simulator.
pub record Querier : Type 0 where
  pub all_balances : Text → Result (List Coin)
  pub balance : Text → Text → Result Coin
  pub supply : Text → Result Coin
  pub smart : Text → Binary → ContractReply
  pub contract_info : Text → Result ContractInfoResponse

-- The protobuf contract information; `created` and `extension` are always absent.
pub record ContractInfo : Type 0 where
  pub code_id : ℕ
  pub creator : Text
  pub admin : Text
  pub label : Text
  pub ibc_port_id : Text

-- The values that the module hands to `to_json_binary`, and what the extra module answered.
pub data Reply : Type 0 where
  all_balances_reply : List ProtoCoin → Reply
  balance_reply supply_reply : ProtoCoin → Reply
  smart_reply : Binary → Reply
  contract_info_reply : Text → ContractInfo → Reply
  forwarded : Binary → Reply

-- The extra stargate module, on the state `S` of the chain.
pub record Extra (S : Type 0) : Type 0 where
  pub query : Querier → S → StargateQuery → Result Binary
  pub execute : Text → StargateMsg → Action S AppResponse
  pub sudo : Action S AppResponse
