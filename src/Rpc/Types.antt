-- ===== src/Rpc/Types.antt =====
-- The configuration of the runner over RPC, src/rpc_runner/config.rs and src/rpc_runner/chain.rs,
-- and the node, which is reached over the network.
use cw_it.Base.{ℕ, Bool, Option, List}
use cw_it.Text.{Text}
use cw_it.Chain.{Coin, ProtoCoin, Binary, Result, Action, Error}
use cw_it.Client.{Account, FeeSetting, auto, BankMsgSend}
use cw_it.Runner.{Any}

pub record ChainConfig : Type 0 where
  pub name : Text
  pub denom : Text
  pub prefix : Text
  pub chain_id : Text
  pub gas_price : ℕ
  pub gas_adjustment : ℕ
  pub derivation_path : Text
  pub rpc_endpoint : Text
  pub grpc_endpoint : Text

unfoldable pub auto_fee_setting : ChainConfig → FeeSetting
auto_fee_setting c = auto (record { denom = c.denom; amount = c.gas_price }) c.gas_adjustment

pub record RpcRunnerConfig : Type 0 where
  pub chain_config : ChainConfig
  pub funding_account_mnemonic : Text
  pub fee_setting : Option FeeSetting

-- `cosmrs::tx::Fee`, by `from_amount_and_gas`
pub record Fee : Type 0 where
  pub amount : Coin
  pub gas_limit : ℕ

-- The account number and the sequence of a `BaseAccount`.
pub record BaseAccount : Type 0 where
  pub account_number : ℕ
  pub sequence : ℕ

pub record AbciQuery : Type 0 where
  pub is_ok : Bool
  pub value : Binary

-- The two codes of a committed transaction, each with its log, and what it is converted from.
pub record TxCommitResponse : Type 0 where
  pub check_is_err : Bool
  pub check_log : Text
  pub result_is_err : Bool
  pub result_log : Text
  pub outcome : Binary

-- The node and the libraries for keys, signatures and the encoding of transactions.
pub record Node (S : Type 0) : Type 0 where
  pub abci_query : Text → Binary → S → Result AbciQuery
  pub broadcast_tx_commit : Binary → Action S TxCommitResponse
  -- The height and the time of the latest block; another call may see a later block.
  pub latest_block : Action S (ℕ × ℕ)
  pub encode_account_request : Text → Binary
  -- `QueryAccountResponse::decode` and then `BaseAccount::decode`, if there is an account
  pub decode_account_response : Binary → Result (Option Binary)
  pub decode_base_account : Binary → Result BaseAccount
  -- The signed transaction, by the chain's id
  pub sign : List Any → Fee → BaseAccount → Text → Account → Result Binary
  pub parse_denom : Text → Result Text
  pub random_address : ℕ → Text
  -- `HttpClient::new`, the parsing of a derivation path, and what is made of a mnemonic
  pub connect : Text → Result (Unit {0})
  pub parse_path : Text → Result Text
  pub mnemonic_to_seed : Text → Result Binary
  pub derive_from_path : Binary → Text → Result Binary
  pub address_of : Text → Binary → Text
  -- `HttpClient::wait_until_healthy`
  pub wait_until_healthy : Action S (Unit {0})
  -- `matches!(e.detail(), ErrorDetail::Serde(_))`
  pub is_serde : Error → Bool

-- The messages of test_tube's `Bank` in their protobuf encoding.
pub record BankCodec : Type 0 where
  pub encode_send : BankMsgSend → Result Binary
  pub encode_balance : Text × Text → Result Binary
  pub decode_balance : Binary → Result (Option ProtoCoin)
  pub encode_all_balances : Text → Result Binary
  pub decode_all_balances : Binary → Result (List ProtoCoin)

-- The products of floating-point numbers, rounded up: gas by the factor, and gas by the price.
pub record Rounding : Type 0 where
  pub scale_gas : ℕ → ℕ → ℕ
  pub price_gas : ℕ → ℕ → ℕ
