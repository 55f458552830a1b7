-- ===== src/Runner/Types.antt =====
-- The messages that the runner reads and builds, and the parts of the app that it calls. The
-- protobuf messages are those of osmosis_std, of which these are the fields that the runner reads.
use cw_it.Base.{ℕ, Option, List}
use cw_it.Text.{Text}
use cw_it.Chain.{Coin, ProtoCoin, Binary, Event, AppResponse, Result, Action}

-- `test_tube::cosmrs::Any`
pub record Any : Type 0 where
  pub type_url : Text
  pub value : Binary

pub record MsgExecuteContract : Type 0 where
  pub contract : Text
  pub msg : Binary
  pub funds : List ProtoCoin

pub record MsgInstantiateContract : Type 0 where
  pub admin : Text
  pub code_id : ℕ
  pub label : Text
  pub msg : Binary
  pub funds : List ProtoCoin

pub record MsgMigrateContract : Type 0 where
  pub contract : Text
  pub code_id : ℕ
  pub msg : Binary

pub record MsgUpdateAdmin : Type 0 where
  pub contract : Text
  pub new_admin : Text

pub record MsgClearAdmin : Type 0 where
  pub contract : Text

pub record MsgSend : Type 0 where
  pub to_address : Text
  pub amount : List ProtoCoin

-- `MsgDelegate` and `MsgUndelegate`
pub record MsgDelegate : Type 0 where
  pub validator_address : Text
  pub amount : Option ProtoCoin

pub record MsgBeginRedelegate : Type 0 where
  pub validator_src_address : Text
  pub validator_dst_address : Text
  pub amount : Option ProtoCoin

-- The variants of `CosmosMsg` that the runner builds.
pub data CosmosMsg : Type 0 where
  wasm_execute : Text → Binary → List Coin → CosmosMsg
  wasm_instantiate : ℕ → Option Text → Binary → List Coin → Text → CosmosMsg
  wasm_migrate : Text → ℕ → Binary → CosmosMsg
  wasm_update_admin : Text → Text → CosmosMsg
  wasm_clear_admin : Text → CosmosMsg
  bank_send : Text → List Coin → CosmosMsg
  staking_delegate : Text → Coin → CosmosMsg
  staking_undelegate : Text → Coin → CosmosMsg
  staking_redelegate : Text → Text → Coin → CosmosMsg
  stargate : Text → Binary → CosmosMsg

-- The type URLs and the decoders.
pub record Wire : Type 0 where
  pub execute_url : Text
  pub instantiate_url : Text
  pub migrate_url : Text
  pub update_admin_url : Text
  pub clear_admin_url : Text
  pub send_url : Text
  pub delegate_url : Text
  pub undelegate_url : Text
  pub redelegate_url : Text
  pub decode_execute : Binary → Result MsgExecuteContract
  pub decode_instantiate : Binary → Result MsgInstantiateContract
  pub decode_migrate : Binary → Result MsgMigrateContract
  pub decode_update_admin : Binary → Result MsgUpdateAdmin
  pub decode_clear_admin : Binary → Result MsgClearAdmin
  pub decode_send : Binary → Result MsgSend
  pub decode_delegate : Binary → Result MsgDelegate
  pub decode_undelegate : Binary → Result MsgDelegate
  pub decode_redelegate : Binary → Result MsgBeginRedelegate

-- A protobuf message type, with its decoder, default and encoder.
pub record Message (R : Type 0) : Type 0 where
  pub decode : Binary → Option R
  pub default : R
  pub encode : R → Binary

-- `cw_multi_test::App`: its state, the execution of messages by their sender, the bank's mint by
-- `sudo`, the code store, the addresses of the random signing keys in the order of their making,
-- and a message written as JSON and read back at another type of custom messages.
pub record App : Type 1 where
  pub State : Type 0
  pub Contract : Type 0
  pub execute_multi : Text → List CosmosMsg → Action State (List AppResponse)
  pub sudo_mint : Text → List Coin → Action State AppResponse
  pub store_code : Contract → State → ℕ × State
  pub random_address : ℕ → Text
  pub recode : CosmosMsg → Result CosmosMsg

-- `test_tube::ExecuteResponse`
pub record ExecuteResponse (R : Type 0) : Type 0 where
  pub value : R
  pub raw_data : Binary
  pub events : List Event
  pub gas_wanted : ℕ
  pub gas_used : ℕ

-- The app of a runner, and how many signing keys it has made.
pub record Runner (A : App) : Type 0 where
  pub app : A.State
  pub drawn : ℕ
