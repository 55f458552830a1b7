-- ===== src/Client.antt =====
-- The clients that test_tube puts on a runner, `Wasm` and `Bank`, and `Runner::execute`, as far as
-- the helpers and the robots call them. They are code outside this repository: a record of functions
-- on the runner's state.
use cw_it.Base.{ℕ, Option, List}
use cw_it.Text.{Text}
use cw_it.Chain.{Coin, ProtoCoin, Event, Result, Action}

-- How an account pays: by an estimate, at a gas price and with a factor for the gas, or a fixed fee.
pub data FeeSetting : Type 0 where
  auto : (gas_price : Coin) → (gas_adjustment : ℕ) → FeeSetting
  custom : (amount : Coin) → (gas_limit : ℕ) → FeeSetting

-- `SigningAccount`, by its address, the prefix of its addresses and its fee setting. A factor, which
-- is a floating-point number in the source, is not computed with and stands for its bits.
pub record Account : Type 0 where
  pub address : Text
  pub prefix : Text
  pub fee_setting : FeeSetting

-- `Wasm`, at the types of the messages that instantiate and execute the contracts: `instantiate`
-- gives the address in the response's data, `execute` the response's events.
pub record Wasm (S I E : Type 0) : Type 0 where
  pub instantiate : ℕ → I → Option Text → Option Text → List Coin → Account → Action S Text
  pub execute : Text → E → List Coin → Account → Action S (List Event)

pub record BankMsgSend : Type 0 where
  pub from_address : Text
  pub to_address : Text
  pub amount : List ProtoCoin

-- `Bank`: the queries give the response's fields.
pub record Bank (S : Type 0) : Type 0 where
  pub send : BankMsgSend → Account → Action S (List Event)
  pub query_balance : Text → Text → S → Result (Option ProtoCoin)
  pub query_all_balances : Text → S → Result (List ProtoCoin)
