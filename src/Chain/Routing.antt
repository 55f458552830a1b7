-- ===== src/Chain/Routing.antt =====
-- `CosmosRouter` as the modules use it: the bank's query, its messages and its sudo messages. The
-- bank keeps its own part of the storage.
use cw_it.Base.{List}
use cw_it.Text.{Text}
use cw_it.Chain.Monad.{Result, Action}
use cw_it.Chain.Types.{Coin, AppResponse}

pub data BankMsg : Type 0 where
  send : Text → List Coin → BankMsg
  burn : List Coin → BankMsg

pub data BankSudo : Type 0 where
  mint : Text → List Coin → BankSudo

pub record Router : Type 1 where
  pub Bank : Type 0
  -- `router.query` with `BankQuery::Supply`, decoded
  pub query_supply : Text → Bank → Result Coin
  -- `router.execute` with a bank message, by its sender
  pub execute : Text → BankMsg → Action Bank AppResponse
  pub sudo : BankSudo → Action Bank AppResponse
