-- ===== src/Chain/Types.antt =====
-- Coins, events and responses (cosmwasm_std, cw_multi_test and the protobuf types), and const_coin.rs.
use cw_it.Base.{ℕ, Option, none, List, [], ◌∷◌, ◌++◌}
use cw_it.Text.{Text}

-- `cosmwasm_std::Coin`: the amount is a `Uint128`.
pub record Coin : Type 0 where
  pub denom : Text
  pub amount : ℕ

-- The protobuf coin, whose amount is text.
pub record ProtoCoin : Type 0 where
  pub denom : Text
  pub amount : Text

pub record Event : Type 0 where
  pub ty : Text
  pub attributes : List (Text × Text)

-- The bytes of an encoded message.
abbrev pub Binary : Type 0
Binary = List ℕ

pub record AppResponse : Type 0 where
  pub events : List Event
  pub data_bytes : Option Binary

abbrev pub default_response : AppResponse
default_response = record { events = []; data_bytes = none }

-- `res.events.push(event)`
abbrev pub push_event : AppResponse → Event → AppResponse
push_event res event = record res { events = res.events ++ event ∷ [] }

pub record StargateMsg : Type 0 where
  pub type_url : Text
  pub value : Binary

pub record StargateQuery : Type 0 where
  pub path : Text
  pub data_bytes : Binary
