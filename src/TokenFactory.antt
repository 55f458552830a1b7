-- ===== src/TokenFactory.antt =====
-- The Osmosis token factory, src/multi_test/modules/token_factory.rs. A denom is
-- `{prefix}/{creator}/{subdenom}`; the module keeps no state of its own, and acts on the bank.
mod Types
pub mod Create
pub mod Mint
pub mod Burn
pub mod Owner
pub mod Supply
pub use Types.*
use cw_it.Base.{
  ℕ, Bool, true, false, not, Option, none, some, List, [], ◌∷◌, ◌++◌, length, contains, leb, ltb,
  nat_eq, bytes_eq, ◌==◌, if◌then◌else◌,
}
use cw_it.Text.{Text, codes, is_empty, split, parse_u128, print_u128}
use cw_it.Chain.{
  Coin, ProtoCoin, Event, Binary, AppResponse, default_response, push_event, StargateMsg,
  StargateQuery, unexpected_query, Error, Result, ok, err, Action, ◌>>=◌, ◌>>◌, pure, lift, expect,
  index, bail_if, Router, BankMsg, BankSudo, external, subdenom_too_long, creator_too_long,
  creator_has_slash, creator_not_sender, subdenom_exists, missing_amount, invalid_denom,
  unauthorized_mint, unauthorized_burn, invalid_sender, not_a_number, zero_amount,
  unknown_message_type,
}
use cw_it.SdkCoin.{coin_from_sdk_string}

-- `format!("{}/{}/{}", prefix, creator, subdenom)`
abbrev pub denom_of : Text → Text → Text → Text
denom_of prefix creator subdenom = prefix ++ (b'/' ∷ (creator ++ (b'/' ∷ subdenom)))

-- An empty `mint_to_address` stands for the sender.
abbrev pub recipient_of : MsgMint → Text
recipient_of msg = if is_empty msg.mint_to_address then msg.sender else msg.mint_to_address

-- The responses of the three messages.
module _ (C : Codec) where
  unfoldable pub create_denom_response : Text → Text → AppResponse
  create_denom_response creator denom = record {
    events =
        record {
          ty = codes "create_denom";
          attributes = (codes "creator", creator) ∷ (codes "new_token_denom", denom) ∷ [];
        }
        ∷ [];
    data_bytes = some (C.encode_create_denom_response denom);
  }

  pub mint_response : MsgMint → Text → ℕ → AppResponse
  mint_response msg denom amount = record {
    events =
        record {
          ty = codes "tf_mint";
          attributes =
              (codes "sender", msg.sender)
              ∷ (codes "mint_to_address", msg.mint_to_address)
              ∷ (codes "recipient", recipient_of msg)
              ∷ (codes "denom", denom)
              ∷ (codes "amount", print_u128 amount)
              ∷ [];
        }
        ∷ [];
    data_bytes = some C.encoded_mint_response;
  }

  pub burn_response : Text → ℕ → AppResponse
  burn_response sender amount = record {
    events =
        record {
          ty = codes "tf_burn";
          attributes =
              (codes "burn_from_address", sender) ∷ (codes "amount", print_u128 amount) ∷ [];
        }
        ∷ [];
    data_bytes = some C.encoded_burn_response;
  }

module _ (R : Router) (C : Codec) (F : TokenFactory) where
  abbrev Bank : Type 0
  Bank = R.Bank

  -- The guards of `create_denom`, in order.
  check_create : Text → MsgCreateDenom → Action Bank (Unit {0})
  unfolding bytes_eq nat_eq
  check_create sender msg = do
    bail_if (ltb F.max_subdenom_len (length msg.subdenom)) (subdenom_too_long F.max_subdenom_len)
    bail_if (ltb F.max_creator_len (length msg.sender)) (creator_too_long F.max_creator_len)
    bail_if (contains msg.sender b'/') creator_has_slash
    bail_if (not (msg.sender == sender)) creator_not_sender

  -- The denom creation fee is burned from the sender.
  charge_fee : Text → Action Bank AppResponse
  charge_fee sender = do
    fee ← lift (coin_from_sdk_string F.denom_creation_fee)
    R.execute sender (BankMsg.burn (fee ∷ []))

  unfoldable pub create_denom : Text → Binary → Action Bank AppResponse
  unfolding check_create charge_fee
  create_denom sender value = do
    msg ← lift (C.decode_create_denom value)
    check_create sender msg
    let denom = denom_of F.module_denom_prefix msg.sender msg.subdenom
    supply ← λ bank. (R.query_supply denom bank, bank)
    bail_if (not (supply.amount == 0)) subdenom_exists
    charge_fee sender
    pure (create_denom_response C msg.sender denom)

  -- `parts.len() != 3 && parts[0] != self.module_denom_prefix`
  is_wrong_shape : List Text → Action Bank Bool
  unfolding bytes_eq nat_eq
  is_wrong_shape parts = elim (length parts == 3) [
    | true ↦ pure false
    | false ↦ do head ← index parts 0; pure (not (head == F.module_denom_prefix))
  ]

  -- The checks that `mint` and `burn` make of the denom and of the sender; they differ in one error.
  check_denom : Error → Text → Text → Text → Action Bank (Unit {0})
  unfolding bytes_eq is_wrong_shape
  check_denom unauthorized denom sender msg_sender = do
    let parts = split b'/' denom
    wrong ← is_wrong_shape parts
    bail_if wrong invalid_denom
    creator ← index parts 1
    bail_if (not (creator == sender)) unauthorized
    bail_if (not (sender == msg_sender)) invalid_sender

  -- `Uint128::from_str`, and the test for zero.
  check_amount : Text → Action Bank ℕ
  unfolding nat_eq
  check_amount text = do
    amount ← expect (parse_u128 text) not_a_number
    bail_if (amount == 0) zero_amount
    pure amount

  unfoldable pub mint : Text → Binary → Action Bank AppResponse
  unfolding check_denom check_amount
  mint sender value = do
    msg ← lift (C.decode_mint value)
    coin ← expect msg.amount missing_amount
    check_denom unauthorized_mint coin.denom sender msg.sender
    amount ← check_amount coin.amount
    R.sudo (BankSudo.mint (recipient_of msg) (record { denom = coin.denom; amount = amount } ∷ []))
    pure (mint_response C msg coin.denom amount)

  unfoldable pub burn : Text → Binary → Action Bank AppResponse
  unfolding check_denom check_amount
  burn sender value = do
    msg ← lift (C.decode_burn value)
    coin ← expect msg.amount missing_amount
    check_denom unauthorized_burn coin.denom sender msg.sender
    amount ← check_amount coin.amount
    R.execute sender (BankMsg.burn (record { denom = coin.denom; amount = amount } ∷ []))
    pure (burn_response C sender amount)

  -- `match type_url.as_str()`
  handle_any : Text → Text → Binary → Action Bank AppResponse
  unfolding bytes_eq
  handle_any sender type_url value bank =
      if type_url == C.create_denom_url
      then create_denom sender value bank
      else if type_url == C.mint_url
      then mint sender value bank
      else if type_url == C.burn_url
      then burn sender value bank
      else (err (unknown_message_type type_url), bank)

  -- `Module::execute`; the error is passed on by its message.
  unfoldable pub execute : Text → StargateMsg → Action Bank AppResponse
  unfolding handle_any
  execute sender msg = handle_any sender msg.type_url msg.value

  -- `Module::query` answers no query.
  unfoldable pub query : StargateQuery → Action Bank Binary
  query request bank = (err (unexpected_query request.path request.data_bytes), bank)

  -- `Module::sudo` does nothing.
  unfoldable pub sudo : Action Bank AppResponse
  sudo = pure default_response
