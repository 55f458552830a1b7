-- ===== src/Coreum/Fungible.antt =====
-- `issue`, `mint` and `burn` of fungible tokens.
pub mod Checks
pub mod Mint
pub mod Burn
pub mod Initial
pub mod Issue
pub mod Denoms
pub mod Usable
pub mod Frame
use cw_it.Base.{
  ℕ, Bool, true, false, not, Option, none, some, List, [], ◌∷◌, ◌++◌, length, get_elem?, contains,
  leb, ltb, nat_eq, bytes_eq, ◌==◌, if◌then◌else◌, ◌&&◌, ◌||◌,
}
use cw_it.Text.{Text, codes, is_empty, is_digit, split, parse_u128, print_u128}
use cw_it.Regex.{one, times, up_to, at_end, is_lower, is_upper}
use cw_it.Chain.{
  Coin, ProtoCoin, Event, AppResponse, default_response, push_event, Error, Result, ok, err, Action,
  ◌>>=◌, ◌>>◌, pure, lift, expect, index, bail_if, gets, modify, BankMsg, BankSudo,
  subdenom_too_long, creator_too_long, creator_has_slash, creator_not_sender, subunit_format,
  symbol_format, subdenom_exists, missing_coin, invalid_denom, unauthorized_mint, unauthorized_burn,
  invalid_sender, unknown_denom, not_a_number, zero_amount, invalid_initial_amount,
}
use cw_it.SdkCoin.{coreum_coin_from_sdk_string}
use cw_it.Coreum.Types.{TokenFactory, MsgIssue, MsgMint, MsgBurn, World, Store}

-- `[a-zA-Z]`
is_letter : ℕ → Bool
unfolding is_lower is_upper
is_letter c = is_lower c || is_upper c

-- `[a-zA-Z0-9/:._-]`
is_denom_char : ℕ → Bool
unfolding is_letter is_digit nat_eq
is_denom_char c =
    is_letter c || is_digit c || c == b'/' || c == b':' || c == b'.' || c == b'_' || c == b'-'

-- `^[a-zA-Z][a-zA-Z0-9/:._-]{2,127}$`
unfoldable pub denom_re : Text → Bool
unfolding is_letter is_denom_char times up_to
denom_re = one is_letter (times 2 is_denom_char (up_to 125 is_denom_char at_end))

-- `format!("{}-{}", subunit, issuer)`
abbrev pub denom_of : Text → Text → Text
denom_of subunit issuer = subunit ++ (b'-' ∷ issuer)

abbrev pub issue_to_denom : MsgIssue → Text
issue_to_denom msg = denom_of msg.subunit msg.issuer

unfoldable pub issue_event : MsgIssue → Event
issue_event msg = record {
  ty = codes "/coreum.asset.ft.v1.EventIssued";
  attributes = (codes "denom", issue_to_denom msg) ∷ (codes "issuer", msg.issuer) ∷ [];
}

-- The recipient that the event of `mint` names.
abbrev pub recipient_of : MsgMint → Text
recipient_of msg = if is_empty msg.recipient then msg.sender else msg.recipient

pub mint_event : MsgMint → Text → ℕ → Event
mint_event msg denom amount = record {
  ty = codes "tf_mint";
  attributes =
      (codes "sender", msg.sender)
      ∷ (codes "recipient", recipient_of msg)
      ∷ (codes "denom", denom)
      ∷ (codes "amount", print_u128 amount)
      ∷ [];
}

pub burn_event : Text → ℕ → Event
burn_event sender amount = record {
  ty = codes "tf_burn";
  attributes = (codes "burn_from_address", sender) ∷ (codes "amount", print_u128 amount) ∷ [];
}

module _ (W : World) where
  abbrev pub Run : Type 0 → Type 0
  Run A = Action (Store W) A

  -- A call of the bank, on its part of the storage.
  abbrev pub on_bank : {A : Type 0} → Action W.router.Bank A → Run A
  on_bank act s = let (r, bank) = act s.bank in (r, record s { bank = bank })

  abbrev pub query_supply : Text → Run Coin
  query_supply denom s = (W.router.query_supply denom s.bank, s)

  abbrev pub bank_mint : Text → List Coin → Run AppResponse
  bank_mint to coins = on_bank (W.router.sudo (BankSudo.mint to coins))

  -- The initial amount, if there is one, is minted to the issuer.
  unfoldable pub mint_initial : MsgIssue → Run AppResponse
  mint_initial msg = elim (is_empty msg.initial_amount) [
    | true ↦ pure default_response
    | false ↦ do
      amount ← expect (parse_u128 msg.initial_amount) (invalid_initial_amount msg.initial_amount)
      elim (ltb 0 amount) [
        | true ↦ bank_mint msg.issuer (record { denom = issue_to_denom msg; amount = amount } ∷ [])
        | false ↦ pure default_response
      ]
  ]

  module _ (F : TokenFactory) where
    unfoldable pub check_issue : Text → MsgIssue → Run (Unit {0})
    unfolding bytes_eq nat_eq
    check_issue sender msg = do
      bail_if (ltb F.max_subdenom_len (length msg.subunit)) (subdenom_too_long F.max_subdenom_len)
      bail_if (ltb F.max_creator_len (length msg.issuer)) (creator_too_long F.max_creator_len)
      bail_if (contains msg.issuer b'/') creator_has_slash
      bail_if (not (msg.issuer == sender)) creator_not_sender
      bail_if (not (denom_re msg.subunit)) subunit_format
      bail_if (not (denom_re msg.symbol)) symbol_format

    -- The denom creation fee is burned from the sender.
    unfoldable pub charge_fee : Text → Run AppResponse
    charge_fee sender = do
      fee ← lift (coreum_coin_from_sdk_string F.denom_creation_fee)
      on_bank (W.router.execute sender (BankMsg.burn (fee ∷ [])))

    -- The token is stored before the supply is looked up and before the fee is paid.
    unfoldable pub issue : MsgIssue → Text → Run AppResponse
    unfolding nat_eq
    issue msg sender = do
      check_issue sender msg
      modify (λ s. record s { issued = W.issued.save s.issued (issue_to_denom msg) msg })
      supply ← query_supply (issue_to_denom msg)
      bail_if (not (supply.amount == 0)) subdenom_exists
      charge_fee sender
      res ← mint_initial msg
      pure (push_event res (issue_event msg))

  -- The checks that `mint` and `burn` make of the denom, of the sender and of the token.
  unfoldable pub check_denom : Error → Text → Text → Text → Run (Unit {0})
  unfolding bytes_eq nat_eq
  check_denom unauthorized denom sender msg_sender = do
    let parts = split b'-' denom
    bail_if (not (length parts == 2)) invalid_denom
    issuer ← index parts 1
    bail_if (not (issuer == sender)) unauthorized
    bail_if (not (sender == msg_sender)) invalid_sender
    issue ← gets (λ s. W.issued.may_load s.issued denom)
    expect issue (unknown_denom denom)
    pure tt

  unfoldable pub check_amount : Text → Run ℕ
  unfolding nat_eq
  check_amount text = do
    amount ← expect (parse_u128 text) not_a_number
    bail_if (amount == 0) zero_amount
    pure amount

  -- The coins go to the recipient of the message, also where it is empty: the sender that stands in
  -- for an empty recipient is named in the event alone.
  unfoldable pub mint : MsgMint → Text → Run AppResponse
  mint msg sender = do
    coin ← expect msg.coin missing_coin
    check_denom unauthorized_mint coin.denom sender msg.sender
    amount ← check_amount coin.amount
    res ← bank_mint msg.recipient (record { denom = coin.denom; amount = amount } ∷ [])
    pure (push_event res (mint_event msg coin.denom amount))

  unfoldable pub burn : MsgBurn → Text → Run AppResponse
  burn msg sender = do
    coin ← expect msg.coin missing_coin
    check_denom unauthorized_burn coin.denom sender msg.sender
    amount ← check_amount coin.amount
    res ← on_bank (
        W.router.execute sender
          (BankMsg.burn (record { denom = coin.denom; amount = amount } ∷ [])))
    pure (push_event res (burn_event sender amount))
