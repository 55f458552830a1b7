-- ===== src/Coreum/Supply.antt =====
-- The supply of the denoms under the Coreum factory: what each message moves, and which account
-- the name of a denom names.
pub mod Handlers
pub mod Dispatch
pub mod Histories
use cw_it.Base.{
  ℕ, ◌+◌, ◌≡◌, ◌≢◌, refl, ap, sym, subst, ◌∙◌, Bool, true, false, Option, none, some, List, [], ◌∷◌,
  length, get_elem?, bytes_eq, nat_eq, ◌==◌, if◌then◌else◌, arith, Bool-cases, inl, inr, ◌⊎◌, ltb,
  Option-cases,
}
use cw_it.Text.{Text, split, parse_u128, is_empty}
use cw_it.Chain.{
  Coin, ProtoCoin, AppResponse, Result, ok, err, panicked, StargateMsg, BankMsg, Router, IsBank,
  count, lift, ◌>>=◌, count-other, count-zero, amount_in, amount_in-parsed, amount_in-other, if_ok,
  run, total, NoneOwns, run-balances, run-keeps,
}
use cw_it.SdkCoin.{coreum_coin_from_sdk_string}
use cw_it.Coreum.Types.{
  TokenFactory, MsgIssue, MsgMint, MsgBurn, MsgIssueClass, MsgNftMint, MsgNftBurn, MsgNftSend,
  World, Store,
}
use cw_it.Coreum.Fungible.{
  issue, mint, burn, denom_of, issue_to_denom, mint_initial, bank_mint, on_bank,
}
use cw_it.Coreum.Fungible.Issue.{Issues, with_token, issue_succeeds_iff}
use cw_it.Coreum.Fungible.Mint.{Mints, token_mint_succeeds_iff}
use cw_it.Coreum.Fungible.Burn.{Burns, token_burn_succeeds_iff}
use cw_it.Coreum.Nft.{issue_class, nft_mint, nft_burn, nft_send}
use cw_it.Coreum.Handle.{execute, if_cases, decoded_cases}

-- The initial amount of an issue, if it is stated.
abbrev pub initial_in : Text → MsgIssue → ℕ
initial_in d msg =
    if is_empty msg.initial_amount
    then 0
    else amount_in d (some (record { denom = issue_to_denom msg; amount = msg.initial_amount }))

module _ (W : World) (F : TokenFactory) (d : Text) where
  -- What a message adds to the supply of `d`, and what it takes off, if it is accepted.
  unfoldable pub minted : StargateMsg → ℕ
  unfolding bytes_eq
  minted msg =
      if msg.type_url == W.issue_url
      then if_ok (W.decode_issue msg.value) (initial_in d)
      else if msg.type_url == W.mint_url
      then if_ok (W.decode_mint msg.value) (λ m. amount_in d m.coin)
      else 0

  unfoldable pub burned : StargateMsg → ℕ
  unfolding bytes_eq
  burned msg =
      if msg.type_url == W.issue_url
      then if_ok (coreum_coin_from_sdk_string F.denom_creation_fee) (λ fee. count d (fee ∷ []))
      else if msg.type_url == W.mint_url
      then 0
      else if msg.type_url == W.burn_url
      then if_ok (W.decode_burn msg.value) (λ m. amount_in d m.coin)
      else 0

-- The account is the second part of the denom, or the issuer that an issue puts in its name.
abbrev pub NamedFor : Text → Text → Type 0
NamedFor d sender =
    (get_elem? (split b'-' d) 1 ≡ some sender) ⊎ ((subunit : Text) × (d ≡ denom_of subunit sender))

module _ (W : World) (B : IsBank W.router) (d : Text) where
  abbrev pub supply : Store W → ℕ
  supply s = B.supply d s.bank
