-- ===== src/Tests/Samples.antt =====
-- A small bank, and codecs whose decoders give one message whatever the bytes are.
use cw_it.Base.{ℕ, ◌+◌, some, List, [], ◌∷◌, ◌++◌, bytes_eq, ◌==◌, if◌then◌else◌}
use cw_it.Text.{Text, codes}
use cw_it.Chain.{Coin, AppResponse, default_response, Result, ok, Router, BankMsg, BankSudo}
use cw_it.TokenFactory.{Codec, MsgCreateDenom, MsgMint, MsgBurn}

abbrev pub alice : Text
alice = codes "alice"

abbrev pub bob : Text
bob = codes "bob"

-- What is minted and burned, newest first, and the supply of the mints.
abbrev pub Ledger : Type 0
Ledger = List Coin

abbrev pub supply_of : Text → Ledger → ℕ
supply_of d [] = 0
supply_of d (c ∷ l) = let rest = supply_of d l in if d == c.denom then c.amount + rest else rest

abbrev pub bank_execute : Text → BankMsg → Ledger → Result AppResponse × Ledger
bank_execute sender (BankMsg.send to coins) l = (ok default_response, l)
bank_execute sender (BankMsg.burn coins) l = (ok default_response, l)

abbrev pub bank_sudo : BankSudo → Ledger → Result AppResponse × Ledger
bank_sudo (BankSudo.mint to coins) l = (ok default_response, coins ++ l)

abbrev pub small_bank : Router
small_bank = record {
  Bank = Ledger;
  query_supply = λ d l. ok (record { denom = d; amount = supply_of d l });
  execute = bank_execute;
  sudo = bank_sudo;
}

-- The messages of Alice: a new denom gold, a mint and a burn of a denom in an amount.
abbrev pub new_gold : MsgCreateDenom
new_gold = record { sender = alice; subdenom = codes "gold" }

abbrev pub mint_of : Text → MsgMint
mint_of denom = record {
  sender = alice;
  amount = some (record { denom = denom; amount = codes "5" });
  mint_to_address = codes "";
}

abbrev pub burn_of : Text → MsgBurn
burn_of denom = record {
  sender = alice;
  amount = some (record { denom = denom; amount = codes "5" });
}

abbrev pub codec_for : Text → Codec
codec_for denom = record {
  create_denom_url = codes "/create";
  mint_url = codes "/mint";
  burn_url = codes "/burn";
  decode_create_denom = λ _. ok new_gold;
  decode_mint = λ _. ok (mint_of denom);
  decode_burn = λ _. ok (burn_of denom);
  encode_create_denom_response = λ d. d;
  encoded_mint_response = [];
  encoded_burn_response = [];
}

abbrev pub gold : Text
gold = codes "factory/alice/gold"
