-- ===== src/TokenFactory/Mint.antt =====
-- When `mint` succeeds, and what it does to the bank.
use cw_it.Base.{
  ℕ, ◌≡◌, ◌≢◌, ◌⊎◌, ◌↔◌, inl, inr, some, [], ◌∷◌, length, get_elem?, arith, Option-cases,
}
use cw_it.Text.{Text, split, parse_u128}
use cw_it.Chain.{
  Coin, ProtoCoin, Binary, AppResponse, ok, Router, BankSudo, outcome, succeeds, fails, panics,
}
use cw_it.TokenFactory.{TokenFactory, Codec, MsgMint, mint, mint_response, recipient_of}

module _ (R : Router) (C : Codec) (F : TokenFactory) (sender : Text) (value : Binary) where
  -- What a successful call has checked and done. The shape test joins its two conditions by `or`.
  pub record Mints (bank bank' : R.Bank) (res : AppResponse) : Type 0 where
    pub msg : MsgMint
    pub coin : ProtoCoin
    pub amount : ℕ
    pub minted : AppResponse
    pub decoded : C.decode_mint value ≡ ok msg
    pub has_coin : msg.amount ≡ some coin
    pub shape :
        (length (split b'/' coin.denom) ≡ 3)
        ⊎ (get_elem? (split b'/' coin.denom) 0 ≡ some F.module_denom_prefix)
    pub is_creator : get_elem? (split b'/' coin.denom) 1 ≡ some sender
    pub is_sender : msg.sender ≡ sender
    pub parsed : parse_u128 coin.amount ≡ some amount
    pub is_positive : amount ≢ 0
    pub paid :
        R.sudo
          (BankSudo.mint (recipient_of msg) (record { denom = coin.denom; amount = amount } ∷ []))
          bank
        ≡ (ok minted, bank')
    pub response : res ≡ mint_response C msg coin.denom amount

  mint-of_Mints :
      {bank bank' : R.Bank} {res : AppResponse}
      → Mints bank bank' res
      → mint R C F sender value bank ≡ (ok res, bank')
  unfolding mint
  mint-of_Mints m = ground arith

  Mints-of_mint :
      {bank bank' : R.Bank} {res : AppResponse}
      → mint R C F sender value bank ≡ (ok res, bank')
      → Mints bank bank' res
  unfolding mint
  Mints-of_mint {bank} h = elim (outcome (C.decode_mint value)) [
    | succeeds msg decoded ↦ elim (Option-cases msg.amount) [
      | inr (coin, has_coin) ↦ elim (Option-cases (parse_u128 coin.amount)) [
        | inr (amount, parsed) ↦
            let c : Coin = record { denom = coin.denom; amount = amount } in
            elim (outcome (R.sudo (BankSudo.mint (recipient_of msg) (c ∷ [])) bank).0) [
              | succeeds minted paid ↦ record {
                msg = msg;
                coin = coin;
                amount = amount;
                minted = minted;
                decoded = decoded;
                has_coin = has_coin;
                shape = ground arith;
                is_creator = ground arith;
                is_sender = ground arith;
                parsed = parsed;
                is_positive = ground arith;
                paid = ground arith;
                response = ground arith;
              }
              | fails e failed ↦ absurd (ground arith)
              | panics e ↦ absurd (ground arith)
            ]
        | inl unparsed ↦ absurd (ground arith)
      ]
      | inl missing ↦ absurd (ground arith)
    ]
    | fails e failed ↦ absurd (ground arith)
    | panics e ↦ absurd (ground arith)
  ]

  -- An Osmosis mint succeeds exactly when the message decodes and has a coin, the denom has three
  -- parts or the module's prefix in front, its second part is the sender and so is the sender that
  -- the message names, the amount is a positive `u128` and the bank mints it to the recipient, or
  -- to the sender if the message names none; the bank is then as the minting left it.
  pub mint_succeeds_iff :
      (bank bank' : R.Bank) (res : AppResponse)
      → (mint R C F sender value bank ≡ (ok res, bank')) ↔ Mints bank bank' res
  mint_succeeds_iff bank bank' res = (Mints-of_mint, mint-of_Mints)
