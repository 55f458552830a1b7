-- ===== src/TokenFactory/Burn.antt =====
-- When `burn` succeeds, and what it does to the bank.
use cw_it.Base.{
  ℕ, ◌≡◌, ◌≢◌, ◌⊎◌, ◌↔◌, inl, inr, some, [], ◌∷◌, length, get_elem?, arith, Option-cases,
}
use cw_it.Text.{Text, split, parse_u128}
use cw_it.Chain.{
  Coin, ProtoCoin, Binary, AppResponse, ok, Router, BankMsg, outcome, succeeds, fails, panics,
}
use cw_it.TokenFactory.{TokenFactory, Codec, MsgBurn, burn, burn_response}

module _ (R : Router) (C : Codec) (F : TokenFactory) (sender : Text) (value : Binary) where
  -- What a successful call has checked and done. The shape test joins its two conditions by `or`.
  pub record Burns (bank bank' : R.Bank) (res : AppResponse) : Type 0 where
    pub msg : MsgBurn
    pub coin : ProtoCoin
    pub amount : ℕ
    pub burned : AppResponse
    pub decoded : C.decode_burn value ≡ ok msg
    pub has_coin : msg.amount ≡ some coin
    pub shape :
        (length (split b'/' coin.denom) ≡ 3)
        ⊎ (get_elem? (split b'/' coin.denom) 0 ≡ some F.module_denom_prefix)
    pub is_creator : get_elem? (split b'/' coin.denom) 1 ≡ some sender
    pub is_sender : msg.sender ≡ sender
    pub parsed : parse_u128 coin.amount ≡ some amount
    pub is_positive : amount ≢ 0
    pub paid :
        R.execute sender (BankMsg.burn (record { denom = coin.denom; amount = amount } ∷ [])) bank
        ≡ (ok burned, bank')
    pub response : res ≡ burn_response C sender amount

  burn-of_Burns :
      {bank bank' : R.Bank} {res : AppResponse}
      → Burns bank bank' res
      → burn R C F sender value bank ≡ (ok res, bank')
  unfolding burn
  burn-of_Burns m = ground arith

  Burns-of_burn :
      {bank bank' : R.Bank} {res : AppResponse}
      → burn R C F sender value bank ≡ (ok res, bank')
      → Burns bank bank' res
  unfolding burn
  Burns-of_burn {bank} h = elim (outcome (C.decode_burn value)) [
    | succeeds msg decoded ↦ elim (Option-cases msg.amount) [
      | inr (coin, has_coin) ↦ elim (Option-cases (parse_u128 coin.amount)) [
        | inr (amount, parsed) ↦
            let c : Coin = record { denom = coin.denom; amount = amount } in
            elim (outcome (R.execute sender (BankMsg.burn (c ∷ [])) bank).0) [
              | succeeds burned paid ↦ record {
                msg = msg;
                coin = coin;
                amount = amount;
                burned = burned;
                decoded = decoded;
                has_coin = has_coin;
                shape = ground arith;
                is_creator = ground arith;
                is_sender = ground arith;
                parsed = parsed;
                is_positive = ground arith;
                paid = ground arith;
                response = ground arith;
              }
              | fails e failed ↦ absurd (ground arith)
              | panics e ↦ absurd (ground arith)
            ]
        | inl unparsed ↦ absurd (ground arith)
      ]
      | inl missing ↦ absurd (ground arith)
    ]
    | fails e failed ↦ absurd (ground arith)
    | panics e ↦ absurd (ground arith)
  ]

  -- An Osmosis burn succeeds exactly when the message decodes and has a coin, the denom has three
  -- parts or the module's prefix in front, its second part is the sender and so is the sender that
  -- the message names, the amount is a positive `u128` and the bank burns it from the sender; the
  -- bank is then as the burn left it.
  pub burn_succeeds_iff :
      (bank bank' : R.Bank) (res : AppResponse)
      → (burn R C F sender value bank ≡ (ok res, bank')) ↔ Burns bank bank' res
  burn_succeeds_iff bank bank' res = (Burns-of_burn, burn-of_Burns)
