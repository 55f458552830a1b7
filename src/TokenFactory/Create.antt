-- ===== src/TokenFactory/Create.antt =====
-- When `create_denom` succeeds, and what it does to the bank.
use cw_it.Base.{◌≤◌, ◌≡◌, ◌↔◌, false, [], ◌∷◌, length, contains, nat_eq, arith}
use cw_it.Text.{Text}
use cw_it.Chain.{Coin, Binary, AppResponse, ok, Router, BankMsg, outcome, succeeds, fails, panics}
use cw_it.SdkCoin.{coin_from_sdk_string}
use cw_it.TokenFactory.{
  TokenFactory, Codec, MsgCreateDenom, denom_of, create_denom, create_denom_response,
}

module _ (R : Router) (C : Codec) (F : TokenFactory) (sender : Text) (value : Binary) where
  -- What a successful call has checked and done.
  pub record Creates (bank bank' : R.Bank) (res : AppResponse) : Type 0 where
    pub msg : MsgCreateDenom
    pub supply : Coin
    pub fee : Coin
    pub burned : AppResponse
    pub decoded : C.decode_create_denom value ≡ ok msg
    pub subdenom_fits : length msg.subdenom ≤ F.max_subdenom_len
    pub creator_fits : length msg.sender ≤ F.max_creator_len
    pub no_slash : contains msg.sender b'/' ≡ false
    pub is_sender : msg.sender ≡ sender
    pub queried :
        R.query_supply (denom_of F.module_denom_prefix msg.sender msg.subdenom) bank ≡ ok supply
    pub is_new : supply.amount ≡ 0
    pub fee_read : coin_from_sdk_string F.denom_creation_fee ≡ ok fee
    pub charged : R.execute sender (BankMsg.burn (fee ∷ [])) bank ≡ (ok burned, bank')
    pub response :
        res
        ≡ create_denom_response C msg.sender
            (denom_of F.module_denom_prefix msg.sender msg.subdenom)

  create_denom-of_Creates :
      {bank bank' : R.Bank} {res : AppResponse}
      → Creates bank bank' res
      → create_denom R C F sender value bank ≡ (ok res, bank')
  unfolding create_denom
  create_denom-of_Creates c = ground arith

  Creates-of_create_denom :
      {bank bank' : R.Bank} {res : AppResponse}
      → create_denom R C F sender value bank ≡ (ok res, bank')
      → Creates bank bank' res
  unfolding create_denom
  Creates-of_create_denom {bank} h = elim (outcome (C.decode_create_denom value)) [
    | succeeds msg decoded ↦
        elim (outcome
          (R.query_supply (denom_of F.module_denom_prefix msg.sender msg.subdenom) bank)) [
            | succeeds supply queried ↦ elim (outcome (coin_from_sdk_string F.denom_creation_fee)) [
              | succeeds fee fee_read ↦
                  elim (outcome (R.execute sender (BankMsg.burn (fee ∷ [])) bank).0) [
                    | succeeds burned charged ↦ record {
                      msg = msg;
                      supply = supply;
                      fee = fee;
                      burned = burned;
                      decoded = decoded;
                      subdenom_fits = ground arith;
                      creator_fits = ground arith;
                      no_slash = ground arith;
                      is_sender = ground arith;
                      queried = queried;
                      is_new = ground arith;
                      fee_read = fee_read;
                      charged = ground arith;
                      response = ground arith;
                    }
                    | fails e failed ↦ absurd (ground arith)
                    | panics e ↦ absurd (ground arith)
                  ]
              | fails e failed ↦ absurd (ground arith)
              | panics e ↦ absurd (ground arith)
            ]
            | fails e failed ↦ absurd (ground arith)
            | panics e ↦ absurd (ground arith)
          ]
    | fails e failed ↦ absurd (ground arith)
    | panics e ↦ absurd (ground arith)
  ]

  -- A call of `create_denom` succeeds exactly when the message decodes, the subdenom and the
  -- creator fit, the creator is the sender and holds no slash, the denom has no supply, the fee's
  -- text is read as a coin and the bank burns it from the sender; the bank is then as the burn
  -- left it, and the response names the new denom.
  pub create_denom_succeeds_iff :
      (bank bank' : R.Bank) (res : AppResponse)
      → (create_denom R C F sender value bank ≡ (ok res, bank')) ↔ Creates bank bank' res
  create_denom_succeeds_iff bank bank' res = (Creates-of_create_denom, create_denom-of_Creates)
