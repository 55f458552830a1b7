-- ===== src/Coreum/Fungible/Burn.antt =====
-- When `burn` of a fungible token succeeds, and what it does to the store.
use cw_it.Base.{ℕ, ◌≡◌, ◌↔◌, inl, inr, some, [], ◌∷◌, arith, Option-cases}
use cw_it.Text.{Text}
use cw_it.Chain.{
  Coin, ProtoCoin, AppResponse, push_event, ok, BankMsg, outcome, succeeds, fails, panics,
  unauthorized_burn,
}
use cw_it.Coreum.Types.{MsgBurn, World, Store}
use cw_it.Coreum.Fungible.{burn, burn_event, on_bank, check_denom, check_amount}
use cw_it.Coreum.Fungible.Checks.{
  MayHandle, IsAmount, check_denom-of_MayHandle, MayHandle-of_check_denom, check_amount-of_IsAmount,
  IsAmount-of_check_amount, check_denom_state, check_amount_state,
}

module _ (W : World) (msg : MsgBurn) (sender : Text) where
  -- What a successful call has checked and done.
  pub record Burns (s s' : Store W) (res : AppResponse) : Type 0 where
    pub coin : ProtoCoin
    pub amount : ℕ
    pub burned : AppResponse
    pub has_coin : msg.coin ≡ some coin
    pub may_burn : MayHandle W coin.denom sender msg.sender s
    pub is_amount : IsAmount coin.amount amount
    pub paid :
        on_bank W
          (W.router.execute sender
            (BankMsg.burn (record { denom = coin.denom; amount = amount } ∷ [])))
          s
        ≡ (ok burned, s')
    pub response : res ≡ push_event burned (burn_event sender amount)

  burn-of_Burns :
      {s s' : Store W} {res : AppResponse} → Burns s s' res → burn W msg sender s ≡ (ok res, s')
  unfolding burn
  burn-of_Burns {s} m = ground (
    arith,
    check_denom-of_MayHandle W unauthorized_burn m.coin.denom sender msg.sender s m.may_burn,
    check_amount-of_IsAmount W m.coin.amount m.amount s m.is_amount,
  )

  Burns-of_burn :
      {s s' : Store W} {res : AppResponse} → burn W msg sender s ≡ (ok res, s') → Burns s s' res
  unfolding burn
  Burns-of_burn {s} h = elim (Option-cases msg.coin) [
    | inl missing ↦ absurd (ground arith)
    | inr (coin, has_coin) ↦
        let checked = check_denom_state W unauthorized_burn coin.denom sender msg.sender s in
        let counted = check_amount_state W coin.amount s in
        elim (outcome (check_denom W unauthorized_burn coin.denom sender msg.sender s).0) [
          | succeeds u may ↦ elim (outcome (check_amount W coin.amount s).0) [
            | succeeds amount is ↦
                let c : Coin = record { denom = coin.denom; amount = amount } in
                elim (outcome (W.router.execute sender (BankMsg.burn (c ∷ [])) s.bank).0) [
                  | succeeds burned paid ↦ record {
                    coin = coin;
                    amount = amount;
                    burned = burned;
                    has_coin = has_coin;
                    may_burn = MayHandle-of_check_denom W _ coin.denom sender msg.sender s may;
                    is_amount = IsAmount-of_check_amount W coin.amount amount s is;
                    paid = ground (arith, checked, counted);
                    response = ground (arith, checked, counted);
                  }
                  | fails e failed ↦ absurd (ground (arith, checked, counted))
                  | panics e ↦ absurd (ground (arith, checked, counted))
                ]
            | fails e failed ↦ absurd (ground (arith, checked))
            | panics e ↦ absurd (ground (arith, checked))
          ]
          | fails e failed ↦ absurd (ground arith)
          | panics e ↦ absurd (ground arith)
        ]
  ]

  -- A Coreum burn succeeds exactly when the message has a coin, its denom has two parts of which
  -- the second is the sender, the sender that the message names is the sender, the denom is stored
  -- as issued, the amount is a positive `u128` and the bank burns it from the sender; the store is
  -- then as the burn left it, and the response is the bank's with the burn's event.
  pub token_burn_succeeds_iff :
      (s s' : Store W) (res : AppResponse) → (burn W msg sender s ≡ (ok res, s')) ↔ Burns s s' res
  token_burn_succeeds_iff s s' res = (Burns-of_burn, burn-of_Burns)
