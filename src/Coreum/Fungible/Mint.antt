-- ===== src/Coreum/Fungible/Mint.antt =====
-- When `mint` of a fungible token succeeds, and what it does to the store.
use cw_it.Base.{ℕ, ◌≡◌, ◌↔◌, inl, inr, some, [], ◌∷◌, arith, Option-cases}
use cw_it.Text.{Text}
use cw_it.Chain.{
  Coin, ProtoCoin, AppResponse, push_event, ok, BankSudo, outcome, succeeds, fails, panics,
  unauthorized_mint,
}
use cw_it.Coreum.Types.{MsgMint, World, Store}
use cw_it.Coreum.Fungible.{mint, mint_event, bank_mint, check_denom, check_amount}
use cw_it.Coreum.Fungible.Checks.{
  MayHandle, IsAmount, check_denom-of_MayHandle, MayHandle-of_check_denom, check_amount-of_IsAmount,
  IsAmount-of_check_amount, check_denom_state, check_amount_state,
}

module _ (W : World) (msg : MsgMint) (sender : Text) where
  -- What a successful call has checked and done. The bank mints to `msg.recipient` as it stands.
  pub record Mints (s s' : Store W) (res : AppResponse) : Type 0 where
    pub coin : ProtoCoin
    pub amount : ℕ
    pub minted : AppResponse
    pub has_coin : msg.coin ≡ some coin
    pub may_mint : MayHandle W coin.denom sender msg.sender s
    pub is_amount : IsAmount coin.amount amount
    pub paid :
        bank_mint W msg.recipient (record { denom = coin.denom; amount = amount } ∷ []) s
        ≡ (ok minted, s')
    pub response : res ≡ push_event minted (mint_event msg coin.denom amount)

  mint-of_Mints :
      {s s' : Store W} {res : AppResponse} → Mints s s' res → mint W msg sender s ≡ (ok res, s')
  unfolding mint
  mint-of_Mints {s} m = ground (
    arith,
    check_denom-of_MayHandle W unauthorized_mint m.coin.denom sender msg.sender s m.may_mint,
    check_amount-of_IsAmount W m.coin.amount m.amount s m.is_amount,
  )

  Mints-of_mint :
      {s s' : Store W} {res : AppResponse} → mint W msg sender s ≡ (ok res, s') → Mints s s' res
  unfolding mint
  Mints-of_mint {s} h = elim (Option-cases msg.coin) [
    | inl missing ↦ absurd (ground arith)
    | inr (coin, has_coin) ↦
        let checked = check_denom_state W unauthorized_mint coin.denom sender msg.sender s in
        let counted = check_amount_state W coin.amount s in
        elim (outcome (check_denom W unauthorized_mint coin.denom sender msg.sender s).0) [
          | succeeds u may ↦ elim (outcome (check_amount W coin.amount s).0) [
            | succeeds amount is ↦
                let c : Coin = record { denom = coin.denom; amount = amount } in
                elim (outcome (W.router.sudo (BankSudo.mint msg.recipient (c ∷ [])) s.bank).0) [
                  | succeeds minted paid ↦ record {
                    coin = coin;
                    amount = amount;
                    minted = minted;
                    has_coin = has_coin;
                    may_mint = MayHandle-of_check_denom W _ coin.denom sender msg.sender s may;
                    is_amount = IsAmount-of_check_amount W coin.amount amount s is;
                    paid = ground (arith, checked, counted);
                    response = ground (arith, checked, counted);
                  }
                  | fails e failed ↦ absurd (ground (arith, checked, counted))
                  | panics e ↦ absurd (ground (arith, checked, counted))
                ]
            | fails e failed ↦ absurd (ground (arith, checked))
            | panics e ↦ absurd (ground (arith, checked))
          ]
          | fails e failed ↦ absurd (ground arith)
          | panics e ↦ absurd (ground arith)
        ]
  ]

  -- A Coreum mint succeeds exactly when the message has a coin, its denom has two parts of which
  -- the second is the sender, the sender that the message names is the sender, the denom is stored
  -- as issued, the amount is a positive `u128` and the bank mints it to the message's recipient;
  -- the store is then as the minting left it, and the response is the bank's with the mint's
  -- event.
  pub token_mint_succeeds_iff :
      (s s' : Store W) (res : AppResponse) → (mint W msg sender s ≡ (ok res, s')) ↔ Mints s s' res
  token_mint_succeeds_iff s s' res = (Mints-of_mint, mint-of_Mints)
