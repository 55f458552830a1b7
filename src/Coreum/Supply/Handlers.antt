-- ===== src/Coreum/Supply/Handlers.antt =====
-- What the handlers of fungible tokens move.
use cw_it.Base.{
  ℕ, ◌+◌, ◌≡◌, refl, ap, sym, subst, some, List, [], ◌∷◌, bytes_eq, nat_eq, arith, Bool-cases, inl,
  inr, ltb, Option-cases,
}
use cw_it.Text.{Text, parse_u128, is_empty}
use cw_it.Chain.{
  Coin, AppResponse, ok, BankMsg, IsBank, count, count-other, count-zero, amount_in,
  amount_in-parsed, amount_in-other, if_ok,
}
use cw_it.SdkCoin.{coreum_coin_from_sdk_string}
use cw_it.Coreum.Types.{TokenFactory, MsgIssue, MsgMint, MsgBurn, World, Store}
use cw_it.Coreum.Fungible.{issue, mint, burn, issue_to_denom, mint_initial, bank_mint, on_bank}
use cw_it.Coreum.Fungible.Issue.{with_token, issue_succeeds_iff}
use cw_it.Coreum.Fungible.Initial.{mint_initial-of_InitialPaid}
use cw_it.Coreum.Fungible.Mint.{token_mint_succeeds_iff}
use cw_it.Coreum.Fungible.Burn.{token_burn_succeeds_iff}
use cw_it.Coreum.Supply.{initial_in, NamedFor, supply}

pub initial-other :
    (d : Text) (msg : MsgIssue) → (d ≡ issue_to_denom msg → ⊥) → initial_in d msg ≡ 0
initial-other d msg other = elim (Bool-cases (is_empty msg.initial_amount)) [
  | inl none_stated ↦ rw none_stated refl
  | inr stated ↦
      rw stated (
        amount_in-other d (record { denom = issue_to_denom msg; amount = msg.initial_amount })
          other)
]

pub not_own :
    (d sender : Text)
    → (NamedFor d sender → ⊥)
    → (denom : Text) (n : ℕ) → NamedFor denom sender
    → count d (record { denom = denom; amount = n } ∷ []) ≡ 0
not_own d sender other denom n own =
    count-other d denom n (λ same. other (subst (λ x. NamedFor x sender) (sym same) own))

module _ (W : World) (B : IsBank W.router) (d : Text) where
  pub bank_mint-adds :
      (to : Text) (coins : List Coin) (s s' : Store W) (res : AppResponse)
      → bank_mint W to coins s ≡ (ok res, s')
      → supply W B d s' ≡ supply W B d s + count d coins
  bank_mint-adds to coins s s' res h =
      B.mint_adds to coins s.bank s'.bank res (ap (λ q. (q.0, q.1.bank)) h) d

  pub bank_burn-takes :
      (sender : Text) (coins : List Coin) (s s' : Store W) (res : AppResponse)
      → on_bank W (W.router.execute sender (BankMsg.burn coins)) s ≡ (ok res, s')
      → supply W B d s' + count d coins ≡ supply W B d s
  bank_burn-takes sender coins s s' res h =
      B.burn_takes sender coins s.bank s'.bank res (ap (λ q. (q.0, q.1.bank)) h) d

  mint_initial-adds :
      (msg : MsgIssue) (s s' : Store W) (res : AppResponse)
      → mint_initial W msg s ≡ (ok res, s')
      → supply W B d s' ≡ supply W B d s + initial_in d msg
  unfolding mint_initial
  mint_initial-adds msg s s' res h = elim (Bool-cases (is_empty msg.initial_amount)) [
    | inl none_stated ↦
        let same : supply W B d s ≡ supply W B d s' = ground (arith, h, none_stated) in
        rw none_stated (omega (arith, same))
    | inr stated ↦ elim (Option-cases (parse_u128 msg.initial_amount)) [
      | inl unparsed ↦ absurd (ground (arith, h, stated, unparsed))
      | inr (n, parsed) ↦
          let asked =
            amount_in-parsed d
              (some (record { denom = issue_to_denom msg; amount = msg.initial_amount }))
              (record { denom = issue_to_denom msg; amount = msg.initial_amount }) n refl parsed in
          elim (Bool-cases (ltb 0 n)) [
            | inl positive ↦
                let given =
                  bank_mint-adds msg.issuer (record { denom = issue_to_denom msg; amount = n } ∷ [])
                    s s' res (ground (arith, h, stated, parsed, positive)) in
                rw stated (omega (arith, given, asked))
            | inr no_amount ↦
                let same : supply W B d s ≡ supply W B d s' =
                  ground (arith, h, stated, parsed, no_amount) in
                let none_given = count-zero d (issue_to_denom msg) n (ground (arith, no_amount)) in
                rw stated (omega (arith, same, asked, none_given))
          ]
    ]
  ]

  pub issue-balances :
      (F : TokenFactory) (msg : MsgIssue) (sender : Text) (s s' : Store W) (res : AppResponse)
      → issue W F msg sender s ≡ (ok res, s')
      → supply W B d s'
          + if_ok (coreum_coin_from_sdk_string F.denom_creation_fee) (λ fee. count d (fee ∷ []))
        ≡ supply W B d s + initial_in d msg
  issue-balances F msg sender s s' res h =
      let made = (issue_succeeds_iff W F msg sender s s' res).0 h in
      let paid =
        bank_burn-takes sender (made.fee ∷ []) (with_token W F msg sender s) made.s₁ made.burned
          made.charged in
      let given =
        mint_initial-adds msg made.s₁ s' made.minted
          (mint_initial-of_InitialPaid W msg made.paid) in
      rw made.fee_read (omega (arith, paid, given))

  pub mint-balances :
      (msg : MsgMint) (sender : Text) (s s' : Store W) (res : AppResponse)
      → mint W msg sender s ≡ (ok res, s')
      → supply W B d s' ≡ supply W B d s + amount_in d msg.coin
  mint-balances msg sender s s' res h =
      let made = (token_mint_succeeds_iff W msg sender s s' res).0 h in
      let paid = bank_mint-adds msg.recipient _ s s' made.minted made.paid in
      let asked =
        amount_in-parsed d msg.coin made.coin made.amount made.has_coin made.is_amount.parsed in
      omega (arith, paid, asked)

  pub burn-balances :
      (msg : MsgBurn) (sender : Text) (s s' : Store W) (res : AppResponse)
      → burn W msg sender s ≡ (ok res, s')
      → supply W B d s' + amount_in d msg.coin ≡ supply W B d s
  burn-balances msg sender s s' res h =
      let made = (token_burn_succeeds_iff W msg sender s s' res).0 h in
      let paid = bank_burn-takes sender _ s s' made.burned made.paid in
      let asked =
        amount_in-parsed d msg.coin made.coin made.amount made.has_coin made.is_amount.parsed in
      omega (arith, paid, asked)
