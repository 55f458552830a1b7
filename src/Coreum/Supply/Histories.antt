-- ===== src/Coreum/Supply/Histories.antt =====
-- The supply of the denoms through any history of messages to the Coreum factory.
use cw_it.Base.{◌+◌, ◌≡◌, ap, sym, subst, List, [], ◌∷◌, bytes_eq, nat_eq, arith, inl, inr}
use cw_it.Text.{Text}
use cw_it.Chain.{
  AppResponse, ok, StargateMsg, IsBank, count, if_ok, run, total, NoneOwns, run-balances, run-keeps,
}
use cw_it.SdkCoin.{coreum_coin_from_sdk_string}
use cw_it.Coreum.Types.{TokenFactory, World, Store}
use cw_it.Coreum.Fungible.{denom_of}
use cw_it.Coreum.Fungible.Issue.{issue_succeeds_iff}
use cw_it.Coreum.Fungible.Mint.{token_mint_succeeds_iff}
use cw_it.Coreum.Fungible.Burn.{token_burn_succeeds_iff}
use cw_it.Coreum.Handle.{execute}
use cw_it.Coreum.Supply.{minted, burned, NamedFor, supply}
use cw_it.Coreum.Supply.Handlers.{
  initial-other, not_own, bank_mint-adds, bank_burn-takes, issue-balances, mint-balances,
  burn-balances,
}
use cw_it.Coreum.Supply.Dispatch.{execute-cases}

module _ (W : World) (F : TokenFactory) (sender : Text) (msg : StargateMsg) (s : Store W) where
  module _ (B : IsBank W.router) (s' : Store W) (res : AppResponse)
      (h : execute W F sender msg s ≡ (ok res, s')) (d : Text) where
    pub execute-balances : supply W B d s' + burned W F d msg ≡ supply W B d s + minted W F d msg
    unfolding minted burned
    execute-balances =
        execute-cases W F sender msg s s' res h
          (λ i m decoded e. rw (i, decoded) (issue-balances W B d F m sender s s' res e))
          (λ ni i m decoded e.
            rw (ni, i, decoded) (omega (arith, mint-balances W B d m sender s s' res e)))
          (λ ni nm i m decoded e.
            rw (ni, nm, i, decoded) (omega (arith, burn-balances W B d m sender s s' res e)))
          (λ ni nm nb same.
            let kept = ap (B.supply d) same in rw (ni, nm, nb) (omega (arith, kept)))

    execute-outsider :
        (NamedFor d sender → ⊥)
        → if_ok (coreum_coin_from_sdk_string F.denom_creation_fee) (λ fee. count d (fee ∷ [])) ≡ 0
        → supply W B d s' ≡ supply W B d s
    execute-outsider other no_fee =
        execute-cases W F sender msg s s' res h
          (λ i m decoded e.
            let moved = issue-balances W B d F m sender s s' res e in
            let made = (issue_succeeds_iff W F m sender s s' res).0 e in
            let own = inr (m.subunit, ap (denom_of m.subunit) made.may_issue.is_sender) in
            let free =
              initial-other d m (λ same. other (subst (λ x. NamedFor x sender) (sym same) own)) in
            omega (arith, moved, free, no_fee))
          (λ ni i m decoded e.
            let made = (token_mint_succeeds_iff W m sender s s' res).0 e in
            let paid = bank_mint-adds W B d m.recipient _ s s' made.minted made.paid in
            let free =
              not_own d sender other made.coin.denom made.amount (inl made.may_mint.is_issuer) in
            omega (arith, paid, free))
          (λ ni nm i m decoded e.
            let made = (token_burn_succeeds_iff W m sender s s' res).0 e in
            let paid = bank_burn-takes W B d sender _ s s' made.burned made.paid in
            let free =
              not_own d sender other made.coin.denom made.amount (inl made.may_burn.is_issuer) in
            omega (arith, paid, free))
          (λ ni nm nb same. ap (B.supply d) same)

module _ (W : World) (F : TokenFactory) (B : IsBank W.router) (d : Text)
    (history : List (Text × StargateMsg)) (s : Store W) where
  -- If the bank keeps its supplies, then after any history of messages to the factory, each run as a
  -- transaction, the supply of each denom is the one before with what the accepted issues and mints
  -- of it ask for, without what the accepted burns of it ask for and, if it is the denom of the fee,
  -- one fee for each accepted issue. No message on NFTs counts.
  pub run-token_supply :
      supply W B d (run (execute W F) history s) + total (execute W F) (burned W F d) history s
      ≡ supply W B d s + total (execute W F) (minted W F d) history s
  run-token_supply =
      run-balances (execute W F) (supply W B d) (minted W F d) (burned W F d)
        (λ sender msg s s' res h. execute-balances W F sender msg s B s' res h d) history s

  -- If the bank keeps its supplies, no history of messages to the factory changes the supply of a
  -- denom unless it is the denom of the fee or is named for the sender of one of the
  -- messages: its second part at `-` is the sender, or it is a text, a dash and the sender.
  pub others_keep_token_supply :
      if_ok (coreum_coin_from_sdk_string F.denom_creation_fee) (λ fee. count d (fee ∷ [])) ≡ 0
      → NoneOwns (execute W F) (NamedFor d) history
      → supply W B d (run (execute W F) history s) ≡ supply W B d s
  others_keep_token_supply no_fee others =
      run-keeps (execute W F) (supply W B d) (NamedFor d)
        (λ sender msg s s' res other h. execute-outsider W F sender msg s B s' res h d other no_fee)
        history s others
