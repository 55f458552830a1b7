-- ===== src/Coreum/Fungible/Frame.antt =====
-- What the messages on fungible tokens leave alone, on every outcome.
use cw_it.Base.{◌≡◌, ◌⊎◌, inl, inr, arith, Option-cases}
use cw_it.Text.{Text}
use cw_it.Chain.{unauthorized_mint, unauthorized_burn}
use cw_it.Coreum.Types.{TokenFactory, MsgIssue, MsgMint, MsgBurn, World, Store}
use cw_it.Coreum.Fungible.{issue, mint, burn, issue_to_denom, charge_fee, mint_initial}
use cw_it.Coreum.Fungible.Checks.{check_denom_state, check_amount_state}
use cw_it.Coreum.Fungible.Issue.{check_issue_state, with_token}

module _ (W : World) where
  -- Nothing but the bank has changed.
  abbrev pub OnlyBank : Store W → Store W → Type 0
  OnlyBank s s' = (s'.nfts ≡ s.nfts) × (s'.classes ≡ s.classes) × (s'.issued ≡ s.issued)

  pub mint-OnlyBank :
      (msg : MsgMint) (sender : Text) (s : Store W) → OnlyBank s (mint W msg sender s).1
  unfolding mint
  mint-OnlyBank msg sender s = elim (Option-cases msg.coin) [
    | inl missing ↦ ground arith
    | inr (coin, has_coin) ↦ ground (
      arith,
      check_denom_state W unauthorized_mint coin.denom sender msg.sender s,
      check_amount_state W coin.amount s,
    )
  ]

  pub burn-OnlyBank :
      (msg : MsgBurn) (sender : Text) (s : Store W) → OnlyBank s (burn W msg sender s).1
  unfolding burn
  burn-OnlyBank msg sender s = elim (Option-cases msg.coin) [
    | inl missing ↦ ground arith
    | inr (coin, has_coin) ↦ ground (
      arith,
      check_denom_state W unauthorized_burn coin.denom sender msg.sender s,
      check_amount_state W coin.amount s,
    )
  ]

  pub charge_fee-OnlyBank :
      (F : TokenFactory) (sender : Text) (s : Store W) → OnlyBank s (charge_fee W F sender s).1
  unfolding charge_fee
  charge_fee-OnlyBank F sender s = ground arith

  pub mint_initial-OnlyBank : (msg : MsgIssue) (s : Store W) → OnlyBank s (mint_initial W msg s).1
  unfolding mint_initial
  mint_initial-OnlyBank msg s = ground arith

  -- An issue leaves the NFTs and the classes alone, and the tokens are as before or have the new
  -- one added.
  pub issue_frame :
      (F : TokenFactory) (msg : MsgIssue) (sender : Text) (s : Store W)
      → let s' = (issue W F msg sender s).1 in
        (s'.nfts ≡ s.nfts)
        × (s'.classes ≡ s.classes)
        × ((s'.issued ≡ s.issued) ⊎ (s'.issued ≡ W.issued.save s.issued (issue_to_denom msg) msg))
  unfolding issue
  issue_frame F msg sender s =
      let t = with_token W F msg sender s in
      let u = (charge_fee W F sender t).1 in
      ground (
        arith,
        check_issue_state W F msg sender s,
        charge_fee-OnlyBank F sender t,
        mint_initial-OnlyBank msg u,
      )
