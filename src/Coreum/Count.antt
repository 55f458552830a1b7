-- ===== src/Coreum/Count.antt =====
-- How many NFTs there are of a class: what each message on NFTs makes and takes away.
pub mod Histories
use cw_it.Base.{
  ℕ, ◌+◌, ◌≡◌, refl, ap, subst, sym, ◌∙◌, Bool, true, false, Option, none, some, List, [], ◌∷◌,
  bytes_eq, pair_eq, nat_eq, ◌==◌, if◌then◌else◌, arith, Bool-cases, inl, inr,
}
use cw_it.Text.{Text}
use cw_it.Chain.{
  AppResponse, Result, ok, err, panicked, StargateMsg, if_ok, run, total, run-balances, count_by,
  count_by-changed, counted, IsLawful,
}
use cw_it.Coreum.Types.{
  TokenFactory, MsgIssue, MsgMint, MsgBurn, MsgIssueClass, MsgNftMint, MsgNftBurn, MsgNftSend,
  StoredNft, World, Store,
}
use cw_it.Coreum.Fungible.{issue, mint, burn}
use cw_it.Coreum.Fungible.Frame.{issue_frame, mint-OnlyBank, burn-OnlyBank}
use cw_it.Coreum.Nft.{issue_class, nft_mint, nft_burn, nft_send}
use cw_it.Coreum.Nft.Spec.{nft_at, Ends, ChangesNft, NftMinted, NftBurned, NftSent}
use cw_it.Coreum.Nft.Effects.{nft_mint_effect, nft_burn_effect, nft_send_effect, issue_class_effect}
use cw_it.Coreum.Handle.{execute}
use cw_it.Coreum.Supply.Dispatch.{decoded-inv}

module _ (W : World) (c : Text) where
  -- The entries of the class.
  abbrev pub of_class : Text × Text → StoredNft → Bool
  of_class k n = k.0 == c

  abbrev pub nft_count : Store W → ℕ
  nft_count s = count_by of_class (W.nfts.range s.nfts)

  abbrev in_class : Text → ℕ
  in_class class_id = if class_id == c then 1 else 0

  -- How many NFTs of the class a message makes, and how many it takes away, if it is accepted.
  unfoldable pub made : StargateMsg → ℕ
  unfolding bytes_eq
  made msg =
      if msg.type_url == W.issue_url
      then 0
      else if msg.type_url == W.mint_url
      then 0
      else if msg.type_url == W.burn_url
      then 0
      else if msg.type_url == W.issue_class_url
      then 0
      else if msg.type_url == W.nft_mint_url
      then if_ok (W.decode_nft_mint msg.value) (λ m. in_class m.class_id)
      else 0

  unfoldable pub taken : StargateMsg → ℕ
  unfolding bytes_eq
  taken msg =
      if msg.type_url == W.issue_url
      then 0
      else if msg.type_url == W.mint_url
      then 0
      else if msg.type_url == W.burn_url
      then 0
      else if msg.type_url == W.issue_class_url
      then 0
      else if msg.type_url == W.nft_mint_url
      then 0
      else if msg.type_url == W.nft_burn_url
      then if_ok (W.decode_nft_burn msg.value) (λ m. in_class m.class_id)
      else 0

  module _ (lawful : IsLawful W.nfts) (sender : Text) (s s' : Store W) (res : AppResponse) where
    changed-count :
        (class_id id : Text) (now : Option StoredNft)
        → ChangesNft W class_id id now s s'
        → nft_count s' + counted of_class (nft_at W s class_id id) (class_id, id)
          ≡ nft_count s + counted of_class now (class_id, id)
    changed-count class_id id now change =
        count_by-changed of_class W.nfts lawful s.nfts s'.nfts (class_id, id) now
          (λ (i, j). change.changed i j)

    pub nft_mint-count :
        (m : MsgNftMint)
        → nft_mint W m sender s ≡ (ok res, s')
        → nft_count s' ≡ nft_count s + in_class m.class_id
    nft_mint-count m h =
        let done : NftMinted W m sender s s' res =
          subst (Ends W (NftMinted W m sender s) s) h (nft_mint_effect W lawful m sender s) in
        let moved = changed-count m.class_id m.id _ done.change in
        let fresh = rw done.is_new at moved in omega (arith, fresh)

    pub nft_burn-count :
        (m : MsgNftBurn)
        → nft_burn W m sender s ≡ (ok res, s')
        → nft_count s' + in_class m.class_id ≡ nft_count s
    nft_burn-count m h =
        let done : NftBurned W m sender s s' res =
          subst (Ends W (NftBurned W m sender s) s) h (nft_burn_effect W lawful m sender s) in
        let moved = changed-count m.class_id m.id _ done.change in
        let gone = rw done.has_nft at moved in omega (arith, gone)

    pub nft_send-count :
        (m : MsgNftSend) → nft_send W m sender s ≡ (ok res, s') → nft_count s' ≡ nft_count s
    nft_send-count m h =
        let done : NftSent W m sender s s' res =
          subst (Ends W (NftSent W m sender s) s) h (nft_send_effect W lawful m sender s) in
        let moved = changed-count m.class_id m.id _ done.change in
        let kept = rw done.has_nft at moved in omega (arith, kept)
