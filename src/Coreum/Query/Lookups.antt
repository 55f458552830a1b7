-- ===== src/Coreum/Query/Lookups.antt =====
-- What the queries for one NFT, class or token answer after the messages.
use cw_it.Base.{◌≡◌, subst, Option, none, some, arith, ==-refl, bytes_eq, pair_eq}
use cw_it.Text.{Text}
use cw_it.Chain.{AppResponse, Result, ok, err, IsLawful, nft_not_found}
use cw_it.Coreum.Types.{MsgNftMint, MsgNftBurn, MsgNftSend, StoredNft, World, Store}
use cw_it.Coreum.Nft.{nft_mint, nft_burn, nft_send, owner_of, stored_of}
use cw_it.Coreum.Nft.Spec.{Ends, ChangesNft, NftMinted, NftBurned, NftSent, nft_at}
use cw_it.Coreum.Nft.Effects.{nft_mint_effect, nft_burn_effect, nft_send_effect}
use cw_it.Coreum.Answers.{to_nft}
use cw_it.Coreum.Query.{Answer, query, nft, owner, nft_response, owner_response}

module _ (W : World) where
  -- What the two queries for an NFT answer by what is stored.
  abbrev nft_answer : Text → Text → Option StoredNft → Result Answer
  nft_answer c i none = err (nft_not_found c i)
  nft_answer c i (some n) = ok (nft_response (to_nft n))

  abbrev owner_answer : Text → Text → Option StoredNft → Result Answer
  owner_answer c i none = err (nft_not_found c i)
  owner_answer c i (some n) = ok (owner_response n.owner)

  query-nft_at :
      (s : Store W) (c i : Text) (o : Option StoredNft)
      → nft_at W s c i ≡ o
      → (query W s (nft c i) ≡ nft_answer c i o) × (query W s (owner c i) ≡ owner_answer c i o)
  unfolding query
  query-nft_at s c i none e = ground arith
  query-nft_at s c i (some n) e = ground arith

  at_key :
      (c i : Text) (now : Option StoredNft) (s s' : Store W)
      → ChangesNft W c i now s s'
      → nft_at W s' c i ≡ now
  at_key c i now s s' change = ground (arith, change.changed c i, ==-refl {A = Text × Text} (c, i))

  done :
      (Done : Store W → AppResponse → Type 0) (s : Store W) (m : Result AppResponse × Store W)
      (res : AppResponse) (s' : Store W)
      → Ends W Done s m
      → m ≡ (ok res, s')
      → Done s' res
  done Done s m res s' ends e = subst (Ends W Done s) e ends

module _ (W : World) (lawful : IsLawful W.nfts) where
  -- If the map of NFTs follows its laws, then after a mint that succeeds the queries answer the new
  -- NFT and its owner, which is the recipient, or the sender if the message names no recipient.
  pub query_after_mint :
      (msg : MsgNftMint) (sender : Text) (s s' : Store W) (res : AppResponse)
      → nft_mint W msg sender s ≡ (ok res, s')
      → (query W s' (nft msg.class_id msg.id) ≡ ok (nft_response (to_nft (stored_of W msg))))
        × (query W s' (owner msg.class_id msg.id) ≡ ok (owner_response (owner_of W msg)))
  query_after_mint msg sender s s' res h =
      let m : NftMinted W msg sender s s' res =
        done W (NftMinted W msg sender s) s _ res s' (nft_mint_effect W lawful msg sender s) h in
      query-nft_at W s' msg.class_id msg.id _ (at_key W msg.class_id msg.id _ s s' m.change)

  -- If the map of NFTs follows its laws, then after a send that succeeds the query answers the
  -- receiver as the owner.
  query_after_send :
      (msg : MsgNftSend) (sender : Text) (s s' : Store W) (res : AppResponse)
      → nft_send W msg sender s ≡ (ok res, s')
      → query W s' (owner msg.class_id msg.id) ≡ ok (owner_response msg.receiver)
  query_after_send msg sender s s' res h =
      let m : NftSent W msg sender s s' res =
        done W (NftSent W msg sender s) s _ res s' (nft_send_effect W lawful msg sender s) h in
      (query-nft_at W s' msg.class_id msg.id _ (at_key W msg.class_id msg.id _ s s' m.change)).1

  -- If the map of NFTs follows its laws, then after a burn that succeeds both queries answer that
  -- the NFT is not found.
  query_after_burn :
      (msg : MsgNftBurn) (sender : Text) (s s' : Store W) (res : AppResponse)
      → nft_burn W msg sender s ≡ (ok res, s')
      → (query W s' (nft msg.class_id msg.id) ≡ err (nft_not_found msg.class_id msg.id))
        × (query W s' (owner msg.class_id msg.id) ≡ err (nft_not_found msg.class_id msg.id))
  query_after_burn msg sender s s' res h =
      let m : NftBurned W msg sender s s' res =
        done W (NftBurned W msg sender s) s _ res s' (nft_burn_effect W lawful msg sender s) h in
      query-nft_at W s' msg.class_id msg.id none (at_key W msg.class_id msg.id none s s' m.change)
