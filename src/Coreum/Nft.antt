-- ===== src/Coreum/Nft.antt =====
-- `issue_class`, `nft_mint`, `nft_burn` and `nft_send`.
pub mod Spec
pub mod Effects
use cw_it.Base.{
  ℕ, Bool, true, false, not, Option, none, some, List, [], ◌∷◌, ◌++◌, contains, nat_eq, bytes_eq,
  ◌==◌, if◌then◌else◌, ◌&&◌,
}
use cw_it.Text.{Text, codes, is_empty}
use cw_it.Chain.{
  Event, AppResponse, Action, ◌>>=◌, ◌>>◌, pure, expect, bail_if, gets, modify, invalid_issuer,
  class_exists, unknown_class, class_not_found, not_class_issuer, invalid_sender, nft_exists,
  nft_not_found, unauthorized_nft_burn, unauthorized_nft_send, receiver_empty,
}
use cw_it.Coreum.Types.{MsgIssueClass, MsgNftMint, MsgNftBurn, MsgNftSend, StoredNft, World, Store}

abbrev event_response : Text → List (Text × Text) → AppResponse
event_response ty attributes = record {
  events = record { ty = ty; attributes = attributes } ∷ [];
  data_bytes = none;
}

pub class_issued : Text → Text → AppResponse
class_issued class_id issuer =
    event_response (codes "/coreum.asset.nft.v1.EventClassIssued")
      ((codes "class_id", class_id) ∷ (codes "issuer", issuer) ∷ [])

pub nft_minted : Text → Text → Text → AppResponse
nft_minted class_id id owner =
    event_response (codes "/coreum.asset.nft.v1.EventMinted")
      ((codes "class_id", class_id) ∷ (codes "id", id) ∷ (codes "owner", owner) ∷ [])

pub nft_burned : Text → Text → Text → AppResponse
nft_burned class_id id owner =
    event_response (codes "/coreum.asset.nft.v1.EventBurned")
      ((codes "class_id", class_id) ∷ (codes "id", id) ∷ (codes "owner", owner) ∷ [])

pub nft_sent : Text → Text → Text → Text → AppResponse
nft_sent class_id id sender receiver = event_response (codes "/coreum.asset.nft.v1.EventSent") (
    (codes "class_id", class_id)
    ∷ (codes "id", id)
    ∷ (codes "sender", sender)
    ∷ (codes "receiver", receiver)
    ∷ [])

module _ (W : World) where
  abbrev Run : Type 0 → Type 0
  Run A = Action (Store W) A

  -- `format!("{}-{}", symbol.to_lowercase(), issuer)`
  abbrev pub class_id_of : MsgIssueClass → Text
  class_id_of msg = W.to_lowercase msg.symbol ++ (b'-' ∷ msg.issuer)

  abbrev has_entry : {A : Type 0} → Option A → Bool
  has_entry none = false
  has_entry (some _) = true

  unfoldable pub issue_class : MsgIssueClass → Text → Run AppResponse
  unfolding bytes_eq
  issue_class msg sender = do
    bail_if (not (msg.issuer == sender)) invalid_issuer
    let class_id = class_id_of msg
    old ← gets (λ s. W.classes.may_load s.classes class_id)
    bail_if (has_entry old) (class_exists class_id)
    modify (λ s. record s { classes = W.classes.save s.classes class_id msg })
    pure (class_issued class_id msg.issuer)

  -- The new NFT belongs to the recipient, or to the sender if the recipient is empty.
  abbrev pub owner_of : MsgNftMint → Text
  owner_of msg = if is_empty msg.recipient then msg.sender else msg.recipient

  abbrev pub stored_of : MsgNftMint → StoredNft
  stored_of msg = record {
    class_id = msg.class_id;
    id = msg.id;
    owner = owner_of msg;
    uri = msg.uri;
    content = msg.content;
  }

  unfoldable pub nft_mint : MsgNftMint → Text → Run AppResponse
  unfolding bytes_eq
  nft_mint msg sender = do
    bail_if (not (msg.sender == sender)) invalid_sender
    found ← gets (λ s. W.classes.may_load s.classes msg.class_id)
    class ← expect found (unknown_class msg.class_id)
    bail_if (not (class.issuer == sender)) (not_class_issuer msg.class_id)
    old ← gets (λ s. W.nfts.may_load s.nfts (msg.class_id, msg.id))
    bail_if (has_entry old) (nft_exists msg.class_id msg.id)
    modify (λ s. record s { nfts = W.nfts.save s.nfts (msg.class_id, msg.id) (stored_of msg) })
    pure (nft_minted msg.class_id msg.id (owner_of msg))

  -- The class's issuer may act on NFTs of others if the class has the feature.
  abbrev pub issuer_may : ℕ → MsgIssueClass → Text → Bool
  issuer_may feature class sender = contains class.features feature && class.issuer == sender

  unfoldable pub nft_burn : MsgNftBurn → Text → Run AppResponse
  unfolding bytes_eq nat_eq
  nft_burn msg sender = do
    bail_if (not (msg.sender == sender)) invalid_sender
    found ← gets (λ s. W.classes.may_load s.classes msg.class_id)
    class ← expect found (class_not_found msg.class_id)
    held ← gets (λ s. W.nfts.may_load s.nfts (msg.class_id, msg.id))
    stored ← expect held (nft_not_found msg.class_id msg.id)
    bail_if (not (stored.owner == sender) && not (issuer_may W.burning class sender))
        (unauthorized_nft_burn msg.class_id msg.id)
    modify (λ s. record s { nfts = W.nfts.remove s.nfts (msg.class_id, msg.id) })
    pure (nft_burned msg.class_id msg.id sender)

  unfoldable pub nft_send : MsgNftSend → Text → Run AppResponse
  unfolding bytes_eq nat_eq
  nft_send msg sender = do
    found ← gets (λ s. W.classes.may_load s.classes msg.class_id)
    class ← expect found (class_not_found msg.class_id)
    held ← gets (λ s. W.nfts.may_load s.nfts (msg.class_id, msg.id))
    stored ← expect held (nft_not_found msg.class_id msg.id)
    bail_if (not (msg.sender == sender) && not (issuer_may W.soulbound class sender)) invalid_sender
    bail_if (not (stored.owner == sender) && not (issuer_may W.soulbound class sender))
        (unauthorized_nft_send msg.class_id msg.id)
    bail_if (is_empty msg.receiver) receiver_empty
    modify (λ s. record s {
      nfts = W.nfts.save s.nfts (msg.class_id, msg.id) (record stored { owner = msg.receiver });
    })
    pure (nft_sent msg.class_id msg.id msg.sender msg.receiver)
