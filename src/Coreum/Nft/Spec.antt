-- ===== src/Coreum/Nft/Spec.antt =====
-- What the NFT messages promise, as predicates on the stores before and after.
use cw_it.Base.{
  ◌≡◌, ◌≢◌, ◌⊎◌, refl, Bool, true, false, Option, none, some, bytes_eq, pair_eq, nat_eq, ◌==◌,
  if◌then◌else◌, contains, ◌&&◌,
}
use cw_it.Text.{Text, is_empty}
use cw_it.Chain.{AppResponse, Error, Result, ok, err, panicked}
use cw_it.Coreum.Types.{MsgIssueClass, MsgNftMint, MsgNftBurn, MsgNftSend, StoredNft, World, Store}
use cw_it.Coreum.Nft.{class_id_of, class_issued, nft_minted, nft_burned, nft_sent}

abbrev pub same_key : Text → Text → Text → Text → Bool
same_key c i class_id id = ◌==◌ {A = Text × Text} (c, i) (class_id, id)

module _ (W : World) where
  -- The tables of a store, as lookups.
  abbrev pub class_at : Store W → Text → Option MsgIssueClass
  class_at s = W.classes.may_load s.classes

  abbrev pub nft_at : Store W → Text → Text → Option StoredNft
  nft_at s class_id id = W.nfts.may_load s.nfts (class_id, id)

  -- By how a call that began at `s` has ended: after an error the store is as before, and no call
  -- panics.
  abbrev pub Ends :
      (Store W → AppResponse → Type 0) → Store W → Result AppResponse × Store W → Type 0
  Ends Done s (ok res, s') = Done s' res
  Ends Done s (err e, s') = s' ≡ s
  Ends Done s (panicked, s') = ⊥

  pub Ends-of_cases :
      (Done : Store W → AppResponse → Type 0) (s : Store W) (m : Result AppResponse × Store W)
      → ((s' : Store W) (res : AppResponse) → m ≡ (ok res, s') → Done s' res)
      → ((e : Error) → m.0 ≡ err e → m.1 ≡ s)
      → m.0 ≢ panicked
      → Ends Done s m
  Ends-of_cases Done s (ok res, s') good bad never = good s' res refl
  Ends-of_cases Done s (err e, s') good bad never = bad e refl
  Ends-of_cases Done s (panicked, s') good bad never = never refl

  -- Only one NFT has changed: that at the key now is `now`.
  pub record ChangesNft (class_id id : Text) (now : Option StoredNft) (s s' : Store W)
      : Type 0 where
    pub changed :
        (c i : Text) → nft_at s' c i ≡ (if same_key c i class_id id then now else nft_at s c i)
    pub same_classes : s'.classes ≡ s.classes
    pub same_issued : s'.issued ≡ s.issued
    pub same_bank : s'.bank ≡ s.bank

  pub record ClassIssued (msg : MsgIssueClass) (sender : Text) (s s' : Store W) (res : AppResponse)
      : Type 0 where
    pub is_issuer : msg.issuer ≡ sender
    pub is_new : class_at s (class_id_of W msg) ≡ none
    pub changed :
        (c : Text) → class_at s' c ≡ (if c == class_id_of W msg then some msg else class_at s c)
    pub same_nfts : s'.nfts ≡ s.nfts
    pub same_issued : s'.issued ≡ s.issued
    pub same_bank : s'.bank ≡ s.bank
    pub response : res ≡ class_issued (class_id_of W msg) msg.issuer

  pub record NftMinted (msg : MsgNftMint) (sender : Text) (s s' : Store W) (res : AppResponse)
      : Type 0 where
    pub class : MsgIssueClass
    pub is_sender : msg.sender ≡ sender
    pub has_class : class_at s msg.class_id ≡ some class
    pub is_issuer : class.issuer ≡ sender
    pub is_new : nft_at s msg.class_id msg.id ≡ none
    pub change :
        ChangesNft msg.class_id msg.id
          (some (record {
            class_id = msg.class_id;
            id = msg.id;
            owner = if is_empty msg.recipient then msg.sender else msg.recipient;
            uri = msg.uri;
            content = msg.content;
          }))
          s
          s'
    pub response :
        res
        ≡ nft_minted msg.class_id msg.id
            (if is_empty msg.recipient then msg.sender else msg.recipient)

  pub record NftBurned (msg : MsgNftBurn) (sender : Text) (s s' : Store W) (res : AppResponse)
      : Type 0 where
    pub class : MsgIssueClass
    pub stored : StoredNft
    pub is_sender : msg.sender ≡ sender
    pub has_class : class_at s msg.class_id ≡ some class
    pub has_nft : nft_at s msg.class_id msg.id ≡ some stored
    pub may_burn :
        (stored.owner ≡ sender)
        ⊎ ((contains class.features W.burning && class.issuer == sender) ≡ true)
    pub change : ChangesNft msg.class_id msg.id none s s'
    pub response : res ≡ nft_burned msg.class_id msg.id sender

  pub record NftSent (msg : MsgNftSend) (sender : Text) (s s' : Store W) (res : AppResponse)
      : Type 0 where
    pub class : MsgIssueClass
    pub stored : StoredNft
    pub has_class : class_at s msg.class_id ≡ some class
    pub has_nft : nft_at s msg.class_id msg.id ≡ some stored
    pub may_send :
        ((msg.sender ≡ sender) × (stored.owner ≡ sender))
        ⊎ ((contains class.features W.soulbound && class.issuer == sender) ≡ true)
    pub has_receiver : is_empty msg.receiver ≡ false
    pub change : ChangesNft msg.class_id msg.id (some (record stored { owner = msg.receiver })) s s'
    pub response : res ≡ nft_sent msg.class_id msg.id msg.sender msg.receiver
