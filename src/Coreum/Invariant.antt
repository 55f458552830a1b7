-- ===== src/Coreum/Invariant.antt =====
-- The invariant of the store, and how changes of it keep the invariant.
pub mod Messages
pub mod Histories
use cw_it.Base.{
  ◌≡◌, ◌≢◌, ◌⊎◌, refl, ◌∙◌, sym, inl, inr, Bool, true, false, Option, none, some, bytes_eq, pair_eq,
  arith, ◌==◌, if◌then◌else◌, Option-cases, ==-cases, some-cancel, ap,
}
use cw_it.Text.{Text, is_empty}
use cw_it.Chain.{
  AppResponse, Action, Binary, StargateMsg, Result, ok, err, panicked, IsLawful, ◌>>=◌, lift,
}
use cw_it.Coreum.Types.{
  TokenFactory, MsgIssue, MsgMint, MsgBurn, MsgIssueClass, MsgNftMint, MsgNftBurn, MsgNftSend,
  StoredNft, World, Store,
}
use cw_it.Coreum.Fungible.{issue, mint, burn, issue_to_denom}
use cw_it.Coreum.Fungible.Frame.{OnlyBank, mint-OnlyBank, burn-OnlyBank, issue_frame}
use cw_it.Coreum.Nft.{issue_class, nft_mint, nft_burn, nft_send, class_id_of, owner_of, stored_of}
use cw_it.Coreum.Nft.Spec.{
  Ends, ChangesNft, ClassIssued, NftMinted, NftBurned, NftSent, class_at, nft_at, same_key,
}
use cw_it.Coreum.Nft.Effects.{nft_mint_effect, nft_burn_effect, nft_send_effect, issue_class_effect}
use cw_it.Coreum.Handle.{execute}

-- The maps follow the documented laws.
pub record AreLawful (W : World) : Type 0 where
  pub issued : IsLawful W.issued
  pub classes : IsLawful W.classes
  pub nfts : IsLawful W.nfts

module _ (W : World) where
  -- Every NFT is stored under its own class and id, has an owner, and its class is there.
  pub record IsFiled (s : Store W) (c i : Text) (n : StoredNft) : Type 0 where
    pub class : MsgIssueClass
    pub own_class : n.class_id ≡ c
    pub own_id : n.id ≡ i
    pub has_owner : is_empty n.owner ≡ false
    pub has_class : class_at W s c ≡ some class

  -- Classes and tokens are stored under the names that their definitions give.
  pub record IsValid (s : Store W) : Type 0 where
    pub nfts : (c i : Text) (n : StoredNft) → nft_at W s c i ≡ some n → IsFiled s c i n
    pub classes : (c : Text) (m : MsgIssueClass) → class_at W s c ≡ some m → c ≡ class_id_of W m
    pub tokens :
        (d : Text) (m : MsgIssue) → W.issued.may_load s.issued d ≡ some m → d ≡ issue_to_denom m

  pub same_classes-IsFiled :
      (s s' : Store W) (c i : Text) (n : StoredNft)
      → s'.classes ≡ s.classes
      → IsFiled s c i n
      → IsFiled s' c i n
  same_classes-IsFiled s s' c i n e f = record {
    class = f.class;
    own_class = f.own_class;
    own_id = f.own_id;
    has_owner = f.has_owner;
    has_class = rw e f.has_class;
  }

  same_key-IsFiled :
      (s : Store W) (k j : Text × Text) (n : StoredNft)
      → k ≡ j
      → IsFiled s j.0 j.1 n
      → IsFiled s k.0 k.1 n
  same_key-IsFiled s k j n e f = rw e f

  pub some-IsFiled :
      (s : Store W) (c i : Text) (m : StoredNft)
      → IsFiled s c i m
      → (n : StoredNft) → some m ≡ some n
      → IsFiled s c i n
  some-IsFiled s c i m f n same = rw (← some-cancel same) f

  -- A change at one key keeps the invariant if what is put there is filed.
  pub ChangesNft-IsValid :
      (c i : Text) (now : Option StoredNft) (s s' : Store W)
      → ChangesNft W c i now s s'
      → ((n : StoredNft) → now ≡ some n → IsFiled s c i n)
      → IsValid s
      → IsValid s'
  ChangesNft-IsValid c i now s s' change filed v = record {
    nfts = λ c' i' n h.
        same_classes-IsFiled s s' c' i' n change.same_classes
          (elim (==-cases {A = Text × Text} (c', i') (c, i)) [
            | inl (here, same) ↦
                same_key-IsFiled s (c', i') (c, i) n same
                  (filed n (ground (arith, change.changed c' i')))
            | inr there ↦ v.nfts c' i' n (ground (arith, change.changed c' i'))
          ]);
    classes = λ d k h. v.classes d k (rw (← change.same_classes) h);
    tokens = λ d k h. v.tokens d k (rw (← change.same_issued) h);
  }

  -- The tokens may gain one under its own name.
  pub same_nfts-IsValid :
      (s s' : Store W)
      → s'.nfts ≡ s.nfts
      → s'.classes ≡ s.classes
      → ((d : Text) (m : MsgIssue) → W.issued.may_load s'.issued d ≡ some m → d ≡ issue_to_denom m)
      → IsValid s
      → IsValid s'
  same_nfts-IsValid s s' e f tokens v = record {
    nfts = λ c i n h. same_classes-IsFiled s s' c i n f (v.nfts c i n (rw (← e) h));
    classes = λ d k h. v.classes d k (rw (← f) h);
    tokens = tokens;
  }

  pub OnlyBank-IsValid : (s s' : Store W) → OnlyBank W s s' → IsValid s → IsValid s'
  OnlyBank-IsValid s s' (e, f, g) v =
      same_nfts-IsValid s s' e f (λ d m h. v.tokens d m (rw (← g) h)) v

  pub Ends-IsValid :
      {Done : Store W → AppResponse → Type 0} (s : Store W) (m : Result AppResponse × Store W)
      → Ends W Done s m
      → ((s' : Store W) (res : AppResponse) → Done s' res → IsValid s')
      → IsValid s
      → IsValid m.1
  Ends-IsValid s (ok res, s') done keep v = keep s' res done
  Ends-IsValid s (err e, s') same keep v = rw same v
  Ends-IsValid s (panicked, s') never keep v = absurd never
