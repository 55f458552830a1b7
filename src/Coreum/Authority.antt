-- ===== src/Coreum/Authority.antt =====
-- Who may change an NFT.
use cw_it.Base.{
  ◌≡◌, ◌⊎◌, inl, inr, refl, ap, sym, subst, true, none, some, Option, arith, bytes_eq, pair_eq,
  nat_eq, ==-cases, contains, ◌&&◌, ◌==◌,
}
use cw_it.Text.{Text}
use cw_it.Chain.{AppResponse, StargateMsg, Result, ok, err, panicked}
use cw_it.Coreum.Types.{TokenFactory, MsgIssueClass, StoredNft, World, Store}
use cw_it.Coreum.Fungible.{issue, mint, burn}
use cw_it.Coreum.Fungible.Frame.{mint-OnlyBank, burn-OnlyBank, issue_frame}
use cw_it.Coreum.Nft.{issue_class, nft_mint, nft_burn, nft_send}
use cw_it.Coreum.Nft.Spec.{
  Ends, ChangesNft, ClassIssued, NftMinted, NftBurned, NftSent, class_at, nft_at,
}
use cw_it.Coreum.Nft.Effects.{nft_mint_effect, nft_burn_effect, nft_send_effect, issue_class_effect}
use cw_it.Coreum.Handle.{execute, execute_cases}
use cw_it.Coreum.Invariant.{AreLawful}

module _ (W : World) where
  -- The sender may make an NFT that is not there as the class's issuer, and change one that is
  -- there as its owner, or as the issuer of a class with the burning or the soulbound feature.
  pub data MayChange (s : Store W) (sender c i : Text) (class : MsgIssueClass) : Type 0 where
    as_issuer : nft_at W s c i ≡ none → class.issuer ≡ sender → MayChange s sender c i class
    as_owner :
        (stored : StoredNft)
        → nft_at W s c i ≡ some stored
        → stored.owner ≡ sender
        → MayChange s sender c i class
    by_burning :
        (contains class.features W.burning && class.issuer == sender) ≡ true
        → MayChange s sender c i class
    by_soulbound :
        (contains class.features W.soulbound && class.issuer == sender) ≡ true
        → MayChange s sender c i class

  abbrev pub HasAuthority : Store W → Text → Text × Text → Type 0
  HasAuthority s sender (c, i) =
      (class : MsgIssueClass) × (class_at W s c ≡ some class) × MayChange s sender c i class

  -- The entry is as before, or the sender may change it.
  abbrev pub IsAuthorised : Store W → Text → Text → Text → Store W → Type 0
  IsAuthorised s sender c i s' = (nft_at W s' c i ≡ nft_at W s c i) ⊎ HasAuthority s sender (c, i)

  same_nfts-IsAuthorised :
      (s : Store W) (sender c i : Text) (s' : Store W)
      → s'.nfts ≡ s.nfts
      → IsAuthorised s sender c i s'
  same_nfts-IsAuthorised s sender c i s' e = inl (ap (λ t. W.nfts.may_load t (c, i)) e)

  change-IsAuthorised :
      (s : Store W) (sender c i c' i' : Text) (now : Option StoredNft) (s' : Store W)
      (class : MsgIssueClass)
      → ChangesNft W c' i' now s s'
      → class_at W s c' ≡ some class
      → MayChange s sender c' i' class
      → IsAuthorised s sender c i s'
  change-IsAuthorised s sender c i c' i' now s' class change has_class may =
      elim (==-cases {A = Text × Text} (c, i) (c', i')) [
        | inl (here, same) ↦ inr (subst (HasAuthority s sender) (sym same) (class, has_class, may))
        | inr there ↦ inl (ground (arith, change.changed c i))
      ]

  Ends-IsAuthorised :
      {Done : Store W → AppResponse → Type 0} (s : Store W) (sender c i : Text)
      (m : Result AppResponse × Store W)
      → Ends W Done s m
      → ((s' : Store W) (res : AppResponse) → Done s' res → IsAuthorised s sender c i s')
      → IsAuthorised s sender c i m.1
  Ends-IsAuthorised s sender c i (ok res, s') done keep = keep s' res done
  Ends-IsAuthorised s sender c i (err e, s') same keep = inl (rw same refl)
  Ends-IsAuthorised s sender c i (panicked, s') never keep = absurd never

module _ (W : World) (lawful : AreLawful W) where
  -- If the maps follow their laws, no message changes the entry of an NFT, whatever its outcome,
  -- unless its class is there and the sender is the class's issuer and the NFT was not there, or
  -- the sender owned it, or the sender is the class's issuer and the class has the burning or the
  -- soulbound feature.
  pub execute-IsAuthorised :
      (F : TokenFactory) (sender : Text) (msg : StargateMsg) (s : Store W) (c i : Text)
      → IsAuthorised W s sender c i (execute W F sender msg s).1
  execute-IsAuthorised F sender msg s c i =
      execute_cases W (λ r. IsAuthorised W s sender c i r.1) s F sender msg (λ r. inl refl)
        (λ m.
          same_nfts-IsAuthorised W s sender c i (issue W F m sender s).1
            (issue_frame W F m sender s).0)
        (λ m.
          same_nfts-IsAuthorised W s sender c i (mint W m sender s).1
            (mint-OnlyBank W m sender s).0)
        (λ m.
          same_nfts-IsAuthorised W s sender c i (burn W m sender s).1
            (burn-OnlyBank W m sender s).0)
        (λ m.
          Ends-IsAuthorised W {Done = ClassIssued W m sender s} s sender c i
            (issue_class W m sender s) (issue_class_effect W lawful.classes m sender s)
            (λ s' res d. same_nfts-IsAuthorised W s sender c i s' d.same_nfts))
        (λ m.
          Ends-IsAuthorised W {Done = NftMinted W m sender s} s sender c i (nft_mint W m sender s)
            (nft_mint_effect W lawful.nfts m sender s)
            (λ s' res d.
              change-IsAuthorised W s sender c i _ _ _ s' d.class d.change d.has_class
                (as_issuer d.is_new d.is_issuer)))
        (λ m.
          Ends-IsAuthorised W {Done = NftBurned W m sender s} s sender c i (nft_burn W m sender s)
            (nft_burn_effect W lawful.nfts m sender s)
            (λ s' res d.
              change-IsAuthorised W s sender c i _ _ _ s' d.class d.change d.has_class
                (elim d.may_burn [
                  | inl owns ↦ as_owner d.stored d.has_nft owns
                  | inr may ↦ by_burning may
                ])))
        (λ m.
          Ends-IsAuthorised W {Done = NftSent W m sender s} s sender c i (nft_send W m sender s)
            (nft_send_effect W lawful.nfts m sender s)
            (λ s' res d.
              change-IsAuthorised W s sender c i _ _ _ s' d.class d.change d.has_class
                (elim d.may_send [
                  | inl (is_sender, owns) ↦ as_owner d.stored d.has_nft owns
                  | inr may ↦ by_soulbound may
                ])))
