-- ===== src/Coreum/Nft/Effects.antt =====
-- What each NFT message does on every outcome: an error changes nothing, and a success has passed
-- the checks and changed one entry.
use cw_it.Base.{◌≡◌, refl, inl, inr, none, some, bytes_eq, pair_eq, nat_eq, arith, Option-cases}
use cw_it.Text.{Text}
use cw_it.Chain.{AppResponse, ok, IsLawful}
use cw_it.Coreum.Types.{MsgIssueClass, MsgNftMint, MsgNftBurn, MsgNftSend, StoredNft, World, Store}
use cw_it.Coreum.Nft.{issue_class, nft_mint, nft_burn, nft_send, class_id_of, stored_of}
use cw_it.Coreum.Nft.Spec.{
  Ends, Ends-of_cases, ChangesNft, ClassIssued, NftMinted, NftBurned, NftSent,
}

module _ (W : World) (lawful : IsLawful W.nfts) where
  save_changes :
      (c i : Text) (n : StoredNft) (s s' : Store W)
      → s' ≡ record s { nfts = W.nfts.save s.nfts (c, i) n }
      → ChangesNft W c i (some n) s s'
  save_changes c i n s s' e = rw e (record {
    changed = λ c' i'. lawful.load-save s.nfts (c, i) (c', i') n;
    same_classes = refl;
    same_issued = refl;
    same_bank = refl;
  })

  remove_changes :
      (c i : Text) (s s' : Store W)
      → s' ≡ record s { nfts = W.nfts.remove s.nfts (c, i) }
      → ChangesNft W c i none s s'
  remove_changes c i s s' e = rw e (record {
    changed = λ c' i'. lawful.load-remove s.nfts (c, i) (c', i');
    same_classes = refl;
    same_issued = refl;
    same_bank = refl;
  })

  NftMinted-of_nft_mint :
      (msg : MsgNftMint) (sender : Text) (s s' : Store W) (res : AppResponse)
      → nft_mint W msg sender s ≡ (ok res, s')
      → NftMinted W msg sender s s' res
  unfolding nft_mint
  NftMinted-of_nft_mint msg sender s s' res h =
      elim (Option-cases (W.classes.may_load s.classes msg.class_id)) [
        | inl unknown ↦ absurd (ground arith)
        | inr (class, has_class) ↦ record {
          class = class;
          is_sender = ground arith;
          has_class = has_class;
          is_issuer = ground arith;
          is_new = ground arith;
          change = save_changes msg.class_id msg.id (stored_of W msg) s s' (ground arith);
          response = ground arith;
        }
      ]

  -- A mint ends with an error and the store as before; or the sender is the one that the message
  -- names and the issuer of the class, the NFT was not there, and now it is there with the
  -- recipient as its owner, or the sender if the message names no recipient, and nothing else has
  -- changed.
  pub nft_mint_effect :
      (msg : MsgNftMint) (sender : Text) (s : Store W)
      → Ends W (NftMinted W msg sender s) s (nft_mint W msg sender s)
  unfolding nft_mint
  nft_mint_effect msg sender s =
      Ends-of_cases W _ s (nft_mint W msg sender s) (NftMinted-of_nft_mint msg sender s)
        (λ e h. ground arith) (λ h. ground arith)

  NftBurned-of_nft_burn :
      (msg : MsgNftBurn) (sender : Text) (s s' : Store W) (res : AppResponse)
      → nft_burn W msg sender s ≡ (ok res, s')
      → NftBurned W msg sender s s' res
  unfolding nft_burn
  NftBurned-of_nft_burn msg sender s s' res h =
      elim (Option-cases (W.classes.may_load s.classes msg.class_id)) [
        | inl unknown ↦ absurd (ground arith)
        | inr (class, has_class) ↦
            elim (Option-cases (W.nfts.may_load s.nfts (msg.class_id, msg.id))) [
              | inl missing ↦ absurd (ground arith)
              | inr (stored, has_nft) ↦ record {
                class = class;
                stored = stored;
                is_sender = ground arith;
                has_class = has_class;
                has_nft = has_nft;
                may_burn = ground arith;
                change = remove_changes msg.class_id msg.id s s' (ground arith);
                response = ground arith;
              }
            ]
      ]

  -- A burn ends with an error and the store as before; or the sender is the one that the message
  -- names, the class and the NFT are there, the sender is the NFT's owner or the issuer of a class
  -- with the burning feature, and now the NFT is gone and nothing else has changed.
  pub nft_burn_effect :
      (msg : MsgNftBurn) (sender : Text) (s : Store W)
      → Ends W (NftBurned W msg sender s) s (nft_burn W msg sender s)
  unfolding nft_burn
  nft_burn_effect msg sender s =
      Ends-of_cases W _ s (nft_burn W msg sender s) (NftBurned-of_nft_burn msg sender s)
        (λ e h. ground arith) (λ h. ground arith)

  NftSent-of_nft_send :
      (msg : MsgNftSend) (sender : Text) (s s' : Store W) (res : AppResponse)
      → nft_send W msg sender s ≡ (ok res, s')
      → NftSent W msg sender s s' res
  unfolding nft_send
  NftSent-of_nft_send msg sender s s' res h =
      elim (Option-cases (W.classes.may_load s.classes msg.class_id)) [
        | inl unknown ↦ absurd (ground arith)
        | inr (class, has_class) ↦
            elim (Option-cases (W.nfts.may_load s.nfts (msg.class_id, msg.id))) [
              | inl missing ↦ absurd (ground arith)
              | inr (stored, has_nft) ↦
                  let sent : StoredNft = record stored { owner = msg.receiver } in
                  record {
                    class = class;
                    stored = stored;
                    has_class = has_class;
                    has_nft = has_nft;
                    may_send = ground arith;
                    has_receiver = ground arith;
                    change = save_changes msg.class_id msg.id sent s s' (ground arith);
                    response = ground arith;
                  }
            ]
      ]

  -- A send ends with an error and the store as before; or the class and the NFT are there, the
  -- sender is the owner and the one that the message names, or the issuer of a class with the
  -- soulbound feature, the receiver is not empty, and now the receiver owns the NFT and nothing
  -- else has changed.
  pub nft_send_effect :
      (msg : MsgNftSend) (sender : Text) (s : Store W)
      → Ends W (NftSent W msg sender s) s (nft_send W msg sender s)
  unfolding nft_send
  nft_send_effect msg sender s =
      Ends-of_cases W _ s (nft_send W msg sender s) (NftSent-of_nft_send msg sender s)
        (λ e h. ground arith) (λ h. ground arith)

module _ (W : World) (lawful : IsLawful W.classes) where
  ClassIssued-of_issue_class :
      (msg : MsgIssueClass) (sender : Text) (s s' : Store W) (res : AppResponse)
      → issue_class W msg sender s ≡ (ok res, s')
      → ClassIssued W msg sender s s' res
  unfolding issue_class
  ClassIssued-of_issue_class msg sender s s' res h =
      let after : s' ≡ record s { classes = W.classes.save s.classes (class_id_of W msg) msg } =
        ground arith in
      record {
        is_issuer = ground arith;
        is_new = ground arith;
        changed = λ c. rw after (lawful.load-save s.classes (class_id_of W msg) c msg);
        same_nfts = ground arith;
        same_issued = ground arith;
        same_bank = ground arith;
        response = ground arith;
      }

  -- An issue of a class ends with an error and the store as before; or the sender is the issuer
  -- that the message names, the class was not there, and now it is there as the message states it,
  -- under the symbol in lower case and the issuer, and nothing else has changed.
  pub issue_class_effect :
      (msg : MsgIssueClass) (sender : Text) (s : Store W)
      → Ends W (ClassIssued W msg sender s) s (issue_class W msg sender s)
  unfolding issue_class
  issue_class_effect msg sender s =
      Ends-of_cases W _ s (issue_class W msg sender s) (ClassIssued-of_issue_class msg sender s)
        (λ e h. ground arith) (λ h. ground arith)
