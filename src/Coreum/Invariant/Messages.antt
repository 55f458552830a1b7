-- ===== src/Coreum/Invariant/Messages.antt =====
-- Every message keeps the invariant of the store, on every outcome.
use cw_it.Base.{
  ◌≡◌, refl, ◌∙◌, inl, inr, false, none, some, bytes_eq, pair_eq, arith, ◌==◌, if◌then◌else◌,
  ==-cases, none-some, ap,
}
use cw_it.Text.{Text, is_empty}
use cw_it.Chain.{AppResponse}
use cw_it.Coreum.Types.{
  TokenFactory, MsgIssue, MsgIssueClass, MsgNftMint, MsgNftBurn, MsgNftSend, World, Store,
}
use cw_it.Coreum.Fungible.{issue, issue_to_denom}
use cw_it.Coreum.Fungible.Frame.{issue_frame}
use cw_it.Coreum.Nft.{issue_class, nft_mint, nft_burn, nft_send, class_id_of}
use cw_it.Coreum.Nft.Spec.{ClassIssued, class_at}
use cw_it.Coreum.Nft.Effects.{nft_mint_effect, nft_burn_effect, nft_send_effect, issue_class_effect}
use cw_it.Coreum.Invariant.{
  AreLawful, IsFiled, IsValid, some-IsFiled, ChangesNft-IsValid, same_nfts-IsValid, Ends-IsValid,
}

module _ (W : World) (lawful : AreLawful W) where
  pub nft_mint-IsValid :
      (msg : MsgNftMint) (sender : Text) (s : Store W)
      → is_empty sender ≡ false
      → IsValid W s
      → IsValid W (nft_mint W msg sender s).1
  nft_mint-IsValid msg sender s some_sender v =
      Ends-IsValid W s (nft_mint W msg sender s) (nft_mint_effect W lawful.nfts msg sender s)
        (λ s' res m.
          ChangesNft-IsValid W msg.class_id msg.id _ s s' m.change
            (some-IsFiled W s msg.class_id msg.id _ (record {
              class = m.class;
              own_class = refl;
              own_id = refl;
              has_owner = ground arith;
              has_class = m.has_class;
            }))
            v)
        v

  pub nft_burn-IsValid :
      (msg : MsgNftBurn) (sender : Text) (s : Store W)
      → IsValid W s
      → IsValid W (nft_burn W msg sender s).1
  nft_burn-IsValid msg sender s v =
      Ends-IsValid W s (nft_burn W msg sender s) (nft_burn_effect W lawful.nfts msg sender s)
        (λ s' res m.
          ChangesNft-IsValid W msg.class_id msg.id none s s' m.change
            (λ n same. absurd (ground arith)) v)
        v

  pub nft_send-IsValid :
      (msg : MsgNftSend) (sender : Text) (s : Store W)
      → IsValid W s
      → IsValid W (nft_send W msg sender s).1
  nft_send-IsValid msg sender s v =
      Ends-IsValid W s (nft_send W msg sender s) (nft_send_effect W lawful.nfts msg sender s)
        (λ s' res m.
          let filed : IsFiled W s msg.class_id msg.id m.stored =
            v.nfts msg.class_id msg.id m.stored m.has_nft in
          ChangesNft-IsValid W msg.class_id msg.id _ s s' m.change
            (some-IsFiled W s msg.class_id msg.id _ (record {
              class = m.class;
              own_class = filed.own_class;
              own_id = filed.own_id;
              has_owner = m.has_receiver;
              has_class = m.has_class;
            }))
            v)
        v

  pub issue_class-IsValid :
      (msg : MsgIssueClass) (sender : Text) (s : Store W)
      → IsValid W s
      → IsValid W (issue_class W msg sender s).1
  issue_class-IsValid msg sender s v =
      Ends-IsValid W s (issue_class W msg sender s)
        (issue_class_effect W lawful.classes msg sender s)
        (λ s' res m. record {
          nfts = λ c i n h.
              let f : IsFiled W s c i n = v.nfts c i n (rw (← m.same_nfts) h) in
              record {
                class = f.class;
                own_class = f.own_class;
                own_id = f.own_id;
                has_owner = f.has_owner;
                has_class = still_there s s' res m c f.class f.has_class;
              };
          classes = λ c k h. own_name s s' res m c k h (v.classes c k);
          tokens = λ d k h. v.tokens d k (rw (← m.same_issued) h);
        })
        v
    where
      still_there :
          (s s' : Store W) (res : AppResponse) (m : ClassIssued W msg sender s s' res) (c : Text)
          (k : MsgIssueClass)
          → class_at W s c ≡ some k
          → class_at W s' c ≡ some k
      still_there s s' res m c k h = elim (==-cases {A = Text} c (class_id_of W msg)) [
        | inl (here, same) ↦ absurd (none-some {a = k} m.is_new (rw (← same) h))
        | inr there ↦ ground (arith, m.changed c)
      ]

      own_name :
          (s s' : Store W) (res : AppResponse) (m : ClassIssued W msg sender s s' res) (c : Text)
          (k : MsgIssueClass)
          → class_at W s' c ≡ some k
          → (class_at W s c ≡ some k → c ≡ class_id_of W k)
          → c ≡ class_id_of W k
      own_name s s' res m c k h old = elim (==-cases {A = Text} c (class_id_of W msg)) [
        | inl (here, same) ↦
            same ∙ ap (class_id_of W) {x = msg} {y = k} (ground (arith, m.changed c))
        | inr there ↦ old (ground (arith, m.changed c))
      ]

  pub issue-IsValid :
      (F : TokenFactory) (msg : MsgIssue) (sender : Text) (s : Store W)
      → IsValid W s
      → IsValid W (issue W F msg sender s).1
  issue-IsValid F msg sender s v =
      let (same_nfts, same_classes, either) = issue_frame W F msg sender s in
      same_nfts-IsValid W s (issue W F msg sender s).1 same_nfts same_classes
        (λ d m h. elim either [
          | inl same ↦ v.tokens d m (rw (← same) h)
          | inr saved ↦
              own_name d m (rw (← saved) h)
                (lawful.issued.load-save s.issued (issue_to_denom msg) d msg)
        ])
        v
    where
      own_name :
          (d : Text) (m : MsgIssue)
          → W.issued.may_load (W.issued.save s.issued (issue_to_denom msg) msg) d ≡ some m
          → W.issued.may_load (W.issued.save s.issued (issue_to_denom msg) msg) d
            ≡ (if d == issue_to_denom msg then some msg else W.issued.may_load s.issued d)
          → d ≡ issue_to_denom m
      own_name d m h e = elim (==-cases {A = Text} d (issue_to_denom msg)) [
        | inl (here, same) ↦ same ∙ ap issue_to_denom {x = msg} {y = m} (ground arith)
        | inr there ↦ v.tokens d m (ground arith)
      ]
