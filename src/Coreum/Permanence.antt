-- ===== src/Coreum/Permanence.antt =====
-- What no message takes back: classes stay as they are, and tokens stay stored.
use cw_it.Base.{
  ◌≡◌, ◌⊎◌, inl, inr, refl, ap, sym, subst, ◌∙◌, Option, none, some, arith, bytes_eq, ==-cases,
}
use cw_it.Text.{Text}
use cw_it.Chain.{
  AppResponse, StargateMsg, Result, ok, err, panicked, outcome, succeeds, fails, panics, IsLawful,
}
use cw_it.Coreum.Types.{TokenFactory, MsgIssue, MsgIssueClass, World, Store}
use cw_it.Coreum.Fungible.{issue, mint, burn, check_issue, issue_to_denom}
use cw_it.Coreum.Fungible.Issue.{check_issue-panicked, MayIssue-of_check_issue, issue_refused}
use cw_it.Coreum.Fungible.Frame.{OnlyBank, mint-OnlyBank, burn-OnlyBank, issue_frame}
use cw_it.Coreum.Nft.{issue_class, nft_mint, nft_burn, nft_send, class_id_of}
use cw_it.Coreum.Nft.Spec.{Ends, ClassIssued, NftMinted, NftBurned, NftSent, class_at}
use cw_it.Coreum.Nft.Effects.{nft_mint_effect, nft_burn_effect, nft_send_effect, issue_class_effect}
use cw_it.Coreum.Handle.{execute, execute_cases}
use cw_it.Coreum.Invariant.{AreLawful}

-- A class that was there is there as it was.
abbrev pub ClassStays : Option MsgIssueClass → Option MsgIssueClass → Type 0
ClassStays none now = Unit
ClassStays (some m) now = now ≡ some m

-- A token that was there is there, as it was or as a definition whose issuer is the sender.
abbrev pub TokenStays : Text → Option MsgIssue → Option MsgIssue → Type 0
TokenStays sender none now = Unit
TokenStays sender (some t) now =
    (token : MsgIssue) × (now ≡ some token) × ((token ≡ t) ⊎ (token.issuer ≡ sender))

ClassStays-same : (old : Option MsgIssueClass) → ClassStays old old
ClassStays-same none = tt
ClassStays-same (some m) = refl

TokenStays-same : (sender : Text) (old : Option MsgIssue) → TokenStays sender old old
TokenStays-same sender none = tt
TokenStays-same sender (some t) = (t, refl, inl refl)

TokenStays-own :
    (sender : Text) (old : Option MsgIssue) (k : MsgIssue)
    → k.issuer ≡ sender
    → TokenStays sender old (some k)
TokenStays-own sender none k own = tt
TokenStays-own sender (some t) k own = (k, refl, inr own)

module _ (W : World) where
  module _ (sender c d : Text) (s s' : Store W) where
    pub record Keeps : Type 0 where
      pub class_stays : ClassStays (class_at W s c) (class_at W s' c)
      pub token_stays :
          TokenStays sender (W.issued.may_load s.issued d) (W.issued.may_load s'.issued d)

  module _ (sender c d : Text) (s : Store W) where
    class-same :
        (s' : Store W)
        → class_at W s' c ≡ class_at W s c
        → ClassStays (class_at W s c) (class_at W s' c)
    class-same s' e = subst (ClassStays (class_at W s c)) (sym e) (ClassStays-same _)

    token-same :
        (s' : Store W)
        → W.issued.may_load s'.issued d ≡ W.issued.may_load s.issued d
        → TokenStays sender (W.issued.may_load s.issued d) (W.issued.may_load s'.issued d)
    token-same s' e =
        subst (TokenStays sender (W.issued.may_load s.issued d)) (sym e) (TokenStays-same sender _)

    same-Keeps :
        (s' : Store W) → s'.classes ≡ s.classes → s'.issued ≡ s.issued → Keeps sender c d s s'
    same-Keeps s' e f = record {
      class_stays = class-same s' (ap (λ m. W.classes.may_load m c) e);
      token_stays = token-same s' (ap (λ m. W.issued.may_load m d) f);
    }

    Ends-Keeps :
        (Done : Store W → AppResponse → Type 0) (r : Result AppResponse × Store W)
        → Ends W Done s r
        → ((s' : Store W) (res : AppResponse) → Done s' res → Keeps sender c d s s')
        → Keeps sender c d s r.1
    Ends-Keeps Done (ok res, s') done keep = keep s' res done
    Ends-Keeps Done (err e, s') same keep =
        same-Keeps s' (ap (λ u. u.classes) same) (ap (λ u. u.issued) same)
    Ends-Keeps Done (panicked, s') never keep = absurd never

    issued_class-Keeps :
        (k : MsgIssueClass) (s' : Store W) (res : AppResponse)
        → ClassIssued W k sender s s' res
        → Keeps sender c d s s'
    issued_class-Keeps k s' res i = record {
      class_stays = elim (==-cases {A = Text} c (class_id_of W k)) [
        | inl (here, same) ↦
            subst (λ old. ClassStays old (class_at W s' c))
              (sym (ap (class_at W s) same ∙ i.is_new)) tt
        | inr there ↦ class-same s' (ground (arith, i.changed c))
      ];
      token_stays = token-same s' (ap (λ m. W.issued.may_load m d) i.same_issued);
    }

    saved-Keeps :
        (k : MsgIssue) (s' : Store W)
        → IsLawful W.issued
        → k.issuer ≡ sender
        → s'.classes ≡ s.classes
        → s'.issued ≡ W.issued.save s.issued (issue_to_denom k) k
        → Keeps sender c d s s'
    saved-Keeps k s' lawful own e f =
        let after = lawful.load-save s.issued (issue_to_denom k) d k in
        record {
          class_stays = class-same s' (ap (λ m. W.classes.may_load m c) e);
          token_stays = elim (==-cases {A = Text} d (issue_to_denom k)) [
            | inl (here, same) ↦
                subst (TokenStays sender (W.issued.may_load s.issued d))
                  (sym (ground (arith, after, f))) (TokenStays-own sender _ k own)
            | inr there ↦ token-same s' (ground (arith, after, f))
          ];
        }

    issue-Keeps :
        (F : TokenFactory) (k : MsgIssue)
        → IsLawful W.issued
        → Keeps sender c d s (issue W F k sender s).1
    issue-Keeps F k lawful =
        let s' = (issue W F k sender s).1 in
        let (same_nfts, same_classes, either) = issue_frame W F k sender s in
        elim either [
          | inl same ↦ same-Keeps s' same_classes same
          | inr saved ↦ elim (outcome (check_issue W F sender k s).0) [
            | succeeds u may ↦
                saved-Keeps k s' lawful (MayIssue-of_check_issue W F k sender s may).is_sender
                  same_classes saved
            | fails e failed ↦
                same-Keeps s' same_classes
                  (ap (λ r. r.1.issued) (issue_refused W F k sender s failed))
            | panics p ↦ absurd (check_issue-panicked W F k sender s p)
          ]
        ]

module _ (W : World) (lawful : AreLawful W) where
  -- If the maps follow their laws, then through every message, whatever its outcome, a class that
  -- is there stays as it is, and a token that is stored stays stored, as it was or as a definition
  -- whose issuer is the sender. Each of the two holds whether or not the store has the other.
  pub execute-Keeps :
      (F : TokenFactory) (sender : Text) (msg : StargateMsg) (s : Store W) (c d : Text)
      → Keeps W sender c d s (execute W F sender msg s).1
  execute-Keeps F sender msg s c d =
      execute_cases W (λ r. Keeps W sender c d s r.1) s F sender msg
        (λ r. same-Keeps W sender c d s s refl refl)
        (λ k. issue-Keeps W sender c d s F k lawful.issued)
        (λ k. bank-Keeps (mint W k sender s).1 (mint-OnlyBank W k sender s))
        (λ k. bank-Keeps (burn W k sender s).1 (burn-OnlyBank W k sender s))
        (λ k.
          Ends-Keeps W sender c d s (ClassIssued W k sender s) (issue_class W k sender s)
            (issue_class_effect W lawful.classes k sender s) (issued_class-Keeps W sender c d s k))
        (λ k.
          Ends-Keeps W sender c d s (NftMinted W k sender s) (nft_mint W k sender s)
            (nft_mint_effect W lawful.nfts k sender s)
            (λ s' res i. same-Keeps W sender c d s s' i.change.same_classes i.change.same_issued))
        (λ k.
          Ends-Keeps W sender c d s (NftBurned W k sender s) (nft_burn W k sender s)
            (nft_burn_effect W lawful.nfts k sender s)
            (λ s' res i. same-Keeps W sender c d s s' i.change.same_classes i.change.same_issued))
        (λ k.
          Ends-Keeps W sender c d s (NftSent W k sender s) (nft_send W k sender s)
            (nft_send_effect W lawful.nfts k sender s)
            (λ s' res i. same-Keeps W sender c d s s' i.change.same_classes i.change.same_issued))
    where
      bank-Keeps : (s' : Store W) → OnlyBank W s s' → Keeps W sender c d s s'
      bank-Keeps s' (same_nfts, same_classes, same_issued) =
          same-Keeps W sender c d s s' same_classes same_issued
