-- ===== src/Coreum/Fungible/Denoms.antt =====
-- Which issued tokens can be minted and burned afterwards, and to whom a mint pays.
use cw_it.Base.{
  ℕ, suc, ◌≡◌, ◌∙◌, refl, false, some, List, [], ◌∷◌, contains, nat_eq, bytes_eq, arith,
}
use cw_it.Text.{Text, codes, split, parse_u128, print_u128}
use cw_it.Text.Split.{split-append, split-of_absent}
use cw_it.Chain.{
  Coin, AppResponse, push_event, ok, ◌>>=◌, pure, unauthorized_mint, unauthorized_burn, BankMsg,
  BankSudo,
}
use cw_it.Coreum.Types.{MsgIssue, MsgMint, MsgBurn, World, Store}
use cw_it.Coreum.Fungible.{mint, burn, mint_event, burn_event, issue_to_denom, bank_mint, on_bank}
use cw_it.Coreum.Fungible.Checks.{
  MayHandle, IsAmount, check_denom-of_MayHandle, check_amount-of_IsAmount,
}

module _ (W : World) where
  issued_MayHandle :
      (m : MsgIssue) (s : Store W)
      → contains m.subunit b'-' ≡ false
      → contains m.issuer b'-' ≡ false
      → W.issued.may_load s.issued (issue_to_denom m) ≡ some m
      → MayHandle W (issue_to_denom m) m.issuer m.issuer s
  issued_MayHandle m s hs hi stored =
      let parts : split b'-' (issue_to_denom m) ≡ m.subunit ∷ m.issuer ∷ [] =
        split-append b'-' m.subunit m.issuer hs ∙ rw (split-of_absent b'-' m.issuer hi) in
      record {
        issue = m;
        shape = ground (arith, parts);
        is_issuer = ground (arith, parts);
        is_sender = refl;
        is_issued = stored;
      }

  -- A stored token without a dash in its subunit and its issuer is minted and burned by its
  -- issuer: a mint and a burn of a positive `u128` are what the bank makes of them, with the event
  -- of the factory.
  pub issuer_is_served :
      (t : MsgIssue) (text : Text) (n : ℕ) (s : Store W) (m : MsgMint) (b : MsgBurn)
      → contains t.subunit b'-' ≡ false
      → contains t.issuer b'-' ≡ false
      → W.issued.may_load s.issued (issue_to_denom t) ≡ some t
      → m.coin ≡ some (record { denom = issue_to_denom t; amount = text })
      → m.sender ≡ t.issuer
      → b.coin ≡ some (record { denom = issue_to_denom t; amount = text })
      → b.sender ≡ t.issuer
      → parse_u128 text ≡ some (suc n)
      → let coins : List Coin = record { denom = issue_to_denom t; amount = suc n } ∷ [] in
        (mint W m t.issuer s
          ≡ (bank_mint W m.recipient coins >>= λ res.
                pure (push_event res (mint_event m (issue_to_denom t) (suc n))))
              s)
        × (burn W b t.issuer s
            ≡ (on_bank W (W.router.execute t.issuer (BankMsg.burn coins)) >>= λ res.
                  pure (push_event res (burn_event t.issuer (suc n))))
                s)
  unfolding mint burn
  issuer_is_served t text n s m b hs hi stored cm sm cb sb parsed =
      let may = issued_MayHandle t s hs hi stored in
      ground (
        arith,
        check_denom-of_MayHandle W unauthorized_mint (issue_to_denom t) t.issuer t.issuer s may,
        check_denom-of_MayHandle W unauthorized_burn (issue_to_denom t) t.issuer t.issuer s may,
        check_amount-of_IsAmount W text (suc n) s
            (record { parsed = parsed; is_positive = omega arith }),
      )

  -- A mint with an empty recipient that passes the checks and that the bank performs pays to the
  -- empty address, while its event names the sender as the recipient.
  empty_recipient_is_paid :
      (sender text : Text) (n : ℕ) (s : Store W) (m : MsgMint) (denom : Text) {minted : AppResponse}
      {bank : W.router.Bank}
      → m.coin ≡ some (record { denom = denom; amount = text })
      → m.recipient ≡ []
      → MayHandle W denom sender m.sender s
      → IsAmount text n
      → W.router.sudo (BankSudo.mint [] (record { denom = denom; amount = n } ∷ [])) s.bank
        ≡ (ok minted, bank)
      → mint W m sender s ≡ (
        ok (
            push_event minted (record {
              ty = codes "tf_mint";
              attributes =
                  (codes "sender", m.sender)
                  ∷ (codes "recipient", m.sender)
                  ∷ (codes "denom", denom)
                  ∷ (codes "amount", print_u128 n)
                  ∷ [];
            })),
        record s { bank = bank },
      )
  unfolding mint mint_event
  empty_recipient_is_paid sender text n s m denom cm none_named may is paid = ground (
    arith,
    check_denom-of_MayHandle W unauthorized_mint denom sender m.sender s may,
    check_amount-of_IsAmount W text n s is,
  )
