-- ===== src/Coreum/Fungible/Usable.antt =====
-- Whether a token that was issued can be minted and burned by its issuer.
use cw_it.Base.{
  ℕ, suc, ◌≡◌, ◌≢◌, ◌∙◌, ap, sym, true, false, some, List, [], ◌∷◌, length, contains, nat_eq,
  bytes_eq, arith, inl, inr, ◌⊎◌, Bool-cases, ==-refl,
}
use cw_it.Text.{Text, split, parse_u128}
use cw_it.Text.Split.{length-split-append, length-split-pos, length-split_of_contains}
use cw_it.Chain.{
  Coin, AppResponse, push_event, ok, err, ◌>>=◌, pure, invalid_denom, BankMsg, IsLawful,
}
use cw_it.Coreum.Types.{TokenFactory, MsgIssue, MsgMint, MsgBurn, World, Store}
use cw_it.Coreum.Fungible.{
  issue, mint, burn, mint_event, burn_event, issue_to_denom, denom_of, mint_initial, bank_mint,
  on_bank, check_denom,
}
use cw_it.Coreum.Fungible.Issue.{issue_succeeds_iff}
use cw_it.Coreum.Fungible.Initial.{mint_initial-of_InitialPaid}
use cw_it.Coreum.Fungible.Frame.{mint_initial-OnlyBank}
use cw_it.Coreum.Fungible.Denoms.{issuer_is_served}

-- A denom of which one part has a dash has three parts or more.
length-split-dashed :
    (subunit issuer : Text)
    → (contains subunit b'-' ≡ true) ⊎ (contains issuer b'-' ≡ true)
    → length (split b'-' (denom_of subunit issuer)) ≢ 2
length-split-dashed subunit issuer (inl h) e = omega (
  arith,
  length-split-append b'-' subunit issuer,
  length-split_of_contains b'-' subunit h,
  length-split-pos b'-' issuer,
  e,
)
length-split-dashed subunit issuer (inr h) e = omega (
  arith,
  length-split-append b'-' subunit issuer,
  length-split_of_contains b'-' issuer h,
  length-split-pos b'-' subunit,
  e,
)

module _ (W : World) where
  module _ (F : TokenFactory) (t : MsgIssue) (sender : Text) (s s' : Store W)
      (res : AppResponse) where
    issued_is_stored :
        IsLawful W.issued
        → issue W F t sender s ≡ (ok res, s')
        → W.issued.may_load s'.issued (issue_to_denom t) ≡ some t
    unfolding bytes_eq
    issued_is_stored lawful h =
        let made = (issue_succeeds_iff W F t sender s s' res).0 h in
        let d = issue_to_denom t in
        let after_fee : W.issued.save s.issued d t ≡ made.s₁.issued =
          ap (λ r. r.1.issued) made.charged in
        let after_mint : (mint_initial W t made.s₁).1.issued ≡ s'.issued =
          ap (λ r. r.1.issued) (mint_initial-of_InitialPaid W t made.paid) in
        let kept = (mint_initial-OnlyBank W t made.s₁).2 in
        ap (λ i. W.issued.may_load i d) (sym after_mint ∙ kept ∙ sym after_fee)
        ∙ lawful.load-save s.issued d d t
        ∙ ground (arith, ==-refl {A = Text} d)

  module _ (t : MsgIssue) (m : MsgMint) (b : MsgBurn) (s : Store W) where
    -- The bank mints and burns the coins, and the factory adds its events.
    abbrev pub IsUsable : ℕ → Type 0
    IsUsable n =
        let coins : List Coin = record { denom = issue_to_denom t; amount = n } ∷ [] in
        (contains t.subunit b'-' ≡ false)
        × (contains t.issuer b'-' ≡ false)
        × (mint W m t.issuer s
            ≡ (bank_mint W m.recipient coins >>= λ res.
                  pure (push_event res (mint_event m (issue_to_denom t) n)))
                s)
        × (burn W b t.issuer s
            ≡ (on_bank W (W.router.execute t.issuer (BankMsg.burn coins)) >>= λ res.
                  pure (push_event res (burn_event t.issuer n)))
                s)

    -- Every mint and burn is refused, whoever sends it, and changes nothing.
    abbrev pub IsStuck : Type 0
    IsStuck =
        ((contains t.subunit b'-' ≡ true) ⊎ (contains t.issuer b'-' ≡ true))
        × ((sender : Text)
            → (mint W m sender s ≡ (err invalid_denom, s))
              × (burn W b sender s ≡ (err invalid_denom, s)))

  stuck :
      (t : MsgIssue) (m : MsgMint) (b : MsgBurn) (s : Store W) (text : Text)
      → m.coin ≡ some (record { denom = issue_to_denom t; amount = text })
      → b.coin ≡ some (record { denom = issue_to_denom t; amount = text })
      → (contains t.subunit b'-' ≡ true) ⊎ (contains t.issuer b'-' ≡ true)
      → IsStuck t m b s
  unfolding mint burn check_denom
  stuck t m b s text cm cb dash =
      let shape = length-split-dashed t.subunit t.issuer dash in
      (dash, λ sender. (ground (arith, shape), ground (arith, shape)))

  -- If the map of the tokens follows its laws, then after a successful issue a mint and a burn by
  -- the issuer, of a positive `u128` of the token, are what the bank makes of them, with the
  -- factory's events, where neither the subunit nor the issuer has a dash; otherwise both end with
  -- the error for an invalid denom, whoever sends them, and change nothing.
  pub issued-IsUsable_or_IsStuck :
      (F : TokenFactory) (t : MsgIssue) (sender text : Text) (n : ℕ) (s s' : Store W)
      (res : AppResponse) (m : MsgMint) (b : MsgBurn)
      → IsLawful W.issued
      → issue W F t sender s ≡ (ok res, s')
      → m.coin ≡ some (record { denom = issue_to_denom t; amount = text })
      → m.sender ≡ t.issuer
      → b.coin ≡ some (record { denom = issue_to_denom t; amount = text })
      → b.sender ≡ t.issuer
      → parse_u128 text ≡ some (suc n)
      → IsUsable t m b s' (suc n) ⊎ IsStuck t m b s'
  issued-IsUsable_or_IsStuck F t sender text n s s' res m b lawful issued cm sm cb sb parsed =
      elim (Bool-cases (contains t.subunit b'-')) [
        | inl hs ↦ inr (stuck t m b s' text cm cb (inl hs))
        | inr hs ↦ elim (Bool-cases (contains t.issuer b'-')) [
          | inl hi ↦ inr (stuck t m b s' text cm cb (inr hi))
          | inr hi ↦
              let (minted, burned) =
                issuer_is_served W t text n s' m b hs hi
                  (issued_is_stored F t sender s s' res lawful issued) cm sm cb sb parsed in
              inl (hs, hi, minted, burned)
        ]
      ]
