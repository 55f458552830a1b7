-- ===== src/Coreum/Fungible/Issue.antt =====
-- When `issue` succeeds, what it does to the store, and what it leaves behind when it fails.
use cw_it.Base.{◌≤◌, ◌≡◌, ◌≢◌, ◌↔◌, true, false, [], ◌∷◌, length, contains, nat_eq, arith}
use cw_it.Text.{Text, codes}
use cw_it.Chain.{
  Coin, AppResponse, push_event, ok, err, panicked, BankMsg, outcome, succeeds, fails, panics,
  Error, subdenom_exists,
}
use cw_it.SdkCoin.{coreum_coin_from_sdk_string}
use cw_it.Coreum.Types.{TokenFactory, MsgIssue, World, Store}
use cw_it.Coreum.Fungible.Initial.{
  new_denom, InitialPaid, mint_initial-of_InitialPaid, InitialPaid-of_mint_initial,
}
use cw_it.Coreum.Fungible.{
  issue, issue_event, issue_to_denom, denom_re, on_bank, check_issue, charge_fee, mint_initial,
}

-- The guards of `issue` in one.
pub record MayIssue (F : TokenFactory) (msg : MsgIssue) (sender : Text) : Type 0 where
  pub subunit_fits : length msg.subunit ≤ F.max_subdenom_len
  pub issuer_fits : length msg.issuer ≤ F.max_creator_len
  pub no_slash : contains msg.issuer b'/' ≡ false
  pub is_sender : msg.issuer ≡ sender
  pub subunit_form : denom_re msg.subunit ≡ true
  pub symbol_form : denom_re msg.symbol ≡ true

module _ (W : World) (F : TokenFactory) (msg : MsgIssue) (sender : Text) where
  pub check_issue_state : (s : Store W) → (check_issue W F sender msg s).1 ≡ s
  unfolding check_issue
  check_issue_state s = ground arith

  check_issue-of_MayIssue :
      (s : Store W) → MayIssue F msg sender → check_issue W F sender msg s ≡ (ok tt, s)
  unfolding check_issue
  check_issue-of_MayIssue s may = ground arith

  pub check_issue-panicked : (s : Store W) → (check_issue W F sender msg s).0 ≢ panicked
  unfolding check_issue
  check_issue-panicked s h = ground arith

  pub MayIssue-of_check_issue :
      (s : Store W) {u : Unit {0}} → (check_issue W F sender msg s).0 ≡ ok u → MayIssue F msg sender
  unfolding check_issue
  MayIssue-of_check_issue s h = ground arith

  -- The store once the token is in it.
  abbrev pub with_token : Store W → Store W
  with_token s = record s { issued = W.issued.save s.issued (new_denom msg) msg }

  charge_fee_lem :
      (fee : Coin) (s : Store W)
      → coreum_coin_from_sdk_string F.denom_creation_fee ≡ ok fee
      → charge_fee W F sender s ≡ on_bank W (W.router.execute sender (BankMsg.burn (fee ∷ []))) s
  unfolding charge_fee
  charge_fee_lem fee s h = ground arith

  fee_of_charge_fee :
      (s : Store W) {r : AppResponse}
      → (charge_fee W F sender s).0 ≡ ok r
      → (fee : Coin) × (coreum_coin_from_sdk_string F.denom_creation_fee ≡ ok fee)
  unfolding charge_fee
  fee_of_charge_fee s h = elim (outcome (coreum_coin_from_sdk_string F.denom_creation_fee)) [
    | succeeds fee read ↦ (fee, read)
    | fails e failed ↦ absurd (ground arith)
    | panics e ↦ absurd (ground arith)
  ]

  -- What a successful call has checked and done: `s₁` is the store after the fee.
  pub record Issues (s s' : Store W) (res : AppResponse) : Type 0 where
    pub may_issue : MayIssue F msg sender
    pub supply : Coin
    pub queried : W.router.query_supply (new_denom msg) s.bank ≡ ok supply
    pub is_new : supply.amount ≡ 0
    pub fee : Coin
    pub fee_read : coreum_coin_from_sdk_string F.denom_creation_fee ≡ ok fee
    pub s₁ : Store W
    pub burned : AppResponse
    pub charged :
        on_bank W (W.router.execute sender (BankMsg.burn (fee ∷ []))) (with_token s)
        ≡ (ok burned, s₁)
    pub minted : AppResponse
    pub paid : InitialPaid W msg s₁ s' minted
    pub response :
        res
        ≡ push_event minted (record {
          ty = codes "/coreum.asset.ft.v1.EventIssued";
          attributes = (codes "denom", new_denom msg) ∷ (codes "issuer", msg.issuer) ∷ [];
        })

  issue-of_Issues :
      {s s' : Store W} {res : AppResponse} → Issues s s' res → issue W F msg sender s ≡ (ok res, s')
  unfolding issue issue_event
  issue-of_Issues {s} i = ground (
    arith,
    check_issue-of_MayIssue s i.may_issue,
    charge_fee_lem i.fee (with_token s) i.fee_read,
    mint_initial-of_InitialPaid W msg i.paid,
  )

  Issues-of_issue :
      {s s' : Store W} {res : AppResponse} → issue W F msg sender s ≡ (ok res, s') → Issues s s' res
  unfolding issue issue_event
  Issues-of_issue {s} {s'} h =
      let checked = check_issue_state s in
      let t = with_token s in
      let s₁ = (charge_fee W F sender t).1 in
      elim (outcome (check_issue W F sender msg s).0) [
        | succeeds u may ↦ elim (outcome (W.router.query_supply (issue_to_denom msg) s.bank)) [
          | succeeds supply queried ↦ elim (outcome (charge_fee W F sender t).0) [
            | succeeds burned charged ↦ elim (outcome (mint_initial W msg s₁).0) [
              | succeeds minted paid ↦
                  let (fee, read) = fee_of_charge_fee t charged in
                  record {
                    may_issue = MayIssue-of_check_issue s may;
                    supply = supply;
                    queried = queried;
                    is_new = ground (arith, checked);
                    fee = fee;
                    fee_read = read;
                    s₁ = s₁;
                    burned = burned;
                    charged = ground (arith, charge_fee_lem fee t read);
                    minted = minted;
                    paid = InitialPaid-of_mint_initial W msg (ground (arith, checked));
                    response = ground (arith, checked);
                  }
              | fails e failed ↦ absurd (ground (arith, checked))
              | panics e ↦ absurd (ground (arith, checked))
            ]
            | fails e failed ↦ absurd (ground (arith, checked))
            | panics e ↦ absurd (ground (arith, checked))
          ]
          | fails e failed ↦ absurd (ground (arith, checked))
          | panics e ↦ absurd (ground (arith, checked))
        ]
        | fails e failed ↦ absurd (ground (arith, checked))
        | panics e ↦ absurd (ground (arith, checked))
      ]

  -- A Coreum issue succeeds exactly when the subunit and the issuer fit, the issuer is the sender
  -- and holds no slash, the subunit and the symbol have the form of a denom, the new denom, which
  -- is the subunit, a dash and the issuer, has no supply, the fee's text is read as a coin, the bank
  -- burns it from the sender once the token is stored, and the initial amount, if there is one, is a
  -- `u128` that the bank mints of the new denom to the issuer if it is not zero; the store is then
  -- as that left it, and the response is the mint's, or the default one where nothing was minted,
  -- with the event of the issue, which names the new denom and the issuer.
  pub issue_succeeds_iff :
      (s s' : Store W) (res : AppResponse)
      → (issue W F msg sender s ≡ (ok res, s')) ↔ Issues s s' res
  issue_succeeds_iff s s' res = (Issues-of_issue, issue-of_Issues)

  -- An issue that passes the guards, and whose denom has a supply, ends with the error for it, and
  -- the handler leaves the new definition stored under the denom.
  issue_exists_overwrites :
      (s : Store W) {supply : Coin}
      → MayIssue F msg sender
      → W.router.query_supply (issue_to_denom msg) s.bank ≡ ok supply
      → supply.amount ≢ 0
      → issue W F msg sender s ≡ (err subdenom_exists, with_token s)
  unfolding issue
  issue_exists_overwrites s may queried old = ground (arith, check_issue-of_MayIssue s may)

  -- Where the guards fail, nothing changes.
  pub issue_refused :
      (s : Store W) {e : Error}
      → (check_issue W F sender msg s).0 ≡ err e
      → issue W F msg sender s ≡ (err e, s)
  unfolding issue
  issue_refused s h = ground (arith, check_issue_state s)
