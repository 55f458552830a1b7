-- ===== src/TokenFactory/Supply.antt =====
-- The supply of the denoms through any history of messages to the factory.
use cw_it.Base.{
  ℕ, ◌+◌, ◌≡◌, sym, ap, ◌∙◌, subst, true, false, some, List, [], ◌∷◌, get_elem?, bytes_eq, nat_eq,
  ◌==◌, if◌then◌else◌, arith, Bool-cases, inl, inr,
}
use cw_it.Text.{Text, split}
use cw_it.Chain.{
  Binary, ok-cancel, AppResponse, ok, StargateMsg, Router, IsBank, count, count-other, amount_in,
  amount_in-parsed, if_ok, run, total, NoneOwns, run-balances, run-keeps,
}
use cw_it.SdkCoin.{coin_from_sdk_string}
use cw_it.TokenFactory.{
  denom_of, MsgCreateDenom, TokenFactory, Codec, execute, create_denom, mint, burn,
}
use cw_it.TokenFactory.Create.{create_denom_succeeds_iff}
use cw_it.TokenFactory.Mint.{mint_succeeds_iff}
use cw_it.TokenFactory.Burn.{burn_succeeds_iff}

module _ (C : Codec) (F : TokenFactory) (d : Text) where
  -- What a message adds to the supply of `d`, and what it takes off, if it is accepted.
  unfoldable pub minted : StargateMsg → ℕ
  unfolding bytes_eq
  minted msg =
      if msg.type_url == C.create_denom_url
      then 0
      else if msg.type_url == C.mint_url
      then if_ok (C.decode_mint msg.value) (λ m. amount_in d m.amount)
      else 0

  unfoldable pub burned : StargateMsg → ℕ
  unfolding bytes_eq
  burned msg =
      if msg.type_url == C.create_denom_url
      then if_ok (coin_from_sdk_string F.denom_creation_fee) (λ fee. count d (fee ∷ []))
      else if msg.type_url == C.mint_url
      then 0
      else if msg.type_url == C.burn_url
      then if_ok (C.decode_burn msg.value) (λ m. amount_in d m.amount)
      else 0

-- The second part of the denom is the account.
abbrev pub Created : Text → Text → Type 0
Created d sender = get_elem? (split b'/' d) 1 ≡ some sender

not_own :
    (sender d : Text)
    → (Created d sender → ⊥)
    → (denom : Text) (n : ℕ) → Created denom sender
    → count d (record { denom = denom; amount = n } ∷ []) ≡ 0
not_own sender d other denom n own =
    count-other d denom n (λ same. other (subst (λ x. Created x sender) (sym same) own))

module _ (R : Router) (C : Codec) (F : TokenFactory) where
  -- An accepted message is one of the three, and its handler accepts it.
  execute-cases :
      (sender : Text) (msg : StargateMsg) (bank bank' : R.Bank) (res : AppResponse) {G : Type 0}
      → execute R C F sender msg bank ≡ (ok res, bank')
      → ((msg.type_url == C.create_denom_url) ≡ true
          → create_denom R C F sender msg.value bank ≡ (ok res, bank')
          → G)
      → ((msg.type_url == C.create_denom_url) ≡ false
          → (msg.type_url == C.mint_url) ≡ true
          → mint R C F sender msg.value bank ≡ (ok res, bank')
          → G)
      → ((msg.type_url == C.create_denom_url) ≡ false
          → (msg.type_url == C.mint_url) ≡ false
          → (msg.type_url == C.burn_url) ≡ true
          → burn R C F sender msg.value bank ≡ (ok res, bank')
          → G)
      → G
  unfolding execute bytes_eq
  execute-cases sender msg bank bank' res h created minted_ burned_ =
      elim (Bool-cases (msg.type_url == C.create_denom_url)) [
        | inl c ↦ created c (rw c at h)
        | inr nc ↦ elim (Bool-cases (msg.type_url == C.mint_url)) [
          | inl m ↦ minted_ nc m (rw (nc, m) at h)
          | inr nm ↦ elim (Bool-cases (msg.type_url == C.burn_url)) [
            | inl b ↦ burned_ nc nm b (rw (nc, nm, b) at h)
            | inr nb ↦ absurd (ground (arith, h, nc, nm, nb))
          ]
        ]
      ]

  module _ (B : IsBank R) (sender : Text) (msg : StargateMsg) (bank bank' : R.Bank)
      (res : AppResponse) (h : execute R C F sender msg bank ≡ (ok res, bank')) (d : Text) where
    pub execute-balances : B.supply d bank' + burned C F d msg ≡ B.supply d bank + minted C F d msg
    unfolding minted burned
    execute-balances =
        execute-cases sender msg bank bank' res h
          (λ c e.
            let made = (create_denom_succeeds_iff R C F sender msg.value bank bank' res).0 e in
            let paid = B.burn_takes sender (made.fee ∷ []) bank bank' made.burned made.charged d in
            rw (c, made.fee_read) (omega (arith, paid)))
          (λ nc m e.
            let made = (mint_succeeds_iff R C F sender msg.value bank bank' res).0 e in
            let paid = B.mint_adds _ _ bank bank' made.minted made.paid d in
            let asked =
              amount_in-parsed d made.msg.amount made.coin made.amount made.has_coin made.parsed in
            rw (nc, m, made.decoded) (omega (arith, paid, asked)))
          (λ nc nm b e.
            let made = (burn_succeeds_iff R C F sender msg.value bank bank' res).0 e in
            let paid = B.burn_takes sender _ bank bank' made.burned made.paid d in
            let asked =
              amount_in-parsed d made.msg.amount made.coin made.amount made.has_coin made.parsed in
            rw (nc, nm, b, made.decoded) (omega (arith, paid, asked)))

    execute-outsider :
        (Created d sender → ⊥)
        → if_ok (coin_from_sdk_string F.denom_creation_fee) (λ fee. count d (fee ∷ [])) ≡ 0
        → B.supply d bank' ≡ B.supply d bank
    execute-outsider other no_fee =
        execute-cases sender msg bank bank' res h
          (λ c e.
            let made = (create_denom_succeeds_iff R C F sender msg.value bank bank' res).0 e in
            let paid = B.burn_takes sender (made.fee ∷ []) bank bank' made.burned made.charged d in
            let free = rw made.fee_read at no_fee in omega (arith, paid, free))
          (λ nc m e.
            let made = (mint_succeeds_iff R C F sender msg.value bank bank' res).0 e in
            let paid = B.mint_adds _ _ bank bank' made.minted made.paid d in
            let free = not_own sender d other made.coin.denom made.amount made.is_creator in
            omega (arith, paid, free))
          (λ nc nm b e.
            let made = (burn_succeeds_iff R C F sender msg.value bank bank' res).0 e in
            let paid = B.burn_takes sender _ bank bank' made.burned made.paid d in
            let free = not_own sender d other made.coin.denom made.amount made.is_creator in
            omega (arith, paid, free))

  -- If the bank keeps its supplies, then after any history of messages to the factory, each run as a
  -- transaction, the supply of each denom is the one before with what the accepted mints of it ask
  -- for, without what the accepted burns of it ask for and, if it is the denom of the fee, one fee
  -- for each denom created.
  pub run-supply :
      (B : IsBank R) (d : Text) (history : List (Text × StargateMsg)) (bank : R.Bank)
      → B.supply d (run (execute R C F) history bank)
          + total (execute R C F) (burned C F d) history bank
        ≡ B.supply d bank + total (execute R C F) (minted C F d) history bank
  run-supply B d history bank =
      run-balances (execute R C F) (B.supply d) (minted C F d) (burned C F d)
        (λ sender msg bank bank' res h. execute-balances B sender msg bank bank' res h d) history
        bank

  -- If the bank keeps its supplies, no history of messages to the factory changes the supply of a
  -- denom whose second part is none of the senders, unless it is the denom of the fee.
  pub outsiders_keep_supply :
      (B : IsBank R) (d : Text) (history : List (Text × StargateMsg)) (bank : R.Bank)
      → if_ok (coin_from_sdk_string F.denom_creation_fee) (λ fee. count d (fee ∷ [])) ≡ 0
      → NoneOwns (execute R C F) (Created d) history
      → B.supply d (run (execute R C F) history bank) ≡ B.supply d bank
  outsiders_keep_supply B d history bank no_fee others =
      run-keeps (execute R C F) (B.supply d) (Created d)
        (λ sender msg bank bank' res other h.
          execute-outsider B sender msg bank bank' res h d other no_fee)
        history bank others

  -- If the bank keeps its supplies, then a denom is created after a history of messages only where
  -- its supply is zero: what the accepted burns of it took, with the fees if it is the denom of the
  -- fee, is the supply before the history with all that the accepted mints of it asked for.
  pub create_denom-after_run :
      (B : IsBank R) (d : Text) (history : List (Text × StargateMsg)) (bank bank' : R.Bank)
      (sender : Text) (value : Binary) (msg : MsgCreateDenom) (res : AppResponse)
      → C.decode_create_denom value ≡ ok msg
      → denom_of F.module_denom_prefix msg.sender msg.subdenom ≡ d
      → create_denom R C F sender value (run (execute R C F) history bank) ≡ (ok res, bank')
      → total (execute R C F) (burned C F d) history bank
        ≡ B.supply d bank + total (execute R C F) (minted C F d) history bank
  create_denom-after_run B d history bank bank' sender value msg res decoded named h =
      let now = run (execute R C F) history bank in
      let made = (create_denom_succeeds_iff R C F sender value now bank' res).0 h in
      let same : made.msg ≡ msg = ok-cancel (sym made.decoded ∙ decoded) in
      let d' = denom_of F.module_denom_prefix made.msg.sender made.msg.subdenom in
      let d-same : d' ≡ d =
        ap (λ m. denom_of F.module_denom_prefix m.sender m.subdenom) same ∙ named in
      let asked = ok-cancel (sym (B.query-supply d' now) ∙ made.queried) in
      let none_left : B.supply d now ≡ 0 =
        ap (λ x. B.supply x now) (sym d-same) ∙ ap (λ c. c.amount) asked ∙ made.is_new in
      omega (arith, none_left, run-supply B d history bank)
