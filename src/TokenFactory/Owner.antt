-- ===== src/TokenFactory/Owner.antt =====
-- Who may mint and burn a denom, by the parts of its name.
use cw_it.Base.{ℕ, suc, ◌≡◌, ◌≢◌, ◌∙◌, false, some, List, [], ◌∷◌, ◌++◌, contains, nat_eq, arith}
use cw_it.Text.{Text, split, parse_u128}
use cw_it.Text.Split.{split-append, split-of_absent}
use cw_it.Chain.{
  Coin, ProtoCoin, AppResponse, ok, err, panicked, Router, BankMsg, BankSudo, ◌>>◌, pure,
  unauthorized_mint, unauthorized_burn,
}
use cw_it.TokenFactory.{
  TokenFactory, Codec, MsgCreateDenom, MsgMint, MsgBurn, denom_of, create_denom, mint, burn,
  mint_response, burn_response, recipient_of,
}
use cw_it.TokenFactory.Create.{create_denom_succeeds_iff}

pub split-denom_of :
    (prefix creator subdenom : Text)
    → contains prefix b'/' ≡ false
    → contains creator b'/' ≡ false
    → split b'/' (denom_of prefix creator subdenom) ≡ prefix ∷ creator ∷ split b'/' subdenom
split-denom_of prefix creator subdenom hp hc =
    split-append b'/' prefix (creator ++ (b'/' ∷ subdenom)) hp
    ∙ rw (split-append b'/' creator subdenom hc)

module _ (R : Router) (C : Codec) (F : TokenFactory) where
  module _ (creator subdenom text : Text)
      (clean_prefix : contains F.module_denom_prefix b'/' ≡ false)
      (clean_creator : contains creator b'/' ≡ false) where
    abbrev named : ProtoCoin
    named = record { denom = denom_of F.module_denom_prefix creator subdenom; amount = text }

    -- If neither the module's prefix nor a creator holds a slash, then a mint and a burn of a
    -- denom of that creator by another sender end with the error for it, whatever the subdenom and
    -- the amount are, and the bank is left alone.
    other_is_refused :
        (sender value : Text) (bank : R.Bank) {m : MsgMint} {b : MsgBurn}
        → sender ≢ creator
        → C.decode_mint value ≡ ok m
        → m.amount ≡ some named
        → C.decode_burn value ≡ ok b
        → b.amount ≡ some named
        → (mint R C F sender value bank ≡ (err unauthorized_mint, bank))
          × (burn R C F sender value bank ≡ (err unauthorized_burn, bank))
    unfolding mint burn
    other_is_refused sender value bank other dm cm db cb =
        ground
          (arith, split-denom_of F.module_denom_prefix creator subdenom clean_prefix clean_creator)

    abbrev coin_of : ℕ → List Coin
    coin_of n = record { denom = named.denom; amount = n } ∷ []

    -- If neither the module's prefix nor a creator holds a slash, then a mint and a burn by that
    -- creator of a denom of its own in a positive `u128`, whatever the subdenom is, are what the
    -- bank makes of them, with the response of the factory.
    creator_is_served :
        (value : Text) (n : ℕ) (bank : R.Bank) {m : MsgMint} {b : MsgBurn}
        → C.decode_mint value ≡ ok m
        → m.amount ≡ some named
        → m.sender ≡ creator
        → C.decode_burn value ≡ ok b
        → b.amount ≡ some named
        → b.sender ≡ creator
        → parse_u128 text ≡ some (suc n)
        → (mint R C F creator value bank
            ≡ (R.sudo (BankSudo.mint (recipient_of m) (coin_of (suc n)))
                  >> pure (mint_response C m named.denom (suc n)))
                bank)
          × (burn R C F creator value bank
              ≡ (R.execute creator (BankMsg.burn (coin_of (suc n)))
                    >> pure (burn_response C creator (suc n)))
                  bank)
    unfolding mint burn
    creator_is_served value n bank dm cm sm db cb sb parsed =
        ground
          (arith, split-denom_of F.module_denom_prefix creator subdenom clean_prefix clean_creator)

  -- A mint of a denom of three parts, whose first part is not the module's prefix and whose second
  -- part is the sender, in a positive `u128`, is what the bank makes of it, with the response of
  -- the factory.
  foreign_prefix_is_minted :
      (foreign sender subdenom text value : Text) (n : ℕ) (bank : R.Bank) {m : MsgMint}
      → foreign ≢ F.module_denom_prefix
      → contains foreign b'/' ≡ false
      → contains sender b'/' ≡ false
      → contains subdenom b'/' ≡ false
      → C.decode_mint value ≡ ok m
      → m.amount ≡ some (record { denom = denom_of foreign sender subdenom; amount = text })
      → m.sender ≡ sender
      → parse_u128 text ≡ some (suc n)
      → mint R C F sender value bank
        ≡ (R.sudo (
                BankSudo.mint
                  (recipient_of m)
                  (record { denom = denom_of foreign sender subdenom; amount = suc n } ∷ []))
              >> pure (mint_response C m (denom_of foreign sender subdenom) (suc n)))
            bank
  unfolding mint
  foreign_prefix_is_minted foreign sender subdenom text value n bank ne hf hs hd dm cm sm parsed =
      ground (arith, split-denom_of foreign sender subdenom hf hs, split-of_absent b'/' subdenom hd)

  -- If the module's prefix holds no slash, a mint and a burn of the bare prefix as denom panic,
  -- whoever sends them.
  bare_prefix_panics :
      (sender text value : Text) (bank : R.Bank) {m : MsgMint} {b : MsgBurn}
      → contains F.module_denom_prefix b'/' ≡ false
      → C.decode_mint value ≡ ok m
      → m.amount ≡ some (record { denom = F.module_denom_prefix; amount = text })
      → C.decode_burn value ≡ ok b
      → b.amount ≡ some (record { denom = F.module_denom_prefix; amount = text })
      → (mint R C F sender value bank ≡ (panicked, bank))
        × (burn R C F sender value bank ≡ (panicked, bank))
  unfolding mint burn
  bare_prefix_panics sender text value bank clean dm cm db cb =
      ground (arith, split-of_absent b'/' F.module_denom_prefix clean)

  created_facts :
      (sender value : Text) (bank bank' : R.Bank) {res : AppResponse} {c : MsgCreateDenom}
      → create_denom R C F sender value bank ≡ (ok res, bank')
      → C.decode_create_denom value ≡ ok c
      → (contains c.sender b'/' ≡ false) × (c.sender ≡ sender)
  created_facts sender value bank bank' {res} h dc =
      let made = (create_denom_succeeds_iff R C F sender value bank bank' res).0 h in
      ground (arith, made.decoded, made.no_slash, made.is_sender)

  -- If the module's prefix holds no slash, then after a `create_denom` that succeeds a mint of the
  -- new denom by the same sender in a positive `u128` is what the bank makes of it, with the
  -- response of the factory.
  created_is_mintable :
      (sender value order text : Text) (n : ℕ) (bank bank' : R.Bank) {res : AppResponse}
      {c : MsgCreateDenom} {m : MsgMint}
      → contains F.module_denom_prefix b'/' ≡ false
      → create_denom R C F sender value bank ≡ (ok res, bank')
      → C.decode_create_denom value ≡ ok c
      → C.decode_mint order ≡ ok m
      → let denom = denom_of F.module_denom_prefix c.sender c.subdenom in
        m.amount ≡ some (record { denom = denom; amount = text })
        → m.sender ≡ sender
        → parse_u128 text ≡ some (suc n)
        → let denom = denom_of F.module_denom_prefix c.sender c.subdenom in
          mint R C F sender order bank'
          ≡ (R.sudo (BankSudo.mint (recipient_of m) (record { denom = denom; amount = suc n } ∷ []))
                >> pure (mint_response C m denom (suc n)))
              bank'
  unfolding mint
  created_is_mintable sender value order text n bank bank' {c = c} clean h dc dm cm sm parsed =
      let facts = created_facts sender value bank bank' h dc in
      ground
        (arith, split-denom_of F.module_denom_prefix c.sender c.subdenom clean facts.0, facts.1)
