-- ===== src/Astroport/Astro/OnFactory.antt =====
-- `create_astro` where the messages reach the Osmosis token factory.
use cw_it.Base.{
  ◌≤◌, ◌≡◌, refl, ap, ◌∙◌, none, some, false, [], ◌∷◌, contains, length, arith, nat_eq, inl,
  if◌then◌else◌,
}
use cw_it.Text.{Text, codes, split, is_empty}
use cw_it.Text.Split.{split-of_absent}
use cw_it.Text.Decimal.{parse_u128-print_u128}
use cw_it.Chain.{
  Coin, Binary, AppResponse, Result, ok, err, panicked, external, Action, Router, BankMsg, BankSudo,
}
use cw_it.Chain.Seq.{>>=-ok, unwrap-ok}
use cw_it.Client.{Account}
use cw_it.TokenFactory.{
  TokenFactory, Codec, MsgCreateDenom, MsgMint, denom_of, create_denom, mint, create_denom_response,
}
use cw_it.TokenFactory.Create.{create_denom_succeeds_iff}
use cw_it.TokenFactory.Owner.{split-denom_of}
use cw_it.TokenFactory.Mint.{mint_succeeds_iff}
use cw_it.SdkCoin.{coin_from_sdk_string}
use cw_it.Astroport.Astro.{denom_msg, mint_msg, create_astro, astro_amount}

recipient : (a : Text) → (if is_empty a then a else a) ≡ a
recipient [] = refl
recipient (x ∷ a) = refl

module _ (R : Router) (C : Codec) (F : TokenFactory) where
  -- The encoders of the messages and the decoder of a response. The factory's decoders undo the
  -- encoding of the two messages of the admin, and the response is decoded to the denom in it.
  pub record Client (admin : Account) : Type 0 where
    pub encode_create_denom : MsgCreateDenom → Binary
    pub encode_mint : MsgMint → Binary
    pub decode_response : Binary → Result Text
    pub decode-encode_create :
        C.decode_create_denom (encode_create_denom (denom_msg admin)) ≡ ok (denom_msg admin)
    pub decode-encode_mint :
        (denom : Text)
        → denom ≡ denom_of F.module_denom_prefix admin.address (codes "astro")
        → C.decode_mint (encode_mint (mint_msg admin denom)) ≡ ok (mint_msg admin denom)
    pub decode-encode_response :
        (denom : Text) → decode_response (C.encode_create_denom_response denom) ≡ ok denom

  module _ (admin : Account) (K : Client admin) where
    abbrev read_denom : AppResponse → Result Text
    read_denom res = elim res.data_bytes [
      | none ↦ err (external (codes "no data"))
      | some d ↦ K.decode_response d
    ]

    -- The messages executed by the factory, in the name of the signer.
    abbrev pub run_create : MsgCreateDenom → Account → Action R.Bank Text
    run_create msg signer bank =
        let (r, bank') = create_denom R C F signer.address (K.encode_create_denom msg) bank in
        elim r [
          | ok res ↦ (read_denom res, bank')
          | err e ↦ (err e, bank')
          | panicked ↦ (panicked, bank')
        ]

    abbrev pub run_mint : MsgMint → Account → Action R.Bank (Unit {0})
    run_mint msg signer bank =
        let (r, bank') = mint R C F signer.address (K.encode_mint msg) bank in
        elim r [ ok res ↦ (ok tt, bank') | err e ↦ (err e, bank') | panicked ↦ (panicked, bank') ]

    run_create-ok :
        (msg : MsgCreateDenom) (bank bank1 : R.Bank) {denom : Text}
        → create_denom R C F admin.address (K.encode_create_denom msg) bank
          ≡ (ok (create_denom_response C msg.sender denom), bank1)
        → run_create msg admin bank ≡ (ok denom, bank1)
    unfolding create_denom_response
    run_create-ok msg bank bank1 {denom} h = ground (arith, h, K.decode-encode_response denom)

    run_mint-ok :
        (msg : MsgMint) (bank1 bank2 : R.Bank) {res : AppResponse}
        → mint R C F admin.address (K.encode_mint msg) bank1 ≡ (ok res, bank2)
        → run_mint msg admin bank1 ≡ (ok tt, bank2)
    run_mint-ok msg bank1 bank2 h = ground (arith, h)

    -- If the prefix of the factory and the admin's address hold no slash, the address and the
    -- subdenom fit, the denom has no supply, the fee reads as a coin that the bank burns from the
    -- admin, and the bank then mints 10 ^ 18 of the denom to the admin, then `create_astro` on the
    -- Osmosis factory gives the denom `{prefix}/{address}/astro`, and the bank is as the mint left
    -- it.
    pub create_astro_on_factory :
        (supply fee : Coin) (burned minted : AppResponse) (bank bank1 bank2 : R.Bank)
        → contains F.module_denom_prefix b'/' ≡ false
        → contains admin.address b'/' ≡ false
        → length admin.address ≤ F.max_creator_len
        → 5 ≤ F.max_subdenom_len
        → R.query_supply (denom_of F.module_denom_prefix admin.address (codes "astro")) bank
          ≡ ok supply
        → supply.amount ≡ 0
        → coin_from_sdk_string F.denom_creation_fee ≡ ok fee
        → R.execute admin.address (BankMsg.burn (fee ∷ [])) bank ≡ (ok burned, bank1)
        → R.sudo
            (BankSudo.mint admin.address (
              record {
                denom = denom_of F.module_denom_prefix admin.address (codes "astro");
                amount = 1_000_000_000_000_000_000;
              }
              ∷ []))
            bank1
          ≡ (ok minted, bank2)
        → create_astro run_create run_mint admin bank
          ≡ (ok (denom_of F.module_denom_prefix admin.address (codes "astro")), bank2)
    unfolding create_astro
    create_astro_on_factory supply fee burned minted bank bank1 bank2 clean_prefix clean fits
          subdenom_fits queried new fee_read charged paid =
        >>=-ok _ _ _
          (unwrap-ok _ _ (
            run_create-ok _ bank bank1 (
              (create_denom_succeeds_iff R C F admin.address _ bank bank1 _).1 (record {
                msg = denom_msg admin;
                supply = supply;
                fee = fee;
                burned = burned;
                decoded = K.decode-encode_create;
                subdenom_fits = subdenom_fits;
                creator_fits = fits;
                no_slash = clean;
                is_sender = refl;
                queried = queried;
                is_new = new;
                fee_read = fee_read;
                charged = charged;
                response = refl;
              }))))
          (>>=-ok _ _ _
            (unwrap-ok _ _ (
              run_mint-ok _ bank1 bank2 (
                (mint_succeeds_iff R C F admin.address _ bank1 bank2 _).1 (record {
                  msg = mint_msg admin denom;
                  coin = record { denom = denom; amount = astro_amount };
                  amount = 1_000_000_000_000_000_000;
                  minted = minted;
                  decoded = K.decode-encode_mint denom refl;
                  has_coin = refl;
                  shape = inl (rw parts refl);
                  is_creator = rw parts refl;
                  is_sender = refl;
                  parsed = parse_u128-print_u128 1_000_000_000_000_000_000 (omega arith);
                  is_positive = λ h. omega arith;
                  paid = rw (recipient admin.address) paid;
                  response = refl;
                }))))
            refl)
      where
        denom : Text
        denom = denom_of F.module_denom_prefix admin.address (codes "astro")

        parts : split b'/' denom ≡ F.module_denom_prefix ∷ admin.address ∷ codes "astro" ∷ []
        parts =
            split-denom_of F.module_denom_prefix admin.address (codes "astro") clean_prefix clean
            ∙ ap (λ l. F.module_denom_prefix ∷ admin.address ∷ l)
                (split-of_absent b'/' (codes "astro") (unfold nat_eq in refl))
