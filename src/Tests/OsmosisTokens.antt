-- ===== src/Tests/OsmosisTokens.antt =====
-- The Osmosis token factory on a small bank.
use cw_it.Base.{◌≡◌, ◌↔◌, refl, [], ◌∷◌, nat_eq}
use cw_it.Text.{parse_u128, split}
use cw_it.Regex.{many}
use cw_it.SdkCoin.{coin_from_sdk_string, is_sdk_string, split_amount}
use cw_it.Chain.{AppResponse, ok, err, subdenom_exists}
use cw_it.TokenFactory.{default_factory, create_denom, mint, create_denom_response, mint_response}
use cw_it.TokenFactory.Create.{Creates, create_denom_succeeds_iff}
use cw_it.TokenFactory.Mint.{Mints, mint_succeeds_iff}
use cw_it.Tests.Samples.{alice, Ledger, small_bank, mint_of, codec_for, gold}

abbrev five_gold : Ledger
five_gold = record { denom = gold; amount = 5 } ∷ []

abbrev minted : AppResponse
minted = mint_response (codec_for gold) (mint_of gold) gold 5

abbrev created : AppResponse
created = create_denom_response (codec_for gold) alice gold

create_test :
    create_denom small_bank (codec_for gold) default_factory alice [] [] ≡ (ok created, [])
unfolding create_denom coin_from_sdk_string is_sdk_string many split_amount parse_u128
create_test = refl

-- Where the denom has a supply it cannot be created again.
create_again_test :
    create_denom small_bank (codec_for gold) default_factory alice [] five_gold
    ≡ (err subdenom_exists, five_gold)
unfolding create_denom
create_again_test = refl

mint_test : mint small_bank (codec_for gold) default_factory alice [] [] ≡ (ok minted, five_gold)
unfolding mint split parse_u128
mint_test = refl

create_denom_succeeds_iff_example :
    (create_denom small_bank (codec_for gold) default_factory alice [] [] ≡ (ok created, []))
    ↔ Creates small_bank (codec_for gold) default_factory alice [] [] [] created
create_denom_succeeds_iff_example =
    create_denom_succeeds_iff small_bank (codec_for gold) default_factory alice [] [] [] created

mint_succeeds_iff_example :
    (mint small_bank (codec_for gold) default_factory alice [] [] ≡ (ok minted, five_gold))
    ↔ Mints small_bank (codec_for gold) default_factory alice [] [] five_gold minted
mint_succeeds_iff_example =
    mint_succeeds_iff small_bank (codec_for gold) default_factory alice [] [] five_gold minted
