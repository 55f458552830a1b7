-- ===== src/Tests/CoreumTokens.antt =====
-- Fungible tokens of the Coreum token factory.
use cw_it.Base.{◌⊎◌, ◌≡◌, ◌↔◌, refl, [], ◌∷◌, bytes_eq, nat_eq}
use cw_it.Text.{Text, codes, split, parse_u128}
use cw_it.Regex.{many}
use cw_it.SdkCoin.{coreum_coin_from_sdk_string, coreum_is_sdk_string, split_amount}
use cw_it.Chain.{Coin, AppResponse, default_response, push_event, ok}
use cw_it.Coreum.{default_factory, Store, MsgIssue}
use cw_it.Coreum.Fungible.{
  issue, check_issue, denom_re, charge_fee, mint_initial, mint, burn, check_denom, check_amount,
  issue_event, mint_event, burn_event,
}
use cw_it.Coreum.Fungible.Issue.{Issues, issue_succeeds_iff, with_token}
use cw_it.Coreum.Fungible.Mint.{Mints, token_mint_succeeds_iff}
use cw_it.Coreum.Fungible.Burn.{Burns, token_burn_succeeds_iff}
use cw_it.Coreum.Fungible.Usable.{IsUsable, IsStuck, issued-IsUsable_or_IsStuck}
use cw_it.Tests.Samples.{alice, bob}
use cw_it.Tests.CoreumSamples.{world, lawful, stocked, gold_issue, gold_denom, mint_of, burn_of}

abbrev five : Coin
five = record { denom = gold_denom; amount = 5 }

abbrev paid : Store world
paid = record stocked { bank = five ∷ [] }

abbrev minted : AppResponse
minted = push_event default_response (mint_event (mint_of gold_denom bob) gold_denom 5)

abbrev burned : AppResponse
burned = push_event default_response (burn_event alice 5)

mint_test : mint world (mint_of gold_denom bob) alice stocked ≡ (ok minted, paid)
unfolding mint split parse_u128 check_denom check_amount
mint_test = refl

token_mint_succeeds_iff_example :
    (mint world (mint_of gold_denom bob) alice stocked ≡ (ok minted, paid))
    ↔ Mints world (mint_of gold_denom bob) alice stocked paid minted
token_mint_succeeds_iff_example =
    token_mint_succeeds_iff world (mint_of gold_denom bob) alice stocked paid minted

token_burn_succeeds_iff_example :
    (burn world (burn_of gold_denom) alice stocked ≡ (ok burned, stocked))
    ↔ Burns world (burn_of gold_denom) alice stocked stocked burned
token_burn_succeeds_iff_example =
    token_burn_succeeds_iff world (burn_of gold_denom) alice stocked stocked burned

issue_succeeds_iff_example :
    (issue world default_factory gold_issue alice stocked ≡ (
      ok (push_event default_response (issue_event gold_issue)),
      with_token world default_factory gold_issue alice paid,
    ))
    ↔ Issues world default_factory gold_issue alice stocked
        (with_token world default_factory gold_issue alice paid)
        (push_event default_response (issue_event gold_issue))
issue_succeeds_iff_example =
    issue_succeeds_iff world default_factory gold_issue alice stocked
      (with_token world default_factory gold_issue alice paid)
      (push_event default_response (issue_event gold_issue))

-- A token with a dash in its subunit, as it is after its issue.
abbrev bar_issue : MsgIssue
bar_issue = record gold_issue { subunit = codes "gold-bar" }

abbrev bar_denom : Text
bar_denom = codes "gold-bar-alice"

abbrev with_bar : Store world
with_bar = (issue world default_factory bar_issue alice stocked).1

bar_is_issued :
    issue world default_factory bar_issue alice stocked
    ≡ (ok (push_event default_response (issue_event bar_issue)), with_bar)
unfolding issue check_issue denom_re charge_fee coreum_coin_from_sdk_string coreum_is_sdk_string
    many split_amount parse_u128 mint_initial
bar_is_issued = refl

issued-IsUsable_or_IsStuck_example :
    IsUsable world bar_issue (mint_of bar_denom bob) (burn_of bar_denom) with_bar 5
    ⊎ IsStuck world bar_issue (mint_of bar_denom bob) (burn_of bar_denom) with_bar
unfolding parse_u128
issued-IsUsable_or_IsStuck_example =
    issued-IsUsable_or_IsStuck world default_factory bar_issue alice (codes "5") 4 stocked with_bar
      (push_event default_response (issue_event bar_issue)) (mint_of bar_denom bob)
      (burn_of bar_denom) lawful.issued bar_is_issued refl refl refl refl refl
