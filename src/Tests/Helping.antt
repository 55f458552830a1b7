-- ===== src/Tests/Helping.antt =====
-- The helpers for Osmosis, the clock of the runner and the expectation of a failure.
use cw_it.Base.{
  ℕ, ◌+◌, ◌*◌, ◌^◌, ◌<◌, ◌≡◌, ◌↔◌, ◌⊎◌, inr, refl, ◌||◌, none, List, [], ◌∷◌, ◌++◌, bytes_eq, ◌==◌,
  arith, contains, length, ltb, if◌then◌else◌,
}
use cw_it.Text.{Text, codes, print_u128}
use cw_it.Text.Order.{contains_text}
use cw_it.Chain.{Result, ok, panicked}
use cw_it.Osmosis.{TestApp}
use cw_it.Osmosis.LpTokens.{is_osmosis_lp_token}
use cw_it.Osmosis.LpTokens.Ids.{is_osmosis_lp_token-of_id}
use cw_it.Osmosis.Robot.{whitelist_address_for_force_unlock, get_force_unlock_whitelisted_addresses}
use cw_it.Osmosis.Robot.Whitelist.{HasNoRepeats, whitelist_address_adds_once}
use cw_it.Runner.Time.{BlockInfo, u64_mod, query_block_time_nanos}
use cw_it.Runner.Time.Clock.{increase_each, total, AddsSeconds, increase_each_succeeds_iff}
use cw_it.Helpers.{expect_err, unwrap_as}
use cw_it.Tests.Samples.{alice, bob}

is_osmosis_lp_token-of_id_example :
    is_osmosis_lp_token (codes "gamm/pool/" ++ print_u128 4_294_967_296)
    ≡ ltb 4_294_967_296 (2 ^ 32)
is_osmosis_lp_token-of_id_example = is_osmosis_lp_token-of_id 4_294_967_296 (omega arith)

-- The parameters are the state.
abbrev lockup : TestApp (List Text)
lockup = record {
  increase_time = λ seconds s. s;
  get_lockup_params = λ s. ok s;
  set_lockup_params = λ l s. (ok tt, l);
}

whitelist_address_adds_once_example :
    (t : List Text) × (l' : List Text) × (whitelist_address_for_force_unlock lockup bob (alice ∷ [])
      ≡ (ok tt, t))
    × (get_force_unlock_whitelisted_addresses lockup t ≡ (ok l', t))
    × ((b : Text) → contains l' b ≡ (contains (alice ∷ []) b || bob == b))
    × HasNoRepeats l'
    × (whitelist_address_for_force_unlock lockup bob t ≡ (ok tt, t))
whitelist_address_adds_once_example =
    whitelist_address_adds_once lockup (alice ∷ []) bob (alice ∷ []) (λ l s. (l, refl, refl)) refl
      (refl, tt)

-- `plus_seconds` by a test of the sum.
abbrev plus_seconds : ℕ → ℕ → Result ℕ
plus_seconds t s =
    if ltb (t + s * 1_000_000_000) u64_mod then ok (t + s * 1_000_000_000) else panicked

plus_seconds-AddsSeconds : AddsSeconds plus_seconds
plus_seconds-AddsSeconds = record {
  adds = λ t s h. ground arith;
  overflows = λ t s h. ground arith;
}

abbrev seconds : List ℕ
seconds = 5 ∷ 2 ∷ []

abbrev block : BlockInfo
block = record { time = 1_571_797_419_879_305_533; height = 12_345 }

abbrev later : BlockInfo
later = record { time = 1_571_797_426_879_305_533; height = 12_347 }

increase_each_succeeds_iff_example : (increase_each plus_seconds seconds block ≡ (ok tt, later)) ↔ (
    (query_block_time_nanos block + total seconds * 1_000_000_000 < u64_mod)
    × (block.height + length seconds < u64_mod)
    × (query_block_time_nanos later ≡ query_block_time_nanos block + total seconds * 1_000_000_000)
    × (later.height ≡ block.height + length seconds))
increase_each_succeeds_iff_example =
    increase_each_succeeds_iff plus_seconds plus_seconds-AddsSeconds seconds block later
      (omega arith) (omega arith)

abbrev failure : Text ⊎ Text
failure = inr (codes "a test failed")

-- The cases of the source's own test.
unwrap_test : unwrap_as (λ e. e) (expect_err (codes "test")) failure ≡ ok none
unfolding unwrap_as contains_text
unwrap_test = refl
