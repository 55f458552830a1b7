-- ===== src/Tests/TokenSupply.antt =====
-- A history of the Coreum factory on a bank that keeps its supplies.
use cw_it.Base.{
  ℕ, ◌+◌, ◌≡◌, refl, inl, inr, List, [], ◌∷◌, bytes_eq, nat_eq, ◌==◌, if◌then◌else◌, arith, ap,
}
use cw_it.Text.{Text, codes, split, parse_u128, print_u128}
use cw_it.Coreum.Nft.{issue_class}
use cw_it.Regex.{many}
use cw_it.SdkCoin.{coreum_coin_from_sdk_string, coreum_is_sdk_string, split_amount}
use cw_it.Chain.{StargateMsg, count, if_ok, run, total, commit, accepts}
use cw_it.Coreum.{World, Store, default_factory}
use cw_it.Coreum.Fungible.{
  issue, mint, burn, check_issue, charge_fee, mint_initial, check_denom, check_amount, denom_re,
  denom_of,
}
use cw_it.Coreum.Handle.{execute}
use cw_it.Coreum.Supply.{minted, burned, supply, NamedFor}
use cw_it.Coreum.Supply.Histories.{run-token_supply, others_keep_token_supply}
use cw_it.Tests.Samples.{alice, bob}
use cw_it.Tests.Supply.{Supplies, supplies, supplies-IsBank}
use cw_it.Tests.CoreumSamples.{world, gold_denom, message_to}

abbrev pub mint_world : World
mint_world = record world { router = supplies }

abbrev pub rich : Supplies
rich d = if d == codes "ucore" then 10_000_000 else 0

abbrev pub empty : Store mint_world
empty = record { issued = []; classes = []; nfts = []; bank = rich }

-- Alice issues gold, Bob tries to mint it, Alice makes a class, mints gold and burns some.
abbrev history : List (Text × StargateMsg)
history =
    (alice, message_to (codes "/issue"))
    ∷ (bob, message_to (codes "/mint"))
    ∷ (alice, message_to (codes "/class"))
    ∷ (alice, message_to (codes "/mint"))
    ∷ (alice, message_to (codes "/burn"))
    ∷ []

history_test :
    supply mint_world supplies-IsBank gold_denom
      (run (execute mint_world default_factory) history empty)
    ≡ 5
unfolding execute issue mint burn check_issue charge_fee mint_initial check_denom check_amount
    denom_re coreum_coin_from_sdk_string coreum_is_sdk_string many split_amount parse_u128
    print_u128 split run commit accepts bytes_eq issue_class
history_test = refl

run-token_supply_example :
    supply mint_world supplies-IsBank gold_denom
        (run (execute mint_world default_factory) history empty)
      + total
          (execute mint_world default_factory)
          (burned mint_world default_factory gold_denom)
          history
          empty
    ≡ supply mint_world supplies-IsBank gold_denom empty
      + total
          (execute mint_world default_factory)
          (minted mint_world default_factory gold_denom)
          history
          empty
run-token_supply_example =
    run-token_supply mint_world default_factory supplies-IsBank gold_denom history empty

last : Text → ℕ
last [] = 0
last (b ∷ []) = b
last (b ∷ c ∷ text) = last (c ∷ text)

last-denom_of :
    (subunit sender : Text) (b : ℕ) → last (denom_of subunit (b ∷ sender)) ≡ last (b ∷ sender)
unfolding last
last-denom_of [] sender b = refl
last-denom_of (a ∷ []) sender b = refl
last-denom_of (a ∷ c ∷ subunit) sender b = last-denom_of (c ∷ subunit) sender b

no_fee_in_carols :
    if_ok
      (coreum_coin_from_sdk_string default_factory.denom_creation_fee)
      (λ fee. count (codes "gold-carol") (fee ∷ []))
    ≡ 0
unfolding coreum_coin_from_sdk_string coreum_is_sdk_string many split_amount parse_u128 print_u128
    bytes_eq
no_fee_in_carols = refl

not_alice : NamedFor (codes "gold-carol") alice → ⊥
unfolding split last
not_alice (inl e) = ground (arith, e)
not_alice (inr (subunit, e)) = ground (arith, ap last e, last-denom_of subunit (codes "lice") 97)

not_bob : NamedFor (codes "gold-carol") bob → ⊥
unfolding split last
not_bob (inl e) = ground (arith, e)
not_bob (inr (subunit, e)) = ground (arith, ap last e, last-denom_of subunit (codes "ob") 98)

others_keep_token_supply_example :
    supply mint_world supplies-IsBank
      (codes "gold-carol")
      (run (execute mint_world default_factory) history empty)
    ≡ supply mint_world supplies-IsBank (codes "gold-carol") empty
unfolding split last
others_keep_token_supply_example =
    others_keep_token_supply mint_world default_factory supplies-IsBank (codes "gold-carol") history
      empty no_fee_in_carols (not_alice, (not_bob, (not_alice, (not_alice, (not_alice, tt)))))
