-- ===== src/Tests/Batches.antt =====
-- A batch of messages to the Osmosis factory on a small app.
use cw_it.Base.{◌≡◌, refl, List, [], ◌∷◌, map, bytes_eq, ◌==◌, nat_eq, if◌then◌else◌}
use cw_it.Text.{codes, split, parse_u128, print_u128}
use cw_it.Regex.{many}
use cw_it.SdkCoin.{coin_from_sdk_string, is_sdk_string, split_amount}
use cw_it.Chain.{StargateMsg, traverse}
use cw_it.Runner.Convert.{convert}
use cw_it.Runner.Execute.{respond, execute_multiple_raw}
use cw_it.TokenFactory.{default_factory, execute, create_denom, mint}
use cw_it.TokenFactory.Supply.{minted, burned}
use cw_it.UnifiedStargate.Types.{Extra}
use cw_it.Batches.{app_on, to_any, each, atomic}
use cw_it.Batches.Atomic.{AllOrNothing}
use cw_it.Batches.Coreum.{token_factory, execute_multiple_raw-IsValid}
use cw_it.Batches.Supply.{factory, execute_multiple_raw-AllOrNothing}
use cw_it.Tests.Samples.{alice, bob, codec_for, gold}
use cw_it.Tests.Supply.{Supplies, supplies, supplies-IsBank}
use cw_it.Coreum.{Store, default_factory as default_token_factory}
use cw_it.Coreum.Invariant.{AreLawful, IsValid}
use cw_it.Coreum.Invariant.Histories.{Reached-IsValid, start}
use cw_it.Coreum.Supply.{supply, minted as token_minted, burned as token_burned}
use cw_it.Tests.CoreumSamples.{gold_denom, message_to, lawful}
use cw_it.Tests.TokenSupply.{mint_world, empty, rich as rich_supplies}
use cw_it.Tests.Routing.{routed, routed-IsRouting, small_requests}
use cw_it.Tests.Runs.{wire, bytes_message}

abbrev gold_factory : Extra Supplies
gold_factory = factory supplies (codec_for gold) default_factory

abbrev create_msg : StargateMsg
create_msg = record { type_url = codes "/create"; value = [] }

abbrev mint_msg : StargateMsg
mint_msg = record { type_url = codes "/mint"; value = [] }

abbrev batch : List StargateMsg
batch = create_msg ∷ mint_msg ∷ []

abbrev rich : Supplies
rich d = if d == codes "uosmo" then 10_000_000 else 0

batch_test :
    (execute_multiple_raw bytes_message
        (app_on (routed gold_factory))
        wire
        (map to_any batch)
        alice
        rich).1
      gold
    ≡ 5
unfolding execute_multiple_raw traverse convert atomic each execute create_denom
    coin_from_sdk_string is_sdk_string many split_amount parse_u128 print_u128 mint split respond
batch_test = refl

refused_test :
    (execute_multiple_raw bytes_message
        (app_on (routed gold_factory))
        wire
        (map to_any batch)
        bob
        rich).1
      gold
    ≡ 0
unfolding execute_multiple_raw traverse convert atomic each execute create_denom
    coin_from_sdk_string is_sdk_string many split_amount parse_u128 print_u128 mint split respond
refused_test = refl

execute_multiple_raw-AllOrNothing_example :
    AllOrNothing
      (λ l. l gold)
      (minted (codec_for gold) default_factory gold)
      (burned (codec_for gold) default_factory gold)
      batch
      rich
      (execute_multiple_raw bytes_message
        (app_on (routed gold_factory))
        wire
        (map to_any batch)
        alice
        rich)
unfolding bytes_eq
execute_multiple_raw-AllOrNothing_example =
    execute_multiple_raw-AllOrNothing supplies (codec_for gold) default_factory
      (routed gold_factory) bytes_message wire small_requests supplies-IsBank gold batch alice rich
      (routed-IsRouting gold_factory) (refl, (refl, tt))

-- Alice issues gold and mints some, on a bank that keeps its supplies.
abbrev token_batch : List StargateMsg
token_batch = message_to (codes "/issue") ∷ message_to (codes "/mint") ∷ []

abbrev tokens : Extra (Store mint_world)
tokens = token_factory mint_world default_token_factory

mint_world-AreLawful : AreLawful mint_world
mint_world-AreLawful = record {
  issued = lawful.issued;
  classes = lawful.classes;
  nfts = lawful.nfts;
}

execute_multiple_raw-IsValid_example :
    IsValid mint_world
      (execute_multiple_raw bytes_message
        (app_on (routed tokens))
        wire
        (map to_any token_batch)
        alice
        empty).1
    × AllOrNothing
        (supply mint_world supplies-IsBank gold_denom)
        (token_minted mint_world default_token_factory gold_denom)
        (token_burned mint_world default_token_factory gold_denom)
        token_batch
        empty
        (execute_multiple_raw bytes_message
          (app_on (routed tokens))
          wire
          (map to_any token_batch)
          alice
          empty)
unfolding bytes_eq
execute_multiple_raw-IsValid_example =
    execute_multiple_raw-IsValid mint_world default_token_factory (routed tokens) bytes_message wire
      small_requests supplies-IsBank gold_denom token_batch alice empty mint_world-AreLawful
      (routed-IsRouting tokens) (refl, (refl, tt)) refl
      (Reached-IsValid mint_world mint_world-AreLawful empty (start rich_supplies))
