-- ===== src/Tests/Coins.antt =====
-- Coins as text.
use cw_it.Base.{◌≡◌, refl, arith}
use cw_it.Text.{codes, print_u128, parse_u128}
use cw_it.Regex.{is_lower, many, literal}
use cw_it.Chain.{ok, err, invalid_sdk_string}
use cw_it.SdkCoin.{
  coin_from_sdk_string, coreum_coin_from_sdk_string, is_sdk_string, coreum_is_sdk_string,
  split_amount,
}
use cw_it.SdkCoin.RoundTrip.{coin_from_sdk_string-print_u128}

fee_test :
    coin_from_sdk_string (codes "10000000uosmo")
    ≡ ok (record { denom = codes "uosmo"; amount = 10000000 })
unfolding coin_from_sdk_string is_sdk_string many split_amount parse_u128 print_u128
fee_test = refl

no_amount_test : coin_from_sdk_string (codes "uosmo") ≡ err invalid_sdk_string
unfolding coin_from_sdk_string is_sdk_string many
no_amount_test = refl

-- The extra form of the Coreum version keeps only the part behind the amount's length.
dashed_test :
    coreum_coin_from_sdk_string (codes "100usd-alice1")
    ≡ ok (record { denom = codes "usd-alice1"; amount = 100 })
unfolding coreum_coin_from_sdk_string coreum_is_sdk_string many split_amount parse_u128 print_u128
    literal
dashed_test = refl

coin_from_sdk_string-print_u128_example :
    (coin_from_sdk_string (codes "250uosmo") ≡ ok (record { denom = codes "uosmo"; amount = 250 }))
    × (coreum_coin_from_sdk_string (codes "250uosmo")
        ≡ ok (record { denom = codes "uosmo"; amount = 250 }))
unfolding print_u128 is_lower
coin_from_sdk_string-print_u128_example =
    coin_from_sdk_string-print_u128 250 (codes "uosmo") (omega arith) refl refl
