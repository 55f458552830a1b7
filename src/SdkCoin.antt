-- ===== src/SdkCoin.antt =====
-- `coin_from_sdk_string`, which reads a fee such as `10000000uosmo`: the version of
-- src/multi_test/modules/token_factory.rs, and that of token_factory_coreum.rs, which allows one
-- more form of denom.
pub mod RoundTrip
use cw_it.Base.{
  ℕ, Bool, true, false, ◌||◌, Option, none, some, List, [], ◌∷◌, length, drop, leb, nat_eq, ◌&&◌,
  ◌==◌, if◌then◌else◌,
}
use cw_it.Text.{Text, codes, is_digit, parse_u128, print_u128}
use cw_it.Regex.{Matcher, one, plus, times, literal, at_end, is_lower, is_upper}
use cw_it.Chain.{Coin, Result, ok, err, panicked, Error, invalid_sdk_string, not_a_number}

is_lower_or_digit : ℕ → Bool
unfolding is_lower is_digit
is_lower_or_digit c = is_digit c || is_lower c

is_alphanumeric : ℕ → Bool
unfolding is_lower is_digit is_upper
is_alphanumeric c = is_digit c || is_lower c || is_upper c

is_upper_hex : ℕ → Bool
unfolding is_digit
is_upper_hex c = is_digit c || (leb b'A' c && leb c b'F')

-- `^[0-9]+[a-z]+$`
denom_re : Text → Bool
denom_re = plus is_digit (plus is_lower at_end)

-- `^([0-9]+)([a-z0-9]+)-([A-Za-z0-9]+)$`
denom_re2 : Text → Bool
denom_re2 =
    plus is_digit (plus is_lower_or_digit (literal (codes "-") (plus is_alphanumeric at_end)))

-- `^[0-9]+(ibc|IBC)/[0-9A-F]{64}$`
ibc_re : Text → Bool
ibc_re = plus is_digit λ t.
    let rest = literal (codes "/") (times 64 is_upper_hex at_end) in
    literal (codes "ibc") rest t || literal (codes "IBC") rest t

-- `^[0-9]+factory/[0-9a-z]+/[0-9a-zA-Z]+$`
factory_re : Text → Bool
factory_re = plus is_digit (
    literal (codes "factory/")
      (plus is_lower_or_digit (literal (codes "/") (plus is_alphanumeric at_end))))

-- The run of digits at the head of a text.
digits : Text → Text
digits [] = []
digits (c ∷ t) = let rest = c ∷ digits t in if is_digit c then rest else []

-- `re.find` with `[0-9]+`: the first run of digits.
find_digits : Text → Option Text
find_digits [] = none
find_digits (c ∷ t) =
    let later = find_digits t in if is_digit c then some (digits (c ∷ t)) else later

-- After the test of the form. The denom starts behind as many bytes as the parsed amount takes
-- when it is printed again. `find(..).unwrap()` panics where there is no digit.
unfoldable pub split_amount : Text → Result Coin
unfolding find_digits digits
split_amount s = elim (find_digits s) [
  | none ↦ panicked
  | some found ↦ elim (parse_u128 found) [
    | none ↦ err not_a_number
    | some amount ↦ ok (record { denom = drop (length (print_u128 amount)) s; amount = amount })
  ]
]

unfoldable pub is_sdk_string : Text → Bool
unfolding denom_re ibc_re factory_re is_upper_hex is_lower_or_digit is_alphanumeric
is_sdk_string s = denom_re s || ibc_re s || factory_re s

unfoldable pub coin_from_sdk_string : Text → Result Coin
coin_from_sdk_string s = if is_sdk_string s then split_amount s else err invalid_sdk_string

-- Of token_factory_coreum.rs.
unfoldable pub coreum_is_sdk_string : Text → Bool
unfolding denom_re denom_re2 ibc_re factory_re is_upper_hex is_lower_or_digit is_alphanumeric
coreum_is_sdk_string s = denom_re s || denom_re2 s || ibc_re s || factory_re s

unfoldable pub coreum_coin_from_sdk_string : Text → Result Coin
coreum_coin_from_sdk_string s =
    if coreum_is_sdk_string s then split_amount s else err invalid_sdk_string
