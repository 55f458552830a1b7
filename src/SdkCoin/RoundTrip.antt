-- ===== src/SdkCoin/RoundTrip.antt =====
-- What `coin_from_sdk_string` makes of an amount in front of a native denom.
use cw_it.Base.{
  ℕ, ◌<◌, ◌≡◌, refl, ◌∙◌, Bool, true, false, [], ◌∷◌, ◌++◌, some, arith, all, length, drop,
}
use cw_it.Text.{Text, is_digit, is_empty, parse_u128, print_u128, u128_mod, digit}
use cw_it.Text.Decimal.{
  all-print_u128, is_empty-print_u128, parse_u128-print_u128, print_u128-snoc, parse_u128-zero,
  all-zero,
}
use cw_it.Regex.{many, plus, at_end, is_lower}
use cw_it.Regex.Laws.{many-append}
use cw_it.Chain.{Coin, ok}
use cw_it.SdkCoin.{
  coin_from_sdk_string, coreum_coin_from_sdk_string, is_sdk_string, coreum_is_sdk_string, denom_re,
  find_digits, digits, split_amount,
}

digits-lower : (t : Text) → all is_lower t ≡ true → digits t ≡ []
unfolding digits is_lower is_digit
digits-lower [] h = refl
digits-lower (c ∷ t) h = ground arith

digits-append : (s t : Text) → all is_digit s ≡ true → digits t ≡ [] → digits (s ++ t) ≡ s
unfolding digits
digits-append [] t h e = e
digits-append (c ∷ s) t h e = ground (arith, digits-append s t)

find_digits-append :
    (s t : Text)
    → all is_digit s ≡ true
    → is_empty s ≡ false
    → digits t ≡ []
    → find_digits (s ++ t) ≡ some s
unfolding find_digits
find_digits-append [] t h e d = cc
find_digits-append (c ∷ s) t h e d = ground (arith, digits-append (c ∷ s) t)

many-at_end : (p : ℕ → Bool) (t : Text) → all p t ≡ true → many p at_end t ≡ true
unfolding many
many-at_end p [] h = refl
many-at_end p (c ∷ t) h = ground (arith, many-at_end p t)

denom_re-append :
    (s t : Text)
    → all is_digit s ≡ true
    → is_empty s ≡ false
    → all is_lower t ≡ true
    → is_empty t ≡ false
    → denom_re (s ++ t) ≡ true
unfolding denom_re
denom_re-append [] t hs es ht et = cc
denom_re-append (c ∷ s) [] hs es ht et = cc
denom_re-append (c ∷ s) (d ∷ t) hs es ht et =
    ground (arith, many-append is_digit (plus is_lower at_end) s (d ∷ t), many-at_end is_lower t)

drop-append : (s t : Text) → drop (length s) (s ++ t) ≡ t
drop-append [] t = refl
drop-append (c ∷ s) t = drop-append s t

split_amount-append :
    (s t : Text) (n : ℕ)
    → find_digits (s ++ t) ≡ some s
    → parse_u128 s ≡ some n
    → split_amount (s ++ t)
      ≡ ok (record { denom = drop (length (print_u128 n)) (s ++ t); amount = n })
unfolding split_amount
split_amount-append s t n found parsed = ground arith

is_sdk_string-append :
    (s : Text) → denom_re s ≡ true → (is_sdk_string s ≡ true) × (coreum_is_sdk_string s ≡ true)
unfolding is_sdk_string coreum_is_sdk_string
is_sdk_string-append s h = ground arith

-- On a run of digits that a `u128` holds, in front of a lower case denom, both versions give the
-- number that the digits write, and as denom what stands behind as many bytes as the number takes
-- when it is printed.
pub coin_from_sdk_string-digits :
    (s t : Text) (n : ℕ)
    → all is_digit s ≡ true
    → is_empty s ≡ false
    → parse_u128 s ≡ some n
    → all is_lower t ≡ true
    → is_empty t ≡ false
    → let c : Coin = record { denom = drop (length (print_u128 n)) (s ++ t); amount = n } in
      (coin_from_sdk_string (s ++ t) ≡ ok c) × (coreum_coin_from_sdk_string (s ++ t) ≡ ok c)
unfolding coin_from_sdk_string coreum_coin_from_sdk_string
coin_from_sdk_string-digits s t n hs es hn ht et =
    let found = find_digits-append s t hs es (digits-lower t ht) in
    ground (
      arith,
      split_amount-append s t n found hn,
      is_sdk_string-append (s ++ t) (denom_re-append s t hs es ht et),
    )

-- Both versions read a printed amount below 2 ^ 128 in front of a denom of lower case letters, one
-- or more, as that amount of that denom.
pub coin_from_sdk_string-print_u128 :
    (n : ℕ) (t : Text)
    → n < u128_mod
    → all is_lower t ≡ true
    → is_empty t ≡ false
    → let c : Coin = record { denom = t; amount = n } in
      (coin_from_sdk_string (print_u128 n ++ t) ≡ ok c)
      × (coreum_coin_from_sdk_string (print_u128 n ++ t) ≡ ok c)
coin_from_sdk_string-print_u128 n t lt ht et = rw drop-append at (
    coin_from_sdk_string-digits (print_u128 n) t n (all-print_u128 n) (is_empty-print_u128 n)
      (parse_u128-print_u128 n lt) ht et)

drop-snoc :
    (x : ℕ) (q : Text) (d : ℕ) (t : Text)
    → drop (length (q ++ d ∷ [])) (x ∷ (q ++ d ∷ []) ++ t) ≡ d ∷ t
drop-snoc x [] d t = refl
drop-snoc x (y ∷ q) d t = drop-snoc y q d t

-- Behind a zero the printed amount is one byte shorter than the run of digits.
drop-leading_zero :
    (n : ℕ) (t : Text) → drop (length (print_u128 n)) (b'0' ∷ print_u128 n ++ t) ≡ digit n ∷ t
drop-leading_zero n t = let (q, e) = print_u128-snoc n in rw e (drop-snoc b'0' q (digit n) t)

-- Where a zero stands in front of a printed amount below 2 ^ 128 and a denom of lower case
-- letters, one or more, both versions read the amount, and leave its last digit at the head of the
-- denom.
coin_from_sdk_string_leading_zero :
    (n : ℕ) (t : Text)
    → n < u128_mod
    → all is_lower t ≡ true
    → is_empty t ≡ false
    → let c : Coin = record { denom = digit n ∷ t; amount = n } in
      (coin_from_sdk_string (b'0' ∷ print_u128 n ++ t) ≡ ok c)
      × (coreum_coin_from_sdk_string (b'0' ∷ print_u128 n ++ t) ≡ ok c)
coin_from_sdk_string_leading_zero n t lt ht et = rw drop-leading_zero at (
    coin_from_sdk_string-digits (b'0' ∷ print_u128 n) t n
      (all-zero (print_u128 n) (all-print_u128 n)) refl
      (parse_u128-zero (print_u128 n) (all-print_u128 n) (is_empty-print_u128 n)
        ∙ parse_u128-print_u128 n lt)
      ht et)
