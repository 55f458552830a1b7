-- ===== src/Text.antt =====
-- Text as its bytes, and what the crate uses of `str`: `contains`, `split`, `parse::<u128>`
-- (which `Uint128::from_str` calls) and the decimal `to_string` of a `u128`.
pub mod Split
pub mod Decimal
pub mod Order
use Prim.Native.Char.{code}
use cw_it.Base.{
  ℕ, zero, suc, ◌+◌, ◌-◌, ◌*◌, ◌/◌, ◌%◌, ◌^◌, String, Bool, true, false, ◌&&◌, Option, none, some,
  List, [], ◌∷◌, ◌++◌, ltb, leb, nat_eq, ◌==◌, if◌then◌else◌,
}

abbrev pub Text : Type 0
Text = List ℕ

-- The bytes of an ASCII literal.
abbrev pub codes : String → Text
codes String.[] = []
codes (String.◌∷◌ c s) = code c ∷ codes s

abbrev pub is_empty : Text → Bool
is_empty [] = true
is_empty (_ ∷ _) = false

abbrev push_front : ℕ → List Text → List Text
push_front x [] = (x ∷ []) ∷ []
push_front x (w ∷ ws) = (x ∷ w) ∷ ws

-- `str::split` at a byte: one part more than there are separators.
unfoldable pub split : ℕ → Text → List Text
unfolding nat_eq
split c [] = [] ∷ []
split c (x ∷ t) = let rest = split c t in if x == c then [] ∷ rest else push_front x rest

unfoldable pub is_digit : ℕ → Bool
is_digit c = leb b'0' c && leb c b'9'

abbrev pub u128_mod : ℕ
u128_mod = 2 ^ 128

-- The loop of `u128::from_str_radix(_, 10)`, with its overflow checks.
unfoldable pub parse_digits : ℕ → Text → Option ℕ
unfolding is_digit
parse_digits acc [] = some acc
parse_digits acc (d ∷ t) =
    let v = acc * 10 + (d - b'0') in
    let rest = parse_digits v t in if is_digit d && ltb v u128_mod then rest else none

-- `str::parse::<u128>`: a leading `+` is allowed, the empty text and a lone `+` are not numbers.
unfoldable pub parse_u128 : Text → Option ℕ
unfolding parse_digits nat_eq
parse_u128 [] = none
parse_u128 (d ∷ []) = if d == b'+' then none else parse_digits 0 (d ∷ [])
parse_u128 (d ∷ t) = if d == b'+' then parse_digits 0 t else parse_digits 0 (d ∷ t)

abbrev pub digit : ℕ → ℕ
digit n = b'0' + n % 10

unfoldable pub print_digits : ℕ → ℕ → Text
print_digits zero n = []
print_digits (suc f) n =
    let rest = print_digits f (n / 10) in if ltb n 10 then digit n ∷ [] else rest ++ digit n ∷ []

-- `u128::to_string`: a number below 2 ^ 128 has at most 39 digits.
unfoldable pub print_u128 : ℕ → Text
unfolding print_digits
print_u128 n = print_digits 39 n
