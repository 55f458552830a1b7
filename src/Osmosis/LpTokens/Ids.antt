-- ===== src/Osmosis/LpTokens/Ids.antt =====
-- Which pool ids an LP token may have.
use cw_it.Base.{
  ℕ, ◌^◌, ◌<◌, ◌≡◌, refl, ap, ◌∙◌, true, false, none, some, [], ◌∷◌, ◌++◌, ltb, bytes_eq, nat_eq,
  contains, arith, all,
}
use cw_it.Text.{Text, codes, split, print_u128, is_digit}
use cw_it.Text.Split.{split-append, split-of_absent}
use cw_it.Text.Decimal.{parse_u128-print_u128, all-print_u128}
use cw_it.Osmosis.LpTokens.{parses_u32, has_lp_parts, is_osmosis_lp_token}

-- Digits hold no slash.
contains-digits : (t : Text) → all is_digit t ≡ true → contains t b'/' ≡ false
unfolding is_digit nat_eq
contains-digits [] h = refl
contains-digits (c ∷ t) h = ground (arith, contains-digits t)

split-lp_token :
    (t : Text)
    → all is_digit t ≡ true
    → split b'/' (codes "gamm/pool/" ++ t) ≡ codes "gamm" ∷ codes "pool" ∷ t ∷ []
unfolding nat_eq
split-lp_token t h =
    split-append b'/' (codes "gamm") (codes "pool/" ++ t) refl
    ∙ ap (λ l. codes "gamm" ∷ l)
        (split-append b'/' (codes "pool") t refl
          ∙ ap (λ l. codes "pool" ∷ l) (split-of_absent b'/' t (contains-digits t h)))

parses_u32-print_u128 : (id : ℕ) → id < 2 ^ 64 → parses_u32 (print_u128 id) ≡ ltb id (2 ^ 32)
unfolding parses_u32
parses_u32-print_u128 id h =
    ap (λ o. elim o [ none ↦ false | some n ↦ ltb n (2 ^ 32) ])
      (parse_u128-print_u128 id (omega arith))

-- For every `u64` pool id, the denom `gamm/pool/{id}` of its LP token passes `is_osmosis_lp_token`
-- exactly if the id is below 2 ^ 32.
pub is_osmosis_lp_token-of_id :
    (id : ℕ)
    → id < 2 ^ 64
    → is_osmosis_lp_token (codes "gamm/pool/" ++ print_u128 id) ≡ ltb id (2 ^ 32)
unfolding is_osmosis_lp_token has_lp_parts bytes_eq
is_osmosis_lp_token-of_id id h =
    ap has_lp_parts (split-lp_token (print_u128 id) (all-print_u128 id))
    ∙ parses_u32-print_u128 id h
