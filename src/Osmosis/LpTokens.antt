-- ===== src/Osmosis/LpTokens.antt =====
-- `is_osmosis_lp_token` and `set_chain_force_unlock_whitelisted_addresses`, src/osmosis/utils.rs.
pub mod Ids
use cw_it.Base.{
  ℕ, ◌+◌, ◌-◌, ◌*◌, ◌^◌, Bool, true, false, ◌&&◌, Option, none, some, List, [], ◌∷◌, ◌++◌, bytes_eq,
  nat_eq, ◌==◌, ltb, if◌then◌else◌,
}
use cw_it.Text.{Text, codes, split, parse_u128}
use cw_it.Chain.{Action, unwrap}
use cw_it.Osmosis.Types.{TestApp}

-- `parse::<u32>().is_ok()`: what a `u128` parses, if it is below 2 ^ 32.
unfoldable pub parses_u32 : Text → Bool
parses_u32 t = elim (parse_u128 t) [ none ↦ false | some n ↦ ltb n (2 ^ 32) ]

-- The test of the three parts.
unfoldable pub has_lp_parts : List Text → Bool
unfolding bytes_eq
has_lp_parts (gamm ∷ pool ∷ id ∷ []) = gamm == codes "gamm" && pool == codes "pool" && parses_u32 id
has_lp_parts _ = false

unfoldable pub is_osmosis_lp_token : Text → Bool
unfolding has_lp_parts
is_osmosis_lp_token denom = has_lp_parts (split b'/' denom)

unfoldable pub set_chain_force_unlock_whitelisted_addresses :
    {S : Type 0} → TestApp S → List Text → Action S (Unit {0})
set_chain_force_unlock_whitelisted_addresses T addresses = unwrap (T.set_lockup_params addresses)
