-- ===== src/Osmosis/Robot.antt =====
-- The robots for Osmosis, src/osmosis/robot.rs.
pub mod Whitelist
use cw_it.Base.{
  ℕ, Bool, true, false, not, Option, none, some, List, [], ◌∷◌, ◌++◌, bytes_eq, contains,
  if◌then◌else◌,
}
use cw_it.Text.{Text, print_u128}
use cw_it.Chain.{Coin, ok, panicked, Action, pure, ask, modify, unwrap}
use cw_it.Chain.Seq.{◌>>=◌, ◌>>◌}
use cw_it.Client.{Account}
use cw_it.UnifiedStargate.{to_proto}
use cw_it.Osmosis.Types.{
  MsgJoinSwapExternAmountIn, MsgSwapExactAmountIn, SwapAmountInRoute, MsgLockTokens, Chain, TestApp,
}
use cw_it.Osmosis.LpTokens.{is_osmosis_lp_token}

module _ {S : Type 0} (T : TestApp S) where
  unfoldable pub increase_time : ℕ → Action S (Unit {0})
  increase_time seconds = modify (T.increase_time seconds)

  unfoldable pub get_force_unlock_whitelisted_addresses : Action S (List Text)
  get_force_unlock_whitelisted_addresses = unwrap (ask T.get_lockup_params)

  unfoldable pub whitelist_address_for_force_unlock : Text → Action S (Unit {0})
  unfolding bytes_eq
  whitelist_address_for_force_unlock address = do
    whitelist ← get_force_unlock_whitelisted_addresses
    elim (contains whitelist address) [
      | true ↦ pure tt
      | false ↦ unwrap (T.set_lockup_params (whitelist ++ address ∷ []))
    ]

-- `min_out.unwrap_or(1)`
abbrev pub min_out_or_one : Option ℕ → ℕ
min_out_or_one none = 1
min_out_or_one (some n) = n

module _ {S : Type 0} (C : Chain S) where
  unfoldable pub join_pool_swap_extern_amount_in :
      Account → ℕ → Coin → Option ℕ → Action S (Unit {0})
  unfolding to_proto
  join_pool_swap_extern_amount_in signer pool_id coin min_out = unwrap (
      C.join_swap
        (record {
          sender = signer.address;
          pool_id = pool_id;
          token_in = some (to_proto coin);
          share_out_min_amount = print_u128 (min_out_or_one min_out);
        })
        signer)

  unfoldable pub swap_exact_amount_in : Account → ℕ → Coin → Text → Option ℕ → Action S (Unit {0})
  unfolding to_proto
  swap_exact_amount_in signer pool_id token_in token_out_denom min_out = unwrap (
      C.swap_in
        (record {
          sender = signer.address;
          routes = record { pool_id = pool_id; token_out_denom = token_out_denom } ∷ [];
          token_in = some (to_proto token_in);
          token_out_min_amount = print_u128 (min_out_or_one min_out);
        })
        signer)

  unfoldable pub lock_tokens : Account → Coin → ℕ → Action S (Unit {0})
  unfolding to_proto
  lock_tokens signer coin duration = elim (is_osmosis_lp_token coin.denom) [
    | false ↦ λ s. (panicked, s)
    | true ↦ unwrap (
        C.lock_tokens
          (record { owner = signer.address; duration = some duration; coins = to_proto coin ∷ [] })
          signer)
  ]
