-- ===== src/Robot.antt =====
-- The test robot, src/robot.rs: balances, assertions on them and sends.
use cw_it.Base.{ℕ, Bool, [], ◌∷◌, nat_eq, ◌==◌, ltb, if◌then◌else◌}
use cw_it.Text.{Text}
use cw_it.Chain.{ok, panicked, Action, pure, ask, unwrap}
use cw_it.Chain.Seq.{◌>>=◌, ◌>>◌}
use cw_it.Client.{Account, Bank}
use cw_it.Helpers.{bank_balance_query, bank_send}

-- `assert!`
abbrev pub assert : {S : Type 0} → Bool → Action S (Unit {0})
assert holds s = if holds then (ok tt, s) else (panicked, s)

module _ {S : Type 0} (B : Bank S) where
  unfoldable pub query_native_token_balance : Text → Text → Action S ℕ
  query_native_token_balance account denom = unwrap (ask (bank_balance_query B account denom))

  unfoldable pub assert_native_token_balance_eq : Text → Text → ℕ → Action S (Unit {0})
  unfolding nat_eq
  assert_native_token_balance_eq account denom expected = do
    actual ← query_native_token_balance account denom
    assert (actual == expected)

  unfoldable pub assert_native_token_balance_gt : Text → Text → ℕ → Action S (Unit {0})
  assert_native_token_balance_gt account denom expected = do
    actual ← query_native_token_balance account denom
    assert (ltb expected actual)

  unfoldable pub assert_native_token_balance_lt : Text → Text → ℕ → Action S (Unit {0})
  assert_native_token_balance_lt account denom expected = do
    actual ← query_native_token_balance account denom
    assert (ltb actual expected)

  unfoldable pub send_native_tokens : Account → Text → ℕ → Text → Action S (Unit {0})
  send_native_tokens from to amount denom =
      unwrap (bank_send B from to (record { amount = amount; denom = denom } ∷ [])) >> pure tt
