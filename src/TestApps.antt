-- ===== src/TestApps.antt =====
-- The test apps, src/osmosis_test_app.rs and src/coreum_test_app.rs, on the chain of test-tube, which
-- is code outside.
use cw_it.Base.{ℕ, List, [], ◌∷◌, ◌%◌, ◌^◌}
use cw_it.Text.{Text}
use cw_it.Chain.{Coin, Binary, Result, ok, err, artifact_not_supported, Action, lift, modify}
use cw_it.Chain.Seq.{◌>>=◌}
use cw_it.Artifact.{ContractType, artifact, multi_test_contract, Sources, get_wasm_byte_code}
use cw_it.Runner.{Any}
use cw_it.TestRunner.Types.{Ops}
use cw_it.Osmosis.{TestApp}

-- `BaseApp`, or `OsmosisTestApp`, with `Wasm::store_code` on it. Times are after 1970.
pub record BaseApp (S : Type 0) : Type 0 where
  pub execute_multiple : List (Binary × Text) → Text → Action S Binary
  pub execute_multiple_raw : List Any → Text → Action S Binary
  pub query : Text → Binary → S → Result Binary
  pub wasm_store_code : Binary → Text → Action S ℕ
  pub init_account : List Coin → Action S Text
  pub init_accounts : List Coin → ℕ → Action S (List Text)
  pub increase_time : ℕ → S → S
  pub block_time_nanos : S → ℕ

module _ {S : Type 0} (app : BaseApp S) (F : Sources) where
  unfoldable pub store_code : {C : Type 0} → ContractType C → Text → Action S ℕ
  store_code (multi_test_contract c) signer s = (err artifact_not_supported, s)
  store_code (artifact a) signer s =
      (lift (get_wasm_byte_code F a) >>= λ bytes. app.wasm_store_code bytes signer) s

  unfoldable pub increase_time : ℕ → Action S (Unit {0})
  increase_time seconds = modify (app.increase_time seconds)

  -- `as u64`
  unfoldable pub query_block_time_nanos : S → Result ℕ
  query_block_time_nanos s = ok (app.block_time_nanos s % 2 ^ 64)

  -- `CwItRunner` and `Runner` for a test app; the number of accounts is passed on `as u64`.
  unfoldable pub runner_ops : (C : Type 0) → Ops S C (Unit {0})
  runner_ops C = record {
    execute_multiple = λ _. app.execute_multiple;
    execute_multiple_raw = λ _. app.execute_multiple_raw;
    query = λ _. app.query;
    store_code = λ _. store_code;
    init_account = λ _. app.init_account;
    init_accounts =
        λ _ initial_balance num_accounts. app.init_accounts initial_balance (num_accounts % 2 ^ 64);
    increase_time = λ _. increase_time;
    query_block_time_nanos = λ _. query_block_time_nanos;
  }

-- `WhitelistForceUnlock`: the parameter set of "lockup" is set to the one address.
unfoldable pub whitelist_address_for_force_unlock :
    {S : Type 0} → TestApp S → Text → Action S (Unit {0})
whitelist_address_for_force_unlock T addr = T.set_lockup_params (addr ∷ [])
