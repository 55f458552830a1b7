-- ===== src/TestRunner.antt =====
-- The choice of a runner, src/test_runner.rs, with every feature of the crate on: which runner a name
-- stands for, and how each call is passed on to the runner that was chosen.
pub mod Types
pub mod Names
use cw_it.Base.{ℕ, Option, none, some, List, ◌++◌, bytes_eq, ◌==◌, if◌then◌else◌}
use cw_it.Text.{Text, codes}
use cw_it.Chain.{Coin, Binary, Result, ok, err, panicked, and_then, Action, external}
use cw_it.Artifact.{ContractType}
use cw_it.Runner.{Any}
use cw_it.TestRunner.Types.{
  OwnedTestRunner, TestRunner, Ops, SmartCodec, owned_phantom_data, owned_osmosis_test_app,
  owned_coreum_test_app, owned_rpc_runner, owned_multi_test, phantom_data, osmosis_test_app,
  coreum_test_app, rpc_runner, multi_test,
}

abbrev or_multi_test : Option Text → Text
or_multi_test none = codes "multi-test"
or_multi_test (some s) = s

module _ {O C R M : Type 0} where
  unfoldable pub as_ref : OwnedTestRunner O C R M → TestRunner O C R M
  as_ref owned_phantom_data = phantom_data
  as_ref (owned_osmosis_test_app app) = osmosis_test_app app
  as_ref (owned_coreum_test_app app) = coreum_test_app app
  as_ref (owned_rpc_runner runner) = rpc_runner runner
  as_ref (owned_multi_test runner) = multi_test runner

  -- `Display`; the phantom is never printed.
  unfoldable pub fmt : TestRunner O C R M → Result Text
  fmt phantom_data = panicked
  fmt (osmosis_test_app _) = ok (codes "osmosis-test-app")
  fmt (coreum_test_app _) = ok (codes "coreum-test-app")
  fmt (rpc_runner _) = ok (codes "rpc-runner")
  fmt (multi_test _) = ok (codes "multi-test")

  -- `Display` of the owned runner
  unfoldable pub owned_fmt : OwnedTestRunner O C R M → Result Text
  owned_fmt owned_phantom_data = panicked
  owned_fmt (owned_osmosis_test_app _) = ok (codes "osmosis-test-app")
  owned_fmt (owned_coreum_test_app _) = ok (codes "coreum-test-app")
  owned_fmt (owned_rpc_runner _) = ok (codes "rpc-runner")
  owned_fmt (owned_multi_test _) = ok (codes "multi-test")

  -- By the makers of the three runners that need no configuration.
  module _ (new_osmosis : O) (new_coreum : C) (new_multi_test : M) where
    unfoldable pub from_str : Text → Result (OwnedTestRunner O C R M)
    unfolding bytes_eq
    from_str s =
        if s == codes "osmosis-test-app"
        then ok (owned_osmosis_test_app new_osmosis)
        else if s == codes "coreum-test-app"
        then ok (owned_coreum_test_app new_coreum)
        else if s == codes "rpc-runner"
        then err (external (codes "RpcRunner requires a config file"))
        else if s == codes "multi-test"
        then ok (owned_multi_test new_multi_test)
        else err (external (codes "Invalid TestRunner: " ++ s))

    -- `TEST_RUNNER`, if it is set
    unfoldable pub from_env_var : Option Text → Result (OwnedTestRunner O C R M)
    unfolding from_str
    from_env_var var = from_str (or_multi_test var)

  module _ (S Contract : Type 0) (osmosis : Ops S Contract O) (coreum : Ops S Contract C)
      (rpc : Ops S Contract R) (multi : Ops S Contract M) where
    unfoldable pub execute_multiple_raw : TestRunner O C R M → List Any → Text → Action S Binary
    execute_multiple_raw phantom_data = λ msgs signer s. (panicked, s)
    execute_multiple_raw (osmosis_test_app app) = osmosis.execute_multiple_raw app
    execute_multiple_raw (coreum_test_app app) = coreum.execute_multiple_raw app
    execute_multiple_raw (rpc_runner runner) = rpc.execute_multiple_raw runner
    execute_multiple_raw (multi_test runner) = multi.execute_multiple_raw runner

    unfoldable pub execute_multiple :
        TestRunner O C R M → List (Binary × Text) → Text → Action S Binary
    execute_multiple phantom_data = λ msgs signer s. (panicked, s)
    execute_multiple (osmosis_test_app app) = osmosis.execute_multiple app
    execute_multiple (coreum_test_app app) = coreum.execute_multiple app
    execute_multiple (rpc_runner runner) = rpc.execute_multiple runner
    execute_multiple (multi_test runner) = multi.execute_multiple runner

    unfoldable pub query : TestRunner O C R M → Text → Binary → S → Result Binary
    query phantom_data = λ path request s. panicked
    query (osmosis_test_app app) = osmosis.query app
    query (coreum_test_app app) = coreum.query app
    query (rpc_runner runner) = rpc.query runner
    query (multi_test runner) = multi.query runner

    unfoldable pub store_code : TestRunner O C R M → ContractType Contract → Text → Action S ℕ
    store_code phantom_data = λ code signer s. (panicked, s)
    store_code (osmosis_test_app app) = osmosis.store_code app
    store_code (coreum_test_app app) = coreum.store_code app
    store_code (rpc_runner runner) = rpc.store_code runner
    store_code (multi_test runner) = multi.store_code runner

    unfoldable pub init_account : TestRunner O C R M → List Coin → Action S Text
    init_account phantom_data = λ coins s. (panicked, s)
    init_account (osmosis_test_app app) = osmosis.init_account app
    init_account (coreum_test_app app) = coreum.init_account app
    init_account (rpc_runner runner) = rpc.init_account runner
    init_account (multi_test runner) = multi.init_account runner

    unfoldable pub init_accounts : TestRunner O C R M → List Coin → ℕ → Action S (List Text)
    init_accounts phantom_data = λ coins n s. (panicked, s)
    init_accounts (osmosis_test_app app) = osmosis.init_accounts app
    init_accounts (coreum_test_app app) = coreum.init_accounts app
    init_accounts (rpc_runner runner) = rpc.init_accounts runner
    init_accounts (multi_test runner) = multi.init_accounts runner

    unfoldable pub increase_time : TestRunner O C R M → ℕ → Action S (Unit {0})
    increase_time phantom_data = λ seconds s. (panicked, s)
    increase_time (osmosis_test_app app) = osmosis.increase_time app
    increase_time (coreum_test_app app) = coreum.increase_time app
    increase_time (rpc_runner runner) = rpc.increase_time runner
    increase_time (multi_test runner) = multi.increase_time runner

    -- Not implemented for the RPC runner.
    unfoldable pub query_block_time_nanos : TestRunner O C R M → S → Result ℕ
    query_block_time_nanos phantom_data = λ s. panicked
    query_block_time_nanos (osmosis_test_app app) = osmosis.query_block_time_nanos app
    query_block_time_nanos (coreum_test_app app) = coreum.query_block_time_nanos app
    query_block_time_nanos (rpc_runner runner) = λ s. panicked
    query_block_time_nanos (multi_test runner) = multi.query_block_time_nanos runner

    -- Every runner but the multi-test one is asked by a stargate query; the message comes as its JSON.
    module _ {T : Type 0} (J : SmartCodec T) (multi_smart : M → Text → Binary → S → Result T) where
      asked_by_stargate : TestRunner O C R M → Text → Binary → S → Result T
      unfolding query
      asked_by_stargate runner contract_addr msg s =
          and_then
            (query runner (codes "/cosmwasm.wasm.v1.Query/SmartContractState")
              (J.encode_request contract_addr msg) s)
            λ response. and_then (J.decode_response response) J.from_json

      unfoldable pub query_wasm_smart : TestRunner O C R M → Text → Binary → S → Result T
      unfolding asked_by_stargate
      query_wasm_smart phantom_data = λ contract_addr msg s. panicked
      query_wasm_smart (multi_test runner) = multi_smart runner
      query_wasm_smart (osmosis_test_app app) = asked_by_stargate (osmosis_test_app app)
      query_wasm_smart (coreum_test_app app) = asked_by_stargate (coreum_test_app app)
      query_wasm_smart (rpc_runner runner) = asked_by_stargate (rpc_runner runner)
