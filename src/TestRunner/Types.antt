-- ===== src/TestRunner/Types.antt =====
-- The two enumerations of runners, and what each runner can do.
use cw_it.Base.{ℕ, List}
use cw_it.Text.{Text}
use cw_it.Chain.{Coin, Binary, Result, Action}
use cw_it.Artifact.{ContractType}
use cw_it.Runner.{Any}

-- `OwnedTestRunner`, by the types of the four runners.
pub data OwnedTestRunner (O C R M : Type 0) : Type 0 where
  owned_phantom_data : OwnedTestRunner O C R M
  owned_osmosis_test_app : O → OwnedTestRunner O C R M
  owned_coreum_test_app : C → OwnedTestRunner O C R M
  owned_rpc_runner : R → OwnedTestRunner O C R M
  owned_multi_test : M → OwnedTestRunner O C R M

-- `TestRunner`, which borrows the runner.
pub data TestRunner (O C R M : Type 0) : Type 0 where
  phantom_data : TestRunner O C R M
  osmosis_test_app : O → TestRunner O C R M
  coreum_test_app : C → TestRunner O C R M
  rpc_runner : R → TestRunner O C R M
  multi_test : M → TestRunner O C R M

-- The calls of `Runner` and `CwItRunner` on a runner `A`, on the state `S` of its chain. Messages
-- come encoded, responses are encoded, and accounts are their addresses.
pub record Ops (S Contract A : Type 0) : Type 0 where
  pub execute_multiple : A → List (Binary × Text) → Text → Action S Binary
  pub execute_multiple_raw : A → List Any → Text → Action S Binary
  pub query : A → Text → Binary → S → Result Binary
  pub store_code : A → ContractType Contract → Text → Action S ℕ
  pub init_account : A → List Coin → Action S Text
  pub init_accounts : A → List Coin → ℕ → Action S (List Text)
  pub increase_time : A → ℕ → Action S (Unit {0})
  pub query_block_time_nanos : A → S → Result ℕ

-- The codec of the smart query, and of its answer `T`.
pub record SmartCodec (T : Type 0) : Type 0 where
  pub encode_request : Text → Binary → Binary
  pub decode_response : Binary → Result Binary
  pub from_json : Binary → Result T
