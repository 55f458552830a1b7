-- ===== src/Tests/Rpc.antt =====
-- The runner over RPC on a small node, whose state counts the looks at it.
use cw_it.Base.{
  ℕ, suc, ◌*◌, ◌/◌, ◌≡◌, ◌↔◌, ◌≤◌, refl, true, false, none, some, [], ◌∷◌, bytes_eq, arith,
}
use cw_it.Text.{codes}
use cw_it.Chain.{ok, panicked, unwrap}
use cw_it.Chain.Seq.{◌>>=◌}
use cw_it.Client.{Account}
use cw_it.Rpc.{
  ChainConfig, RpcRunnerConfig, auto_fee_setting, Node, BankCodec, Rounding, TxCommitResponse,
  execute_multiple_raw, own_fee, fixed_fee, create_signed_tx, base_account, own_fee_setting, new,
  mnemonic_to_signing_key, rpc_bank, init_accounts,
}
use cw_it.Rpc.Blocks.{wait, poll_for_n_blocks, poll_from_here, poll_until}
use cw_it.Rpc.Execute.{GoesThrough, execute_multiple_raw_succeeds_iff}
use cw_it.Rpc.Polling.{FirstSees, after, wait_returns}
use cw_it.Rpc.Unconfigured.{unconfigured_fee_panics}
use cw_it.Tests.Samples.{alice}
use cw_it.Tests.Deployments.{admin}

abbrev pub committed : TxCommitResponse
committed = record {
  check_is_err = false;
  check_log = [];
  result_is_err = false;
  result_log = [];
  outcome = 7 ∷ [];
}

-- Every second look sees a new block.
abbrev pub small_node : Node ℕ
small_node = record {
  abci_query = λ path bytes n. ok (record { is_ok = true; value = bytes });
  broadcast_tx_commit = λ tx n. (ok committed, suc n);
  latest_block = λ n. (ok (n / 2, n), suc n);
  encode_account_request = λ address. address;
  decode_account_response = λ bytes. ok (some bytes);
  decode_base_account = λ bytes. ok (record { account_number = 4; sequence = 9 });
  sign = λ msgs fee account chain_id signer. ok (chain_id);
  parse_denom = λ denom. ok denom;
  random_address = λ drawn. drawn ∷ [];
  connect = λ endpoint. ok tt;
  parse_path = λ path. ok path;
  mnemonic_to_seed = λ mnemonic. ok mnemonic;
  derive_from_path = λ seed path. ok seed;
  address_of = λ prefix key. alice;
  wait_until_healthy = λ n. (ok tt, n);
  is_serde = λ e. false;
}

abbrev pub rounding : Rounding
rounding = record { scale_gas = λ gas factor. gas * factor; price_gas = λ gas price. gas * price }

abbrev pub chain : ChainConfig
chain = record {
  name = codes "osmosis";
  denom = codes "uosmo";
  prefix = codes "osmo";
  chain_id = codes "osmosis-1";
  gas_price = 2;
  gas_adjustment = 3;
  derivation_path = codes "m/44'/118'/0'/0/0";
  rpc_endpoint = codes "http://localhost:26657";
  grpc_endpoint = codes "http://localhost:9090";
}

abbrev pub unconfigured : RpcRunnerConfig
unconfigured = record {
  chain_config = chain;
  funding_account_mnemonic = codes "stamp later";
  fee_setting = none;
}

abbrev pub funder : Account
funder = record { address = alice; prefix = codes "osmo"; fee_setting = auto_fee_setting chain }

abbrev pub codec : BankCodec
codec = record {
  encode_send = λ m. ok m.to_address;
  encode_balance = λ (address, denom). ok denom;
  decode_balance = λ bytes. ok none;
  encode_all_balances = λ address. ok address;
  decode_all_balances = λ bytes. ok [];
}

execute_multiple_raw_succeeds_iff_example :
    (execute_multiple_raw small_node rounding unconfigured (λ r. ok r.outcome) [] admin 3
      ≡ (ok (7 ∷ []), 4))
    ↔ GoesThrough small_node rounding unconfigured (λ r. ok r.outcome) [] admin (7 ∷ []) 3 4
execute_multiple_raw_succeeds_iff_example =
    execute_multiple_raw_succeeds_iff small_node rounding unconfigured (λ r. ok r.outcome) [] admin
      (7 ∷ []) 3 4

execute_test :
    execute_multiple_raw small_node rounding unconfigured (λ r. ok r.outcome) [] admin 3
    ≡ (ok (7 ∷ []), 4)
unfolding execute_multiple_raw own_fee fixed_fee create_signed_tx base_account ◌>>=◌
execute_test = refl

wait_returns_example :
    (k : ℕ) × (wait small_node 6 3 5 ≡ some (ok tt, after suc (suc k) 5))
    × (k ≤ 6)
    × FirstSees suc (λ n. n / 2) 5 k 5
wait_returns_example =
    wait_returns suc (λ n. n / 2) small_node (λ n. n) (λ n. refl) 2 (λ n. omega arith) 3 5
      (omega arith)

wait_test : wait small_node 6 3 5 ≡ some (ok tt, 11)
unfolding wait poll_for_n_blocks poll_from_here poll_until unwrap
wait_test = refl

unconfigured_fee_panics_example :
    init_accounts small_node rounding unconfigured
      (rpc_bank small_node rounding unconfigured codec (λ r. ok []))
      funder
      (record { denom = codes "uosmo"; amount = 5 } ∷ [])
      0
      2
      3
    ≡ (panicked, 3)
unfolding own_fee_setting new mnemonic_to_signing_key
unconfigured_fee_panics_example =
    unconfigured_fee_panics small_node rounding unconfigured codec (λ r. ok []) funder refl refl
      (λ m. (m.to_address, refl)) (record { denom = codes "uosmo"; amount = 5 } ∷ []) 0 1 3
