-- ===== src/Rpc.antt =====
-- The runner over RPC, src/rpc_runner/runner.rs.
mod Types
pub mod Blocks
pub mod Execute
pub mod Polling
pub mod Unconfigured
pub use Types.*
use cw_it.Base.{
  ℕ, zero, suc, ◌+◌, ◌*◌, ◌%◌, ◌^◌, Bool, true, false, not, Option, none, some, List, [], ◌∷◌, ltb,
  if◌then◌else◌, unwrap_or,
}
use cw_it.Text.{Text, codes}
use cw_it.Chain.{
  Coin, Binary, Event, Result, ok, err, panicked, and_then, traverse, Error, execute_failed,
  query_failed, funding_failed, external, artifact_not_supported, Action, pure, lift, ask, unwrap,
  unwrapped, bail_if,
}
use cw_it.Chain.Seq.{◌>>=◌, ◌>>◌}
use cw_it.Client.{Account, FeeSetting, auto, custom, Bank}
use cw_it.Runner.{Any}
use cw_it.Helpers.{bank_send}
use cw_it.Artifact.{ContractType, artifact, multi_test_contract, Sources, get_wasm_byte_code}
use cw_it.Rpc.Types.{
  auto_fee_setting, RpcRunnerConfig, Fee, BaseAccount, TxCommitResponse, Node, BankCodec, Rounding,
}

-- `simulate_tx` is `todo!()`.
unfoldable pub simulate_tx : Result ℕ
simulate_tx = panicked

module _ {S : Type 0} (N : Node S) (F : Rounding) (config : RpcRunnerConfig) where
  -- The fee for the gas used; for a fixed fee this is never called.
  unfoldable pub estimate_fee : Account → Result Fee
  estimate_fee signer = elim signer.fee_setting [
    | auto gas_price gas_adjustment ↦ and_then simulate_tx λ gas_used.
        let gas_limit = F.scale_gas gas_used gas_adjustment in
        and_then (N.parse_denom config.chain_config.denom) λ denom. ok (record {
          amount = record { denom = denom; amount = F.price_gas gas_limit gas_price.amount };
          gas_limit = gas_limit;
        })
    | custom amount gas_limit ↦ panicked
  ]

  unfoldable pub base_account : Account → S → Result BaseAccount
  base_account account s =
      and_then
        (N.abci_query (codes "/cosmos.auth.v1beta1.Query/Account")
          (N.encode_account_request account.address) s)
        λ answer. and_then (N.decode_account_response answer.value) λ found. elim found [
          | none ↦ err (query_failed (codes "account query failed"))
          | some bytes ↦ N.decode_base_account bytes
        ]

  unfoldable pub create_signed_tx : List Any → Account → Fee → S → Result Binary
  create_signed_tx msgs signer fee s =
      and_then (base_account signer s)
        λ account. N.sign msgs fee account config.chain_config.chain_id signer

  -- The fee of the signer's setting, which is computed and not used. The amount of a fixed fee,
  -- printed and parsed again, is itself.
  unfoldable pub own_fee : Account → Result Fee
  own_fee signer = elim signer.fee_setting [
    | auto gas_price gas_adjustment ↦ estimate_fee signer
    | custom amount gas_limit ↦ and_then (N.parse_denom amount.denom) λ denom. ok (record {
      amount = record { denom = denom; amount = amount.amount };
      gas_limit = gas_limit;
    })
  ]

  -- The fee that every transaction pays.
  unfoldable pub fixed_fee : Result Fee
  fixed_fee = and_then (N.parse_denom config.chain_config.denom) λ denom.
      ok (record { amount = record { denom = denom; amount = 4_000_000 }; gas_limit = 25_000_000 })

  -- `convert` is `try_into` from the committed transaction.
  module _ {R : Type 0} (convert : TxCommitResponse → Result R) where
    unfoldable pub execute_multiple_raw : List Any → Account → Action S R
    execute_multiple_raw msgs signer = do
      lift (own_fee signer)
      fee ← lift fixed_fee
      tx_raw ← ask (create_signed_tx msgs signer fee)
      response ← N.broadcast_tx_commit tx_raw
      bail_if response.check_is_err (execute_failed response.check_log)
      bail_if response.result_is_err (execute_failed response.result_log)
      lift (convert response)

    unfoldable pub execute_multiple :
        {M : Type 0} → (M → Result Binary) → List (M × Text) → Account → Action S R
    execute_multiple encode msgs signer = do
      encoded_msgs ← lift (
          traverse
            (λ (m, type_url).
              and_then (encode m) λ value. ok (record { type_url = type_url; value = value }))
            msgs)
      execute_multiple_raw encoded_msgs signer

  unfoldable pub query :
      {Q R : Type 0} → (Q → Result Binary) → (Binary → Result R) → Text → Q → S → Result R
  query encode decode path msg s = and_then (encode msg) λ bytes.
      and_then (N.abci_query path bytes s)
        λ res. if res.is_ok then decode res.value else err (query_failed (codes "error"))

  -- `raw_query` of a smart query; other queries are `todo!()`.
  unfoldable pub raw_query :
      {Q : Type 0} → (Q → Result Binary) → (Binary → Result Binary) → Option Q → S → Result Binary
  raw_query encode decode none s = panicked
  raw_query encode decode (some smart) s =
      unwrapped (query encode decode (codes "/cosmwasm.wasm.v1.Query/SmartContractState") smart s)

  unfoldable pub store_code :
      {C : Type 0}
      → (Binary → Account → Action S ℕ)
      → Sources
      → ContractType C
      → Account
      → Action S ℕ
  store_code wasm_store_code F (multi_test_contract c) signer s = (err artifact_not_supported, s)
  store_code wasm_store_code F (artifact a) signer s =
      (lift (get_wasm_byte_code F a) >>= λ bytes. wasm_store_code bytes signer) s

  unfoldable pub own_fee_setting : FeeSetting
  own_fee_setting = unwrap_or config.fee_setting (auto_fee_setting config.chain_config)

  unfoldable pub mnemonic_to_signing_key : Text → Text → Result Binary
  mnemonic_to_signing_key mnemonic path =
      and_then (N.mnemonic_to_seed mnemonic) λ seed. N.derive_from_path seed path

  -- `RpcRunner::new`, by the funding account of the runner
  unfoldable pub new : Result Account
  new = and_then (N.connect config.chain_config.rpc_endpoint) λ _.
      and_then (N.parse_path config.chain_config.derivation_path) λ path.
        and_then (mnemonic_to_signing_key config.funding_account_mnemonic path) λ signing_key.
          ok (record {
            address = N.address_of config.chain_config.prefix signing_key;
            prefix = config.chain_config.prefix;
            fee_setting = own_fee_setting;
          })

  -- The new account has the next random key, and pays as the configuration says.
  unfoldable pub new_account : ℕ → Account
  new_account drawn = record {
    address = N.random_address drawn;
    prefix = config.chain_config.prefix;
    fee_setting = own_fee_setting;
  }

  -- test_tube's `Bank` on this runner; `events` is `try_into` from the committed transaction.
  abbrev pub rpc_bank : BankCodec → (TxCommitResponse → Result (List Event)) → Bank S
  rpc_bank C events = record {
    send = λ msg signer.
        execute_multiple events C.encode_send ((msg, codes "/cosmos.bank.v1beta1.MsgSend") ∷ [])
          signer;
    query_balance = λ address denom.
        query C.encode_balance C.decode_balance (codes "/cosmos.bank.v1beta1.Query/Balance")
          (address, denom);
    query_all_balances = λ address.
        query C.encode_all_balances C.decode_all_balances
          (codes "/cosmos.bank.v1beta1.Query/AllBalances") address;
  }

  module _ (bank : Bank S) (funding_account : Account) where
    unfoldable pub init_account : List Coin → ℕ → Action S Account
    init_account initial_balance drawn s =
        let account = new_account drawn in
        let (r, t) = bank_send bank funding_account account.address initial_balance s in
        elim r [
          | ok _ ↦ (ok account, t)
          | err e ↦ (err (funding_failed e), t)
          | panicked ↦ (panicked, t)
        ]

    -- `for _ in 0..num_accounts`
    unfoldable pub init_accounts : List Coin → ℕ → ℕ → Action S (List Account)
    init_accounts initial_balance drawn zero = pure []
    init_accounts initial_balance drawn (suc n) = do
      account ← init_account initial_balance drawn
      accounts ← init_accounts initial_balance (suc drawn) n
      pure (account ∷ accounts)

  -- `increase_time` is `todo!()`.
  unfoldable pub increase_time : ℕ → Action S (Unit {0})
  increase_time seconds s = (panicked, s)

  -- `as_nanos() as u64`
  unfoldable pub query_block_time_nanos : Action S ℕ
  query_block_time_nanos = do (height, time) ← unwrap N.latest_block; pure (time % 2 ^ 64)
