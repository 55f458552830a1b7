-- ===== src/Rpc/Unconfigured.antt =====
-- What becomes of a runner over RPC whose configuration names no fee.
use cw_it.Base.{ℕ, suc, ◌≡◌, arith, none, List, map, unwrap_or, ap, ◌∙◌, sym}
use cw_it.Text.{Text}
use cw_it.Chain.{Coin, Binary, Event, Result, ok, panicked, traverse, ok-cancel}
use cw_it.Chain.Seq.{◌>>=◌}
use cw_it.Client.{Account, auto, Bank, BankMsgSend}
use cw_it.Helpers.{bank_send}
use cw_it.UnifiedStargate.{to_proto}
use cw_it.Rpc.Types.{RpcRunnerConfig, TxCommitResponse, Node, Rounding, BankCodec, auto_fee_setting}
use cw_it.Rpc.{
  new, mnemonic_to_signing_key, own_fee_setting, execute_multiple, rpc_bank, new_account,
  init_account, init_accounts,
}
use cw_it.Rpc.Execute.{auto_fee_panics, and_then-inv}

send_panics :
    {S : Type 0} (N : Node S) (F : Rounding) (config : RpcRunnerConfig) (bank : Bank S)
    (funding : Account) (initial_balance : List Coin) (drawn n : ℕ) (s : S)
    → bank_send bank funding (new_account N F config drawn).address initial_balance s
      ≡ (panicked, s)
    → init_accounts N F config bank funding initial_balance drawn (suc n) s ≡ (panicked, s)
unfolding init_accounts init_account ◌>>=◌
send_panics N F config bank funding initial_balance drawn n s e = ground (arith, e)

module _ {S : Type 0} (N : Node S) (F : Rounding) (config : RpcRunnerConfig) (C : BankCodec)
    (events : TxCommitResponse → Result (List Event)) (funding : Account) where
  auto_send_panics :
      (gas_price : Coin) (gas_adjustment : ℕ)
      → funding.fee_setting ≡ auto gas_price gas_adjustment
      → (recipient : Text) (coins : List Coin) {m : Binary} (s : S)
      → C.encode_send (record {
        from_address = funding.address;
        to_address = recipient;
        amount = map to_proto coins;
      })
        ≡ ok m
      → bank_send (rpc_bank N F config C events) funding recipient coins s ≡ (panicked, s)
  unfolding bank_send execute_multiple traverse ◌>>=◌
  auto_send_panics gas_price gas_adjustment e recipient coins s encoded =
      rw encoded (auto_fee_panics N F config events _ funding gas_price gas_adjustment s e)

  new-fee_setting : new N F config ≡ ok funding → funding.fee_setting ≡ own_fee_setting N F config
  unfolding new
  new-fee_setting made =
      and_then-inv (N.connect config.chain_config.rpc_endpoint) _ made λ _ c rest.
        and_then-inv (N.parse_path config.chain_config.derivation_path) _ rest λ path p last.
          and_then-inv (mnemonic_to_signing_key N F config config.funding_account_mnemonic path) _
            last λ key k same. ap (λ a. a.fee_setting) (sym (ok-cancel same))

  -- A runner that was made of a configuration that names no fee cannot pay from its funding account:
  -- `init_accounts` for one account or more panics before anything is broadcast, provided that the
  -- message to the bank can be encoded.
  pub unconfigured_fee_panics :
      config.fee_setting ≡ none
      → new N F config ≡ ok funding
      → ((m : BankMsgSend) → (b : Binary) × (C.encode_send m ≡ ok b))
      → (initial_balance : List Coin) (drawn n : ℕ) (s : S)
      → init_accounts N F config
          (rpc_bank N F config C events)
          funding
          initial_balance
          drawn
          (suc n)
          s
        ≡ (panicked, s)
  unfolding own_fee_setting auto_fee_setting
  unconfigured_fee_panics unset made encodes initial_balance drawn n s =
      let (m, encoded) = encodes _ in
      send_panics N F config (rpc_bank N F config C events) funding initial_balance drawn n s (
        auto_send_panics _ _
          (new-fee_setting made
            ∙ ap (λ f. unwrap_or f (auto_fee_setting config.chain_config)) unset)
          (new_account N F config drawn).address initial_balance s encoded)
