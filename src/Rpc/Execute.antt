-- ===== src/Rpc/Execute.antt =====
-- When a transaction over RPC goes through, and why accounts with an estimated fee have none.
use cw_it.Base.{ℕ, ◌≡◌, ◌↔◌, refl, ap, sym, ◌∙◌, subst, ◌⊎◌, inl, inr, false, List, arith}
use cw_it.Text.{Text}
use cw_it.Chain.{
  Coin, Binary, Result, ok, panicked, ok-cancel, and_then, outcome, succeeds, fails, panics,
}
use cw_it.Chain.Seq.{◌>>=◌, >>=-inv, ask-inv, lift-inv, bail_if-inv}
use cw_it.Client.{Account, FeeSetting, auto, custom}
use cw_it.Runner.{Any}
use cw_it.Rpc.Types.{RpcRunnerConfig, Fee, BaseAccount, TxCommitResponse, Node, Rounding}
use cw_it.Rpc.{
  simulate_tx, estimate_fee, own_fee, fixed_fee, base_account, create_signed_tx,
  execute_multiple_raw,
}

FeeSetting-cases :
    (f : FeeSetting)
    → ((p : Coin) × (a : ℕ) × (f ≡ auto p a)) ⊎ ((m : Coin) × (g : ℕ) × (f ≡ custom m g))
FeeSetting-cases (auto p a) = inl (p, a, refl)
FeeSetting-cases (custom m g) = inr (m, g, refl)

-- `r?` succeeds as its first part and the rest do.
pub and_then-inv :
    {A B : Type 0} (r : Result A) (k : A → Result B) {b : B} {G : Type 0}
    → and_then r k ≡ ok b
    → ((a : A) → r ≡ ok a → k a ≡ ok b → G)
    → G
and_then-inv r k h goal = elim (outcome r) [
  | succeeds a e ↦ goal a e (ground (arith, e))
  | fails e f ↦ absurd (ground (arith, f))
  | panics f ↦ absurd (ground (arith, f))
]

module _ {S R : Type 0} (N : Node S) (F : Rounding) (config : RpcRunnerConfig)
    (convert : TxCommitResponse → Result R) (msgs : List Any) (signer : Account) where
  abbrev pub chain_fee : Text → Fee
  chain_fee denom = record {
    amount = record { denom = denom; amount = 4_000_000 };
    gas_limit = 25_000_000;
  }

  -- The signer has a fixed fee, the node knows its account, both codes of the transaction are fine.
  abbrev pub GoesThrough : R → S → S → Type 0
  GoesThrough r s t =
      (amount : Coin) × (gas_limit : ℕ) × (own_denom : Text) × (denom : Text)
      × (account : BaseAccount) × (tx : Binary) × (response : TxCommitResponse)
      × (signer.fee_setting ≡ custom amount gas_limit)
      × (N.parse_denom amount.denom ≡ ok own_denom)
      × (N.parse_denom config.chain_config.denom ≡ ok denom)
      × (base_account N F config signer s ≡ ok account)
      × (N.sign msgs (chain_fee denom) account config.chain_config.chain_id signer ≡ ok tx)
      × (N.broadcast_tx_commit tx s ≡ (ok response, t))
      × (response.check_is_err ≡ false)
      × (response.result_is_err ≡ false)
      × (convert response ≡ ok r)

  own_fee-inv :
      {fee : Fee}
      → own_fee N F config signer ≡ ok fee
      → (amount : Coin) × (gas_limit : ℕ) × (d : Text) × (signer.fee_setting
          ≡ custom amount gas_limit)
        × (N.parse_denom amount.denom ≡ ok d)
  unfolding own_fee estimate_fee simulate_tx
  own_fee-inv h = elim (FeeSetting-cases signer.fee_setting) [
    | inl (p, a, e) ↦ absurd (ground (arith, e))
    | inr (m, g, e) ↦ elim (outcome (N.parse_denom m.denom)) [
      | succeeds d f ↦ (m, g, d, e, f)
      | fails x f ↦ absurd (ground (arith, e, f))
      | panics f ↦ absurd (ground (arith, e, f))
    ]
  ]

  sign-inv :
      (s : S) {fee : Fee} {tx : Binary}
      → fixed_fee N F config ≡ ok fee
      → create_signed_tx N F config msgs signer fee s ≡ ok tx
      → (denom : Text) × (account : BaseAccount) × (N.parse_denom config.chain_config.denom
          ≡ ok denom)
        × (base_account N F config signer s ≡ ok account)
        × (N.sign msgs (chain_fee denom) account config.chain_config.chain_id signer ≡ ok tx)
  unfolding create_signed_tx fixed_fee
  sign-inv s {fee} {tx} fixed signed =
      and_then-inv (N.parse_denom config.chain_config.denom) _ fixed λ denom d e.
        and_then-inv (base_account N F config signer s) _ signed λ account b w. (
          denom,
          account,
          d,
          b,
          subst (λ f. N.sign msgs f account config.chain_config.chain_id signer ≡ ok tx)
              (sym (ok-cancel e)) w,
        )

  raw-inv :
      (r : R) (s t : S)
      → execute_multiple_raw N F config convert msgs signer s ≡ (ok r, t)
      → GoesThrough r s t
  unfolding execute_multiple_raw
  raw-inv r s t h = lift-inv _ _ h λ own paid h1. lift-inv _ _ h1 λ fee fixed h2.
      ask-inv _ _ h2 λ tx signed h3. >>=-inv _ _ _ h3 λ response u broadcast h4.
        bail_if-inv _ _ _ h4 λ check h5. bail_if-inv _ _ _ h5 λ result h6.
          let (m, g, own_denom, f, p) = own_fee-inv paid in
          let (denom, account, d, b, w) = sign-inv s fixed signed in
          (
            m,
            g,
            own_denom,
            denom,
            account,
            tx,
            response,
            f,
            p,
            d,
            b,
            w,
            broadcast ∙ ap (λ v. (ok response, v)) (ap (λ q. q.1) h6),
            check,
            result,
            ap (λ q. q.0) h6,
          )

  -- A signer with a fixed fee pays 4 000 000 of the chain's denom for 25 000 000 gas, whatever its
  -- own fee is: `execute_multiple_raw` succeeds with a response exactly if both denoms parse, the
  -- node knows the signer's account, the transaction can be signed with that fee, and is committed
  -- with both codes fine and converted to the response.
  pub execute_multiple_raw_succeeds_iff :
      (r : R) (s t : S)
      → (execute_multiple_raw N F config convert msgs signer s ≡ (ok r, t)) ↔ GoesThrough r s t
  unfolding execute_multiple_raw create_signed_tx fixed_fee own_fee ◌>>=◌
  execute_multiple_raw_succeeds_iff r s t = (
    raw-inv r s t,
    λ (m, g, own, denom, account, tx, response, f, p, d, b, w, c, k1, k2, v).
        ground (arith, f, p, d, b, w, c, k1, k2, v),
  )

  pub auto_fee_panics :
      (gas_price : Coin) (gas_adjustment : ℕ) (s : S)
      → signer.fee_setting ≡ auto gas_price gas_adjustment
      → execute_multiple_raw N F config convert msgs signer s ≡ (panicked, s)
  unfolding execute_multiple_raw own_fee estimate_fee simulate_tx ◌>>=◌
  auto_fee_panics gas_price gas_adjustment s e = ground (arith, e)
