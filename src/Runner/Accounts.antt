-- ===== src/Runner/Accounts.antt =====
-- `init_account` and `init_accounts`.
pub mod Laws
use cw_it.Base.{ℕ, zero, suc, ◌+◌, List, [], ◌∷◌, Option, none, some}
use cw_it.Text.{Text}
use cw_it.Chain.{Coin, AppResponse, Result, ok, err, panicked, Action, ◌>>=◌, pure}
use cw_it.Runner.Types.{App, Runner}

module _ (A : App) where
  -- `sudo(BankSudo::Mint { .. }).unwrap()`, unless there is nothing to mint
  abbrev pub mint_initial : Text → List Coin → A.State → Result (Unit {0}) × A.State
  mint_initial address [] s = (ok tt, s)
  mint_initial address (c ∷ coins) s =
      let (r, s') = A.sudo_mint address (c ∷ coins) s in
      elim r [ ok _ ↦ (ok tt, s') | err _ ↦ (panicked, s') | panicked ↦ (panicked, s') ]

  -- The address stands for the account.
  unfoldable pub init_account : List Coin → Action (Runner A) Text
  init_account initial_balance s =
      let address = A.random_address s.drawn in
      let (r, app) = mint_initial address initial_balance s.app in
      let s' : Runner A = record { app = app; drawn = suc s.drawn } in
      elim r [ ok _ ↦ (ok address, s') | err e ↦ (err e, s') | panicked ↦ (panicked, s') ]

  -- `for _ in 0..num_accounts`
  unfoldable pub init_accounts : List Coin → ℕ → Action (Runner A) (List Text)
  unfolding init_account
  init_accounts initial_balance zero = pure []
  init_accounts initial_balance (suc n) = init_account initial_balance >>= λ account.
      init_accounts initial_balance n >>= λ accounts. pure (account ∷ accounts)
