-- ===== src/Runner/Accounts/Laws.antt =====
-- The accounts that `init_accounts` makes.
use cw_it.Base.{ℕ, zero, suc, ◌+◌, ◌≡◌, refl, List, [], ◌∷◌, arith}
use cw_it.Text.{Text}
use cw_it.Chain.{Coin, AppResponse, ok}
use cw_it.Runner.Types.{App, Runner}
use cw_it.Runner.Accounts.{mint_initial, init_accounts}

module _ (A : App) where
  -- The next `n` random addresses, and the app after a mint to each.
  abbrev next_addresses : ℕ → ℕ → List Text
  next_addresses drawn zero = []
  next_addresses drawn (suc n) = A.random_address drawn ∷ next_addresses (suc drawn) n

  abbrev mint_each : List Coin → List Text → A.State → A.State
  mint_each coins [] s = s
  mint_each coins (a ∷ addresses) s = mint_each coins addresses (mint_initial A a coins s).1

  mint_initial_ok :
      (a : Text) (coins : List Coin) (s : A.State)
      → ((to : Text) (cs : List Coin) (t : A.State)
          → (res : AppResponse) × (t' : A.State) × (A.sudo_mint to cs t ≡ (ok res, t')))
      → (mint_initial A a coins s).0 ≡ ok tt
  mint_initial_ok a [] s mints = refl
  mint_initial_ok a (c ∷ coins) s mints = let (res, s', e) = mints a (c ∷ coins) s in ground arith

  -- If the bank's mint never fails, then `init_accounts` succeeds with the next `n` random
  -- addresses in order, and the app is as after a mint of the initial balance to each of them in
  -- turn, or as before if the balance is empty.
  init_accounts_lem :
      (coins : List Coin) (n : ℕ) (s : Runner A)
      → ((to : Text) (cs : List Coin) (t : A.State)
          → (res : AppResponse) × (t' : A.State) × (A.sudo_mint to cs t ≡ (ok res, t')))
      → init_accounts A coins n s ≡ (
        ok (next_addresses s.drawn n),
        record { app = mint_each coins (next_addresses s.drawn n) s.app; drawn = s.drawn + n },
      )
  unfolding init_accounts
  init_accounts_lem coins zero s mints = ground arith
  init_accounts_lem coins (suc n) s mints =
      let address = A.random_address s.drawn in
      let next : Runner A = record {
        app = (mint_initial A address coins s.app).1;
        drawn = suc s.drawn;
      } in
      ground
        (arith, mint_initial_ok address coins s.app mints, init_accounts_lem coins n next mints)
