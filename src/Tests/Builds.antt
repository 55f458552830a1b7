-- ===== src/Tests/Builds.antt =====
-- Runners of small apps, and the addresses of their accounts.
use cw_it.Base.{ℕ, ◌≡◌, refl, true, [], ◌∷◌, ◌++◌}
use cw_it.Text.{Text, codes, print_u128}
use cw_it.Chain.{ok}
use cw_it.Runner.{App}
use cw_it.Runner.Accounts.{init_accounts}
use cw_it.Runner.Build.{Builder, new, new_with_stargate}
use cw_it.Runner.Build.Addresses.{Each, init_accounts-AreValid}
use cw_it.Addresses.{addr_validate}
use cw_it.Tests.Runs.{small_app, seven}
use cw_it.Tests.Names.{plain, plain_back}

abbrev app_for : Text → App
app_for address_prefix = record small_app {
  random_address = λ n. address_prefix ++ (b'1' ∷ print_u128 n);
}

-- The extra module is a number.
abbrev builder : Builder ℕ
builder = record { app = λ parts prefix. app_for prefix; build = λ parts prefix. [] }

init_accounts-AreValid_example :
    Each (λ a. addr_validate plain (codes "osmo") a ≡ ok a) (codes "osmo10" ∷ codes "osmo11" ∷ [])
    × Each (λ a. addr_validate plain (codes "osmo") a ≡ ok a) (codes "osmo10" ∷ codes "osmo11" ∷ [])
unfolding init_accounts print_u128 new new_with_stargate
init_accounts-AreValid_example =
    init_accounts-AreValid builder true (codes "osmo") plain 3 (seven ∷ []) 2
      (codes "osmo10" ∷ codes "osmo11" ∷ []) (codes "osmo10" ∷ codes "osmo11" ∷ []) plain_back
      (λ n. (codes "osmo", print_u128 n, refl, refl))
      (λ n. (codes "osmo", print_u128 n, refl, refl)) refl refl
