-- ===== src/Batches.antt =====
-- A batch of messages for the extra stargate module on its way through the runner
-- (src/multi_test/runner.rs), the app and the stargate module
-- (src/multi_test/modules/unified_stargate.rs).
pub mod Passing
pub mod Atomic
pub mod Supply
pub mod Coreum
use cw_it.Base.{
  ℕ, ◌+◌, ◌≡◌, false, contains, bytes_eq, Bool, if◌then◌else◌, Option, List, [], ◌∷◌, map,
}
use cw_it.Text.{Text}
use cw_it.Chain.{Coin, AppResponse, Result, ok, Action, ◌>>=◌, pure, StargateMsg, is_ok}
use cw_it.Runner.{Any, CosmosMsg, stargate, Wire, App}
use cw_it.UnifiedStargate.Types.{Requests, Extra}
use cw_it.UnifiedStargate.{execute}

abbrev pub to_any : StargateMsg → Any
to_any m = record { type_url = m.type_url; value = m.value }

abbrev pub to_cosmos : StargateMsg → CosmosMsg
to_cosmos m = stargate m.type_url m.value

-- The type URLs that the runner tests for.
abbrev pub known_urls : Wire → List Text
known_urls W =
    W.execute_url ∷ W.instantiate_url ∷ W.migrate_url ∷ W.update_admin_url ∷ W.clear_admin_url
    ∷ W.send_url ∷ W.delegate_url ∷ W.undelegate_url ∷ W.redelegate_url ∷ []

abbrev pub IsUnknown : Wire → StargateMsg → Type 0
IsUnknown W m = contains (known_urls W) m.type_url ≡ false

abbrev pub AreUnknown : Wire → List StargateMsg → Type 0
AreUnknown W [] = Unit
AreUnknown W (m ∷ batch) = IsUnknown W m × AreUnknown W batch

module _ {S : Type 0} where
  -- One message after the other, up to the first that is refused.
  unfoldable pub each :
      (StargateMsg → Action S AppResponse) → List StargateMsg → Action S (List AppResponse)
  each act [] = pure []
  each act (m ∷ batch) = act m >>= λ r. each act batch >>= λ rs. pure (r ∷ rs)

  -- What a batch has written is dropped if it fails.
  unfoldable pub atomic : {A : Type 0} → Action S A → Action S A
  atomic m s = let (r, s') = m s in (r, if is_ok r then s' else s)

-- An app whose state is the given one, in the parts that `App` lists.
pub record Simulator (S : Type 0) : Type 1 where
  pub Contract : Type 0
  pub execute_multi : Text → List CosmosMsg → Action S (List AppResponse)
  pub sudo_mint : Text → List Coin → Action S AppResponse
  pub store_code : Contract → S → ℕ × S
  pub random_address : ℕ → Text
  pub recode : CosmosMsg → Result CosmosMsg

abbrev pub app_on : {S : Type 0} → Simulator S → App
app_on {S} A = record {
  State = S;
  Contract = A.Contract;
  execute_multi = A.execute_multi;
  sudo_mint = A.sudo_mint;
  store_code = A.store_code;
  random_address = A.random_address;
  recode = A.recode;
}

-- What the app does with stargate messages: it hands them to the stargate module in the name of
-- their sender, in order, and keeps what they write if none is refused. A message is the same after
-- it was written as JSON and read back.
pub record IsRouting (A : App) (R : Requests) (X : Option (Extra A.State)) : Type 0 where
  pub recodes : (m : CosmosMsg) → A.recode m ≡ ok m
  pub routes :
      (sender : Text) (batch : List StargateMsg) (s : A.State)
      → A.execute_multi sender (map to_cosmos batch) s ≡ atomic (each (execute R X sender) batch) s
