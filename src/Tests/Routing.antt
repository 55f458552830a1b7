-- ===== src/Tests/Routing.antt =====
-- A small app that hands the stargate messages of a batch to an extra module, and knows no others.
use cw_it.Base.{◌≡◌, refl, ap, some, List, [], ◌∷◌, map}
use cw_it.Text.{Text, codes}
use cw_it.Chain.{default_response, ok, StargateMsg}
use cw_it.Runner.{CosmosMsg, stargate}
use cw_it.UnifiedStargate.Types.{Requests, Extra}
use cw_it.UnifiedStargate.{execute}
use cw_it.Batches.{Simulator, app_on, to_cosmos, each, atomic, IsRouting}
use cw_it.Batches.Passing.{each-execute}
use cw_it.Tests.Samples.{alice}
use cw_it.Tests.Runs.{wire}

-- Requests that all ask for Alice.
abbrev pub small_requests : Requests
small_requests = record {
  decode_all_balances = λ _. ok alice;
  decode_balance = λ _. ok (alice, codes "uosmo");
  decode_supply = λ _. ok (codes "uosmo");
  decode_smart = λ _. ok (alice, []);
  decode_contract_info = λ _. ok alice;
}

-- The stargate messages among the messages of a batch.
abbrev pub stargates : List CosmosMsg → List StargateMsg
stargates [] = []
stargates (stargate type_url value ∷ msgs) =
    record { type_url = type_url; value = value } ∷ stargates msgs
stargates (m ∷ msgs) = stargates msgs

stargates-to_cosmos : (batch : List StargateMsg) → stargates (map to_cosmos batch) ≡ batch
stargates-to_cosmos [] = refl
stargates-to_cosmos (m ∷ batch) = ap (λ l. m ∷ l) (stargates-to_cosmos batch)

module _ {S : Type 0} (X : Extra S) where
  abbrev pub routed : Simulator S
  routed = record {
    Contract = Text;
    execute_multi = λ sender msgs. atomic (each (X.execute sender) (stargates msgs));
    sudo_mint = λ to coins s. (ok default_response, s);
    store_code = λ c s. (1, s);
    random_address = λ n. codes "acc";
    recode = ok;
  }

  routes :
      (sender : Text) (batch : List StargateMsg) (s : S)
      → routed.execute_multi sender (map to_cosmos batch) s
        ≡ atomic (each (execute small_requests (some X) sender) batch) s
  unfolding atomic
  routes sender batch s =
      rw
        (
          stargates-to_cosmos batch,
          each-execute (app_on routed) wire small_requests X sender batch s,
        )
        refl

  pub routed-IsRouting : IsRouting (app_on routed) small_requests (some X)
  routed-IsRouting = record { recodes = λ m. refl; routes = routes }
