-- ===== src/Astroport/Artifacts.antt =====
-- Where the code of the astroport contracts comes from, and setting them up from it.
pub mod Ready
use cw_it.Base.{
  ℕ, Bool, true, false, Option, none, some, List, [], ◌∷◌, ◌++◌, map, if◌then◌else◌, unwrap_or,
}
use cw_it.Text.{Text, codes}
use cw_it.Chain.{Action, pure, unwrap}
use cw_it.Chain.Seq.{◌>>=◌, ◌>>◌}
use cw_it.Client.{Account, Wasm}
use cw_it.Helpers.{upload_wasm_files}
use cw_it.TestRunner.Types.{TestRunner, multi_test}
use cw_it.Astroport.Types.{InstantiateMsg, ExecuteMsg, AstroportContracts}
use cw_it.Astroport.Setup.{instantiate_astroport}

-- `ASTROPORT_CONTRACT_NAMES`
unfoldable pub astroport_contract_names : List Text
astroport_contract_names =
    codes "astroport_token"
    ∷ codes "astroport_native_coin_registry"
    ∷ codes "astroport_factory"
    ∷ codes "astroport_maker"
    ∷ codes "astroport_pair_stable"
    ∷ codes "astroport_pair"
    ∷ codes "astroport_router"
    ∷ codes "astroport_vesting"
    ∷ codes "astroport_pair_concentrated"
    ∷ codes "astroport_incentives"
    ∷ codes "astroport_tokenfactory_tracker"
    ∷ []

-- The same with the feature of Coreum.
unfoldable pub coreum_contract_names : List Text
coreum_contract_names =
    codes "astroport_token"
    ∷ codes "astroport_native_coin_registry"
    ∷ codes "astroport_factory-coreum"
    ∷ codes "astroport_maker-coreum"
    ∷ codes "astroport_pair_stable-coreum"
    ∷ codes "astroport_pair-coreum"
    ∷ codes "astroport_router-coreum"
    ∷ codes "astroport_vesting-coreum"
    ∷ codes "astroport_pair_concentrated-coreum"
    ∷ codes "astroport_incentives-coreum"
    ∷ codes "astroport_tokenfactory_tracker"
    ∷ []

-- The last argument is `std::env::consts::ARCH`.
unfoldable pub get_wasm_path : Text → Option Text → Bool → Option Text → Text → Text
get_wasm_path name path append_arch arch host_arch =
    let file =
      if append_arch
      then name ++ codes "-" ++ unwrap_or arch host_arch ++ codes ".wasm"
      else name ++ codes ".wasm" in
    unwrap_or path (codes "artifacts") ++ codes "/" ++ file

-- A contract of the multi-test app, or the path of a local artifact.
pub data LocalContract (C : Type 0) : Type 0 where
  multi_test_contract : C → LocalContract C
  local_artifact : Text → LocalContract C

module _ (names : List Text) (path : Option Text) (append_arch : Bool) (arch : Option Text)
    (host_arch : Text) where
  unfoldable pub get_local_artifacts : List (Text × Text)
  get_local_artifacts =
      map (λ name. (name, get_wasm_path name path append_arch arch host_arch)) names

-- The wrapped contracts, which are code outside this repository, by their names.
unfoldable pub get_astroport_multitest_contracts :
    {C : Type 0} → (Text → C) → List (Text × LocalContract C)
get_astroport_multitest_contracts wrapper =
    map (λ name. (name, multi_test_contract (wrapper name)))
      (codes "astroport_native_coin_registry"
        ∷ codes "astroport_maker"
        ∷ codes "astroport_token"
        ∷ codes "astroport_vesting"
        ∷ codes "astroport_factory"
        ∷ codes "astroport_pair_stable"
        ∷ codes "astroport_pair"
        ∷ codes "astroport_router"
        ∷ codes "astroport_pair_concentrated"
        ∷ codes "astroport_incentives"
        ∷ [])

module _ {O R M N C : Type 0} (wrapper : Text → C) (names : List Text) where
  -- With the contracts of the multi-test app only on that app.
  unfoldable pub get_local_contracts :
      TestRunner O R M N → Option Text → Bool → Option Text → Text → List (Text × LocalContract C)
  get_local_contracts (multi_test runner) path append_arch arch host_arch =
      get_astroport_multitest_contracts wrapper
  get_local_contracts _ path append_arch arch host_arch =
      map (λ (name, artifact). (name, local_artifact artifact))
        (get_local_artifacts names path append_arch arch host_arch)

module _ {S C : Type 0} (W : Wasm S InstantiateMsg ExecuteMsg)
    (store_code : C → Account → Action S ℕ) (replace_artifact_name default_coin_denom : Text)
    (create_astro : Account → Action S Text) where
  unfoldable pub setup_astroport : List (Text × C) → Account → Action S AstroportContracts
  setup_astroport contracts admin = do
    code_ids ← unwrap (upload_wasm_files store_code replace_artifact_name admin contracts)
    instantiate_astroport W admin code_ids default_coin_denom (create_astro admin)

  -- `AstroportContracts::new_from_local_contracts`, on the runner that was chosen.
  module _ {O R M N D : Type 0} (wrapper : Text → D) (names : List Text)
      (as_contract : LocalContract D → C) (host_arch : Text) where
    unfoldable pub new_from_local_contracts :
        TestRunner O R M N
        → Option Text
        → Bool
        → Option Text
        → Account
        → Action S AstroportContracts
    new_from_local_contracts runner path append_arch arch signer =
        setup_astroport
          (map (λ (name, contract). (name, as_contract contract))
            (get_local_contracts wrapper names runner path append_arch arch host_arch))
          signer

-- The robot that the crate offers: its runner and the deployment.
pub record DefaultAstroportRobot (Runner : Type 0) : Type 0 where
  pub runner : Runner
  pub astroport_contracts : AstroportContracts

-- `DefaultAstroportRobot::instantiate`, by the uploading and instantiating of the contracts.
unfoldable pub instantiate :
    {S C Runner : Type 0}
    → (List (Text × C) → Account → Action S AstroportContracts)
    → Runner
    → Account
    → List (Text × C)
    → Action S (DefaultAstroportRobot Runner)
instantiate setup runner admin contract_map = do
  astroport_contracts ← setup contract_map admin
  pure (record { runner = runner; astroport_contracts = astroport_contracts })
