-- ===== src/Tests/Deployments.antt =====
-- Uploads, the deployment of astroport and pairs on small clients.
use cw_it.Base.{ℕ, suc, ◌≡◌, ◌↔◌, refl, List, [], ◌∷◌, ◌++◌, bytes_eq, nat_eq}
use cw_it.Text.{Text, codes, print_u128}
use cw_it.Text.Order.{starts_with}
use cw_it.Chain.{ok, Action, unwrap}
use cw_it.Chain.Seq.{◌>>=◌}
use cw_it.Client.{Account, Wasm, custom}
use cw_it.Helpers.{upload_wasm_files, upload_into, upload_wasm_file, final_name, insert}
use cw_it.Helpers.Uploads.{Stores, Holds, HaveDifferentNames, upload_wasm_files-Holds}
use cw_it.Astroport.{InstantiateMsg, ExecuteMsg, AstroportContracts}
use cw_it.Astroport.Setup.{instantiate_astroport, deploy_factory, deploy, call, code_id}
use cw_it.Astroport.Setup.Wiring.{Deploys, instantiate_astroport_succeeds_iff}
use cw_it.Astroport.Artifacts.{get_astroport_multitest_contracts, setup_astroport}
use cw_it.Astroport.Artifacts.Ready.{setup_multitest_succeeds}
use cw_it.Tests.Samples.{alice}

-- A chain that counts its calls; the n-th contract has the address `contract{n}`.
abbrev pub counting : Wasm ℕ InstantiateMsg ExecuteMsg
counting = record {
  instantiate = λ id msg admin label funds signer n. (ok (codes "contract" ++ print_u128 n), suc n);
  execute = λ contract msg funds signer n. (ok [], suc n);
}

abbrev pub admin : Account
admin = record {
  address = alice;
  prefix = codes "osmo";
  fee_setting = custom (record { denom = codes "uosmo"; amount = 1 }) 2;
}

abbrev new_astro : Action ℕ Text
new_astro n = (ok (codes "factory/alice/astro"), suc n)

abbrev ids : List (Text × ℕ)
ids =
    (codes "astroport_token", 1)
    ∷ (codes "astroport_native_coin_registry", 2)
    ∷ (codes "astroport_factory", 3)
    ∷ (codes "astroport_maker", 4)
    ∷ (codes "astroport_pair_stable", 5)
    ∷ (codes "astroport_pair", 6)
    ∷ (codes "astroport_router", 7)
    ∷ (codes "astroport_vesting", 8)
    ∷ (codes "astroport_pair_concentrated", 9)
    ∷ (codes "astroport_incentives", 10)
    ∷ []

abbrev deployed : AstroportContracts
deployed = record {
  factory = record { address = codes "contract2"; code_id = 3 };
  coin_registry = record { address = codes "contract1"; code_id = 2 };
  astro_cw20_token = record { address = codes "contract0"; code_id = 1 };
  maker = record { address = codes "contract8"; code_id = 4 };
  pair_stable = record { address = codes ""; code_id = 5 };
  pair = record { address = codes ""; code_id = 6 };
  router = record { address = codes "contract7"; code_id = 7 };
  vesting = record { address = codes "contract4"; code_id = 8 };
  incentives = record { address = codes "contract5"; code_id = 10 };
  astro_native_denom = codes "factory/alice/astro";
}

instantiate_test :
    instantiate_astroport counting admin ids (codes "uosmo") new_astro 0 ≡ (ok deployed, 10)
unfolding instantiate_astroport deploy_factory deploy call code_id unwrap ◌>>=◌ bytes_eq print_u128
instantiate_test = refl

instantiate_astroport_succeeds_iff_example :
    (instantiate_astroport counting admin ids (codes "uosmo") new_astro 0 ≡ (ok deployed, 10))
    ↔ Deploys counting admin new_astro ids (codes "uosmo") deployed 0 10
instantiate_astroport_succeeds_iff_example =
    instantiate_astroport_succeeds_iff counting admin new_astro ids (codes "uosmo") 0 deployed 10

abbrev store_next : {C : Type 0} → C → Account → Action ℕ ℕ
store_next c signer n = (ok n, suc n)

setup_multitest_succeeds_example :
    (c : AstroportContracts) × (t : ℕ) × (setup_astroport counting store_next
        (codes "")
        (codes "uosmo")
        (λ _. new_astro)
        (get_astroport_multitest_contracts (λ name. name))
        admin
        5
      ≡ (ok c, t))
setup_multitest_succeeds_example =
    setup_multitest_succeeds counting store_next (codes "uosmo") (λ _. new_astro) (λ name. name)
      admin 5 (λ c n. (n, suc n, refl))
      (record {
        instantiates = λ id msg label n. (codes "contract" ++ print_u128 n, suc n, refl);
        executes = λ contract msg funds n. ([], suc n, refl);
        creates = λ n. (codes "factory/alice/astro", suc n, refl);
      })

-- With the feature of Coreum, "-coreum" is cut out of the names.
abbrev two_contracts : List (Text × ℕ)
two_contracts = (codes "astroport_pair-coreum", 0) ∷ (codes "astroport_token", 0) ∷ []

abbrev two_ids : List (Text × ℕ)
two_ids = (codes "astroport_pair", 7) ∷ (codes "astroport_token", 8) ∷ []

upload_test : upload_wasm_files store_next (codes "-coreum") admin two_contracts 7 ≡ (ok two_ids, 9)
unfolding upload_wasm_files upload_into upload_wasm_file final_name insert ◌>>=◌ bytes_eq
    starts_with
upload_test = refl

different_names : HaveDifferentNames store_next (codes "-coreum") admin two_contracts
unfolding final_name bytes_eq starts_with
different_names = (refl, (refl, tt))

upload_wasm_files-Holds_example :
    (l : List ℕ) × Stores store_next (codes "-coreum") admin two_contracts l 7 9
    × Holds store_next (codes "-coreum") admin two_contracts l two_ids
upload_wasm_files-Holds_example =
    upload_wasm_files-Holds store_next (codes "-coreum") admin two_contracts 7 two_ids 9 upload_test
      different_names
