-- ===== src/Astroport/Artifacts/Ready.antt =====
-- Setting up astroport on the multi-test app ends well if every call does.
use cw_it.Base.{ℕ, ◌≡◌, refl, some, List, [], ◌∷◌, bytes_eq}
use cw_it.Text.{Text, codes}
use cw_it.Chain.{Coin, Event, ok, Action}
use cw_it.Chain.Seq.{>>=-ok, unwrap-ok}
use cw_it.Client.{Account, Wasm}
use cw_it.Helpers.{final_name}
use cw_it.Helpers.Uploads.{AlwaysStores, upload_wasm_files-total}
use cw_it.Astroport.Types.{
  native_token, InstantiateMsg, coin_registry_init, vesting_init, router_init, ExecuteMsg,
  AstroportContracts,
}
use cw_it.Astroport.Setup.{
  token_msg, factory_msg, incentives_msg, generator_msg, maker_msg, register_msg, vesting_amount,
  instantiate_astroport,
}
use cw_it.Astroport.Setup.Steps.{HasId}
use cw_it.Astroport.Setup.Wiring.{instantiate_astroport_succeeds_iff}
use cw_it.Astroport.Artifacts.{LocalContract, get_astroport_multitest_contracts, setup_astroport}

module _ {S : Type 0} (W : Wasm S InstantiateMsg ExecuteMsg) (admin : Account)
    (create_astro : Action S Text) where
  -- Every call of the clients by the admin succeeds.
  pub record AlwaysAnswers : Type 0 where
    pub instantiates :
        (id : ℕ) (msg : InstantiateMsg) (label : Text) (s : S)
        → (address : Text) × (t : S) × (W.instantiate id msg
              (some admin.address)
              (some label)
              []
              admin
              s
            ≡ (ok address, t))
    pub executes :
        (contract : Text) (msg : ExecuteMsg) (funds : List Coin) (s : S)
        → (events : List Event) × (t : S) × (W.execute contract msg funds admin s ≡ (ok events, t))
    pub creates : (s : S) → (denom : Text) × (t : S) × (create_astro s ≡ (ok denom, t))

  module _ (code_ids : List (Text × ℕ)) (default_coin_denom : Text) (ready : AlwaysAnswers) where
    instantiate_astroport-total :
        (token registry pair pair_stable concentrated factory vesting incentives router maker : ℕ)
        (s : S)
        → HasId code_ids "astroport_token" token
        → HasId code_ids "astroport_native_coin_registry" registry
        → HasId code_ids "astroport_pair" pair
        → HasId code_ids "astroport_pair_stable" pair_stable
        → HasId code_ids "astroport_pair_concentrated" concentrated
        → HasId code_ids "astroport_factory" factory
        → HasId code_ids "astroport_vesting" vesting
        → HasId code_ids "astroport_incentives" incentives
        → HasId code_ids "astroport_router" router
        → HasId code_ids "astroport_maker" maker
        → (c : AstroportContracts) × (t : S) × (instantiate_astroport W admin code_ids
              default_coin_denom create_astro s
            ≡ (ok c, t))
    unfolding token_msg factory_msg incentives_msg generator_msg maker_msg register_msg
    instantiate_astroport-total token registry pair pair_stable concentrated factory vesting
          incentives router maker s k1 k2 k3 k4 k5 k6 k7 k8 k9 k10 =
        let (a1, s1, d1) = ready.instantiates token (token_msg admin) (codes "Astro Token") s in
        let (a2, s2, d2) =
          ready.instantiates registry (coin_registry_init admin.address) (codes "Coin Registry")
            s1 in
        let (a3, s3, d3) =
          ready.instantiates factory (factory_msg admin a2 pair pair_stable concentrated token)
            (codes "Astroport Factory") s2 in
        let (denom, s4, d4) = ready.creates s3 in
        let (a5, s5, d5) =
          ready.instantiates vesting (vesting_init admin.address (native_token denom))
            (codes "Astroport Vesting") s4 in
        let (a6, s6, d6) =
          ready.instantiates incentives (incentives_msg admin a3 denom a5)
            (codes "Astroport Incentives") s5 in
        let (events, s7, d7) = ready.executes a3 (generator_msg a6) [] s6 in
        let (a8, s8, d8) =
          ready.instantiates router (router_init a3) (codes "Astroport Router") s7 in
        let (a9, s9, d9) =
          ready.instantiates maker (maker_msg default_coin_denom admin a3 denom)
            (codes "Astroport Maker") s8 in
        let (events', s10, d10) =
          ready.executes a5 (register_msg a6)
            (record { denom = denom; amount = vesting_amount } ∷ []) s9 in
        let c : AstroportContracts = record {
          factory = record { address = a3; code_id = factory };
          coin_registry = record { address = a2; code_id = registry };
          astro_cw20_token = record { address = a1; code_id = token };
          maker = record { address = a9; code_id = maker };
          pair_stable = record { address = codes ""; code_id = pair_stable };
          pair = record { address = codes ""; code_id = pair };
          router = record { address = a8; code_id = router };
          vesting = record { address = a5; code_id = vesting };
          incentives = record { address = a6; code_id = incentives };
          astro_native_denom = denom;
        } in
        (
          c,
          s10,
          (instantiate_astroport_succeeds_iff W admin create_astro code_ids default_coin_denom s c
                s10).1
              (
                concentrated,
                record {
                  token = k1;
                  registry = k2;
                  pair = k3;
                  pair_stable = k4;
                  pair_concentrated = k5;
                  factory = k6;
                  vesting = k7;
                  incentives = k8;
                  router = k9;
                  maker = k10;
                },
                (
                  s1,
                  d1,
                  (
                    s2,
                    d2,
                    (
                      s3,
                      d3,
                      (
                        s4,
                        d4,
                        (
                          s5,
                          d5,
                          (
                            s6,
                            d6,
                            (s7, (events, d7), (s8, d8, (s9, d9, (s10, (events', d10), refl)))),
                          ),
                        ),
                      ),
                    ),
                  ),
                ),
                refl,
                refl,
              ),
        )

module _ {S C : Type 0} (W : Wasm S InstantiateMsg ExecuteMsg)
    (store_code : LocalContract C → Account → Action S ℕ) (default_coin_denom : Text)
    (create_astro : Account → Action S Text) (wrapper : Text → C) where
  -- If every upload of the admin, every call of the clients and every creation of the astro token
  -- succeed, then setting up the contracts of the multi-test app succeeds from every state, for the
  -- name of no contract is missing among the code ids. The chain's feature is not that of Coreum.
  pub setup_multitest_succeeds :
      (admin : Account) (s : S)
      → AlwaysStores store_code (codes "") admin
      → AlwaysAnswers W admin (create_astro admin)
      → (c : AstroportContracts) × (t : S) × (setup_astroport W store_code
            (codes "")
            default_coin_denom
            create_astro
            (get_astroport_multitest_contracts wrapper)
            admin
            s
          ≡ (ok c, t))
  unfolding setup_astroport get_astroport_multitest_contracts final_name bytes_eq
  setup_multitest_succeeds admin s stores ready =
      let (ids, u, uploaded, keys) =
        upload_wasm_files-total store_code (codes "") admin
          (get_astroport_multitest_contracts wrapper) s stores in
      let (token, k1) = keys (codes "astroport_token") refl in
      let (registry, k2) = keys (codes "astroport_native_coin_registry") refl in
      let (pair, k3) = keys (codes "astroport_pair") refl in
      let (pair_stable, k4) = keys (codes "astroport_pair_stable") refl in
      let (concentrated, k5) = keys (codes "astroport_pair_concentrated") refl in
      let (factory, k6) = keys (codes "astroport_factory") refl in
      let (vesting, k7) = keys (codes "astroport_vesting") refl in
      let (incentives, k8) = keys (codes "astroport_incentives") refl in
      let (router, k9) = keys (codes "astroport_router") refl in
      let (maker, k10) = keys (codes "astroport_maker") refl in
      let (c, t, made) =
        instantiate_astroport-total W admin (create_astro admin) ids default_coin_denom ready token
          registry pair pair_stable concentrated factory vesting incentives router maker u k1 k2 k3
          k4 k5 k6 k7 k8 k9 k10 in
      (c, t, >>=-ok _ _ _ (unwrap-ok _ _ uploaded) made)
