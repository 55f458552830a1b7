-- ===== src/Astroport/Setup/Wiring.antt =====
-- What a deployment did: the calls that it made, written down from the record that it returns.
use cw_it.Base.{ℕ, ◌≡◌, ◌↔◌, refl, subst, ap, some, List, [], ◌∷◌, arith, bytes_eq}
use cw_it.Text.{Text, codes}
use cw_it.Chain.{Coin, Event, ok, Action, pure, ok-cancel}
use cw_it.Chain.Seq.{>>=-inv, >>=-ok, unwrap-inv, unwrap-ok}
use cw_it.Client.{Account, Wasm}
use cw_it.Astroport.Types.{InstantiateMsg, ExecuteMsg, AstroportContracts}
use cw_it.Astroport.Setup.{
  token_msg, factory_msg, incentives_msg, generator_msg, maker_msg, register_msg, call,
  instantiate_astroport,
}
use cw_it.Astroport.Setup.Calls.{Call, instantiated, executed, astro_created, deployment}
use cw_it.Astroport.Setup.Steps.{
  HasId, HasPairIds, code_id-inv, code_id-ok, deploy-inv, deploy-ok, deploy_factory-inv,
  deploy_factory-ok,
}

module _ (code_ids : List (Text × ℕ)) where
  -- The code ids of the record are those of the map.
  pub record HasIds (c : AstroportContracts) (concentrated : ℕ) : Type 0 where
    pub token : HasId code_ids "astroport_token" c.astro_cw20_token.code_id
    pub registry : HasId code_ids "astroport_native_coin_registry" c.coin_registry.code_id
    pub pair : HasId code_ids "astroport_pair" c.pair.code_id
    pub pair_stable : HasId code_ids "astroport_pair_stable" c.pair_stable.code_id
    pub pair_concentrated : HasId code_ids "astroport_pair_concentrated" concentrated
    pub factory : HasId code_ids "astroport_factory" c.factory.code_id
    pub vesting : HasId code_ids "astroport_vesting" c.vesting.code_id
    pub incentives : HasId code_ids "astroport_incentives" c.incentives.code_id
    pub router : HasId code_ids "astroport_router" c.router.code_id
    pub maker : HasId code_ids "astroport_maker" c.maker.code_id

module _ {S : Type 0} (W : Wasm S InstantiateMsg ExecuteMsg) (admin : Account)
    (create_astro : Action S Text) where
  -- The call leads from one state to the other, with the answer that it names.
  abbrev pub Performed : Call → S → S → Type 0
  Performed (instantiated id msg label address) s t =
      W.instantiate id msg (some admin.address) (some label) [] admin s ≡ (ok address, t)
  Performed (executed contract msg funds) s t =
      (events : List Event) × (W.execute contract msg funds admin s ≡ (ok events, t))
  Performed (astro_created denom) s t = create_astro s ≡ (ok denom, t)

  abbrev pub Performs : List Call → S → S → Type 0
  Performs [] s t = s ≡ t
  Performs (c ∷ cs) s t = (u : S) × Performed c s u × Performs cs u t

  call-inv :
      (contract : Text) (msg : ExecuteMsg) (funds : List Coin) (s : S) {events : List Event} {t : S}
      → call W admin contract msg funds s ≡ (ok events, t)
      → W.execute contract msg funds admin s ≡ (ok events, t)
  unfolding call
  call-inv contract msg funds s h = unwrap-inv _ _ h

  call-ok :
      (contract : Text) (msg : ExecuteMsg) (funds : List Coin) (s : S) {events : List Event} {t : S}
      → W.execute contract msg funds admin s ≡ (ok events, t)
      → call W admin contract msg funds s ≡ (ok events, t)
  unfolding call
  call-ok contract msg funds s h = unwrap-ok _ _ h

  module _ (code_ids : List (Text × ℕ)) (default_coin_denom : Text) where
    -- The deployment with the record `c` from `s` to `t`.
    abbrev pub Deploys : AstroportContracts → S → S → Type 0
    Deploys c s t =
        (concentrated : ℕ) × HasIds code_ids c concentrated
        × Performs (deployment default_coin_denom admin c concentrated) s t
        × (c.pair.address ≡ codes "")
        × (c.pair_stable.address ≡ codes "")

    returned :
        (s u t : S) (c d : AstroportContracts)
        → pure d u ≡ (ok c, t)
        → Deploys d s u
        → Deploys c s t
    returned s u t c d h deployed =
        subst (λ x. Deploys x s t) (ok-cancel (ap (λ r. r.0) h))
          (subst (λ x. Deploys d s x) (ap (λ r. r.1) h) deployed)

    instantiate_astroport-inv :
        (s : S) {c : AstroportContracts} {t : S}
        → instantiate_astroport W admin code_ids default_coin_denom create_astro s ≡ (ok c, t)
        → Deploys c s t
    unfolding instantiate_astroport token_msg factory_msg incentives_msg generator_msg maker_msg
        register_msg
    instantiate_astroport-inv s h = >>=-inv _ _ _ h λ token s1 h1 h.
        >>=-inv _ _ _ h λ registry s2 h2 h. >>=-inv _ _ _ h λ fact s3 h3 h.
          >>=-inv _ _ _ h λ denom s4 d4 h. >>=-inv _ _ _ h λ vest s5 h5 h.
            >>=-inv _ _ _ h λ incent s6 h6 h. >>=-inv _ _ _ h λ events s7 d7 h.
              >>=-inv _ _ _ h λ rout s8 h8 h. >>=-inv _ _ _ h λ make s9 h9 h.
                >>=-inv _ _ _ h λ events' s10 d10 h.
                  code_id-inv W admin code_ids _ _ _ h λ pair_stable ps_id h.
                    code_id-inv W admin code_ids _ _ _ h λ pair p_id h.
                      let (token_id, d1) = deploy-inv _ _ _ _ _ _ _ h1 in
                      let (registry_id, d2) = deploy-inv _ _ _ _ _ _ _ h2 in
                      let (conc, ids, fact_id, d3) =
                        deploy_factory-inv _ _ _ _ _ _ _ _ token_id p_id ps_id h3 in
                      let (vest_id, d5) = deploy-inv _ _ _ _ _ _ _ h5 in
                      let (incent_id, d6) = deploy-inv _ _ _ _ _ _ _ h6 in
                      let (rout_id, d8) = deploy-inv _ _ _ _ _ _ _ h8 in
                      let (make_id, d9) = deploy-inv _ _ _ _ _ _ _ h9 in
                      returned _ _ _ _ _ h (
                        conc,
                        record {
                          token = token_id;
                          registry = registry_id;
                          pair = p_id;
                          pair_stable = ps_id;
                          pair_concentrated = ids.concentrated_known;
                          factory = fact_id;
                          vesting = vest_id;
                          incentives = incent_id;
                          router = rout_id;
                          maker = make_id;
                        },
                        (
                          s1,
                          d1,
                          (
                            s2,
                            d2,
                            (
                              s3,
                              d3,
                              (
                                s4,
                                d4,
                                (
                                  s5,
                                  d5,
                                  (
                                    s6,
                                    d6,
                                    (
                                      s7,
                                      (events, call-inv _ _ _ _ d7),
                                      (
                                        s8,
                                        d8,
                                        (s9, d9, (s10, (events', call-inv _ _ _ _ d10), refl)),
                                      ),
                                    ),
                                  ),
                                ),
                              ),
                            ),
                          ),
                        ),
                        refl,
                        refl,
                      )

    instantiate_astroport-ok :
        (s : S) {c : AstroportContracts} {t : S}
        → Deploys c s t
        → instantiate_astroport W admin code_ids default_coin_denom create_astro s ≡ (ok c, t)
    unfolding instantiate_astroport token_msg factory_msg incentives_msg generator_msg maker_msg
        register_msg
    instantiate_astroport-ok s {c} {t}
          (
            conc,
            ids,
            (
              s1,
              d1,
              (
                s2,
                d2,
                (
                  s3,
                  d3,
                  (
                    s4,
                    d4,
                    (s5, d5, (s6, d6, (s7, (_, d7), (s8, d8, (s9, d9, (s10, (_, d10), same)))))),
                  ),
                ),
              ),
            ),
            no_pair,
            no_stable,
          ) =
        >>=-ok _ _ _ (deploy-ok _ _ _ _ _ _ _ ids.token d1) (
          >>=-ok _ _ _ (deploy-ok _ _ _ _ _ _ _ ids.registry d2) (
            >>=-ok _ _ _ (deploy_factory-ok _ _ _ _ _ known ids.factory d3) (
              >>=-ok _ _ _ d4 (
                >>=-ok _ _ _ (deploy-ok _ _ _ _ _ _ _ ids.vesting d5) (
                  >>=-ok _ _ _ (deploy-ok _ _ _ _ _ _ _ ids.incentives d6) (
                    >>=-ok _ _ _ (call-ok _ _ _ _ d7) (
                      >>=-ok _ _ _ (deploy-ok _ _ _ _ _ _ _ ids.router d8) (
                        >>=-ok _ _ _ (deploy-ok _ _ _ _ _ _ _ ids.maker d9) (
                          >>=-ok _ _ _ (call-ok _ _ _ _ d10) (
                            >>=-ok _ _ _ (code_id-ok W admin code_ids _ _ ids.pair_stable) (
                              >>=-ok _ _ _ (code_id-ok W admin code_ids _ _ ids.pair)
                                (ground arith))))))))))))
      where
        known :
            HasPairIds code_ids c.astro_cw20_token.code_id c.pair.code_id c.pair_stable.code_id conc
        known = record {
          token_known = ids.token;
          pair_known = ids.pair;
          stable_known = ids.pair_stable;
          concentrated_known = ids.pair_concentrated;
        }

    -- `instantiate_astroport` returns the record `c` and ends in the state `t` exactly if the code
    -- ids in `c` are those that the map holds for the contracts' names, that of the concentrated
    -- pair is there too, the calls of the deployment succeed one after the other and lead from the
    -- first state to `t`, and the addresses of the two pairs are empty. In these calls each contract
    -- is given the addresses that the earlier calls returned, which are those in `c`.
    pub instantiate_astroport_succeeds_iff :
        (s : S) (c : AstroportContracts) (t : S)
        → (instantiate_astroport W admin code_ids default_coin_denom create_astro s ≡ (ok c, t))
          ↔ Deploys c s t
    instantiate_astroport_succeeds_iff s c t =
        (instantiate_astroport-inv s, instantiate_astroport-ok s)
