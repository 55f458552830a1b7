-- ===== src/Astroport/Setup/Steps.antt =====
-- The steps of a deployment taken apart: a step succeeds as its lookups and its call do.
use cw_it.Base.{
  ℕ, ◌≡◌, refl, ◌∙◌, sym, some, List, [], String, arith, bytes_eq, Option-cases, inl, inr,
  some-cancel,
}
use cw_it.Text.{Text, codes}
use cw_it.Chain.{ok, Action, find}
use cw_it.Chain.Seq.{◌>>=◌, >>=-inv, >>=-ok, unwrap-inv, unwrap-ok}
use cw_it.Client.{Account, Wasm}
use cw_it.Astroport.Types.{InstantiateMsg, ExecuteMsg, Contract}
use cw_it.Astroport.Setup.{code_id, factory_msg, deploy, deploy_factory}

module _ (code_ids : List (Text × ℕ)) where
  abbrev pub HasId : String → ℕ → Type 0
  HasId name id = find (codes name) code_ids ≡ some id

  HasId-unique : (name : String) {i j : ℕ} → HasId name i → HasId name j → i ≡ j
  HasId-unique name p q = some-cancel (sym p ∙ q)

  -- The ids that the factory is given.
  pub record HasPairIds (token pair pair_stable pair_concentrated : ℕ) : Type 0 where
    pub token_known : HasId "astroport_token" token
    pub pair_known : HasId "astroport_pair" pair
    pub stable_known : HasId "astroport_pair_stable" pair_stable
    pub concentrated_known : HasId "astroport_pair_concentrated" pair_concentrated

module _ {S : Type 0} (W : Wasm S InstantiateMsg ExecuteMsg) (admin : Account)
    (code_ids : List (Text × ℕ)) where
  pub code_id-inv :
      {B : Type 0} (name : String) (k : ℕ → Action S B) (s : S) {b : B} {t : S} {G : Type 0}
      → (code_id code_ids name >>= k) s ≡ (ok b, t)
      → ((id : ℕ) → HasId code_ids name id → k id s ≡ (ok b, t) → G)
      → G
  unfolding code_id ◌>>=◌ bytes_eq
  code_id-inv name k s h goal = elim (Option-cases (find (codes name) code_ids)) [
    | inl e ↦ absurd (ground arith)
    | inr (i, e) ↦ goal i e (ground arith)
  ]

  pub code_id-ok :
      (name : String) (s : S) {id : ℕ}
      → HasId code_ids name id
      → code_id code_ids name s ≡ (ok id, s)
  unfolding code_id bytes_eq
  code_id-ok name s h = ground arith

  pub deploy-inv :
      (name label : String) (msg : InstantiateMsg) (s : S) {c : Contract} {t : S}
      → deploy W admin code_ids name label msg s ≡ (ok c, t)
      → HasId code_ids name c.code_id
        × (W.instantiate c.code_id msg (some admin.address) (some (codes label)) [] admin s
            ≡ (ok c.address, t))
  unfolding deploy
  deploy-inv name label msg s h = code_id-inv _ _ _ h λ id known h.
      >>=-inv _ _ _ h
        λ address u made h. let made = unwrap-inv _ _ made in (ground arith, ground arith)

  pub deploy-ok :
      (name label : String) (msg : InstantiateMsg) (s : S) {c : Contract} {t : S}
      → HasId code_ids name c.code_id
      → W.instantiate c.code_id msg (some admin.address) (some (codes label)) [] admin s
        ≡ (ok c.address, t)
      → deploy W admin code_ids name label msg s ≡ (ok c, t)
  unfolding deploy
  deploy-ok name label msg s known made =
      >>=-ok _ _ _ (code_id-ok name s known) (>>=-ok _ _ _ (unwrap-ok _ _ made) refl)

  -- Where three of the ids that the factory is given are known, it is given those.
  pub deploy_factory-inv :
      (registry : Text) (s : S) (token pair pair_stable : ℕ) {c : Contract} {t : S}
      → HasId code_ids "astroport_token" token
      → HasId code_ids "astroport_pair" pair
      → HasId code_ids "astroport_pair_stable" pair_stable
      → deploy_factory W admin code_ids registry s ≡ (ok c, t)
      → (concentrated : ℕ) × HasPairIds code_ids token pair pair_stable concentrated
        × HasId code_ids "astroport_factory" c.code_id
        × (W.instantiate c.code_id
              (factory_msg admin registry pair pair_stable concentrated token)
              (some admin.address)
              (some (codes "Astroport Factory"))
              []
              admin
              s
            ≡ (ok c.address, t))
  unfolding deploy_factory
  deploy_factory-inv registry s token pair pair_stable k p q h = code_id-inv _ _ _ h λ pair' p' h.
      code_id-inv _ _ _ h λ pair_stable' q' h. code_id-inv _ _ _ h λ concentrated c h.
        code_id-inv _ _ _ h λ token' k' h.
          let (f, made) = deploy-inv _ _ _ _ h in
          (
            concentrated,
            record { token_known = k; pair_known = p; stable_known = q; concentrated_known = c },
            f,
            rw
                (
                  HasId-unique code_ids "astroport_pair" p p',
                  HasId-unique code_ids "astroport_pair_stable" q q',
                  HasId-unique code_ids "astroport_token" k k',
                )
                made,
          )

  pub deploy_factory-ok :
      (registry : Text) (s : S) {c : Contract} {t : S} {token pair pair_stable concentrated : ℕ}
      → HasPairIds code_ids token pair pair_stable concentrated
      → HasId code_ids "astroport_factory" c.code_id
      → W.instantiate c.code_id
          (factory_msg admin registry pair pair_stable concentrated token)
          (some admin.address)
          (some (codes "Astroport Factory"))
          []
          admin
          s
        ≡ (ok c.address, t)
      → deploy_factory W admin code_ids registry s ≡ (ok c, t)
  unfolding deploy_factory
  deploy_factory-ok registry s known f made = >>=-ok _ _ _ (code_id-ok _ _ known.pair_known) (
      >>=-ok _ _ _ (code_id-ok _ _ known.stable_known) (
        >>=-ok _ _ _ (code_id-ok _ _ known.concentrated_known)
          (>>=-ok _ _ _ (code_id-ok _ _ known.token_known) (deploy-ok _ _ _ _ f made))))
