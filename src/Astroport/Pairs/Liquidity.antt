-- ===== src/Astroport/Pairs/Liquidity.antt =====
-- What providing liquidity does: the allowances of the tokens in order, then one call with the
-- native coins sorted by their denoms.
use cw_it.Base.{
  ℕ, ◌+◌, ◌≡◌, ◌↔◌, refl, ap, sym, ◌∙◌, subst, Bool, true, false, none, List, [], ◌∷◌, ◌++◌,
  append_assoc, append-nil, arith, inl, inr, ◌⊎◌,
}
use mathlib.Core.List.{Perm}
use cw_it.Text.{Text}
use cw_it.Text.Order.{sort_by_key, IsSortedBy, sort_by_key-IsSortedBy, sort_by_key-perm}
use cw_it.Chain.{Coin, Event, Result, ok, ask, unwrap, ok-cancel}
use cw_it.Chain.Seq.{◌>>◌, >>=-inv, >>=-ok, unwrap-inv, unwrap-ok}
use cw_it.Client.{Account, Wasm, Bank}
use cw_it.Astroport.Types.{
  AssetInfo, token, native_token, Asset, InstantiateMsg, ExecuteMsg, increase_allowance, Queries,
}
use cw_it.Astroport.Setup.{call}
use cw_it.Astroport.Pairs
use cw_it.Astroport.Pairs.{
  collect_funds, liquidity_msg, lp_balance, get_lp_token_balance, sub_u128, parsed,
}
use cw_it.Astroport.Robot

-- The native assets as coins, and the tokens with their amounts.
abbrev pub natives : List Asset → List Coin
natives [] = []
natives (asset ∷ assets) =
    let rest = natives assets in
    elim asset.info [
      | token contract_addr ↦ rest
      | native_token denom ↦ record { denom = denom; amount = asset.amount } ∷ rest
    ]

abbrev pub tokens : List Asset → List (Text × ℕ)
tokens [] = []
tokens (asset ∷ assets) =
    let rest = tokens assets in
    elim asset.info [
      | token contract_addr ↦ (contract_addr, asset.amount) ∷ rest
      | native_token denom ↦ rest
    ]

AssetInfo-cases :
    (i : AssetInfo) → ((a : Text) × (i ≡ token a)) ⊎ ((d : Text) × (i ≡ native_token d))
AssetInfo-cases (token a) = inl (a, refl)
AssetInfo-cases (native_token d) = inr (d, refl)

module _ {S : Type 0} (W : Wasm S InstantiateMsg ExecuteMsg) (pair_addr : Text)
    (signer : Account) where
  -- The allowances are increased one after the other, from the first state to the last.
  abbrev pub Allows : List (Text × ℕ) → S → S → Type 0
  Allows [] s t = s ≡ t
  Allows ((contract_addr, amount) ∷ l) s t =
      (events : List Event) × (u : S) × (W.execute contract_addr
          (increase_allowance pair_addr amount none) [] signer s
        ≡ (ok events, u))
      × Allows l u t

  collect_funds-token :
      (asset : Asset) (assets : List Asset) (funds : List Coin) (a : Text)
      → asset.info ≡ token a
      → collect_funds W pair_addr signer (asset ∷ assets) funds ≡ (
          call W signer a (increase_allowance pair_addr asset.amount none) []
          >> collect_funds W pair_addr signer assets funds)
  unfolding collect_funds
  collect_funds-token asset assets funds a e = rw e refl

  collect_funds-native :
      (asset : Asset) (assets : List Asset) (funds : List Coin) (d : Text)
      → asset.info ≡ native_token d
      → collect_funds W pair_addr signer (asset ∷ assets) funds
        ≡ collect_funds W pair_addr signer assets
            (funds ++ record { denom = d; amount = asset.amount } ∷ [])
  unfolding collect_funds
  collect_funds-native asset assets funds d e = rw e refl

  collect_funds-inv :
      (assets : List Asset) (funds : List Coin) (s : S) {r : List Coin} {t : S}
      → collect_funds W pair_addr signer assets funds s ≡ (ok r, t)
      → Allows (tokens assets) s t × (r ≡ funds ++ natives assets)
  unfolding collect_funds call
  collect_funds-inv [] funds s h =
      (ap (λ r. r.1) h, sym (ok-cancel (ap (λ r. r.0) h)) ∙ sym (append-nil funds))
  collect_funds-inv (asset ∷ assets) funds s h = elim (AssetInfo-cases asset.info) [
    | inl (a, e) ↦
        >>=-inv _ _ _ (sym (ap (λ f. f s) (collect_funds-token asset assets funds a e)) ∙ h)
          λ events u first rest.
            let (allowed, same) = collect_funds-inv assets funds u rest in
            rw e ((events, u, unwrap-inv _ _ first, allowed), same)
    | inr (d, e) ↦
        let (allowed, same) =
          collect_funds-inv assets (funds ++ record { denom = d; amount = asset.amount } ∷ []) s
            (sym (ap (λ f. f s) (collect_funds-native asset assets funds d e)) ∙ h) in
        rw e (allowed, same ∙ append_assoc funds _ _)
  ]

  collect_funds-ok :
      (assets : List Asset) (funds : List Coin) (s : S) {t : S}
      → Allows (tokens assets) s t
      → collect_funds W pair_addr signer assets funds s ≡ (ok (funds ++ natives assets), t)
  unfolding collect_funds call
  collect_funds-ok [] funds s h = rw (append-nil funds, h) refl
  collect_funds-ok (asset ∷ assets) funds s {t} h = elim (AssetInfo-cases asset.info) [
    | inl (a, e) ↦
        let (events, u, first, rest) =
          subst (λ i. Allows (tokens (record { info = i; amount = asset.amount } ∷ assets)) s t) e
            h in
        ap (λ f. f s) (collect_funds-token asset assets funds a e)
        ∙ >>=-ok _ _ _ (unwrap-ok _ _ first) (collect_funds-ok assets funds u rest)
        ∙ rw e refl
    | inr (d, e) ↦
        let rest =
          subst (λ i. Allows (tokens (record { info = i; amount = asset.amount } ∷ assets)) s t) e
            h in
        ap (λ f. f s) (collect_funds-native asset assets funds d e)
        ∙ collect_funds-ok assets (funds ++ record { denom = d; amount = asset.amount } ∷ []) s rest
        ∙ rw e (ap (λ l. (ok l, t)) (append_assoc funds _ _))
  ]

  -- The robot's `provide_liquidity` succeeds and ends in the state `t` exactly if the allowance of
  -- each token among the assets can be increased, in their order, and the pair then takes the
  -- message with the native coins among the assets, sorted by denom, as funds, and ends in `t`. The
  -- sorted funds are in the order of their denoms and hold the same coins.
  pub provide_liquidity_succeeds_iff :
      (assets : List Asset) (s t : S)
      → ((Robot.provide_liquidity W pair_addr assets signer s ≡ (ok tt, t)) ↔ (
          (u : S) × (events : List Event) × Allows (tokens assets) s u
          × (W.execute pair_addr
                (liquidity_msg assets)
                (sort_by_key (λ c. c.denom) (natives assets))
                signer
                u
              ≡ (ok events, t))))
        × IsSortedBy (λ c. c.denom) (sort_by_key (λ c. c.denom) (natives assets))
        × Perm (sort_by_key (λ c. c.denom) (natives assets)) (natives assets)
  unfolding Robot.provide_liquidity call
  provide_liquidity_succeeds_iff assets s t = (
    (
      (λ h. >>=-inv _ _ _ h λ funds u collected h. >>=-inv _ _ _ h λ events v taken done.
          let (allowed, same) = collect_funds-inv assets [] s collected in
          (
            u,
            events,
            allowed,
            unwrap-inv _ _ (
                  subst
                    (λ f.
                      unwrap
                        (W.execute pair_addr (liquidity_msg assets) (sort_by_key (λ c. c.denom) f)
                          signer)
                        u
                      ≡ (ok events, v))
                    same taken)
                ∙ ap (λ r. (ok events, r.1)) done,
          )),
      (λ (u, events, allowed, taken).
          >>=-ok _ _ _ (collect_funds-ok assets [] s allowed)
            (>>=-ok _ _ _ (unwrap-ok _ _ taken) refl)),
    ),
    sort_by_key-IsSortedBy (λ c. c.denom) (natives assets),
    sort_by_key-perm (λ c. c.denom) (natives assets),
  )

module _ {S : Type 0} (W : Wasm S InstantiateMsg ExecuteMsg) (Q : Queries S) (B : Bank S)
    (pair_addr : Text) (signer : Account) where
  asked :
      {A : Type 0} (q : S → Result A) (s : S) {a : A} {t : S} → unwrap (ask q) s ≡ (ok a, t) → s ≡ t
  asked q s h = ap (λ r. r.1) (unwrap-inv _ _ h)

  lp_balance-keeps :
      (cw20 : Bool) (lp_token : Text) (s : S) {n : ℕ} {t : S}
      → lp_balance W Q B cw20 lp_token signer s ≡ (ok n, t)
      → s ≡ t
  unfolding lp_balance
  lp_balance-keeps true lp_token s h = asked _ s h
  lp_balance-keeps false lp_token s h =
      >>=-inv _ _ _ h λ balance u first rest. asked _ s first ∙ ap (λ r. r.1) rest

  balance-keeps :
      (s : S) {n : ℕ} {t : S} → get_lp_token_balance W Q B pair_addr signer s ≡ (ok n, t) → s ≡ t
  unfolding get_lp_token_balance
  balance-keeps s h =
      >>=-inv _ _ _ h λ info u first rest. asked _ s first ∙ lp_balance-keeps _ _ u rest

  sub-ok : (a b c : ℕ) → (sub_u128 a b ≡ ok c) ↔ (a ≡ b + c)
  sub-ok a b c = ground arith

  -- `provide_liquidity` of the helpers succeeds with the amount received and ends in the state `t`
  -- exactly if the balance of LP tokens can be read before and after, the robot's
  -- `provide_liquidity` leads from the first state to `t`, and the later balance is the earlier one
  -- plus the amount.
  pub provide_liquidity_receives :
      (assets : List Asset) (s t : S) (received : ℕ)
      → (Pairs.provide_liquidity W Q B pair_addr assets signer s ≡ (ok received, t)) ↔ (
          (before after : ℕ) × (get_lp_token_balance W Q B pair_addr signer s ≡ (ok before, s))
          × (Robot.provide_liquidity W pair_addr assets signer s ≡ (ok tt, t))
          × (get_lp_token_balance W Q B pair_addr signer t ≡ (ok after, t))
          × (after ≡ before + received))
  unfolding Pairs.provide_liquidity Robot.provide_liquidity
  provide_liquidity_receives assets s t received = (
    (λ h. >>=-inv _ _ _ h λ before s1 h1 h. >>=-inv _ _ _ h λ funds s2 h2 h.
        >>=-inv _ _ _ h λ events s3 h3 h. >>=-inv _ _ _ h λ after s4 h4 h.
          let e1 = balance-keeps s h1 in
          let e4 = balance-keeps s3 h4 in
          let e : s4 ≡ t = ap (λ r. r.1) h in
          (
            before,
            after,
            subst (λ x. get_lp_token_balance W Q B pair_addr signer s ≡ (ok before, x)) (sym e1) h1,
            >>=-ok _ _ _
                (subst (λ x. collect_funds W pair_addr signer assets [] x ≡ (ok funds, s2)) (sym e1)
                  h2)
                (>>=-ok _ _ _ h3 (ap (λ x. (ok tt, x)) (e4 ∙ e))),
            subst (λ x. get_lp_token_balance W Q B pair_addr signer x ≡ (ok after, t)) (e4 ∙ e)
                (h4 ∙ ap (λ x. (ok after, x)) e),
            (sub-ok after before received).0 (ap (λ r. r.0) h),
          )),
    (λ (before, after, h1, h, h4, sum). >>=-ok _ _ _ h1 (
        >>=-inv _ _ _ h λ funds s2 h2 h. >>=-inv _ _ _ h λ events s3 h3 h. >>=-ok _ _ _ h2 (
          >>=-ok _ _ _ (h3 ∙ ap (λ r. (ok events, r.1)) h)
            (>>=-ok _ _ _ h4 (ap (λ r. (r, t)) ((sub-ok after before received).1 sum)))))),
  )
