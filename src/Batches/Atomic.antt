-- ===== src/Batches/Atomic.antt =====
-- Batches that are run as a whole: what they move in all, and what they keep.
use cw_it.Base.{ℕ, ◌+◌, ◌≡◌, refl, ap, subst, List, [], ◌∷◌, arith, inl, inr, ◌⊎◌, Option-cases}
use cw_it.Chain.{
  Error, AppResponse, Result, ok, err, panicked, Action, ◌>>=◌, lift, StargateMsg, outcome,
  succeeds, fails, panics,
}
use cw_it.Runner.{Message}
use cw_it.Runner.Execute.{respond, last, present_data}
use cw_it.Batches.{each, atomic}

-- The sum over the messages of a batch.
abbrev pub sum_over : (StargateMsg → ℕ) → List StargateMsg → ℕ
sum_over amount [] = 0
sum_over amount (m ∷ batch) = amount m + sum_over amount batch

module _ {S : Type 0} (supply : S → ℕ) (minted burned : StargateMsg → ℕ) (batch : List StargateMsg)
    (s : S) where
  abbrev pub Balances : S → Type 0
  Balances s' = supply s' + sum_over burned batch ≡ supply s + sum_over minted batch

  -- Every message has moved what it asks for, or there was an error and nothing is changed. A
  -- panic is either of them.
  abbrev pub AllOrNothing : {T : Type 0} → Result T × S → Type 0
  AllOrNothing (ok r, s') = Balances s'
  AllOrNothing (err e, s') = s' ≡ s
  AllOrNothing (panicked, s') = (s' ≡ s) ⊎ Balances s'

module _ {S : Type 0} (supply : S → ℕ) (minted burned : StargateMsg → ℕ)
    (act : StargateMsg → Action S AppResponse)
    (balances : (m : StargateMsg) (s s' : S) (res : AppResponse)
      → act m s ≡ (ok res, s')
      → supply s' + burned m ≡ supply s + minted m) where
  each-Balances :
      (batch : List StargateMsg) (s : S) (rs : List AppResponse)
      → (each act batch s).0 ≡ ok rs
      → Balances supply minted burned batch s (each act batch s).1
  unfolding each
  each-Balances [] s rs h = refl
  each-Balances (m ∷ batch) s rs h = elim (outcome (act m s).0) [
    | succeeds r e ↦
        let s' = (act m s).1 in
        let here = balances m s s' r (ap (λ x. (x, s')) e) in
        elim (outcome (each act batch s').0) [
          | succeeds rest e' ↦
              let later = each-Balances batch s' rest e' in ground (arith, e, e', here, later)
          | fails f e' ↦ absurd (ground (arith, h, e, e'))
          | panics e' ↦ absurd (ground (arith, h, e, e'))
        ]
    | fails f e ↦ absurd (ground (arith, h, e))
    | panics e ↦ absurd (ground (arith, h, e))
  ]

  module _ {T : Type 0} (batch : List StargateMsg) (s : S) (k : List AppResponse → Result T) where
    -- The response can be built, or the building panics.
    pub atomic-AllOrNothing :
        ((rs : List AppResponse) → (f : Error) → k rs ≡ err f → ⊥)
        → AllOrNothing supply minted burned batch s
            ((atomic (each act batch) >>= λ rs. lift (k rs)) s)
    unfolding atomic
    atomic-AllOrNothing never = elim (outcome (each act batch s).0) [
      | succeeds rs e ↦
          let s' = (each act batch s).1 in
          let moved = each-Balances batch s rs e in
          elim (outcome (k rs)) [
            | succeeds r e' ↦ becomes (ok r, s') (ground (arith, e, e')) moved
            | fails f e' ↦ absurd (never rs f e')
            | panics e' ↦ becomes (panicked, s') (ground (arith, e, e')) (inr moved)
          ]
      | fails f e ↦ becomes (err f, s) (ground (arith, e)) refl
      | panics e ↦ becomes (panicked, s) (ground (arith, e)) (inl refl)
    ]
      where
        becomes :
            (x : Result T × S)
            → x ≡ (atomic (each act batch) >>= λ rs. lift (k rs)) s
            → AllOrNothing supply minted burned batch s x
            → AllOrNothing supply minted burned batch s
                ((atomic (each act batch) >>= λ rs. lift (k rs)) s)
        becomes x = subst (AllOrNothing supply minted burned batch s)

pub respond-err :
    {T : Type 0} (M : Message T) (rs : List AppResponse) (f : Error) → respond M rs ≡ err f → ⊥
unfolding respond
respond-err M rs f h = elim (Option-cases (last (present_data rs))) [
  | inl absent ↦ absurd (ground (arith, h, absent))
  | inr (d, present) ↦ elim (Option-cases (M.decode d)) [
    | inl garbled ↦ absurd (ground (arith, h, present, garbled))
    | inr (r, decoded) ↦ absurd (ground (arith, h, present, decoded))
  ]
]

module _ {S : Type 0} (P : S → Type 0) (act : StargateMsg → Action S AppResponse)
    (keeps : (m : StargateMsg) (s : S) → P s → P (act m s).1) where
  each-keeps : (batch : List StargateMsg) (s : S) → P s → P (each act batch s).1
  unfolding each
  each-keeps [] s p = p
  each-keeps (m ∷ batch) s p =
      let s' = (act m s).1 in
      let later = each-keeps batch s' (keeps m s p) in
      elim (outcome (act m s).0) [
        | succeeds r e ↦ elim (outcome (each act batch s').0) [
          | succeeds rs e' ↦ subst P (ground (arith, e, e')) later
          | fails f e' ↦ subst P (ground (arith, e, e')) later
          | panics e' ↦ subst P (ground (arith, e, e')) later
        ]
        | fails f e ↦ subst P (ground (arith, e)) (keeps m s p)
        | panics e ↦ subst P (ground (arith, e)) (keeps m s p)
      ]

  pub atomic-keeps :
      {T : Type 0} (batch : List StargateMsg) (s : S) (k : List AppResponse → Result T)
      → P s
      → P ((atomic (each act batch) >>= λ rs. lift (k rs)) s).1
  unfolding atomic
  atomic-keeps batch s k p = elim (outcome (each act batch s).0) [
    | succeeds rs e ↦ subst P (ground (arith, e)) (each-keeps batch s p)
    | fails f e ↦ subst P (ground (arith, e)) p
    | panics e ↦ subst P (ground (arith, e)) p
  ]
