-- ===== src/Chain/Histories.antt =====
-- Messages run one after the other by an app, each as a transaction, and what they move in all.
use cw_it.Base.{ℕ, ◌+◌, ◌≡◌, refl, ap, ◌∙◌, Bool, true, false, List, [], ◌∷◌, if◌then◌else◌, arith}
use cw_it.Text.{Text}
use cw_it.Chain.Monad.{Result, ok, err, panicked, Action}
use cw_it.Chain.Types.{AppResponse}
use cw_it.Chain.Laws.{outcome, succeeds, fails, panics}

abbrev pub is_ok : {A : Type 0} → Result A → Bool
is_ok (ok a) = true
is_ok (err e) = false
is_ok panicked = false

module _ {S Msg : Type 0} (act : Text → Msg → Action S AppResponse) where
  unfoldable pub accepts : Text → Msg → S → Bool
  accepts sender msg s = is_ok (act sender msg s).0

  -- What a message that is refused has written is dropped by the app.
  unfoldable pub commit : Text → Msg → S → S
  unfolding accepts
  commit sender msg s = if accepts sender msg s then (act sender msg s).1 else s

  -- A history: each message with its sender.
  unfoldable pub run : List (Text × Msg) → S → S
  run [] s = s
  run ((sender, msg) ∷ history) s = run history (commit sender msg s)

  -- The sum, over the messages that are accepted, of what each of them moves.
  unfoldable pub total : (Msg → ℕ) → List (Text × Msg) → S → ℕ
  total amount [] s = 0
  total amount ((sender, msg) ∷ history) s =
      (if accepts sender msg s then amount msg else 0) + total amount history (commit sender msg s)

  commit-cases :
      (P : S → Type 0) (sender : Text) (msg : Msg) (s : S)
      → ((res : AppResponse) (s' : S) → act sender msg s ≡ (ok res, s') → P s')
      → P s
      → P (commit sender msg s)
  unfolding commit accepts
  commit-cases P sender msg s accepted refused = elim (outcome (act sender msg s).0) [
    | succeeds res e ↦
        rw e (accepted res (act sender msg s).1 (ap (λ r. (r, (act sender msg s).1)) e))
    | fails x f ↦ rw f refused
    | panics f ↦ rw f refused
  ]

  -- Every message of the history has a sender who may not `Own`.
  abbrev pub NoneOwns : (Text → Type 0) → List (Text × Msg) → Type 0
  NoneOwns Own [] = Unit
  NoneOwns Own ((sender, msg) ∷ history) = (Own sender → ⊥) × NoneOwns Own history

  pub run-keeps :
      (value : S → ℕ) (Own : Text → Type 0)
      → ((sender : Text) (msg : Msg) (s s' : S) (res : AppResponse)
          → (Own sender → ⊥)
          → act sender msg s ≡ (ok res, s')
          → value s' ≡ value s)
      → (history : List (Text × Msg)) (s : S) → NoneOwns Own history
      → value (run history s) ≡ value s
  unfolding run
  run-keeps value Own keeps [] s h = refl
  run-keeps value Own keeps ((sender, msg) ∷ history) s (other, h) =
      run-keeps value Own keeps history (commit sender msg s) h
      ∙ commit-cases (λ s'. value s' ≡ value s) sender msg s
          (λ res s' e. keeps sender msg s s' res other e) refl

  -- If every message that is accepted moves what it states, so does every history.
  pub run-balances :
      (supply : S → ℕ) (minted burned : Msg → ℕ)
      → ((sender : Text) (msg : Msg) (s s' : S) (res : AppResponse)
          → act sender msg s ≡ (ok res, s')
          → supply s' + burned msg ≡ supply s + minted msg)
      → (history : List (Text × Msg)) (s : S)
      → supply (run history s) + total burned history s ≡ supply s + total minted history s
  unfolding run total commit accepts
  run-balances supply minted burned balances [] s = refl
  run-balances supply minted burned balances ((sender, msg) ∷ history) s =
      let rest = run-balances supply minted burned balances history in
      elim (outcome (act sender msg s).0) [
        | succeeds res e ↦
            let s' = (act sender msg s).1 in
            let here = balances sender msg s s' res (ground (arith, e)) in
            ground (arith, e, here, rest s')
        | fails x f ↦ ground (arith, f, rest s)
        | panics f ↦ ground (arith, f, rest s)
      ]
