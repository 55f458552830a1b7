-- ===== src/Batches/Passing.antt =====
-- That the extra module runs a batch as it was given to the runner.
use cw_it.Base.{◌≡◌, refl, ◌∙◌, some, List, [], ◌∷◌, map, arith, bytes_eq}
use cw_it.Text.{Text}
use cw_it.Chain.{ok, traverse, ◌>>=◌, lift, StargateMsg, outcome, succeeds, fails, panics}
use cw_it.Runner.{Wire, Message, App}
use cw_it.Runner.Convert.{convert, convert_all}
use cw_it.Runner.Execute.{respond, execute_multiple_raw}
use cw_it.Runner.Execute.Responses.{execute_multiple_raw_lem}
use cw_it.UnifiedStargate.Types.{Requests, Extra}
use cw_it.UnifiedStargate.{execute}
use cw_it.Batches.{to_any, to_cosmos, IsUnknown, AreUnknown, each, atomic, IsRouting}

convert-to_any :
    (W : Wire) (m : StargateMsg) → IsUnknown W m → convert W (to_any m) ≡ ok (to_cosmos m)
unfolding convert
convert-to_any W m unknown = ground arith

convert_all-to_any :
    (W : Wire) (batch : List StargateMsg)
    → AreUnknown W batch
    → convert_all W (map to_any batch) ≡ ok (map to_cosmos batch)
unfolding traverse
convert_all-to_any W [] unknown = refl
convert_all-to_any W (m ∷ batch) (here, rest) =
    rw (convert-to_any W m here, convert_all-to_any W batch rest) refl

module _ (A : App) (W : Wire) (R : Requests) (X : Extra A.State) where
  pub each-execute :
      (sender : Text) (batch : List StargateMsg) (s : A.State)
      → each (execute R (some X) sender) batch s ≡ each (X.execute sender) batch s
  unfolding each execute
  each-execute sender [] s = refl
  each-execute sender (m ∷ batch) s =
      let rest = each-execute sender batch (X.execute sender m s).1 in
      elim (outcome (X.execute sender m s).0) [
        | succeeds r e ↦ ground (arith, e, rest)
        | fails f e ↦ ground (arith, e)
        | panics e ↦ ground (arith, e)
      ]

  module _ {T : Type 0} (M : Message T) where
    -- If the app routes stargate messages to a stargate module with an extra module, and the runner
    -- knows none of the type URLs of a batch, then executing the batch is: to run the extra module
    -- on its messages in order, in the name of the signer, to drop what they wrote if one of them
    -- fails, and to build the response from the responses of the extra module.
    pub execute_multiple_raw-extra :
        (batch : List StargateMsg) (signer : Text) (s : A.State)
        → IsRouting A R (some X)
        → AreUnknown W batch
        → execute_multiple_raw M A W (map to_any batch) signer s
          ≡ (atomic (each (X.execute signer) batch) >>= λ rs. lift (respond M rs)) s
    unfolding atomic
    execute_multiple_raw-extra batch signer s routing unknown =
        execute_multiple_raw_lem M A W (map to_any batch) signer s routing.recodes
        ∙ ground (
          arith,
          convert_all-to_any W batch unknown,
          routing.routes signer batch s,
          each-execute signer batch s,
        )
