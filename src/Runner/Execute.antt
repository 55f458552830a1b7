-- ===== src/Runner/Execute.antt =====
-- `execute_cosmos_msgs`, `execute_multiple`, `execute_multiple_raw` and `store_code`.
pub mod Responses
use cw_it.Base.{ℕ, Option, none, some, List, [], ◌∷◌, ◌++◌}
use cw_it.Text.{Text}
use cw_it.Chain.{
  Binary, Event, AppResponse, Result, ok, err, panicked, and_then, traverse, Action, ◌>>=◌, lift,
  artifact_not_supported,
}
use cw_it.Runner.Types.{Any, CosmosMsg, Wire, Message, App, ExecuteResponse}
use cw_it.Artifact.{ContractType, multi_test_contract, artifact}
use cw_it.Runner.Convert.{convert_all}

-- The events of the responses in a row, by `flat_map`.
pub all_events : List AppResponse → List Event
all_events [] = []
all_events (r ∷ rs) = r.events ++ all_events rs

-- `.map(|r| r.data).filter(|d| d.is_some())`
pub present_data : List AppResponse → List Binary
present_data [] = []
present_data (r ∷ rs) =
    let rest = present_data rs in elim r.data_bytes [ none ↦ rest | some d ↦ d ∷ rest ]

-- `slice::last`
pub last : {A : Type 0} → List A → Option A
last [] = none
last (a ∷ []) = some a
last (a ∷ b ∷ l) = last (b ∷ l)

module _ {R : Type 0} (M : Message R) where
  -- The last data decoded, which panics if it does not decode, or the default.
  abbrev pub response_value : Option Binary → Result R
  response_value none = ok M.default
  response_value (some d) = elim (M.decode d) [ none ↦ panicked | some r ↦ ok r ]

  unfoldable pub respond : List AppResponse → Result (ExecuteResponse R)
  respond rs = and_then (response_value (last (present_data rs))) λ value. ok (record {
    value = value;
    raw_data = M.encode value;
    events = all_events rs;
    gas_wanted = 0;
    gas_used = 0;
  })

  module _ (A : App) where
    unfoldable pub execute_cosmos_msgs : List CosmosMsg → Text → Action A.State (ExecuteResponse R)
    execute_cosmos_msgs msgs signer = lift (traverse A.recode msgs) >>= λ converted.
        A.execute_multi signer converted >>= λ rs. lift (respond rs)

    unfoldable pub execute_multiple_raw :
        Wire → List Any → Text → Action A.State (ExecuteResponse R)
    unfolding execute_cosmos_msgs
    execute_multiple_raw W msgs signer = lift (convert_all W msgs) >>= λ built.
        lift (traverse A.recode built) >>= λ converted. execute_cosmos_msgs converted signer

    -- Each message comes encoded, with the URL of its type.
    unfoldable pub execute_multiple :
        {M' : Type 0}
        → Wire
        → (M' → Result Binary)
        → List (M' × Text)
        → Text
        → Action A.State (ExecuteResponse R)
    unfolding execute_multiple_raw
    execute_multiple W encode msgs signer =
        lift (
          traverse
            (λ (m, type_url).
              and_then (encode m) λ value. ok (record { type_url = type_url; value = value }))
            msgs)
        >>= λ anys. execute_multiple_raw W anys signer

module _ (A : App) where
  unfoldable pub store_code : ContractType A.Contract → Action A.State ℕ
  store_code (multi_test_contract c) s = let (id, s') = A.store_code c s in (ok id, s')
  store_code (artifact a) s = (err artifact_not_supported, s)
