-- ===== src/Helpers/TestContract.antt =====
-- The contract `test_contract` of src/test_helpers.rs, on the chain's wasm messages.
use cw_it.Base.{List, [], ◌∷◌}
use cw_it.Text.{codes}
use cw_it.Chain.{Binary, Result, ok, err, external}

-- `cosmwasm_std::Response`, of which the contract sets the messages.
pub record Response (WasmMsg : Type 0) : Type 0 where
  pub messages : List WasmMsg

module _ {WasmMsg : Type 0} where
  unfoldable pub instantiate : Result (Response WasmMsg)
  instantiate = ok (record { messages = [] })

  unfoldable pub execute : WasmMsg → Result (Response WasmMsg)
  execute msg = ok (record { messages = msg ∷ [] })

unfoldable pub query : Result Binary
query = err (external (codes "query not implemented for the `test_contract` contract"))
