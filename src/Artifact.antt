-- ===== src/Artifact.antt =====
-- Where the code of a contract comes from, src/artifact/mod.rs and src/artifact/on_chain.rs.
use cw_it.Base.{ℕ, Option, none, some}
use cw_it.Text.{Text, codes}
use cw_it.Chain.{Binary, Result, err, panicked, and_then, external}

pub data Artifact : Type 0 where
  local : Text → Artifact
  url : Text → Artifact
  chain_code_id : (rpc_endpoint : Text) → (code_id : ℕ) → Artifact
  chain_contract_address : (rpc_endpoint : Text) → (contract_address : Text) → Artifact

-- A contract in tests, with the contracts of the multi-test app as the argument.
pub data ContractType (C : Type 0) : Type 0 where
  artifact : Artifact → ContractType C
  multi_test_contract : C → ContractType C

pub data ChainArtifact : Type 0 where
  addr : Text → ChainArtifact
  code_id : ℕ → ChainArtifact

unfoldable pub into_artifact : ChainArtifact → Text → Artifact
into_artifact (addr a) rpc_endpoint = chain_contract_address rpc_endpoint a
into_artifact (code_id id) rpc_endpoint = chain_code_id rpc_endpoint id

-- The files and the nodes: the decoded answers of the queries for a code and for a contract, of
-- which the code id is read.
pub record Sources : Type 0 where
  pub read_file : Text → Result Binary
  pub query_code : (rpc_endpoint : Text) → ℕ → Result Binary
  pub query_contract_info : (rpc_endpoint : Text) → Text → Result (Option ℕ)

module _ (F : Sources) where
  unfoldable pub download_wasm_from_code_id : Text → ℕ → Result Binary
  download_wasm_from_code_id rpc_endpoint id = F.query_code rpc_endpoint id

  unfoldable pub download_wasm_from_contract_address : Text → Text → Result Binary
  download_wasm_from_contract_address rpc_endpoint contract_address =
      and_then (F.query_contract_info rpc_endpoint contract_address) λ info. elim info [
        | none ↦ err (external (codes "failed to query contract info"))
        | some id ↦ download_wasm_from_code_id rpc_endpoint id
      ]

  -- A URL is `todo!()`.
  unfoldable pub get_wasm_byte_code : Artifact → Result Binary
  get_wasm_byte_code (local path) = F.read_file path
  get_wasm_byte_code (url u) = panicked
  get_wasm_byte_code (chain_code_id rpc_endpoint id) = download_wasm_from_code_id rpc_endpoint id
  get_wasm_byte_code (chain_contract_address rpc_endpoint contract_address) =
      download_wasm_from_contract_address rpc_endpoint contract_address
