-- ===== src/Macros.antt =====
-- The macros that wrap the entry points of contract crates, src/multi_test/macros.rs.
use cw_it.Base.{
  ◌≡◌, refl, ◌∙◌, ap, Option, none, some, List, [], ◌∷◌, map, bytes_eq, ◌==◌, if◌then◌else◌,
}
use cw_it.Text.{Text}
use cw_it.Chain.{find}
use cw_it.Helpers.{insert}
use cw_it.Helpers.Uploads.{find-insert}

-- A crate by the name given to the macro, and the entry points of its module `contract`.
pub record ContractCrate (Execute Instantiate Query Reply : Type 0) : Type 0 where
  pub name : Text
  pub execute : Execute
  pub instantiate : Instantiate
  pub query : Query
  pub reply : Reply

-- `collect::<HashMap<_, _>>()`
unfoldable pub collect : {V : Type 0} → List (Text × V) → List (Text × V) → List (Text × V)
unfolding insert
collect entries [] = entries
collect entries ((name, v) ∷ l) = collect (insert name v entries) l

module _ {Execute Instantiate Query Reply Wrapper : Type 0}
    (new_with_empty : Execute → Instantiate → Query → Wrapper) where
  abbrev pub wrapper : ContractCrate Execute Instantiate Query Reply → Text × Wrapper
  wrapper c = (c.name, new_with_empty c.execute c.instantiate c.query)

  unfoldable pub create_contract_wrappers :
      List (ContractCrate Execute Instantiate Query Reply) → List (Text × Wrapper)
  unfolding collect
  create_contract_wrappers crates = collect [] (map wrapper crates)

  -- `with_reply`, or `with_reply_empty` with the feature of Coreum.
  module _ (with_reply : Wrapper → Reply → Wrapper) where
    abbrev pub wrapper_with_reply : ContractCrate Execute Instantiate Query Reply → Text × Wrapper
    wrapper_with_reply c =
        (c.name, with_reply (new_with_empty c.execute c.instantiate c.query) c.reply)

    unfoldable pub create_contract_wrappers_with_reply :
        List (ContractCrate Execute Instantiate Query Reply) → List (Text × Wrapper)
    unfolding collect
    create_contract_wrappers_with_reply crates = collect [] (map wrapper_with_reply crates)

-- The value of the last entry with the key.
abbrev last_named : {V : Type 0} → Text → List (Text × V) → Option V → Option V
last_named k [] before = before
last_named k ((name, v) ∷ l) before = last_named k l (if k == name then some v else before)

find-collect :
    {V : Type 0} (k : Text) (entries l : List (Text × V))
    → find k (collect entries l) ≡ last_named k l (find k entries)
unfolding collect bytes_eq
find-collect k entries [] = refl
find-collect k entries ((name, v) ∷ l) =
    find-collect k (insert name v entries) l ∙ ap (last_named k l) (find-insert k name v entries)

-- Under each name both macros hold the contract of the last crate of that name, without and with
-- its reply, and nothing under any other name.
find-create_contract_wrappers :
    {Execute Instantiate Query Reply Wrapper : Type 0}
    (new_with_empty : Execute → Instantiate → Query → Wrapper)
    (with_reply : Wrapper → Reply → Wrapper)
    (crates : List (ContractCrate Execute Instantiate Query Reply)) (k : Text)
    → (find k (create_contract_wrappers new_with_empty crates)
        ≡ last_named k (map (wrapper new_with_empty) crates) none)
      × (find k (create_contract_wrappers_with_reply new_with_empty with_reply crates)
          ≡ last_named k (map (wrapper_with_reply new_with_empty with_reply) crates) none)
unfolding create_contract_wrappers create_contract_wrappers_with_reply
find-create_contract_wrappers new_with_empty with_reply crates k = (
  find-collect k [] (map (wrapper new_with_empty) crates),
  find-collect k [] (map (wrapper_with_reply new_with_empty with_reply) crates),
)
