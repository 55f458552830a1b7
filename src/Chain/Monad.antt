-- ===== src/Chain/Monad.antt =====
-- Errors as values, and handlers as functions on a state: what was written stays written when the
-- handler fails later on.
use cw_it.Base.{ℕ, Bool, true, false, Option, none, some, List, [], ◌∷◌, get_elem?}
use cw_it.Text.{Text}

-- The errors that the modules raise by `bail!`, with what their message quotes, and those of code
-- outside this repository, with their text.
pub data Error : Type 0 where
  subdenom_too_long creator_too_long : ℕ → Error
  creator_has_slash creator_not_sender : Error
  subunit_format symbol_format : Error
  subdenom_exists : Error
  missing_amount missing_coin : Error
  invalid_denom unauthorized_mint unauthorized_burn invalid_sender : Error
  unknown_denom : Text → Error
  not_a_number zero_amount : Error
  invalid_initial_amount : Text → Error
  invalid_sdk_string : Error
  invalid_issuer : Error
  class_exists unknown_class class_not_found not_class_issuer : Text → Error
  nft_exists nft_not_found unauthorized_nft_burn unauthorized_nft_send : Text → Text → Error
  receiver_empty : Error
  unknown_message_type : Text → Error
  ft_not_found : Text → Error
  query_not_implemented queries_disabled execute_not_implemented : Error
  no_exec_handler : Text → Error
  unexpected_query : Text → List ℕ → Error
  artifact_not_supported : Error
  -- `ArtifactError::Generic` with the failure of an upload in its text
  upload_failed : Error → Error
  -- `RunnerError::ExecuteError` with the log of the transaction, and `QueryError`
  execute_failed : Text → Error
  query_failed : Text → Error
  funding_failed : Error → Error
  bank_balance_failed bank_all_balances_failed : Error
  -- `StdError::generic_err` with the error of the validation in its text
  invalid_generated_addr : Error → Error
  external : Text → Error

-- A panic ends the program: it is no error that a caller handles.
pub data Result (A : Type 0) : Type 0 where
  ok : A → Result A
  err : Error → Result A
  panicked : Result A

-- `r?`
abbrev pub and_then : {A B : Type 0} → Result A → (A → Result B) → Result B
and_then (ok a) k = k a
and_then (err e) k = err e
and_then panicked k = panicked

-- `iter.map(f).collect::<Result<Vec<_>, _>>()`: the first failure ends it.
unfoldable pub traverse : {A B : Type 0} → (A → Result B) → List A → Result (List B)
traverse f [] = ok []
traverse f (a ∷ l) = let rest = traverse f l in and_then (f a) λ b. and_then rest λ bs. ok (b ∷ bs)

abbrev pub Action : Type 0 → Type 0 → Type 0
Action S A = S → Result A × S

infixl 5 ◌>>=◌ ◌>>◌
abbrev pub ◌>>=◌ : {S A B : Type 0} → Action S A → (A → Action S B) → Action S B
◌>>=◌ m f s =
    let (r, s') = m s in elim r [ ok a ↦ f a s' | err e ↦ (err e, s') | panicked ↦ (panicked, s') ]

abbrev pub ◌>>◌ : {S A B : Type 0} → Action S A → Action S B → Action S B
m >> k = m >>= λ _. k

module _ {S A : Type 0} where
  abbrev pub pure : A → Action S A
  pure a s = (ok a, s)

  abbrev pub lift : Result A → Action S A
  lift r s = (r, s)

  -- `let Some(a) = o else { bail!(..) }`, and `o.ok_or_else(..)?`
  abbrev pub expect : Option A → Error → Action S A
  expect none e s = (err e, s)
  expect (some a) e s = (ok a, s)

  -- `l[i]`
  abbrev pub index : List A → ℕ → Action S A
  index l i s = elim (get_elem? l i) [ none ↦ (panicked, s) | some a ↦ (ok a, s) ]

  abbrev pub gets : (S → A) → Action S A
  gets f s = (ok (f s), s)

-- `r.unwrap()`
abbrev pub unwrapped : {A : Type 0} → Result A → Result A
unwrapped (ok a) = ok a
unwrapped (err e) = panicked
unwrapped panicked = panicked

unfoldable pub unwrap : {S A : Type 0} → Action S A → Action S A
unwrap m s = let (r, s') = m s in (unwrapped r, s')

module _ {S : Type 0} where
  -- A query reads the state.
  abbrev pub ask : {A : Type 0} → (S → Result A) → Action S A
  ask q s = (q s, s)

  -- `if c { bail!(..) }`
  abbrev pub bail_if : Bool → Error → Action S (Unit {0})
  bail_if true e s = (err e, s)
  bail_if false e s = (ok tt, s)

  abbrev pub modify : (S → S) → Action S (Unit {0})
  modify f s = (ok tt, f s)
