-- ===== src/Helpers.antt =====
-- Uploading and instantiating contracts, sends and balances, and the expectation of a failure:
-- src/helpers.rs, and the coins of src/traits.rs and src/const_coin.rs.
pub mod Uploads
pub mod Expectation
pub mod TestContract
use cw_it.Base.{
  ℕ, zero, suc, ◌-◌, ◌^◌, Bool, true, false, not, Option, none, some, List, [], ◌∷◌, ◌++◌, map,
  bytes_eq, ◌==◌, if◌then◌else◌, length, ◌⊎◌, inl, inr,
}
use cw_it.Text.{Text, codes, is_empty, parse_u128, print_u128}
use cw_it.Text.Order.{starts_with, contains_text}
use cw_it.Chain.{
  Coin, ProtoCoin, Event, Result, ok, err, panicked, and_then, Error, upload_failed,
  bank_balance_failed, bank_all_balances_failed, Action, pure, lift, ask, unwrap, unwrapped,
}
use cw_it.Chain.Seq.{◌>>=◌, ◌>>◌}
use cw_it.Client.{Account, Wasm, BankMsgSend, Bank}
use cw_it.UnifiedStargate.{to_proto}

-- `str::replace(pattern, "")` for a pattern that is not empty: after a match the rest of the pattern
-- is skipped.
unfoldable pub remove_from : Text → ℕ → Text → Text
unfolding starts_with
remove_from pattern skip [] = []
remove_from pattern (suc n) (x ∷ t) = remove_from pattern n t
remove_from pattern zero (x ∷ t) =
    let skipped = remove_from pattern (length pattern - 1) t in
    let kept = remove_from pattern zero t in
    if starts_with (x ∷ t) pattern then skipped else x ∷ kept

-- `HashMap::insert`, on the entries in the order of their first insertion.
unfoldable pub insert : {V : Type 0} → Text → V → List (Text × V) → List (Text × V)
unfolding bytes_eq
insert k v [] = (k, v) ∷ []
insert k v ((j, w) ∷ l) = let rest = insert k v l in if k == j then (k, v) ∷ l else (j, w) ∷ rest

-- `REPLACE_ARTIFACT_NAME` is empty, or "-coreum" with the feature of that chain.
unfoldable pub final_name : Text → Text → Text
unfolding remove_from
final_name replace_artifact_name name =
    if is_empty replace_artifact_name then name else remove_from replace_artifact_name zero name

module _ {S C : Type 0} (store_code : C → Account → Action S ℕ) where
  unfoldable pub upload_wasm_file : Account → C → Action S ℕ
  upload_wasm_file signer contract s =
      let (r, t) = store_code contract signer s in
      elim r [ ok id ↦ (ok id, t) | err e ↦ (err (upload_failed e), t) | panicked ↦ (panicked, t) ]

  -- The contracts come in the order in which the map is walked; the entries so far are in `ids`.
  unfoldable pub upload_into :
      Text → Account → List (Text × ℕ) → List (Text × C) → Action S (List (Text × ℕ))
  upload_into replace_artifact_name signer ids [] = pure ids
  upload_into replace_artifact_name signer ids ((name, contract) ∷ contracts) = do
    code_id ← upload_wasm_file signer contract
    upload_into replace_artifact_name signer
        (insert (final_name replace_artifact_name name) code_id ids) contracts

  unfoldable pub upload_wasm_files : Text → Account → List (Text × C) → Action S (List (Text × ℕ))
  upload_wasm_files replace_artifact_name signer contracts =
      upload_into replace_artifact_name signer [] contracts

module _ {S I E : Type 0} (W : Wasm S I E) where
  unfoldable pub instantiate_contract_with_funds : Account → ℕ → I → List Coin → Action S Text
  instantiate_contract_with_funds admin code_id msg funds =
      W.instantiate code_id msg (some admin.address) none funds admin

  unfoldable pub instantiate_contract : Account → ℕ → I → Action S Text
  instantiate_contract admin code_id msg = instantiate_contract_with_funds admin code_id msg []

module _ {S : Type 0} (B : Bank S) where
  -- `Uint128::from_str(&c.amount).unwrap()`, if there is a balance
  abbrev pub balance_amount : Option ProtoCoin → Result ℕ
  balance_amount none = err bank_balance_failed
  balance_amount (some c) = elim (parse_u128 c.amount) [ none ↦ panicked | some n ↦ ok n ]

  unfoldable pub bank_balance_query : Text → Text → S → Result ℕ
  bank_balance_query address denom s =
      and_then (unwrapped (B.query_balance address denom s)) balance_amount

  unfoldable pub bank_all_balances_query : Text → S → Result (List ProtoCoin)
  bank_all_balances_query address s = elim (B.query_all_balances address s) [
    | ok coins ↦ ok coins
    | err e ↦ err bank_all_balances_failed
    | panicked ↦ panicked
  ]

  unfoldable pub bank_send : Account → Text → List Coin → Action S (List Event)
  unfolding to_proto
  bank_send sender recipient coins =
      B.send
        (record {
          from_address = sender.address;
          to_address = recipient;
          amount = map to_proto coins;
        })
        sender

-- Which outcome is expected; an error by a part of its text.
pub data Unwrap : Type 0 where
  expect_ok : Unwrap
  expect_err : Text → Unwrap

-- `Unwrap::unwrap`, on a value or an error with its text by `Debug`.
unfoldable pub unwrap_as : {T E : Type 0} → (E → Text) → Unwrap → T ⊎ E → Result (Option T)
unfolding contains_text
unwrap_as debug expect_ok (inl value) = ok (some value)
unwrap_as debug expect_ok (inr e) = panicked
unwrap_as debug (expect_err s) (inl value) = panicked
unwrap_as debug (expect_err s) (inr e) = if contains_text (debug e) s then ok none else panicked

-- `DEFAULT_COIN_AMOUNT`
abbrev pub default_coin_amount : ℕ
default_coin_amount = 1_000_000_000_000_000_000_000_000

-- `create_token_coins`, for the fee and the denom of the chain's feature.
unfoldable pub create_token_coins : Text → Text → Result (List Coin)
unfolding bytes_eq
create_token_coins create_token_fee default_coin_denom =
    if not (create_token_fee == codes "0")
    then elim (parse_u128 create_token_fee) [
      | none ↦ panicked
      | some amount ↦ ok (record { denom = default_coin_denom; amount = amount } ∷ [])
    ]
    else ok []

abbrev coin_of : Text → Coin
coin_of denom = record { denom = denom; amount = default_coin_amount }

unfoldable pub initial_coins : Text → List Coin
initial_coins default_coin_denom = map coin_of (
    default_coin_denom
    ∷ codes "uion"
    ∷ codes "uatom"
    ∷ codes "stake"
    ∷ codes "denom0"
    ∷ codes "denom1"
    ∷ codes "denom3"
    ∷ codes "denom4"
    ∷ codes "denom5"
    ∷ codes "denom6"
    ∷ codes "denom7"
    ∷ codes "denom8"
    ∷ codes "denom9"
    ∷ codes "denom10"
    ∷ [])

-- The defaults of `CwItRunner`, on the runner's own `init_account` and `init_accounts`.
unfoldable pub init_default_account : {S A : Type 0} → (List Coin → Action S A) → Text → Action S A
init_default_account init_account default_coin_denom =
    init_account (initial_coins default_coin_denom)

unfoldable pub init_default_accounts :
    {S A : Type 0} → (List Coin → ℕ → Action S A) → Text → Action S A
init_default_accounts init_accounts default_coin_denom =
    init_accounts (initial_coins default_coin_denom) 10

-- src/const_coin.rs
pub record ConstCoin : Type 0 where
  pub denom : Text
  pub amount : ℕ

-- `ConstCoin::new`
abbrev pub new_const_coin : ℕ → Text → ConstCoin
new_const_coin amount denom = record { denom = denom; amount = amount }

-- `Coin::from`
unfoldable pub from_const_coin : ConstCoin → Coin
from_const_coin coin = record { denom = coin.denom; amount = coin.amount }

-- What `env::current_dir` gives: a path, which is text unless it is not UTF-8.
unfoldable pub get_current_working_dir : Result (Option Text) → Result Text
get_current_working_dir (ok none) = panicked
get_current_working_dir (ok (some path)) = ok path
get_current_working_dir (err e) = ok (codes "FAILED")
get_current_working_dir panicked = panicked
