-- ===== src/Coreum/Query.antt =====
-- `CoreumQueryModule`, which answers a contract's queries from the storage of the factory. The
-- answers are the values that the module hands to `to_json_binary`.
pub mod Lists
pub mod Lookups
use cw_it.Base.{
  ℕ, Bool, true, Option, none, some, List, [], ◌∷◌, bytes_eq, ◌==◌, ◌&&◌, ◌||◌, if◌then◌else◌,
}
use cw_it.Text.{Text, codes, is_empty}
use cw_it.Chain.{
  AppResponse, default_response, Binary, Result, ok, err, nft_not_found, class_not_found,
  ft_not_found, query_not_implemented, execute_not_implemented,
}
use cw_it.Coreum.Types.{MsgIssue, MsgIssueClass, StoredNft, World, Store}
use cw_it.Coreum.Answers.{Nft, Class, Token, to_nft, to_class, to_token, native_token}

-- The queries that the module answers; `other` is any other one.
pub data CoreumQuery : Type 0 where
  nft : Text → Text → CoreumQuery
  nfts : Option Text → Option Text → CoreumQuery
  owner : Text → Text → CoreumQuery
  class : Text → CoreumQuery
  classes : Text → CoreumQuery
  token : Text → CoreumQuery
  tokens : Text → CoreumQuery
  other : CoreumQuery

-- The list answers carry a page response with no next key and the total `Some(0)`.
pub data Answer : Type 0 where
  nft_response : Nft → Answer
  nfts_response : List Nft → Option Binary → Option ℕ → Answer
  owner_response : Text → Answer
  class_response : Class → Answer
  classes_response : List Class → Option Binary → Option ℕ → Answer
  token_response : Token → Answer
  tokens_response : List Token → Option Binary → Option ℕ → Answer

abbrev pub default_coin_denom : Text
default_coin_denom = codes "ucore"

-- A filter that is absent lets everything through.
abbrev passes : Option Text → Text → Bool
passes none t = true
passes (some f) t = t == f

abbrev pub wanted_nft : Option Text → Option Text → Text → StoredNft → Bool
wanted_nft class_id holder cid stored = passes class_id cid && passes holder stored.owner

-- An issuer that is empty lets everything through.
abbrev pub wanted_issuer : Text → Text → Bool
wanted_issuer issuer of = is_empty issuer || of == issuer

-- The loops over `range`, which push what passes the filters.
pub collect : {K V X : Type 0} → (K → V → Bool) → (K → V → X) → List (K × V) → List X
collect wanted make [] = []
collect wanted make ((k, v) ∷ items) =
    let rest = collect wanted make items in if wanted k v then make k v ∷ rest else rest

abbrev pub collect_nfts : Option Text → Option Text → List ((Text × Text) × StoredNft) → List Nft
collect_nfts class_id holder =
    collect (λ (cid, nid) stored. wanted_nft class_id holder cid stored) (λ _ stored. to_nft stored)

abbrev pub collect_classes : Text → List (Text × MsgIssueClass) → List Class
collect_classes issuer = collect (λ _ issue. wanted_issuer issuer issue.issuer) to_class

abbrev pub collect_tokens : Text → List (Text × MsgIssue) → List Token
collect_tokens issuer = collect (λ _ issue. wanted_issuer issuer issue.issuer) to_token

module _ (W : World) (s : Store W) where
  find_token : Text → Result Answer
  unfolding bytes_eq
  find_token denom = elim (W.issued.may_load s.issued denom) [
    | some issue ↦ ok (token_response (to_token denom issue))
    | none ↦
        if denom == default_coin_denom
        then ok (token_response (native_token denom))
        else err (ft_not_found denom)
  ]

  unfoldable pub query : CoreumQuery → Result Answer
  unfolding find_token
  query (nft class_id id) = elim (W.nfts.may_load s.nfts (class_id, id)) [
    | none ↦ err (nft_not_found class_id id)
    | some stored ↦ ok (nft_response (to_nft stored))
  ]
  query (nfts class_id holder) =
      ok (nfts_response (collect_nfts class_id holder (W.nfts.range s.nfts)) none (some 0))
  query (owner class_id id) = elim (W.nfts.may_load s.nfts (class_id, id)) [
    | none ↦ err (nft_not_found class_id id)
    | some stored ↦ ok (owner_response stored.owner)
  ]
  query (class id) = elim (W.classes.may_load s.classes id) [
    | none ↦ err (class_not_found id)
    | some issue ↦ ok (class_response (to_class id issue))
  ]
  query (classes issuer) =
      ok (classes_response (collect_classes issuer (W.classes.range s.classes)) none (some 0))
  query (token denom) = find_token denom
  query (tokens issuer) =
      ok (tokens_response (collect_tokens issuer (W.issued.range s.issued)) none (some 0))
  query other = err query_not_implemented

-- `CoreumQueryModule::execute` is not implemented, and `sudo` does nothing.
unfoldable pub query_module_execute : {S : Type 0} → S → Result AppResponse × S
query_module_execute s = (err execute_not_implemented, s)

unfoldable pub query_module_sudo : {S : Type 0} → S → Result AppResponse × S
query_module_sudo s = (ok default_response, s)
