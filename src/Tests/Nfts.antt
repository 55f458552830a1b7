-- ===== src/Tests/Nfts.antt =====
-- NFTs and histories of the Coreum token factory.
use cw_it.Base.{◌≡◌, refl, some, [], ◌∷◌, bytes_eq, pair_eq, nat_eq}
use cw_it.Text.{codes}
use cw_it.Chain.{ok, err, unauthorized_nft_send}
use cw_it.Coreum.{default_factory, Store}
use cw_it.Coreum.Nft.{nft_mint, nft_burn, nft_send, nft_minted, nft_burned, nft_sent}
use cw_it.Coreum.Nft.Spec.{class_at, Ends, NftMinted, NftBurned, NftSent}
use cw_it.Coreum.Nft.Effects.{nft_mint_effect, nft_burn_effect, nft_send_effect}
use cw_it.Coreum.Handle.{execute}
use cw_it.Coreum.Invariant.{IsValid}
use cw_it.Coreum.Invariant.Histories.{start, message, empty_store, Reached-IsValid}
use cw_it.Coreum.Authority.{IsAuthorised, execute-IsAuthorised}
use cw_it.Coreum.Permanence.{Keeps, execute-Keeps}
use cw_it.Coreum.Answers.{to_nft}
use cw_it.Coreum.Query.{query, nft, nfts, owner, nft_response, owner_response}
use cw_it.Coreum.Query.Lookups.{query_after_mint}
use cw_it.Tests.Samples.{alice, bob}
use cw_it.Tests.CoreumSamples.{
  gold_denom, gold_issue, world, lawful, message_to, stocked, unminted, art, art_class, mint_one,
  send_one, burn_one, one, bobs_one,
}

-- Bob owns nothing and cannot send.
thief_test :
    nft_send world (record send_one { sender = bob }) bob stocked
    ≡ (err (unauthorized_nft_send art (codes "one")), stocked)
unfolding nft_send pair_eq
thief_test = refl

mint_test :
    nft_mint world mint_one alice unminted ≡ (ok (nft_minted art (codes "one") alice), stocked)
unfolding nft_mint pair_eq
mint_test = refl

send_test : nft_send world send_one alice stocked ≡ (
  ok (nft_sent art (codes "one") alice bob),
  record stocked { nfts = ((art, codes "one"), bobs_one) ∷ ((art, codes "one"), one) ∷ [] },
)
unfolding nft_send pair_eq
send_test = refl

burn_test :
    nft_burn world burn_one alice stocked ≡ (ok (nft_burned art (codes "one") alice), unminted)
unfolding nft_burn pair_eq
burn_test = refl

execute-IsAuthorised_example :
    IsAuthorised world stocked bob art
      (codes "one")
      (execute world default_factory bob (message_to (codes "/nft_send")) stocked).1
execute-IsAuthorised_example =
    execute-IsAuthorised world lawful default_factory bob (message_to (codes "/nft_send")) stocked
      art (codes "one")

abbrev with_class : Store world
with_class =
    (execute world default_factory alice (message_to (codes "/class")) (empty_store world [])).1

abbrev with_nft : Store world
with_nft = (execute world default_factory alice (message_to (codes "/nft_mint")) with_class).1

Reached-IsValid_example : IsValid world with_nft
Reached-IsValid_example = Reached-IsValid world lawful with_nft (
    message default_factory alice (message_to (codes "/nft_mint")) with_class refl (
      message default_factory alice (message_to (codes "/class")) (empty_store world []) refl
        (start [])))

nft_mint_effect_example :
    Ends world
      (NftMinted world mint_one alice unminted)
      unminted
      (nft_mint world mint_one alice unminted)
nft_mint_effect_example = nft_mint_effect world lawful.nfts mint_one alice unminted

nft_send_effect_example :
    Ends world
      (NftSent world send_one alice stocked)
      stocked
      (nft_send world send_one alice stocked)
nft_send_effect_example = nft_send_effect world lawful.nfts send_one alice stocked

nft_burn_effect_example :
    Ends world
      (NftBurned world burn_one alice stocked)
      stocked
      (nft_burn world burn_one alice stocked)
nft_burn_effect_example = nft_burn_effect world lawful.nfts burn_one alice stocked

query_after_mint_example :
    (query world stocked (nft art (codes "one")) ≡ ok (nft_response (to_nft one)))
    × (query world stocked (owner art (codes "one")) ≡ ok (owner_response alice))
query_after_mint_example =
    query_after_mint world lawful.nfts mint_one alice unminted stocked
      (nft_minted art (codes "one") alice) mint_test

execute-Keeps_example :
    Keeps world alice art gold_denom stocked
      (execute world default_factory alice (message_to (codes "/issue")) stocked).1
execute-Keeps_example =
    execute-Keeps world lawful default_factory alice (message_to (codes "/issue")) stocked art
      gold_denom

-- The store holds both, so that both are kept.
stocked_test :
    (class_at world stocked art ≡ some art_class)
    × (world.issued.may_load stocked.issued gold_denom ≡ some gold_issue)
unfolding bytes_eq
stocked_test = (refl, refl)
