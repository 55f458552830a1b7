-- ===== src/Tests/Counting.antt =====
-- A history of NFTs, and how many there are after it.
use cw_it.Base.{◌+◌, ◌≡◌, refl, List, [], ◌∷◌, bytes_eq, nat_eq, pair_eq}
use cw_it.Text.{Text, codes}
use cw_it.Chain.{StargateMsg, run, total, commit, accepts}
use cw_it.Coreum.{default_factory}
use cw_it.Coreum.Handle.{execute}
use cw_it.Coreum.Nft.{issue_class, nft_mint, nft_send}
use cw_it.Coreum.Count.{nft_count, made, taken}
use cw_it.Coreum.Count.Histories.{run-nft_count}
use cw_it.Coreum.Invariant.Histories.{empty_store}
use cw_it.Tests.Samples.{alice}
use cw_it.Tests.CoreumSamples.{world, lawful, art, message_to}

-- Alice issues art and mints one piece, twice, and sends it to Bob.
abbrev history : List (Text × StargateMsg)
history =
    (alice, message_to (codes "/class"))
    ∷ (alice, message_to (codes "/nft_mint"))
    ∷ (alice, message_to (codes "/nft_mint"))
    ∷ (alice, message_to (codes "/nft_send"))
    ∷ []

history_test :
    nft_count world art (run (execute world default_factory) history (empty_store world [])) ≡ 1
unfolding execute issue_class nft_mint nft_send run commit accepts bytes_eq nat_eq pair_eq
history_test = refl

run-nft_count_example :
    nft_count world art (run (execute world default_factory) history (empty_store world []))
      + total (execute world default_factory) (taken world art) history (empty_store world [])
    ≡ nft_count world art (empty_store world [])
      + total (execute world default_factory) (made world art) history (empty_store world [])
run-nft_count_example =
    run-nft_count world art default_factory history (empty_store world []) lawful.nfts
