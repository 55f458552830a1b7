-- ===== src/Tests/CoreumSamples.antt =====
-- A Coreum token factory on maps that are lists, with one token, one class and one NFT of Alice.
use cw_it.Base.{none, some, [], ◌∷◌, bytes_eq, pair_eq}
use cw_it.Text.{Text, codes}
use cw_it.Chain.{ok, StargateMsg}
use cw_it.Coreum.{
  MsgIssue, MsgMint, MsgBurn, MsgIssueClass, MsgNftMint, MsgNftBurn, MsgNftSend, StoredNft, World,
  Store,
}
use cw_it.Coreum.Invariant.{AreLawful}
use cw_it.Tests.Memory.{memory, memory-IsLawful}
use cw_it.Tests.Samples.{alice, bob, small_bank}

abbrev pub gold_issue : MsgIssue
gold_issue = record {
  issuer = alice;
  symbol = codes "GOLD";
  subunit = codes "gold";
  precision = 6;
  initial_amount = codes "5";
  description = codes "";
}

abbrev pub gold_denom : Text
gold_denom = codes "gold-alice"

abbrev pub mint_of : Text → Text → MsgMint
mint_of denom recipient = record {
  sender = alice;
  coin = some (record { denom = denom; amount = codes "5" });
  recipient = recipient;
}

abbrev pub burn_of : Text → MsgBurn
burn_of denom = record {
  sender = alice;
  coin = some (record { denom = denom; amount = codes "5" });
}

abbrev pub art_class : MsgIssueClass
art_class = record {
  issuer = alice;
  symbol = codes "art";
  name = codes "Art";
  description = codes "";
  uri = codes "";
  uri_hash = codes "";
  content = none;
  features = 0 ∷ [];
}

abbrev pub art : Text
art = codes "art-alice"

abbrev pub mint_one : MsgNftMint
mint_one = record {
  sender = alice;
  class_id = art;
  id = codes "one";
  uri = codes "";
  content = none;
  recipient = codes "";
}

abbrev pub send_one : MsgNftSend
send_one = record { sender = alice; class_id = art; id = codes "one"; receiver = bob }

abbrev pub burn_one : MsgNftBurn
burn_one = record { sender = alice; class_id = art; id = codes "one" }

abbrev pub one : StoredNft
one = record { class_id = art; id = codes "one"; owner = alice; uri = codes ""; content = none }

abbrev pub bobs_one : StoredNft
bobs_one = record one { owner = bob }

abbrev pub world : World
world = record {
  router = small_bank;
  issued = memory;
  classes = memory;
  nfts = memory;
  to_lowercase = λ t. t;
  burning = 0;
  soulbound = 4;
  issue_url = codes "/issue";
  mint_url = codes "/mint";
  burn_url = codes "/burn";
  issue_class_url = codes "/class";
  nft_mint_url = codes "/nft_mint";
  nft_burn_url = codes "/nft_burn";
  nft_send_url = codes "/nft_send";
  decode_issue = λ _. ok gold_issue;
  decode_mint = λ _. ok (mint_of gold_denom bob);
  decode_burn = λ _. ok (burn_of gold_denom);
  decode_issue_class = λ _. ok art_class;
  decode_nft_mint = λ _. ok mint_one;
  decode_nft_burn = λ _. ok burn_one;
  decode_nft_send = λ _. ok send_one;
}

pub lawful : AreLawful world
lawful = record { issued = memory-IsLawful; classes = memory-IsLawful; nfts = memory-IsLawful }

abbrev pub message_to : Text → StargateMsg
message_to url = record { type_url = url; value = [] }

-- Gold is issued, the class of art is there, and so is its NFT.
abbrev pub stocked : Store world
stocked = record {
  issued = (gold_denom, gold_issue) ∷ [];
  classes = (art, art_class) ∷ [];
  nfts = ((art, codes "one"), one) ∷ [];
  bank = [];
}

-- The same before the NFT was minted.
abbrev pub unminted : Store world
unminted = record stocked { nfts = [] }
