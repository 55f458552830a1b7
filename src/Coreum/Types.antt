-- ===== src/Coreum/Types.antt =====
-- The messages, the stored values and the outside interfaces of the Coreum token factory. The
-- protobuf messages are those of the crate coreum_wasm_sdk.
use cw_it.Base.{ℕ, Option, List, bytes_eq, pair_eq}
use cw_it.Text.{Text, codes}
use cw_it.Chain.{ProtoCoin, Binary, Result, Table, Router}

-- `module_denom_prefix` and `max_hrp_len` are never read.
pub record TokenFactory : Type 0 where
  pub module_denom_prefix : Text
  pub max_subdenom_len : ℕ
  pub max_hrp_len : ℕ
  pub max_creator_len : ℕ
  pub denom_creation_fee : Text

abbrev pub new : Text → ℕ → ℕ → ℕ → Text → TokenFactory
new prefix max_subdenom_len max_hrp_len max_creator_len denom_creation_fee = record {
  module_denom_prefix = prefix;
  max_subdenom_len = max_subdenom_len;
  max_hrp_len = max_hrp_len;
  max_creator_len = max_creator_len;
  denom_creation_fee = denom_creation_fee;
}

-- `Default`
abbrev pub default_factory : TokenFactory
default_factory = new (codes "") 32 16 75 (codes "10000000ucore")

-- The fields of `MsgIssue` that the module reads.
pub record MsgIssue : Type 0 where
  pub issuer : Text
  pub symbol : Text
  pub subunit : Text
  pub precision : ℕ
  pub initial_amount : Text
  pub description : Text

pub record MsgMint : Type 0 where
  pub sender : Text
  pub coin : Option ProtoCoin
  pub recipient : Text

pub record MsgBurn : Type 0 where
  pub sender : Text
  pub coin : Option ProtoCoin

-- `shim::Any`
pub record Any : Type 0 where
  pub type_url : Text
  pub value : Binary

-- The fields of `MsgIssueClass` that the module reads. The features are the numbers of the
-- enumeration `ClassFeature`, each an `i32` by its 32 bits.
pub record MsgIssueClass : Type 0 where
  pub issuer : Text
  pub symbol : Text
  pub name : Text
  pub description : Text
  pub uri : Text
  pub uri_hash : Text
  pub content : Option Any
  pub features : List ℕ

pub record MsgNftMint : Type 0 where
  pub sender : Text
  pub class_id : Text
  pub id : Text
  pub uri : Text
  pub content : Option Any
  pub recipient : Text

pub record MsgNftBurn : Type 0 where
  pub sender : Text
  pub class_id : Text
  pub id : Text

pub record MsgNftSend : Type 0 where
  pub sender : Text
  pub class_id : Text
  pub id : Text
  pub receiver : Text

pub record StoredNft : Type 0 where
  pub class_id : Text
  pub id : Text
  pub owner : Text
  pub uri : Text
  pub content : Option Any

-- The code that the module calls: the router to the bank, the three maps in the storage, Unicode
-- lower case, the numbers of two features, and the messages' type URLs and decoders.
pub record World : Type 1 where
  pub router : Router
  pub issued : Table Text MsgIssue
  pub classes : Table Text MsgIssueClass
  pub nfts : Table (Text × Text) StoredNft
  pub to_lowercase : Text → Text
  pub burning : ℕ
  pub soulbound : ℕ
  pub issue_url : Text
  pub mint_url : Text
  pub burn_url : Text
  pub issue_class_url : Text
  pub nft_mint_url : Text
  pub nft_burn_url : Text
  pub nft_send_url : Text
  pub decode_issue : Binary → Result MsgIssue
  pub decode_mint : Binary → Result MsgMint
  pub decode_burn : Binary → Result MsgBurn
  pub decode_issue_class : Binary → Result MsgIssueClass
  pub decode_nft_mint : Binary → Result MsgNftMint
  pub decode_nft_burn : Binary → Result MsgNftBurn
  pub decode_nft_send : Binary → Result MsgNftSend

-- What the module keeps: `ISSUED_TOKENS`, `ISSUED_NFT_CLASSES`, `MINTED_NFTS`, beside the bank.
pub record Store (W : World) : Type 0 where
  pub issued : W.issued.Rep
  pub classes : W.classes.Rep
  pub nfts : W.nfts.Rep
  pub bank : W.router.Bank
