-- ===== src/TokenFactory/Types.antt =====
-- The parameters and the messages of the factory. The protobuf messages and their encoding are
-- those of the crate osmosis_std.
use cw_it.Base.{ℕ, Option}
use cw_it.Text.{Text, codes}
use cw_it.Chain.{ProtoCoin, Binary, Result}

-- `max_hrp_len` is never read.
pub record TokenFactory : Type 0 where
  pub module_denom_prefix : Text
  pub max_subdenom_len : ℕ
  pub max_hrp_len : ℕ
  pub max_creator_len : ℕ
  pub denom_creation_fee : Text

abbrev pub new : Text → ℕ → ℕ → ℕ → Text → TokenFactory
new prefix max_subdenom_len max_hrp_len max_creator_len denom_creation_fee = record {
  module_denom_prefix = prefix;
  max_subdenom_len = max_subdenom_len;
  max_hrp_len = max_hrp_len;
  max_creator_len = max_creator_len;
  denom_creation_fee = denom_creation_fee;
}

-- `Default`
abbrev pub default_factory : TokenFactory
default_factory = new (codes "factory") 32 16 75 (codes "10000000uosmo")

pub record MsgCreateDenom : Type 0 where
  pub sender : Text
  pub subdenom : Text

pub record MsgMint : Type 0 where
  pub sender : Text
  pub amount : Option ProtoCoin
  pub mint_to_address : Text

pub record MsgBurn : Type 0 where
  pub sender : Text
  pub amount : Option ProtoCoin

-- The type URLs, the decoders and the encoders of the responses.
pub record Codec : Type 0 where
  pub create_denom_url : Text
  pub mint_url : Text
  pub burn_url : Text
  pub decode_create_denom : Binary → Result MsgCreateDenom
  pub decode_mint : Binary → Result MsgMint
  pub decode_burn : Binary → Result MsgBurn
  pub encode_create_denom_response : Text → Binary
  pub encoded_mint_response : Binary
  pub encoded_burn_response : Binary
