-- ===== src/Coreum/Answers.antt =====
-- The values of the query module's answers, and how they are built from what is stored.
use cw_it.Base.{ℕ, ◌%◌, ◌^◌, Bool, false, Option, none, some, List, [], map, if◌then◌else◌}
use cw_it.Text.{Text, codes, is_empty}
use cw_it.Chain.{Binary}
use cw_it.Coreum.Types.{MsgIssue, MsgIssueClass, StoredNft, Any}

-- `nft::NFT`
pub record Nft : Type 0 where
  pub class_id : Text
  pub id : Text
  pub uri : Option Text
  pub uri_hash : Option Text
  pub content : Option Binary

-- `assetnft::Class`
pub record Class : Type 0 where
  pub id : Text
  pub issuer : Text
  pub name : Text
  pub symbol : Text
  pub description : Option Text
  pub uri : Option Text
  pub uri_hash : Option Text
  pub features : Option (List ℕ)
  pub content : Option Binary
  pub royalty_rate : Option Text

-- `assetft::Token`; `features` lists numbers and `admin` is text.
pub record Token : Type 0 where
  pub denom : Text
  pub issuer : Text
  pub symbol : Text
  pub subunit : Text
  pub precision : ℕ
  pub description : Option Text
  pub globally_frozen : Option Bool
  pub features : Option (List ℕ)
  pub burn_rate : Text
  pub send_commission_rate : Text
  pub version : ℕ
  pub uri : Option Text
  pub uri_hash : Option Text
  pub extension_cw_address : Option Text
  pub admin : Option Text

abbrev pub value_of : Option Any → Option Binary
value_of none = none
value_of (some any) = some any.value

pub to_nft : StoredNft → Nft
to_nft stored = record {
  class_id = stored.class_id;
  id = stored.id;
  uri = if is_empty stored.uri then none else some stored.uri;
  uri_hash = none;
  content = value_of stored.content;
}

pub to_class : Text → MsgIssueClass → Class
to_class id issue = record {
  id = id;
  issuer = issue.issuer;
  name = issue.name;
  symbol = issue.symbol;
  description = some issue.description;
  uri = some issue.uri;
  uri_hash = some issue.uri_hash;
  features = some (map (λ f. f % 2 ^ 32) issue.features);
  content = value_of issue.content;
  royalty_rate = some (codes "0");
}

pub to_token : Text → MsgIssue → Token
to_token denom issue = record {
  denom = denom;
  issuer = issue.issuer;
  symbol = issue.symbol;
  subunit = issue.subunit;
  precision = issue.precision;
  description = some issue.description;
  globally_frozen = some false;
  features = some [];
  burn_rate = codes "0";
  send_commission_rate = codes "0";
  version = 0;
  uri = some (codes "");
  uri_hash = some (codes "");
  extension_cw_address = none;
  admin = none;
}

-- The token of the chain itself.
pub native_token : Text → Token
native_token denom = record {
  denom = denom;
  issuer = codes "";
  symbol = codes "CORE";
  subunit = denom;
  precision = 6;
  description = some (codes "Native Coreum token");
  globally_frozen = some false;
  features = some [];
  burn_rate = codes "0";
  send_commission_rate = codes "0";
  version = 0;
  uri = some (codes "");
  uri_hash = some (codes "");
  extension_cw_address = none;
  admin = none;
}
