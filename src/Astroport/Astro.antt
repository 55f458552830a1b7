-- ===== src/Astroport/Astro.antt =====
-- `create_astro`: the native astro token, issued by the token factory of the chain.
pub mod OnFactory
use cw_it.Base.{ℕ, ◌^◌, Option, none, some, List, [], ◌∷◌, ◌++◌}
use cw_it.Text.{Text, codes, print_u128}
use cw_it.Chain.{ProtoCoin, Action, pure, unwrap}
use cw_it.Chain.Seq.{◌>>=◌, ◌>>◌}
use cw_it.Client.{Account}
use cw_it.TokenFactory.{MsgCreateDenom, MsgMint}
use cw_it.Coreum as CoreumFactory

-- `1e18.to_string()`
abbrev pub astro_amount : Text
astro_amount = print_u128 1_000_000_000_000_000_000

abbrev pub denom_msg : Account → MsgCreateDenom
denom_msg admin = record { sender = admin.address; subdenom = codes "astro" }

abbrev pub mint_msg : Account → Text → MsgMint
mint_msg admin astro_native_denom = record {
  sender = admin.address;
  amount = some (record { denom = astro_native_denom; amount = astro_amount });
  mint_to_address = admin.address;
}

module _ {S : Type 0} (create_denom : MsgCreateDenom → Account → Action S Text)
    (mint : MsgMint → Account → Action S (Unit {0})) where
  -- By `Runner::execute` with a message that creates a denom, whose response holds the new denom,
  -- and with one that mints.
  unfoldable pub create_astro : Account → Action S Text
  create_astro admin = do
    astro_native_denom ← unwrap (create_denom (denom_msg admin) admin)
    unwrap (mint (mint_msg admin astro_native_denom) admin)
    pure astro_native_denom

module _ {S : Type 0} (issue : CoreumFactory.MsgIssue → Account → Action S (Unit {0}))
    (mint : CoreumFactory.MsgMint → Account → Action S (Unit {0})) where
  -- With the feature of Coreum; of the message's fields those that the factory reads.
  unfoldable pub coreum_create_astro : Account → Action S Text
  coreum_create_astro admin = do
    unwrap (
        issue
          (record {
            issuer = admin.address;
            subunit = codes "astro";
            symbol = codes "ASTRO";
            precision = 6;
            initial_amount = codes "0";
            description = codes "";
          })
          admin)
    let astro_native_denom = codes "astro" ++ codes "-" ++ admin.address
    unwrap (
        mint
          (record {
            sender = admin.address;
            coin = some (record { denom = astro_native_denom; amount = astro_amount });
            recipient = admin.address;
          })
          admin)
    pure astro_native_denom
