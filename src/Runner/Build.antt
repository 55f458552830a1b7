-- ===== src/Runner/Build.antt =====
-- The constructors `new` and `new_with_stargate`, for every chain's feature. An app is what
-- `cw_multi_test::BasicAppBuilder` makes of its parts.
pub mod Addresses
use cw_it.Base.{Bool, true, false, Option, none, some}
use cw_it.Text.{Text}
use cw_it.Runner.Types.{App, Runner}

-- `CustomModule`: with the feature of Coreum the module that answers the queries of contracts.
pub data CustomModule : Type 0 where
  failing_module : CustomModule
  coreum_query_module : CustomModule

-- What the builder is given: the prefix of the api, the extra module of the stargate module, and
-- the custom module. The address generator is the one of `cw_multi_test` for all.
pub record Parts (Stargate : Type 0) : Type 0 where
  pub api_prefix : Text
  pub extra : Option Stargate
  pub custom : CustomModule

-- `build`, and what the app can do, where the accounts of its runner have the given prefix.
pub record Builder (Stargate : Type 0) : Type 1 where
  pub app : Parts Stargate → Text → App
  pub build : (parts : Parts Stargate) (address_prefix : Text) → (app parts address_prefix).State

abbrev pub custom_module : Bool → CustomModule
custom_module true = coreum_query_module
custom_module false = failing_module

module _ {Stargate : Type 0} (B : Builder Stargate) (coreum : Bool) (address_prefix : Text) where
  abbrev pub parts : Option Stargate → Parts Stargate
  parts extra = record { api_prefix = address_prefix; extra = extra; custom = custom_module coreum }

  -- No account is made yet.
  unfoldable pub new : Runner (B.app (parts none) address_prefix)
  new = record { app = B.build (parts none) address_prefix; drawn = 0 }

  unfoldable pub new_with_stargate :
      (stargate_impl : Stargate) → Runner (B.app (parts (some stargate_impl)) address_prefix)
  new_with_stargate stargate_impl = record {
    app = B.build (parts (some stargate_impl)) address_prefix;
    drawn = 0;
  }
