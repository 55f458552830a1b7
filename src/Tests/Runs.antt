-- ===== src/Tests/Runs.antt =====
-- The runner on a small app.
use cw_it.Base.{◌≡◌, refl, none, some, List, [], ◌∷◌, ◌++◌, map, bytes_eq}
use cw_it.Text.{Text, codes, print_u128, parse_u128}
use cw_it.Chain.{
  Coin, Binary, AppResponse, default_response, Result, ok, err, external, BankSudo, traverse,
}
use cw_it.UnifiedStargate.{to_proto}
use cw_it.Runner.{Any, CosmosMsg, bank_send, stargate, Wire, Message, App}
use cw_it.Runner.Convert.{convert, convert_all, to_coin}
use cw_it.Tests.Samples.{bob, Ledger, bank_sudo}

abbrev pub seven : Coin
seven = record { denom = codes "uosmo"; amount = 7 }

abbrev refused : {A : Type 0} → Binary → Result A
refused _ = err (external (codes "not this message"))

-- Only sends decode, to the seven coins for Bob.
abbrev pub wire : Wire
wire = record {
  execute_url = codes "/execute";
  instantiate_url = codes "/instantiate";
  migrate_url = codes "/migrate";
  update_admin_url = codes "/update";
  clear_admin_url = codes "/clear";
  send_url = codes "/send";
  delegate_url = codes "/delegate";
  undelegate_url = codes "/undelegate";
  redelegate_url = codes "/redelegate";
  decode_execute = refused;
  decode_instantiate = refused;
  decode_migrate = refused;
  decode_update_admin = refused;
  decode_clear_admin = refused;
  decode_send = λ _. ok (record { to_address = bob; amount = map to_proto (seven ∷ []) });
  decode_delegate = λ _. ok (record { validator_address = bob; amount = none });
  decode_undelegate = refused;
  decode_redelegate = refused;
}

abbrev send_any : Any
send_any = record { type_url = codes "/send"; value = [] }

abbrev other_any : Any
other_any = record { type_url = codes "/other"; value = 1 ∷ [] }

abbrev send_msg : CosmosMsg
send_msg = bank_send bob (seven ∷ [])

abbrev other_msg : CosmosMsg
other_msg = stargate (codes "/other") (1 ∷ [])

convert_test : convert_all wire (send_any ∷ other_any ∷ []) ≡ ok (send_msg ∷ other_msg ∷ [])
unfolding traverse convert to_coin to_proto parse_u128 print_u128
convert_test = refl

-- A response type that is its bytes.
abbrev pub bytes_message : Message Binary
bytes_message = record { decode = λ b. some b; default = []; encode = λ b. b }

-- Each message is answered by an empty response, and the coins that a send moves are noted.
abbrev run_all : Text → List CosmosMsg → Ledger → Result (List AppResponse) × Ledger
run_all signer msgs l = (ok (map (λ _. default_response) msgs), seven ∷ l)

abbrev pub small_app : App
small_app = record {
  State = Ledger;
  Contract = Text;
  execute_multi = run_all;
  sudo_mint = λ to coins. bank_sudo (BankSudo.mint to coins);
  store_code = λ c l. (1, l);
  random_address = λ n. codes "acc" ++ print_u128 n;
  recode = ok;
}
