-- ===== src/Runner/Convert.antt =====
-- `execute_multiple_raw`'s conversion of protobuf messages to `CosmosMsg`.
pub mod Laws
use cw_it.Base.{ℕ, Option, none, some, List, bytes_eq, ◌==◌, if◌then◌else◌}
use cw_it.Text.{Text, codes, parse_u128}
use cw_it.Chain.{Coin, ProtoCoin, Binary, Result, ok, err, panicked, and_then, traverse}
use cw_it.Runner.Types.{
  Any, MsgExecuteContract, MsgInstantiateContract, MsgMigrateContract, MsgUpdateAdmin,
  MsgClearAdmin, MsgSend, MsgDelegate, MsgBeginRedelegate, CosmosMsg, wasm_execute,
  wasm_instantiate, wasm_migrate, wasm_update_admin, wasm_clear_admin, bank_send, staking_delegate,
  staking_undelegate, staking_redelegate, stargate, Wire,
}

-- `coin(u128::from_str(&c.amount).unwrap(), c.denom)`
unfoldable pub to_coin : ProtoCoin → Result Coin
to_coin c = elim (parse_u128 c.amount) [
  | none ↦ panicked
  | some amount ↦ ok (record { denom = c.denom; amount = amount })
]

abbrev pub to_coins : List ProtoCoin → Result (List Coin)
to_coins = traverse to_coin

-- `unwrap_or_default`
abbrev pub or_default : Option ProtoCoin → ProtoCoin
or_default none = record { denom = codes ""; amount = codes "" }
or_default (some c) = c

abbrev pub convert_execute : MsgExecuteContract → Result CosmosMsg
convert_execute m = and_then (to_coins m.funds) λ funds. ok (wasm_execute m.contract m.msg funds)

abbrev pub convert_instantiate : MsgInstantiateContract → Result CosmosMsg
convert_instantiate m =
    and_then (to_coins m.funds)
      λ funds. ok (wasm_instantiate m.code_id (some m.admin) m.msg funds m.label)

abbrev pub convert_send : MsgSend → Result CosmosMsg
convert_send m = and_then (to_coins m.amount) λ amount. ok (bank_send m.to_address amount)

abbrev pub convert_delegate : MsgDelegate → Result CosmosMsg
convert_delegate m =
    and_then (to_coin (or_default m.amount))
      λ amount. ok (staking_delegate m.validator_address amount)

abbrev pub convert_undelegate : MsgDelegate → Result CosmosMsg
convert_undelegate m =
    and_then (to_coin (or_default m.amount))
      λ amount. ok (staking_undelegate m.validator_address amount)

abbrev pub convert_redelegate : MsgBeginRedelegate → Result CosmosMsg
convert_redelegate m =
    and_then (to_coin (or_default m.amount))
      λ amount. ok (staking_redelegate m.validator_src_address m.validator_dst_address amount)

-- `match msg.type_url.as_str()`; what is unknown is a stargate message.
unfoldable pub convert : Wire → Any → Result CosmosMsg
unfolding bytes_eq
convert W any =
    if any.type_url == W.execute_url
    then and_then (W.decode_execute any.value) convert_execute
    else if any.type_url == W.instantiate_url
    then and_then (W.decode_instantiate any.value) convert_instantiate
    else if any.type_url == W.migrate_url
    then and_then (W.decode_migrate any.value) (λ m. ok (wasm_migrate m.contract m.code_id m.msg))
    else if any.type_url == W.update_admin_url
    then and_then (W.decode_update_admin any.value)
        (λ m. ok (wasm_update_admin m.contract m.new_admin))
    else if any.type_url == W.clear_admin_url
    then and_then (W.decode_clear_admin any.value) (λ m. ok (wasm_clear_admin m.contract))
    else if any.type_url == W.send_url
    then and_then (W.decode_send any.value) convert_send
    else if any.type_url == W.delegate_url
    then and_then (W.decode_delegate any.value) convert_delegate
    else if any.type_url == W.undelegate_url
    then and_then (W.decode_undelegate any.value) convert_undelegate
    else if any.type_url == W.redelegate_url
    then and_then (W.decode_redelegate any.value) convert_redelegate
    else ok (stargate any.type_url any.value)

abbrev pub convert_all : Wire → List Any → Result (List CosmosMsg)
convert_all W = traverse (convert W)
