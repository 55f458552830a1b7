-- ===== src/Runner/Convert/Laws.antt =====
-- What the conversion of protobuf messages keeps, and where it fails.
use cw_it.Base.{◌<◌, ◌≡◌, ◌≢◌, ◌↔◌, refl, subst, none, List, [], ◌∷◌, ◌++◌, map, arith, bytes_eq}
use cw_it.Text.{Text, parse_u128, u128_mod}
use cw_it.Text.Decimal.{parse_u128-print_u128}
use cw_it.Chain.{
  Coin, Binary, Error, ok-cancel, ok, err, panicked, traverse, outcome, succeeds, fails, panics,
}
use cw_it.UnifiedStargate.{to_proto}
use cw_it.UnifiedStargate.Laws.{AreAmounts}
use cw_it.Runner.Types.{Any, MsgDelegate, MsgBeginRedelegate, CosmosMsg, bank_send, Wire}
use cw_it.Runner.Convert.{
  to_coin, to_coins, convert, convert_all, convert_delegate, convert_undelegate, convert_redelegate,
}

to_coin-to_proto : (c : Coin) → c.amount < u128_mod → to_coin (to_proto c) ≡ ok c
unfolding to_coin to_proto
to_coin-to_proto c small = ground (arith, parse_u128-print_u128 c.amount small)

to_coins-to_proto :
    (coins : List Coin) → AreAmounts coins → to_coins (map to_proto coins) ≡ ok coins
unfolding traverse
to_coins-to_proto [] small = refl
to_coins-to_proto (c ∷ coins) (small, rest) =
    rw (to_coin-to_proto c small, to_coins-to_proto coins rest) refl

-- The URL of a send is none of those that are tested before it.
abbrev IsSendUrl : Wire → Type 0
IsSendUrl W =
    (W.send_url ≢ W.execute_url)
    × (W.send_url ≢ W.instantiate_url)
    × (W.send_url ≢ W.migrate_url)
    × (W.send_url ≢ W.update_admin_url)
    × (W.send_url ≢ W.clear_admin_url)

-- If the type URL of a send is none of those that are tested before it, and the value decodes to a
-- send of coins with amounts below 2 ^ 128, which are written as decimal text, then it converts to
-- the bank's send of those coins.
convert-send_of_coins :
    (W : Wire) (value : Binary) (to_address : Text) (coins : List Coin)
    → IsSendUrl W
    → W.decode_send value ≡ ok (record { to_address = to_address; amount = map to_proto coins })
    → AreAmounts coins
    → convert W (record { type_url = W.send_url; value = value }) ≡ ok (bank_send to_address coins)
unfolding convert
convert-send_of_coins W value to_address coins differ decodes small =
    ground (arith, to_coins-to_proto coins small)

-- A message converts to what the other names, one by one and in the same order.
data Converts (W : Wire) : List Any → List CosmosMsg → Type 0 where
  nothing : Converts W [] []
  then_one :
      (any : Any) (msg : CosmosMsg) (anys : List Any) (msgs : List CosmosMsg)
      → convert W any ≡ ok msg
      → Converts W anys msgs
      → Converts W (any ∷ anys) (msg ∷ msgs)

Converts-of_convert_all :
    (W : Wire) (anys : List Any) (msgs : List CosmosMsg)
    → convert_all W anys ≡ ok msgs
    → Converts W anys msgs
unfolding traverse
Converts-of_convert_all W [] msgs h = rw (← ok-cancel h) nothing
Converts-of_convert_all W (any ∷ anys) msgs h = elim (outcome (convert W any)) [
  | succeeds msg e ↦ elim (outcome (convert_all W anys)) [
    | succeeds rest e' ↦
        subst (Converts W (any ∷ anys)) (ground arith)
          (then_one any msg anys rest e (Converts-of_convert_all W anys rest e'))
    | fails f e' ↦ absurd (ground arith)
    | panics e' ↦ absurd (ground arith)
  ]
  | fails f e ↦ absurd (ground arith)
  | panics e ↦ absurd (ground arith)
]

convert_all-of_Converts :
    (W : Wire) (anys : List Any) (msgs : List CosmosMsg)
    → Converts W anys msgs
    → convert_all W anys ≡ ok msgs
unfolding traverse
convert_all-of_Converts W anys msgs nothing = refl
convert_all-of_Converts W _ _ (then_one any msg anys msgs e c) =
    rw (e, convert_all-of_Converts W anys msgs c) refl

-- The conversion of a batch of messages succeeds with the messages that the single ones convert
-- to, one by one and in order, and only so.
convert_all_succeeds_iff :
    (W : Wire) (anys : List Any) (msgs : List CosmosMsg)
    → convert_all W anys ≡ ok msgs ↔ Converts W anys msgs
convert_all_succeeds_iff W anys msgs =
    (Converts-of_convert_all W anys msgs, convert_all-of_Converts W anys msgs)

-- A batch panics at a message whose conversion panics, and ends with the error of one whose
-- conversion fails, if all before it convert: what follows that message does not matter.
convert_all_stops :
    (W : Wire) (before after : List Any) (panicking failing : Any) (msgs : List CosmosMsg)
    (e : Error)
    → convert_all W before ≡ ok msgs
    → convert W panicking ≡ panicked
    → convert W failing ≡ err e
    → (convert_all W (before ++ panicking ∷ after) ≡ panicked)
      × (convert_all W (before ++ failing ∷ after) ≡ err e)
unfolding traverse
convert_all_stops W [] after panicking failing msgs e h hp hf = (ground arith, ground arith)
convert_all_stops W (b ∷ before) after panicking failing msgs e h hp hf =
    elim (outcome (convert W b)) [
      | succeeds m first ↦ elim (outcome (convert_all W before)) [
        | succeeds rest h' ↦
            let (panics_too, fails_too) =
              convert_all_stops W before after panicking failing rest e h' hp hf in
            (rw (first, panics_too) refl, rw (first, fails_too) refl)
        | fails f h' ↦ absurd (ground arith)
        | panics h' ↦ absurd (ground arith)
      ]
      | fails f first ↦ absurd (ground arith)
      | panics first ↦ absurd (ground arith)
    ]

-- The conversion of a delegation, an undelegation or a redelegation that carries no amount panics.
stake_without_amount_panics :
    (delegate : MsgDelegate) (redelegate : MsgBeginRedelegate)
    → delegate.amount ≡ none
    → redelegate.amount ≡ none
    → (convert_delegate delegate ≡ panicked)
      × (convert_undelegate delegate ≡ panicked)
      × (convert_redelegate redelegate ≡ panicked)
unfolding to_coin parse_u128
stake_without_amount_panics delegate redelegate missing missing' =
    rw (missing, missing') (refl, refl, refl)
