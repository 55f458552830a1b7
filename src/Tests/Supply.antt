-- ===== src/Tests/Supply.antt =====
-- Histories of the factories on a bank that keeps its supplies.
use cw_it.Base.{
  ℕ, ◌+◌, ◌-◌, ◌≡◌, refl, List, [], ◌∷◌, bytes_eq, nat_eq, ◌==◌, leb, if◌then◌else◌, arith, ap, sym,
  ==-cases, inl, inr, Bool-cases, leb→le,
}
use cw_it.Text.{Text, codes, split, parse_u128, print_u128}
use cw_it.Regex.{many}
use cw_it.SdkCoin.{coin_from_sdk_string, is_sdk_string, split_amount}
use cw_it.Chain.{
  Coin, AppResponse, default_response, Result, ok, err, external, StargateMsg, Router, BankMsg,
  BankSudo, IsBank, count, if_ok, run, total, commit, accepts,
}
use cw_it.TokenFactory.{default_factory, execute, create_denom, mint, burn, create_denom_response}
use cw_it.TokenFactory.Supply.{
  minted, burned, run-supply, outsiders_keep_supply, create_denom-after_run,
}
use cw_it.Tests.Samples.{alice, bob, codec_for, gold, new_gold}

-- The bank as the supply of each denom; it burns one coin at a time.
abbrev pub Supplies : Type 0
Supplies = Text → ℕ

abbrev pub burn_one : List Coin → Supplies → Result AppResponse × Supplies
burn_one [] l = (err (external (codes "no coins")), l)
burn_one (c ∷ []) l =
    if leb c.amount (l c.denom)
    then (ok default_response, λ d. l d - count d (c ∷ []))
    else (err (external (codes "insufficient funds")), l)
burn_one (c ∷ c' ∷ coins) l = (err (external (codes "more than one coin")), l)

abbrev pub supplies_execute : Text → BankMsg → Supplies → Result AppResponse × Supplies
supplies_execute sender (BankMsg.send to coins) l = (ok default_response, l)
supplies_execute sender (BankMsg.burn coins) l = burn_one coins l

abbrev pub supplies_sudo : BankSudo → Supplies → Result AppResponse × Supplies
supplies_sudo (BankSudo.mint to coins) l = (ok default_response, λ d. l d + count d coins)

abbrev pub supplies : Router
supplies = record {
  Bank = Supplies;
  query_supply = λ d l. ok (record { denom = d; amount = l d });
  execute = supplies_execute;
  sudo = supplies_sudo;
}

pub burn_one_takes :
    (coins : List Coin) (l l' : Supplies) (res : AppResponse)
    → burn_one coins l ≡ (ok res, l')
    → (d : Text) → l' d + count d coins ≡ l d
unfolding bytes_eq
burn_one_takes [] l l' res h d = absurd (ground (arith, h))
burn_one_takes (c ∷ []) l l' res h d = elim (Bool-cases (leb c.amount (l c.denom))) [
  | inr short ↦ absurd (ground (arith, rw short at h))
  | inl enough ↦
      let rest : l d - count d (c ∷ []) ≡ l' d = ap (λ r. r.1 d) (rw enough at h) in
      elim (==-cases d c.denom) [
        | inl (here, same) ↦
            let all : l d ≡ l c.denom = ap l same in
            let covered = leb→le c.amount (l c.denom) enough in
            rw here (omega (arith, rw here at rest))
        | inr there ↦ rw there (omega (arith, rw there at rest))
      ]
]
burn_one_takes (c ∷ c' ∷ coins) l l' res h d = absurd (ground (arith, h))

abbrev pub supplies-IsBank : IsBank supplies
supplies-IsBank = record {
  supply = λ d l. l d;
  query-supply = λ d l. refl;
  mint_adds = λ to coins l l' res h d. ap (λ r. r.1 d) (sym h);
  burn_takes = λ sender coins l l' res h d. burn_one_takes coins l l' res h d;
}

-- Alice creates gold and mints it, Bob tries to, and Alice burns what there is.
abbrev history : List (Text × StargateMsg)
history =
    (alice, record { type_url = codes "/create"; value = [] })
    ∷ (alice, record { type_url = codes "/mint"; value = [] })
    ∷ (bob, record { type_url = codes "/mint"; value = [] })
    ∷ (alice, record { type_url = codes "/mint"; value = [] })
    ∷ (alice, record { type_url = codes "/burn"; value = [] })
    ∷ []

abbrev rich : Supplies
rich d = if d == codes "uosmo" then 20_000_000 else 0

history_test : run (execute supplies (codec_for gold) default_factory) history rich gold ≡ 5
unfolding execute create_denom mint burn coin_from_sdk_string is_sdk_string many split_amount
    parse_u128 print_u128 split run commit accepts bytes_eq
history_test = refl

run-supply_example :
    run (execute supplies (codec_for gold) default_factory) history rich gold
      + total
          (execute supplies (codec_for gold) default_factory)
          (burned (codec_for gold) default_factory gold)
          history
          rich
    ≡ rich gold
      + total
          (execute supplies (codec_for gold) default_factory)
          (minted (codec_for gold) default_factory gold)
          history
          rich
run-supply_example =
    run-supply supplies (codec_for gold) default_factory supplies-IsBank gold history rich

no_fee_in_carols :
    if_ok
      (coin_from_sdk_string default_factory.denom_creation_fee)
      (λ fee. count (codes "factory/carol/gold") (fee ∷ []))
    ≡ 0
unfolding coin_from_sdk_string is_sdk_string many split_amount parse_u128 print_u128 bytes_eq
no_fee_in_carols = refl

outsiders_keep_supply_example :
    run
      (execute supplies (codec_for gold) default_factory)
      history
      rich
      (codes "factory/carol/gold")
    ≡ rich (codes "factory/carol/gold")
unfolding coin_from_sdk_string is_sdk_string many split_amount parse_u128 split bytes_eq
outsiders_keep_supply_example =
    outsiders_keep_supply supplies (codec_for gold) default_factory supplies-IsBank
      (codes "factory/carol/gold") history rich no_fee_in_carols
      (
        λ e. ground (arith, e),
        (
          λ e. ground (arith, e),
          (λ e. ground (arith, e), (λ e. ground (arith, e), (λ e. ground (arith, e), tt))),
        ),
      )

-- What is minted is burned again.
abbrev spent : List (Text × StargateMsg)
spent =
    (alice, record { type_url = codes "/create"; value = [] })
    ∷ (alice, record { type_url = codes "/mint"; value = [] })
    ∷ (alice, record { type_url = codes "/burn"; value = [] })
    ∷ []

abbrev after_spent : Supplies
after_spent = run (execute supplies (codec_for gold) default_factory) spent rich

created_again :
    (create_denom supplies (codec_for gold) default_factory alice [] after_spent).0
    ≡ ok (create_denom_response (codec_for gold) alice gold)
unfolding execute create_denom mint burn coin_from_sdk_string is_sdk_string many split_amount
    parse_u128 print_u128 split run commit accepts bytes_eq create_denom_response
created_again = refl

create_denom-after_run_example :
    total
      (execute supplies (codec_for gold) default_factory)
      (burned (codec_for gold) default_factory gold)
      spent
      rich
    ≡ rich gold
      + total
          (execute supplies (codec_for gold) default_factory)
          (minted (codec_for gold) default_factory gold)
          spent
          rich
create_denom-after_run_example =
    create_denom-after_run supplies (codec_for gold) default_factory supplies-IsBank gold spent rich
      (create_denom supplies (codec_for gold) default_factory alice [] after_spent).1 alice []
      new_gold (create_denom_response (codec_for gold) alice gold) refl refl
      (ap
        (λ r. (r, (create_denom supplies (codec_for gold) default_factory alice [] after_spent).1))
        created_again)
