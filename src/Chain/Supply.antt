-- ===== src/Chain/Supply.antt =====
-- What the bank keeps of each denom: its supply, and how its own operations change it.
use cw_it.Base.{
  ℕ, ◌+◌, ◌≡◌, refl, ap, ◌∙◌, arith, ==-cases, Option-cases, inl, inr, Option, none, some, List, [],
  ◌∷◌, bytes_eq, ◌==◌, if◌then◌else◌,
}
use cw_it.Text.{Text, parse_u128}
use cw_it.Chain.Monad.{Result, ok, err, panicked}
use cw_it.Chain.Types.{Coin, ProtoCoin, AppResponse}
use cw_it.Chain.Routing.{Router, BankMsg, BankSudo}

-- How much of a denom there is among coins.
abbrev pub count : Text → List Coin → ℕ
count d [] = 0
count d (c ∷ coins) = let rest = count d coins in if d == c.denom then c.amount + rest else rest

-- How much of the denom `d` a coin of a message is, if its amount is a `u128`.
abbrev pub amount_in : Text → Option ProtoCoin → ℕ
amount_in d none = 0
amount_in d (some c) = elim (parse_u128 c.amount) [
  | none ↦ 0
  | some n ↦ count d (record { denom = c.denom; amount = n } ∷ [])
]

pub amount_in-parsed :
    (d : Text) (o : Option ProtoCoin) (c : ProtoCoin) (n : ℕ)
    → o ≡ some c
    → parse_u128 c.amount ≡ some n
    → amount_in d o ≡ count d (record { denom = c.denom; amount = n } ∷ [])
amount_in-parsed d o c n e p = ap (amount_in d) e ∙ rw (p, amount_in) refl

-- An amount of what was decoded or read, or none.
abbrev pub if_ok : {A : Type 0} → Result A → (A → ℕ) → ℕ
if_ok (ok a) amount = amount a
if_ok (err e) amount = 0
if_ok panicked amount = 0

pub count-other :
    (d denom : Text) (n : ℕ)
    → (d ≡ denom → ⊥)
    → count d (record { denom = denom; amount = n } ∷ []) ≡ 0
count-other d denom n other = elim (==-cases d denom) [
  | inl (here, same) ↦ absurd (other same)
  | inr there ↦ rw there refl
]

pub count-zero :
    (d denom : Text) (n : ℕ) → n ≡ 0 → count d (record { denom = denom; amount = n } ∷ []) ≡ 0
count-zero d denom n none_there = ground (arith, none_there)

pub amount_in-other : (d : Text) (c : ProtoCoin) → (d ≡ c.denom → ⊥) → amount_in d (some c) ≡ 0
amount_in-other d c other = elim (Option-cases (parse_u128 c.amount)) [
  | inl unparsed ↦ rw (unparsed, amount_in) refl
  | inr (n, parsed) ↦ amount_in-parsed d (some c) c n refl parsed ∙ count-other d c.denom n other
]

-- The bank of the app: the supply that it answers is what it keeps, its mint adds the coins to it,
-- and its burn takes them off.
pub record IsBank (R : Router) : Type 0 where
  pub supply : Text → R.Bank → ℕ
  pub query-supply :
      (d : Text) (bank : R.Bank)
      → R.query_supply d bank ≡ ok (record { denom = d; amount = supply d bank })
  pub mint_adds :
      (to : Text) (coins : List Coin) (bank bank' : R.Bank) (res : AppResponse)
      → R.sudo (BankSudo.mint to coins) bank ≡ (ok res, bank')
      → (d : Text) → supply d bank' ≡ supply d bank + count d coins
  pub burn_takes :
      (sender : Text) (coins : List Coin) (bank bank' : R.Bank) (res : AppResponse)
      → R.execute sender (BankMsg.burn coins) bank ≡ (ok res, bank')
      → (d : Text) → supply d bank' + count d coins ≡ supply d bank
