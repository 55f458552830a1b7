-- ===== src/Coreum/Fungible/Checks.antt =====
-- The checks that `mint` and `burn` share: they change nothing, and what passes them.
use cw_it.Base.{ℕ, ◌≡◌, ◌≢◌, inl, inr, some, length, get_elem?, arith, Option-cases}
use cw_it.Text.{Text, split, parse_u128}
use cw_it.Chain.{Error, ok}
use cw_it.Coreum.Types.{MsgIssue, World, Store}
use cw_it.Coreum.Fungible.{check_denom, check_amount}

module _ (W : World) where
  -- The denom has two parts, the second is the sender, the message names the sender, and the denom
  -- is stored as issued.
  pub record MayHandle (denom sender msg_sender : Text) (s : Store W) : Type 0 where
    pub issue : MsgIssue
    pub shape : length (split b'-' denom) ≡ 2
    pub is_issuer : get_elem? (split b'-' denom) 1 ≡ some sender
    pub is_sender : msg_sender ≡ sender
    pub is_issued : W.issued.may_load s.issued denom ≡ some issue

-- The text is a `u128` above zero.
pub record IsAmount (text : Text) (amount : ℕ) : Type 0 where
  pub parsed : parse_u128 text ≡ some amount
  pub is_positive : amount ≢ 0

module _ (W : World) (e : Error) (denom sender msg_sender : Text) (s : Store W) where
  pub check_denom_state : (check_denom W e denom sender msg_sender s).1 ≡ s
  unfolding check_denom
  check_denom_state = ground arith

  pub check_denom-of_MayHandle :
      MayHandle W denom sender msg_sender s → check_denom W e denom sender msg_sender s ≡ (ok tt, s)
  unfolding check_denom
  check_denom-of_MayHandle may = ground arith

  pub MayHandle-of_check_denom :
      {u : Unit {0}}
      → (check_denom W e denom sender msg_sender s).0 ≡ ok u
      → MayHandle W denom sender msg_sender s
  unfolding check_denom
  MayHandle-of_check_denom h = elim (Option-cases (W.issued.may_load s.issued denom)) [
    | inr (issue, is_issued) ↦ record {
      issue = issue;
      shape = ground arith;
      is_issuer = ground arith;
      is_sender = ground arith;
      is_issued = is_issued;
    }
    | inl unknown ↦ absurd (ground arith)
  ]

module _ (W : World) (text : Text) where
  pub check_amount_state : (s : Store W) → (check_amount W text s).1 ≡ s
  unfolding check_amount
  check_amount_state s = ground arith

  pub check_amount-of_IsAmount :
      (amount : ℕ) (s : Store W) → IsAmount text amount → check_amount W text s ≡ (ok amount, s)
  unfolding check_amount
  check_amount-of_IsAmount amount s is = ground arith

  pub IsAmount-of_check_amount :
      (amount : ℕ) (s : Store W) → (check_amount W text s).0 ≡ ok amount → IsAmount text amount
  unfolding check_amount
  IsAmount-of_check_amount amount s h = ground arith
