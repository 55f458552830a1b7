-- ===== src/Coreum/Fungible/Initial.antt =====
-- The initial amount of `issue`, and the denom that it is paid in.
use cw_it.Base.{
  ℕ, ◌≡◌, ◌≢◌, ◌⊎◌, inl, inr, true, false, some, [], ◌∷◌, ◌++◌, arith, ltb, Bool-cases,
  Option-cases,
}
use cw_it.Text.{Text, is_empty, parse_u128}
use cw_it.Chain.{AppResponse, default_response, BankSudo, ok}
use cw_it.Coreum.Types.{MsgIssue, World, Store}
use cw_it.Coreum.Fungible.{on_bank, mint_initial}

-- The denom that an issue makes.
abbrev pub new_denom : MsgIssue → Text
new_denom msg = msg.subunit ++ (b'-' ∷ msg.issuer)

module _ (W : World) (msg : MsgIssue) where
  -- What is paid of the initial amount: nothing where none is stated or it is zero, and else the
  -- whole of it in the new denom to the issuer, by the bank.
  abbrev pub InitialPaid : Store W → Store W → AppResponse → Type 0
  InitialPaid s s' minted =
      ((is_empty msg.initial_amount ≡ true) × (minted ≡ default_response) × (s' ≡ s))
      ⊎ ((is_empty msg.initial_amount ≡ false)
          × ((n : ℕ) × (parse_u128 msg.initial_amount ≡ some n)
              × (((n ≡ 0) × (minted ≡ default_response) × (s' ≡ s))
                  ⊎ ((n ≢ 0)
                      × (on_bank W
                            (W.router.sudo (
                              BankSudo.mint msg.issuer
                                (record { denom = new_denom msg; amount = n } ∷ [])))
                            s
                          ≡ (ok minted, s'))))))

  pub mint_initial-of_InitialPaid :
      {s s' : Store W} {minted : AppResponse}
      → InitialPaid s s' minted
      → mint_initial W msg s ≡ (ok minted, s')
  unfolding mint_initial
  mint_initial-of_InitialPaid (inl (unstated, res, same)) = ground (arith, unstated, res, same)
  mint_initial-of_InitialPaid (inr (stated, (n, parsed, inl (zero, res, same)))) =
      ground (arith, stated, parsed, zero, res, same)
  mint_initial-of_InitialPaid (inr (stated, (n, parsed, inr (some_amount, given)))) =
      ground (arith, stated, parsed, some_amount, given)

  pub InitialPaid-of_mint_initial :
      {s s' : Store W} {minted : AppResponse}
      → mint_initial W msg s ≡ (ok minted, s')
      → InitialPaid s s' minted
  unfolding mint_initial
  InitialPaid-of_mint_initial {s} {s'} h = elim (Bool-cases (is_empty msg.initial_amount)) [
    | inl unstated ↦ inl (unstated, ground (arith, h, unstated), ground (arith, h, unstated))
    | inr stated ↦ elim (Option-cases (parse_u128 msg.initial_amount)) [
      | inl unparsed ↦ absurd (ground (arith, h, stated, unparsed))
      | inr (n, parsed) ↦ elim (Bool-cases (ltb 0 n)) [
        | inl positive ↦ inr (
          stated,
          (n, parsed, inr (ground (arith, positive), ground (arith, h, stated, parsed, positive))),
        )
        | inr zero ↦ inr (
          stated,
          (
            n,
            parsed,
            inl (
              ground (arith, zero),
              ground (arith, h, stated, parsed, zero),
              ground (arith, h, stated, parsed, zero),
            ),
          ),
        )
      ]
    ]
  ]
