-- ===== src/Addresses/Generator.antt =====
-- What the crate's own address generator, src/multi_test/mock_address_generator.rs, gives on the
-- crate's own api.
use cw_it.Base.{
  contains, ℕ, ◌≡◌, refl, ap, sym, ◌∙◌, true, false, some, [], ◌∷◌, ◌++◌, arith, bytes_eq, nat_eq,
  Option-cases, inl, inr, ==-cases,
}
use cw_it.Text.{Text, codes}
use cw_it.Text.Order.{starts_with}
use cw_it.Chain.{Binary, err, invalid_generated_addr}
use cw_it.Addresses.{
  Bech32, addr_canonicalize, addr_validate, contract_address, raw_address, invalid_input,
}

starts_with-separated :
    (prefix bytes word rest : Text)
    → contains word b'1' ≡ false
    → prefix ++ b'1' ∷ bytes ≡ word ++ rest
    → starts_with prefix word ≡ true
unfolding starts_with bytes_eq
starts_with-separated prefix bytes [] rest free e = refl
starts_with-separated [] bytes (w ∷ word) rest free e = absurd (ground (arith, e, free))
starts_with-separated (b ∷ prefix) bytes (w ∷ word) rest free e =
    let later =
      starts_with-separated prefix bytes word rest (ground (arith, free)) (ground (arith, e)) in
    ground (arith, e, later)

module _ (B : Bech32) (prefix : Text) where
  -- A text that decodes is its prefix, a separator and what follows it.
  abbrev pub IsSeparated : Type 0
  IsSeparated =
      (t hrp : Text) (bytes : Binary)
      → B.decode t ≡ some (hrp, bytes)
      → (rest : Text) × (t ≡ hrp ++ b'1' ∷ rest)

  -- If a text that decodes is its prefix, the separator `1` and what follows, then the generator
  -- fails for every code and every instance, whatever the prefix of the chain is, unless that itself
  -- starts with `contract_`: its error is that of an invalid generated address around that of an
  -- invalid input.
  pub contract_address-err :
      (code_id instance_id : ℕ)
      → IsSeparated
      → starts_with prefix (codes "contract_") ≡ false
      → contract_address B prefix code_id instance_id ≡ err (invalid_generated_addr invalid_input)
  unfolding contract_address addr_validate addr_canonicalize bytes_eq nat_eq
  contract_address-err code_id instance_id separated foreign =
      let raw = raw_address B prefix code_id instance_id in
      elim (Option-cases (B.decode raw)) [
        | inl garbled ↦ ground (arith, garbled)
        | inr ((hrp, bytes), decoded) ↦ elim (==-cases hrp prefix) [
          | inl (here, same) ↦
              let (rest, e) = separated raw hrp bytes decoded in
              let begins =
                starts_with-separated prefix rest (codes "contract_") _ refl
                  (ap (λ p. p ++ b'1' ∷ rest) (sym same) ∙ sym e) in
              absurd (ground (arith, begins, foreign))
          | inr there ↦ ground (arith, decoded, there)
        ]
      ]
