-- ===== src/Tests/Names.antt =====
-- Addresses by a coding without a checksum, and the names of the runners.
use cw_it.Base.{
  [], Option-cases, Option, none, nat_eq, arith, ==-cases, ◌==◌, if◌then◌else◌, inl, inr, ℕ, ◌≡◌,
  refl, some, ◌∷◌, ◌++◌, drop, bytes_eq, some-cancel,
}
use cw_it.Text.{Text, codes}
use cw_it.Text.Order.{starts_with}
use cw_it.Chain.{ok, err, external, ok-cancel, invalid_generated_addr}
use cw_it.Addresses.{
  Bech32, addr_make, addr_humanize, addr_validate, addr_canonicalize, contract_address,
}
use cw_it.Addresses.Generator.{IsSeparated, contract_address-err}
use cw_it.Addresses.Laws.{DecodesBack, made_addresses_are_valid}
use cw_it.TestRunner.{from_str}
use cw_it.TestRunner.Types.{OwnedTestRunner, owned_multi_test}

-- The prefix, a `1` and the bytes.
abbrev pub plain : Bech32
plain = record {
  Hrp = Text;
  decode = λ t. some (codes "osmo", drop 5 t);
  parse_hrp = ok;
  encode = λ hrp bytes. some (hrp ++ (b'1' ∷ bytes));
  sha256 = λ t. t;
}

pub plain_back : DecodesBack plain (codes "osmo")
plain_back hrp bytes t parsed encoded = rw (← some-cancel encoded, ← ok-cancel parsed) refl

made_addresses_are_valid_example :
    (addr_validate plain (codes "osmo") (codes "osmo1bob") ≡ ok (codes "osmo1bob"))
    × (addr_canonicalize plain (codes "osmo") (codes "osmo1bob") ≡ ok (codes "bob"))
    × (addr_validate plain (codes "osmo") (codes "osmo1al") ≡ ok (codes "osmo1al"))
    × (addr_canonicalize plain (codes "osmo") (codes "osmo1al") ≡ ok (codes "al"))
unfolding addr_make addr_humanize
made_addresses_are_valid_example =
    made_addresses_are_valid plain (codes "osmo") (codes "bob") (codes "osmo1bob") (codes "osmo1al")
      (codes "al") plain_back refl refl

-- The bytes after the first `1` and the text before it.
abbrev separate : Text → Option (Text × Text)
separate [] = none
separate (b ∷ t) =
    if b == b'1'
    then some ([], t)
    else elim (separate t) [ none ↦ none | some (hrp, rest) ↦ some (b ∷ hrp, rest) ]

abbrev first_one : Bech32
first_one = record plain { decode = separate }

separate-IsSeparated : IsSeparated first_one (codes "osmo")
separate-IsSeparated [] hrp bytes e = absurd (ground (arith, e))
separate-IsSeparated (b ∷ t) hrp bytes e = elim (==-cases b b'1') [
  | inl (here, one) ↦ (t, ground (arith, e, here, one))
  | inr there ↦ elim (Option-cases (separate t)) [
    | inl garbled ↦ absurd (ground (arith, e, there, garbled))
    | inr ((h, r), found) ↦
        let (rest, later) = separate-IsSeparated t h r found in
        (rest, ground (arith, e, there, found, later))
  ]
]

contract_address-err_example :
    contract_address first_one (codes "osmo") 1 21
    ≡ err (invalid_generated_addr (external (codes "Invalid input")))
unfolding starts_with
contract_address-err_example =
    contract_address-err first_one (codes "osmo") 1 21 separate-IsSeparated refl

-- Runners that are numbers.
abbrev multi : OwnedTestRunner ℕ ℕ ℕ ℕ
multi = owned_multi_test 3

multi_test : from_str 1 2 3 (codes "multi-test") ≡ ok multi
unfolding from_str
multi_test = refl

rpc_test :
    from_str {O = ℕ} {C = ℕ} {R = ℕ} {M = ℕ} 1 2 3 (codes "rpc-runner")
    ≡ err (external (codes "RpcRunner requires a config file"))
unfolding from_str
rpc_test = refl
