-- ===== src/Addresses.antt =====
-- The addresses of the multi-test app: src/multi_test/api.rs, whose bech32 coding is that of the
-- crate bech32, and src/multi_test/mock_address_generator.rs.
pub mod Laws
pub mod Generator
use cw_it.Base.{ℕ, Bool, Option, none, some, List, ◌++◌, bytes_eq, ◌==◌, if◌then◌else◌}
use cw_it.Text.{Text, codes, print_u128}
use cw_it.Chain.{
  Binary, Error, Result, ok, err, panicked, and_then, external, invalid_generated_addr,
}

-- The coding by one checksum: `CheckedHrpstring::new`, with the prefix as text and the bytes,
-- `Hrp::parse` and `encode`; and the digest.
pub record Bech32 : Type 1 where
  pub Hrp : Type 0
  pub decode : Text → Option (Text × Binary)
  pub parse_hrp : Text → Result Hrp
  pub encode : Hrp → Binary → Option Text
  pub sha256 : Text → Binary

abbrev pub invalid_input : Error
invalid_input = external (codes "Invalid input")

abbrev pub invalid_canonical : Error
invalid_canonical = external (codes "Invalid canonical address")

module _ (B : Bech32) (prefix : Text) where
  unfoldable pub addr_canonicalize : Text → Result Binary
  unfolding bytes_eq
  addr_canonicalize input = elim (B.decode input) [
    | none ↦ err invalid_input
    | some (hrp, bytes) ↦ if hrp == prefix then ok bytes else err invalid_input
  ]

  abbrev pub encoded : Option Text → Result Text
  encoded none = err invalid_canonical
  encoded (some t) = ok t

  unfoldable pub addr_humanize : Binary → Result Text
  addr_humanize canonical = and_then (B.parse_hrp prefix) λ hrp. encoded (B.encode hrp canonical)

  unfoldable pub addr_validate : Text → Result Text
  addr_validate input = and_then (addr_canonicalize input) addr_humanize

  -- Panics where the prefix does not parse or the digest does not encode.
  abbrev pub unwrapped : Option Text → Result Text
  unwrapped none = panicked
  unwrapped (some t) = ok t

  unfoldable pub addr_make : Text → Result Text
  addr_make input = elim (B.parse_hrp prefix) [
    | ok hrp ↦ unwrapped (B.encode hrp (B.sha256 input))
    | err e ↦ panicked
    | panicked ↦ panicked
  ]

  -- `contract_{code_id}_{instance_id}`
  abbrev pub raw_address : ℕ → ℕ → Text
  raw_address code_id instance_id =
      codes "contract_" ++ (print_u128 code_id ++ (codes "_" ++ print_u128 instance_id))

  -- `MockAddressGenerator::contract_address`
  unfoldable pub contract_address : ℕ → ℕ → Result Text
  contract_address code_id instance_id = elim (addr_validate (raw_address code_id instance_id)) [
    | ok a ↦ ok (raw_address code_id instance_id)
    | err e ↦ err (invalid_generated_addr e)
    | panicked ↦ panicked
  ]
