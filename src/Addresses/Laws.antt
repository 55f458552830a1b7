-- ===== src/Addresses/Laws.antt =====
-- The addresses that the app makes are valid, and name what they were made of.
use cw_it.Base.{◌≡◌, some, arith, bytes_eq, ==-refl}
use cw_it.Text.{Text}
use cw_it.Chain.{Binary, ok, outcome, succeeds, fails, panics}
use cw_it.Addresses.{Bech32, addr_canonicalize, addr_humanize, addr_validate, addr_make}

module _ (B : Bech32) (prefix : Text) where
  -- What encodes under the prefix decodes to the prefix and the bytes.
  abbrev pub DecodesBack : Type 0
  DecodesBack =
      (hrp : B.Hrp) (bytes : Binary) (t : Text)
      → B.parse_hrp prefix ≡ ok hrp
      → B.encode hrp bytes ≡ some t
      → B.decode t ≡ some (prefix, bytes)

  pub canonicalize-encoded :
      (hrp : B.Hrp) (bytes : Binary) (t : Text)
      → DecodesBack
      → B.parse_hrp prefix ≡ ok hrp
      → B.encode hrp bytes ≡ some t
      → (addr_canonicalize B prefix t ≡ ok bytes) × (addr_validate B prefix t ≡ ok t)
  unfolding addr_canonicalize addr_validate addr_humanize
  canonicalize-encoded hrp bytes t back parsed encoded =
      ground (arith, back hrp bytes t parsed encoded, ==-refl {A = Text} prefix)

  -- If what encodes under the prefix decodes to the prefix and the bytes, then an address that
  -- `addr_make` or `addr_humanize` gives is valid as it stands, and its canonical form is the
  -- digest of the input, and the bytes that were humanized.
  pub made_addresses_are_valid :
      (input made humanized : Text) (canonical : Binary)
      → DecodesBack
      → addr_make B prefix input ≡ ok made
      → addr_humanize B prefix canonical ≡ ok humanized
      → (addr_validate B prefix made ≡ ok made)
        × (addr_canonicalize B prefix made ≡ ok (B.sha256 input))
        × (addr_validate B prefix humanized ≡ ok humanized)
        × (addr_canonicalize B prefix humanized ≡ ok canonical)
  unfolding addr_make addr_humanize
  made_addresses_are_valid input made humanized canonical back makes humanizes =
      elim (outcome (B.parse_hrp prefix)) [
        | succeeds hrp parsed ↦
            let (c1, v1) =
              canonicalize-encoded hrp (B.sha256 input) made back parsed (ground arith) in
            let (c2, v2) =
              canonicalize-encoded hrp canonical humanized back parsed (ground arith) in
            (v1, c1, v2, c2)
        | fails e failed ↦ absurd (ground arith)
        | panics e ↦ absurd (ground arith)
      ]
