-- ===== src/Runner/Build/Addresses.antt =====
-- That the accounts of a runner are valid on its app.
use cw_it.Base.{ℕ, zero, suc, ◌≡◌, subst, Option, none, some, Bool, List, [], ◌∷◌, arith}
use cw_it.Text.{Text}
use cw_it.Chain.{Coin, Binary, ok, ok-cancel, outcome, succeeds, fails, panics}
use cw_it.Addresses.{Bech32, addr_validate}
use cw_it.Addresses.Laws.{DecodesBack, canonicalize-encoded}
use cw_it.Runner.Types.{App, Runner}
use cw_it.Runner.Accounts.{mint_initial, init_account, init_accounts}
use cw_it.Runner.Build.{Builder, parts, new, new_with_stargate}

abbrev pub Each : (Text → Type 0) → List Text → Type 0
Each P [] = Unit
Each P (a ∷ l) = P a × Each P l

module _ (A : App) (P : Text → Type 0) (random : (n : ℕ) → P (A.random_address n)) where
  init_account-address :
      (coins : List Coin) (s : Runner A) (a : Text) → (init_account A coins s).0 ≡ ok a → P a
  unfolding init_account
  init_account-address coins s a h =
      let address = A.random_address s.drawn in
      elim (outcome (mint_initial A address coins s.app).0) [
        | succeeds u e ↦
            let same : address ≡ a = ok-cancel (ground (arith, h, e)) in
            subst P same (random s.drawn)
        | fails f e ↦ absurd (ground (arith, h, e))
        | panics e ↦ absurd (ground (arith, h, e))
      ]

  init_accounts-Each :
      (coins : List Coin) (n : ℕ) (s : Runner A) (accounts : List Text)
      → (init_accounts A coins n s).0 ≡ ok accounts
      → Each P accounts
  unfolding init_accounts
  init_accounts-Each coins zero s accounts h = subst (Each P) (ok-cancel h) tt
  init_accounts-Each coins (suc n) s accounts h =
      let s' = (init_account A coins s).1 in
      elim (outcome (init_account A coins s).0) [
        | succeeds a e ↦ elim (outcome (init_accounts A coins n s').0) [
          | succeeds rest e' ↦
              let same : a ∷ rest ≡ accounts = ok-cancel (ground (arith, h, e, e')) in
              let later = init_accounts-Each coins n s' rest e' in
              subst (Each P) same (init_account-address coins s a e, later)
          | fails f e' ↦ absurd (ground (arith, h, e, e'))
          | panics e' ↦ absurd (ground (arith, h, e, e'))
        ]
        | fails f e ↦ absurd (ground (arith, h, e))
        | panics e ↦ absurd (ground (arith, h, e))
      ]

module _ {Stargate : Type 0} (B : Builder Stargate) (coreum : Bool) (prefix : Text)
    (K : Bech32) where
  -- A random key's address under the prefix is what encodes some bytes.
  abbrev pub AreEncoded : Option Stargate → Type 0
  AreEncoded extra =
      (n : ℕ)
      → (hrp : K.Hrp) × (bytes : Binary) × (K.parse_hrp prefix ≡ ok hrp)
        × (K.encode hrp bytes
            ≡ some ((B.app (parts B coreum prefix extra) prefix).random_address n))

  abbrev IsValid : Option Stargate → Text → Type 0
  IsValid extra a = addr_validate K (parts B coreum prefix extra).api_prefix a ≡ ok a

  random_address-IsValid :
      (extra : Option Stargate)
      → DecodesBack K prefix
      → AreEncoded extra
      → (n : ℕ) → IsValid extra ((B.app (parts B coreum prefix extra) prefix).random_address n)
  random_address-IsValid extra back encoded n =
      let (hrp, bytes, parsed, made) = encoded n in
      (canonicalize-encoded K prefix hrp bytes _ back parsed made).1

  -- If what encodes under a prefix decodes back, and the addresses of random keys are such
  -- encodings, then all accounts that a fresh runner makes, with or without an extra stargate
  -- module, have addresses that the api of its own app accepts as they stand.
  pub init_accounts-AreValid :
      (stargate_impl : Stargate) (coins : List Coin) (n : ℕ) (plain extended : List Text)
      → DecodesBack K prefix
      → AreEncoded none
      → AreEncoded (some stargate_impl)
      → (init_accounts (B.app (parts B coreum prefix none) prefix) coins n (new B coreum prefix)).0
        ≡ ok plain
      → (init_accounts
          (B.app (parts B coreum prefix (some stargate_impl)) prefix)
          coins
          n
          (new_with_stargate B coreum prefix stargate_impl)).0
        ≡ ok extended
      → Each (IsValid none) plain × Each (IsValid (some stargate_impl)) extended
  init_accounts-AreValid stargate_impl coins n plain extended back encoded encoded' made made' = (
    init_accounts-Each (B.app (parts B coreum prefix none) prefix) (IsValid none)
        (random_address-IsValid none back encoded) coins n (new B coreum prefix) plain made,
    init_accounts-Each (B.app (parts B coreum prefix (some stargate_impl)) prefix)
        (IsValid (some stargate_impl)) (random_address-IsValid (some stargate_impl) back encoded')
        coins n (new_with_stargate B coreum prefix stargate_impl) extended made',
  )
