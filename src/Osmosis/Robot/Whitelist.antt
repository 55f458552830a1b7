-- ===== src/Osmosis/Robot/Whitelist.antt =====
-- The whitelist of the lockup module as a set of addresses.
use cw_it.Base.{
  ◌≡◌, refl, ap, true, false, ◌||◌, List, [], ◌∷◌, ◌++◌, bytes_eq, ◌==◌, contains, arith,
  Bool-cases, inl, inr, ==-cases, subst,
}
use cw_it.Text.{Text}
use cw_it.Chain.{ok}
use cw_it.Chain.Seq.{>>=-ok, unwrap-ok}
use cw_it.Osmosis.Types.{TestApp}
use cw_it.Osmosis.Robot.{get_force_unlock_whitelisted_addresses, whitelist_address_for_force_unlock}

-- No address is listed twice.
abbrev pub HasNoRepeats : List Text → Type 0
HasNoRepeats [] = Unit
HasNoRepeats (a ∷ l) = (contains l a ≡ false) × HasNoRepeats l

contains-snoc : (l : List Text) (a b : Text) → contains (l ++ a ∷ []) b ≡ (contains l b || a == b)
unfolding bytes_eq
contains-snoc [] a b = ground arith
contains-snoc (c ∷ l) a b = ground (arith, contains-snoc l a b)

HasNoRepeats-snoc :
    (l : List Text) (a : Text) → contains l a ≡ false → HasNoRepeats l → HasNoRepeats (l ++ a ∷ [])
unfolding bytes_eq
HasNoRepeats-snoc [] a new h = (refl, tt)
HasNoRepeats-snoc (c ∷ l) a new (first, h) =
    (ground (arith, contains-snoc l a c), HasNoRepeats-snoc l a (ground arith) h)

contains-known :
    (l : List Text) (a b : Text) → contains l a ≡ true → contains l b ≡ (contains l b || a == b)
contains-known l a b known = elim (==-cases a b) [
  | inl (e, same) ↦ ground (arith, subst (λ x. contains l x ≡ true) same known)
  | inr other ↦ ground arith
]

-- The documented behaviour of the parameters: what is written is read.
abbrev pub IsLawful : {S : Type 0} → TestApp S → Type 0
IsLawful {S} T =
    (l : List Text) (s : S)
    → (t : S) × (T.set_lockup_params l s ≡ (ok tt, t)) × (T.get_lockup_params t ≡ ok l)

module _ {S : Type 0} (T : TestApp S) where
  whitelist-known :
      (l : List Text) (a : Text) (s : S)
      → T.get_lockup_params s ≡ ok l
      → contains l a ≡ true
      → whitelist_address_for_force_unlock T a s ≡ (ok tt, s)
  unfolding whitelist_address_for_force_unlock get_force_unlock_whitelisted_addresses bytes_eq
  whitelist-known l a s get known =
      >>=-ok _ _ _ (unwrap-ok _ _ (ap (λ r. (r, s)) get)) (rw known refl)

  whitelist-new :
      (l : List Text) (a : Text) (s : S) {t : S}
      → T.get_lockup_params s ≡ ok l
      → contains l a ≡ false
      → T.set_lockup_params (l ++ a ∷ []) s ≡ (ok tt, t)
      → whitelist_address_for_force_unlock T a s ≡ (ok tt, t)
  unfolding whitelist_address_for_force_unlock get_force_unlock_whitelisted_addresses bytes_eq
  whitelist-new l a s get new set =
      >>=-ok _ _ _ (unwrap-ok _ _ (ap (λ r. (r, s)) get)) (rw new (unwrap-ok _ _ set))

  -- If what is written to the parameters is read back, and the whitelist of the state is `l`, in
  -- which no address is listed twice, then whitelisting an address succeeds, the whitelist then
  -- holds the addresses of `l` and this one, none of them twice, and doing it once more changes
  -- nothing.
  pub whitelist_address_adds_once :
      (l : List Text) (a : Text) (s : S)
      → IsLawful T
      → T.get_lockup_params s ≡ ok l
      → HasNoRepeats l
      → (t : S) × (l' : List Text) × (whitelist_address_for_force_unlock T a s ≡ (ok tt, t))
        × (get_force_unlock_whitelisted_addresses T t ≡ (ok l', t))
        × ((b : Text) → contains l' b ≡ (contains l b || a == b))
        × HasNoRepeats l'
        × (whitelist_address_for_force_unlock T a t ≡ (ok tt, t))
  unfolding get_force_unlock_whitelisted_addresses bytes_eq
  whitelist_address_adds_once l a s lawful get unique = elim (Bool-cases (contains l a)) [
    | inl known ↦ (
      s,
      l,
      whitelist-known l a s get known,
      unwrap-ok _ _ (ap (λ r. (r, s)) get),
      (λ b. contains-known l a b known),
      unique,
      whitelist-known l a s get known,
    )
    | inr new ↦
        let (t, set, read) = lawful (l ++ a ∷ []) s in
        (
          t,
          l ++ a ∷ [],
          whitelist-new l a s get new set,
          unwrap-ok _ _ (ap (λ r. (r, t)) read),
          contains-snoc l a,
          HasNoRepeats-snoc l a new unique,
          whitelist-known (l ++ a ∷ []) a t read (ground (arith, contains-snoc l a a)),
        )
  ]
