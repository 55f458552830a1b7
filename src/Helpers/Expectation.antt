-- ===== src/Helpers/Expectation.antt =====
-- When `Unwrap::unwrap` passes.
use cw_it.Base.{
  ◌≡◌, ◌↔◌, ◌⊎◌, refl, ap, ◌∙◌, sym, true, Option, none, some, [], ◌∷◌, ◌++◌, nat_eq, arith, inl,
  inr, Bool-cases,
}
use cw_it.Text.{Text}
use cw_it.Text.Order.{starts_with, contains_text}
use cw_it.Chain.{ok, ok-cancel}
use cw_it.Helpers.{expect_ok, expect_err, unwrap_as}

-- The text holds the pattern somewhere.
abbrev pub IsInfix : Text → Text → Type 0
IsInfix pattern t = (before after : Text) × (t ≡ before ++ pattern ++ after)

starts_with-inv : (t p : Text) → starts_with t p ≡ true → (after : Text) × (t ≡ p ++ after)
unfolding starts_with nat_eq
starts_with-inv t [] h = (t, refl)
starts_with-inv [] (x ∷ p) h = absurd (ground arith)
starts_with-inv (y ∷ t) (x ∷ p) h =
    let (after, e) = starts_with-inv t p (ground arith) in (after, ground arith)

starts_with-append : (p after : Text) → starts_with (p ++ after) p ≡ true
unfolding starts_with nat_eq
starts_with-append [] after = ground arith
starts_with-append (x ∷ p) after = ground (arith, starts_with-append p after)

contains_text-inv : (t p : Text) → contains_text t p ≡ true → IsInfix p t
unfolding contains_text
contains_text-inv [] p h = let (after, e) = starts_with-inv [] p h in ([], after, e)
contains_text-inv (x ∷ t) p h = elim (Bool-cases (starts_with (x ∷ t) p)) [
  | inl first ↦ let (after, e) = starts_with-inv (x ∷ t) p first in ([], after, e)
  | inr later ↦
      let (before, after, e) = contains_text-inv t p (ground arith) in
      (x ∷ before, after, ap (λ l. x ∷ l) e)
]

contains_text-head : (t p : Text) → starts_with t p ≡ true → contains_text t p ≡ true
unfolding contains_text
contains_text-head [] p h = h
contains_text-head (x ∷ t) p h = ground arith

contains_text-ok : (before p after : Text) → contains_text (before ++ p ++ after) p ≡ true
unfolding contains_text
contains_text-ok [] p after = contains_text-head (p ++ after) p (starts_with-append p after)
contains_text-ok (x ∷ before) p after = ground (arith, contains_text-ok before p after)

module _ {T E : Type 0} (debug : E → Text) where
  -- `Unwrap::Ok` passes exactly on a value, which it gives back; `Unwrap::Err(s)` passes exactly on
  -- an error whose text holds `s`, and gives nothing back.
  unwrap_as_passes_iff :
      (s : Text) (r : T ⊎ E) (o : Option T)
      → ((unwrap_as debug expect_ok r ≡ ok o) ↔ ((value : T) × (r ≡ inl value) × (o ≡ some value)))
        × ((unwrap_as debug (expect_err s) r ≡ ok o)
            ↔ ((e : E) × (r ≡ inr e) × IsInfix s (debug e) × (o ≡ none)))
  unfolding unwrap_as
  unwrap_as_passes_iff s (inl value) o = (
    ((λ h. (value, refl, sym (ok-cancel h))), (λ (v, e, same). ground arith)),
    ((λ h. absurd (ground arith)), (λ (e, h, found, same). absurd (ground arith))),
  )
  unwrap_as_passes_iff s (inr e) o = (
    ((λ h. absurd (ground arith)), (λ (v, h, same). absurd (ground arith))),
    (
      (λ h. elim (Bool-cases (contains_text (debug e) s)) [
        | inl has ↦ (e, refl, contains_text-inv (debug e) s has, ground arith)
        | inr lacks ↦ absurd (ground arith)
      ]),
      (λ (e', h, (before, after, at), same).
          let same_error : e ≡ e' = ap (λ r. elim r [ inl _ ↦ e | inr x ↦ x ]) h in
          let has : contains_text (debug e) s ≡ true =
            ap (λ t. contains_text t s) (ap debug same_error ∙ at)
            ∙ contains_text-ok before s after in
          ground arith),
    ),
  )
