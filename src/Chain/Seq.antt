-- ===== src/Chain/Seq.antt =====
-- The sequence of two actions, as one that stays shut, so that a proof takes a long handler apart
-- step by step.
use cw_it.Base.{◌≡◌, refl, arith, Bool, true, false}
use cw_it.Chain.Monad
use cw_it.Chain.Monad.{Result, ok, Error, Action, ask, lift, bail_if, unwrap}
use cw_it.Chain.Laws.{outcome, succeeds, fails, panics}

infixl 5 ◌>>=◌ ◌>>◌
unfoldable pub ◌>>=◌ : {S A B : Type 0} → Action S A → (A → Action S B) → Action S B
(m >>= k) s = Monad.◌>>=◌ m k s

abbrev pub ◌>>◌ : {S A B : Type 0} → Action S A → Action S B → Action S B
m >> k = m >>= λ _. k

module _ {S A : Type 0} (m : Action S A) (s : S) where
  -- A sequence that succeeds, as the success of its first part and of the rest.
  pub >>=-inv :
      {B : Type 0} (k : A → Action S B) {b : B} {t : S} {G : Type 0}
      → (m >>= k) s ≡ (ok b, t)
      → ((a : A) (u : S) → m s ≡ (ok a, u) → k a u ≡ (ok b, t) → G)
      → G
  unfolding ◌>>=◌
  >>=-inv k h goal = elim (outcome (m s).0) [
    | succeeds a e ↦ goal a (m s).1 (ground (arith, e)) (ground (arith, e))
    | fails e f ↦ absurd (ground (arith, f))
    | panics f ↦ absurd (ground (arith, f))
  ]

  pub >>=-ok :
      {B : Type 0} (k : A → Action S B) {a : A} {u : S} {r : Result B × S}
      → m s ≡ (ok a, u)
      → k a u ≡ r
      → (m >>= k) s ≡ r
  unfolding ◌>>=◌
  >>=-ok k e h = ground (arith, e, h)

  pub unwrap-inv : {a : A} {t : S} → unwrap m s ≡ (ok a, t) → m s ≡ (ok a, t)
  unfolding unwrap
  unwrap-inv h = elim (outcome (m s).0) [
    | succeeds a e ↦ ground (arith, e)
    | fails e f ↦ absurd (ground (arith, f))
    | panics f ↦ absurd (ground (arith, f))
  ]

  pub unwrap-ok : {a : A} {t : S} → m s ≡ (ok a, t) → unwrap m s ≡ (ok a, t)
  unfolding unwrap
  unwrap-ok e = rw e refl

-- The same for a query, a fallible value and a guard, which leave the state as it is.
module _ {S A B : Type 0} {b : B} {s t : S} {G : Type 0} where
  pub ask-inv :
      (q : S → Result A) (k : A → Action S B)
      → (ask q >>= k) s ≡ (ok b, t)
      → ((a : A) → q s ≡ ok a → k a s ≡ (ok b, t) → G)
      → G
  unfolding ◌>>=◌
  ask-inv q k h goal = elim (outcome (q s)) [
    | succeeds a e ↦ goal a e (ground (arith, e))
    | fails e f ↦ absurd (ground (arith, f))
    | panics f ↦ absurd (ground (arith, f))
  ]

  pub lift-inv :
      (q : Result A) (k : A → Action S B)
      → (lift q >>= k) s ≡ (ok b, t)
      → ((a : A) → q ≡ ok a → k a s ≡ (ok b, t) → G)
      → G
  unfolding ◌>>=◌
  lift-inv q k h goal = ask-inv (λ _. q) k h goal

module _ {S B : Type 0} {b : B} {s t : S} {G : Type 0} (k : Action S B) where
  pub bail_if-inv :
      (c : Bool) (e : Error)
      → (bail_if c e >> k) s ≡ (ok b, t)
      → (c ≡ false → k s ≡ (ok b, t) → G)
      → G
  unfolding ◌>>=◌
  bail_if-inv true e h goal = absurd (ground (arith, h))
  bail_if-inv false e h goal = goal refl h
