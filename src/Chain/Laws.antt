-- ===== src/Chain/Laws.antt =====
-- Case splits on the outcome of a call, with the equation kept.
use cw_it.Base.{◌≡◌, refl, arith}
use cw_it.Chain.Monad.{Result, ok, err, panicked, Error}

pub data Outcome {A : Type 0} (r : Result A) : Type 0 where
  succeeds : (a : A) → r ≡ ok a → Outcome r
  fails : (e : Error) → r ≡ err e → Outcome r
  panics : r ≡ panicked → Outcome r

pub outcome : {A : Type 0} (r : Result A) → Outcome r
outcome (ok a) = succeeds a refl
outcome (err e) = fails e refl
outcome panicked = panics refl

pub ok-cancel : {A : Type 0} {a b : A} → ok a ≡ ok b → a ≡ b
ok-cancel e = ground arith
