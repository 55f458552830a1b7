-- ===== src/Regex/Laws.antt =====
-- What the matchers accept.
use cw_it.Base.{ℕ, zero, suc, ◌+◌, ◌≤◌, ◌≡◌, refl, Bool, true, [], ◌∷◌, ◌++◌, arith, all, length}
use cw_it.Text.{Text}
use cw_it.Regex.{many, times, up_to, at_end}

-- A repetition may take a whole run of its class.
pub many-append :
    (p : ℕ → Bool) (k : Text → Bool) (s t : Text)
    → all p s ≡ true
    → k t ≡ true
    → many p k (s ++ t) ≡ true
unfolding many
many-append p k [] [] h e = e
many-append p k [] (x ∷ t) h e = ground arith
many-append p k (c ∷ s) t h e = ground (arith, many-append p k s t)

up_to-at_end :
    (n : ℕ) (p : ℕ → Bool) (t : Text)
    → up_to n p at_end t ≡ true
    → (all p t ≡ true) × (length t ≤ n)
unfolding up_to
up_to-at_end zero p [] h = (refl, omega arith)
up_to-at_end zero p (c ∷ t) h = cc
up_to-at_end (suc n) p [] h = (refl, omega arith)
up_to-at_end (suc n) p (c ∷ t) h = ground (arith, up_to-at_end n p t)

-- A counted repetition up to the end fixes the class and the length.
pub times-up_to :
    (m n : ℕ) (p : ℕ → Bool) (t : Text)
    → times m p (up_to n p at_end) t ≡ true
    → (all p t ≡ true) × (m ≤ length t) × (length t ≤ m + n)
unfolding times
times-up_to zero n p t h = ground (arith, up_to-at_end n p t)
times-up_to (suc m) n p [] h = cc
times-up_to (suc m) n p (c ∷ t) h = ground (arith, times-up_to m n p t)
