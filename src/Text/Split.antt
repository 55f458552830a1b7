-- ===== src/Text/Split.antt =====
-- `split` on texts put together with the separator.
use cw_it.Base.{
  ℕ, ◌≡◌, refl, true, false, List, [], ◌∷◌, ◌++◌, arith, nat_eq, contains, length, ◌+◌, ◌≤◌,
}
use cw_it.Text.{Text, split, push_front}

-- A text without the separator is its own only part.
pub split-of_absent : (c : ℕ) (s : Text) → contains s c ≡ false → split c s ≡ s ∷ []
unfolding split nat_eq
split-of_absent c [] h = refl
split-of_absent c (x ∷ s) h = ground (arith, split-of_absent c s)

-- The part before the first separator, and the parts after it.
pub split-append :
    (c : ℕ) (s t : Text) → contains s c ≡ false → split c (s ++ c ∷ t) ≡ s ∷ split c t
unfolding split nat_eq
split-append c [] t h = ground arith
split-append c (x ∷ s) t h = ground (arith, split-append c s t)

length-push_front : (x : ℕ) (ws : List Text) → 1 ≤ length ws → length (push_front x ws) ≡ length ws
length-push_front x [] h = absurd (omega arith)
length-push_front x (w ∷ ws) h = refl

-- There is always a part.
pub length-split-pos : (c : ℕ) (s : Text) → 1 ≤ length (split c s)
unfolding split nat_eq
length-split-pos c [] = omega arith
length-split-pos c (x ∷ s) = ground (arith, length-split-pos c s, length-push_front x (split c s))

-- Two texts joined by the separator have the parts of both.
pub length-split-append :
    (c : ℕ) (s t : Text) → length (split c (s ++ c ∷ t)) ≡ length (split c s) + length (split c t)
unfolding split nat_eq
length-split-append c [] t = ground arith
length-split-append c (x ∷ s) t = ground (
  arith,
  length-split-append c s t,
  length-split-pos c s,
  length-split-pos c t,
  length-push_front x (split c (s ++ c ∷ t)),
  length-push_front x (split c s),
)

-- A text with the separator has two parts or more.
pub length-split_of_contains : (c : ℕ) (s : Text) → contains s c ≡ true → 2 ≤ length (split c s)
unfolding split nat_eq
length-split_of_contains c [] h = cc
length-split_of_contains c (x ∷ s) h =
    ground
      (arith, length-split_of_contains c s, length-split-pos c s, length-push_front x (split c s))
