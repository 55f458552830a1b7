-- ===== src/Regex.antt =====
-- The regular expressions of the crate as backtracking matchers: a matcher runs on a text and
-- tests what is left of it by its continuation.
pub mod Laws
use cw_it.Base.{ℕ, zero, suc, ◌-◌, Bool, true, false, ◌&&◌, ◌||◌, List, [], ◌∷◌, leb, nat_eq, ◌==◌}
use cw_it.Text.{Text}

abbrev pub Matcher : Type 0
Matcher = (Text → Bool) → Text → Bool

-- `[…]`
abbrev pub one : (ℕ → Bool) → Matcher
one p k [] = false
one p k (c ∷ t) = p c && k t

-- `[…]*`
unfoldable pub many : (ℕ → Bool) → Matcher
many p k [] = k []
many p k (c ∷ t) = k (c ∷ t) || (p c && many p k t)

-- `[…]+`
abbrev pub plus : (ℕ → Bool) → Matcher
plus p k = one p (many p k)

-- `[…]{n}`
unfoldable pub times : ℕ → (ℕ → Bool) → Matcher
times zero p k t = k t
times (suc n) p k [] = false
times (suc n) p k (c ∷ t) = p c && times n p k t

-- `[…]{0,n}`
unfoldable pub up_to : ℕ → (ℕ → Bool) → Matcher
up_to zero p k t = k t
up_to (suc n) p k [] = k []
up_to (suc n) p k (c ∷ t) = k (c ∷ t) || (p c && up_to n p k t)

-- A literal text.
unfoldable pub literal : Text → Matcher
unfolding nat_eq
literal [] k t = k t
literal (x ∷ s) k [] = false
literal (x ∷ s) k (c ∷ t) = c == x && literal s k t

-- `$`
abbrev pub at_end : Text → Bool
at_end [] = true
at_end (_ ∷ _) = false

unfoldable pub is_lower : ℕ → Bool
is_lower c = leb b'a' c && leb c b'z'

unfoldable pub is_upper : ℕ → Bool
is_upper c = leb b'A' c && leb c b'Z'
