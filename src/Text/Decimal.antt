-- ===== src/Text/Decimal.antt =====
-- Printing a number and parsing it back.
use cw_it.Base.{
  ℕ, zero, suc, ◌+◌, ◌-◌, ◌*◌, ◌/◌, ◌%◌, ◌^◌, ◌<◌, ◌≡◌, refl, Bool, true, false, [], ◌∷◌, ◌++◌,
  some, arith, all, nat_eq, lt→ltb, le→not-ltb, dec_lt, pow-suc, ap, sym, ◌∙◌, ◌&&◌, Bool-cases,
  ltb, inl, inr,
}
use cw_it.Text.{
  Text, is_digit, parse_digits, parse_u128, print_digits, print_u128, u128_mod, digit, is_empty,
}

parse_digits-snoc :
    (acc : ℕ) (t : Text) (v n : ℕ)
    → parse_digits acc t ≡ some v
    → v * 10 + n % 10 < u128_mod
    → parse_digits acc (t ++ digit n ∷ []) ≡ some (v * 10 + n % 10)
unfolding parse_digits
parse_digits-snoc acc [] v n h lt = ground arith
parse_digits-snoc acc (d ∷ t) v n h lt =
    ground (arith, parse_digits-snoc (acc * 10 + (d - b'0')) t v n)

parse_digits-print_digits :
    (f n : ℕ) → n < 10 ^ f → n < u128_mod → parse_digits 0 (print_digits f n) ≡ some n
unfolding print_digits parse_digits
parse_digits-print_digits zero n h lt = ap some (omega arith)
parse_digits-print_digits (suc f) n h lt = elim (dec_lt n 10) [
  | yes small ↦
      rw (lt→ltb n 10 small) (parse_digits-snoc 0 [] 0 n refl (omega arith) ∙ ap some (omega arith))
  | no large ↦ rw (le→not-ltb n 10 (omega arith)) (
      parse_digits-snoc 0 (print_digits f (n / 10)) (n / 10) n
        (parse_digits-print_digits f (n / 10) (omega (arith, pow-suc 10 f)) (omega arith))
        (omega arith)
      ∙ ap some (omega arith))
]

pub all-append : (p : ℕ → Bool) (s t : Text) → all p (s ++ t) ≡ (all p s && all p t)
all-append p [] t = refl
all-append p (c ∷ s) t = ground (arith, all-append p s t)

all-print_digits : (f n : ℕ) → all is_digit (print_digits f n) ≡ true
unfolding print_digits is_digit
all-print_digits zero n = refl
all-print_digits (suc f) n = elim (dec_lt n 10) [
  | yes small ↦ rw (lt→ltb n 10 small) (ground arith)
  | no large ↦
      rw (le→not-ltb n 10 (omega arith), all-append, all-print_digits f (n / 10)) (ground arith)
]

-- A printed number holds only digits.
pub all-print_u128 : (n : ℕ) → all is_digit (print_u128 n) ≡ true
unfolding print_u128
all-print_u128 n = all-print_digits 39 n

is_empty-snoc : (t : Text) (c : ℕ) → is_empty (t ++ c ∷ []) ≡ false
is_empty-snoc [] c = refl
is_empty-snoc (x ∷ t) c = refl

-- A printed number is not empty.
pub is_empty-print_u128 : (n : ℕ) → is_empty (print_u128 n) ≡ false
unfolding print_u128
is_empty-print_u128 n = ground (arith, is_empty-snoc (print_digits 38 (n / 10)) (digit n))

-- The last digit of a printed number.
pub print_u128-snoc : (n : ℕ) → (t : Text) × (print_u128 n ≡ t ++ digit n ∷ [])
unfolding print_u128
print_u128-snoc n = elim (Bool-cases (ltb n 10)) [
  | inl small ↦ ([], rw small)
  | inr large ↦ (print_digits 38 (n / 10), rw large)
]

parse_u128-digits :
    (t : Text) → all is_digit t ≡ true → is_empty t ≡ false → parse_u128 t ≡ parse_digits 0 t
unfolding parse_u128 is_digit
parse_u128-digits [] h e = cc
parse_u128-digits (d ∷ []) h e = ground arith
parse_u128-digits (d ∷ x ∷ t) h e = ground arith

-- A number that a `u128` holds is printed in full and read back.
pub parse_u128-print_u128 : (n : ℕ) → n < u128_mod → parse_u128 (print_u128 n) ≡ some n
parse_u128-print_u128 n lt =
    parse_u128-digits (print_u128 n) (all-print_u128 n) (is_empty-print_u128 n)
    ∙ unfold print_u128 in parse_digits-print_digits 39 n (omega arith) lt

pub all-zero : (s : Text) → all is_digit s ≡ true → all is_digit (b'0' ∷ s) ≡ true
unfolding is_digit
all-zero s h = h

-- A zero in front changes nothing for the parser.
pub parse_u128-zero :
    (s : Text) → all is_digit s ≡ true → is_empty s ≡ false → parse_u128 (b'0' ∷ s) ≡ parse_u128 s
unfolding parse_digits
parse_u128-zero s h e =
    parse_u128-digits (b'0' ∷ s) (all-zero s h) refl ∙ sym (parse_u128-digits s h e)
