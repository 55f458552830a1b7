-- ===== src/Text/Order.antt =====
-- The order of `str`, which is that of the bytes, `starts_with`, `contains`, and `sort_by` on a key
-- that is text.
use cw_it.Base.{
  ◌≡◌, refl, Bool, true, false, ◌||◌, List, [], ◌∷◌, ltb, nat_eq, ◌==◌, ◌&&◌, arith, if◌then◌else◌,
  Bool-cases, inl, inr,
}
use cw_it.Text.{Text}
use mathlib.Core.List.{Perm}
use mathlib.Core.List.Perm

-- `a <= b`
unfoldable pub text_leb : Text → Text → Bool
text_leb [] t = true
text_leb (x ∷ s) [] = false
text_leb (x ∷ s) (y ∷ t) =
    let rest = text_leb s t in if ltb x y then true else if ltb y x then false else rest

unfoldable pub starts_with : Text → Text → Bool
unfolding nat_eq
starts_with t [] = true
starts_with [] (p ∷ ps) = false
starts_with (x ∷ t) (p ∷ ps) = x == p && starts_with t ps

-- `str::contains` of a text
unfoldable pub contains_text : Text → Text → Bool
unfolding starts_with
contains_text [] p = starts_with [] p
contains_text (x ∷ t) p = starts_with (x ∷ t) p || contains_text t p

module _ {A : Type 0} (key : A → Text) where
  -- Before the first element with a key that is not smaller.
  unfoldable pub insert_sorted : A → List A → List A
  unfolding text_leb
  insert_sorted a [] = a ∷ []
  insert_sorted a (b ∷ l) =
      let rest = insert_sorted a l in if text_leb (key a) (key b) then a ∷ b ∷ l else b ∷ rest

  -- `slice::sort_by`, which is stable.
  unfoldable pub sort_by_key : List A → List A
  unfolding insert_sorted
  sort_by_key [] = []
  sort_by_key (a ∷ l) = insert_sorted a (sort_by_key l)

  -- No key is smaller than the key before it.
  abbrev pub IsSortedBy : List A → Type 0
  IsSortedBy [] = Unit
  IsSortedBy (a ∷ []) = Unit
  IsSortedBy (a ∷ b ∷ l) = (text_leb (key a) (key b) ≡ true) × IsSortedBy (b ∷ l)

  pub insert_sorted-perm : (a : A) (l : List A) → Perm (insert_sorted a l) (a ∷ l)
  unfolding insert_sorted
  insert_sorted-perm a [] = Perm.refl _
  insert_sorted-perm a (b ∷ l) = elim (Bool-cases (text_leb (key a) (key b))) [
    | inl e ↦ rw e (Perm.refl _)
    | inr e ↦ rw e (Perm.trans (Perm.cons b (insert_sorted-perm a l)) (Perm.swap a b l))
  ]

  pub sort_by_key-perm : (l : List A) → Perm (sort_by_key l) l
  unfolding sort_by_key
  sort_by_key-perm [] = Perm.refl _
  sort_by_key-perm (a ∷ l) =
      Perm.trans (insert_sorted-perm a (sort_by_key l)) (Perm.cons a (sort_by_key-perm l))

  text_leb-total : (s t : Text) → text_leb s t ≡ false → text_leb t s ≡ true
  unfolding text_leb
  text_leb-total [] t h = ground arith
  text_leb-total (x ∷ s) [] h = refl
  text_leb-total (x ∷ s) (y ∷ t) h = ground (arith, text_leb-total s t)

  -- What is inserted into a list that follows `b` follows `b` with it.
  insert_after :
      (b a : A) (l : List A)
      → text_leb (key b) (key a) ≡ true
      → IsSortedBy (b ∷ l)
      → IsSortedBy (b ∷ insert_sorted a l)
  unfolding insert_sorted
  insert_after b a [] h s = (h, tt)
  insert_after b a (c ∷ l) h (first, rest) = elim (Bool-cases (text_leb (key a) (key c))) [
    | inl e ↦ rw e (h, (e, rest))
    | inr e ↦ rw e (first, insert_after c a l (text_leb-total (key a) (key c) e) rest)
  ]

  insert_sorted-IsSortedBy : (a : A) (l : List A) → IsSortedBy l → IsSortedBy (insert_sorted a l)
  unfolding insert_sorted
  insert_sorted-IsSortedBy a [] s = tt
  insert_sorted-IsSortedBy a (b ∷ l) s = elim (Bool-cases (text_leb (key a) (key b))) [
    | inl e ↦ rw e (e, s)
    | inr e ↦ rw e (insert_after b a l (text_leb-total (key a) (key b) e) s)
  ]

  pub sort_by_key-IsSortedBy : (l : List A) → IsSortedBy (sort_by_key l)
  unfolding sort_by_key
  sort_by_key-IsSortedBy [] = tt
  sort_by_key-IsSortedBy (a ∷ l) =
      insert_sorted-IsSortedBy a (sort_by_key l) (sort_by_key-IsSortedBy l)
