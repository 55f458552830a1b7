-- ===== src/Rpc/Polling.antt =====
-- The waiting for blocks ends on a chain that keeps growing.
use cw_it.Base.{
  ℕ, zero, suc, ◌+◌, ◌*◌, ◌^◌, ◌<◌, ◌≤◌, ◌≡◌, refl, ap, sym, ◌∙◌, subst, some, arith, dec_lt,
  lt→ltb, le→not-ltb,
}
use native.Mathlib.Nat.{mul-suc}
use cw_it.Chain.{ok, unwrap}
use cw_it.Rpc.Types.{Node}
use cw_it.Rpc.Blocks.{poll_until, poll_from_here, poll_for_n_blocks, wait}

module _ {S : Type 0} (next : S → S) where
  -- The state after `k` looks at the chain
  abbrev pub after : ℕ → S → S
  after zero s = s
  after (suc k) s = after k (next s)

  after-add : (a b : ℕ) (s : S) → after (a + b) s ≡ after b (after a s)
  after-add zero b s = let e : 0 + b ≡ b = omega arith in ap (λ n. after n s) e
  after-add (suc a) b s =
      let e : suc a + b ≡ suc (a + b) = omega arith in
      ap (λ n. after n s) e ∙ after-add a b (next s)

  module _ (height_of : S → ℕ) where
    -- Look `k` is the first that sees a height of at least `target`.
    abbrev pub FirstSees : ℕ → ℕ → S → Type 0
    FirstSees target k s =
        (target ≤ height_of (after k s)) × ((j : ℕ) → j < k → height_of (after j s) < target)

    earlier :
        (target k : ℕ) (s : S)
        → height_of s < target
        → ((j : ℕ) → j < k → height_of (after j (next s)) < target)
        → (j : ℕ) → j < suc k
        → height_of (after j s) < target
    earlier target k s below first zero h = below
    earlier target k s below first (suc j) h = first j (omega arith)

    -- `d` looks see at least one new block, and so `d * n` looks see `n`.
    grows_by :
        (d : ℕ)
        → ((s : S) → height_of s < height_of (after d s))
        → (n : ℕ) (s : S) → height_of s + n ≤ height_of (after (d * n) s)
    grows_by d grows zero s =
        let e : 0 ≡ d * 0 = omega arith in
        subst (λ m. height_of s + 0 ≤ height_of (after m s)) e (omega arith)
    grows_by d grows (suc n) s =
        let rest = grows_by d grows n s in
        let h = grows (after (d * n) s) in
        subst (λ m. height_of s + suc n ≤ height_of m)
          (sym (ap (λ m. after m s) (mul-suc d n) ∙ after-add (d * n) d s)) (omega arith)

    module _ (N : Node S) (time_of : S → ℕ) where
      -- A look that reads a height sees it.
      abbrev pub Looks : Type 0
      Looks = (s : S) → N.latest_block s ≡ (ok (height_of s, time_of s), next s)

      poll_until-stops :
          (fuel target curr : ℕ) (s : S)
          → target ≤ curr
          → poll_until N fuel target curr s ≡ some (ok tt, s)
      unfolding poll_until unwrap
      poll_until-stops zero target curr s h = rw (le→not-ltb curr target h) refl
      poll_until-stops (suc fuel) target curr s h = rw (le→not-ltb curr target h) refl

      poll_until-steps :
          Looks
          → (fuel target curr : ℕ) (s : S) → curr < target
          → poll_until N (suc fuel) target curr s ≡ poll_until N fuel target (height_of s) (next s)
      unfolding poll_until unwrap
      poll_until-steps looks fuel target curr s h = ground (arith, lt→ltb curr target h, looks s)

      poll_until-first :
          Looks
          → (fuel target : ℕ) (s : S) → target ≤ height_of (after fuel s)
          → (k : ℕ) × (poll_until N fuel target (height_of s) (next s)
              ≡ some (ok tt, after (suc k) s))
            × (k ≤ fuel)
            × FirstSees target k s
      poll_until-first looks zero target s h = (
        zero,
        poll_until-stops zero target _ _ h,
        omega arith,
        (h, λ j below. absurd (omega arith)),
      )
      poll_until-first looks (suc fuel) target s h = elim (dec_lt (height_of s) target) [
        | yes below ↦
            let (k, runs, le, sees) = poll_until-first looks fuel target (next s) h in
            (
              suc k,
              poll_until-steps looks fuel target _ _ below ∙ runs,
              omega arith,
              (sees.0, earlier target k s below sees.1),
            )
        | no above ↦ (
          zero,
          poll_until-stops (suc fuel) target _ _ (omega arith),
          omega arith,
          (omega arith, λ j below. absurd (omega arith)),
        )
      ]

      -- On a chain whose every look succeeds and where any `d` looks see at least one new block,
      -- `wait` of `n` blocks returns, with fuel for `d * n` looks: it ends with the first look that
      -- sees a height of at least the present one plus `n`, which must be a `u64`.
      pub wait_returns :
          Looks
          → (d : ℕ) → ((s : S) → height_of s < height_of (after d s))
          → (n : ℕ) (s : S) → height_of s + n < 2 ^ 64
          → (k : ℕ) × (wait N (d * n) n s ≡ some (ok tt, after (suc k) s))
            × (k ≤ d * n)
            × FirstSees (height_of s + n) k s
      unfolding wait poll_for_n_blocks poll_from_here unwrap
      wait_returns looks d grows n s bound =
          let (k, runs, le, sees) =
            poll_until-first looks (d * n) (height_of s + n) s (grows_by d grows n s) in
          (k, ground (arith, looks s, lt→ltb _ _ bound, runs), le, sees)
