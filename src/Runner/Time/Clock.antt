-- ===== src/Runner/Time/Clock.antt =====
-- Time and height under any sequence of `increase_time`.
use cw_it.Base.{ℕ, suc, ◌+◌, ◌*◌, ◌<◌, ◌≤◌, ◌≡◌, ◌↔◌, refl, List, [], ◌∷◌, arith, dec_lt, length}
use cw_it.Chain.{Result, ok, panicked, Action, pure}
use cw_it.Chain.Seq.{◌>>=◌, >>=-inv, >>=-ok}
use cw_it.Runner.Time.{BlockInfo, u64_mod, increase_time, query_block_time_nanos}

-- The sum of a list of seconds.
abbrev pub total : List ℕ → ℕ
total [] = 0
total (x ∷ l) = x + total l

-- The documented behaviour of `plus_seconds`: it adds nanoseconds, and panics on overflow.
pub record AddsSeconds (plus_seconds : ℕ → ℕ → Result ℕ) : Type 0 where
  pub adds :
      (t s : ℕ) → t + s * 1_000_000_000 < u64_mod → plus_seconds t s ≡ ok (t + s * 1_000_000_000)
  pub overflows : (t s : ℕ) → u64_mod ≤ t + s * 1_000_000_000 → plus_seconds t s ≡ panicked

module _ (plus_seconds : ℕ → ℕ → Result ℕ) where
  -- `increase_time` once for each number of the list.
  abbrev pub increase_each : List ℕ → Action BlockInfo (Unit {0})
  increase_each [] = pure tt
  increase_each (x ∷ l) = increase_time plus_seconds x >>= λ _. increase_each l

module _ (plus_seconds : ℕ → ℕ → Result ℕ) (adds_seconds : AddsSeconds plus_seconds) where
  increase_time-ok :
      (x : ℕ) (b c : BlockInfo)
      → (increase_time plus_seconds x b ≡ (ok tt, c)) ↔ (
          (b.time + x * 1_000_000_000 < u64_mod)
          × (suc b.height < u64_mod)
          × (c.time ≡ b.time + x * 1_000_000_000)
          × (c.height ≡ suc b.height))
  unfolding increase_time
  increase_time-ok x b c = elim (dec_lt (b.time + x * 1_000_000_000) u64_mod) [
    | yes p ↦ ground (arith, adds_seconds.adds b.time x p)
    | no p ↦ ground (arith, adds_seconds.overflows b.time x (omega arith))
  ]

  -- If the time and the height of the block are below 2 ^ 64 and `plus_seconds` adds seconds and
  -- panics on overflow, then increasing the time by each number of a list in turn succeeds, with the
  -- block `c`, exactly if the time plus the sum of all seconds in nanoseconds and the height plus
  -- the length of the list stay below 2 ^ 64, and `c` has that time and that height.
  pub increase_each_succeeds_iff :
      (l : List ℕ) (b c : BlockInfo)
      → b.time < u64_mod
      → b.height < u64_mod
      → (increase_each plus_seconds l b ≡ (ok tt, c)) ↔ (
          (query_block_time_nanos b + total l * 1_000_000_000 < u64_mod)
          × (b.height + length l < u64_mod)
          × (query_block_time_nanos c ≡ query_block_time_nanos b + total l * 1_000_000_000)
          × (c.height ≡ b.height + length l))
  unfolding query_block_time_nanos
  increase_each_succeeds_iff [] b c ht hh = ground arith
  increase_each_succeeds_iff (x ∷ l) b c ht hh = (
    (λ h. >>=-inv _ _ _ h λ a u first rest.
        let (p, q, time, height) = (increase_time-ok x b u).0 first in
        let (fits, below, ct, ch) =
          (increase_each_succeeds_iff l u c (rw time p) (rw height q)).0 rest in
        (omega arith, omega arith, omega arith, omega arith)),
    (λ (fits, below, ct, ch).
        let u : BlockInfo = record { time = b.time + x * 1_000_000_000; height = suc b.height } in
        >>=-ok _ _ _ ((increase_time-ok x b u).1 (omega arith, omega arith, refl, refl)) (
          (increase_each_succeeds_iff l u c (omega arith) (omega arith)).1
            (omega arith, omega arith, omega arith, omega arith))),
  )
