-- ===== src/Runner/Time.antt =====
-- `increase_time`, `query_block_time_nanos`, `query` and `query_wasm_smart`.
pub mod Clock
use cw_it.Base.{ℕ, suc, ◌+◌, ◌^◌, ltb, if◌then◌else◌}
use cw_it.Text.{Text}
use cw_it.Chain.{
  Binary, StargateQuery, Result, ok, err, panicked, Error, external, and_then, Action, pure,
}

-- The block of the app, the fields that the runner reads and writes: the time in nanoseconds and the
-- height, both `u64`.
pub record BlockInfo : Type 0 where
  pub time : ℕ
  pub height : ℕ

abbrev pub u64_mod : ℕ
u64_mod = 2 ^ 64

-- `height + 1`, which panics on overflow as tests are built.
abbrev pub next_height : ℕ → Result ℕ
next_height h = if ltb (suc h) u64_mod then ok (suc h) else panicked

-- By `Timestamp::plus_seconds`, which is code outside this repository.
module _ (plus_seconds : ℕ → ℕ → Result ℕ) where
  -- The panics leave the block as it was when they came.
  unfoldable pub increase_time : ℕ → Action BlockInfo (Unit {0})
  increase_time seconds block = elim (plus_seconds block.time seconds) [
    | err e ↦ (err e, block)
    | panicked ↦ (panicked, block)
    | ok time ↦ elim (next_height block.height) [
      | ok height ↦ (ok tt, record { time = time; height = height })
      | err e ↦ (err e, record block { time = time })
      | panicked ↦ (panicked, record block { time = time })
    ]
  ]

unfoldable pub query_block_time_nanos : BlockInfo → ℕ
query_block_time_nanos block = block.time

-- `map_err(|e| RunnerError::GenericError(e.to_string()))`
abbrev generic : {A : Type 0} → (Error → Text) → Result A → Result A
generic to_string (ok a) = ok a
generic to_string (err e) = err (external (to_string e))
generic to_string panicked = panicked

-- The querier of the app, which answers a stargate query and a smart query of a contract.
module _ {S Q R : Type 0} (stargate : StargateQuery → S → Result R) where
  unfoldable pub query : (Error → Text) → (Q → Binary) → Text → Q → S → Result R
  query to_string encode path request s =
      generic to_string (stargate (record { path = path; data_bytes = encode request }) s)
