-- ===== src/Rpc/Blocks.antt =====
-- The waiting for blocks, src/rpc_runner/chain.rs.
use cw_it.Base.{ℕ, zero, suc, ◌+◌, ◌^◌, Bool, true, false, Option, none, some, ltb, if◌then◌else◌}
use cw_it.Chain.{Result, ok, err, panicked, unwrap}
use cw_it.Rpc.Types.{Node}

module _ {S : Type 0} (N : Node S) where
  -- `while curr_height < target_height`, each round with a sleep and another look; with the fuel at
  -- zero it is still waiting.
  unfoldable pub poll_until : ℕ → ℕ → ℕ → S → Option (Result (Unit {0}) × S)
  poll_until zero target curr s = if ltb curr target then none else some (ok tt, s)
  poll_until (suc fuel) target curr s =
      let (r, t) = unwrap N.latest_block s in
      let rest : Option (Result (Unit {0}) × S) = elim r [
        | ok (height, time) ↦ poll_until fuel target height t
        | err e ↦ some (err e, t)
        | panicked ↦ some (panicked, t)
      ] in
      if ltb curr target then rest else some (ok tt, s)

  -- The target is a `u64`, whose overflow panics.
  unfoldable pub poll_from_here : ℕ → ℕ → S → Option (Result (Unit {0}) × S)
  poll_from_here fuel n s =
      let (r, t) = unwrap N.latest_block s in
      elim r [
        | ok (height, time) ↦
            if ltb (height + n) (2 ^ 64)
            then poll_until fuel (height + n) height t
            else some (panicked, t)
        | err e ↦ some (err e, t)
        | panicked ↦ some (panicked, t)
      ]

  -- `while let Err(e) = latest_block()`: an answer that cannot be read yet is waited for.
  unfoldable pub until_first_block : ℕ → S → Option (Result (Unit {0}) × S)
  until_first_block zero s = none
  until_first_block (suc fuel) s =
      let (r, t) = N.latest_block s in
      let rest = until_first_block fuel t in
      elim r [
        | ok block ↦ some (ok tt, t)
        | err e ↦ if N.is_serde e then rest else some (err e, t)
        | panicked ↦ some (panicked, t)
      ]

  unfoldable pub poll_for_n_blocks : ℕ → ℕ → Bool → S → Option (Result (Unit {0}) × S)
  poll_for_n_blocks fuel n false s = poll_from_here fuel n s
  poll_for_n_blocks fuel n true s =
      let (healthy, t) = unwrap N.wait_until_healthy s in
      elim healthy [
        | ok _ ↦ elim (until_first_block fuel t) [
          | none ↦ none
          | some (r, u) ↦ elim r [
            | ok _ ↦ poll_from_here fuel n u
            | err e ↦ some (err e, u)
            | panicked ↦ some (panicked, u)
          ]
        ]
        | err e ↦ some (err e, t)
        | panicked ↦ some (panicked, t)
      ]

  unfoldable pub wait : ℕ → ℕ → S → Option (Result (Unit {0}) × S)
  wait fuel n s = poll_for_n_blocks fuel n false s
