-- ===== src/Osmosis/TestPool/Factors.antt =====
-- For which liquidity scaling factors can be drawn.
use cw_it.Base.{ℕ, ◌≡◌, ◌↔◌, refl, true, List, [], ◌∷◌, all, ltb, arith}
use cw_it.Chain.{Coin}
use cw_it.Osmosis.TestPool.{scaling_bounds}
use cw_it.Osmosis.TestPool.Strategies.{Within, scaling_factors}

Within-ok :
    (coins : List Coin)
    → all (λ c. ltb 1 c.amount) coins ≡ true
    → (factors : List ℕ) × Within (scaling_bounds coins) factors
unfolding scaling_bounds
Within-ok [] h = ([], tt)
Within-ok (c ∷ coins) h =
    let (factors, w) = Within-ok coins (ground (arith, h)) in
    (1 ∷ factors, (omega arith, ground (arith, h), w))

Within-all :
    (coins : List Coin) (factors : List ℕ)
    → Within (scaling_bounds coins) factors
    → all (λ c. ltb 1 c.amount) coins ≡ true
unfolding scaling_bounds
Within-all [] factors w = refl
Within-all (c ∷ coins) [] w = absurd w
Within-all (c ∷ coins) (f ∷ l) (one, below, w) = ground (arith, Within-all coins l w)

-- Scaling factors can be drawn for a liquidity exactly if every amount in it is larger than 1.
scaling_factors_drawn_iff :
    (coins : List Coin)
    → ((factors : List ℕ) × scaling_factors coins factors)
      ↔ (all (λ c. ltb 1 c.amount) coins ≡ true)
unfolding scaling_factors
scaling_factors_drawn_iff coins = (λ (factors, w). Within-all coins factors w, Within-ok coins)
