-- ===== src/Batches/Supply.antt =====
-- What a batch of messages to the Osmosis factory, src/multi_test/modules/token_factory.rs, does to
-- the supply of the denoms when it is executed by the runner.
use cw_it.Base.{subst, some, List, map, sym}
use cw_it.Text.{Text}
use cw_it.Chain.{StargateMsg, Router, IsBank}
use cw_it.Runner.{Wire, Message}
use cw_it.Runner.Execute.{respond, execute_multiple_raw}
use cw_it.TokenFactory.{TokenFactory, Codec, execute, query, sudo}
use cw_it.TokenFactory.Supply.{minted, burned, execute-balances}
use cw_it.UnifiedStargate.Types.{Requests, Extra}
use cw_it.Batches.{Simulator, app_on, to_any, AreUnknown, IsRouting}
use cw_it.Batches.Atomic.{AllOrNothing, atomic-AllOrNothing, respond-err}
use cw_it.Batches.Passing.{execute_multiple_raw-extra}

module _ (R : Router) (C : Codec) (F : TokenFactory) where
  abbrev pub factory : Extra R.Bank
  factory = record {
    query = λ Q s request. (query R C F request s).0;
    execute = execute R C F;
    sudo = sudo R C F;
  }

  -- If the app routes stargate messages to a stargate module with the factory, the bank keeps its
  -- supplies, and the runner knows none of the type URLs of a batch, then executing the batch by
  -- the runner changes the supply of each denom by what all of its mints and burns together ask for
  -- and, if it is the denom of the fee, by one fee for each denom created; or the runner returns an
  -- error and the app's state is as before. If the runner panics, one of both holds of the state.
  pub execute_multiple_raw-AllOrNothing :
      {T : Type 0} (A : Simulator R.Bank) (M : Message T) (W : Wire) (Q : Requests) (B : IsBank R)
      (d : Text) (batch : List StargateMsg) (signer : Text) (s : R.Bank)
      → IsRouting (app_on A) Q (some factory)
      → AreUnknown W batch
      → AllOrNothing
          (B.supply d)
          (minted C F d)
          (burned C F d)
          batch
          s
          (execute_multiple_raw M (app_on A) W (map to_any batch) signer s)
  execute_multiple_raw-AllOrNothing A M W Q B d batch signer s routing unknown =
      subst (AllOrNothing (B.supply d) (minted C F d) (burned C F d) batch s)
        (sym (execute_multiple_raw-extra (app_on A) W Q factory M batch signer s routing unknown))
        (atomic-AllOrNothing (B.supply d) (minted C F d) (burned C F d) (execute R C F signer)
          (λ m s s' res h. execute-balances R C F B signer m s s' res h d) batch s (respond M)
          (respond-err M))
