-- ===== src/Batches/Coreum.antt =====
-- What a batch of messages to the Coreum factory, src/multi_test/modules/token_factory_coreum.rs,
-- does to the store when it is executed by the runner.
use cw_it.Base.{◌≡◌, sym, subst, false, some, List, map}
use cw_it.Text.{Text, is_empty}
use cw_it.Chain.{StargateMsg, IsBank}
use cw_it.Runner.{Wire, Message}
use cw_it.Runner.Execute.{respond, execute_multiple_raw}
use cw_it.Coreum.{TokenFactory, World, Store}
use cw_it.Coreum.Handle.{execute, query, sudo}
use cw_it.Coreum.Invariant.{AreLawful, IsValid}
use cw_it.Coreum.Invariant.Histories.{execute-IsValid}
use cw_it.Coreum.Supply.{minted, burned, supply}
use cw_it.Coreum.Supply.Histories.{execute-balances}
use cw_it.UnifiedStargate.Types.{Requests, Extra}
use cw_it.Batches.{Simulator, app_on, to_any, AreUnknown, IsRouting}
use cw_it.Batches.Atomic.{AllOrNothing, atomic-AllOrNothing, atomic-keeps, respond-err}
use cw_it.Batches.Passing.{execute_multiple_raw-extra}

module _ (W : World) (F : TokenFactory) where
  abbrev pub token_factory : Extra (Store W)
  token_factory = record {
    query = λ Q s request. (query W request s).0;
    execute = execute W F;
    sudo = sudo W;
  }

  -- If the app routes stargate messages to a stargate module with the factory, the maps follow
  -- their laws, the bank keeps its supplies, and the runner knows none of the type URLs of a batch,
  -- then executing the batch for a signer that is not empty by the runner keeps the store valid,
  -- and it changes the supply of each denom by what all of its issues, mints and burns together ask
  -- for and, if it is the denom of the fee, by one fee for each token issued; or the runner returns
  -- an error and the whole store is as before. If the runner panics, one of both holds.
  pub execute_multiple_raw-IsValid :
      {T : Type 0} (A : Simulator (Store W)) (M : Message T) (wire : Wire) (Q : Requests)
      (B : IsBank W.router) (d : Text) (batch : List StargateMsg) (signer : Text) (s : Store W)
      → AreLawful W
      → IsRouting (app_on A) Q (some token_factory)
      → AreUnknown wire batch
      → is_empty signer ≡ false
      → IsValid W s
      → IsValid W (execute_multiple_raw M (app_on A) wire (map to_any batch) signer s).1
        × AllOrNothing
            (supply W B d)
            (minted W F d)
            (burned W F d)
            batch
            s
            (execute_multiple_raw M (app_on A) wire (map to_any batch) signer s)
  execute_multiple_raw-IsValid A M wire Q B d batch signer s lawful routing unknown someone v =
      let passed = sym (
        execute_multiple_raw-extra (app_on A) wire Q token_factory M batch signer s routing
          unknown) in
      (
        subst (λ r. IsValid W r.1) passed
            (atomic-keeps (IsValid W) (execute W F signer)
              (λ m t valid. execute-IsValid W lawful F signer m t someone valid) batch s (respond M)
              v),
        subst (AllOrNothing (supply W B d) (minted W F d) (burned W F d) batch s) passed (
            atomic-AllOrNothing (supply W B d) (minted W F d) (burned W F d) (execute W F signer)
              (λ m t t' res h. execute-balances W F signer m t B t' res h d) batch s (respond M)
              (respond-err M)),
      )
