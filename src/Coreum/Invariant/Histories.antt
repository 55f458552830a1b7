-- ===== src/Coreum/Invariant/Histories.antt =====
-- The histories of the store, and the invariant after each.
use cw_it.Base.{◌≡◌, refl, false, none-some}
use cw_it.Text.{Text, is_empty}
use cw_it.Chain.{StargateMsg}
use cw_it.Coreum.Types.{TokenFactory, World, Store}
use cw_it.Coreum.Fungible.{mint, burn}
use cw_it.Coreum.Fungible.Frame.{mint-OnlyBank, burn-OnlyBank}
use cw_it.Coreum.Handle.{execute, execute_cases}
use cw_it.Coreum.Invariant.{AreLawful, IsValid, OnlyBank-IsValid}
use cw_it.Coreum.Invariant.Messages.{
  issue-IsValid, issue_class-IsValid, nft_mint-IsValid, nft_burn-IsValid, nft_send-IsValid,
}

module _ (W : World) where
  abbrev pub empty_store : W.router.Bank → Store W
  empty_store bank = record {
    issued = W.issued.empty;
    classes = W.classes.empty;
    nfts = W.nfts.empty;
    bank = bank;
  }

  -- The stores that messages lead to from an empty one, where a sender is never the empty text and
  -- other modules move the bank in between.
  pub data Reached : Store W → Type 0 where
    start : (bank : W.router.Bank) → Reached (empty_store bank)
    message :
        (F : TokenFactory) (sender : Text) (msg : StargateMsg) (s : Store W)
        → is_empty sender ≡ false
        → Reached s
        → Reached (execute W F sender msg s).1
    elsewhere :
        (bank : W.router.Bank) (s : Store W) → Reached s → Reached (record s { bank = bank })

module _ (W : World) (lawful : AreLawful W) where
  -- If the maps follow their laws, the store is valid after a message by a sender that is not
  -- empty when it was before, whatever the message's outcome.
  pub execute-IsValid :
      (F : TokenFactory) (sender : Text) (msg : StargateMsg) (s : Store W)
      → is_empty sender ≡ false
      → IsValid W s
      → IsValid W (execute W F sender msg s).1
  execute-IsValid F sender msg s some_sender v =
      execute_cases W (λ r. IsValid W r.1) s F sender msg (λ r. v)
        (λ m. issue-IsValid W lawful F m sender s v)
        (λ m. OnlyBank-IsValid W s (mint W m sender s).1 (mint-OnlyBank W m sender s) v)
        (λ m. OnlyBank-IsValid W s (burn W m sender s).1 (burn-OnlyBank W m sender s) v)
        (λ m. issue_class-IsValid W lawful m sender s v)
        (λ m. nft_mint-IsValid W lawful m sender s some_sender v)
        (λ m. nft_burn-IsValid W lawful m sender s v) (λ m. nft_send-IsValid W lawful m sender s v)

  -- If the maps follow their laws, every store that a history leads to is valid: each NFT is
  -- stored under its own class and id, has an owner and is of a class that is there, and the
  -- classes and tokens are under the names that their definitions give.
  pub Reached-IsValid : (s : Store W) → Reached W s → IsValid W s
  Reached-IsValid s (start bank) = record {
    nfts = λ c i n h. absurd (none-some {a = n} (lawful.nfts.load-empty (c, i)) h);
    classes = λ c m h. absurd (none-some {a = m} (lawful.classes.load-empty c) h);
    tokens = λ d m h. absurd (none-some {a = m} (lawful.issued.load-empty d) h);
  }
  Reached-IsValid s (message F sender msg before some_sender r) =
      execute-IsValid F sender msg before some_sender (Reached-IsValid before r)
  Reached-IsValid s (elsewhere bank before r) = same_bank (Reached-IsValid before r)
    where
      same_bank : IsValid W before → IsValid W (record before { bank = bank })
      same_bank = OnlyBank-IsValid W before (record before { bank = bank }) (refl, refl, refl)
