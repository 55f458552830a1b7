-- ===== src/Coreum/Handle.antt =====
-- `handle_any` and `Module::execute`, and the rest of the two `Module` implementations.
use cw_it.Base.{Bool, true, false, bytes_eq, ◌==◌, if◌then◌else◌}
use cw_it.Text.{Text}
use cw_it.Chain.{
  Binary, AppResponse, default_response, StargateMsg, StargateQuery, Result, ok, err, panicked,
  Action, ◌>>=◌, pure, lift, unknown_message_type, queries_disabled,
}
use cw_it.Coreum.Types.{
  TokenFactory, MsgIssue, MsgMint, MsgBurn, MsgIssueClass, MsgNftMint, MsgNftBurn, MsgNftSend,
  World, Store,
}
use cw_it.Coreum.Fungible.{issue, mint, burn}
use cw_it.Coreum.Nft.{issue_class, nft_mint, nft_burn, nft_send}

module _ (W : World) where
  abbrev Run : Type 0 → Type 0
  Run A = Action (Store W) A

  -- `match type_url.as_str()`
  handle_any : TokenFactory → Text → Text → Binary → Run AppResponse
  unfolding bytes_eq
  handle_any F sender type_url value s =
      if type_url == W.issue_url
      then (lift (W.decode_issue value) >>= λ msg. issue W F msg sender) s
      else if type_url == W.mint_url
      then (lift (W.decode_mint value) >>= λ msg. mint W msg sender) s
      else if type_url == W.burn_url
      then (lift (W.decode_burn value) >>= λ msg. burn W msg sender) s
      else if type_url == W.issue_class_url
      then (lift (W.decode_issue_class value) >>= λ msg. issue_class W msg sender) s
      else if type_url == W.nft_mint_url
      then (lift (W.decode_nft_mint value) >>= λ msg. nft_mint W msg sender) s
      else if type_url == W.nft_burn_url
      then (lift (W.decode_nft_burn value) >>= λ msg. nft_burn W msg sender) s
      else if type_url == W.nft_send_url
      then (lift (W.decode_nft_send value) >>= λ msg. nft_send W msg sender) s
      else (err (unknown_message_type type_url), s)

  -- The error is passed on by its message.
  unfoldable pub execute : TokenFactory → Text → StargateMsg → Run AppResponse
  unfolding handle_any
  execute F sender msg = handle_any F sender msg.type_url msg.value

  -- The factory answers no query and does nothing on `sudo`.
  unfoldable pub query : StargateQuery → Run Binary
  query request s = (err queries_disabled, s)

  unfoldable pub sudo : Run AppResponse
  sudo = pure default_response

  -- A predicate on what a message leads to holds if it holds after each handler, and when nothing
  -- is done.
  module _ (Q : Result AppResponse × Store W → Type 0) (s : Store W) where
    pub decoded_cases :
        {A : Type 0} (r : Result A) (f : A → Run AppResponse)
        → ((r : Result AppResponse) → Q (r, s))
        → ((a : A) → Q (f a s))
        → Q ((lift r >>= f) s)
    decoded_cases (ok a) f refused done = done a
    decoded_cases (err e) f refused done = refused (err e)
    decoded_cases panicked f refused done = refused panicked

    pub if_cases :
        (b : Bool) {x y : Result AppResponse × Store W} → Q x → Q y → Q (if b then x else y)
    if_cases true p q = p
    if_cases false p q = q

    pub execute_cases :
        (F : TokenFactory) (sender : Text) (msg : StargateMsg)
        → ((r : Result AppResponse) → Q (r, s))
        → ((m : MsgIssue) → Q (issue W F m sender s))
        → ((m : MsgMint) → Q (mint W m sender s))
        → ((m : MsgBurn) → Q (burn W m sender s))
        → ((m : MsgIssueClass) → Q (issue_class W m sender s))
        → ((m : MsgNftMint) → Q (nft_mint W m sender s))
        → ((m : MsgNftBurn) → Q (nft_burn W m sender s))
        → ((m : MsgNftSend) → Q (nft_send W m sender s))
        → Q (execute F sender msg s)
    unfolding execute
    execute_cases F sender msg same p1 p2 p3 p4 p5 p6 p7 =
        if_cases (msg.type_url == W.issue_url)
          (decoded_cases (W.decode_issue msg.value) (λ m. issue W F m sender) same p1)
          (if_cases (msg.type_url == W.mint_url)
            (decoded_cases (W.decode_mint msg.value) (λ m. mint W m sender) same p2)
            (if_cases (msg.type_url == W.burn_url)
              (decoded_cases (W.decode_burn msg.value) (λ m. burn W m sender) same p3)
              (if_cases (msg.type_url == W.issue_class_url)
                (decoded_cases (W.decode_issue_class msg.value) (λ m. issue_class W m sender) same
                  p4)
                (if_cases (msg.type_url == W.nft_mint_url)
                  (decoded_cases (W.decode_nft_mint msg.value) (λ m. nft_mint W m sender) same p5)
                  (if_cases (msg.type_url == W.nft_burn_url)
                    (decoded_cases (W.decode_nft_burn msg.value) (λ m. nft_burn W m sender) same p6)
                    (if_cases (msg.type_url == W.nft_send_url)
                      (decoded_cases (W.decode_nft_send msg.value) (λ m. nft_send W m sender) same
                        p7)
                      (same (err (unknown_message_type msg.type_url)))))))))
