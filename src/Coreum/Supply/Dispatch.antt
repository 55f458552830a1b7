-- ===== src/Coreum/Supply/Dispatch.antt =====
-- An accepted message, by the handler that it is for.
use cw_it.Base.{
  ◌≡◌, refl, ap, sym, ◌∙◌, true, false, bytes_eq, nat_eq, ◌==◌, arith, Bool-cases, inl, inr,
}
use cw_it.Text.{Text}
use cw_it.Chain.{AppResponse, Result, ok, err, panicked, StargateMsg, lift, ◌>>=◌}
use cw_it.Coreum.Types.{
  TokenFactory, MsgIssue, MsgMint, MsgBurn, MsgIssueClass, MsgNftMint, MsgNftBurn, MsgNftSend,
  World, Store,
}
use cw_it.Coreum.Fungible.{issue, mint, burn}
use cw_it.Coreum.Nft.{issue_class, nft_mint, nft_burn, nft_send}
use cw_it.Coreum.Handle.{execute, if_cases, decoded_cases}

module _ (W : World) (sender : Text) (s : Store W) where
  issue_class-bank : (m : MsgIssueClass) → (issue_class W m sender s).1.bank ≡ s.bank
  unfolding issue_class
  issue_class-bank m = ground arith

  nft_mint-bank : (m : MsgNftMint) → (nft_mint W m sender s).1.bank ≡ s.bank
  unfolding nft_mint
  nft_mint-bank m = ground arith

  nft_burn-bank : (m : MsgNftBurn) → (nft_burn W m sender s).1.bank ≡ s.bank
  unfolding nft_burn
  nft_burn-bank m = ground arith

  nft_send-bank : (m : MsgNftSend) → (nft_send W m sender s).1.bank ≡ s.bank
  unfolding nft_send
  nft_send-bank m = ground arith

module _ (W : World) (F : TokenFactory) (sender : Text) (msg : StargateMsg) (s : Store W) where
  -- The handlers of the NFTs do not touch the bank.
  rest-bank :
      (msg.type_url == W.issue_url) ≡ false
      → (msg.type_url == W.mint_url) ≡ false
      → (msg.type_url == W.burn_url) ≡ false
      → (execute W F sender msg s).1.bank ≡ s.bank
  unfolding execute bytes_eq
  rest-bank ni nm nb =
      let Q : Result AppResponse × Store W → Type 0 = λ r. r.1.bank ≡ s.bank in
      let same : (r : Result AppResponse) → Q (r, s) = λ r. refl in
      rw (ni, nm, nb)
        (if_cases W Q s (msg.type_url == W.issue_class_url)
          (decoded_cases W Q s (W.decode_issue_class msg.value) (λ m. issue_class W m sender) same
            (issue_class-bank W sender s))
          (if_cases W Q s (msg.type_url == W.nft_mint_url)
            (decoded_cases W Q s (W.decode_nft_mint msg.value) (λ m. nft_mint W m sender) same
              (nft_mint-bank W sender s))
            (if_cases W Q s (msg.type_url == W.nft_burn_url)
              (decoded_cases W Q s (W.decode_nft_burn msg.value) (λ m. nft_burn W m sender) same
                (nft_burn-bank W sender s))
              (if_cases W Q s (msg.type_url == W.nft_send_url)
                (decoded_cases W Q s (W.decode_nft_send msg.value) (λ m. nft_send W m sender) same
                  (nft_send-bank W sender s))
                refl))))

  pub decoded-inv :
      {A : Type 0} (r : Result A) (f : A → Store W → Result AppResponse × Store W) (s' : Store W)
      (res : AppResponse) {G : Type 0}
      → (lift r >>= f) s ≡ (ok res, s')
      → ((a : A) → r ≡ ok a → f a s ≡ (ok res, s') → G)
      → G
  decoded-inv (ok a) f s' res h goal = goal a refl h
  decoded-inv (err e) f s' res h goal = absurd (ground (arith, h))
  decoded-inv panicked f s' res h goal = absurd (ground (arith, h))

  pub execute-cases :
      (s' : Store W) (res : AppResponse) {G : Type 0}
      → execute W F sender msg s ≡ (ok res, s')
      → ((msg.type_url == W.issue_url) ≡ true
          → (m : MsgIssue) → W.decode_issue msg.value ≡ ok m
          → issue W F m sender s ≡ (ok res, s')
          → G)
      → ((msg.type_url == W.issue_url) ≡ false
          → (msg.type_url == W.mint_url) ≡ true
          → (m : MsgMint) → W.decode_mint msg.value ≡ ok m
          → mint W m sender s ≡ (ok res, s')
          → G)
      → ((msg.type_url == W.issue_url) ≡ false
          → (msg.type_url == W.mint_url) ≡ false
          → (msg.type_url == W.burn_url) ≡ true
          → (m : MsgBurn) → W.decode_burn msg.value ≡ ok m
          → burn W m sender s ≡ (ok res, s')
          → G)
      → ((msg.type_url == W.issue_url) ≡ false
          → (msg.type_url == W.mint_url) ≡ false
          → (msg.type_url == W.burn_url) ≡ false
          → s'.bank ≡ s.bank
          → G)
      → G
  unfolding execute bytes_eq
  execute-cases s' res h issued minted_ burned_ other =
      elim (Bool-cases (msg.type_url == W.issue_url)) [
        | inl i ↦
            decoded-inv (W.decode_issue msg.value) (λ m. issue W F m sender) s' res (rw i at h)
              (issued i)
        | inr ni ↦ elim (Bool-cases (msg.type_url == W.mint_url)) [
          | inl m ↦
              decoded-inv (W.decode_mint msg.value) (λ m. mint W m sender) s' res (rw (ni, m) at h)
                (minted_ ni m)
          | inr nm ↦ elim (Bool-cases (msg.type_url == W.burn_url)) [
            | inl b ↦
                decoded-inv (W.decode_burn msg.value) (λ m. burn W m sender) s' res
                  (rw (ni, nm, b) at h) (burned_ ni nm b)
            | inr nb ↦ other ni nm nb (sym (ap (λ r. r.1.bank) h) ∙ rest-bank ni nm nb)
          ]
        ]
      ]
