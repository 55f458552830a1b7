-- ===== src/Coreum/Count/Histories.antt =====
-- The dispatch of the messages, and the number of NFTs through any history of them.
use cw_it.Base.{
  ◌+◌, ◌≡◌, ap, sym, ◌∙◌, false, List, bytes_eq, pair_eq, nat_eq, ◌==◌, arith, Bool-cases, inl, inr,
}
use cw_it.Text.{Text}
use cw_it.Chain.{AppResponse, Result, ok, StargateMsg, run, total, run-balances, count_by, IsLawful}
use cw_it.Coreum.Types.{TokenFactory, MsgIssueClass, World, Store}
use cw_it.Coreum.Fungible.{issue, mint, burn}
use cw_it.Coreum.Fungible.Frame.{issue_frame, mint-OnlyBank, burn-OnlyBank}
use cw_it.Coreum.Nft.{issue_class, nft_mint, nft_burn, nft_send}
use cw_it.Coreum.Handle.{execute}
use cw_it.Coreum.Supply.Dispatch.{decoded-inv}
use cw_it.Coreum.Count.{
  of_class, nft_count, made, taken, nft_mint-count, nft_burn-count, nft_send-count,
}

module _ (W : World) (c : Text) where
  module _ (lawful : IsLawful W.nfts) (F : TokenFactory) (sender : Text) (msg : StargateMsg)
      (s s' : Store W) (res : AppResponse) where
    -- The messages on tokens and classes leave the NFTs alone.
    kept_by :
        {A : Type 0} (f : A → Store W → Result AppResponse × Store W) (m : A)
        → (f m s).1.nfts ≡ s.nfts
        → f m s ≡ (ok res, s')
        → nft_count W c s' ≡ nft_count W c s
    kept_by f m same e =
        ap (λ t. count_by (of_class W c) (W.nfts.range t)) (sym (ap (λ r. r.1.nfts) e) ∙ same)

    issue_class-nfts : (m : MsgIssueClass) → (issue_class W m sender s).1.nfts ≡ s.nfts
    unfolding issue_class
    issue_class-nfts m = ground arith

    nfts-count :
        (msg.type_url == W.issue_url) ≡ false
        → (msg.type_url == W.mint_url) ≡ false
        → (msg.type_url == W.burn_url) ≡ false
        → (msg.type_url == W.issue_class_url) ≡ false
        → execute W F sender msg s ≡ (ok res, s')
        → nft_count W c s' + taken W c msg ≡ nft_count W c s + made W c msg
    unfolding execute made taken bytes_eq
    nfts-count na nb nc nd h = elim (Bool-cases (msg.type_url == W.nft_mint_url)) [
      | inl b ↦
          decoded-inv W F sender msg s (W.decode_nft_mint msg.value) (λ m. nft_mint W m sender) s'
            res (rw (na, nb, nc, nd, b) at h)
            λ m decoded e.
              let moved = nft_mint-count W c lawful sender s s' res m e in
              rw (na, nb, nc, nd, b, decoded) (omega (arith, moved))
      | inr nb' ↦ elim (Bool-cases (msg.type_url == W.nft_burn_url)) [
        | inl b ↦
            decoded-inv W F sender msg s (W.decode_nft_burn msg.value) (λ m. nft_burn W m sender) s'
              res (rw (na, nb, nc, nd, nb', b) at h)
              λ m decoded e.
                let moved = nft_burn-count W c lawful sender s s' res m e in
                rw (na, nb, nc, nd, nb', b, decoded) (omega (arith, moved))
        | inr nb'' ↦ elim (Bool-cases (msg.type_url == W.nft_send_url)) [
          | inl b ↦
              decoded-inv W F sender msg s (W.decode_nft_send msg.value) (λ m. nft_send W m sender)
                s' res (rw (na, nb, nc, nd, nb', nb'', b) at h)
                λ m decoded e.
                  let moved = nft_send-count W c lawful sender s s' res m e in
                  rw (na, nb, nc, nd, nb', nb'') (omega (arith, moved))
          | inr none_left ↦ absurd (ground (arith, rw (na, nb, nc, nd, nb', nb'', none_left) at h))
        ]
      ]
    ]

    execute-count :
        execute W F sender msg s ≡ (ok res, s')
        → nft_count W c s' + taken W c msg ≡ nft_count W c s + made W c msg
    unfolding execute made taken bytes_eq
    execute-count h = elim (Bool-cases (msg.type_url == W.issue_url)) [
      | inl a ↦
          decoded-inv W F sender msg s (W.decode_issue msg.value) (λ m. issue W F m sender) s' res
            (rw a at h)
            λ m decoded e.
              let kept = kept_by (λ m. issue W F m sender) m (issue_frame W F m sender s).0 e in
              rw a (omega (arith, kept))
      | inr na ↦ elim (Bool-cases (msg.type_url == W.mint_url)) [
        | inl b ↦
            decoded-inv W F sender msg s (W.decode_mint msg.value) (λ m. mint W m sender) s' res
              (rw (na, b) at h)
              λ m decoded e.
                let kept = kept_by (λ m. mint W m sender) m (mint-OnlyBank W m sender s).0 e in
                rw (na, b) (omega (arith, kept))
        | inr nb ↦ elim (Bool-cases (msg.type_url == W.burn_url)) [
          | inl b ↦
              decoded-inv W F sender msg s (W.decode_burn msg.value) (λ m. burn W m sender) s' res
                (rw (na, nb, b) at h)
                λ m decoded e.
                  let kept = kept_by (λ m. burn W m sender) m (burn-OnlyBank W m sender s).0 e in
                  rw (na, nb, b) (omega (arith, kept))
          | inr nc ↦ elim (Bool-cases (msg.type_url == W.issue_class_url)) [
            | inl d ↦
                decoded-inv W F sender msg s (W.decode_issue_class msg.value)
                  (λ m. issue_class W m sender) s' res (rw (na, nb, nc, d) at h)
                  λ m decoded e.
                    let kept = kept_by (λ m. issue_class W m sender) m (issue_class-nfts m) e in
                    rw (na, nb, nc, d) (omega (arith, kept))
            | inr nd ↦ nfts-count na nb nc nd h
          ]
        ]
      ]
    ]

  -- If the map of the NFTs follows its laws, then after any history of messages to the factory, each
  -- run as a transaction, there are as many NFTs of a class as before, with one more for each
  -- accepted mint in the class and one less for each accepted burn; sends, classes and tokens do
  -- not count.
  pub run-nft_count :
      (F : TokenFactory) (history : List (Text × StargateMsg)) (s : Store W)
      → IsLawful W.nfts
      → nft_count W c (run (execute W F) history s) + total (execute W F) (taken W c) history s
        ≡ nft_count W c s + total (execute W F) (made W c) history s
  run-nft_count F history s lawful =
      run-balances (execute W F) (nft_count W c) (made W c) (taken W c)
        (λ sender msg t t' res h. execute-count lawful F sender msg t t' res h) history s
