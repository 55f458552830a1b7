-- ===== src/Runner/Execute/Responses.antt =====
-- What the response of the runner holds, and when the app is left alone.
use cw_it.Base.{◌≡◌, refl, ◌∙◌, ap, none, some, List, [], ◌∷◌, ◌++◌, arith, Option-cases, inl, inr}
use cw_it.Text.{Text}
use cw_it.Chain.{Binary, AppResponse, ok, traverse, ◌>>=◌, lift, outcome, succeeds, fails, panics}
use cw_it.Runner.Types.{Any, CosmosMsg, Wire, Message, App}
use cw_it.Runner.Convert.{convert_all}
use cw_it.Runner.Execute.{all_events, present_data, last, respond, execute_multiple_raw}

-- No response of the list carries data.
abbrev pub HaveNoData : List AppResponse → Type 0
HaveNoData [] = Unit
HaveNoData (r ∷ rs) = (r.data_bytes ≡ none) × HaveNoData rs

present_data-none : (rs : List AppResponse) → HaveNoData rs → present_data rs ≡ []
unfolding present_data
present_data-none [] h = refl
present_data-none (r ∷ rs) (absent, h) = rw (absent, present_data-none rs h) refl

present_data-append :
    (rs ts : List AppResponse) → present_data (rs ++ ts) ≡ present_data rs ++ present_data ts
unfolding present_data
present_data-append [] ts = refl
present_data-append (r ∷ rs) ts = elim (Option-cases r.data_bytes) [
  | inl absent ↦ rw absent (present_data-append rs ts)
  | inr (d, present) ↦ rw (present, present_data-append rs ts) refl
]

last-snoc : {A : Type 0} (l : List A) (a : A) → last (l ++ a ∷ []) ≡ some a
unfolding last
last-snoc [] a = refl
last-snoc (b ∷ []) a = refl
last-snoc (b ∷ c ∷ l) a = last-snoc (c ∷ l) a

last_present :
    (before after : List AppResponse) (r : AppResponse) (d : Binary)
    → r.data_bytes ≡ some d
    → HaveNoData after
    → last (present_data (before ++ r ∷ after)) ≡ some d
unfolding present_data
last_present before after r d present h =
    ap last (
      present_data-append before (r ∷ after)
      ∙ ap (λ l. present_data before ++ l) (one_more present h))
    ∙ last-snoc (present_data before) d
  where
    one_more : r.data_bytes ≡ some d → HaveNoData after → present_data (r ∷ after) ≡ d ∷ []
    one_more present h = rw (present, present_data-none after h) refl

module _ {R : Type 0} (M : Message R) where
  -- If a response carries data and none after it does, and the data decodes, then the runner's
  -- response holds the decoded value, its encoding, the events of all responses in order and no gas.
  respond_takes_last_data :
      (before after : List AppResponse) (r : AppResponse) (d : Binary) (value : R)
      → r.data_bytes ≡ some d
      → HaveNoData after
      → M.decode d ≡ some value
      → respond M (before ++ r ∷ after)
        ≡ ok (record {
          value = value;
          raw_data = M.encode value;
          events = all_events (before ++ r ∷ after);
          gas_wanted = 0;
          gas_used = 0;
        })
  unfolding respond
  respond_takes_last_data before after r d value present h decodes =
      ground (arith, last_present before after r d present h)

  module _ (A : App) where
    traverse-recode :
        (msgs : List CosmosMsg)
        → ((m : CosmosMsg) → A.recode m ≡ ok m)
        → traverse A.recode msgs ≡ ok msgs
    unfolding traverse
    traverse-recode [] faithful = refl
    traverse-recode (m ∷ msgs) faithful = rw (faithful m, traverse-recode msgs faithful) refl

    -- If writing a message as JSON and reading it back gives the message, then executing protobuf
    -- messages is: to convert them all, and, if that succeeds, to hand what they convert to, in
    -- order and in one call, to the app in the name of the signer, and to build the response from
    -- the app's responses. If the conversion fails or panics, the app is as before.
    pub execute_multiple_raw_lem :
        (W : Wire) (msgs : List Any) (signer : Text) (s : A.State)
        → ((m : CosmosMsg) → A.recode m ≡ ok m)
        → execute_multiple_raw M A W msgs signer s
          ≡ (lift (convert_all W msgs) >>= λ built.
                A.execute_multi signer built >>= λ rs. lift (respond M rs))
              s
    unfolding execute_multiple_raw
    execute_multiple_raw_lem W msgs signer s faithful = elim (outcome (convert_all W msgs)) [
      | succeeds built e ↦ ground (arith, traverse-recode built faithful)
      | fails e h ↦ ground arith
      | panics h ↦ ground arith
    ]
