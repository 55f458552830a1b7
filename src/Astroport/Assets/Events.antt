-- ===== src/Astroport/Assets/Events.antt =====
-- What `parse_astroport_create_pair_events` reads, by a description of its own.
use cw_it.Base.{
  ◌≡◌, refl, ap, ◌∙◌, Option, none, some, List, [], ◌∷◌, ◌++◌, bytes_eq, ◌==◌, if◌then◌else◌, arith,
  inl, inr, unwrap_or, Bool-cases,
}
use cw_it.Text.{Text, codes, is_empty}
use cw_it.Chain.{Event}
use cw_it.Astroport.Assets.{
  Found, read_attribute, read_attributes, read_events, parse_astroport_create_pair_events,
}

-- The attributes of the events of type "wasm", in order.
abbrev pub wasm_attributes : List Event → List (Text × Text)
unfolding bytes_eq
wasm_attributes [] = []
wasm_attributes (event ∷ events) =
    let rest = wasm_attributes events in
    if event.ty == codes "wasm" then event.attributes ++ rest else rest

abbrev or_earlier : Option Text → Option Text → Option Text
or_earlier none earlier = earlier
or_earlier (some later) earlier = some later

-- The value of the last attribute with the key.
unfoldable pub last_value : Text → List (Text × Text) → Option Text
unfolding bytes_eq
last_value key [] = none
last_value key ((k, value) ∷ attributes) =
    or_earlier (last_value key attributes) (if k == key then some value else none)

last_value-append :
    (key : Text) (l r : List (Text × Text))
    → last_value key (l ++ r) ≡ or_earlier (last_value key r) (last_value key l)
unfolding last_value
last_value-append key [] r = ground arith
last_value-append key ((k, v) ∷ l) r = ground (arith, last_value-append key l r)

unwrap_or-or_earlier :
    (later earlier : Option Text) (default : Text)
    → unwrap_or (or_earlier later earlier) default ≡ unwrap_or later (unwrap_or earlier default)
unwrap_or-or_earlier none earlier default = refl
unwrap_or-or_earlier (some t) earlier default = refl

last_or-append :
    (key : Text) (l r : List (Text × Text)) (default : Text)
    → unwrap_or (last_value key (l ++ r)) default
      ≡ unwrap_or (last_value key r) (unwrap_or (last_value key l) default)
last_or-append key l r default =
    ap (λ o. unwrap_or o default) (last_value-append key l r)
    ∙ unwrap_or-or_earlier (last_value key r) (last_value key l) default

-- The variables after the attributes, each by its key.
abbrev after : Found → List (Text × Text) → Found
after f l = record {
  pair_addr = unwrap_or (last_value (codes "pair_contract_addr") l) f.pair_addr;
  lp_token_addr = unwrap_or (last_value (codes "liquidity_token_addr") l) f.lp_token_addr;
  lp_token_denom = unwrap_or (last_value (codes "lp_denom") l) f.lp_token_denom;
}

after-append : (f : Found) (l r : List (Text × Text)) → after (after f l) r ≡ after f (l ++ r)
after-append f l r =
    rw
      (
        last_or-append (codes "pair_contract_addr") l r f.pair_addr,
        last_or-append (codes "liquidity_token_addr") l r f.lp_token_addr,
        last_or-append (codes "lp_denom") l r f.lp_token_denom,
      )
      refl

read_attribute-after : (f : Found) (a : Text × Text) → read_attribute f a ≡ after f (a ∷ [])
unfolding read_attribute last_value
read_attribute-after f (k, v) = ground arith

read_attributes-after : (f : Found) (l : List (Text × Text)) → read_attributes f l ≡ after f l
unfolding read_attributes last_value
read_attributes-after f [] = refl
read_attributes-after f (a ∷ l) =
    ap (λ g. read_attributes g l) (read_attribute-after f a)
    ∙ read_attributes-after (after f (a ∷ [])) l
    ∙ after-append f (a ∷ []) l

read_events-after :
    (f : Found) (events : List Event) → read_events f events ≡ after f (wasm_attributes events)
unfolding read_events last_value
read_events-after f [] = refl
read_events-after f (event ∷ events) = elim (Bool-cases (event.ty == codes "wasm")) [
  | inl e ↦
      rw (e, read_attributes-after f event.attributes)
        (read_events-after (after f event.attributes) events
          ∙ after-append f event.attributes (wasm_attributes events))
  | inr e ↦ rw e (read_events-after f events)
]

-- The result of `parse_astroport_create_pair_events` is the value of the last attribute
-- "pair_contract_addr" of the events of type "wasm", and beside it the last "lp_denom" if that is
-- there and not empty, or else the last "liquidity_token_addr"; what is missing is the empty text.
pub parse_astroport_create_pair_events_lem :
    (events : List Event)
    → parse_astroport_create_pair_events events ≡ (
      unwrap_or (last_value (codes "pair_contract_addr") (wasm_attributes events)) (codes ""),
      let lp_denom =
            unwrap_or (last_value (codes "lp_denom") (wasm_attributes events)) (codes "") in
          if is_empty lp_denom
          then unwrap_or
              (last_value (codes "liquidity_token_addr") (wasm_attributes events))
              (codes "")
          else lp_denom,
    )
unfolding parse_astroport_create_pair_events
parse_astroport_create_pair_events_lem events = rw (read_events-after _ events) refl
