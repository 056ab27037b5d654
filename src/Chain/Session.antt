-- ===== src/Chain/Session.antt =====
-- internal/chain/cometws/client.go: one websocket session. What the network does is `Session`: how the
-- endpoint's URL parses, whether the dial succeeds, which of the requests cannot be written, and
-- what each read brings. The JSON decoder is a parameter; deadlines and the log are not modelled.
use cmt_top.Base.{
  Bool, true, false, ◌||◌, String, List, [], ◌∷◌, Option, none, some, ◌==◌, String_eq,
  if◌then◌else◌,
}
use cmt_top.Chain.Socket.{
  TransportState, connecting, subscribing, live, SocketFault, dial_failed, read_failed, canceled,
  subscribe_failed, subscription_refused, Client, SocketUrl, subscribed, unusable, subscription_url,
}

-- The types of events that have a payload.
pub data EventType : Type 0 where
  new_block_type new_round_type vote_type validator_set_updates_type : EventType

pub record Event {ℓ} (P : Type ℓ) : Type ℓ where
  pub query : String
  pub payload : Option (EventType × P)

-- How a reply decodes: `none` where the decoder fails.
pub record Decoder {ℓ} (P : Type ℓ) : Type ℓ where
  -- The query and the raw data, empty where there is none.
  pub envelope : String → Option (String × String)
  -- The name of the event's type and its raw payload.
  pub typed : String → Option (String × String)
  pub payload_of : EventType → String → Option P

abbrev pub type_of_name : String → Option EventType
type_of_name name =
    if name == "tendermint/event/NewBlock" || name == "cometbft/event/NewBlock"
    then some new_block_type
    else if name == "tendermint/event/NewRound" || name == "cometbft/event/NewRound"
    then some new_round_type
    else if name == "tendermint/event/Vote" || name == "cometbft/event/Vote"
    then some vote_type
    else if name == "tendermint/event/ValidatorSetUpdates"
        || name == "cometbft/event/ValidatorSetUpdates"
    then some validator_set_updates_type
    else none

-- A reply of the node, and what a read brings.
pub record RpcResponse : Type 0 where
  pub error : Option String
  pub result : String

pub data Read : Type 0 where
  lost cancelled : Read
  reply : RpcResponse → Read

pub record Session : Type 0 where
  pub url : Option SocketUrl
  -- The dial fails, and then because it was cancelled or not.
  pub dial_fault : Option Bool
  pub unwritten : Option String
  pub reads : List Read

pub data Action {ℓ} (P : Type ℓ) : Type ℓ where
  enter : TransportState → String → Option SocketFault → Action P
  hand_on : Event P → Action P

abbrev pub set_state : TransportState → String → Client → Client
set_state s ep c = record c { state = s; active = ep }

abbrev pub is_live : TransportState → Bool
is_live live = true
is_live _ = false

module _ {ℓ} {P : Type ℓ} (decoder : Decoder P) where
  unfoldable pub unmarshal_event_data : String → String → Option (EventType × P)
  unmarshal_event_data name value = elim (type_of_name name) [
    | none ↦ none
    | some kind ↦ elim (decoder.payload_of kind value) [ none ↦ none | some p ↦ some (kind, p) ]
  ]

  unfoldable pub decode_event : String → Option (Event P)
  decode_event raw = elim (decoder.envelope raw) [
    | none ↦ none
    | some env ↦
        if env.1 == ""
        then some (record { query = env.0; payload = none })
        else elim (decoder.typed env.1) [
          | none ↦ none
          | some typed ↦ elim (unmarshal_event_data typed.0 typed.1) [
            | none ↦ none
            | some d ↦ some (record { query = env.0; payload = some d })
          ]
        ]
  ]

  -- The event of a reply that is handed on: neither an acknowledgement nor undecodable nor empty.
  unfoldable pub event_of : RpcResponse → Option (Event P)
  event_of resp = if resp.result == "" then none else elim (decode_event resp.result) [
    | none ↦ none
    | some ev ↦ elim ev.payload [ none ↦ none | some _ ↦ some ev ]
  ]

  -- The loop over the replies; `none` while it waits for another.
  unfoldable pub pump : String → List Read → Client → List (Action P) × Client × Option SocketFault
  pump ep [] c = ([], c, none)
  pump ep (lost ∷ reads) c = ([], c, some read_failed)
  pump ep (cancelled ∷ reads) c = ([], c, some canceled)
  pump ep (reply resp ∷ reads) c = elim resp.error [
    | some text ↦ ([], c, some (subscription_refused text))
    | none ↦ elim (event_of resp) [
      | none ↦ pump ep reads c
      | some ev ↦ elim (is_live c.state) [
        | true ↦ (let rest = pump ep reads c in (hand_on ev ∷ rest.0, rest.1, rest.2))
        | false ↦
            (let rest = pump ep reads (set_state live ep c) in
              (enter live ep none ∷ hand_on ev ∷ rest.0, rest.1, rest.2))
      ]
    ]
  ]

  unfoldable pub subscribe_and_pump :
      String → Session → Client → List (Action P) × Client × Option SocketFault
  subscribe_and_pump ep s c =
      let c' = set_state subscribing ep c in
      elim s.unwritten [
        | some q ↦ (enter subscribing ep none ∷ [], c', some (subscribe_failed q))
        | none ↦
            (let rest = pump ep s.reads c' in (enter subscribing ep none ∷ rest.0, rest.1, rest.2))
      ]

  unfoldable pub connect_and_pump :
      String → Session → Client → List (Action P) × Client × Option SocketFault
  connect_and_pump ep s c =
      let c' = set_state connecting ep c in
      elim (subscription_url s.url) [
        | unusable fault ↦ (enter connecting ep none ∷ [], c', some fault)
        | subscribed _ ↦ elim s.dial_fault [
          | some was_cancelled ↦ (
            enter connecting ep none ∷ [],
            c',
            some (if was_cancelled then canceled else dial_failed),
          )
          | none ↦
              (let rest = subscribe_and_pump ep s c' in
                (enter connecting ep none ∷ rest.0, rest.1, rest.2))
        ]
      ]
