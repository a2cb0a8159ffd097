-- ===== src/Websocket/Accepting.antt =====
-- v1/server_websocket.go: that operations run only once `connection_init` was accepted.
pub mod Gate
pub mod Started
use wsgraphql.Prelude.{String_discrete, ◌≡◌, ◌⊎◌, false, Option, none, ite}
use wsgraphql.Apollows.{connection_init, Error, Message}
use wsgraphql.Websocket.State.{System, signalling, unused}
use wsgraphql.Websocket.Reader.{InitOutcome}
use wsgraphql.Websocket.Operations.{Environment}
use wsgraphql.Websocket.System.{Event, receive, hand_over, Reach, here, next}

module _ {F : Type 0} (env : Environment F) where
  -- Why the payload of a `connection_init` message cannot be read, if it cannot.
  abbrev pub unreadable_init : Message F → Option (Error F)
  unreadable_init msg =
      ite (String_discrete msg.payload.raw_message "") none
        (env.unmarshal_init msg.payload.raw_message)

  -- The payload can be read, and the `Init` interceptor returns no error.
  abbrev pub Welcomes : Message F → InitOutcome F → Type 0
  Welcomes msg outcome = (unreadable_init msg ≡ none) × (outcome.returned ≡ none)

  -- The event by which a `connection_init` message is accepted in this state: it is read, and is the
  -- first, where there is no connect timeout; or it was read, and `backgroundTimeout` takes it.
  pub data Accepts (sys : System F) : Event F → Type 0 where
    at_once :
        (msg : Message F) (outcome : InitOutcome F)
        → msg.type ≡ connection_init
        → sys.request.init ≡ false
        → sys.timer ≡ unused
        → Welcomes msg outcome
        → Accepts sys (receive msg outcome)
    in_time :
        (msg : Message F) (outcome : InitOutcome F)
        → sys.reader ≡ signalling msg
        → Welcomes msg outcome
        → Accepts sys (hand_over outcome)

  -- That happened on the way to a state.
  abbrev pub HasAccepted : {s t : System F} → Reach env s t → Type 0
  HasAccepted here = ⊥
  HasAccepted (next {s} e r stepped) = HasAccepted r ⊎ Accepts s e
