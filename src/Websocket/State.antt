-- ===== src/Websocket/State.antt =====
-- v1/server_websocket.go: the state of a websocket request and of its goroutines.
--
-- A goroutine that sends on `outgoing` holds the messages still to be sent, in order; the channel
-- has room for one. A send made by `select` may also be given up, once the request context at
-- `unless` is done. A context is named by its address in the store of contexts.
use wsgraphql.Prelude.{ℕ, String, Bool, Option, List}
use wsgraphql.Context.{Contexts}
use wsgraphql.Apollows.{Protocol, Error, ApollowsError, Message, MessageType}

-- `outgoingMessage`, which has its `Message` or its `Error`.
pub data OutgoingMessage (F : Type 0) : Type 0 where
  message : Message F → OutgoingMessage F
  failure : ApollowsError F → OutgoingMessage F

pub record Send (F : Type 0) : Type 0 where
  pub item : OutgoingMessage F
  pub unless : Option ℕ

-- `websocketRequest`, with the contexts that it reaches. `closed`: `outgoing` was closed.
-- `panicked`: a goroutine sent on it after that.
pub record Request (F : Type 0) : Type 0 where
  pub ctx : ℕ
  pub outgoing : List (OutgoingMessage F)
  pub operations : List (String × ℕ)
  pub protocol : Protocol
  pub wg : ℕ
  pub init : Bool
  pub contexts : Contexts
  pub closed : Bool
  pub panicked : Bool

-- Where `readWebsocket` stands: at `ReadJSON`; at the hand-over to `backgroundTimeout`, with the
-- `connection_init` message; in its deferred function before `Cancel`; at `wg.Wait`; at its end.
pub data Reader (F : Type 0) : Type 0 where
  reading : Reader F
  signalling : Message F → Reader F
  failing waiting exited : Reader F

-- Where the goroutine of an operation stands: before it has its payload; in the interceptors and
-- the parser; in `processResults`; back in the goroutine with `operr`; before the test for
-- `complete`; before `Cancel`.
pub data Phase (F : Type 0) : Type 0 where
  starting : (raw : String) → Phase F
  running streaming : Phase F
  served : Option (Error F) → Phase F
  finishing : Option (Error F) → Phase F
  completing leaving : Phase F

pub record Task (F : Type 0) : Type 0 where
  pub id : String
  pub phase : Phase F
  pub sends : List (Send F)

-- Where `backgroundTimeout` stands, if it was started at all: before its `select`, after the timer,
-- at its end.
pub data Timer : Type 0 where
  unused armed fired ended : Timer

-- What goes over the connection.
pub data Frame (F : Type 0) : Type 0 where
  json : Message F → Frame F
  close : MessageType → String → Frame F

-- A request with all its goroutines; a task is keyed by the address of its operation context.
pub record System (F : Type 0) : Type 0 where
  pub request : Request F
  pub reader : Reader F
  pub reader_sends : List (Send F)
  pub tasks : List (ℕ × Task F)
  pub timer : Timer
  pub timer_sends : List (Send F)
  pub wire : List (Frame F)
