-- ===== src/Websocket/Reader.antt =====
-- v1/server_websocket.go: what `readWebsocket` does with each message.
--
-- `json.Unmarshal` and the `Init` interceptor are not the program's: whether a payload can be read
-- is a parameter, and what the interceptor did is an argument.
use wsgraphql.Prelude.{
  ℕ, suc, String, String_discrete, Bool, true, false, not, ◌&&◌, Option, none, some, List, [], ◌∷◌,
  ite, if◌then◌else◌,
}
use wsgraphql.Prelude.Dict
use wsgraphql.Mutable
use wsgraphql.Context.{
  Contexts, operation_context, operation_id, operation_stopped, boolean, text, mutable_context, put,
  request_context_of,
}
use wsgraphql.Apollows.{
  Protocol, graphql_transport_ws, Operation, connection_ack, start, subscribe, stop, complete,
  connection_terminate, ping, pong, Error, apollows, event, nil, Message, event_unauthorized,
  event_close_normal,
}
use wsgraphql.Apollows.Errors.{new_subscriber_already_exists_error}
use wsgraphql.Websocket.State.{Send, Request, Task, starting}
use wsgraphql.Websocket.Outgoing.{write_websocket_message, send_failure}

-- Whether the `Init` interceptor called its handler: not; with the context that it was given; with
-- one that it derived from that.
pub data Handed : Type 0 where
  not_called called called_derived : Handed

pub record InitOutcome (F : Type 0) : Type 0 where
  pub handed : Handed
  pub returned : Option (Error F)

-- A handler leaves the request, the messages that it sends, the task that it starts, and its error.
pub record Handled (F : Type 0) : Type 0 where
  pub request : Request F
  pub sends : List (Send F)
  pub spawned : Option (ℕ × Task F)
  pub err : Option (Error F)

abbrev pub is_transport_ws : Protocol → Bool
is_transport_ws graphql_transport_ws = true
is_transport_ws _ = false

unfoldable pub stop_operation : Contexts → Option ℕ → Contexts
stop_operation s none = s
stop_operation s (some prev) = Mutable.cancel (put s prev operation_stopped (boolean true)) prev

module _ {F : Type 0} where
  abbrev pub refused : Request F → Error F → Handled F
  refused req e = record { request = req; sends = []; spawned = none; err = some e }

  -- `!req.init && req.protocol == apollows.WebsocketSubprotocolGraphqlTransportWS`
  abbrev pub lacks_init : Request F → Bool
  lacks_init req = not req.init && is_transport_ws req.protocol

  -- `req.ctx, init = nctx, ninit`
  unfoldable pub hand : Handed → Request F → Request F
  hand not_called req = req
  hand called req = req
  hand called_derived req =
      let (s, nctx) = Mutable.new_mutable_context req.contexts (some req.ctx) in
      record req { contexts = s; ctx = nctx }

  unfoldable pub acknowledge : Request F → Option (Error F) → Handled F
  acknowledge req (some e) = refused req e
  acknowledge req none =
      let (req', sent) = write_websocket_message req req.ctx connection_ack nil in
      record { request = req'; sends = sent; spawned = none; err = none }

  unfoldable pub init_with : Request F → InitOutcome F → Option (Error F) → Handled F
  init_with req outcome (some e) = refused req e
  init_with req outcome none = acknowledge (hand outcome.handed req) outcome.returned

  -- `readWebsocketInit`
  unfoldable pub read_websocket_init :
      (String → Option (Error F)) → Request F → Message F → InitOutcome F → Handled F
  read_websocket_init unmarshal req msg outcome =
      init_with req outcome
        (ite (String_discrete msg.payload.raw_message "") none (unmarshal msg.payload.raw_message))

  unfoldable pub spawn : Request F → Message F → Handled F
  spawn req msg =
      let (s, opctx) = Mutable.new_mutable_context req.contexts (some req.ctx) in
      let s' = put s opctx operation_context (mutable_context opctx) in
      record {
        request = record req {
          contexts = put s' opctx operation_id (text msg.id);
          operations = Dict.insert String_discrete msg.id opctx req.operations;
          wg = suc req.wg;
        };
        sends = [];
        spawned =
            some
              (opctx, record { id = msg.id; phase = starting msg.payload.raw_message; sends = [] });
        err = none;
      }

  unfoldable pub unless_running : Request F → Message F → Option ℕ → Handled F
  unless_running req msg (some _) =
      refused req (apollows (new_subscriber_already_exists_error msg.id))
  unless_running req msg none = spawn req msg

  -- `readWebsocketStart`
  unfoldable pub read_websocket_start : Request F → Message F → Handled F
  read_websocket_start req msg =
      if lacks_init req
      then refused req (apollows (event event_unauthorized))
      else unless_running req msg (Dict.lookup String_discrete msg.id req.operations)

  -- `readWebsocketStop`
  unfoldable pub read_websocket_stop : Request F → Message F → Handled F
  read_websocket_stop req msg =
      if lacks_init req then refused req (apollows (event event_unauthorized)) else record {
        request = record req {
          contexts =
              stop_operation req.contexts (Dict.lookup String_discrete msg.id req.operations);
        };
        sends = [];
        spawned = none;
        err = none;
      }

  -- `readWebsocketTerminate`
  unfoldable pub read_websocket_terminate : Request F → Handled F
  read_websocket_terminate req =
      let (s, reqctx) = request_context_of req.contexts req.ctx in
      if is_transport_ws req.protocol
      then refused req (apollows (event event_unauthorized))
      else record {
        request = record req { contexts = put s reqctx operation_stopped (boolean true) };
        sends = send_failure (event event_close_normal) ∷ [];
        spawned = none;
        err = none;
      }

  -- `readWebsocketPing`
  unfoldable pub read_websocket_ping : Request F → Message F → Handled F
  read_websocket_ping req msg =
      let (req', sent) = write_websocket_message req req.ctx pong msg.payload.value in
      record { request = req'; sends = sent; spawned = none; err = none }

  -- The `switch` of `readWebsocket`, without the case of `connection_init`.
  unfoldable pub dispatch : Operation → Request F → Message F → Handled F
  dispatch start req msg = read_websocket_start req msg
  dispatch subscribe req msg = read_websocket_start req msg
  dispatch stop req msg = read_websocket_stop req msg
  dispatch complete req msg = read_websocket_stop req msg
  dispatch connection_terminate req msg = read_websocket_terminate req
  dispatch ping req msg = read_websocket_ping req msg
  dispatch _ req msg = record { request = req; sends = []; spawned = none; err = none }
