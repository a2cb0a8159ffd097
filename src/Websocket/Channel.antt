-- ===== src/Websocket/Channel.antt =====
-- v1/server_websocket.go: the `outgoing` channel, the two ways to leave a send, and what the loop of
-- `serveWebsocketRequest` writes to the connection.
use wsgraphql.Prelude.{
  ℕ, String, Bool, true, false, Option, none, some, List, [], ◌∷◌, ◌++◌, ltb, length, if◌then◌else◌,
}
use wsgraphql.Mutable.{is_done}
use wsgraphql.Context.{Contexts}
use wsgraphql.Apollows.{
  Protocol, graphql_ws, graphql_transport_ws, Operation, keep_alive, pong, nil, Message,
  event_close_normal,
}
use wsgraphql.Apollows.Errors.{event_message_type, apollows_error_text}
use wsgraphql.Websocket.State.{OutgoingMessage, message, failure, Send, Request, Frame, json, close}

unfoldable pub give_up_at : Contexts → Option ℕ → Bool
give_up_at s none = false
give_up_at s (some reqctx) = is_done s reqctx

-- `tickerType`
unfoldable pub ticker_type : Protocol → Operation
ticker_type graphql_ws = keep_alive
ticker_type graphql_transport_ws = pong
ticker_type (Protocol.unnamed _) = Operation.unnamed ""

module _ {F : Type 0} where
  -- `req.outgoing <- …`, on a channel with room for one; on a closed channel a send panics.
  unfoldable pub try_send : Request F → List (Send F) → Option (Request F × List (Send F))
  try_send req [] = none
  try_send req (s ∷ rest) =
      if req.closed
      then some (record req { panicked = true }, rest)
      else if ltb (length req.outgoing) 1
      then some (record req { outgoing = req.outgoing ++ s.item ∷ [] }, rest)
      else none

  -- `case <-RequestContext(ctx).Done()`
  unfoldable pub try_give_up : Request F → List (Send F) → Option (Request F × List (Send F))
  try_give_up req [] = none
  try_give_up req (s ∷ rest) = if give_up_at req.contexts s.unless then some (req, rest) else none

  unfoldable pub attempt : Bool → Request F → List (Send F) → Option (Request F × List (Send F))
  attempt true req sends = try_send req sends
  attempt false req sends = try_give_up req sends

  -- The loop of `serveWebsocketRequest`: a frame, and a close frame if it could not be written.
  unfoldable pub frame_of : OutgoingMessage F → Frame F
  frame_of (message m) = json m
  frame_of (failure e) = close (event_message_type e) (apollows_error_text e)

  unfoldable pub frames : Frame F → Option String → List (Frame F)
  frames f none = f ∷ []
  frames f (some err) = f ∷ close event_close_normal err ∷ []

  unfoldable pub tick_message : Protocol → Message F
  tick_message p = record {
    id = "";
    type = ticker_type p;
    payload = record { value = nil; raw_message = "" };
  }
