-- ===== src/Websocket/Outgoing.antt =====
-- v1/server_websocket.go: what is sent. Each function gives the request with the contexts as it
-- leaves them, and the messages that it sends, in order.
use wsgraphql.Prelude.{ℕ, Bool, true, false, ◌&&◌, none, some, List, [], ◌∷◌, ◌++◌, if◌then◌else◌}
use wsgraphql.Context.{
  Contexts, operation_stopped, boolean, put, request_context_of, operation_context_of,
  context_operation_id, context_operation_stopped,
}
use wsgraphql.Apollows.{
  Protocol, graphql_ws, graphql_transport_ws, Operation, connection_error, data_message, next,
  error, Error, ApollowsError, apollows, result_error, Result, Body, one_error, many_errors, result,
}
use wsgraphql.Formatting.{Gqlerrors, combine_errors}
use wsgraphql.Websocket.State.{message, failure, Send, Request}

abbrev pub is_error : Operation → Bool
is_error error = true
is_error _ = false

-- `OperationContext(ctx).Set(ContextKeyOperationStopped, true)`
unfoldable pub set_stopped : Contexts → ℕ → Contexts
set_stopped s ctx =
    let (s', opctx) = operation_context_of s ctx in put s' opctx operation_stopped (boolean true)

unfoldable pub data_type : Protocol → Operation
data_type graphql_ws = data_message
data_type graphql_transport_ws = next
data_type (Protocol.unnamed _) = Operation.unnamed ""

-- The `return` of `writeWebsocketData`.
abbrev pub drops_stopped : Protocol → Bool
drops_stopped graphql_transport_ws = true
drops_stopped _ = false

abbrev pub is_graphql_ws : Protocol → Bool
is_graphql_ws graphql_ws = true
is_graphql_ws _ = false

module _ {F : Type 0} where
  -- `writeWebsocketMessage`
  unfoldable pub write_websocket_message :
      Request F → ℕ → Operation → Body F → Request F × List (Send F)
  write_websocket_message req ctx t content =
      let s = if is_error t then set_stopped req.contexts ctx else req.contexts in
      let (s', reqctx) = request_context_of s ctx in
      (
        record req { contexts = s' },
        record {
          item = message (record {
            id = context_operation_id s ctx;
            type = t;
            payload = record { value = content; raw_message = "" };
          });
          unless = some reqctx;
        }
            ∷ [],
      )

  -- `req.outgoing <- outgoingMessage{Error: awerr}`
  unfoldable pub send_failure : ApollowsError F → Send F
  send_failure awerr = record { item = failure awerr; unless = none }

  -- `writeWebsocketData`
  unfoldable pub write_websocket_data : Request F → ℕ → Result F → Request F × List (Send F)
  write_websocket_data req ctx res =
      if drops_stopped req.protocol && context_operation_stopped req.contexts ctx
      then (req, [])
      else write_websocket_message req ctx (data_type req.protocol) (result res)

  -- `handleError`
  unfoldable pub handle_error : Gqlerrors F → Request F → ℕ → Error F → Request F × List (Send F)
  handle_error gql req ctx (apollows awerr) =
      let (req', sent) =
        write_websocket_message req ctx connection_error
          (one_error (gql.gql_format_error (some (apollows awerr)))) in
      if is_graphql_ws req.protocol
      then (req', sent ++ send_failure awerr ∷ [])
      else (req, send_failure awerr ∷ [])
  handle_error gql req ctx (result_error content errors) = write_websocket_message req ctx error (
      if is_graphql_ws req.protocol
      then one_error (combine_errors gql errors)
      else many_errors errors)
  handle_error gql req ctx err =
      write_websocket_message req ctx error (one_error (gql.gql_format_error (some err)))
